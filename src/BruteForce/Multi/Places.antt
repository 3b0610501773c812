-- ===== src/BruteForce/Multi/Places.antt =====
-- The list of the ids of a label when one of its ids is replaced.
use vector_similarity.Base.{
  ℕ, zero, suc, ◌+◌, ◌≤◌, ◌<◌, ◌≡◌, ◌≢◌, refl, sym, ap, ◌∙◌, List, [], ◌∷◌, some, map, length,
  get_elem?, set, drop, arith, eq_cases, inl, inr, eq→==, ==_ne, get_elem?-some, count, place-count,
}
use vector_similarity.BruteForce.Multi.{replace_from}

suc_place : (k i : ℕ) → suc (k + i) ≡ suc k + i
suc_place k i = omega arith

pub get_elem?-drop {ℓ} :
    {A : Type ℓ} (k : ℕ) (xs : List A) (i : ℕ) → get_elem? (drop k xs) i ≡ get_elem? xs (k + i)
get_elem?-drop zero xs i = ap (get_elem? xs) (omega arith)
get_elem?-drop (suc k) [] i = refl
get_elem?-drop (suc k) (x ∷ xs) i = get_elem?-drop k xs i ∙ ap (get_elem? (x ∷ xs)) (suc_place k i)

pub drop-set {ℓ} :
    {A : Type ℓ} (k : ℕ) (xs : List A) (i : ℕ) (v : A)
    → drop k (set xs (k + i) v) ≡ set (drop k xs) i v
drop-set zero xs i v = ap (λ j. set xs j v) (omega arith)
drop-set (suc k) [] i v = refl
drop-set (suc k) (x ∷ xs) i v =
    ap (λ j. drop (suc k) (set (x ∷ xs) j v)) (sym (suc_place k i)) ∙ drop-set k xs i v

-- `replaceIdOfLabel` finds an old id at or after each place of one
pub replace_from-set :
    (m : ℕ) (ids : List ℕ) (new_id old_id q : ℕ)
    → m ≤ length ids
    → q < m
    → get_elem? ids q ≡ some old_id
    → (p : ℕ) × (q ≤ p)
      × (get_elem? ids p ≡ some old_id)
      × (replace_from m ids new_id old_id ≡ some (set ids p new_id))
unfolding replace_from
replace_from-set zero ids new_id old_id q h lt here = absurd (omega arith)
replace_from-set (suc m) ids new_id old_id q h lt here =
    let (x, at) = get_elem?-some ids m (omega arith) in
    elim (eq_cases x old_id) [
      | inl same ↦ (m, omega arith, rw (at, same) refl, rw (at, eq→== x old_id same) refl)
      | inr other ↦
          let apart : q ≢ m = λ e. other (some-eq x (rw (← at, ← e) here)) in
          let (p, after, old, done) =
            replace_from-set m ids new_id old_id q (omega arith) (omega arith) here in
          (p, after, old, rw (at, ==_ne x old_id other) done)
    ]
  where
    some-eq : (x : ℕ) → some x ≡ some old_id → x ≡ old_id
    some-eq x e = cc

-- Two functions that agree on the ids of a list give the same list.
pub map_same {ℓ} :
    {B : Type ℓ} (f g : ℕ → B) (xs : List ℕ)
    → ((j : ℕ) → 0 < count j xs → f j ≡ g j)
    → map f xs ≡ map g xs
map_same f g [] same = refl
map_same f g (x ∷ xs) same =
    rw (same x (ground arith), map_same f g xs (λ j h. same j (omega arith))) refl

-- The last vector moves to the place `id`: where the list names it, it is found there.
pub map-set {ℓ} :
    {B : Type ℓ} (f g : ℕ → B) (xs : List ℕ) (q old new : ℕ)
    → get_elem? xs q ≡ some old
    → count old xs ≡ 1
    → f new ≡ g old
    → ((j : ℕ) → 0 < count j xs → j ≢ old → f j ≡ g j)
    → map f (set xs q new) ≡ map g xs
map-set f g [] q old new at once moved same = cc
map-set f g (x ∷ xs) zero old new at once moved same =
    let head : x ≡ old = cc in
    let gone : count old xs ≡ 0 = ground (arith, head) in
    rw
      (
        moved,
        head,
        map_same f g xs
            (λ j h. same j (omega arith) (λ e. absurd (omega (arith, ap (λ i. count i xs) e)))),
      )
      refl
map-set f g (x ∷ xs) (suc q) old new at once moved same =
    let inside = place-count old xs q at in
    let apart : x ≢ old = λ e. ground arith in
    let rest : count old xs ≡ 1 = ground arith in
    rw
      (
        same x (ground arith) apart,
        map-set f g xs q old new at rest moved (λ j h. same j (omega arith)),
      )
      refl
