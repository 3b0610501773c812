-- ===== src/BruteForce/Multi/ById/Without.antt =====
-- The lists of ids in deleteVectorById: the one of the label loses a place, and the last vector
-- may be renamed in the same list.
use vector_similarity.Base.{
  ℕ, zero, suc, ◌+◌, ◌<◌, ◌≡◌, ◌≢◌, refl, sym, ap, ◌∙◌, List, [], ◌∷◌, Option, none, some, map,
  length, get_elem?, set, arith, ◌==◌, if◌then◌else◌, eq_cases, inl, inr, eq→==, ==_ne, ==_self,
  get_elem?-lt, length-set, count, one_if, count-place, place-count, some-inj,
}
use vector_similarity.Base.Dict
use vector_similarity.Base.Dict.{Dict, find, find-insert, find-erase}
use vector_similarity.BruteForce.Multi.Places.{replace_from-set}
use vector_similarity.BruteForce.Multi.Live.{Renamed, moved, unmoved, listed}
use vector_similarity.BruteForce.Multi.{erase_at, index_of, replace_id_of_label, write_ids}

count-erase_at :
    (i a c : ℕ) (xs : List ℕ)
    → get_elem? xs i ≡ some a
    → count c xs ≡ count c (erase_at i xs) + one_if (a == c)
unfolding erase_at
count-erase_at i a c [] h = cc
count-erase_at zero a c (x ∷ xs) h = ground arith
count-erase_at (suc i) a c (x ∷ xs) h = ground (arith, count-erase_at i a c xs h)

-- a write at another place than the erased one
erase_at-set :
    (i p v : ℕ) (xs : List ℕ)
    → i ≢ p
    → (q : ℕ) × (get_elem? (erase_at i xs) q ≡ get_elem? xs p)
      × (erase_at i (set xs p v) ≡ set (erase_at i xs) q v)
unfolding erase_at
erase_at-set i p v [] h = (0, refl, refl)
erase_at-set zero zero v (x ∷ xs) h = absurd (h refl)
erase_at-set zero (suc p) v (x ∷ xs) h = (p, refl, refl)
erase_at-set (suc i) zero v (x ∷ xs) h = (0, refl, refl)
erase_at-set (suc i) (suc p) v (x ∷ xs) h =
    let (q, at, e) = erase_at-set i p v xs (λ same. h (ap suc same)) in (suc q, at, ap (◌∷◌ x) e)

pub map-erase_at {ℓ} :
    {B : Type ℓ} (f : ℕ → B) (i : ℕ) (xs : List ℕ) → map f (erase_at i xs) ≡ erase_at i (map f xs)
unfolding erase_at
map-erase_at f i [] = refl
map-erase_at f zero (x ∷ xs) = refl
map-erase_at f (suc i) (x ∷ xs) = ap (◌∷◌ (f x)) (map-erase_at f i xs)

-- the place of an id that is listed once
pub index_of_lem :
    (id i : ℕ) (xs : List ℕ) → get_elem? xs i ≡ some id → count id xs ≡ 1 → index_of id xs ≡ some i
unfolding index_of
index_of_lem id i [] at once = cc
index_of_lem id zero (x ∷ xs) at once = let e : x ≡ id = cc in rw (eq→== x id e) refl
index_of_lem id (suc i) (x ∷ xs) at once =
    let inside = place-count id xs i at in
    let miss : x ≢ id = λ e. ground arith in
    let rest : count id xs ≡ 1 = ground arith in
    rw (==_ne x id miss, index_of_lem id i xs at rest) refl

-- the lists of ids, without place `i` of the one of `label`
abbrev pub without : ℕ → ℕ → Dict (List ℕ) → ℕ → List ℕ
without i label d l = if label == l then erase_at i (listed (find l d)) else listed (find l d)

pub write_ids_lem :
    (label l : ℕ) (xs : List ℕ) (d : Dict (List ℕ))
    → (listed (find l (write_ids label xs d)) ≡ (if label == l then xs else listed (find l d)))
      × ((find l d ≢ some []) → find l (write_ids label xs d) ≢ some [])
write_ids_lem label l [] d =
    (ground (arith, find-erase label l d), λ filled e. ground (arith, find-erase label l d))
write_ids_lem label l (x ∷ xs) d = (
  ground (arith, find-insert label l (x ∷ xs) d),
  λ filled e. ground (arith, find-insert label l (x ∷ xs) d),
)

-- the write at place `p` of the list of `top`, seen in the lists without place `i`
moved_without :
    (i label id last top p : ℕ) (d : Dict (List ℕ)) (ids xs : List ℕ)
    → id ≢ last
    → find label d ≡ some ids
    → get_elem? ids i ≡ some id
    → find top d ≡ some xs
    → get_elem? xs p ≡ some last
    → Renamed id last top (without i label d) (without i label (Dict.insert top (set xs p id) d))
moved_without i label id last top p d ids xs other found at here old = elim (eq_cases label top) [
  | inl same ↦
      let hit = eq→== label top same in
      let both : ids ≡ xs = some-inj (sym found ∙ ap (λ l. find l d) same ∙ here) in
      let apart : i ≢ p = λ e.
        other (some-inj (sym at ∙ ap (get_elem? ids) e ∙ ap (λ ys. get_elem? ys p) both ∙ old)) in
      let (q, place, e) = erase_at-set i p id xs apart in
      moved q other (rw (hit, here) (place ∙ old)) (λ l. elim (eq_cases top l) [
        | inl there ↦
            rw
              (
                eq→== top l there,
                ← there,
                hit,
                here,
                find-insert top top (set xs p id) d,
                ==_self top,
              )
              e
        | inr away ↦
            rw
              (
                ==_ne top l away,
                ==_ne label l (λ k. away (sym same ∙ k)),
                find-insert top l (set xs p id) d,
                ==_ne top l away,
              )
              refl
      ])
  | inr elsewhere ↦
      let miss = ==_ne label top elsewhere in
      moved p other (rw (miss, here) old) (λ l. elim (eq_cases top l) [
        | inl there ↦
            rw
              (
                eq→== top l there,
                ← there,
                miss,
                here,
                find-insert top top (set xs p id) d,
                ==_self top,
              )
              refl
        | inr away ↦ rw (find-insert top l (set xs p id) d, ==_ne top l away) refl
      ])
]

-- `replaceIdOfLabel` writes at a place that the erasure keeps
pub Renamed-without :
    (i label id last top : ℕ) (d : Dict (List ℕ)) (ids : List ℕ)
    → find label d ≡ some ids
    → get_elem? ids i ≡ some id
    → (id ≢ last → 0 < count last (listed (find top d)))
    → (d' : Dict (List ℕ)) × ((if id == last then some d else replace_id_of_label top id last d)
        ≡ some d')
      × ((l : ℕ) → find l d ≢ some [] → find l d' ≢ some [])
      × ((ids' : List ℕ) × (find label d' ≡ some ids'))
      × Renamed id last top (without i label d) (without i label d')
Renamed-without i label id last top d ids found at inside = elim (eq_cases id last) [
  | inl same ↦ (d, rw (eq→== id last same) refl, λ l h. h, (ids, found), unmoved same (λ l. refl))
  | inr other ↦ replaced other (find top d) refl (inside other)
]
  where
    kept_filled :
        (p l : ℕ) (xs : List ℕ)
        → get_elem? xs p ≡ some last
        → find l d ≢ some []
        → find l (Dict.insert top (set xs p id) d) ≢ some []
    kept_filled p l xs old filled e = elim (eq_cases top l) [
      | inl there ↦
          let gone : some (set xs p id) ≡ some [] =
            rw (find-insert top l (set xs p id) d, eq→== top l there) at e in
          absurd
            (omega (arith, ap length (some-inj gone), length-set xs p id, get_elem?-lt xs p old))
      | inr away ↦ filled (rw (find-insert top l (set xs p id) d, ==_ne top l away) at e)
    ]

    still_there : (ys : List ℕ) → (ids' : List ℕ) × (find label (Dict.insert top ys d) ≡ some ids')
    still_there ys = elim (eq_cases top label) [
      | inl same ↦ (ys, find-insert top label ys d ∙ rw (eq→== top label same) refl)
      | inr away ↦ (ids, find-insert top label ys d ∙ rw (==_ne top label away) found)
    ]

    replaced :
        id ≢ last
        → (o : Option (List ℕ)) → find top d ≡ o
        → 0 < count last (listed o)
        → (d' : Dict (List ℕ)) × ((if id == last then some d else replace_id_of_label top id last d)
            ≡ some d')
          × ((l : ℕ) → find l d ≢ some [] → find l d' ≢ some [])
          × ((ids' : List ℕ) × (find label d' ≡ some ids'))
          × Renamed id last top (without i label d) (without i label d')
    replaced other none e h = absurd (omega arith)
    replaced other (some xs) e h =
        let (q, here) = count-place last xs h in
        let (p, _, old, done) =
          replace_from-set (length xs) xs id last q (omega arith) (get_elem?-lt xs q here) here in
        (
          Dict.insert top (set xs p id) d,
          rw (==_ne id last other, e) (rw done refl),
          λ l filled. kept_filled p l xs old filled,
          still_there (set xs p id),
          moved_without i label id last top p d ids xs other found at e old,
        )

pub count-without :
    (i label id l c : ℕ) (d : Dict (List ℕ)) (ids : List ℕ)
    → find label d ≡ some ids
    → get_elem? ids i ≡ some id
    → count c (listed (find l d))
      ≡ count c (without i label d l) + (if label == l then one_if (id == c) else 0)
count-without i label id l c d ids found at = elim (eq_cases label l) [
  | inl same ↦ rw (eq→== label l same, ← same, found) (count-erase_at i id c ids at)
  | inr other ↦ rw (==_ne label l other) (omega arith)
]
