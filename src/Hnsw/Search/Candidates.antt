-- ===== src/Hnsw/Search/Candidates.antt =====
-- How often an id is in the queues of a search.
use vector_similarity.Base.{
  ℕ, suc, ◌+◌, ◌≤◌, ◌<◌, ◌≡◌, ◌⊎◌, ◌∙◌, refl, ap, sym, none, Bool, false, not, ◌&&◌, ◌||◌, [], ◌∷◌,
  some, length, ltb, ◌==◌, if◌then◌else◌, arith, Bool-cases, inl, inr,
}
use vector_similarity.Query.Order.{All, All-map, AtMost, IsDescending}
use vector_similarity.Query.Heap.{Heap, emplace, pop, top}
use vector_similarity.Hnsw.Counts.{one_if, count}
use vector_similarity.Hnsw.Heuristic.{ids}
use vector_similarity.Hnsw.Search.{emplace_candidate}

pub count-emplace_candidate :
    (v : ℕ) (c : ℕ × ℕ) (h : Heap)
    → count v (ids (emplace_candidate c h)) ≡ one_if (c.1 == v) + count v (ids h)
count-emplace_candidate v c [] = refl
count-emplace_candidate v c (x ∷ h) = ground (arith, count-emplace_candidate v c h)

pub length-emplace_candidate :
    (c : ℕ × ℕ) (h : Heap) → length (emplace_candidate c h) ≡ suc (length h)
length-emplace_candidate c [] = refl
length-emplace_candidate c (x ∷ h) = ground (arith, length-emplace_candidate c h)

pub All-both {κ κ'} :
    (P : ℕ × ℕ → Type κ) (Q : ℕ × ℕ → Type κ') (h : Heap)
    → All P h
    → All Q h
    → All (λ c. P c × Q c) h
All-both P Q [] p q = tt
All-both P Q (x ∷ h) p q = ((p.0, q.0), All-both P Q h p.1 q.1)

-- the nearest candidates come first
abbrev pub InOrder : Heap → Type 0
InOrder [] = Unit {0}
InOrder (x ∷ h) = All (λ y. x.0 ≤ y.0) h × InOrder h

pub emplace_candidate-All {κ} :
    (P : ℕ × ℕ → Type κ) (c : ℕ × ℕ) (h : Heap) → P c → All P h → All P (emplace_candidate c h)
emplace_candidate-All P c [] p all = (p, tt)
emplace_candidate-All P c (x ∷ h) p all =
    elim (Bool-cases (ltb c.0 x.0 || (not (ltb x.0 c.0) && ltb x.1 c.1))) [
      | inl first ↦ rw first (p, all)
      | inr later ↦ rw later (all.0, emplace_candidate-All P c h p all.1)
    ]

pub emplace_candidate-InOrder : (c : ℕ × ℕ) (h : Heap) → InOrder h → InOrder (emplace_candidate c h)
emplace_candidate-InOrder c [] o = (tt, tt)
emplace_candidate-InOrder c (x ∷ h) o =
    elim (Bool-cases (ltb c.0 x.0 || (not (ltb x.0 c.0) && ltb x.1 c.1))) [
      | inl first ↦
          let near : c.0 ≤ x.0 = ground (arith, first) in
          rw first ((near, All-map h (λ y k. omega (arith, near, k)) o.0), o)
      | inr later ↦ rw later (
        emplace_candidate-All (λ y. x.0 ≤ y.0) c h (ground (arith, later)) o.0,
        emplace_candidate-InOrder c h o.1,
      )
    ]

-- a property of the entries of an id
pub All-count {κ} :
    (P : ℕ × ℕ → Type κ) (v : ℕ) (h : Heap)
    → All P h
    → 0 < count v (ids h)
    → (c : ℕ × ℕ) × (c.1 ≡ v) × P c
All-count P v [] all here = absurd (omega arith)
All-count P v (x ∷ h) all here = elim (Bool-cases (x.1 == v)) [
  | inl same ↦ (x, ground (arith, same), all.0)
  | inr other ↦ All-count P v h all.1 (ground (arith, here, other))
]

pub first_is_least :
    (query : ℕ → ℕ) (deleted : ℕ → Bool) (u : ℕ) (c : ℕ × ℕ) (cs : Heap)
    → InOrder (c ∷ cs)
    → All (λ x. deleted x.1 ≡ false → x.0 ≡ query x.1) (c ∷ cs)
    → 0 < count u (ids (c ∷ cs))
    → deleted u ≡ false
    → c.0 ≤ query u
first_is_least query deleted u c cs o scored here alive =
    let least : All (λ x. c.0 ≤ x.0) (c ∷ cs) = (omega arith, o.0) in
    let (x, at, p) =
      All-count (λ x. (c.0 ≤ x.0) × (deleted x.1 ≡ false → x.0 ≡ query x.1)) u (c ∷ cs)
        (All-both _ _ (c ∷ cs) least scored) here in
    omega (arith, p.0, p.1 (ap deleted at ∙ alive), ap query at)

pub score_under :
    (query : ℕ → ℕ) (u l : ℕ) (h : Heap)
    → All (λ c. c.0 ≡ query c.1) h
    → All (λ c. c.0 ≤ l) h
    → 0 < count u (ids h)
    → query u ≤ l
score_under query u l h scored under here =
    let (x, at, p) =
      All-count (λ c. (c.0 ≡ query c.1) × (c.0 ≤ l)) u h (All-both _ _ h scored under) here in
    omega (arith, p.0, p.1, ap query at)

pub count-emplace :
    (v : ℕ) (c : ℕ × ℕ) (h : Heap)
    → count v (ids (emplace c h)) ≡ one_if (c.1 == v) + count v (ids h)
unfolding emplace
count-emplace v c [] = refl
count-emplace v c (x ∷ h) = ground (arith, count-emplace v c h)

-- a node of the score `d` has its place in the queue, or the queue is full of others that are no farther
abbrev pub Settled : ℕ → ℕ → ℕ → Heap → Type 0
Settled ef v d h = (0 < count v (ids h)) ⊎ ((length h ≡ ef) × All (λ c. c.0 ≤ d) h)

abbrev pub LowerIs : ℕ → Heap → Type 0
LowerIs l [] = Unit {0}
LowerIs l (x ∷ h) = l ≡ x.0

pub LowerIs-top : (l : ℕ) (h : Heap) → LowerIs (elim (top h) [ none ↦ l | some c ↦ c.0 ]) h
unfolding top
LowerIs-top l [] = tt
LowerIs-top l (x ∷ h) = refl

within : (y x : ℕ × ℕ) (d : ℕ) → AtMost y x → x.0 ≡ d → y.0 ≤ d
within y x d (inl less) e = omega arith
within y x d (inr same) e = omega (arith, same.0)

pub under_lower : (l : ℕ) (h : Heap) → LowerIs l h → IsDescending h → All (λ c. c.0 ≤ l) h
under_lower l [] lower d = tt
under_lower l (x ∷ h) lower d =
    (omega (arith, lower), All-map h (λ y k. within y x l k (sym lower)) d.0)

pub below_lower :
    (l d q : ℕ) (h : Heap) → LowerIs l h → All (λ c. c.0 ≤ d) h → 0 < length h → q < l → q ≤ d
below_lower l d q [] lower all pos less = absurd (omega arith)
below_lower l d q (x ∷ h) lower all pos less = omega (arith, lower, all.0)

-- what stays of a queue after the pop where it has too many entries
pub record Cut (ef : ℕ) (h h' : Heap) : Type 1 where
  pub counts : (v : ℕ) → count v (ids h') ≤ count v (ids h)
  pub bounded : length h' ≤ ef
  pub smaller : length h' ≤ length h
  pub still : (P : ℕ × ℕ → Type 0) → All P h → All P h'
  pub descending : IsDescending h → IsDescending h'
  pub full : ef ≤ length h → length h' ≡ ef
  pub settles :
      (query : ℕ → ℕ)
      → IsDescending h
      → All (λ c. c.0 ≡ query c.1) h
      → (v : ℕ) → 0 < count v (ids h)
      → Settled ef v (query v) h'
  pub whole : length h ≤ ef → (v : ℕ) → count v (ids h') ≡ count v (ids h)

pub cut_lem :
    (ef : ℕ) (h : Heap)
    → length h ≤ suc ef
    → (h' : Heap) × ((if ltb ef (length h) then pop h else some h) ≡ some h') × Cut ef h h'
unfolding pop
cut_lem ef [] le = (
  [],
  ground arith,
  record {
    counts = λ v. omega arith;
    bounded = omega arith;
    smaller = omega arith;
    still = λ P p. p;
    descending = λ d. d;
    full = λ b. omega arith;
    settles = λ query d scored v here. inl here;
    whole = λ b v. refl;
  },
)
cut_lem ef (x ∷ h) le = elim (Bool-cases (ltb ef (length (x ∷ h)))) [
  | inl over ↦ (
    h,
    rw over refl,
    record {
      counts = λ v. omega arith;
      bounded = omega arith;
      smaller = omega arith;
      still = λ P p. p.1;
      descending = λ d. d.1;
      full = λ b. ground (arith, over);
      settles = λ query d scored v here. elim (Bool-cases (x.1 == v)) [
        | inl same ↦
            let at : x.0 ≡ query v = scored.0 ∙ ap query {x = x.1} {y = v} (ground (arith, same)) in
            inr (ground (arith, over), All-map h (λ y k. within y x (query v) k at) d.0)
        | inr other ↦ inl (ground (arith, here, other))
      ];
      whole = λ b v. absurd (ground (arith, over));
    },
  )
  | inr fits ↦ (
    x ∷ h,
    rw fits refl,
    record {
      counts = λ v. omega arith;
      bounded = ground (arith, fits);
      smaller = omega arith;
      still = λ P p. p;
      descending = λ d. d;
      full = λ b. ground (arith, fits);
      settles = λ query d scored v here. inl here;
      whole = λ b v. refl;
    },
  )
]
