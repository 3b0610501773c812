-- ===== src/Hnsw/Heuristic/Choice.antt =====
-- What the heuristic selects: it splits the candidates, and no more than `m` are left.
use mathlib.Core.Logic.{∥∥₁_elim}
use mathlib.Core.List.{Permᴰ}
use native.Mathlib.Nat.{ℕ_set}
use vector_similarity.Base.{
  ℕ, ◌+◌, ◌≤◌, ◌<◌, ◌≡◌, refl, sym, ap, subst, ◌∙◌, false, List, [], ◌∷◌, ◌++◌, map, Perm, some,
  length, ltb, ◌==◌, arith, Bool-cases, inl, inr, length-append, length-perm,
}
use vector_similarity.Query.Order.{All}
use vector_similarity.Hnsw.Search.Candidates.{All-both, All-count}
use vector_similarity.Hnsw.Heuristic.Least.{
  scored-perm, min_element-All, min_element-least, IsByDistance-least, select_head,
}
use vector_similarity.Hnsw.Counts.{count, count-append, one_if}
use vector_similarity.Hnsw.Heuristic.{
  Candidates, ids, Sorter, IsByDistance, select, get_neighbors_by_heuristic2, min_element,
  get_neighbors_and_closest,
}

count-permᴰ : {xs ys : Candidates} (a : ℕ) → Permᴰ xs ys → count a (ids xs) ≡ count a (ids ys)
count-permᴰ a Permᴰ.nil = refl
count-permᴰ a (Permᴰ.cons e p) = omega (arith, count-permᴰ a p, ap (λ c. one_if (c.1 == a)) e)
count-permᴰ a (Permᴰ.swap d e) =
    omega (arith, ap (λ c. one_if (c.1 == a)) d, ap (λ c. one_if (c.1 == a)) e)
count-permᴰ a (Permᴰ.trans p q) = count-permᴰ a p ∙ count-permᴰ a q

pub count-perm : (a : ℕ) (xs ys : Candidates) → Perm xs ys → count a (ids xs) ≡ count a (ids ys)
count-perm a xs ys p = ∥∥₁_elim p (ℕ_set _ _) (count-permᴰ a)

pub ids-map : (f : ℕ → ℕ) (cs : List ℕ) → ids (map (λ c. (f c, c)) cs) ≡ cs
ids-map f [] = refl
ids-map f (c ∷ cs) = ap (◌∷◌ c) (ids-map f cs)

pub length-ids : (cs : Candidates) → length (ids cs) ≡ length cs
length-ids [] = refl
length-ids (c ∷ cs) = omega (arith, length-ids cs)

count-ids_append :
    (a : ℕ) (xs ys : Candidates) → count a (ids (xs ++ ys)) ≡ count a (ids xs) + count a (ids ys)
count-ids_append a [] ys = omega arith
count-ids_append a (x ∷ xs) ys = omega (arith, count-ids_append a xs ys)

-- each of the selected is at least as far from those selected before it as from the node
abbrev pub AllApart : (ℕ → ℕ → ℕ) → Candidates → Candidates → Type 0
AllApart dist before [] = Unit
AllApart dist before (c ∷ cs) =
    All (λ s. c.0 ≤ dist s.1 c.1) before × AllApart dist (before ++ c ∷ []) cs

module _ (dist : ℕ → ℕ → ℕ) where
  count-select :
      (a m : ℕ) (cs selected : Candidates) (removed : List ℕ)
      → count a (ids (select dist m cs selected removed).0)
          + count a (select dist m cs selected removed).1
        ≡ count a (ids cs) + count a (ids selected) + count a removed
  unfolding select
  count-select a m [] selected removed = omega arith
  count-select a m (c ∷ cs) selected removed = ground (
    arith,
    count-select a m cs selected (removed ++ c.1 ∷ []),
    count-select a m cs (selected ++ c ∷ []) removed,
    count-append a removed (c.1 ∷ []),
    count-append a removed (ids (c ∷ cs)),
    count-ids_append a selected (c ∷ []),
  )

  length-select :
      (m : ℕ) (cs selected : Candidates) (removed : List ℕ)
      → length selected ≤ m
      → length (select dist m cs selected removed).0 ≤ m
  unfolding select
  length-select m [] selected removed h = h
  length-select m (c ∷ cs) selected removed h = ground (
    arith,
    length-select m cs selected (removed ++ c.1 ∷ []),
    length-select m cs (selected ++ c ∷ []) removed,
    length-append selected (c ∷ []),
  )

  module _ (sorter : Sorter) where
    pub count-get_neighbors :
        (a m : ℕ) (cs : Candidates)
        → count a (ids (get_neighbors_by_heuristic2 dist sorter m cs).0)
            + count a (get_neighbors_by_heuristic2 dist sorter m cs).1
          ≡ count a (ids cs)
    unfolding get_neighbors_by_heuristic2
    count-get_neighbors a m cs = ground (
      arith,
      count-select a m (sorter.sort cs) [] [],
      count-perm a (sorter.sort cs) cs (sorter.sort-perm cs),
    )

    pub length-get_neighbors :
        (m : ℕ) (cs : Candidates) → length (get_neighbors_by_heuristic2 dist sorter m cs).0 ≤ m
    unfolding get_neighbors_by_heuristic2
    length-get_neighbors m cs = ground (arith, length-select m (sorter.sort cs) [] [])

-- what the choice for a new element returns
pub record Chosen (dist : ℕ → ℕ → ℕ) (sorter : Sorter) (m : ℕ) (cs : Candidates) : Type 0 where
  pub closest : ℕ
  pub result :
      get_neighbors_and_closest dist sorter m cs
      ≡ some ((get_neighbors_by_heuristic2 dist sorter m cs).0, closest)
  pub candidate : 0 < count closest (ids cs)
  pub nearest :
      (query : ℕ → ℕ)
      → All (λ c. c.0 ≡ query c.1) cs
      → (v : ℕ) → 0 < count v (ids cs)
      → query closest ≤ query v

min_element-candidate :
    (b : ℕ × ℕ) (cs : Candidates) → 0 < count (min_element b cs).1 (ids (b ∷ cs))
unfolding min_element
min_element-candidate b [] = ground arith
min_element-candidate b (c ∷ cs) =
    ground (arith, min_element-candidate c cs, min_element-candidate b cs)

-- a candidate with its distance, where another is no farther than any
nearest_of :
    (query : ℕ → ℕ) (b : ℕ × ℕ) (cs : Candidates)
    → b.0 ≡ query b.1
    → All (λ c. c.0 ≡ query c.1) cs
    → All (λ c. b.0 ≤ c.0) cs
    → (v : ℕ) → 0 < count v (ids cs)
    → query b.1 ≤ query v
nearest_of query b cs at scored least v here =
    let (c, e, p) =
      All-count (λ c. (c.0 ≡ query c.1) × (b.0 ≤ c.0)) v cs (All-both _ _ cs scored least) here in
    omega (arith, at, p.0, p.1, ap query e)

some_first : (cs : Candidates) → 0 < length cs → (f : ℕ × ℕ) × (fs : Candidates) × (cs ≡ f ∷ fs)
some_first [] h = absurd (omega arith)
some_first (f ∷ fs) h = (f, fs, refl)

module _ (dist : ℕ → ℕ → ℕ) (sorter : Sorter) where
  -- the first of those left is the first of the sorted candidates
  Chosen-many :
      (m : ℕ) (c : ℕ × ℕ) (cs : Candidates)
      → 0 < m
      → ltb (length (c ∷ cs)) m ≡ false
      → Chosen dist sorter m (c ∷ cs)
  unfolding get_neighbors_and_closest get_neighbors_by_heuristic2
  Chosen-many m c cs pos many =
      let sorted = sorter.sort (c ∷ cs) in
      let perm = sorter.sort-perm (c ∷ cs) in
      let (f, fs, e) = some_first sorted (omega (arith, length-perm perm)) in
      let (rest, first) = select_head dist m f fs pos in
      let at_first : (select dist m sorted [] []).0 ≡ f ∷ rest =
        ap (λ (l : Candidates). (select dist m l [] []).0) e ∙ first in
      let here : 0 < count f.1 (ids sorted) =
        subst (λ (l : Candidates). 0 < count f.1 (ids l)) (sym e) (ground arith) in
      record {
        closest = f.1;
        result = rw (many, at_first) refl;
        candidate = omega (arith, here, count-perm f.1 sorted (c ∷ cs) perm);
        nearest = λ query scored v there.
            let all : All (λ x. x.0 ≡ query x.1) (f ∷ fs) =
              subst (All (λ x. x.0 ≡ query x.1)) e
                (scored-perm query sorted (c ∷ cs) perm scored) in
            let least =
              IsByDistance-least f fs (subst IsByDistance e (sorter.sort-IsByDistance (c ∷ cs))) in
            nearest_of query f (f ∷ fs) all.0 all least v (
              subst (λ (l : Candidates). 0 < count v (ids l)) e
                (omega (arith, there, count-perm v sorted (c ∷ cs) perm)));
      }

  pub get_neighbors_and_closest_lem :
      (m : ℕ) (cs : Candidates) → 0 < m → 0 < length cs → Chosen dist sorter m cs
  unfolding get_neighbors_and_closest
  get_neighbors_and_closest_lem m [] pos h = absurd (omega arith)
  get_neighbors_and_closest_lem m (c ∷ cs) pos h = elim (Bool-cases (ltb (length (c ∷ cs)) m)) [
    | inl few ↦ record {
      closest = (min_element c cs).1;
      result = rw few refl;
      candidate = min_element-candidate c cs;
      nearest = λ query scored v there.
          nearest_of query (min_element c cs) (c ∷ cs)
            (min_element-All (λ x. x.0 ≡ query x.1) c cs scored) scored (min_element-least c cs) v
            there;
    }
    | inr many ↦ Chosen-many m c cs pos many
  ]

-- what the heuristic leaves of the candidates, and what it removes
pub record Selected (dist : ℕ → ℕ → ℕ) (m : ℕ) (cs left : Candidates) (removed : List ℕ)
    : Type 0 where
  pub split : (a : ℕ) → count a (ids left) + count a removed ≡ count a (ids cs)
  pub bounded : length left ≤ m
  pub few : length cs < m → left ≡ cs
  pub apart : m ≤ length cs → AllApart dist [] left
