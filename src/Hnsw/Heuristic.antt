-- ===== src/Hnsw/Heuristic.antt =====
-- hnsw.h: getNeighborsByHeuristic2, the choice of the neighbors of a node among candidates. A
-- candidate is its distance to the node and its id; `dist` is the distance of the stored vectors.
pub mod Least
pub mod Choice
use vector_similarity.Base.{
  ℕ, suc, ◌+◌, ◌≤◌, ◌≡◌, Bool, true, false, List, [], ◌∷◌, ◌++◌, map, Perm, Option, none, some,
  length, ltb, leb, ◌==◌, ◌||◌, if◌then◌else◌,
}

abbrev pub Candidates : Type 0
Candidates = List (ℕ × ℕ)

abbrev pub ids : Candidates → List ℕ
ids cs = map (λ c. c.1) cs

abbrev pub IsByDistance : Candidates → Type 0
IsByDistance [] = Unit
IsByDistance (c ∷ []) = Unit
IsByDistance (c ∷ d ∷ cs) = (c.0 ≤ d.0) × IsByDistance (d ∷ cs)

-- `std::sort` by the distance, which leaves open how equal distances are ordered
pub record Sorter : Type 0 where
  pub sort : Candidates → Candidates
  pub sort-perm : (cs : Candidates) → Perm (sort cs) cs
  pub sort-IsByDistance : (cs : Candidates) → IsByDistance (sort cs)

-- `std::min_element` by the distance; the first of equal ones
unfoldable pub min_element : ℕ × ℕ → Candidates → ℕ × ℕ
min_element best [] = best
min_element best (c ∷ cs) = if ltb c.0 best.0 then min_element c cs else min_element best cs

-- the candidates with the id of the first, `top_candidates.front()`
abbrev pub with_first : Candidates → Option (Candidates × ℕ)
with_first [] = none
with_first (c ∷ cs) = some (c ∷ cs, c.1)

module _ (dist : ℕ → ℕ → ℕ) where
  -- some vector that was selected is closer to the candidate than the node is
  abbrev pub is_covered : ℕ × ℕ → Candidates → Bool
  is_covered c [] = false
  is_covered c (s ∷ selected) = ltb (dist s.1 c.1) c.0 || is_covered c selected

  -- the loop, with what it has selected and removed
  unfoldable pub select : ℕ → Candidates → Candidates → List ℕ → Candidates × List ℕ
  select m [] selected removed = (selected, removed)
  select m (c ∷ cs) selected removed =
      let skip = select m cs selected (removed ++ c.1 ∷ []) in
      let take = select m cs (selected ++ c ∷ []) removed in
      if leb m (length selected)
      then (selected, removed ++ ids (c ∷ cs))
      else if is_covered c selected
      then skip
      else take

  module _ (sorter : Sorter) where
    -- the candidates that are left, and those removed
    unfoldable pub get_neighbors_by_heuristic2 : ℕ → Candidates → Candidates × List ℕ
    get_neighbors_by_heuristic2 m cs =
        if ltb (length cs) m then (cs, []) else select m (sorter.sort cs) [] []

    -- The overload for a new element also returns the closest candidate. There is one.
    pub get_neighbors_and_closest : ℕ → Candidates → Option (Candidates × ℕ)
    get_neighbors_and_closest m [] = none
    get_neighbors_and_closest m (c ∷ cs) =
        let (left, removed) = get_neighbors_by_heuristic2 m (c ∷ cs) in
        if ltb (length (c ∷ cs)) m then some (left, (min_element c cs).1) else with_first left
