-- ===== src/Hnsw/Insertion.antt =====
-- src/VecSim/algorithms/hnsw/hnsw.h: insertElementToGraph, over all levels of the graph. A level is a
-- layer, which is there under its number; that a node has the level it is read at is not checked.
pub mod Level
pub mod Way
pub mod Sound
use vector_similarity.Base.{
  ℕ, Perm, zero, suc, ◌+◌, ◌-◌, Bool, false, List, [], ◌∷◌, Option, none, some, ltb, ◌==◌,
  if◌then◌else◌, ◌>>=◌,
}
use vector_similarity.Query.Heap.{max_priority_queue}
use vector_similarity.Hnsw.Layer.{Layer}
use vector_similarity.Hnsw.Heuristic.{Sorter}
use vector_similarity.Hnsw.Connect.{mutually_connect_new_element}
use vector_similarity.Hnsw.Visited.{Handler}
use vector_similarity.Hnsw.Search.{greedy_search_level, search_layer}

abbrev pub Levels : Type 0
Levels = ℕ → Layer

abbrev pub put_level : ℕ → Layer → Levels → Levels
put_level level g gs l = if level == l then g else gs l

-- The parameters of the index, and the distances to the new vector.
pub record Insertion : Type 0 where
  pub dist : ℕ → ℕ → ℕ
  pub sorter : Sorter
  pub query : ℕ → ℕ
  pub deleted : ℕ → Bool
  pub in_process : ℕ → Bool
  pub m : ℕ
  pub m0 : ℕ
  pub ef_construction : ℕ
  -- std::numeric_limits<DistType>::max()
  pub max_score : ℕ
  -- the array of a `std::priority_queue`, from `begin()` to `end()`, by what its pops give
  pub heap_order : List (ℕ × ℕ) → List (ℕ × ℕ)
  pub heap_order-perm : (h : List (ℕ × ℕ)) → Perm (heap_order h) h

-- `level ? M : M0`
abbrev pub max_links : Insertion → ℕ → ℕ
max_links x level = if level == 0 then x.m0 else x.m

module _ (x : Insertion) where
  -- the loop over the levels above those of the new element, `rounds` of them from `level` on down
  pub descend : ℕ → ℕ → Levels → ℕ → ℕ → Option ℕ
  descend zero level gs curr cur_dist = some curr
  descend (suc rounds) level gs curr cur_dist = do
    found ←
        greedy_search_level x.query x.deleted x.in_process (gs level) false (λ i. false) curr
          cur_dist
    elim found [ none ↦ none | some (curr', dist) ↦ descend rounds (level - 1) gs curr' dist ]

  -- the loop over the common levels, from `rounds - 1` down to 0
  pub connect_levels : ℕ → ℕ → ℕ → Levels → Handler → Option (Levels × Handler)
  connect_levels new zero curr gs handler = some (gs, handler)
  connect_levels new (suc level) curr gs handler = do
    (top, handler) ←
        search_layer max_priority_queue (λ j. j) x.query x.deleted x.in_process x.ef_construction
          x.max_score (gs level) curr handler
    elim top [
      | [] ↦ connect_levels new level curr gs handler
      | ◌∷◌ c cs ↦ do
        (curr', g) ←
            mutually_connect_new_element x.dist x.sorter x.deleted (max_links x level) x.m new
              (x.heap_order (c ∷ cs)) (gs level)
        connect_levels new level curr' (put_level level g gs) handler
    ]

  pub insert_element_to_graph : ℕ → ℕ → ℕ → ℕ → Levels → Handler → Option (Levels × Handler)
  insert_element_to_graph new element_max_level entry_point global_max_level gs handler =
      if ltb element_max_level global_max_level
      then (do
        curr ←
            descend (global_max_level - element_max_level) global_max_level gs entry_point
              (x.query entry_point)
        connect_levels new (suc element_max_level) curr gs handler)
      else connect_levels new (suc global_max_level) entry_point gs handler
