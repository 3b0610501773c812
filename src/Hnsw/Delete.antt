-- ===== src/Hnsw/Delete.antt =====
-- hnsw.h: repairConnectionsForDeletion, and what removeVectorInPlace and removeAndSwap do to the
-- links at one level. `dist` is the distance of the stored vectors, `deleted` is isMarkedDeleted, and
-- `max_m` is `level ? M : M0`. A bitmap of ids that a list holds is the test whether the list has
-- the id.
pub mod Drop
pub mod Gain
pub mod Apart
pub mod Progress
pub mod Sound
use vector_similarity.Base.{
  ℕ, Bool, true, false, List, [], ◌∷◌, ◌++◌, map, Option, some, none, length, ltb, ◌==◌, ◌&&◌, ◌||◌,
  not, if◌then◌else◌, ◌>>=◌, ◌>>◌, assert,
}
use vector_similarity.Hnsw.Links.{
  LevelData, has, set_links, remove_link, new_incoming, remove_incoming,
}
use vector_similarity.Hnsw.Layer.{Layer, put, mutually_remove_neighbor}
use vector_similarity.Hnsw.Heuristic.{ids, Sorter, get_neighbors_by_heuristic2}
use vector_similarity.Hnsw.Repair.{filter}

-- the loop over the candidates that were not chosen; `orig` are the neighbor's links before
pub drop_unchosen : ℕ → List ℕ → List ℕ → Layer → Layer
drop_unchosen node orig [] g = g
drop_unchosen node orig (c ∷ cs) g =
    drop_unchosen node orig cs (if has c orig then mutually_remove_neighbor node c g else g)

-- an edge from `node` to `c` that is new
unfoldable pub track_edge : ℕ → ℕ → Layer → Option Layer
track_edge node c g = do
  let (d, found) = remove_incoming c (g node)
  let back : Option Layer = do assert found; some (put node d g)
  if has node (g c).links then back else some (put c (new_incoming node (g c)) g)

-- the loop over the neighbor's links after they are set
pub track_edges : ℕ → List ℕ → List ℕ → Layer → Option Layer
track_edges node orig [] g = some g
track_edges node orig (c ∷ cs) g = do
  g' ← (if has c orig then some g else track_edge node c g)
  track_edges node orig cs g'

module _ (dist : ℕ → ℕ → ℕ) (sorter : Sorter) (deleted : ℕ → Bool) (max_m : ℕ) where
  -- the neighbor's other links, and the links of the element that is removed
  abbrev pub deletion_candidates : ℕ → ℕ → Layer → List ℕ
  deletion_candidates removed node g =
      filter (λ c. not (c == removed) && not (has c (g removed).links)) (g node).links
      ++ filter (λ c. not (c == node) && (not (deleted c) || has c (g node).links))
          (g removed).links

  unfoldable pub repair_connections_for_deletion : ℕ → ℕ → Layer → Option Layer
  repair_connections_for_deletion removed node g =
      let orig = (g node).links in
      let candidates = deletion_candidates removed node g in
      let (left, others) =
        get_neighbors_by_heuristic2 dist sorter max_m (map (λ c. (dist c node, c)) candidates) in
      let chosen = put node (set_links (ids left) (g node)) g in
      let all = put node (set_links candidates (g node)) g in
      let marked : Option Layer = do d ← remove_link removed (g node); some (put node d g)
      in if deleted node
        then marked
        else if ltb max_m (length candidates)
        then track_edges node orig (ids left) (drop_unchosen node orig others chosen)
        else track_edges node orig candidates all

  -- the loop over the links of the element that is removed
  pub repair_neighbors : ℕ → List ℕ → Layer → Option Layer
  repair_neighbors removed [] g = some g
  repair_neighbors removed (c ∷ cs) g = do
    let (d, found) = remove_incoming removed (g c)
    let one_way : Option Layer = do assert found; some (put c d g)
    g' ← (if has removed (g c).links then repair_connections_for_deletion removed c g else one_way)
    repair_neighbors removed cs g'

  -- the loop over its incoming edges
  pub repair_incoming : ℕ → List ℕ → Layer → Option Layer
  repair_incoming removed [] g = some g
  repair_incoming removed (c ∷ cs) g = do
    g' ← repair_connections_for_deletion removed c g
    repair_incoming removed cs g'

  -- The loop over the links in removeAndSwap. The element is not marked as deleted here, which is when
  -- the loop asserts that each edge is found; the assert is left out.
  abbrev pub forget_edges : ℕ → List ℕ → Layer → Layer
  forget_edges removed [] g = g
  forget_edges removed (c ∷ cs) g =
      forget_edges removed cs (put c (remove_incoming removed (g c)).0 g)

  unfoldable pub remove_in_place : ℕ → Layer → Option Layer
  remove_in_place removed g = do
    g1 ← repair_neighbors removed (g removed).links g
    g2 ← repair_incoming removed (g1 removed).incoming g1
    some (
        put removed (record { incoming = []; links = [] })
          (forget_edges removed (g2 removed).links g2))
