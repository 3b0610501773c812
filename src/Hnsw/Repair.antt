-- ===== src/Hnsw/Repair.antt =====
-- hnsw.h: repairNodeConnections and mutuallyUpdateForRepairedNode, at one level. `dist` is the
-- distance of the stored vectors, `deleted` is isMarkedDeleted, `in_process` is isInProcess, and
-- `max_m` is `level ? M : M0`. A bitmap of ids that a list holds is the test whether the list has
-- the id, and `std::binary_search` in sorted ids is the test whether the ids have it.
pub mod Keep
pub mod Add
pub mod Collect
pub mod Sound
use vector_similarity.Base.{
  ℕ, Bool, true, false, List, [], ◌∷◌, ◌++◌, map, length, ltb, ◌==◌, ◌&&◌, ◌||◌, not, if◌then◌else◌,
}
use vector_similarity.Hnsw.Links.{has, remove, set_links}
use vector_similarity.Hnsw.Layer.{Layer, put, mutually_remove_neighbor, track_new_link}
use vector_similarity.Hnsw.Heuristic.{ids, Sorter, get_neighbors_by_heuristic2}

-- The loop over the node's links, where `to_update` are the nodes to update: the links that stay,
-- the chosen neighbors that are not linked yet, and the layer.
unfoldable pub keep_links : List ℕ → ℕ → List ℕ → List ℕ → List ℕ → Layer → List ℕ × List ℕ × Layer
keep_links to_update node [] kept chosen g = (kept, chosen, g)
keep_links to_update node (x ∷ xs) kept chosen g =
    let (fewer, found) = remove x chosen in
    let other = keep_links to_update node xs (kept ++ x ∷ []) chosen g in
    let stays = keep_links to_update node xs (kept ++ x ∷ []) fewer g in
    let gone = keep_links to_update node xs kept fewer (mutually_remove_neighbor node x g) in
    if not (has x to_update) then other else if found then stays else gone

module _ (deleted in_process : ℕ → Bool) (max_m : ℕ) where
  -- the loop over the chosen neighbors that are not linked yet
  unfoldable pub add_links : ℕ → List ℕ → List ℕ → Layer → List ℕ × Layer
  add_links node [] kept g = (kept, g)
  add_links node (c ∷ chosen) kept g =
      let skip = add_links node chosen kept g in
      let link = add_links node chosen (kept ++ c ∷ []) (track_new_link node c g) in
      if length kept == max_m
      then (kept, g)
      else if deleted node || in_process node
      then (kept, g)
      else if deleted c || in_process c
      then skip
      else link

  unfoldable pub mutually_update_for_repaired_node : ℕ → List ℕ → List ℕ → Layer → Layer
  mutually_update_for_repaired_node node to_update chosen g =
      let (kept, missing, g') =
        keep_links (to_update ++ node ∷ []) node (g node).links [] chosen g in
      let (links, g'') = add_links node missing kept g' in put node (set_links links (g'' node)) g''

abbrev pub filter : (ℕ → Bool) → List ℕ → List ℕ
filter p [] = []
filter p (x ∷ xs) = let rest = filter p xs in if p x then x ∷ rest else rest

module _ (deleted : ℕ → Bool) where
  -- the loop over the links of a deleted neighbor
  abbrev pub collect_links : ℕ → List ℕ → List ℕ → List ℕ
  collect_links node [] found = found
  collect_links node (j ∷ js) found =
      let skip = collect_links node js found in
      let more = collect_links node js (found ++ j ∷ []) in
      if deleted j || has j found || j == node then skip else more

  -- the loop over the deleted neighbors
  abbrev pub collect : ℕ → List ℕ → Layer → List ℕ → List ℕ
  collect node [] g found = found
  collect node (d ∷ ds) g found = collect node ds g (collect_links node (g d).links found)

  -- the candidates: the neighbors that are not deleted, and what the deleted ones link to
  unfoldable pub repair_candidates : ℕ → Layer → List ℕ
  repair_candidates node g =
      collect node (filter deleted (g node).links) g (filter (λ j. not (deleted j)) (g node).links)

module _ (dist : ℕ → ℕ → ℕ) (sorter : Sorter) (deleted in_process : ℕ → Bool) (max_m : ℕ) where
  unfoldable pub repair_node_connections : ℕ → Layer → Layer
  repair_node_connections node g =
      let links = (g node).links in
      let gone = filter deleted links in
      let candidates = repair_candidates deleted node g in
      let (left, removed) =
        get_neighbors_by_heuristic2 dist sorter max_m (map (λ c. (dist c node, c)) candidates) in
      let dropped = filter (λ c. has c links) removed in
      let update = mutually_update_for_repaired_node deleted in_process max_m node in
      if length gone == 0
      then g
      else if ltb max_m (length candidates)
      then update (gone ++ (dropped ++ ids left)) (ids left) g
      else update (gone ++ candidates) candidates g
