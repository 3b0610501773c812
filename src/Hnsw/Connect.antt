-- ===== src/Hnsw/Connect.antt =====
-- hnsw.h: mutuallyConnectNewElement and revisitNeighborConnections, at one level. `dist` is the
-- distance of the stored vectors, `deleted` is isMarkedDeleted, and `max_m` is `level ? M : M0`.
pub mod Prune
pub mod Revisit
pub mod Each
pub mod Insert
use vector_similarity.Base.{
  ℕ, Bool, true, false, List, [], ◌∷◌, ◌++◌, map, Option, some, none, length, ltb, ◌==◌, ◌&&◌, ◌||◌,
  not, if◌then◌else◌, ◌>>=◌, ◌>>◌, assert,
}
use vector_similarity.Hnsw.Links.{has, append_link, set_links, new_incoming}
use vector_similarity.Hnsw.Layer.{Layer, put, mutually_remove_neighbor}
use vector_similarity.Hnsw.Heuristic.{
  Candidates, Sorter, get_neighbors_by_heuristic2, get_neighbors_and_closest,
}

-- The loop over the neighbor's links, where `to_update` are the nodes to update: the links that
-- stay, the layer, and `update_cur_node_required`.
pub prune_links : List ℕ → ℕ → ℕ → List ℕ → List ℕ → Layer → Bool → List ℕ × Layer × Bool
prune_links to_update new node [] kept g required = (kept, g, required)
prune_links to_update new node (x ∷ xs) kept g required =
    let other = prune_links to_update new node xs (kept ++ x ∷ []) g required in
    let linked = prune_links to_update new node xs (kept ++ x ∷ []) g false in
    let gone =
      prune_links to_update new node xs kept (mutually_remove_neighbor node x g) required in
    if not (has x to_update) then other else if x == new then linked else gone

-- `links` for the neighbor `node` where the new node does not become its neighbor
abbrev pub links_only : ℕ → List ℕ → Layer → Layer
links_only node links g = put node (set_links links (g node)) g

-- from `new_node_level.appendLink(selected_neighbor)`
unfoldable pub connect_pruned : ℕ → ℕ → ℕ → Bool → List ℕ → Layer → Layer
connect_pruned max_m new node chosen kept g =
    let linked = put new (append_link node (g new)) g in
    if chosen && ltb (length kept) max_m
    then links_only node (kept ++ new ∷ []) linked
    else links_only node kept (put node (new_incoming new (linked node)) linked)

module _ (dist : ℕ → ℕ → ℕ) (sorter : Sorter) (deleted : ℕ → Bool) (max_m : ℕ) where
  -- the neighbor's neighbors and the new node, as candidates for the neighbor's neighbors
  abbrev pub with_neighbors : ℕ → ℕ × ℕ → Layer → Candidates
  with_neighbors new (d, node) g = (d, new) ∷ map (λ j. (dist j node, j)) (g node).links

  pub revisit_neighbor_connections : ℕ → ℕ × ℕ → Layer → Layer
  revisit_neighbor_connections new (d, node) g =
      let removed =
        (get_neighbors_by_heuristic2 dist sorter max_m (with_neighbors new (d, node) g)).1 in
      let chosen = not (has new removed) in
      let to_update = node ∷ (if chosen then new ∷ removed else removed) in
      let (kept, g', required) = prune_links to_update new node (g node).links [] g true in
      if required && ltb (length (g' new).links) max_m && not (deleted new) && not (deleted node)
      then connect_pruned max_m new node chosen kept g'
      else links_only node kept g'

  -- the loop over the selected neighbors
  pub connect_each : ℕ → Candidates → Layer → Option Layer
  connect_each new [] g = some g
  connect_each new ((d, node) ∷ cs) g =
      let joined = put node (append_link new (g node)) (put new (append_link node (g new)) g) in
      let skip = connect_each new cs g in
      let append = connect_each new cs joined in
      let revisit = connect_each new cs (revisit_neighbor_connections new (d, node) g) in
      let next : Option Layer =
        if length (g new).links == max_m
        then some g
        else if deleted new || deleted node
        then skip
        else if ltb (length (g node).links) max_m
        then append
        else revisit in
      assert (not (ltb max_m (length (g new).links))) >> assert (not (node == new)) >> next

  -- The candidates found at the level, which are not none; the result has the entry point for the
  -- next level. `m` is the `M` that the heuristic is given at every level.
  pub mutually_connect_new_element : ℕ → ℕ → Candidates → Layer → Option (ℕ × Layer)
  mutually_connect_new_element m new top g = do
    (left, closest) ← get_neighbors_and_closest dist sorter m top
    assert (not (ltb m (length left)))
    assert (length (g new).links == 0)
    g' ← connect_each new left g
    some (closest, g')
