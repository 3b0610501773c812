-- ===== src/Hnsw/Layer.antt =====
-- The graph at one level, as VecSim/algorithms/hnsw/hnsw.h reads and writes it: the links of each
-- node, under its id. Locks are left out: the functions run one after the other.
use vector_similarity.Base.{ℕ, ◌==◌, if◌then◌else◌}
use vector_similarity.Hnsw.Links.{LevelData, new_incoming, remove_incoming}

abbrev pub Layer : Type 0
Layer = ℕ → LevelData

-- the node `i` has new links
abbrev pub put : ℕ → LevelData → Layer → Layer
put i d g j = if i == j then d else g j

-- What is done to the incoming edges where the link from `node` to `removed` goes: the node
-- is taken out of the incoming edges of `removed` if it is there, and else the edge back has become
-- unidirectional. mutuallyRemoveNeighborAtPos, and the loop in repairConnectionsForDeletion.
unfoldable pub mutually_remove_neighbor : ℕ → ℕ → Layer → Layer
mutually_remove_neighbor node removed g =
    let (d, found) = remove_incoming node (g removed) in
    let g' = put removed d g in if found then g' else put node (new_incoming removed (g' node)) g'

-- What is done to them where a link from `node` to `chosen` comes: the end of the loop over the
-- chosen neighbors in mutuallyUpdateForRepairedNode.
unfoldable pub track_new_link : ℕ → ℕ → Layer → Layer
track_new_link node chosen g =
    let (d, found) = remove_incoming chosen (g node) in
    let g' = put node d g in if found then g' else put chosen (new_incoming node (g' chosen)) g'
