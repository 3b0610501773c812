-- ===== src/Hnsw/Swap.antt =====
-- hnsw.h: what SwapLastIdWithDeletedId does to the links at one level, where the last id, `last`,
-- becomes the id `id` of an element that was removed.
pub mod Renamed
pub mod Sound
use vector_similarity.Base.{
  ℕ, Bool, true, false, List, [], ◌∷◌, Option, some, none, if◌then◌else◌, ◌==◌, ◌>>=◌,
}
use vector_similarity.Hnsw.Links.{LevelData, has, replace, swap_id_in_incoming}
use vector_similarity.Hnsw.Layer.{Layer, put}

-- the first link to `last` becomes one to `id`
abbrev pub rename_link : ℕ → ℕ → LevelData → LevelData
rename_link last id d = record d { links = replace last id d.links }

-- the loop over the links of the last element
pub swap_neighbors : ℕ → ℕ → List ℕ → Layer → Option Layer
swap_neighbors last id [] g = some g
swap_neighbors last id (c ∷ cs) g = do
  d ←
      (if has last (g c).links
        then some (rename_link last id (g c))
        else swap_id_in_incoming last id (g c))
  swap_neighbors last id cs (put c d g)

-- the loop over its incoming edges
pub swap_incoming : ℕ → ℕ → List ℕ → Layer → Layer
swap_incoming last id [] g = g
swap_incoming last id (c ∷ cs) g = swap_incoming last id cs (put c (rename_link last id (g c)) g)

-- then the data of the last element moves to the place of the element that was removed
unfoldable pub swap_last_id : ℕ → ℕ → Layer → Option Layer
swap_last_id last id g = do
  g1 ← swap_neighbors last id (g last).links g
  let g2 = swap_incoming last id (g1 last).incoming g1
  some (put last (record { incoming = []; links = [] }) (put id (g2 last) g2))
