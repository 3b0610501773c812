-- ===== src/Hnsw/Search/Reach.antt =====
-- The nodes that a search may visit.
use vector_similarity.Base.{ℕ, ◌<◌, ◌≡◌, Bool, true, false}
use vector_similarity.Hnsw.Links.{has}
use vector_similarity.Hnsw.Layer.{Layer}

-- from the entry point along links to nodes that are not in process
pub data Reach (g : Layer) (in_process : ℕ → Bool) (ep : ℕ) : ℕ → Type 0 where
  entry : Reach g in_process ep ep
  follow :
      (u v : ℕ)
      → Reach g in_process ep u
      → has v (g u).links ≡ true
      → in_process v ≡ false
      → Reach g in_process ep v

-- from the entry point along links to nodes that are not in process and have a score below `limit`
pub data Near (g : Layer) (query : ℕ → ℕ) (in_process : ℕ → Bool) (limit ep : ℕ) : ℕ → Type 0 where
  entry : Near g query in_process limit ep ep
  follow :
      (u v : ℕ)
      → Near g query in_process limit ep u
      → has v (g u).links ≡ true
      → in_process v ≡ false
      → query v < limit
      → Near g query in_process limit ep v
