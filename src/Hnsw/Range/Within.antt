-- ===== src/Hnsw/Range/Within.antt =====
-- The range search of the bottom layer ends; its results are in the range, and those reached within the
-- stretched range are all there.
use vector_similarity.Hnsw.Layer.{Layer}
