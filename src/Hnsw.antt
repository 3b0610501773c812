-- ===== src/Hnsw.antt =====
-- src/VecSim/algorithms/hnsw: the layered graph of the HNSW index.
pub mod Links
pub mod Counts
pub mod Done
pub mod Layer
pub mod Tracked
pub mod Heuristic
pub mod Connect
pub mod Repair
pub mod Visited
pub mod Search
pub mod Delete
pub mod Swap
pub mod Entry
pub mod Range
pub mod Insertion
pub mod Serializer
mod Sample
mod Tests
