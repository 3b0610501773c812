-- ===== src/Containers.antt =====
-- src/VecSim/containers: where an index keeps its raw vectors, and how results are collected.
pub mod Raw
pub mod Blocks
pub mod Results
