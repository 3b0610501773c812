-- ===== src/Utils.antt =====
-- src/VecSim/utils: functions on the results of queries.
pub mod Merge
pub mod Filter
