-- ===== src/Query.antt =====
-- Query results, as src/VecSim/query_result_definitions.h has them, and what the queries of an
-- index share.
pub mod Order
pub mod Heap
use vector_similarity.Base.{ℕ, Bool, List, [], ◌∷◌, map}

pub record QueryResult : Type 0 where
  pub id : ℕ
  pub score : ℕ

pub data ReplyCode : Type 0 where
  reply_ok timed_out : ReplyCode

pub record QueryReply : Type 0 where
  pub results : List QueryResult
  pub code : ReplyCode

-- a score and a label, as `std::pair<DistType, labelType>`
abbrev pub Candidate : Type 0
Candidate = ℕ × ℕ

abbrev pub to_result : Candidate → QueryResult
to_result (score, label) = record { id = label; score = score }
