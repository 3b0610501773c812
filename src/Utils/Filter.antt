-- ===== src/Utils/Filter.antt =====
-- src/VecSim/utils/query_result_utils.h: filter_results_by_id. `sort_results_by_id` is `std::sort`, a
-- parameter with its laws.
pub mod Unique
mod Tests
use vector_similarity.Base.{ℕ, ◌≤◌, Bool, List, [], ◌∷◌, Perm, length, ltb, ◌==◌, if◌then◌else◌}
use vector_similarity.Query.{QueryResult}

abbrev pub IsById : List QueryResult → Type 0
IsById [] = Unit
IsById (r ∷ []) = Unit
IsById (r ∷ s ∷ rs) = (r.id ≤ s.id) × IsById (s ∷ rs)

-- it leaves open how results of one id are ordered
pub record SortById : Type 0 where
  pub sort : List QueryResult → List QueryResult
  pub sort-perm : (rs : List QueryResult) → Perm (sort rs) rs
  pub sort-IsById : (rs : List QueryResult) → IsById (sort rs)

abbrev pub keep : Bool → QueryResult → QueryResult → QueryResult
keep is_multi r s = if is_multi then (if ltb r.score s.score then r else s) else r

-- the loop, and the last result if it is unique
unfoldable pub filter_sorted : Bool → List QueryResult → List QueryResult
filter_sorted is_multi [] = []
filter_sorted is_multi (r ∷ []) = r ∷ []
filter_sorted is_multi (r ∷ s ∷ rs) =
    let both = keep is_multi r s ∷ filter_sorted is_multi rs in
    let one = r ∷ filter_sorted is_multi (s ∷ rs) in if r.id == s.id then both else one

pub filter_results_by_id : SortById → Bool → List QueryResult → List QueryResult
filter_results_by_id sorter is_multi results =
    if ltb (length results) 2 then results else filter_sorted is_multi (sorter.sort results)
