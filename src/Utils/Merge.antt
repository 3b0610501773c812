-- ===== src/Utils/Merge.antt =====
-- src/VecSim/utils/query_result_utils.h: the merge of two lists of results. A score is a number of
-- some unit, and `epsilon` is VECSIM_EPSILON, 1e-6, in that unit.
pub mod Compare
pub mod Union
mod Tests
use vector_similarity.Base.{
  ℕ, zero, suc, ◌+◌, ◌-◌, ◌%◌, Bool, true, false, not, ◌&&◌, ◌||◌, List, [], ◌∷◌, ◌++◌, length, ltb,
  ◌==◌, if◌then◌else◌, Option, some, none,
}
use vector_similarity.Query.{QueryResult}

-- the sign of an `int`
pub data Sign : Type 0 where
  negative null positive : Sign

-- of an unsigned number of 64 bits that is cast to `int`
unfoldable pub cast_sign : ℕ → Sign
cast_sign n =
    let low = n % 4294967296 in
    if low == 0 then null else if ltb low 2147483648 then positive else negative

-- the absolute difference of two scores is less than VECSIM_EPSILON
unfoldable pub double_eq : ℕ → ℕ → ℕ → Bool
double_eq epsilon a b = ltb (a - b + (b - a)) epsilon

module _ (epsilon : ℕ) where
  unfoldable pub compare_results : QueryResult → QueryResult → Sign
  compare_results a b =
      if not (double_eq epsilon a.score b.score)
      then (if ltb b.score a.score then positive else negative)
      else cast_sign ((a.id + 18446744073709551616 - b.id) % 18446744073709551616)

  -- an `std::unordered_set` of ids
  abbrev pub contains : ℕ → List ℕ → Bool
  contains a [] = false
  contains a (x ∷ xs) = x == a || contains a xs

  -- the results so far, the ids of those, and the limit
  pub record Merged : Type 0 where
    pub results : List QueryResult
    pub ids : List ℕ
    pub limit : ℕ

  abbrev pub push_result : QueryResult → Merged → Merged
  push_result r s = record s { results = s.results ++ r ∷ []; limit = s.limit - 1 }

  abbrev pub maybe_append : Bool → QueryResult → Merged → Merged
  maybe_append with_set r s =
      let fresh = record s { ids = r.id ∷ s.ids } in
      if not with_set
      then push_result r s
      else if contains r.id s.ids
      then s
      else push_result r fresh

  -- the loop over what is left of one list where the other is at its end
  pub append_rest : Bool → List QueryResult → Merged → Merged × List QueryResult
  append_rest with_set [] s = (s, [])
  append_rest with_set (r ∷ rs) s =
      let rest = append_rest with_set rs (maybe_append with_set r s) in
      if s.limit == 0 then (s, r ∷ rs) else rest

  -- the merge, with what is not merged of either list
  pub merge_loop :
      ℕ
      → Bool
      → List QueryResult
      → List QueryResult
      → Merged
      → Option (Merged × List QueryResult × List QueryResult)
  merge_loop zero with_set first second s = none
  merge_loop (suc fuel) with_set [] second s =
      let (s', rest) = append_rest with_set second s in some (s', [], rest)
  merge_loop (suc fuel) with_set (a ∷ first) [] s =
      let (s', rest) = append_rest with_set (a ∷ first) s in some (s', rest, [])
  merge_loop (suc fuel) with_set (a ∷ first) (b ∷ second) s =
      let from_second = merge_loop fuel with_set (a ∷ first) second (maybe_append with_set b s) in
      let from_first = merge_loop fuel with_set first (b ∷ second) (maybe_append with_set a s) in
      let from_both = merge_loop fuel with_set first second (push_result a s) in
      if s.limit == 0 then some (s, a ∷ first, b ∷ second) else elim (compare_results a b) [
        | positive ↦ from_second
        | negative ↦ from_first
        | null ↦ from_both
      ]

  -- the results, and how many of each list were merged
  unfoldable pub merge_results :
      Bool → List QueryResult → List QueryResult → ℕ → Option (List QueryResult × ℕ × ℕ)
  merge_results with_set first second limit =
      elim (merge_loop (suc (length first + length second)) with_set first second
        (record { results = []; ids = []; limit = limit })) [
          | none ↦ none
          | some (s, rest1, rest2) ↦
              some (s.results, length first - length rest1, length second - length rest2)
        ]
