-- ===== src/Params.antt =====
-- VecSimIndex_ResolveParams in src/VecSim/vec_sim.cpp: the runtime parameters of a query, from pairs
-- of texts, which Values models. Pointers are not null. An index reads and writes one view of the
-- union in VecSimQueryParams, by its algorithm, so that the fields of the views stand side by side.
pub mod Values
pub mod Legal
pub mod Twice
mod Tests
use vector_similarity.Base.{
  ℕ, ◌+◌, ◌-◌, ◌^◌, Bool, true, false, not, ◌&&◌, ◌||◌, List, [], ◌∷◌, map, take, Option, none,
  some, ltb, leb, ◌==◌, if◌then◌else◌,
}
use vector_similarity.Params.Values.{
  Text, ef_runtime_string, epsilon_string, batch_size_string, hybrid_policy_string,
  search_ws_string, search_bc_string, use_search_history_string, policy_batches, policy_adhoc_bf,
  on_string, off_string, auto_string, OptionMode, Double, RawParam, Numbers, to_upper, same_name,
  llong_max, validate_positive_integer_param, is_refused, validate_positive_double_param,
  validate_vecsim_bool_param, option_auto, option_enable, option_disable, zero_double, negative,
  nan, positive,
}

pub data Algo : Type 0 where
  flat hnsw tiered svs : Algo

pub data QueryType : Type 0 where
  type_none type_knn type_hybrid type_range : QueryType

pub data SearchMode : Type 0 where
  empty_mode standard_knn hybrid_adhoc_bf hybrid_batches hybrid_batches_to_adhoc_bf range_mode :
      SearchMode

pub data ResolveCode : Type 0 where
  ok already_set unknown_param bad_value : ResolveCode
  policy_nexits policy_nhybrid policy_nrange adhoc_with_batch_size adhoc_with_ef_runtime :
      ResolveCode

-- VecSimQueryParams
pub record QueryParams : Type 0 where
  pub ef_runtime : ℕ
  pub epsilon : Double
  pub window_size : ℕ
  pub buffer_capacity : ℕ
  pub search_history : OptionMode
  pub batch_size : ℕ
  pub search_mode : SearchMode

abbrev pub is_hnsw : Algo → Bool
is_hnsw hnsw = true
is_hnsw _ = false

abbrev pub is_svs : Algo → Bool
is_svs svs = true
is_svs _ = false

abbrev pub is_range : QueryType → Bool
is_range type_range = true
is_range _ = false

abbrev pub is_hybrid : QueryType → Bool
is_hybrid type_hybrid = true
is_hybrid _ = false

abbrev pub is_empty_mode : SearchMode → Bool
is_empty_mode empty_mode = true
is_empty_mode _ = false

abbrev pub is_adhoc : SearchMode → Bool
is_adhoc hybrid_adhoc_bf = true
is_adhoc _ = false

abbrev pub is_auto : OptionMode → Bool
is_auto option_auto = true
is_auto _ = false

abbrev pub is_zero : Double → Bool
is_zero zero_double = true
is_zero _ = false

abbrev pub is_ok : ResolveCode → Bool
is_ok ok = true
is_ok _ = false

-- `bzero(qparams, sizeof(VecSimQueryParams))`
abbrev pub cleared : QueryParams
cleared = record {
  ef_runtime = 0;
  epsilon = zero_double;
  window_size = 0;
  buffer_capacity = 0;
  search_history = option_auto;
  batch_size = 0;
  search_mode = empty_mode;
}

-- The functions return the parameters, which an error leaves as they are, and the code.
module _ (lib : Numbers) (algo : Algo) (type : QueryType) where
  pub resolve_ef_runtime : RawParam → QueryParams → QueryParams × ResolveCode
  resolve_ef_runtime r q =
      if not (is_hnsw algo)
      then (q, unknown_param)
      else if is_range type
      then (q, unknown_param)
      else if not (q.ef_runtime == 0)
      then (q, already_set)
      else elim (validate_positive_integer_param lib r) [
        | none ↦ (q, bad_value)
        | some v ↦ (record q { ef_runtime = v }, ok)
      ]

  pub resolve_search_ws : RawParam → QueryParams → QueryParams × ResolveCode
  resolve_search_ws r q =
      if not (is_svs algo)
      then (q, unknown_param)
      else if not (q.window_size == 0)
      then (q, already_set)
      else elim (validate_positive_integer_param lib r) [
        | none ↦ (q, bad_value)
        | some v ↦ (record q { window_size = v }, ok)
      ]

  pub resolve_search_bc : RawParam → QueryParams → QueryParams × ResolveCode
  resolve_search_bc r q =
      if not (is_svs algo)
      then (q, unknown_param)
      else if not (q.buffer_capacity == 0)
      then (q, already_set)
      else elim (validate_positive_integer_param lib r) [
        | none ↦ (q, bad_value)
        | some v ↦ (record q { buffer_capacity = v }, ok)
      ]

  pub resolve_use_search_history : RawParam → QueryParams → QueryParams × ResolveCode
  resolve_use_search_history r q =
      if not (is_svs algo)
      then (q, unknown_param)
      else if not (is_auto q.search_history)
      then (q, already_set)
      else elim (validate_vecsim_bool_param r) [
        | none ↦ (q, bad_value)
        | some v ↦ (record q { search_history = v }, ok)
      ]

  pub resolve_batch_size : RawParam → QueryParams → QueryParams × ResolveCode
  resolve_batch_size r q =
      if not (is_hybrid type)
      then (q, policy_nhybrid)
      else if not (q.batch_size == 0)
      then (q, already_set)
      else elim (validate_positive_integer_param lib r) [
        | none ↦ (q, bad_value)
        | some v ↦ (record q { batch_size = v }, ok)
      ]

  pub resolve_epsilon : RawParam → QueryParams → QueryParams × ResolveCode
  resolve_epsilon r q =
      if not (is_hnsw algo) && not (is_svs algo)
      then (q, unknown_param)
      else if not (is_range type)
      then (q, policy_nrange)
      else if not (is_zero q.epsilon)
      then (q, already_set)
      else elim (validate_positive_double_param lib r) [
        | none ↦ (q, bad_value)
        | some v ↦ (record q { epsilon = v }, ok)
      ]

  pub resolve_hybrid_policy : RawParam → QueryParams → QueryParams × ResolveCode
  resolve_hybrid_policy r q =
      if not (is_hybrid type)
      then (q, policy_nhybrid)
      else if not (is_empty_mode q.search_mode)
      then (q, already_set)
      else if same_name r.value policy_batches
      then (record q { search_mode = hybrid_batches }, ok)
      else if same_name r.value policy_adhoc_bf
      then (record q { search_mode = hybrid_adhoc_bf }, ok)
      else (q, policy_nexits)

  -- the body of the loop
  pub resolve_one : RawParam → QueryParams → QueryParams × ResolveCode
  resolve_one r q =
      if same_name r.name ef_runtime_string
      then resolve_ef_runtime r q
      else if same_name r.name epsilon_string
      then resolve_epsilon r q
      else if same_name r.name batch_size_string
      then resolve_batch_size r q
      else if same_name r.name hybrid_policy_string
      then resolve_hybrid_policy r q
      else if same_name r.name search_ws_string
      then resolve_search_ws r q
      else if same_name r.name search_bc_string
      then resolve_search_bc r q
      else if same_name r.name use_search_history_string
      then resolve_use_search_history r q
      else (q, unknown_param)

  pub resolve_each : List RawParam → QueryParams → QueryParams × ResolveCode
  resolve_each [] q = (q, ok)
  resolve_each (r ∷ rs) q =
      let (q', code) = resolve_one r q in
      let rest = resolve_each rs q' in if is_ok code then rest else (q', code)

  -- the checks after the loop
  pub check_policy : QueryParams → ResolveCode
  check_policy q =
      if is_adhoc q.search_mode && ltb 0 q.batch_size
      then adhoc_with_batch_size
      else if is_adhoc q.search_mode && is_hnsw algo && ltb 0 q.ef_runtime
      then adhoc_with_ef_runtime
      else ok

  -- the parameters, the code, and the mode that the index is told of
  pub resolve_params : List RawParam → QueryParams × ResolveCode × Option SearchMode
  resolve_params rs =
      let (q, code) = resolve_each rs cleared in
      let told = if is_empty_mode q.search_mode then none else some q.search_mode in
      if not (is_ok code)
      then (q, code, none)
      else if not (is_ok (check_policy q))
      then (q, check_policy q, none)
      else (q, ok, told)
