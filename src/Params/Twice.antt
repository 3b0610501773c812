-- ===== src/Params/Twice.antt =====
-- A parameter that is given twice.
use vector_similarity.Base.{◌≡◌, false, map, arith}
use vector_similarity.Params.{
  Algo, QueryType, QueryParams, ok, already_set, resolve_ef_runtime, resolve_search_ws,
  resolve_search_bc, resolve_batch_size, resolve_epsilon, resolve_hybrid_policy, resolve_one,
}
use vector_similarity.Params.Values.{
  Numbers, RawParam, same_name, to_upper, use_search_history_string,
  validate_positive_integer_param, validate_positive_double_param,
}

module _ (lib : Numbers) (algo : Algo) (type : QueryType) (r r2 : RawParam) (q : QueryParams) where
  resolve_ef_runtime_twice :
      (resolve_ef_runtime lib algo type r q).1 ≡ ok
      → (resolve_ef_runtime lib algo type r2 (resolve_ef_runtime lib algo type r q).0).1
        ≡ already_set
  unfolding resolve_ef_runtime validate_positive_integer_param
  resolve_ef_runtime_twice e = ground arith

  resolve_search_ws_twice :
      (resolve_search_ws lib algo type r q).1 ≡ ok
      → (resolve_search_ws lib algo type r2 (resolve_search_ws lib algo type r q).0).1 ≡ already_set
  unfolding resolve_search_ws validate_positive_integer_param
  resolve_search_ws_twice e = ground arith

  resolve_search_bc_twice :
      (resolve_search_bc lib algo type r q).1 ≡ ok
      → (resolve_search_bc lib algo type r2 (resolve_search_bc lib algo type r q).0).1 ≡ already_set
  unfolding resolve_search_bc validate_positive_integer_param
  resolve_search_bc_twice e = ground arith

  resolve_batch_size_twice :
      (resolve_batch_size lib algo type r q).1 ≡ ok
      → (resolve_batch_size lib algo type r2 (resolve_batch_size lib algo type r q).0).1
        ≡ already_set
  unfolding resolve_batch_size validate_positive_integer_param
  resolve_batch_size_twice e = ground arith

  resolve_epsilon_twice :
      (resolve_epsilon lib algo type r q).1 ≡ ok
      → (resolve_epsilon lib algo type r2 (resolve_epsilon lib algo type r q).0).1 ≡ already_set
  unfolding resolve_epsilon validate_positive_double_param
  resolve_epsilon_twice e = ground arith

  resolve_hybrid_policy_twice :
      (resolve_hybrid_policy lib algo type r q).1 ≡ ok
      → (resolve_hybrid_policy lib algo type r2 (resolve_hybrid_policy lib algo type r q).0).1
        ≡ already_set
  unfolding resolve_hybrid_policy
  resolve_hybrid_policy_twice e = ground arith

  -- After a parameter other than USE_SEARCH_HISTORY is accepted, another with the same name is
  -- refused as already set, whatever its value.
  pub resolve_one_twice :
      map to_upper r2.name ≡ map to_upper r.name
      → same_name r.name use_search_history_string ≡ false
      → (resolve_one lib algo type r q).1 ≡ ok
      → (resolve_one lib algo type r2 (resolve_one lib algo type r q).0).1 ≡ already_set
  unfolding resolve_one
  resolve_one_twice same other e = rw same (
      ground (
        arith, resolve_ef_runtime_twice, resolve_epsilon_twice, resolve_batch_size_twice,
        resolve_hybrid_policy_twice, resolve_search_ws_twice, resolve_search_bc_twice,
      ))
