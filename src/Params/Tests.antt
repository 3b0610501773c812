-- ===== src/Params/Tests.antt =====
-- Runs of VecSimIndex_ResolveParams.
use vector_similarity.Base.{ℕ, ◌≡◌, ◌⊎◌, refl, true, false, List, [], ◌∷◌, some, length}
use vector_similarity.Params.{
  QueryParams, hnsw, svs, type_hybrid, type_range, type_knn, ok, already_set, hybrid_batches,
  resolve_epsilon, resolve_batch_size, resolve_hybrid_policy, resolve_use_search_history,
  resolve_one, resolve_each, check_policy, resolve_params, cleared,
}
use vector_similarity.Params.Values.{
  Numbers, Text, RawParam, nan, zero_double, option_auto, epsilon_string, batch_size_string,
  hybrid_policy_string, use_search_history_string, policy_batches, auto_string,
  validate_positive_integer_param, validate_positive_double_param, validate_vecsim_bool_param,
}
use vector_similarity.Params.Legal.{IsLegal, resolve_params-IsLegal}
use vector_similarity.Params.Twice.{resolve_one_twice}

-- one digit, read in full; every other text stands for NaN
abbrev digits : Numbers
digits = record {
  strtoll = λ s. (read s, length s, false);
  strtod = λ s. (nan, length s, false);
  dbl_max = 9;
}
  where
    read : Text → ℕ
    read [] = 0
    read (c ∷ s) = c

-- "batch_size"
abbrev lower_case : Text
lower_case = 98 ∷ 97 ∷ 116 ∷ 99 ∷ 104 ∷ 95 ∷ 115 ∷ 105 ∷ 122 ∷ 101 ∷ []

abbrev given : Text → Text → RawParam
given name value = record { name = name; value = value; val_len = length value }

abbrev batches : List RawParam
batches = given lower_case (7 ∷ []) ∷ given hybrid_policy_string policy_batches ∷ []

abbrev resolved : QueryParams
resolved = record {
  ef_runtime = 0;
  epsilon = zero_double;
  window_size = 0;
  buffer_capacity = 0;
  search_history = option_auto;
  batch_size = 7;
  search_mode = hybrid_batches;
}

accepts_batches :
    resolve_params digits hnsw type_hybrid batches ≡ (resolved, ok, some hybrid_batches)
unfolding resolve_params resolve_each resolve_one resolve_batch_size resolve_hybrid_policy
    validate_positive_integer_param check_policy
accepts_batches = refl

-- NaN is taken for a positive number
accepts_nan : (resolve_params digits hnsw type_range (given epsilon_string (1 ∷ []) ∷ [])).1 ≡ ok
unfolding resolve_params resolve_each resolve_one resolve_epsilon validate_positive_double_param
    check_policy
accepts_nan = refl

-- AUTO does not count as set
accepts_auto_twice :
    (resolve_params digits svs type_knn (
      given use_search_history_string auto_string
      ∷ given use_search_history_string auto_string
      ∷ [])).1
    ≡ ok
unfolding resolve_params resolve_each resolve_one resolve_use_search_history
    validate_vecsim_bool_param check_policy
accepts_auto_twice = refl

resolve_params-IsLegal_example :
    IsLegal hnsw type_hybrid resolved
    × ((false ≡ false) ⊎ ((resolved.batch_size ≡ 0) × ((true ≡ false) ⊎ (resolved.ef_runtime ≡ 0))))
    × (some hybrid_batches ≡ some hybrid_batches)
resolve_params-IsLegal_example =
    resolve_params-IsLegal digits hnsw type_hybrid batches resolved (some hybrid_batches)
      accepts_batches

resolve_one_twice_example :
    (resolve_one digits hnsw type_hybrid
      (given batch_size_string (3 ∷ []))
      (resolve_one digits hnsw type_hybrid (given lower_case (7 ∷ [])) cleared).0).1
    ≡ already_set
unfolding resolve_one resolve_batch_size validate_positive_integer_param
resolve_one_twice_example =
    resolve_one_twice digits hnsw type_hybrid (given lower_case (7 ∷ []))
      (given batch_size_string (3 ∷ [])) cleared refl refl refl
