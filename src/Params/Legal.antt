-- ===== src/Params/Legal.antt =====
-- What accepted parameters satisfy.
use vector_similarity.Base.{
  ◌≡◌, true, false, ◌||◌, List, [], ◌∷◌, Option, none, some, arith, if◌then◌else◌, ◌⊎◌,
}
use vector_similarity.Params.{
  Algo, QueryType, SearchMode, QueryParams, ok, is_hnsw, is_svs, is_range, is_hybrid, is_empty_mode,
  is_adhoc, is_zero, is_auto, resolve_ef_runtime, resolve_search_ws, resolve_search_bc,
  resolve_use_search_history, resolve_batch_size, resolve_epsilon, resolve_hybrid_policy,
  resolve_one, resolve_each, check_policy, cleared, resolve_params,
}
use vector_similarity.Params.Values.{Numbers, RawParam}

-- each parameter that is set is one that the algorithm and the type of the query take
pub record IsLegal (algo : Algo) (type : QueryType) (q : QueryParams) : Type 0 where
  pub ef : (q.ef_runtime ≡ 0) ⊎ ((is_hnsw algo ≡ true) × (is_range type ≡ false))
  pub eps :
      (is_zero q.epsilon ≡ true) ⊎ ((is_hnsw algo || is_svs algo ≡ true) × (is_range type ≡ true))
  pub window : (q.window_size ≡ 0) ⊎ (is_svs algo ≡ true)
  pub capacity : (q.buffer_capacity ≡ 0) ⊎ (is_svs algo ≡ true)
  pub history : (is_auto q.search_history ≡ true) ⊎ (is_svs algo ≡ true)
  pub batch : (q.batch_size ≡ 0) ⊎ (is_hybrid type ≡ true)
  pub mode : (is_empty_mode q.search_mode ≡ true) ⊎ (is_hybrid type ≡ true)

module _ (lib : Numbers) (algo : Algo) (type : QueryType) (r : RawParam) (q : QueryParams)
    (v : IsLegal algo type q) where
  resolve_ef_runtime-IsLegal : IsLegal algo type (resolve_ef_runtime lib algo type r q).0
  unfolding resolve_ef_runtime
  resolve_ef_runtime-IsLegal = ground arith

  resolve_search_ws-IsLegal : IsLegal algo type (resolve_search_ws lib algo type r q).0
  unfolding resolve_search_ws
  resolve_search_ws-IsLegal = ground arith

  resolve_search_bc-IsLegal : IsLegal algo type (resolve_search_bc lib algo type r q).0
  unfolding resolve_search_bc
  resolve_search_bc-IsLegal = ground arith

  resolve_use_search_history-IsLegal :
      IsLegal algo type (resolve_use_search_history lib algo type r q).0
  unfolding resolve_use_search_history
  resolve_use_search_history-IsLegal = ground arith

  resolve_batch_size-IsLegal : IsLegal algo type (resolve_batch_size lib algo type r q).0
  unfolding resolve_batch_size
  resolve_batch_size-IsLegal = ground arith

  resolve_epsilon-IsLegal : IsLegal algo type (resolve_epsilon lib algo type r q).0
  unfolding resolve_epsilon
  resolve_epsilon-IsLegal = ground arith

  resolve_hybrid_policy-IsLegal : IsLegal algo type (resolve_hybrid_policy lib algo type r q).0
  unfolding resolve_hybrid_policy
  resolve_hybrid_policy-IsLegal = ground arith

  resolve_one-IsLegal : IsLegal algo type (resolve_one lib algo type r q).0
  unfolding resolve_one
  resolve_one-IsLegal = ground (
    arith, resolve_ef_runtime-IsLegal, resolve_epsilon-IsLegal, resolve_batch_size-IsLegal,
    resolve_hybrid_policy-IsLegal, resolve_search_ws-IsLegal, resolve_search_bc-IsLegal,
    resolve_use_search_history-IsLegal,
  )

module _ (lib : Numbers) (algo : Algo) (type : QueryType) where
  resolve_each-IsLegal :
      (rs : List RawParam) (q : QueryParams)
      → IsLegal algo type q
      → IsLegal algo type (resolve_each lib algo type rs q).0
  unfolding resolve_each
  resolve_each-IsLegal [] q v = v
  resolve_each-IsLegal (r ∷ rs) q v =
      let one = resolve_one-IsLegal lib algo type r q v in
      let rest = resolve_each-IsLegal rs (resolve_one lib algo type r q).0 one in
      ground (arith, one, rest)

  -- Parameters that VecSimIndex_ResolveParams accepts are legal for the algorithm and the type of
  -- the query, no batch size and no EF_RUNTIME of HNSW comes with the ad-hoc policy, and the index
  -- is told the search mode where one is set.
  pub resolve_params-IsLegal :
      (rs : List RawParam) (q : QueryParams) (told : Option SearchMode)
      → resolve_params lib algo type rs ≡ (q, ok, told)
      → IsLegal algo type q
        × ((is_adhoc q.search_mode ≡ false)
            ⊎ ((q.batch_size ≡ 0) × ((is_hnsw algo ≡ false) ⊎ (q.ef_runtime ≡ 0))))
        × (told ≡ (if is_empty_mode q.search_mode then none else some q.search_mode))
  unfolding resolve_params check_policy
  resolve_params-IsLegal rs q told e =
      let start : IsLegal algo type cleared = ground arith in
      let all = resolve_each-IsLegal rs cleared start in ground (arith, all)
