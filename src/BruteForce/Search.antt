-- ===== src/BruteForce/Search.antt =====
-- brute_force.h: topKQuery and rangeQuery. `timed_out i` is the answer of the timeout callback
-- at the `i`-th vector; `lowest` is the lowest finite distance.
pub mod Step
pub mod Chosen
pub mod TopK
pub mod Range
mod Tests
use vector_similarity.Base.{
  ℕ, zero, suc, ◌+◌, ◌<◌, ◌≤◌, Bool, true, false, ◌||◌, List, [], ◌∷◌, ◌++◌, Option, some, none,
  length, get_elem?, ltb, leb, ◌==◌, if◌then◌else◌, ◌>>=◌,
}
use vector_similarity.Containers.Raw.{RawContainer}
use vector_similarity.Containers.Results.{ResultsContainer}
use vector_similarity.Query.{
  QueryResult, QueryReply, ReplyCode, Candidate, to_result, reply_ok, timed_out,
}
use vector_similarity.Query.Heap.{PriorityQueue}
use vector_similarity.BruteForce.{Index, IndexComponents}

module _ {A : Type 0} (env : IndexComponents A) (stop : ℕ → Bool) {Q : Type 0}
    (pq : PriorityQueue Q) where
  -- the body of the loop: the queue of the best candidates and the bound that a score must beat
  pub consider : ℕ → List ℕ → ℕ → ℕ → Q → ℕ → Option (Q × ℕ)
  consider k labels curr_id score heap upper =
      let insert : Option (Q × ℕ) = do
        label ← get_elem? labels curr_id
        let grown = pq.push (score, label) heap
        kept ← (if ltb k (pq.count grown) then pq.drop_top grown else some grown)
        worst ← pq.best kept
        some (kept, worst.0)
      in if ltb score upper || ltb (pq.count heap) k then insert else some (heap, upper)

  -- the loop over the vectors; the inner `none` is a timeout
  pub scan : ℕ → List ℕ → A → ℕ → List A → Q → ℕ → Option (Option Q)
  scan k labels query curr_id [] heap upper = some (some heap)
  scan k labels query curr_id (x ∷ xs) heap upper =
      let next : Option (Option Q) = do
        (heap', upper') ← consider k labels curr_id (env.calc_distance x query) heap upper
        scan k labels query (suc curr_id) xs heap' upper'
      in if stop curr_id then some none else next

-- the results are filled from the last to the first; `n` is `TopCandidates->size()`
pub unload : {Q : Type 0} → PriorityQueue Q → ℕ → Q → List QueryResult → Option (List QueryResult)
unload pq zero heap out = some out
unload pq (suc n) heap out = do
  worst ← pq.best heap
  rest ← pq.drop_top heap
  unload pq n rest (to_result worst ∷ out)

module _ {A : Type 0} (env : IndexComponents A) (stop : ℕ → Bool) {C : Type 0}
    (rc : ResultsContainer C) where
  -- the loop of rangeQuery: the container of results, and the code
  pub range_scan : ℕ → List ℕ → A → ℕ → List A → C → Option (C × ReplyCode)
  range_scan radius labels query curr_id [] out = some (out, reply_ok)
  range_scan radius labels query curr_id (x ∷ xs) out =
      let score = env.calc_distance x query in
      let next : Option (C × ReplyCode) = do
        out' ←
            if leb score radius
            then (do label ← get_elem? labels curr_id; some (rc.emplace label score out))
            else some out
        range_scan radius labels query (suc curr_id) xs out'
      in if stop curr_id then some (out, timed_out) else next

module _ {A : Type 0} {n : ℕ} (R : RawContainer A n) {L : Type 0} (env : IndexComponents A)
    (stop : ℕ → Bool) where
  pub top_k_query :
      {Q : Type 0} → PriorityQueue Q → ℕ → Index R.Carrier L → A → ℕ → Option QueryReply
  top_k_query pq lowest s query k =
      let timeout : QueryReply = record { results = []; code = timed_out } in
      let search : Option QueryReply = do
        vectors ← R.iterate s.vectors
        found ←
            scan env stop pq k s.id_to_label (env.preprocess_query query) 0 vectors pq.new_queue
              lowest
        elim found [
          | none ↦ some timeout
          | some heap ↦ do
            results ← unload pq (pq.count heap) heap []
            some (record { results = results; code = reply_ok })
        ]
      in if k == 0 then some (record { results = []; code = reply_ok }) else search

  pub range_query :
      {C : Type 0} → ResultsContainer C → Index R.Carrier L → A → ℕ → Option QueryReply
  range_query rc s query radius = do
    vectors ← R.iterate s.vectors
    (out, code) ←
        range_scan env stop rc radius s.id_to_label (env.preprocess_query query) 0 vectors
          rc.new_container
    some (record { results = rc.get_results out; code = code })
