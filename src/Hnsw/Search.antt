-- ===== src/Hnsw/Search.antt =====
-- hnsw.h: the search of one level, processCandidate, searchLayer, searchBottomLayer_WithTimeout and
-- greedySearchLevel. `query` is the distance of the query to a stored vector, `deleted` is
-- isMarkedDeleted, and `in_process` is isInProcess. Scores are natural numbers, and `max_score` is
-- `std::numeric_limits<DistType>::max()`. A loop runs on fuel, and is `none` where it runs out.
pub mod Candidates
pub mod Reach
pub mod Scans
pub mod Visit
pub mod Step
pub mod Expand
pub mod Whole
pub mod Run
pub mod Answer
pub mod Descent
pub mod Keeps
use vector_similarity.Base.{
  ℕ, zero, suc, Bool, true, false, not, ◌&&◌, ◌||◌, List, [], ◌∷◌, Option, some, none, length, set,
  ltb, leb, ◌==◌, if◌then◌else◌, ◌>>=◌,
}
use vector_similarity.Query.{ReplyCode, reply_ok, timed_out}
use vector_similarity.Query.Heap.{Heap, PriorityQueue}
use vector_similarity.Hnsw.Layer.{Layer}
use vector_similarity.Hnsw.Visited.{Handler, get_fresh_tag, tag_node, get_node_tag}

-- `candidate_set.emplace(-score, id)`: the largest pair first, which has the lowest score, and of
-- equal scores the largest id
abbrev pub emplace_candidate : ℕ × ℕ → Heap → Heap
emplace_candidate c [] = c ∷ []
emplace_candidate c (x ∷ h) =
    let rest = emplace_candidate c h in
    if ltb c.0 x.0 || (not (ltb x.0 c.0) && ltb x.1 c.1) then c ∷ x ∷ h else x ∷ rest

-- the tags, `top_candidates`, `candidate_set` and `lowerBound`
pub record Scan (Q : Type 0) : Type 0 where
  pub tags : List ℕ
  pub top : Q
  pub candidates : Heap
  pub lower_bound : ℕ

-- `name` is the external label of an id, or the id, as emplaceToHeap takes it
module _ {Q : Type 0} (pq : PriorityQueue Q) (name query : ℕ → ℕ) (deleted in_process : ℕ → Bool)
    (ef : ℕ) where
  -- `lowerBound > cur_dist || top_candidates.size() < ef` holds
  unfoldable pub insert_candidate : ℕ → Scan Q → Option (Scan Q)
  insert_candidate id s = do
    let score = query id
    let grown = if deleted id then s.top else pq.push (score, name id) s.top
    kept ← (if ltb ef (pq.count grown) then pq.drop_top grown else some grown)
    some (record s {
      top = kept;
      candidates = emplace_candidate (score, id) s.candidates;
      lower_bound = elim (pq.best kept) [ none ↦ s.lower_bound | some c ↦ c.0 ];
    })

  unfoldable pub visit_link : ℕ → ℕ → Scan Q → Option (Scan Q)
  visit_link visited_tag id s = do
    tag ← get_node_tag id s.tags
    let tagged : Scan Q = record s { tags = set s.tags id visited_tag }
    if tag == visited_tag || in_process id
        then some s
        else if ltb (query id) s.lower_bound || ltb (pq.count s.top) ef
        then insert_candidate id tagged
        else some tagged

  -- the loop over the links, of which the source runs the last one apart
  abbrev pub visit_links : ℕ → List ℕ → Scan Q → Option (Scan Q)
  visit_links visited_tag [] s = some s
  visit_links visited_tag (id ∷ ids) s = do
    s' ← visit_link visited_tag id s
    visit_links visited_tag ids s'

  abbrev pub process_candidate : Layer → ℕ → ℕ → Scan Q → Option (Scan Q)
  process_candidate g visited_tag node s = visit_links visited_tag (g node).links s

  -- the loop; `stop i` is the answer of the timeout callback at the `i`-th candidate
  unfoldable pub search_loop : Layer → ℕ → (ℕ → Bool) → ℕ → ℕ → Scan Q → Option (Scan Q × ReplyCode)
  search_loop g visited_tag stop i zero s = none
  search_loop g visited_tag stop i (suc fuel) s = elim s.candidates [
    | [] ↦ some (s, reply_ok)
    | ◌∷◌ c cs ↦
        let next : Option (Scan Q × ReplyCode) = do
          s' ← process_candidate g visited_tag c.1 (record s { candidates = cs })
          search_loop g visited_tag stop (suc i) fuel s'
        in if ltb s.lower_bound c.0 && leb ef (pq.count s.top)
          then some (s, reply_ok)
          else if stop i
          then some (s, timed_out)
          else next
  ]

  -- the entry point, which is not added to the results if it is marked as deleted
  abbrev pub search_start : ℕ → ℕ → List ℕ → Scan Q
  search_start max_score ep tags =
      let score = if deleted ep then max_score else query ep in
      record {
        tags = tags;
        top = if deleted ep then pq.new_queue else pq.push (score, name ep) pq.new_queue;
        candidates = (score, ep) ∷ [];
        lower_bound = score;
      }

  -- the candidates, the code, and the handler of the visited nodes after the search
  abbrev pub search_from : ℕ → Layer → (ℕ → Bool) → ℕ → Handler → Option (Q × ReplyCode × Handler)
  search_from max_score g stop ep handler = do
    let (h, visited_tag) = get_fresh_tag handler
    tags ← tag_node ep visited_tag h.elements_tags
    (s, code) ←
        search_loop g visited_tag stop 0 (suc (length tags)) (search_start max_score ep tags)
    some (s.top, code, record h { elements_tags = s.tags })

  -- it has no timeout
  unfoldable pub search_layer : ℕ → Layer → ℕ → Handler → Option (Q × Handler)
  search_layer max_score g ep handler = do
    (top, code, h) ← search_from max_score g (λ i. false) ep handler
    some (top, h)

  -- `while (top_candidates->size() > k)`
  abbrev pub trim : ℕ → ℕ → Q → Option Q
  trim k zero q = some q
  trim k (suc n) q =
      let next : Option Q = do q' ← pq.drop_top q; trim k n q'
      in if ltb k (pq.count q) then next else some q

  unfoldable pub search_bottom_layer :
      ℕ → Layer → (ℕ → Bool) → ℕ → ℕ → Handler → Option (Q × ReplyCode × Handler)
  search_bottom_layer max_score g stop k ep handler = do
    (top, code, h) ← search_from max_score g stop ep handler
    elim code [
      | reply_ok ↦ do top' ← trim k (pq.count top) top; some (top', reply_ok, h)
      | timed_out ↦ some (top, timed_out, h)
    ]

-- The state of the loops: `bestCand`, `curDist`, `bestNonDeletedCand` and `changed`.
pub record Greedy : Type 0 where
  pub best : ℕ
  pub cur_dist : ℕ
  pub best_alive : ℕ
  pub changed : Bool

module _ (query : ℕ → ℕ) (deleted in_process : ℕ → Bool) where
  -- The loop over the links of the best candidate, where `running` is running_query. The assert that a
  -- link is below the number of elements is left out.
  abbrev pub greedy_links : Bool → List ℕ → Greedy → Greedy
  greedy_links running [] s = s
  greedy_links running (c ∷ cs) s =
      let skip = greedy_links running cs s in
      let alive = if not running && not (deleted c) then c else s.best_alive in
      let closer =
        greedy_links running cs
          (record { best = c; cur_dist = query c; best_alive = alive; changed = true }) in
      if in_process c then skip else if ltb (query c) s.cur_dist then closer else skip

  -- the `do` loop, which a timeout of a query leaves without a candidate
  pub greedy_loop : Layer → Bool → (ℕ → Bool) → ℕ → ℕ → Greedy → Option (Option Greedy)
  greedy_loop g running stop i zero s = none
  greedy_loop g running stop i (suc fuel) s =
      let s' = greedy_links running (g s.best).links (record s { changed = false }) in
      let next = greedy_loop g running stop (suc i) fuel s' in
      if running && stop i then some none else if s'.changed then next else some (some s')

  -- the candidate and its distance; `curDist` bounds the number of rounds
  unfoldable pub greedy_search_level : Layer → Bool → (ℕ → Bool) → ℕ → ℕ → Option (Option (ℕ × ℕ))
  greedy_search_level g running stop best cur_dist = do
    found ←
        greedy_loop g running stop 0 (suc cur_dist)
          (record { best = best; cur_dist = cur_dist; best_alive = best; changed = false })
    elim found [
      | none ↦ some none
      | some s ↦ some (some ((if running then s.best else s.best_alive), s.cur_dist))
    ]
