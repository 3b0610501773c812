-- ===== src/Hnsw/Range.antt =====
-- hnsw.h: processCandidate_RangeSearch and searchRangeBottomLayer_WithTimeout. `query` is the distance
-- of the query to a stored vector, `name` is getExternalLabel, `deleted` is isMarkedDeleted, and
-- `in_process` is isInProcess. `stretch` is the product of a range with `1.0 + epsilon`, of
-- floating-point numbers. The loop runs on fuel, and is `none` where it runs out.
pub mod State
pub mod Visit
pub mod Loop
pub mod Within
use vector_similarity.Base.{
  ℕ, zero, suc, Bool, true, false, not, ◌&&◌, ◌||◌, List, [], ◌∷◌, Option, some, none, length, set,
  ltb, leb, ◌==◌, if◌then◌else◌, ◌>>=◌,
}
use vector_similarity.Containers.Results.{ResultsContainer}
use vector_similarity.Query.{QueryResult, ReplyCode, reply_ok, timed_out}
use vector_similarity.Query.Heap.{Heap}
use vector_similarity.Hnsw.Layer.{Layer}
use vector_similarity.Hnsw.Visited.{Handler, get_fresh_tag, tag_node, get_node_tag}
use vector_similarity.Hnsw.Search.{emplace_candidate}

-- the tags, the results, `candidate_set`, `dynamic_range` and `dynamic_range_search_boundaries`
pub record RangeScan (C : Type 0) : Type 0 where
  pub tags : List ℕ
  pub results : C
  pub candidates : Heap
  pub dynamic_range : ℕ
  pub boundaries : ℕ

module _ {C : Type 0} (rc : ResultsContainer C) (name query : ℕ → ℕ) (deleted in_process : ℕ → Bool)
    (stretch : ℕ → ℕ) (radius : ℕ) where
  pub visit_link_in_range : ℕ → ℕ → RangeScan C → Option (RangeScan C)
  visit_link_in_range visited_tag id s = do
    tag ← get_node_tag id s.tags
    let tagged : RangeScan C = record s { tags = set s.tags id visited_tag }
    let out =
        if leb (query id) radius && not (deleted id)
        then rc.emplace (name id) (query id) s.results
        else s.results
    let near : RangeScan C = record tagged {
      results = out;
      candidates = emplace_candidate (query id, id) s.candidates;
    }
    if tag == visited_tag || in_process id
        then some s
        else if ltb (query id) s.boundaries
        then some near
        else some tagged

  abbrev pub visit_links_in_range : ℕ → List ℕ → RangeScan C → Option (RangeScan C)
  visit_links_in_range visited_tag [] s = some s
  visit_links_in_range visited_tag (id ∷ ids) s = do
    s' ← visit_link_in_range visited_tag id s
    visit_links_in_range visited_tag ids s'

  -- the effective range gets smaller, but not smaller than the radius
  abbrev pub shrink_range : ℕ → RangeScan C → RangeScan C
  shrink_range score s =
      if ltb score s.dynamic_range && leb radius score
      then record s { dynamic_range = score; boundaries = stretch score }
      else s

  pub range_loop : Layer → ℕ → (ℕ → Bool) → ℕ → ℕ → RangeScan C → Option (RangeScan C × ReplyCode)
  range_loop g visited_tag stop i zero s = none
  range_loop g visited_tag stop i (suc fuel) s = elim s.candidates [
    | [] ↦ some (s, reply_ok)
    | ◌∷◌ c cs ↦
        let next : Option (RangeScan C × ReplyCode) = do
          s' ←
              visit_links_in_range visited_tag (g c.1).links
                (shrink_range c.0 (record s { candidates = cs }))
          range_loop g visited_tag stop (suc i) fuel s'
        in if ltb s.boundaries c.0
          then some (s, reply_ok)
          else if stop i
          then some (s, timed_out)
          else next
  ]

  -- the ranges and the results at the entry point
  abbrev pub range_start : ℕ → ℕ → List ℕ → RangeScan C
  range_start max_score ep tags =
      let score = if deleted ep then max_score else query ep in
      let inside = not (deleted ep) && leb (query ep) radius in
      let range = if inside then radius else score in
      record {
        tags = tags;
        results =
            if inside then rc.emplace (name ep) (query ep) rc.new_container else rc.new_container;
        candidates = (score, ep) ∷ [];
        dynamic_range = range;
        boundaries = if deleted ep then max_score else stretch range;
      }

  -- the results, the code, and the handler of the visited nodes after the search
  unfoldable pub search_range_bottom_layer :
      ℕ → Layer → (ℕ → Bool) → ℕ → Handler → Option (List QueryResult × ReplyCode × Handler)
  search_range_bottom_layer max_score g stop ep handler = do
    let (h, visited_tag) = get_fresh_tag handler
    tags ← tag_node ep visited_tag h.elements_tags
    (s, code) ← range_loop g visited_tag stop 0 (suc (length tags)) (range_start max_score ep tags)
    some (rc.get_results s.results, code, record h { elements_tags = s.tags })
