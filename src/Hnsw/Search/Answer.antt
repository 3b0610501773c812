-- ===== src/Hnsw/Search/Answer.antt =====
-- searchLayer on the nodes that the entry point reaches.
use vector_similarity.Base.{
  ℕ, ◌≤◌, ◌<◌, ◌≡◌, ◌↔◌, refl, subst, sym, Bool, true, false, List, some, length, arith,
}
use vector_similarity.Query.Order.{All, IsDescending}
use vector_similarity.Query.Heap.{Heap, max_priority_queue}
use vector_similarity.Hnsw.Links.{has}
use vector_similarity.Hnsw.Counts.{count, has-count, has_count}
use vector_similarity.Hnsw.Heuristic.{ids}
use vector_similarity.Hnsw.Layer.{Layer}
use vector_similarity.Hnsw.Visited.{Handler}
use vector_similarity.Hnsw.Visited.Fresh.{is_tagged, IsHandler, AtMostTags}
use vector_similarity.Hnsw.Search.{search_layer}
use vector_similarity.Hnsw.Search.Candidates.{Settled}
use vector_similarity.Hnsw.Search.Reach.{Reach}
use vector_similarity.Hnsw.Search.Run.{search_from-Run}

-- the queue of a search and the handler after it
pub record Answer (query : ℕ → ℕ) (deleted in_process : ℕ → Bool) (ef ep : ℕ) (g : Layer)
    (before : Handler) (top : Heap) (after : Handler) : Type 0 where
  pub distinct : (v : ℕ) → count v (ids top) ≤ 1
  pub alive : (v : ℕ) → 0 < count v (ids top) → deleted v ≡ false
  pub reached : (v : ℕ) → 0 < count v (ids top) → Reach g in_process ep v
  pub scored : All (λ c. c.0 ≡ query c.1) top
  pub descending : IsDescending top
  pub bounded : length top ≤ ef
  -- a live entry point, and a live node that a result has a link to
  pub entered : deleted ep ≡ false → Settled ef ep (query ep) top
  pub followed :
      (u v : ℕ)
      → 0 < count u (ids top)
      → has v (g u).links ≡ true
      → in_process v ≡ false
      → deleted v ≡ false
      → Settled ef v (query v) top
  pub handler : IsHandler after
  pub size : length after.elements_tags ≡ length before.elements_tags

module _ (query : ℕ → ℕ) (deleted in_process : ℕ → Bool) (ef ep : ℕ) (g : Layer)
    (max_score : ℕ) where
  -- a node that is reached is visited where the visited nodes are closed under links
  tagged_of_Reach :
      (tag : ℕ) (tags : List ℕ)
      → is_tagged tag tags ep ≡ true
      → ((u : ℕ)
          → is_tagged tag tags u ≡ true
          → (v : ℕ) → has v (g u).links ≡ true
          → in_process v ≡ false
          → is_tagged tag tags v ≡ true)
      → (v : ℕ) → Reach g in_process ep v
      → is_tagged tag tags v ≡ true
  tagged_of_Reach tag tags at_ep linked _ Reach.entry = at_ep
  tagged_of_Reach tag tags at_ep linked _ (Reach.follow u v r l i) =
      linked u (tagged_of_Reach tag tags at_ep linked u r) v l i

  has-count_pos : (v : ℕ) (top : Heap) → 0 < count v (ids top) → has v (ids top) ≡ true
  has-count_pos v top h = ground (arith, has_count v (ids top), h)

  -- In a graph whose links, and whose entry point, are nodes that the handler of the visited nodes
  -- has, with at least one result asked for and a handler in a sound state, the search of a level
  -- ends. It returns at most `ef` results, the farthest first, with their distances to the query;
  -- each is once there, is not marked as deleted, and is reached from the entry point along links to
  -- nodes that are not in process. The entry point, and each node not in process to which a result
  -- has a link, if not marked as deleted, is a result itself, or there are `ef` results and none is
  -- farther than it. The handler stays sound.
  pub search_layer-Answer :
      (handler : Handler)
      → ((u v : ℕ) → has v (g u).links ≡ true → v < length handler.elements_tags)
      → IsHandler handler
      → ep < length handler.elements_tags
      → 0 < ef
      → (top : Heap) × (after : Handler) × (search_layer max_priority_queue
            (λ j. j)
            query
            deleted
            in_process
            ef
            max_score
            g
            ep
            handler
          ≡ some (top, after))
        × Answer query deleted in_process ef ep g handler top after
  unfolding search_layer
  search_layer-Answer handler inside sound lt pos =
      let r =
        search_from-Run query deleted in_process ef ep g max_score (λ i. false) handler inside sound
          lt pos in
      let s = r.sound in
      (
        r.state.top,
        record { cur_tag = r.last.cur_tag; elements_tags = r.state.tags },
        rw r.result refl,
        record {
          distinct = λ v. ground (arith, s.answered v);
          alive = λ v h. ground (arith, s.answered v, h);
          reached = λ v h. s.reached v (ground (arith, s.answered v, h));
          scored = s.scored;
          descending = s.descending;
          bounded = s.bounded;
          entered = λ alive. s.settled ep r.entered alive;
          followed = λ u v h l free alive.
              s.settled v (r.expanded (r.runs (λ i. refl)) u h v l free) alive;
          handler = record {
            below = subst (λ t. AtMostTags t r.state.tags) (sym r.current) s.below;
            wide = r.wide;
          };
          size = s.size;
        },
      )

  -- Where more results are asked for than there are nodes, the results of the search of a level are
  -- exactly the nodes that are not marked as deleted and that the entry point reaches along links to
  -- nodes that are not in process.
  pub search_layer-Reach :
      (handler : Handler)
      → ((u v : ℕ) → has v (g u).links ≡ true → v < length handler.elements_tags)
      → IsHandler handler
      → ep < length handler.elements_tags
      → length handler.elements_tags < ef
      → (top : Heap) × (after : Handler) × (search_layer max_priority_queue
            (λ j. j)
            query
            deleted
            in_process
            ef
            max_score
            g
            ep
            handler
          ≡ some (top, after))
        × ((v : ℕ) → (has v (ids top) ≡ true) ↔ (Reach g in_process ep v × (deleted v ≡ false)))
  unfolding search_layer
  search_layer-Reach handler inside sound lt big =
      let r =
        search_from-Run query deleted in_process ef ep g max_score (λ i. false) handler inside sound
          lt (omega arith) in
      let s = r.sound in
      let (all, linked) = r.exhausts big (r.runs (λ i. refl)) in
      let found : (v : ℕ) → Reach g in_process ep v → is_tagged r.tag r.state.tags v ≡ true =
        tagged_of_Reach r.tag r.state.tags r.entered linked in
      (
        r.state.top,
        record { cur_tag = r.last.cur_tag; elements_tags = r.state.tags },
        rw r.result refl,
        λ v. (
          λ h.
              let here = has-count v (ids r.state.top) h in
              (
                s.reached v (ground (arith, s.answered v, here)),
                ground (arith, s.answered v, here),
              ),
          λ (reach, alive). has-count_pos v r.state.top (all v (found v reach) alive),
        ),
      )
