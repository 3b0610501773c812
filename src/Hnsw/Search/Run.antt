-- ===== src/Hnsw/Search/Run.antt =====
-- A search from an entry point: its start is in a sound state, and so is its end.
use vector_similarity.Base.{
  ℕ, suc, ◌+◌, ◌<◌, ◌≡◌, refl, ap, subst, ◌∙◌, Bool, true, false, List, some, length, set, ltb,
  ◌==◌, if◌then◌else◌, arith, Bool-cases, inl, inr, length-set,
}
use vector_similarity.Query.{ReplyCode, reply_ok}
use vector_similarity.Query.Heap.{Heap, emplace, max_priority_queue}
use vector_similarity.Hnsw.Links.{has}
use vector_similarity.Hnsw.Counts.{count}
use vector_similarity.Hnsw.Heuristic.{ids}
use vector_similarity.Hnsw.Layer.{Layer}
use vector_similarity.Hnsw.Visited.{Handler, get_fresh_tag, tag_node}
use vector_similarity.Hnsw.Visited.Fresh.{
  is_tagged, untagged, IsHandler, get_fresh_tag-Freshened, is_tagged-set, untagged-set,
  untagged-none, AtMostTags, AtMostTags-set,
}
use vector_similarity.Hnsw.Search.{Scan, search_start, search_from}
use vector_similarity.Hnsw.Search.Reach.{Reach}
use vector_similarity.Hnsw.Search.Expand.{IsSound, HasAll, IsLinked}
use vector_similarity.Hnsw.Search.Whole.{search_loop-Searched}

module _ (query : ℕ → ℕ) (deleted in_process : ℕ → Bool) (ef ep : ℕ) (g : Layer)
    (max_score : ℕ) where
  search_start-Sound :
      (tag n : ℕ) (tags : List ℕ)
      → length tags ≡ n
      → AtMostTags tag tags
      → untagged tag tags ≡ n
      → ep < n
      → 0 < ef
      → IsSound query deleted in_process ef n tag ep g (
          search_start max_priority_queue
            (λ j. j)
            query
            deleted
            in_process
            ef
            max_score
            ep
            (set tags ep tag))
  unfolding emplace
  search_start-Sound tag n tags size below fresh lt pos =
      let none_yet : (v : ℕ) → is_tagged tag tags v ≡ false =
        λ v. untagged-none tag tags v (omega (arith, size, fresh)) in
      let tagged_at : (v : ℕ)
          → is_tagged tag (set tags ep tag) v ≡ (if ep == v then true else is_tagged tag tags v) =
        λ v. is_tagged-set tag tags ep v (omega (arith, size)) in
      let fewer = untagged-set tag tags ep (omega (arith, size)) (none_yet ep) in
      record {
        size = omega (arith, length-set tags ep tag, size);
        below = AtMostTags-set tags ep tag below;
        answered = λ v. elim (Bool-cases (ep == v)) [
          | inl same ↦
              let at = ap deleted {x = ep} {y = v} (ground (arith, same)) in
              elim (Bool-cases (deleted ep)) [
                | inl dead ↦ rw dead (omega arith)
                | inr alive ↦ rw alive (ground (arith, tagged_at v, same, at, alive))
              ]
          | inr other ↦ elim (Bool-cases (deleted ep)) [
            | inl dead ↦ rw dead (omega arith)
            | inr alive ↦ rw alive (ground (arith, other))
          ]
        ];
        scored = elim (Bool-cases (deleted ep)) [
          | inl dead ↦ rw dead tt
          | inr alive ↦ rw alive (refl, tt)
        ];
        descending = elim (Bool-cases (deleted ep)) [
          | inl dead ↦ rw dead tt
          | inr alive ↦ rw alive (tt, tt)
        ];
        bounded = elim (Bool-cases (deleted ep)) [
          | inl dead ↦ rw dead (omega arith)
          | inr alive ↦ rw alive (omega arith)
        ];
        room = elim (Bool-cases (deleted ep)) [
          | inl dead ↦ rw dead (omega (arith, fewer, fresh))
          | inr alive ↦ rw alive (omega (arith, fewer, fresh))
        ];
        reached = λ v h.
            subst (Reach g in_process ep) {x = ep} {y = v}
              (ground (arith, tagged_at v, none_yet v, h)) Reach.entry;
        some_wanted = pos;
        lower = elim (Bool-cases (deleted ep)) [
          | inl dead ↦ rw dead tt
          | inr alive ↦ rw alive refl
        ];
        settled = λ v h alive.
            let same : ep ≡ v = ground (arith, tagged_at v, none_yet v, h) in
            let living : deleted ep ≡ false = ap deleted same ∙ alive in
            rw living (inl (ground (arith, same)));
        in_order = (tt, tt);
        cand_scored = (λ alive. rw alive refl, tt);
        queued = λ v h. ground (arith, h, tagged_at v);
      }

  -- the result of the start, if any, is its candidate
  start_waits :
      (tags : List ℕ) (u : ℕ)
      → (let s0 =
            search_start max_priority_queue
              (λ j. j)
              query
              deleted
              in_process
              ef
              max_score
              ep
              tags in
          0 < count u (ids s0.top) → 0 < count u (ids s0.candidates))
  unfolding emplace
  start_waits tags u h = elim (Bool-cases (deleted ep)) [
    | inl dead ↦ absurd (ground (arith, dead, h))
    | inr alive ↦ ground (arith, alive, h)
  ]

  -- a search with its state at the end, where `n` is the number of the nodes
  pub record Run (stop : ℕ → Bool) (handler : Handler) (n : ℕ) : Type 0 where
    pub last : Handler
    pub tag : ℕ
    pub state : Scan Heap
    pub code : ReplyCode
    pub result :
        search_from max_priority_queue
          (λ j. j)
          query
          deleted
          in_process
          ef
          max_score
          g
          stop
          ep
          handler
        ≡ some (state.top, code, record { cur_tag = last.cur_tag; elements_tags = state.tags })
    pub current : last.cur_tag ≡ tag
    pub wide : last.cur_tag < 65536
    pub sound : IsSound query deleted in_process ef n tag ep g state
    pub entered : is_tagged tag state.tags ep ≡ true
    pub runs : ((i : ℕ) → stop i ≡ false) → code ≡ reply_ok
    pub expanded :
        code ≡ reply_ok
        → (u : ℕ) → 0 < count u (ids state.top)
        → IsLinked query deleted in_process ef n tag ep g u state
    pub exhausts :
        n < ef
        → code ≡ reply_ok
        → HasAll query deleted in_process ef n tag ep g state
          × ((u : ℕ)
              → is_tagged tag state.tags u ≡ true
              → IsLinked query deleted in_process ef n tag ep g u state)

  pub search_from-Run :
      (stop : ℕ → Bool) (handler : Handler)
      → ((u v : ℕ) → has v (g u).links ≡ true → v < length handler.elements_tags)
      → IsHandler handler
      → ep < length handler.elements_tags
      → 0 < ef
      → Run stop handler (length handler.elements_tags)
  unfolding tag_node emplace
  search_from-Run stop handler inside sound lt pos =
      let n = length handler.elements_tags in
      let f = get_fresh_tag-Freshened handler sound in
      let h = (get_fresh_tag handler).0 in
      let tag = (get_fresh_tag handler).1 in
      let tags = set h.elements_tags ep tag in
      let s0 =
        search_start max_priority_queue (λ j. j) query deleted in_process ef max_score ep tags in
      let begun =
        search_start-Sound tag n h.elements_tags f.size
          (subst (λ t. AtMostTags t h.elements_tags) f.current f.sound.below) f.unused lt pos in
      let only : (v : ℕ) → is_tagged tag tags v ≡ true → ep ≡ v = λ v k. ground (
        arith,
        k,
        is_tagged-set tag h.elements_tags ep v (omega (arith, f.size)),
        untagged-none tag h.elements_tags v (omega (arith, f.size, f.unused)),
      ) in
      let fuel : length s0.candidates + untagged tag tags < suc (length tags) = omega (
        arith,
        untagged-set tag h.elements_tags ep (omega (arith, f.size))
            (untagged-none tag h.elements_tags ep (omega (arith, f.size, f.unused))),
        f.unused,
        f.size,
        length-set h.elements_tags ep tag,
      ) in
      let (s', code, done, p) =
        search_loop-Searched query deleted in_process ef n tag ep g stop inside (suc (length tags))
          0 s0 begun fuel in
      let inside_h : ltb ep (length h.elements_tags) ≡ true = ground (arith, f.size) in
      record {
        last = h;
        tag = tag;
        state = s';
        code = code;
        result = rw (inside_h, done) refl;
        current = f.current;
        wide = f.sound.wide;
        sound = p.sound;
        entered =
            p.grows ep
              (ground (arith, is_tagged-set tag h.elements_tags ep ep (omega (arith, f.size))));
        runs = p.runs;
        expanded = p.expanded (λ u k. inl (start_waits tags u k));
        exhausts = λ big.
            p.exhausts big
              (λ v k alive.
                let at = ap deleted {x = ep} {y = v} (only v k) in
                let living = at ∙ alive in rw living (ground (arith, only v k)))
              (λ v k. inl (ground (arith, only v k)));
      }
