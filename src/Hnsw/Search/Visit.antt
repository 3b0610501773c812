-- ===== src/Hnsw/Search/Visit.antt =====
-- What the visit of one node that is not visited yet does to a search for ids.
use vector_similarity.Base.{
  ℕ, suc, ◌+◌, ◌≤◌, ◌<◌, ◌≡◌, refl, ap, subst, ◌∙◌, Bool, true, false, ◌||◌, List, [], ◌∷◌, some,
  none, length, set, ltb, ◌==◌, if◌then◌else◌, arith, Bool-cases, inl, inr, length-set,
}
use vector_similarity.Query.Order.{All, All-map, IsDescending}
use vector_similarity.Query.Heap.{
  Heap, emplace, top, max_priority_queue, emplace-All, emplace-IsDescending, length-emplace,
}
use vector_similarity.Hnsw.Counts.{one_if, count}
use vector_similarity.Hnsw.Heuristic.{ids}
use vector_similarity.Hnsw.Visited.Fresh.{
  is_tagged, untagged, AtMostTags-set, is_tagged-set, untagged-set,
}
use vector_similarity.Hnsw.Search.{Scan, emplace_candidate, insert_candidate}
use vector_similarity.Hnsw.Search.Candidates.{
  count-emplace_candidate, length-emplace_candidate, count-emplace, cut_lem, Cut, Settled,
  LowerIs-top, under_lower, below_lower, emplace_candidate-InOrder, emplace_candidate-All,
}
use vector_similarity.Hnsw.Search.Scans.{Sound, Stepped}

module _ (query : ℕ → ℕ) (deleted in_process : ℕ → Bool) (ef n tag : ℕ) (R : ℕ → Type 0) where
  abbrev IsSound : Scan Heap → Type 0
  IsSound = Sound query deleted in_process ef n tag R

  abbrev IsStepped : List ℕ → Scan Heap → Scan Heap → Type 0
  IsStepped = Stepped query deleted in_process ef n tag R

  -- the queue after the push of a visited node, unless it is marked as deleted
  abbrev grown : ℕ → Heap → Heap
  grown id h = if deleted id then h else emplace (query id, id) h

  module _ (id : ℕ) (s : Scan Heap) (sound : IsSound s) (inside : id < n)
      (fresh : is_tagged tag s.tags id ≡ false) (r : R id) where
    abbrev tagged : List ℕ
    tagged = set s.tags id tag

    tagged_at :
        (v : ℕ) → is_tagged tag tagged v ≡ (if id == v then true else is_tagged tag s.tags v)
    tagged_at v = is_tagged-set tag s.tags id v (omega (arith, sound.size))

    fewer : suc (untagged tag tagged) ≡ untagged tag s.tags
    fewer = untagged-set tag s.tags id (omega (arith, sound.size)) fresh

    reached : (v : ℕ) → is_tagged tag tagged v ≡ true → R v
    reached v h = elim (Bool-cases (id == v)) [
      | inl same ↦ subst R (ground (arith, same)) r
      | inr other ↦ sound.reached v (ground (arith, h, other, tagged_at v))
    ]

    reject-Settled :
        (ltb (query id) s.lower_bound || ltb (length s.top) ef) ≡ false
        → (v : ℕ) → is_tagged tag tagged v ≡ true
        → deleted v ≡ false
        → Settled ef v (query v) s.top
    reject-Settled full v h alive = elim (Bool-cases (id == v)) [
      | inl same ↦
          let at : query id ≡ query v = ap query {x = id} {y = v} (ground (arith, same)) in
          let far : s.lower_bound ≤ query v = ground (arith, full, at) in
          inr (
            ground (arith, full, sound.bounded),
            All-map s.top (λ c k. omega (arith, far))
                (under_lower s.lower_bound s.top sound.lower sound.descending),
          )
      | inr other ↦ sound.settled v (ground (arith, h, other, tagged_at v)) alive
    ]

    pub reject-Stepped :
        (ltb (query id) s.lower_bound || ltb (length s.top) ef) ≡ false
        → IsStepped (id ∷ []) s (record s { tags = tagged })
    reject-Stepped full = record {
      sound = record {
        size = omega (arith, length-set s.tags id tag, sound.size);
        below = AtMostTags-set s.tags id tag sound.below;
        answered = λ v. ground (arith, sound.answered v, tagged_at v);
        scored = sound.scored;
        descending = sound.descending;
        bounded = sound.bounded;
        room = omega (arith, sound.room, fewer);
        reached = reached;
        some_wanted = sound.some_wanted;
        lower = sound.lower;
        settled = reject-Settled full;
        in_order = sound.in_order;
        cand_scored = sound.cand_scored;
        queued = λ v h. ground (arith, sound.queued v h, tagged_at v);
      };
      grows = λ v h. ground (arith, h, tagged_at v);
      visited = λ v h p. ground (arith, h, tagged_at v);
      shrinks = omega (arith, fewer);
      keeps = λ v. omega arith;
      expands = λ v h. inl h;
      complete = λ big. absurd (ground (arith, full, sound.room));
      queues = λ big. absurd (ground (arith, full, sound.room));
    }

    grown-count :
        (v : ℕ)
        → count v (ids (grown id s.top))
          ≡ (if deleted id then 0 else one_if (id == v)) + count v (ids s.top)
    grown-count v = ground (arith, count-emplace v (query id, id) s.top)

    grown-length : length (grown id s.top) ≤ suc (length s.top)
    grown-length = ground (arith, length-emplace (query id, id) s.top)

    grown-longer : length s.top ≤ length (grown id s.top)
    grown-longer = ground (arith, length-emplace (query id, id) s.top)

    grown-near :
        (v : ℕ)
        → query id ≤ query v
        → All (λ c. c.0 ≤ query v) s.top
        → All (λ c. c.0 ≤ query v) (grown id s.top)
    grown-near v here all = elim (Bool-cases (deleted id)) [
      | inl dead ↦ rw dead all
      | inr alive ↦ rw alive (emplace-All (λ c. c.0 ≤ query v) (query id, id) s.top here all)
    ]

    grown-scored : All (λ c. c.0 ≡ query c.1) (grown id s.top)
    grown-scored = elim (Bool-cases (deleted id)) [
      | inl dead ↦ rw dead sound.scored
      | inr alive ↦
          rw alive (emplace-All (λ c. c.0 ≡ query c.1) (query id, id) s.top refl sound.scored)
    ]

    grown-IsDescending : IsDescending (grown id s.top)
    grown-IsDescending = elim (Bool-cases (deleted id)) [
      | inl dead ↦ rw dead sound.descending
      | inr alive ↦ rw alive (emplace-IsDescending (query id, id) s.top sound.descending)
    ]

    insert-Settled :
        (kept : Heap)
        → (ltb (query id) s.lower_bound || ltb (length s.top) ef) ≡ true
        → Cut ef (grown id s.top) kept
        → (v : ℕ) → is_tagged tag tagged v ≡ true
        → deleted v ≡ false
        → Settled ef v (query v) kept
    insert-Settled kept takes cut v h alive =
        let settles = cut.settles query grown-IsDescending grown-scored v in
        elim (Bool-cases (id == v)) [
          | inl same ↦
              let living = ap deleted {x = id} {y = v} (ground (arith, same)) ∙ alive in
              settles (ground (arith, grown-count v, same, living))
          | inr other ↦ elim (sound.settled v (ground (arith, h, other, tagged_at v)) alive) [
            | inl here ↦ settles (omega (arith, grown-count v, here))
            | inr full ↦
                let near : query id < s.lower_bound = ground (arith, takes, full.0) in
                let here =
                  below_lower s.lower_bound (query v) (query id) s.top sound.lower full.1
                    (omega (arith, full.0, sound.some_wanted)) near in
                inr (
                  cut.full (omega (arith, grown-longer, full.0)),
                  cut.still (λ c. c.0 ≤ query v) (grown-near v here full.1),
                )
          ]
        ]

    pub insert-Stepped :
        (ltb (query id) s.lower_bound || ltb (length s.top) ef) ≡ true
        → (s' : Scan Heap) × (insert_candidate max_priority_queue
              (λ i. i)
              query
              deleted
              in_process
              ef
              id
              (record s { tags = tagged })
            ≡ some s')
          × IsStepped (id ∷ []) s s'
    unfolding insert_candidate
    insert-Stepped takes =
        let g = grown id s.top in
        let counts : (v : ℕ)
            → count v (ids g) ≡ (if deleted id then 0 else one_if (id == v)) + count v (ids s.top) =
          λ v. grown-count v in
        let longer : length g ≤ suc (length s.top) = grown-length in
        let (kept, done, cut) = cut_lem ef g (omega (arith, sound.bounded)) in
        let score = query id in
        let cands = emplace_candidate (score, id) s.candidates in
        let queue : (v : ℕ) → count v (ids cands) ≡ one_if (id == v) + count v (ids s.candidates) =
          λ v. count-emplace_candidate v (score, id) s.candidates in
        (
          record {
            tags = tagged;
            top = kept;
            candidates = cands;
            lower_bound = elim (top kept) [ none ↦ s.lower_bound | some c ↦ c.0 ];
          },
          rw done refl,
          record {
            sound = record {
              size = omega (arith, length-set s.tags id tag, sound.size);
              below = AtMostTags-set s.tags id tag sound.below;
              answered =
                  λ v. ground (arith, sound.answered v, tagged_at v, cut.counts v, counts v, fresh);
              scored = cut.still (λ c. c.0 ≡ query c.1) grown-scored;
              descending = cut.descending grown-IsDescending;
              bounded = cut.bounded;
              room = omega (arith, sound.room, fewer, cut.smaller, longer);
              reached = reached;
              some_wanted = sound.some_wanted;
              lower = LowerIs-top s.lower_bound kept;
              settled = insert-Settled kept takes cut;
              in_order = emplace_candidate-InOrder (score, id) s.candidates sound.in_order;
              cand_scored =
                  emplace_candidate-All (λ c. deleted c.1 ≡ false → c.0 ≡ query c.1) (score, id)
                    s.candidates (λ alive. refl) sound.cand_scored;
              queued = λ v h. ground (arith, queue v, sound.queued v, tagged_at v);
            };
            grows = λ v h. ground (arith, h, tagged_at v);
            visited = λ v h p. ground (arith, h, tagged_at v);
            shrinks = omega (arith, fewer, length-emplace_candidate (score, id) s.candidates);
            keeps = λ v. omega (arith, queue v);
            expands = λ v h. elim (Bool-cases (id == v)) [
              | inl same ↦ inr (ground (arith, queue v, same))
              | inr other ↦ inl (ground (arith, cut.counts v, counts v, h, other))
            ];
            complete = λ big c v h alive.
                let whole = cut.whole (omega (arith, sound.room, fewer, longer)) v in
                elim (Bool-cases (id == v)) [
                  | inl same ↦
                      let living = ap deleted {x = id} {y = v} (ground (arith, same)) ∙ alive in
                      ground (arith, whole, counts v, same, living)
                  | inr other ↦ ground (arith, whole, counts v, other, c v, h, tagged_at v, alive)
                ];
            queues = λ big v h. ground (arith, h, tagged_at v, queue v);
          },
        )
