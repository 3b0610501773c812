-- ===== src/Hnsw/Range/Visit.antt =====
-- What a round of the range search does to its state: the results stay in the range.
use vector_similarity.Base.{
  ℕ, suc, ◌≤◌, ◌<◌, ◌≡◌, refl, ap, subst, Bool, true, false, not, ◌&&◌, ◌||◌, List, [], ◌∷◌, ◌++◌,
  Option, length, set, ltb, leb, ◌==◌, if◌then◌else◌, arith, Bool-cases, inl, inr, length-set,
}
use vector_similarity.Containers.Results.{default_results_container}
use vector_similarity.Query.{QueryResult}
use vector_similarity.Query.Order.{All-append}
use vector_similarity.Hnsw.Links.{has}
use vector_similarity.Hnsw.Layer.{Layer}
use vector_similarity.Hnsw.Visited.{get_node_tag}
use vector_similarity.Hnsw.Visited.Fresh.{
  is_tagged, untagged, is_tagged-set, get_elem?-is_tagged, untagged-set, untagged-none,
}
use vector_similarity.Hnsw.Search.{emplace_candidate}
use vector_similarity.Hnsw.Search.Candidates.{
  count-emplace_candidate, length-emplace_candidate, emplace_candidate-All,
  emplace_candidate-InOrder,
}
use vector_similarity.Hnsw.Search.Reach.{Reach}
use vector_similarity.Hnsw.Range.{
  RangeScan, visit_link_in_range, visit_links_in_range, shrink_range, range_start,
}
use vector_similarity.Hnsw.Range.State.{
  IsIn, IsIn-append, IsIn-last, IsWithin, result_of, InRange, measure, Passed, Steps, Passed-none,
  Passed-then, Passed-skip,
}

module _ (name query : ℕ → ℕ) (deleted in_process : ℕ → Bool) (stretch : ℕ → ℕ) (radius : ℕ)
    (g : Layer) (ep : ℕ) where
  module _ (n tag : ℕ) where
    abbrev IsInRange : RangeScan (List QueryResult) → Type 0
    IsInRange = InRange name query deleted in_process stretch radius g ep n tag

    abbrev IsPassed : List ℕ → RangeScan (List QueryResult) → RangeScan (List QueryResult) → Type 0
    IsPassed = Passed name query deleted in_process stretch radius g ep n tag

    abbrev size_of : RangeScan (List QueryResult) → ℕ
    size_of = measure name query deleted in_process stretch radius g ep n tag

    abbrev AreSteps :
        List ℕ → RangeScan (List QueryResult) → Option (RangeScan (List QueryResult)) → Type 0
    AreSteps = Steps name query deleted in_process stretch radius g ep n tag

    module _ (id : ℕ) (s : RangeScan (List QueryResult)) (p : IsInRange s) (inside : id < n)
        (fresh : is_tagged tag s.tags id ≡ false) (reach : Reach g in_process ep id) where
      tagged_at :
          (v : ℕ)
          → is_tagged tag (set s.tags id tag) v ≡ (if id == v then true else is_tagged tag s.tags v)
      tagged_at v = is_tagged-set tag s.tags id v (omega (arith, p.size))

      fewer : suc (untagged tag (set s.tags id tag)) ≡ untagged tag s.tags
      fewer = untagged-set tag s.tags id (omega (arith, p.size)) fresh

      all_reached : (v : ℕ) → is_tagged tag (set s.tags id tag) v ≡ true → Reach g in_process ep v
      all_reached v h = elim (Bool-cases (id == v)) [
        | inl same ↦ subst (Reach g in_process ep) {x = id} {y = v} (ground (arith, same)) reach
        | inr other ↦ p.reached v (ground (arith, h, other, tagged_at v))
      ]

      far_InRange :
          ltb (query id) s.boundaries ≡ false → IsInRange (record s { tags = set s.tags id tag })
      far_InRange far = record {
        floor = p.floor;
        found = λ v h alive close low. elim (Bool-cases (id == v)) [
          | inl same ↦
              let at : query id ≡ query v = ap query {x = id} {y = v} (ground (arith, same)) in
              absurd (ground (arith, far, at, low, p.floor))
          | inr other ↦ p.found v (ground (arith, h, other, tagged_at v)) alive close low
        ];
        in_order = p.in_order;
        size = omega (arith, length-set s.tags id tag, p.size);
        within = p.within;
        reached = all_reached;
        queued = λ v h. ground (arith, p.queued v h, tagged_at v);
      }

      far_Passed :
          ltb (query id) s.boundaries ≡ false
          → IsPassed (id ∷ []) s (record s { tags = set s.tags id tag })
      far_Passed far = record {
        grows = λ v h. ground (arith, h, tagged_at v);
        visited = λ v h k. ground (arith, h, tagged_at v);
        keeps = λ v. omega arith;
        queues = λ v h low. elim (Bool-cases (id == v)) [
          | inl same ↦
              let at : query id ≡ query v = ap query {x = id} {y = v} (ground (arith, same)) in
              absurd (ground (arith, far, at, low, p.floor))
          | inr other ↦ inl (ground (arith, h, other, tagged_at v))
        ];
        scored = λ h. h;
      }

      near_found :
          (v : ℕ)
          → is_tagged tag (set s.tags id tag) v ≡ true
          → deleted v ≡ false
          → query v ≤ radius
          → query v < stretch radius
          → IsIn (result_of name query deleted in_process stretch radius g ep v) (
              if leb (query id) radius && not (deleted id)
              then s.results ++ result_of name query deleted in_process stretch radius g ep id ∷ []
              else s.results)
      near_found v h alive close low = elim (Bool-cases (id == v)) [
        | inl same ↦
            let at : id ≡ v = ground (arith, same) in
            subst
              (λ (u : ℕ). IsIn (result_of name query deleted in_process stretch radius g ep u) (
                if leb (query id) radius && not (deleted id)
                then s.results
                  ++ result_of name query deleted in_process stretch radius g ep id ∷ []
                else s.results))
              at
              (let hit : (leb (query id) radius && not (deleted id)) ≡ true =
                  ground (arith, close, alive, ap query at, ap deleted at) in
                rw hit (
                  IsIn-last (result_of name query deleted in_process stretch radius g ep id)
                    s.results))
        | inr other ↦
            let before = p.found v (ground (arith, h, other, tagged_at v)) alive close low in
            elim (Bool-cases (leb (query id) radius && not (deleted id))) [
              | inl hit ↦ rw hit (
                  IsIn-append (result_of name query deleted in_process stretch radius g ep v)
                    s.results (result_of name query deleted in_process stretch radius g ep id ∷ [])
                    before)
              | inr miss ↦ rw miss before
            ]
      ]

      near_Passed :
          (out : List QueryResult)
          → IsPassed (id ∷ []) s (record s {
            tags = set s.tags id tag;
            results = out;
            candidates = emplace_candidate (query id, id) s.candidates;
          })
      near_Passed out =
          let queue = λ (v : ℕ). count-emplace_candidate v (query id, id) s.candidates in
          record {
            grows = λ v h. ground (arith, h, tagged_at v);
            visited = λ v h k. ground (arith, h, tagged_at v);
            keeps = λ v. omega (arith, queue v);
            queues = λ v h low. ground (arith, h, tagged_at v, queue v);
            scored = emplace_candidate-All (λ c. c.0 ≡ query c.1) (query id, id) s.candidates refl;
          }

      -- where the results have the node if it is in the range and live
      near_InRange : IsInRange (record s {
        tags = set s.tags id tag;
        results =
            if leb (query id) radius && not (deleted id)
            then s.results ++ record { id = name id; score = query id } ∷ []
            else s.results;
        candidates = emplace_candidate (query id, id) s.candidates;
      })
      near_InRange = record {
        floor = p.floor;
        found = near_found;
        in_order = emplace_candidate-InOrder (query id, id) s.candidates p.in_order;
        size = omega (arith, length-set s.tags id tag, p.size);
        within = elim (Bool-cases (leb (query id) radius && not (deleted id))) [
          | inl hit ↦ rw hit (
              All-append (IsWithin name query deleted in_process stretch radius g ep) s.results _
                p.within ((ground (arith, hit), (id, refl, refl, ground (arith, hit), reach)), tt))
          | inr miss ↦ rw miss p.within
        ];
        reached = all_reached;
        queued = λ v h. ground (
          arith,
          count-emplace_candidate v (query id, id) s.candidates,
          p.queued v,
          h,
          tagged_at v,
        );
      }

    visit_link-Steps :
        (id : ℕ) (s : RangeScan (List QueryResult))
        → IsInRange s
        → id < n
        → (in_process id ≡ false → Reach g in_process ep id)
        → AreSteps (id ∷ []) s (
            visit_link_in_range default_results_container name query deleted in_process stretch
              radius tag id s)
    unfolding visit_link_in_range get_node_tag
    visit_link-Steps id s p inside reach =
        let (t, read, same) = get_elem?-is_tagged tag s.tags id (omega (arith, p.size)) in
        elim (Bool-cases (is_tagged tag s.tags id || in_process id)) [
          | inl skip ↦ (
            s,
            rw (read, same, skip) refl,
            p,
            omega arith,
            Passed-skip name query deleted in_process stretch radius g ep n tag id s skip,
          )
          | inr visit ↦
              let fresh : is_tagged tag s.tags id ≡ false = ground (arith, visit) in
              let here = reach (ground (arith, visit)) in
              let less = fewer id s p inside fresh here in
              elim (Bool-cases (ltb (query id) s.boundaries)) [
                | inl near ↦ (
                  _,
                  rw (read, same, visit, near) refl,
                  near_InRange id s p inside fresh here,
                  omega (arith, less, length-emplace_candidate (query id, id) s.candidates),
                  near_Passed id s p inside fresh here _,
                )
                | inr far ↦ (
                  _,
                  rw (read, same, visit, far) refl,
                  far_InRange id s p inside fresh here far,
                  omega (arith, less),
                  far_Passed id s p inside fresh here far,
                )
              ]
        ]

    pub visit_links-Steps :
        (js : List ℕ) (s : RangeScan (List QueryResult))
        → IsInRange s
        → ((v : ℕ) → has v js ≡ true → v < n)
        → ((v : ℕ) → has v js ≡ true → in_process v ≡ false → Reach g in_process ep v)
        → AreSteps js s (
            visit_links_in_range default_results_container name query deleted in_process stretch
              radius tag js s)
    visit_links-Steps [] s p inside reach = (
      s,
      refl,
      p,
      omega arith,
      Passed-none name query deleted in_process stretch radius g ep n tag s,
    )
    visit_links-Steps (j ∷ js) s p inside reach =
        let (s', done, p', less, q) =
          visit_link-Steps j s p (inside j (ground arith)) (reach j (ground arith)) in
        let (s'', rest, p'', less', q') =
          visit_links-Steps js s' p' (λ v h. inside v (ground (arith, h)))
            (λ v h. reach v (ground (arith, h))) in
        (
          s'',
          rw done rest,
          p'',
          omega (arith, less, less'),
          Passed-then name query deleted in_process stretch radius g ep n tag j js s s' s'' q q',
        )

    pub shrink-InRange :
        ((a b : ℕ) → a ≤ b → stretch a ≤ stretch b)
        → (score : ℕ) (s : RangeScan (List QueryResult)) → IsInRange s
        → IsInRange (
            shrink_range default_results_container name query deleted in_process stretch radius
              score s)
          × (size_of (
                shrink_range default_results_container name query deleted in_process stretch radius
                  score s)
              ≡ size_of s)
    shrink-InRange mono score s p =
        elim (Bool-cases (ltb score s.dynamic_range && leb radius score)) [
          | inl less ↦ rw less (
            record {
              floor = mono radius score (ground (arith, less));
              found = p.found;
              in_order = p.in_order;
              size = p.size;
              within = p.within;
              reached = p.reached;
              queued = p.queued;
            },
            refl,
          )
          | inr same ↦ rw same (p, refl)
        ]

    -- which changes no candidate and no tag
    pub shrink-same :
        (score : ℕ) (s : RangeScan (List QueryResult))
        → ((shrink_range default_results_container name query deleted in_process stretch radius
              score s).candidates
            ≡ s.candidates)
          × ((shrink_range default_results_container name query deleted in_process stretch radius
                score s).tags
              ≡ s.tags)
    shrink-same score s = (ground arith, ground arith)

    pub start-InRange :
        ((a b : ℕ) → a ≤ b → stretch a ≤ stretch b)
        → (max_score : ℕ) (tags : List ℕ) → length tags ≡ n
        → untagged tag tags ≡ n
        → ep < n
        → stretch radius ≤ max_score
        → IsInRange (
            range_start default_results_container name query deleted in_process stretch radius
              max_score ep
              (set tags ep tag))
    start-InRange mono max_score tags size fresh lt top =
        let tagged_at : (v : ℕ)
            → is_tagged tag (set tags ep tag) v ≡ (if ep == v then true else is_tagged tag tags v) =
          λ v. is_tagged-set tag tags ep v (omega (arith, size)) in
        let only : (v : ℕ) → is_tagged tag (set tags ep tag) v ≡ true → ep ≡ v = λ v h.
          ground (arith, h, tagged_at v, untagged-none tag tags v (omega (arith, size, fresh))) in
        record {
          floor = elim (Bool-cases (deleted ep)) [
            | inl dead ↦ rw dead top
            | inr alive ↦ elim (Bool-cases (leb (query ep) radius)) [
              | inl hit ↦ rw (alive, hit) (omega arith)
              | inr miss ↦ rw (alive, miss) (mono radius (query ep) (ground (arith, miss)))
            ]
          ];
          found = λ v h alive close low.
              let at = only v h in
              let hit : (not (deleted ep) && leb (query ep) radius) ≡ true =
                ground (arith, alive, close, ap query at, ap deleted at) in
              rw hit (inl (ap (result_of name query deleted in_process stretch radius g ep) at));
          in_order = (tt, tt);
          size = omega (arith, length-set tags ep tag, size);
          within = elim (Bool-cases (not (deleted ep) && leb (query ep) radius)) [
            | inl hit ↦
                rw hit
                  ((ground (arith, hit), (ep, refl, refl, ground (arith, hit), Reach.entry)), tt)
            | inr miss ↦ rw miss tt
          ];
          reached = λ v h.
              subst (Reach g in_process ep) {x = ep} {y = v}
                (ground
                  (arith, h, tagged_at v, untagged-none tag tags v (omega (arith, size, fresh))))
                Reach.entry;
          queued = λ v h. ground (arith, h, tagged_at v);
        }
