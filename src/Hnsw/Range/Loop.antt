-- ===== src/Hnsw/Range/Loop.antt =====
-- The loop of the range search ends, and visits the links of all nodes below the stretched radius.
use vector_similarity.Base.{
  ℕ, zero, suc, ◌≤◌, ◌<◌, ◌≡◌, refl, ap, Bool, true, false, List, [], ◌∷◌, some, length, ltb, arith,
  Bool-cases, inl, inr, ◌⊎◌, ◌∙◌, sym, subst, ◌==◌,
}
use vector_similarity.Containers.Results.{default_results_container}
use vector_similarity.Query.{QueryResult, ReplyCode, reply_ok, timed_out}
use vector_similarity.Query.Heap.{Heap}
use vector_similarity.Query.Order.{All-map, All}
use vector_similarity.Hnsw.Links.{has}
use vector_similarity.Hnsw.Counts.{count}
use vector_similarity.Hnsw.Heuristic.{ids}
use vector_similarity.Hnsw.Layer.{Layer}
use vector_similarity.Hnsw.Visited.Fresh.{is_tagged}
use vector_similarity.Hnsw.Search.Reach.{Reach}
use vector_similarity.Hnsw.Search.Candidates.{first_is_least}
use vector_similarity.Hnsw.Range.{RangeScan, visit_links_in_range, shrink_range, range_loop}
use vector_similarity.Hnsw.Range.Visit.{shrink-same, visit_links-Steps, shrink-InRange}
use vector_similarity.Hnsw.Range.State.{IsScored, Passed, InRange, measure}

abbrev first_score : ℕ → Heap → ℕ
first_score d [] = d
first_score d (c ∷ cs) = c.0

abbrev first_id : ℕ → Heap → ℕ
first_id d [] = d
first_id d (c ∷ cs) = c.1

module _ (name query : ℕ → ℕ) (deleted in_process : ℕ → Bool) (stretch : ℕ → ℕ) (radius : ℕ)
    (g : Layer) (ep : ℕ) (mono : (a b : ℕ) → a ≤ b → stretch a ≤ stretch b) where
  module _ (n tag : ℕ) where
    abbrev pub IsInRange : RangeScan (List QueryResult) → Type 0
    IsInRange = InRange name query deleted in_process stretch radius g ep n tag

    abbrev pub IsVisited : RangeScan (List QueryResult) → ℕ → Type 0
    IsVisited s v = is_tagged tag s.tags v ≡ true

    -- the links of `u` lead to visited nodes
    abbrev pub IsLinked : RangeScan (List QueryResult) → ℕ → Type 0
    IsLinked s u = (v : ℕ) → has v (g u).links ≡ true → in_process v ≡ false → IsVisited s v

    -- a visited node below the stretched radius is a candidate, or its links have been visited
    abbrev pub IsOpen : RangeScan (List QueryResult) → Type 0
    IsOpen s =
        (u : ℕ)
        → IsVisited s u
        → query u < stretch radius
        → (0 < count u (ids s.candidates)) ⊎ IsLinked s u

    abbrev pub Scored : RangeScan (List QueryResult) → Type 0
    Scored = IsScored name query deleted in_process stretch radius g ep

    -- the distances of the candidates, the first of which may stand for an unknown one
    abbrev pub IsFirst : ℕ → Heap → Type 0
    IsFirst b [] = Unit {0}
    IsFirst b (c ∷ cs) = ((c.0 ≡ query c.1) ⊎ (c.0 ≤ b)) × All (λ x. x.0 ≡ query x.1) cs

    IsFirst-of_scored : (b : ℕ) (cs : Heap) → All (λ x. x.0 ≡ query x.1) cs → IsFirst b cs
    IsFirst-of_scored b [] all = tt
    IsFirst-of_scored b (c ∷ cs) all = (inl all.0, all.1)

    -- a run from `s` to `s'`
    pub record Ran (stop : ℕ → Bool) (s s' : RangeScan (List QueryResult)) (code : ReplyCode)
        : Type 0 where
      pub in_range : IsInRange s'
      pub runs : ((j : ℕ) → stop j ≡ false) → code ≡ reply_ok
      pub grows : (v : ℕ) → IsVisited s v → IsVisited s' v
      pub closes :
          IsOpen s
          → code ≡ reply_ok
          → (u : ℕ) → IsVisited s' u
          → query u < stretch radius
          → IsLinked s' u
      pub first_linked :
          (c : ℕ × ℕ) (cs : Heap)
          → s.candidates ≡ c ∷ cs
          → ltb s.boundaries c.0 ≡ false
          → code ≡ reply_ok
          → IsLinked s' c.1

    -- no candidate below the stretched radius is left where the first is out of the boundaries
    none_waits :
        (s : RangeScan (List QueryResult)) (c : ℕ × ℕ) (cs : Heap) (u : ℕ)
        → IsInRange s
        → s.candidates ≡ c ∷ cs
        → s.boundaries < c.0
        → IsFirst s.boundaries (c ∷ cs)
        → query u < stretch radius
        → 0 < count u (ids s.candidates)
        → ⊥
    none_waits s c cs u p e far (at_first, rest) low waits =
        let first : c.0 ≡ query c.1 = elim at_first [
          | inl at ↦ at
          | inr near ↦ absurd (omega (arith, near, far))
        ] in
        let least =
          first_is_least query (λ i. false) u c cs (rw e at p.in_order)
            (λ a. first, All-map cs (λ x k a. k) rest) (rw e at waits) refl in
        omega (arith, least, low, far, p.floor)

    -- a round opens no node
    round-IsOpen :
        (s s1 s2 : RangeScan (List QueryResult)) (c : ℕ × ℕ) (cs : Heap)
        → s.candidates ≡ c ∷ cs
        → s1.candidates ≡ cs
        → s1.tags ≡ s.tags
        → Passed name query deleted in_process stretch radius g ep n tag (g c.1).links s1 s2
        → IsOpen s
        → IsOpen s2
    round-IsOpen s s1 s2 c cs e e1 same p opened u h low = elim (p.queues u h low) [
      | inr here ↦ inl here
      | inl before ↦ elim (opened u (subst (λ t. is_tagged tag t u ≡ true) same before) low) [
        | inr linked ↦
            inr
              (λ v l k. p.grows v (subst (λ t. is_tagged tag t v ≡ true) (sym same) (linked v l k)))
        | inl waits ↦ elim (Bool-cases (c.1 == u)) [
          | inl equal ↦
              let at : c.1 ≡ u = ground (arith, equal) in
              inr (λ v l k. p.visited v (ap (λ w. has v (g w).links) at ∙ l) k)
          | inr other ↦ inl (
              ground (
                arith,
                waits,
                other,
                p.keeps u,
                ap (λ q. count u (ids q)) e,
                ap (λ q. count u (ids q)) e1,
              ))
        ]
      ]
    ]

    module _ (stop : ℕ → Bool) (inside : (u v : ℕ) → has v (g u).links ≡ true → v < n) where
      -- the loop from the `i`-th candidate on
      abbrev pub Runs : ℕ → ℕ → RangeScan (List QueryResult) → Type 0
      Runs fuel i s =
          (s' : RangeScan (List QueryResult)) × (code : ReplyCode) × (range_loop
              default_results_container name query deleted in_process stretch radius g tag stop i
              fuel s
            ≡ some (s', code))
          × Ran stop s s' code

      round_of :
          (fuel i : ℕ) (s s' : RangeScan (List QueryResult)) (c : ℕ × ℕ) (cs : Heap)
          (r : RangeScan (List QueryResult) × ReplyCode)
          → s.candidates ≡ c ∷ cs
          → ltb s.boundaries c.0 ≡ false
          → stop i ≡ false
          → visit_links_in_range default_results_container name query deleted in_process stretch
              radius tag
              (g c.1).links
              (shrink_range default_results_container name query deleted in_process stretch radius
                c.0
                (record s { candidates = cs }))
            ≡ some s'
          → range_loop default_results_container name query deleted in_process stretch radius g tag
              stop
              (suc i)
              fuel
              s'
            ≡ some r
          → range_loop default_results_container name query deleted in_process stretch radius g tag
              stop i
              (suc fuel)
              s
            ≡ some r
      unfolding range_loop
      round_of fuel i s s' c cs r e more on done rest = rw (e, more, on, done) rest

      range_next :
          (fuel i : ℕ) (s : RangeScan (List QueryResult))
          → IsInRange s
          → measure name query deleted in_process stretch radius g ep n tag s ≤ fuel
          → ((s' : RangeScan (List QueryResult))
              → IsInRange s'
              → Scored s'
              → measure name query deleted in_process stretch radius g ep n tag s' < fuel
              → Runs fuel (suc i) s')
          → (c : ℕ × ℕ) (cs : Heap) → s.candidates ≡ c ∷ cs
          → All (λ x. x.0 ≡ query x.1) cs
          → ltb s.boundaries c.0 ≡ false
          → stop i ≡ false
          → Runs (suc fuel) i s
      range_next fuel i s p less next c cs e scored more on =
          let here = p.queued c.1 (ground (arith, ap (λ q. count c.1 (ids q)) e)) in
          let popped : RangeScan (List QueryResult) = record s { candidates = cs } in
          let p0 : IsInRange popped = record {
            floor = p.floor;
            found = p.found;
            in_order = (rw e at p.in_order).1;
            size = p.size;
            within = p.within;
            reached = p.reached;
            queued = λ v h. p.queued v (ground (arith, h, ap (λ q. count v (ids q)) e));
          } in
          let (p1, same) =
            shrink-InRange name query deleted in_process stretch radius g ep n tag mono c.0 popped
              p0 in
          let (same_cands, same_tags) =
            shrink-same name query deleted in_process stretch radius g ep n tag c.0 popped in
          let s1 =
            shrink_range default_results_container name query deleted in_process stretch radius c.0
              popped in
          let scored1 : Scored s1 = subst (All (λ x. x.0 ≡ query x.1)) (sym same_cands) scored in
          let (s2, done, p2, fewer, q) =
            visit_links-Steps name query deleted in_process stretch radius g ep n tag (g c.1).links
              s1 p1 (inside c.1) (λ v h k. Reach.follow c.1 v (p.reached c.1 here) h k) in
          let (s', code, rest, r) =
            next s2 p2 (q.scored scored1) (omega (arith, less, fewer, same, ap length e)) in
          (
            s',
            code,
            round_of fuel i s s2 c cs _ e more on done rest,
            record {
              in_range = r.in_range;
              runs = r.runs;
              grows = λ v h.
                  r.grows v (q.grows v (subst (λ t. is_tagged tag t v ≡ true) (sym same_tags) h));
              closes =
                  λ opened. r.closes (round-IsOpen s s1 s2 c cs e same_cands same_tags q opened);
              first_linked = λ c' cs' e' more' ok v l k.
                  let at : c.1 ≡ c'.1 = ap (first_id 0) (sym e ∙ e') in
                  r.grows v (q.visited v (ap (λ w. has v (g w).links) at ∙ l) k);
            },
          )

      range_round :
          (fuel i : ℕ) (s : RangeScan (List QueryResult))
          → IsInRange s
          → measure name query deleted in_process stretch radius g ep n tag s ≤ fuel
          → ((s' : RangeScan (List QueryResult))
              → IsInRange s'
              → Scored s'
              → measure name query deleted in_process stretch radius g ep n tag s' < fuel
              → Runs fuel (suc i) s')
          → (cands : Heap) → s.candidates ≡ cands
          → IsFirst s.boundaries cands
          → Runs (suc fuel) i s
      unfolding range_loop
      range_round fuel i s p less next [] e scored = (
        s,
        reply_ok,
        rw e refl,
        record {
          in_range = p;
          runs = λ r. refl;
          grows = λ v h. h;
          closes = λ opened ok u h low. elim (opened u h low) [
            | inl waits ↦ absurd (ground (arith, waits, ap (λ q. count u (ids q)) e))
            | inr linked ↦ linked
          ];
          first_linked = λ c cs e' more ok. absurd (omega (arith, ap length e, ap length e'));
        },
      )
      range_round fuel i s p less next (c ∷ cs) e scored =
          elim (Bool-cases (ltb s.boundaries c.0)) [
            | inl done ↦ (
              s,
              reply_ok,
              rw (e, done) refl,
              record {
                in_range = p;
                runs = λ r. refl;
                grows = λ v h. h;
                closes = λ opened ok u h low. elim (opened u h low) [
                  | inl waits ↦
                      absurd (none_waits s c cs u p e (ground (arith, done)) scored low waits)
                  | inr linked ↦ linked
                ];
                first_linked =
                    λ c' cs' e' more ok. absurd (first_within s c c' cs cs' e e' done more);
              },
            )
            | inr more ↦ elim (Bool-cases (stop i)) [
              | inl late ↦ (
                s,
                timed_out,
                rw (e, more, late) refl,
                record {
                  in_range = p;
                  runs = λ r. absurd (ground (arith, late, r i));
                  grows = λ v h. h;
                  closes = λ opened ok. cc;
                  first_linked = λ c' cs' e' more' ok. cc;
                },
              )
              | inr on ↦ range_next fuel i s p less next c cs e scored.1 more on
            ]
          ]
        where
          first_within :
              (s : RangeScan (List QueryResult)) (c c' : ℕ × ℕ) (cs cs' : Heap)
              → s.candidates ≡ c ∷ cs
              → s.candidates ≡ c' ∷ cs'
              → ltb s.boundaries c.0 ≡ true
              → ltb s.boundaries c'.0 ≡ false
              → ⊥
          first_within s c c' cs cs' e e' done more =
              let same : c.0 ≡ c'.0 = ap (first_score 0) (sym e ∙ e') in
              ground (arith, same, done, more)

      pub range_loop-Runs :
          (fuel i : ℕ) (s : RangeScan (List QueryResult))
          → IsInRange s
          → IsFirst s.boundaries s.candidates
          → measure name query deleted in_process stretch radius g ep n tag s < fuel
          → Runs fuel i s
      range_loop-Runs zero i s p scored less = absurd (omega arith)
      range_loop-Runs (suc fuel) i s p scored less =
          range_round fuel i s p (omega (arith, less))
            (λ s' p' scored'.
              range_loop-Runs fuel (suc i) s' p'
                (IsFirst-of_scored s'.boundaries s'.candidates scored'))
            s.candidates refl scored
