-- ===== src/Hnsw/Search/Whole.antt =====
-- searchLayer returns, and what it returns.
use vector_similarity.Base.{
  ℕ, zero, suc, ◌+◌, ◌≤◌, ◌<◌, ◌≡◌, refl, ap, Bool, true, false, ◌&&◌, [], ◌∷◌, some, length, ltb,
  leb, arith, Bool-cases, inl, inr,
}
use vector_similarity.Query.{ReplyCode, reply_ok, timed_out}
use vector_similarity.Query.Heap.{Heap, max_priority_queue}
use vector_similarity.Hnsw.Links.{has}
use vector_similarity.Hnsw.Counts.{count}
use vector_similarity.Hnsw.Heuristic.{ids}
use vector_similarity.Hnsw.Layer.{Layer}
use vector_similarity.Hnsw.Visited.Fresh.{is_tagged, untagged}
use vector_similarity.Hnsw.Search.{Scan, visit_links, search_loop}
use vector_similarity.Hnsw.Search.Reach.{Reach}
use vector_similarity.Hnsw.Search.Step.{visit_links-Stepped}
use vector_similarity.Hnsw.Search.Expand.{
  IsSound, HasAll, IsLinked, IsClosed, IsExpanded, step-IsClosed, step-IsExpanded, no_result_waits,
}

module _ (query : ℕ → ℕ) (deleted in_process : ℕ → Bool) (ef n tag ep : ℕ) (g : Layer) where
  pub record Searched (stop : ℕ → Bool) (s s' : Scan Heap) (code : ReplyCode) : Type 0 where
    pub sound : IsSound query deleted in_process ef n tag ep g s'
    pub grows : (v : ℕ) → is_tagged tag s.tags v ≡ true → is_tagged tag s'.tags v ≡ true
    pub runs : ((i : ℕ) → stop i ≡ false) → code ≡ reply_ok
    pub expanded :
        IsExpanded query deleted in_process ef n tag ep g s
        → code ≡ reply_ok
        → (u : ℕ) → 0 < count u (ids s'.top)
        → IsLinked query deleted in_process ef n tag ep g u s'
    pub exhausts :
        n < ef
        → HasAll query deleted in_process ef n tag ep g s
        → IsClosed query deleted in_process ef n tag ep g s
        → code ≡ reply_ok
        → HasAll query deleted in_process ef n tag ep g s'
          × ((u : ℕ)
              → is_tagged tag s'.tags u ≡ true
              → IsLinked query deleted in_process ef n tag ep g u s')

  module _ (stop : ℕ → Bool) (inside : (u v : ℕ) → has v (g u).links ≡ true → v < n) where
    -- the loop from the `i`-th candidate on
    abbrev pub Runs : ℕ → ℕ → Scan Heap → Type 0
    Runs fuel i s =
        (s' : Scan Heap) × (code : ReplyCode) × (search_loop max_priority_queue (λ j. j) query
            deleted in_process ef g tag stop i fuel s
          ≡ some (s', code))
        × Searched stop s s' code

    -- a round that visits the links of the first candidate
    round_of :
        (fuel i : ℕ) (s s' : Scan Heap) (c : ℕ × ℕ) (cs : Heap) (r : Scan Heap × ReplyCode)
        → s.candidates ≡ c ∷ cs
        → (ltb s.lower_bound c.0 && leb ef (length s.top)) ≡ false
        → stop i ≡ false
        → visit_links max_priority_queue
            (λ j. j)
            query
            deleted
            in_process
            ef
            tag
            (g c.1).links
            (record s { candidates = cs })
          ≡ some s'
        → search_loop max_priority_queue
            (λ j. j)
            query
            deleted
            in_process
            ef
            g
            tag
            stop
            (suc i)
            fuel
            s'
          ≡ some r
        → search_loop max_priority_queue
            (λ j. j)
            query
            deleted
            in_process
            ef
            g
            tag
            stop
            i
            (suc fuel)
            s
          ≡ some r
    unfolding search_loop
    round_of fuel i s s' c cs r e more on done rest = rw (e, more, on, done) rest

    search_round :
        (fuel i : ℕ) (s : Scan Heap)
        → IsSound query deleted in_process ef n tag ep g s
        → length s.candidates + untagged tag s.tags ≤ fuel
        → ((s' : Scan Heap)
            → IsSound query deleted in_process ef n tag ep g s'
            → length s'.candidates + untagged tag s'.tags < fuel
            → Runs fuel (suc i) s')
        → (cands : Heap) → s.candidates ≡ cands
        → Runs (suc fuel) i s
    unfolding search_loop
    search_round fuel i s sound less next [] e = (
      s,
      reply_ok,
      rw e refl,
      record {
        sound = sound;
        grows = λ v h. h;
        runs = λ r. refl;
        expanded = λ exp ok u h. elim (exp u h) [
          | inl waits ↦ absurd (ground (arith, waits, ap (λ q. count u (ids q)) e))
          | inr linked ↦ linked
        ];
        exhausts = λ big all closed ok. (
          all,
          λ u h. elim (closed u h) [
            | inl waits ↦ absurd (ground (arith, waits, ap (λ q. count u (ids q)) e))
            | inr linked ↦ linked
          ],
        );
      },
    )
    search_round fuel i s sound less next (c ∷ cs) e =
        elim (Bool-cases (ltb s.lower_bound c.0 && leb ef (length s.top))) [
          | inl done ↦ (
            s,
            reply_ok,
            rw (e, done) refl,
            record {
              sound = sound;
              grows = λ v h. h;
              runs = λ r. refl;
              expanded = λ exp ok u h. elim (exp u h) [
                | inl waits ↦ absurd (
                    no_result_waits query deleted in_process ef n tag ep g c cs s u sound e
                      (ground (arith, done)) h waits)
                | inr linked ↦ linked
              ];
              exhausts = λ big. absurd (ground (arith, done, sound.room));
            },
          )
          | inr more ↦ elim (Bool-cases (stop i)) [
            | inl late ↦ (
              s,
              timed_out,
              rw (e, more, late) refl,
              record {
                sound = sound;
                grows = λ v h. h;
                runs = λ r. absurd (ground (arith, late, r i));
                expanded = λ exp ok. cc;
                exhausts = λ big all closed ok. cc;
              },
            )
            | inr on ↦
                let here = sound.queued c.1 (ground (arith, ap (λ q. count c.1 (ids q)) e)) in
                let popped = record s { candidates = cs } in
                let sound' : IsSound query deleted in_process ef n tag ep g popped = record {
                  size = sound.size;
                  below = sound.below;
                  answered = sound.answered;
                  scored = sound.scored;
                  descending = sound.descending;
                  bounded = sound.bounded;
                  room = sound.room;
                  reached = sound.reached;
                  some_wanted = sound.some_wanted;
                  lower = sound.lower;
                  settled = sound.settled;
                  in_order = (rw e at sound.in_order).1;
                  cand_scored = (rw e at sound.cand_scored).1;
                  queued = λ v h. sound.queued v (ground (arith, h, ap (λ q. count v (ids q)) e));
                } in
                let (s', done, p) =
                  visit_links-Stepped query deleted in_process ef n tag (Reach g in_process ep)
                    (g c.1).links popped sound' (inside c.1)
                    (λ v h k. Reach.follow c.1 v (sound.reached c.1 here) h k) in
                let (s'', code, rest, q) =
                  next s' p.sound (omega (arith, p.shrinks, ap length e)) in
                (
                  s'',
                  code,
                  round_of fuel i s s' c cs _ e more on done rest,
                  record {
                    sound = q.sound;
                    grows = λ v h. q.grows v (p.grows v h);
                    runs = q.runs;
                    expanded = λ exp.
                        q.expanded (
                          step-IsExpanded query deleted in_process ef n tag ep g c cs s s' e exp p);
                    exhausts = λ big all closed ok.
                        q.exhausts big (p.complete big all)
                          (step-IsClosed query deleted in_process ef n tag ep g c cs s s' big e
                            closed p)
                          ok;
                  },
                )
          ]
        ]

    pub search_loop-Searched :
        (fuel i : ℕ) (s : Scan Heap)
        → IsSound query deleted in_process ef n tag ep g s
        → length s.candidates + untagged tag s.tags < fuel
        → Runs fuel i s
    search_loop-Searched zero i s sound less = absurd (omega arith)
    search_loop-Searched (suc fuel) i s sound less =
        search_round fuel i s sound (omega arith) (search_loop-Searched fuel (suc i)) s.candidates
          refl
