-- ===== src/Hnsw/Search/Scans.antt =====
-- The states of a search for ids, and what a visit of links does to one.
use vector_similarity.Base.{
  ℕ, ◌+◌, ◌≤◌, ◌<◌, ◌≡◌, ◌⊎◌, sym, ap, ◌∙◌, Bool, true, false, not, ◌&&◌, ◌||◌, List, [], ◌∷◌,
  length, if◌then◌else◌, arith, Bool-cases, inl, inr,
}
use vector_similarity.Query.Order.{All, IsDescending}
use vector_similarity.Query.Heap.{Heap}
use vector_similarity.Hnsw.Links.{has}
use vector_similarity.Hnsw.Counts.{count}
use vector_similarity.Hnsw.Heuristic.{ids}
use vector_similarity.Hnsw.Visited.Fresh.{is_tagged, untagged, AtMostTags}
use vector_similarity.Hnsw.Search.{Scan}
use vector_similarity.Hnsw.Search.Candidates.{Settled, LowerIs, InOrder}

module _ (query : ℕ → ℕ) (deleted in_process : ℕ → Bool) (ef n tag : ℕ) (R : ℕ → Type 0) where
  -- the queue has visited nodes that are not marked as deleted, once, with their scores, and the
  -- visited nodes satisfy `R`
  pub record Sound (s : Scan Heap) : Type 0 where
    pub size : length s.tags ≡ n
    pub below : AtMostTags tag s.tags
    pub answered :
        (v : ℕ) → count v (ids s.top) ≤ (if is_tagged tag s.tags v && not (deleted v) then 1 else 0)
    pub scored : All (λ c. c.0 ≡ query c.1) s.top
    pub descending : IsDescending s.top
    pub bounded : length s.top ≤ ef
    pub room : length s.top + untagged tag s.tags ≤ n
    pub reached : (v : ℕ) → is_tagged tag s.tags v ≡ true → R v
    pub some_wanted : 0 < ef
    pub lower : LowerIs s.lower_bound s.top
    pub settled :
        (v : ℕ) → is_tagged tag s.tags v ≡ true → deleted v ≡ false → Settled ef v (query v) s.top
    pub in_order : InOrder s.candidates
    pub cand_scored : All (λ c. deleted c.1 ≡ false → c.0 ≡ query c.1) s.candidates
    pub queued : (v : ℕ) → 0 < count v (ids s.candidates) → is_tagged tag s.tags v ≡ true

  -- the queue has every visited node that is not marked as deleted
  abbrev pub IsComplete : Scan Heap → Type 0
  IsComplete s =
      (v : ℕ) → is_tagged tag s.tags v ≡ true → deleted v ≡ false → 0 < count v (ids s.top)

  pub record Stepped (js : List ℕ) (s s' : Scan Heap) : Type 0 where
    pub sound : Sound s'
    pub grows : (v : ℕ) → is_tagged tag s.tags v ≡ true → is_tagged tag s'.tags v ≡ true
    pub visited : (v : ℕ) → has v js ≡ true → in_process v ≡ false → is_tagged tag s'.tags v ≡ true
    pub shrinks :
        length s'.candidates + untagged tag s'.tags ≤ length s.candidates + untagged tag s.tags
    pub keeps : (v : ℕ) → count v (ids s.candidates) ≤ count v (ids s'.candidates)
    pub expands :
        (v : ℕ)
        → 0 < count v (ids s'.top)
        → (0 < count v (ids s.top)) ⊎ (0 < count v (ids s'.candidates))
    pub complete : n < ef → IsComplete s → IsComplete s'
    pub queues :
        n < ef
        → (v : ℕ) → is_tagged tag s'.tags v ≡ true
        → (is_tagged tag s.tags v ≡ true) ⊎ (0 < count v (ids s'.candidates))

  pub Stepped-none : (s : Scan Heap) → Sound s → Stepped [] s s
  Stepped-none s sound = record {
    sound = sound;
    grows = λ v h. h;
    visited = λ v h p. cc;
    shrinks = omega arith;
    keeps = λ v. omega arith;
    expands = λ v h. inl h;
    complete = λ big c. c;
    queues = λ big v h. inl h;
  }

  pub Stepped-skip :
      (id : ℕ) (s : Scan Heap)
      → Sound s
      → (is_tagged tag s.tags id || in_process id) ≡ true
      → Stepped (id ∷ []) s s
  Stepped-skip id s sound skip = record {
    sound = sound;
    grows = λ v h. h;
    visited = λ v h p.
        let same : id ≡ v = ground (arith, h) in
        ap (is_tagged tag s.tags) (sym same) ∙ ground (arith, skip, ap in_process same, p);
    shrinks = omega arith;
    keeps = λ v. omega arith;
    expands = λ v h. inl h;
    complete = λ big c. c;
    queues = λ big v h. inl h;
  }

  pub Stepped-then :
      (j : ℕ) (js : List ℕ) (s s' s'' : Scan Heap)
      → Stepped (j ∷ []) s s'
      → Stepped js s' s''
      → Stepped (j ∷ js) s s''
  Stepped-then j js s s' s'' p q = record {
    sound = q.sound;
    grows = λ v h. q.grows v (p.grows v h);
    visited = λ v h k. elim (Bool-cases (has v js)) [
      | inl later ↦ q.visited v later k
      | inr now ↦ q.grows v (p.visited v (ground (arith, h, now)) k)
    ];
    shrinks = omega (arith, p.shrinks, q.shrinks);
    keeps = λ v. omega (arith, p.keeps v, q.keeps v);
    expands = λ v h. elim (q.expands v h) [
      | inr here ↦ inr here
      | inl before ↦ elim (p.expands v before) [
        | inl earlier ↦ inl earlier
        | inr here ↦ inr (omega (arith, q.keeps v))
      ]
    ];
    complete = λ big c. q.complete big (p.complete big c);
    queues = λ big v h. elim (q.queues big v h) [
      | inl before ↦ elim (p.queues big v before) [
        | inl earlier ↦ inl earlier
        | inr here ↦ inr (omega (arith, q.keeps v))
      ]
      | inr here ↦ inr here
    ];
  }
