-- ===== src/Hnsw/Search/Expand.antt =====
-- Which links of the nodes of a search have been visited, before and after a round of its loop.
use vector_similarity.Base.{
  ℕ, ◌<◌, ◌≡◌, ◌⊎◌, ap, ◌∙◌, Bool, true, false, ◌∷◌, ◌==◌, arith, Bool-cases, inl, inr,
}
use vector_similarity.Query.Heap.{Heap}
use vector_similarity.Hnsw.Links.{has}
use vector_similarity.Hnsw.Counts.{count}
use vector_similarity.Hnsw.Heuristic.{ids}
use vector_similarity.Hnsw.Layer.{Layer}
use vector_similarity.Hnsw.Visited.Fresh.{is_tagged}
use vector_similarity.Hnsw.Search.{Scan}
use vector_similarity.Hnsw.Search.Reach.{Reach}
use vector_similarity.Hnsw.Search.Candidates.{first_is_least, score_under, under_lower}
use vector_similarity.Hnsw.Search.Scans.{Sound, IsComplete, Stepped}

module _ (query : ℕ → ℕ) (deleted in_process : ℕ → Bool) (ef n tag ep : ℕ) (g : Layer) where
  abbrev pub IsSound : Scan Heap → Type 0
  IsSound = Sound query deleted in_process ef n tag (Reach g in_process ep)

  abbrev pub HasAll : Scan Heap → Type 0
  HasAll = IsComplete query deleted in_process ef n tag (Reach g in_process ep)

  -- the links of `u` lead to visited nodes
  abbrev pub IsLinked : ℕ → Scan Heap → Type 0
  IsLinked u s =
      (v : ℕ) → has v (g u).links ≡ true → in_process v ≡ false → is_tagged tag s.tags v ≡ true

  -- so do the links of a visited node that is no candidate
  abbrev pub IsClosed : Scan Heap → Type 0
  IsClosed s =
      (u : ℕ) → is_tagged tag s.tags u ≡ true → (0 < count u (ids s.candidates)) ⊎ IsLinked u s

  -- so do the links of a result that is no candidate
  abbrev pub IsExpanded : Scan Heap → Type 0
  IsExpanded s = (u : ℕ) → 0 < count u (ids s.top) → (0 < count u (ids s.candidates)) ⊎ IsLinked u s

  -- a node that waits or is done before a round does so after it
  after_visit :
      (c : ℕ × ℕ) (cs : Heap) (s s' : Scan Heap)
      → s.candidates ≡ c ∷ cs
      → Stepped query deleted in_process ef n tag
          (Reach g in_process ep)
          (g c.1).links
          (record s { candidates = cs })
          s'
      → (u : ℕ) → (0 < count u (ids s.candidates)) ⊎ IsLinked u s
      → (0 < count u (ids s'.candidates)) ⊎ IsLinked u s'
  after_visit c cs s s' e p u before = elim before [
    | inr linked ↦ inr (λ v l i. p.grows v (linked v l i))
    | inl waits ↦ elim (Bool-cases (c.1 == u)) [
      | inl same ↦
          let at : c.1 ≡ u = ground (arith, same) in
          inr (λ v l i. p.visited v (ap (λ w. has v (g w).links) at ∙ l) i)
      | inr other ↦ inl (ground (arith, p.keeps u, waits, ap (λ q. count u (ids q)) e, other))
    ]
  ]

  pub step-IsClosed :
      (c : ℕ × ℕ) (cs : Heap) (s s' : Scan Heap)
      → n < ef
      → s.candidates ≡ c ∷ cs
      → IsClosed s
      → Stepped query deleted in_process ef n tag
          (Reach g in_process ep)
          (g c.1).links
          (record s { candidates = cs })
          s'
      → IsClosed s'
  step-IsClosed c cs s s' big e closed p u h = elim (p.queues big u h) [
    | inr here ↦ inl here
    | inl before ↦ after_visit c cs s s' e p u (closed u before)
  ]

  pub step-IsExpanded :
      (c : ℕ × ℕ) (cs : Heap) (s s' : Scan Heap)
      → s.candidates ≡ c ∷ cs
      → IsExpanded s
      → Stepped query deleted in_process ef n tag
          (Reach g in_process ep)
          (g c.1).links
          (record s { candidates = cs })
          s'
      → IsExpanded s'
  step-IsExpanded c cs s s' e expanded p u h = elim (p.expands u h) [
    | inr here ↦ inl here
    | inl before ↦ after_visit c cs s s' e p u (expanded u before)
  ]

  -- a result that waits when all candidates are farther than the results
  pub no_result_waits :
      (c : ℕ × ℕ) (cs : Heap) (s : Scan Heap) (u : ℕ)
      → IsSound s
      → s.candidates ≡ c ∷ cs
      → s.lower_bound < c.0
      → 0 < count u (ids s.top)
      → 0 < count u (ids s.candidates)
      → ⊥
  no_result_waits c cs s u sound e far h waits =
      let alive : deleted u ≡ false = ground (arith, sound.answered u, h) in
      let under =
        score_under query u s.lower_bound s.top sound.scored
          (under_lower s.lower_bound s.top sound.lower sound.descending) h in
      let least =
        first_is_least query deleted u c cs (rw e at sound.in_order) (rw e at sound.cand_scored)
          (rw e at waits) alive in
      omega (arith, far, under, least)
