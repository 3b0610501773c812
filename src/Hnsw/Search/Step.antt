-- ===== src/Hnsw/Search/Step.antt =====
-- What the visit of the links of a node does to a search for ids.
use vector_similarity.Base.{
  ℕ, ◌<◌, ◌≡◌, refl, Bool, true, false, ◌||◌, List, [], ◌∷◌, some, length, set, ltb, arith,
  Bool-cases, inl, inr,
}
use vector_similarity.Query.Heap.{Heap, max_priority_queue}
use vector_similarity.Hnsw.Links.{has}
use vector_similarity.Hnsw.Visited.{get_node_tag}
use vector_similarity.Hnsw.Visited.Fresh.{is_tagged, get_elem?-is_tagged}
use vector_similarity.Hnsw.Search.{Scan, visit_link, visit_links}
use vector_similarity.Hnsw.Search.Scans.{Sound, Stepped, Stepped-none, Stepped-skip, Stepped-then}
use vector_similarity.Hnsw.Search.Visit.{insert-Stepped, reject-Stepped}

module _ (query : ℕ → ℕ) (deleted in_process : ℕ → Bool) (ef n tag : ℕ) (R : ℕ → Type 0) where
  abbrev IsSound : Scan Heap → Type 0
  IsSound = Sound query deleted in_process ef n tag R

  abbrev IsStepped : List ℕ → Scan Heap → Scan Heap → Type 0
  IsStepped = Stepped query deleted in_process ef n tag R

  visit_link-Stepped :
      (id : ℕ) (s : Scan Heap)
      → IsSound s
      → id < n
      → (in_process id ≡ false → R id)
      → (s' : Scan Heap) × (visit_link max_priority_queue
            (λ i. i)
            query
            deleted
            in_process
            ef
            tag
            id
            s
          ≡ some s')
        × IsStepped (id ∷ []) s s'
  unfolding visit_link get_node_tag
  visit_link-Stepped id s sound inside r =
      let (t, read, same) = get_elem?-is_tagged tag s.tags id (omega (arith, sound.size)) in
      elim (Bool-cases (is_tagged tag s.tags id || in_process id)) [
        | inl skip ↦ (
          s,
          rw (read, same, skip) refl,
          Stepped-skip query deleted in_process ef n tag R id s sound skip,
        )
        | inr visit ↦
            let fresh : is_tagged tag s.tags id ≡ false = ground (arith, visit) in
            let here = r (ground (arith, visit)) in
            elim (Bool-cases (ltb (query id) s.lower_bound || ltb (length s.top) ef)) [
              | inl takes ↦
                  let (s', done, step) =
                    insert-Stepped query deleted in_process ef n tag R id s sound inside fresh here
                      takes in
                  (s', rw (read, same, visit, takes) done, step)
              | inr full ↦ (
                record s { tags = set s.tags id tag },
                rw (read, same, visit, full) refl,
                reject-Stepped query deleted in_process ef n tag R id s sound inside fresh here
                    full,
              )
            ]
      ]

  pub visit_links-Stepped :
      (js : List ℕ) (s : Scan Heap)
      → IsSound s
      → ((v : ℕ) → has v js ≡ true → v < n)
      → ((v : ℕ) → has v js ≡ true → in_process v ≡ false → R v)
      → (s' : Scan Heap) × (visit_links max_priority_queue
            (λ i. i)
            query
            deleted
            in_process
            ef
            tag
            js
            s
          ≡ some s')
        × IsStepped js s s'
  visit_links-Stepped [] s sound inside r =
      (s, refl, Stepped-none query deleted in_process ef n tag R s sound)
  visit_links-Stepped (j ∷ js) s sound inside r =
      let (s', done, step) =
        visit_link-Stepped j s sound (inside j (ground arith)) (r j (ground arith)) in
      let (s'', done', steps) =
        visit_links-Stepped js s' step.sound (λ v h. inside v (ground (arith, h)))
          (λ v h. r v (ground (arith, h))) in
      (
        s'',
        rw done done',
        Stepped-then query deleted in_process ef n tag R j js s s' s'' step steps,
      )
