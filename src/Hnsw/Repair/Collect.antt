-- ===== src/Hnsw/Repair/Collect.antt =====
-- The candidates for the neighbors of a repaired node.
use vector_similarity.Base.{
  ℕ, ◌≤◌, ◌<◌, ◌≡◌, ◌≢◌, ap, ◌∙◌, Bool, false, List, [], ◌∷◌, ◌++◌, arith, ◌==◌, ◌||◌, not,
  if◌then◌else◌, Bool-cases, inl, inr,
}
use vector_similarity.Hnsw.Links.{has}
use vector_similarity.Hnsw.Counts.{count, count-append, not_has-count}
use vector_similarity.Hnsw.Layer.{Layer}
use vector_similarity.Hnsw.Repair.{filter, collect_links, collect, repair_candidates}

pub count-filter :
    (p : ℕ → Bool) (v : ℕ) (xs : List ℕ) → count v (filter p xs) ≡ (if p v then count v xs else 0)
count-filter p v [] = ground arith
count-filter p v (x ∷ xs) = elim (Bool-cases (x == v)) [
  | inl same ↦
      let e : x ≡ v = ground (arith, same) in ground (arith, count-filter p v xs, same, ap p e)
  | inr other ↦ ground (arith, count-filter p v xs, other)
]

-- distinct nodes that are neither `a` nor marked as deleted
pub record Eligible (deleted : ℕ → Bool) (a : ℕ) (found : List ℕ) : Type 0 where
  pub distinct : (v : ℕ) → count v found ≤ 1
  pub other : count a found ≡ 0
  pub live : (v : ℕ) → 0 < count v found → deleted v ≡ false

module _ (deleted : ℕ → Bool) (a : ℕ) where
  Eligible-add :
      (j : ℕ) (found : List ℕ)
      → deleted j ≡ false
      → has j found ≡ false
      → j ≢ a
      → Eligible deleted a found
      → Eligible deleted a (found ++ j ∷ [])
  Eligible-add j found alive fresh ne h = record {
    distinct = λ v.
        ground (arith, h.distinct v, count-append v found (j ∷ []), not_has-count j found fresh);
    other = ground (arith, h.other, count-append a found (j ∷ []));
    live = λ v l. elim (Bool-cases (j == v)) [
      | inl same ↦ ap deleted (ground (arith, same)) ∙ alive
      | inr unlike ↦ h.live v (ground (arith, l, unlike, count-append v found (j ∷ [])))
    ];
  }

  collect_links-Eligible :
      (js found : List ℕ)
      → Eligible deleted a found
      → Eligible deleted a (collect_links deleted a js found)
  collect_links-Eligible [] found h = h
  collect_links-Eligible (j ∷ js) found h = elim (Bool-cases (deleted j || has j found || j == a)) [
    | inl skip ↦ rw skip (collect_links-Eligible js found h)
    | inr more ↦ rw more (
        collect_links-Eligible js (found ++ j ∷ []) (
          Eligible-add j found (ground (arith, more)) (ground (arith, more))
            (λ q. ground (arith, more, q)) h))
  ]

  collect-Eligible :
      (ds : List ℕ) (g : Layer) (found : List ℕ)
      → Eligible deleted a found
      → Eligible deleted a (collect deleted a ds g found)
  collect-Eligible [] g found h = h
  collect-Eligible (d ∷ ds) g found h =
      collect-Eligible ds g _ (collect_links-Eligible (g d).links found h)

  pub repair_candidates-Eligible :
      (g : Layer)
      → ((v : ℕ) → count v (g a).links ≤ 1)
      → count a (g a).links ≡ 0
      → Eligible deleted a (repair_candidates deleted a g)
  unfolding repair_candidates
  repair_candidates-Eligible g simple loopless =
      let kept = λ (v : ℕ). count-filter (λ j. not (deleted j)) v (g a).links in
      collect-Eligible (filter deleted (g a).links) g _ (record {
        distinct = λ v. ground (arith, kept v, simple v);
        other = ground (arith, kept a);
        live = λ v l. ground (arith, kept v);
      })
