-- ===== src/Hnsw/Repair/Add.antt =====
-- What the loop over the chosen neighbors that are not linked yet does.
use vector_similarity.Base.{
  ℕ, ◌≤◌, ◌<◌, ◌≡◌, ◌≢◌, ◌⊎◌, Bool, false, List, [], ◌∷◌, ◌++◌, arith, length, ◌==◌, ◌||◌,
  Bool-cases, inl, inr, length-append,
}
use vector_similarity.Hnsw.Counts.{count, count-append}
use vector_similarity.Hnsw.Layer.{Layer, track_new_link}
use vector_similarity.Hnsw.Tracked.{Edges, with_edge, track_new_link-Tracks}
use vector_similarity.Hnsw.Connect.Revisit.{Settles}
use vector_similarity.Hnsw.Repair.{add_links}

links_of-track_new_link :
    (a b : ℕ) (g : Layer) (u : ℕ) → (track_new_link a b g u).links ≡ (g u).links
unfolding track_new_link
links_of-track_new_link a b g u = ground arith

track_new_link-Settles :
    (max_m a c : ℕ) (kept : List ℕ) (e : Edges) (g : Layer)
    → Settles max_m a kept e g
    → a ≢ c
    → count c kept ≡ 0
    → length kept < max_m
    → Settles max_m a (kept ++ c ∷ []) (with_edge a c 1 e) (track_new_link a c g)
track_new_link-Settles max_m a c kept e g s ne absent fits = record {
  simple = λ u v. ground (arith, s.simple u v);
  loopless = λ u. ground (arith, s.loopless u);
  here = λ v. ground (arith, s.here v, count-append v kept (c ∷ []), absent);
  elsewhere = λ u v h. ground (arith, s.elsewhere u v h, links_of-track_new_link a c g u);
  bounded = λ u h. ground (arith, s.bounded u h, links_of-track_new_link a c g u);
  room = omega (arith, length-append kept (c ∷ []));
  tracked = track_new_link-Tracks a c e g ne (omega (arith, s.here c)) (s.simple c a) s.tracked;
}

module _ (deleted in_process : ℕ → Bool) (max_m : ℕ) where
  -- links that are new are to chosen nodes that are not marked as deleted
  pub record Added (a : ℕ) (kept chosen : List ℕ) (r : List ℕ × Layer) : Type 0 where
    pub now : Edges
    pub settled : Settles max_m a r.0 now r.1
    pub live : (v : ℕ) → 0 < count v r.0 → (0 < count v kept) ⊎ (deleted v ≡ false)

  Added-weaken :
      (a : ℕ) (kept more chosen few : List ℕ) (r : List ℕ × Layer)
      → ((v : ℕ) → 0 < count v more → (0 < count v kept) ⊎ (deleted v ≡ false))
      → Added a more few r
      → Added a kept chosen r
  Added-weaken a kept more chosen few r h p = record {
    now = p.now;
    settled = p.settled;
    live = λ v l. elim (p.live v l) [ inl i ↦ h v i | inr d ↦ inr d ];
  }

  pub add_links-Added :
      (a : ℕ) (chosen kept : List ℕ) (e : Edges) (g : Layer)
      → Settles max_m a kept e g
      → ((v : ℕ) → count v chosen ≤ 1)
      → count a chosen ≡ 0
      → ((v : ℕ) → 0 < count v chosen → count v kept ≡ 0)
      → Added a kept chosen (add_links deleted in_process max_m a chosen kept g)
  unfolding add_links
  add_links-Added a [] kept e g s once self absent = record {
    now = e;
    settled = s;
    live = λ v. inl;
  }
  add_links-Added a (c ∷ chosen) kept e g s once self absent =
      let once' : (v : ℕ) → count v chosen ≤ 1 = λ v. omega (arith, once v) in
      let stop : Added a kept (c ∷ chosen) (kept, g) = record {
        now = e;
        settled = s;
        live = λ v. inl;
      } in
      elim (Bool-cases (length kept == max_m)) [
        | inl full ↦ rw full stop
        | inr space ↦ elim (Bool-cases (deleted a || in_process a)) [
          | inl busy ↦ rw (space, busy) stop
          | inr ready ↦ elim (Bool-cases (deleted c || in_process c)) [
            | inl gone ↦
                rw (space, ready, gone)
                  (Added-weaken a kept kept (c ∷ chosen) chosen _ (λ v. inl)
                    (add_links-Added a chosen kept e g s once' (omega (arith, self))
                      (λ v h. absent v (omega arith))))
            | inr alive ↦
                let differ : a ≢ c = λ q. ground (arith, self) in
                let s' =
                  track_new_link-Settles max_m a c kept e g s differ (absent c (ground arith))
                    (ground (arith, s.room)) in
                rw (space, ready, alive)
                  (Added-weaken a kept (kept ++ c ∷ []) (c ∷ chosen) chosen _
                    (λ v h. ground (arith, count-append v kept (c ∷ []), alive))
                    (add_links-Added a chosen (kept ++ c ∷ []) _ _ s' once' (omega (arith, self))
                      (λ v h. ground (arith, absent v, count-append v kept (c ∷ []), once v))))
          ]
        ]
      ]
