-- ===== src/Hnsw/Search/Descent.antt =====
-- greedySearchLevel ends at a node that none of its links improves on.
use vector_similarity.Base.{
  ℕ, zero, suc, ◌≤◌, ◌<◌, ◌≡◌, ◌⊎◌, refl, ap, ◌∙◌, sym, Bool, true, false, not, ◌&&◌, List, [], ◌∷◌,
  some, ltb, ◌==◌, if◌then◌else◌, arith, Bool-cases, inl, inr, ltb→lt,
}
use vector_similarity.Hnsw.Links.{has}
use vector_similarity.Hnsw.Layer.{Layer}
use vector_similarity.Hnsw.Search.{Greedy, greedy_links, greedy_loop, greedy_search_level}

module _ (query : ℕ → ℕ) (deleted in_process : ℕ → Bool) where
  -- the loop over the links ends with one of them that is closer, or with none of them closer
  pub record Scanned (cs : List ℕ) (s s' : Greedy) : Type 0 where
    pub measured : query s.best ≡ s.cur_dist → query s'.best ≡ s'.cur_dist
    pub stays : s.changed ≡ true → s'.changed ≡ true
    pub closer : s'.changed ≡ true → (s.changed ≡ true) ⊎ (s'.cur_dist < s.cur_dist)
    pub lower : s'.cur_dist ≤ s.cur_dist
    pub still : s'.changed ≡ false → (s'.best ≡ s.best) × (s'.cur_dist ≡ s.cur_dist)
    pub least :
        s'.changed ≡ false → (c : ℕ) → has c cs ≡ true → in_process c ≡ false → s.cur_dist ≤ query c
    pub alive : (s'.best_alive ≡ s.best_alive) ⊎ (deleted s'.best_alive ≡ false)

  alive_of :
      (running : Bool) (x before after : ℕ)
      → after ≡ (if not running && not (deleted x) then x else before)
      → (after ≡ before) ⊎ (deleted after ≡ false)
  alive_of running x before after e = elim (Bool-cases (not running && not (deleted x))) [
    | inl living ↦ inr (ap deleted (rw living at e) ∙ ground (arith, living))
    | inr other ↦ inl (rw other at e)
  ]

  pub greedy_links-Scanned :
      (running : Bool) (cs : List ℕ) (s : Greedy)
      → Scanned cs s (greedy_links query deleted in_process running cs s)
  greedy_links-Scanned running [] s = record {
    measured = λ m. m;
    stays = λ h. h;
    closer = λ h. inl h;
    lower = omega arith;
    still = λ h. (refl, refl);
    least = λ h c k. cc;
    alive = inl refl;
  }
  greedy_links-Scanned running (x ∷ cs) s =
      let ih = greedy_links-Scanned running cs s in
      let pass : (least : (c : ℕ) → x ≡ c → in_process c ≡ false → s.cur_dist ≤ query c)
          → Scanned (x ∷ cs) s (greedy_links query deleted in_process running cs s) =
        λ least. record {
          measured = ih.measured;
          stays = ih.stays;
          closer = ih.closer;
          lower = ih.lower;
          still = ih.still;
          least = λ h c k i. elim (Bool-cases (x == c)) [
            | inl same ↦ least c (ground (arith, same)) i
            | inr other ↦ ih.least h c (ground (arith, k, other)) i
          ];
          alive = ih.alive;
        } in
      elim (Bool-cases (in_process x)) [
        | inl busy ↦ rw busy (pass (λ c e i. absurd (ground (arith, ap in_process e, busy, i))))
        | inr free ↦ elim (Bool-cases (ltb (query x) s.cur_dist)) [
          | inl near ↦
              let alive = if not running && not (deleted x) then x else s.best_alive in
              let ih' =
                greedy_links-Scanned running cs
                  (record { best = x; cur_dist = query x; best_alive = alive; changed = true }) in
              let lt = ltb→lt (query x) s.cur_dist near in
              rw (free, near)
                (record {
                  measured = λ m. ih'.measured refl;
                  stays = λ h. ih'.stays refl;
                  closer = λ h. inr (omega (arith, ih'.lower, lt));
                  lower = omega (arith, ih'.lower, lt);
                  still = λ h. absurd (ground (arith, ih'.stays refl, h));
                  least = λ h. absurd (ground (arith, ih'.stays refl, h));
                  alive = elim (ih'.alive) [
                    | inr d ↦ inr d
                    | inl e ↦ alive_of running x s.best_alive _ e
                  ];
                })
          | inr far ↦ rw (free, far) (pass (λ c e i. ground (arith, far, ap query e)))
        ]
      ]

  -- what the rounds lead to: no link of the candidate is closer than the candidate is
  pub record Descended (g : Layer) (s s' : Greedy) : Type 0 where
    pub measured : query s'.best ≡ s'.cur_dist
    pub lower : s'.cur_dist ≤ s.cur_dist
    pub least :
        (c : ℕ) → has c (g s'.best).links ≡ true → in_process c ≡ false → s'.cur_dist ≤ query c
    pub alive : (s'.best_alive ≡ s.best_alive) ⊎ (deleted s'.best_alive ≡ false)

  module _ (g : Layer) (running : Bool) (stop : ℕ → Bool)
      (goes : (i : ℕ) → (running && stop i) ≡ false) where
    greedy_loop-Descended :
        (fuel i : ℕ) (s : Greedy)
        → query s.best ≡ s.cur_dist
        → s.cur_dist < fuel
        → (s' : Greedy) × (greedy_loop query deleted in_process g running stop i fuel s
            ≡ some (some s'))
          × Descended g s s'
    unfolding greedy_loop
    greedy_loop-Descended zero i s m less = absurd (omega arith)
    greedy_loop-Descended (suc fuel) i s m less =
        let s0 = record s { changed = false } in
        let r = greedy_links query deleted in_process running (g s.best).links s0 in
        let p = greedy_links-Scanned running (g s.best).links s0 in
        elim (Bool-cases r.changed) [
          | inl more ↦
              let nearer : r.cur_dist < s.cur_dist = elim (p.closer more) [
                | inl never ↦ cc
                | inr lt ↦ lt
              ] in
              let (s', done, d) =
                greedy_loop-Descended fuel (suc i) r (p.measured m) (omega (arith, nearer, less)) in
              (
                s',
                rw (goes i, more) done,
                record {
                  measured = d.measured;
                  lower = omega (arith, d.lower, nearer);
                  least = d.least;
                  alive = elim d.alive [
                    | inr living ↦ inr living
                    | inl e ↦ elim p.alive [
                      | inl e' ↦ inl (e ∙ e')
                      | inr living ↦ inr (ap deleted e ∙ living)
                    ]
                  ];
                },
              )
          | inr last ↦
              let (same, dist) = p.still last in
              (
                r,
                rw (goes i, last) refl,
                record {
                  measured = p.measured m;
                  lower = p.lower;
                  least = λ c h k.
                      omega (
                        arith,
                        dist,
                        p.least last c (ap (λ b. has c (g b).links) (sym same) ∙ h) k,
                      );
                  alive = p.alive;
                },
              )
        ]

  -- From a candidate with its distance, and without a timeout, the descent of a level ends. It ends
  -- with a distance that is not larger; for a query it is that of the candidate returned, whose links to nodes that are
  -- not in process are not closer; else the candidate returned is the first one, or is not marked as
  -- deleted.
  pub greedy_search_level-Descended :
      (g : Layer) (running : Bool) (stop : ℕ → Bool) (best cur_dist : ℕ)
      → ((i : ℕ) → (running && stop i) ≡ false)
      → query best ≡ cur_dist
      → (found dist : ℕ) × (greedy_search_level query deleted in_process g running stop best
            cur_dist
          ≡ some (some (found, dist)))
        × (dist ≤ cur_dist)
        × (running ≡ true
            → (query found ≡ dist)
              × ((c : ℕ) → has c (g found).links ≡ true → in_process c ≡ false → dist ≤ query c))
        × (running ≡ false → (found ≡ best) ⊎ (deleted found ≡ false))
  unfolding greedy_search_level
  greedy_search_level-Descended g true stop best cur_dist goes m =
      let s : Greedy = record {
        best = best;
        cur_dist = cur_dist;
        best_alive = best;
        changed = false;
      } in
      let (s', done, d) =
        greedy_loop-Descended g true stop goes (suc cur_dist) 0 s m (omega arith) in
      (s'.best, s'.cur_dist, rw done refl, d.lower, λ t. (d.measured, d.least), λ t. cc)
  greedy_search_level-Descended g false stop best cur_dist goes m =
      let s : Greedy = record {
        best = best;
        cur_dist = cur_dist;
        best_alive = best;
        changed = false;
      } in
      let (s', done, d) =
        greedy_loop-Descended g false stop goes (suc cur_dist) 0 s m (omega arith) in
      (s'.best_alive, s'.cur_dist, rw done refl, d.lower, λ t. cc, λ t. d.alive)
