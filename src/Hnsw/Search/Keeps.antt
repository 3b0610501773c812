-- ===== src/Hnsw/Search/Keeps.antt =====
-- greedySearchLevel of an insertion. The distance that it is given may be that of another node than
-- the candidate; it ends all the same, at a node that links lead to.
use vector_similarity.Base.{
  ℕ, zero, suc, ◌<◌, ◌≡◌, refl, Bool, true, false, not, ◌&&◌, List, [], ◌∷◌, some, ltb,
  if◌then◌else◌, arith, Bool-cases, inl, inr,
}
use vector_similarity.Hnsw.Links.{has}
use vector_similarity.Hnsw.Layer.{Layer}
use vector_similarity.Hnsw.Search.{Greedy, greedy_links, greedy_loop, greedy_search_level}
use vector_similarity.Hnsw.Search.Descent.{greedy_links-Scanned}

-- the links of the nodes of `P` lead to nodes of `P`
abbrev pub IsClosed : (ℕ → Type 0) → Layer → Type 0
IsClosed P g = (u c : ℕ) → P u → has c (g u).links ≡ true → P c

module _ (query : ℕ → ℕ) (deleted in_process : ℕ → Bool) (P : ℕ → Type 0) where
  abbrev Both : Greedy → Type 0
  Both s = P s.best × P s.best_alive

  greedy_links-Both :
      (running : Bool) (cs : List ℕ) (s : Greedy)
      → ((c : ℕ) → has c cs ≡ true → P c)
      → Both s
      → Both (greedy_links query deleted in_process running cs s)
  greedy_links-Both running [] s all b = b
  greedy_links-Both running (c ∷ cs) s all b =
      let rest = λ (j : ℕ) (h : has j cs ≡ true). all j (ground (arith, h)) in
      let here : P c = all c (ground arith) in
      let skip = greedy_links-Both running cs s rest b in
      elim (Bool-cases (in_process c)) [
        | inl busy ↦ rw busy skip
        | inr free ↦ elim (Bool-cases (ltb (query c) s.cur_dist)) [
          | inr far ↦ rw (free, far) skip
          | inl near ↦
              rw (free, near)
                (greedy_links-Both running cs _ rest (here, chosen running c s here b.1))
        ]
      ]
    where
      chosen :
          (running : Bool) (c : ℕ) (s : Greedy)
          → P c
          → P s.best_alive
          → P (if not running && not (deleted c) then c else s.best_alive)
      chosen running c s pc pa = elim (Bool-cases (not running && not (deleted c))) [
        | inl living ↦ rw living pc
        | inr other ↦ rw other pa
      ]

  greedy_loop-Both :
      (g : Layer) (fuel i : ℕ) (s : Greedy)
      → IsClosed P g
      → Both s
      → s.cur_dist < fuel
      → (s' : Greedy) × (greedy_loop query deleted in_process g false (λ i. false) i fuel s
          ≡ some (some s'))
        × Both s'
  unfolding greedy_loop
  greedy_loop-Both g zero i s closed b less = absurd (omega arith)
  greedy_loop-Both g (suc fuel) i s closed b less =
      let s0 = record s { changed = false } in
      let r = greedy_links query deleted in_process false (g s.best).links s0 in
      let p = greedy_links-Scanned query deleted in_process false (g s.best).links s0 in
      let b' = greedy_links-Both false (g s.best).links s0 (λ c h. closed s.best c b.0 h) b in
      elim (Bool-cases r.changed) [
        | inr same ↦ (r, rw same refl, b')
        | inl more ↦
            let nearer : r.cur_dist < s.cur_dist = elim (p.closer more) [
              | inl never ↦ cc
              | inr lt ↦ lt
            ] in
            let (s', done, b1) = greedy_loop-Both g fuel (suc i) r closed b' (omega arith) in
            (s', rw more done, b1)
      ]

  pub greedy_search_level-keeps :
      (g : Layer) (curr cur_dist : ℕ)
      → IsClosed P g
      → P curr
      → (found dist : ℕ) × (greedy_search_level query deleted in_process g false
            (λ i. false)
            curr
            cur_dist
          ≡ some (some (found, dist)))
        × P found
  unfolding greedy_search_level
  greedy_search_level-keeps g curr cur_dist closed p =
      let s0 : Greedy = record {
        best = curr;
        cur_dist = cur_dist;
        best_alive = curr;
        changed = false;
      } in
      let (s', done, b) = greedy_loop-Both g (suc cur_dist) 0 s0 closed (p, p) (omega arith) in
      (s'.best_alive, s'.cur_dist, rw done refl, b.1)
