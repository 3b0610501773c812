-- ===== src/Hnsw/Repair/Sound.antt =====
-- repairNodeConnections keeps a layer sound and leaves no link to a deleted node.
use vector_similarity.Base.{
  ℕ, ◌≤◌, ◌<◌, ◌≡◌, ◌⊎◌, ap, Bool, true, false, List, [], ◌∷◌, ◌++◌, arith, length, ◌==◌, ◌&&◌, not,
  Bool-cases, inl, inr, map, ltb,
}
use vector_similarity.Hnsw.Links.{has}
use vector_similarity.Hnsw.Counts.{count, count-append, has-count, not_has-count, has_count}
use vector_similarity.Hnsw.Layer.{Layer}
use vector_similarity.Hnsw.Tracked.{edges, IsMutual}
use vector_similarity.Hnsw.Heuristic.{Candidates, ids, Sorter, get_neighbors_by_heuristic2}
use vector_similarity.Hnsw.Heuristic.Choice.{count-get_neighbors, ids-map}
use vector_similarity.Hnsw.Connect.Revisit.{Settles, links_only-IsMutual}
use vector_similarity.Hnsw.Repair.{
  keep_links, add_links, mutually_update_for_repaired_node, filter, repair_candidates,
  repair_node_connections,
}
use vector_similarity.Hnsw.Repair.Keep.{goes, without_unchosen, keep_links-Kept}
use vector_similarity.Hnsw.Repair.Add.{add_links-Added}
use vector_similarity.Hnsw.Repair.Collect.{count-filter, Eligible, repair_candidates-Eligible}

-- the layer is sound, and a link of `a` is not to a deleted node unless it stayed
pub record Updated (deleted : ℕ → Bool) (max_m a : ℕ) (stays : ℕ → Bool) (g' : Layer) : Type 0 where
  pub sound : IsMutual max_m g'
  pub live : (v : ℕ) → 0 < edges g' a v → (stays v ≡ true) ⊎ (deleted v ≡ false)

module _ (deleted in_process : ℕ → Bool) (max_m : ℕ) where
  update-Updated :
      (a : ℕ) (to_update chosen : List ℕ) (g : Layer)
      → IsMutual max_m g
      → ((v : ℕ) → count v chosen ≤ 1)
      → count a chosen ≡ 0
      → ((v : ℕ) → 0 < count v chosen → has v to_update ≡ true)
      → Updated deleted max_m a
          (λ v. has v (g a).links && not (goes (to_update ++ a ∷ []) chosen v))
          (mutually_update_for_repaired_node deleted in_process max_m a to_update chosen g)
  unfolding mutually_update_for_repaired_node
  update-Updated a to_update chosen g m once other covered =
      let xs = (g a).links in
      let out = to_update ++ a ∷ [] in
      let r = keep_links out a xs [] chosen g in
      let k =
        keep_links-Kept out a xs [] chosen (edges g) g
          (λ v h. omega (arith, has-count v xs h, m.simple a v)) (λ v. m.simple v a) (m.simple a)
          once (ground (arith, has-count a xs, m.loopless a)) m.tracked in
      let e = without_unchosen a out chosen xs (edges g) in
      let s : Settles max_m a r.0 e r.2 = record {
        simple = λ u v. ground (arith, m.simple u v);
        loopless = λ u. ground (arith, m.loopless u);
        here = λ v. ground (arith, k.counts v, not_has-count v xs);
        elsewhere = λ u v h. ground (arith, k.links u);
        bounded = λ u h. ground (arith, k.links u, m.bounded u);
        room = omega (arith, k.size, m.bounded a);
        tracked = k.tracked;
      } in
      let in_out : (v : ℕ) → has v to_update ≡ true → has v out ≡ true = λ v h.
        ground
          (arith, h, has_count v to_update, has_count v out, count-append v to_update (a ∷ [])) in
      let p =
        add_links-Added deleted in_process max_m a r.1 r.0 e r.2 s
          (λ v. omega (arith, k.missing v, once v)) (omega (arith, k.missing a, other))
          (λ v h.
            ground
              (arith, k.missing v, k.counts v, covered v, in_out v, once v, has_count v chosen)) in
      let q = add_links deleted in_process max_m a r.1 r.0 r.2 in
      record {
        sound = links_only-IsMutual max_m a q.0 p.now q.1 p.settled;
        live = λ v h. elim (p.live v (ground (arith, h))) [
          | inl kept ↦ inl (ground (arith, kept, k.counts v, has_count v xs))
          | inr alive ↦ inr alive
        ];
      }

  -- where the deleted links and the chosen neighbors are to be updated
  update_all :
      (a : ℕ) (more chosen : List ℕ) (g : Layer)
      → IsMutual max_m g
      → Eligible deleted a chosen
      → ((v : ℕ) → 0 < count v chosen → 0 < count v more)
      → Updated deleted max_m a
          (λ v. false)
          (mutually_update_for_repaired_node deleted in_process max_m a
            (filter deleted (g a).links ++ more)
            chosen
            g)
  update_all a more chosen g m el covered =
      let gone = filter deleted (g a).links in
      let u = update-Updated a (gone ++ more) chosen g m el.distinct el.other (λ v h.
        ground (arith, covered v h, has_count v (gone ++ more), count-append v gone more)) in
      record {
        sound = u.sound;
        live = λ v h. elim (Bool-cases (deleted v)) [
          | inl dead ↦ elim (u.live v h) [
            | inl stays ↦ absurd (
                ground (
                  arith,
                  stays,
                  dead,
                  el.live v,
                  has_count v chosen,
                  has_count v (g a).links,
                  has_count v ((gone ++ more) ++ a ∷ []),
                  count-append v (gone ++ more) (a ∷ []),
                  count-append v gone more,
                  count-filter deleted v (g a).links,
                ))
            | inr alive ↦ inr alive
          ]
          | inr alive ↦ inr alive
        ];
      }

count-bound : (v : ℕ) (xs : List ℕ) → count v xs ≤ length xs
count-bound v [] = omega arith
count-bound v (x ∷ xs) = ground (arith, count-bound v xs)

module _ (dist : ℕ → ℕ → ℕ) (sorter : Sorter) (deleted in_process : ℕ → Bool) (max_m : ℕ) where
  repair-Updated :
      (a : ℕ) (g : Layer)
      → IsMutual max_m g
      → Updated deleted max_m a
          (λ v. false)
          (repair_node_connections dist sorter deleted in_process max_m a g)
  unfolding repair_node_connections
  repair-Updated a g m =
      let xs = (g a).links in
      let gone = filter deleted xs in
      let candidates = repair_candidates deleted a g in
      let el = repair_candidates-Eligible deleted a g (m.simple a) (m.loopless a) in
      let cs : Candidates = map (λ c. (dist c a, c)) candidates in
      let left = ids (get_neighbors_by_heuristic2 dist sorter max_m cs).0 in
      let removed = (get_neighbors_by_heuristic2 dist sorter max_m cs).1 in
      let dropped = filter (λ c. has c xs) removed in
      let few : (v : ℕ) → count v left ≤ count v candidates = λ v. omega (
        arith,
        count-get_neighbors dist sorter v max_m cs,
        ap (count v) (ids-map (λ c. dist c a) candidates),
      ) in
      let left-Eligible : Eligible deleted a left = record {
        distinct = λ v. omega (arith, few v, el.distinct v);
        other = omega (arith, few a, el.other);
        live = λ v h. el.live v (omega (arith, few v));
      } in
      elim (Bool-cases (length gone == 0)) [
        | inl none_gone ↦ rw none_gone (record {
          sound = m;
          live = λ v h. inr (ground (arith, count-bound v gone, count-filter deleted v xs));
        })
        | inr some_gone ↦ elim (Bool-cases (ltb max_m (length candidates))) [
          | inl many ↦
              rw (some_gone, many)
                (update_all deleted in_process max_m a (dropped ++ left) left g m left-Eligible
                  (λ v h. omega (arith, count-append v dropped left)))
          | inr room ↦
              rw (some_gone, room)
                (update_all deleted in_process max_m a candidates candidates g m el (λ v h. h))
        ]
      ]

  -- Repairing a node of a sound layer keeps the layer sound, and no link of the node is to a node
  -- that is marked as deleted then.
  pub repair_node_connections-IsMutual :
      (a : ℕ) (g : Layer)
      → IsMutual max_m g
      → IsMutual max_m (repair_node_connections dist sorter deleted in_process max_m a g)
        × ((v : ℕ)
            → 0 < edges (repair_node_connections dist sorter deleted in_process max_m a g) a v
            → deleted v ≡ false)
  repair_node_connections-IsMutual a g m =
      let u = repair-Updated a g m in
      (u.sound, λ v h. elim (u.live v h) [ inl never ↦ cc | inr alive ↦ alive ])
