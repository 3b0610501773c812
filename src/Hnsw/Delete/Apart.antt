-- ===== src/Hnsw/Delete/Apart.antt =====
-- repairConnectionsForDeletion on a layer that has an element to be removed.
use vector_similarity.Base.{
  ℕ, ◌+◌, ◌≤◌, ◌<◌, ◌≡◌, ◌≢◌, refl, sym, ap, subst, Bool, List, [], map, arith, length, some, ◌==◌,
  ◌&&◌, ◌||◌, not, if◌then◌else◌, Bool-cases, inl, inr, ◌∙◌, ltb,
}
use vector_similarity.Hnsw.Links.{LevelData, has, set_links, remove_link}
use vector_similarity.Hnsw.Counts.{count, count-append, has-count, has_count, swap_remove_lem}
use vector_similarity.Hnsw.Layer.{Layer, put}
use vector_similarity.Hnsw.Tracked.{Edges, edges}
use vector_similarity.Hnsw.Heuristic.{Candidates, ids, Sorter, get_neighbors_by_heuristic2}
use vector_similarity.Hnsw.Heuristic.Choice.{
  count-get_neighbors, length-get_neighbors, ids-map, length-ids,
}
use vector_similarity.Hnsw.Repair.{filter}
use vector_similarity.Hnsw.Repair.Collect.{count-filter}
use vector_similarity.Hnsw.Delete.{
  drop_unchosen, track_edges, deletion_candidates, repair_connections_for_deletion,
}
use vector_similarity.Hnsw.Delete.Drop.{TracksApart, without_orig, drop_unchosen-TracksApart}
use vector_similarity.Hnsw.Delete.Gain.{with_new, AllGained, track_edges-AllGained}

-- a sound layer but for the incoming edges of and to `x`
pub record IsApart (max_m x : ℕ) (g : Layer) : Type 0 where
  pub simple : (u v : ℕ) → count v (g u).links ≤ 1
  pub loopless : (u : ℕ) → count u (g u).links ≡ 0
  pub bounded : (u : ℕ) → length (g u).links ≤ max_m
  pub tracked : TracksApart x (edges g) g

-- after a repair of `a` for the removal of `x`
pub record Repaired (max_m x a : ℕ) (g g' : Layer) : Type 0 where
  pub apart : IsApart max_m x g'
  pub unlinked : count x (g' a).links ≡ 0
  pub others : (u : ℕ) → u ≢ a → (g' u).links ≡ (g u).links
  pub of_removed : (u : ℕ) → count x (g' u).incoming ≡ count x (g u).incoming
  pub to_removed : (u : ℕ) → count u (g' x).incoming ≡ count u (g x).incoming

module _ (max_m x a : ℕ) (g : Layer) (ne : a ≢ x) (s : IsApart max_m x g) where
  abbrev orig : List ℕ
  orig = (g a).links

  -- `chosen` are the new links, and `others` the other candidates
  module _ (chosen others : List ℕ) (once : (v : ℕ) → count v chosen + count v others ≤ 1)
      (not_x : count x chosen + count x others ≡ 0)
      (not_a : count a chosen + count a others ≡ 0) where
    abbrev dropped : Edges
    dropped = without_orig a orig others (edges g)

    -- a layer with the new links
    abbrev IsRelinked : Layer → Type 0
    IsRelinked g' = (u : ℕ) → (g' u).links ≡ (if u == a then chosen else (g u).links)

    gain-AllGained :
        (g' : Layer)
        → IsRelinked g'
        → TracksApart x dropped g'
        → AllGained x a ne orig chosen dropped g'
    gain-AllGained g' now t =
        track_edges-AllGained x a ne orig chosen dropped g' (λ v. omega (arith, once v))
          (omega (arith, not_x)) (omega (arith, not_a))
          (λ v h k. ground (arith, k, has_count v orig))
          (λ v h. ground (arith, h, not_a, ap (count a) (now v)))
          (λ v. ground (arith, ap (count a) (now v), s.simple v a, not_a)) t

    -- the edges of `a` after both loops
    edges_of_a :
        ((v : ℕ) → v ≢ x → 0 < count v orig → 0 < count v chosen + count v others)
        → (v : ℕ) → v ≢ x
        → with_new a orig chosen dropped a v ≡ count v chosen
    edges_of_a covers v nv = ground (
      arith,
      covers v nv,
      once v,
      has_count v chosen,
      has_count v others,
      has_count v orig,
      s.simple a v,
    )

    tracked_after :
        (g' : Layer)
        → ((v : ℕ) → v ≢ x → 0 < count v orig → 0 < count v chosen + count v others)
        → IsRelinked g'
        → TracksApart x (with_new a orig chosen dropped) g'
        → TracksApart x (edges g') g'
    tracked_after g' covers last t u v nu nv =
        let at : (w z : ℕ) → z ≢ x → with_new a orig chosen dropped w z ≡ edges g' w z = λ w z nz.
          elim (Bool-cases (w == a)) [
            | inl same ↦
                let eq : w ≡ a = ground (arith, same) in
                subst (λ k. with_new a orig chosen dropped k z ≡ edges g' k z) (sym eq)
                  (edges_of_a covers z nz ∙ ap (count z) (sym (last a ∙ ground arith)))
            | inr other ↦ ground (arith, other, ap (count z) (last w))
          ] in
        omega (arith, t u v nu nv, at u v nv, at v u nu)

    relink-Repaired :
        ((v : ℕ) → v ≢ x → 0 < count v orig → 0 < count v chosen + count v others)
        → length chosen ≤ max_m
        → (g' : Layer) → IsRelinked g'
        → TracksApart x (with_new a orig chosen dropped) g'
        → ((u : ℕ) → count x (g' u).incoming ≡ count x (g u).incoming)
        → ((u : ℕ) → count u (g' x).incoming ≡ count u (g x).incoming)
        → Repaired max_m x a g g'
    relink-Repaired covers short g' last t of to = record {
      apart = record {
        simple = λ u v. ground (arith, ap (count v) (last u), s.simple u v, once v);
        loopless = λ u. ground (arith, ap (count u) (last u), s.loopless u, not_a);
        bounded = λ u. ground (arith, ap length (last u), s.bounded u, short);
        tracked = tracked_after g' covers last t;
      };
      unlinked = ground (arith, ap (count x) (last a), not_x);
      others = λ u h. last u ∙ ground (arith, h);
      of_removed = of;
      to_removed = to;
    }

    pub relink_lem :
        ((v : ℕ) → v ≢ x → 0 < count v orig → 0 < count v chosen + count v others)
        → length chosen ≤ max_m
        → (g' : Layer) × (track_edges a orig chosen
              (drop_unchosen a orig others (put a (set_links chosen (g a)) g))
            ≡ some g')
          × Repaired max_m x a g g'
    relink_lem covers short =
        let g1 = put a (set_links chosen (g a)) g in
        let t1 : TracksApart x (edges g) g1 = λ u v nu nv. ground (arith, s.tracked u v nu nv) in
        let (t2, m2) =
          drop_unchosen-TracksApart x a ne orig others (edges g) g1 (λ v. omega (arith, once v))
            (omega (arith, not_x)) (omega (arith, not_a))
            (λ v h k. omega (arith, has-count v orig k, s.simple a v)) (λ v. s.simple v a) t1 in
        let g2 = drop_unchosen a orig others g1 in
        let now : IsRelinked g2 = λ u. m2.links u ∙ ground arith in
        let r = gain-AllGained g2 now t2 in
        (
          r.after,
          r.result,
          relink-Repaired covers short r.after (λ u. r.unmoved.links u ∙ now u) r.tracked
              (λ u. r.unmoved.of_removed u ∙ m2.of_removed u ∙ ground arith)
              (λ u. r.unmoved.to_removed u ∙ m2.to_removed u ∙ ground arith),
        )

  -- a neighbor that is marked as deleted only loses its link
  unlink-Repaired :
      0 < count x orig
      → (d : LevelData) × (remove_link x (g a) ≡ some d) × Repaired max_m x a g (put a d g)
  unfolding remove_link
  unlink-Repaired linked =
      let (ys, done, counts, shorter) = swap_remove_lem x orig (ground (arith, has_count x orig)) in
      (
        record { incoming = (g a).incoming; links = ys },
        rw done refl,
        record {
          apart = record {
            simple = λ u v. ground (arith, s.simple u v, counts v, s.simple a v);
            loopless = λ u. ground (arith, s.loopless u, counts u);
            bounded = λ u. ground (arith, s.bounded u, s.bounded a, shorter);
            tracked = λ u v nu nv. ground (arith, s.tracked u v nu nv, counts v, counts u);
          };
          unlinked = ground (arith, counts x, s.simple a x);
          others = λ u h. ground (arith, h);
          of_removed = λ u. ground arith;
          to_removed = λ u. ground arith;
        },
      )

module _ (dist : ℕ → ℕ → ℕ) (sorter : Sorter) (deleted : ℕ → Bool) (max_m : ℕ) where
  -- how often a node is a candidate
  count-deletion_candidates :
      (x a v : ℕ) (g : Layer)
      → count v (deletion_candidates dist sorter deleted max_m x a g)
        ≡ (if not (v == x) && not (has v (g x).links) then count v (g a).links else 0)
          + (if not (v == a) && (not (deleted v) || has v (g a).links)
              then count v (g x).links
              else 0)
  count-deletion_candidates x a v g =
      count-append v (filter (λ c. not (c == x) && not (has c (g x).links)) (g a).links) _
      ∙ omega (
        arith,
        count-filter (λ c. not (c == x) && not (has c (g x).links)) v (g a).links,
        count-filter (λ c. not (c == a) && (not (deleted c) || has c (g a).links)) v (g x).links,
      )

  pub repair_connections_for_deletion_lem :
      (x a : ℕ) (g : Layer)
      → a ≢ x
      → IsApart max_m x g
      → 0 < count x (g a).links
      → (g' : Layer) × (repair_connections_for_deletion dist sorter deleted max_m x a g ≡ some g')
        × Repaired max_m x a g g'
  unfolding repair_connections_for_deletion drop_unchosen
  repair_connections_for_deletion_lem x a g ne s linked =
      let cands = deletion_candidates dist sorter deleted max_m x a g in
      let cs : Candidates = map (λ c. (dist c a, c)) cands in
      let left = ids (get_neighbors_by_heuristic2 dist sorter max_m cs).0 in
      let others = (get_neighbors_by_heuristic2 dist sorter max_m cs).1 in
      let sum : (v : ℕ) → count v left + count v others ≡ count v cands = λ v.
        count-get_neighbors dist sorter v max_m cs ∙ ap (count v) (ids-map (λ c. dist c a) cands) in
      let total = λ (v : ℕ). count-deletion_candidates x a v g in
      let once : (v : ℕ) → count v cands ≤ 1 =
        λ v. ground (arith, total v, s.simple a v, s.simple x v, has_count v (g x).links) in
      let not_x : count x cands ≡ 0 = ground (arith, total x, s.loopless x) in
      let not_a : count a cands ≡ 0 = ground (arith, total a, s.loopless a) in
      let covers : (v : ℕ) → v ≢ x → 0 < count v (g a).links → 0 < count v cands = λ v nv h.
        ground
          (arith, total v, nv, h, s.loopless a, has_count v (g x).links, has_count v (g a).links) in
      elim (Bool-cases (deleted a)) [
        | inl dead ↦
            let (d, done, r) = unlink-Repaired max_m x a g ne s linked in
            (put a d g, rw (dead, done) refl, r)
        | inr alive ↦ elim (Bool-cases (ltb max_m (length cands))) [
          | inl many ↦
              let (g', done, r) =
                relink_lem max_m x a g ne s left others (λ v. omega (arith, sum v, once v))
                  (omega (arith, sum x, not_x)) (omega (arith, sum a, not_a))
                  (λ v nv h. omega (arith, sum v, covers v nv h))
                  (omega (
                    arith,
                    length-get_neighbors dist sorter max_m cs,
                    length-ids (get_neighbors_by_heuristic2 dist sorter max_m cs).0,
                  )) in
              (g', rw (alive, many) done, r)
          | inr room ↦
              let (g', done, r) =
                relink_lem max_m x a g ne s cands [] (λ v. omega (arith, once v))
                  (omega (arith, not_x)) (omega (arith, not_a))
                  (λ v nv h. omega (arith, covers v nv h)) (ground (arith, room)) in
              (g', rw (alive, room) done, r)
        ]
      ]
