-- ===== src/Hnsw/Delete/Gain.antt =====
-- The links of a neighbor that are new, in a layer that has an element to be removed.
use vector_similarity.Base.{
  ℕ, ◌≤◌, ◌<◌, ◌≡◌, ◌≢◌, refl, ap, true, false, List, [], ◌∷◌, arith, some, ◌==◌, ◌&&◌, not,
  if◌then◌else◌, Bool-cases, inl, inr,
}
use vector_similarity.Hnsw.Links.{has, new_incoming, remove_incoming}
use vector_similarity.Hnsw.Counts.{count, count-append, has_count, count-remove, remove-found}
use vector_similarity.Hnsw.Layer.{Layer, put}
use vector_similarity.Hnsw.Tracked.{Edges, with_edge}
use vector_similarity.Hnsw.Delete.{track_edge, track_edges}
use vector_similarity.Hnsw.Delete.Drop.{TracksApart, Unmoved, Unmoved-then}

-- the edges with those from `a` to the nodes of `cs` that are not in `orig`
abbrev pub with_new : ℕ → List ℕ → List ℕ → Edges → Edges
with_new a orig cs e u v = if (u == a) && (has v cs && not (has v orig)) then 1 else e u v

module _ (x a : ℕ) (ne : a ≢ x) where
  -- an edge that is new
  record Gained (c : ℕ) (e : Edges) (g : Layer) : Type 0 where
    after : Layer
    result : track_edge a c g ≡ some after
    tracked : TracksApart x (with_edge a c 1 e) after
    unmoved : Unmoved x g after

  track_edge-Gained :
      (c : ℕ) (e : Edges) (g : Layer)
      → c ≢ x
      → a ≢ c
      → e a c ≡ 0
      → e c a ≡ count a (g c).links
      → count a (g c).links ≤ 1
      → TracksApart x e g
      → Gained c e g
  unfolding track_edge
  track_edge-Gained c e g nc differ ac ca simple t = elim (Bool-cases (has a (g c).links)) [
    | inl back ↦
        let found : has c (g a).incoming ≡ true =
          ground (arith, t c a nc ne, has_count c (g a).incoming, has_count a (g c).links, back) in
        record {
          after = put a (remove_incoming c (g a)).0 g;
          result = rw (back, remove-found c (g a).incoming, found) refl;
          tracked = λ u v nu nv. ground (
            arith,
            t u v nu nv,
            t c a nc ne,
            count-remove c u (g a).incoming,
            has_count a (g c).links,
            back,
          );
          unmoved = record {
            links = λ u. ground arith;
            of_removed = λ u. ground (arith, count-remove c x (g a).incoming);
            to_removed = λ u. ground arith;
          };
        }
    | inr one_way ↦ record {
      after = put c (new_incoming a (g c)) g;
      result = rw one_way refl;
      tracked = λ u v nu nv. ground (
        arith,
        t u v nu nv,
        t a c ne nc,
        count-append u (g c).incoming (a ∷ []),
        has_count a (g c).links,
        one_way,
      );
      unmoved = record {
        links = λ u. ground arith;
        of_removed = λ u. ground (arith, count-append x (g c).incoming (a ∷ []));
        to_removed = λ u. ground arith;
      };
    }
  ]

  -- the loop over the links of `a`
  pub record AllGained (orig cs : List ℕ) (e : Edges) (g : Layer) : Type 0 where
    pub after : Layer
    pub result : track_edges a orig cs g ≡ some after
    pub tracked : TracksApart x (with_new a orig cs e) after
    pub unmoved : Unmoved x g after

  pub track_edges-AllGained :
      (orig cs : List ℕ) (e : Edges) (g : Layer)
      → ((v : ℕ) → count v cs ≤ 1)
      → count x cs ≡ 0
      → count a cs ≡ 0
      → ((v : ℕ) → 0 < count v cs → has v orig ≡ false → e a v ≡ 0)
      → ((v : ℕ) → 0 < count v cs → e v a ≡ count a (g v).links)
      → ((v : ℕ) → count a (g v).links ≤ 1)
      → TracksApart x e g
      → AllGained orig cs e g
  unfolding track_edges
  track_edges-AllGained orig [] e g once not_x not_a blank back simple t = record {
    after = g;
    result = refl;
    tracked = λ u v nu nv. ground (arith, t u v nu nv);
    unmoved = record { links = λ u. refl; of_removed = λ u. refl; to_removed = λ u. refl };
  }
  track_edges-AllGained orig (c ∷ cs) e g once not_x not_a blank back simple t =
      let nc : c ≢ x = λ q. ground (arith, not_x) in
      let differ : a ≢ c = λ q. ground (arith, not_a) in
      let once' : (v : ℕ) → count v cs ≤ 1 = λ v. omega (arith, once v) in
      elim (Bool-cases (has c orig)) [
        | inl was ↦
            let ih =
              track_edges-AllGained orig cs e g once' (omega (arith, not_x)) (omega (arith, not_a))
                (λ v h. blank v (omega (arith, h))) (λ v h. back v (omega (arith, h))) simple t in
            record {
              after = ih.after;
              result = rw was ih.result;
              tracked = λ u v nu nv. ground (arith, ih.tracked u v nu nv, was);
              unmoved = ih.unmoved;
            }
        | inr new ↦
            let s =
              track_edge-Gained c e g nc differ (blank c (ground arith) new) (back c (ground arith))
                (simple c) t in
            let ih =
              track_edges-AllGained orig cs (with_edge a c 1 e) s.after once' (omega (arith, not_x))
                (omega (arith, not_a)) (λ v h k. ground (arith, blank v, h, k, once v))
                (λ v h. ground (arith, back v, h, not_a, ap (count a) (s.unmoved.links v)))
                (λ v. omega (arith, simple v, ap (count a) (s.unmoved.links v))) s.tracked in
            record {
              after = ih.after;
              result = rw (new, s.result) ih.result;
              tracked = λ u v nu nv. ground (arith, ih.tracked u v nu nv, new);
              unmoved = Unmoved-then x g s.after ih.after s.unmoved ih.unmoved;
            }
      ]
