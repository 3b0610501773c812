-- ===== src/Hnsw/Delete/Progress.antt =====
-- The removal of an element in place, node by node.
use vector_similarity.Base.{
  ℕ, ◌<◌, ◌≡◌, ◌≢◌, refl, sym, ap, Bool, true, false, arith, some, ◌==◌, ◌||◌, if◌then◌else◌,
  Bool-cases, inl, inr, ◌∙◌,
}
use vector_similarity.Hnsw.Links.{has, remove_incoming}
use vector_similarity.Hnsw.Counts.{count, has_count, count-remove, remove-found}
use vector_similarity.Hnsw.Layer.{Layer, put}
use vector_similarity.Hnsw.Tracked.{IsMutual}
use vector_similarity.Hnsw.Heuristic.{Sorter}
use vector_similarity.Hnsw.Delete.{repair_connections_for_deletion}
use vector_similarity.Hnsw.Delete.Apart.{IsApart, repair_connections_for_deletion_lem}

-- how far the removal of `x` from `g0` has come: the nodes that are done do not have `x`
pub record Progress (max_m x : ℕ) (g0 : Layer) (done : ℕ → Bool) (g : Layer) : Type 0 where
  pub apart : IsApart max_m x g
  pub own_links : (g x).links ≡ (g0 x).links
  pub own_incoming : (u : ℕ) → count u (g x).incoming ≡ count u (g0 x).incoming
  pub links : (u : ℕ) → u ≢ x → count x (g u).links ≡ (if done u then 0 else count x (g0 u).links)
  pub incoming :
      (u : ℕ) → u ≢ x → count x (g u).incoming ≡ (if done u then 0 else count x (g0 u).incoming)

module _ (dist : ℕ → ℕ → ℕ) (sorter : Sorter) (deleted : ℕ → Bool) (max_m x : ℕ) (g0 : Layer)
    (m : IsMutual max_m g0) where
  pub Progress-same :
      (done done' : ℕ → Bool) (g : Layer)
      → ((u : ℕ) → done u ≡ done' u)
      → Progress max_m x g0 done g
      → Progress max_m x g0 done' g
  Progress-same done done' g same p = record {
    apart = p.apart;
    own_links = p.own_links;
    own_incoming = p.own_incoming;
    links = λ u nu. ground (arith, p.links u nu, same u);
    incoming = λ u nu. ground (arith, p.incoming u nu, same u);
  }

  module _ (done : ℕ → Bool) (c : ℕ) (g : Layer) (p : Progress max_m x g0 done g) (nc : c ≢ x)
      (new : done c ≡ false) where
    pub repair_step :
        0 < count x (g0 c).links
        → (g' : Layer) × (repair_connections_for_deletion dist sorter deleted max_m x c g ≡ some g')
          × Progress max_m x g0 (λ u. done u || c == u) g'
    repair_step linked =
        let (g', result, r) =
          repair_connections_for_deletion_lem dist sorter deleted max_m x c g nc p.apart
            (ground (arith, p.links c nc, new, linked)) in
        (
          g',
          result,
          record {
            apart = r.apart;
            own_links = r.others x (λ q. nc (sym q)) ∙ p.own_links;
            own_incoming = λ u. r.to_removed u ∙ p.own_incoming u;
            links = λ u nu. elim (Bool-cases (c == u)) [
              | inl same ↦
                  let at = ap (λ w. count x (g' w).links) {x = u} {y = c} (ground (arith, same)) in
                  ground (arith, same, at, r.unlinked)
              | inr other ↦
                  let at = ap (count x) (r.others u (ground (arith, other))) in
                  ground (arith, other, at, p.links u nu)
            ];
            incoming = λ u nu. elim (Bool-cases (c == u)) [
              | inl same ↦
                  let at : c ≡ u = ground (arith, same) in
                  ground (
                    arith,
                    same,
                    r.of_removed u,
                    p.incoming u nu,
                    new,
                    m.tracked x u,
                    m.simple x u,
                    linked,
                    ap done at,
                    ap (λ w. count x (g0 w).links) at,
                  )
              | inr other ↦ ground (arith, other, r.of_removed u, p.incoming u nu)
            ];
          },
        )

    pub one_way_step :
        0 < count c (g0 x).links
        → count x (g0 c).links ≡ 0
        → (has x (remove_incoming x (g c)).0.links ≡ has x (g c).links)
          × ((remove_incoming x (g c)).1 ≡ true)
          × Progress max_m x g0 (λ u. done u || c == u) (put c (remove_incoming x (g c)).0 g)
    one_way_step ahead none_back =
        let here : 0 < count x (g c).incoming =
          ground (arith, p.incoming c nc, new, m.tracked x c, ahead, none_back) in
        (
          refl,
          remove-found x (g c).incoming ∙ ground (arith, has_count x (g c).incoming, here),
          record {
            apart = record {
              simple = λ u v. ground (arith, p.apart.simple u v);
              loopless = λ u. ground (arith, p.apart.loopless u);
              bounded = λ u. ground (arith, p.apart.bounded u);
              tracked = λ u v nu nv.
                  ground (arith, p.apart.tracked u v nu nv, count-remove x u (g c).incoming);
            };
            own_links = ground (arith, p.own_links);
            own_incoming = λ u. ground (arith, p.own_incoming u);
            links = λ u nu. elim (Bool-cases (c == u)) [
              | inl same ↦
                  let at : c ≡ u = ground (arith, same) in
                  ground (
                    arith,
                    same,
                    p.links u nu,
                    new,
                    none_back,
                    ap done at,
                    ap (λ w. count x (g0 w).links) at,
                  )
              | inr other ↦ ground (arith, other, p.links u nu)
            ];
            incoming = λ u nu. elim (Bool-cases (c == u)) [
              | inl same ↦
                  let at : c ≡ u = ground (arith, same) in
                  ground (
                    arith,
                    same,
                    count-remove x x (g c).incoming,
                    p.incoming c nc,
                    new,
                    m.tracked x c,
                    m.simple x c,
                  )
              | inr other ↦ ground (arith, other, p.incoming u nu)
            ];
          },
        )
