-- ===== src/Hnsw/Delete/Sound.antt =====
-- Removing an element in place leaves a sound layer that does not have it.
use vector_similarity.Base.{
  ℕ, ◌-◌, ◌≤◌, ◌<◌, ◌≡◌, ◌≢◌, refl, ap, subst, Bool, false, List, [], ◌∷◌, arith, length, some,
  ◌==◌, ◌||◌, Bool-cases, inl, inr, ◌∙◌,
}
use vector_similarity.Hnsw.Links.{has, remove_incoming}
use vector_similarity.Hnsw.Counts.{count, has_count, count-remove}
use vector_similarity.Hnsw.Done.{and_also, and_also-cons, and_also-nil, later_new}
use vector_similarity.Hnsw.Layer.{Layer, put}
use vector_similarity.Hnsw.Tracked.{edges, IsMutual}
use vector_similarity.Hnsw.Heuristic.{Sorter}
use vector_similarity.Hnsw.Delete.{repair_neighbors, repair_incoming, forget_edges, remove_in_place}
use vector_similarity.Hnsw.Delete.Progress.{Progress, Progress-same, repair_step, one_way_step}
use vector_similarity.Hnsw.Delete.Apart.{IsApart}

module _ (dist : ℕ → ℕ → ℕ) (sorter : Sorter) (deleted : ℕ → Bool) (max_m x : ℕ) (g0 : Layer)
    (m : IsMutual max_m g0) where
  repair_neighbors_lem :
      (cs : List ℕ) (done : ℕ → Bool) (g : Layer)
      → Progress max_m x g0 done g
      → ((v : ℕ) → count v cs ≤ 1)
      → ((v : ℕ) → 0 < count v cs → done v ≡ false)
      → ((v : ℕ) → 0 < count v cs → 0 < count v (g0 x).links)
      → (g' : Layer) × (repair_neighbors dist sorter deleted max_m x cs g ≡ some g')
        × Progress max_m x g0 (and_also done cs) g'
  unfolding repair_neighbors
  repair_neighbors_lem [] done g p once new ahead = (
    g,
    refl,
    Progress-same dist sorter deleted max_m x g0 m done (and_also done []) g (and_also-nil done) p,
  )
  repair_neighbors_lem (c ∷ cs) done g p once new ahead =
      let nc : c ≢ x = λ q. ground (arith, ahead c, m.loopless x) in
      let fresh = new c (ground arith) in
      let once' : (v : ℕ) → count v cs ≤ 1 = λ v. omega (arith, once v) in
      let new' = later_new done c cs once new in
      let ahead' : (v : ℕ) → 0 < count v cs → 0 < count v (g0 x).links =
        λ v h. ahead v (omega (arith, h)) in
      let same =
        Progress-same dist sorter deleted max_m x g0 m (and_also (λ w. done w || c == w) cs)
          (and_also done (c ∷ cs)) in
      elim (Bool-cases (has x (g c).links)) [
        | inl back ↦
            let (g', step, p') =
              repair_step dist sorter deleted max_m x g0 m done c g p nc fresh
                (ground (arith, back, has_count x (g c).links, p.links c nc, fresh)) in
            let (g'', rest, p'') =
              repair_neighbors_lem cs (λ w. done w || c == w) g' p' once' new' ahead' in
            (g'', rw (back, step) rest, same g'' (and_also-cons done c cs) p'')
        | inr one_way ↦
            let (_, found, p') =
              one_way_step dist sorter deleted max_m x g0 m done c g p nc fresh
                (ahead c (ground arith))
                (ground (arith, one_way, has_count x (g c).links, p.links c nc, fresh)) in
            let (g'', rest, p'') =
              repair_neighbors_lem cs (λ w. done w || c == w) _ p' once' new' ahead' in
            (g'', rw (one_way, found) rest, same g'' (and_also-cons done c cs) p'')
      ]

  repair_incoming_lem :
      (cs : List ℕ) (done : ℕ → Bool) (g : Layer)
      → Progress max_m x g0 done g
      → ((v : ℕ) → count v cs ≤ 1)
      → ((v : ℕ) → 0 < count v cs → done v ≡ false)
      → ((v : ℕ) → 0 < count v cs → 0 < count x (g0 v).links)
      → (g' : Layer) × (repair_incoming dist sorter deleted max_m x cs g ≡ some g')
        × Progress max_m x g0 (and_also done cs) g'
  unfolding repair_incoming
  repair_incoming_lem [] done g p once new back = (
    g,
    refl,
    Progress-same dist sorter deleted max_m x g0 m done (and_also done []) g (and_also-nil done) p,
  )
  repair_incoming_lem (c ∷ cs) done g p once new back =
      let linked = back c (ground arith) in
      let nc : c ≢ x =
        λ q. absurd (ground (arith, linked, m.loopless x, ap (λ w. count x (g0 w).links) q)) in
      let (g', step, p') =
        repair_step dist sorter deleted max_m x g0 m done c g p nc (new c (ground arith)) linked in
      let (g'', rest, p'') =
        repair_incoming_lem cs (λ w. done w || c == w) g' p' (λ v. omega (arith, once v))
          (later_new done c cs once new) (λ v h. back v (omega (arith, h))) in
      (
        g'',
        rw step rest,
        Progress-same dist sorter deleted max_m x g0 m (and_also (λ w. done w || c == w) cs)
            (and_also done (c ∷ cs)) g'' (and_also-cons done c cs) p'',
      )

  -- the end of the removal, of a layer whose other nodes do not have `x`
  forget_edges_lem :
      (cs : List ℕ) (g : Layer) (u : ℕ)
      → ((forget_edges dist sorter deleted max_m x cs g u).links ≡ (g u).links)
        × ((v : ℕ)
            → v ≢ x
            → count v (forget_edges dist sorter deleted max_m x cs g u).incoming
              ≡ count v (g u).incoming)
        × (count x (forget_edges dist sorter deleted max_m x cs g u).incoming
            ≤ count x (g u).incoming)
  forget_edges_lem [] g u = (refl, λ v nv. refl, omega arith)
  forget_edges_lem (c ∷ cs) g u =
      let (links, same, less) = forget_edges_lem cs (put c (remove_incoming x (g c)).0 g) u in
      (
        links ∙ ground arith,
        λ v nv. ground (arith, same v nv, count-remove x v (g c).incoming),
        ground (arith, less, count-remove x x (g c).incoming),
      )

  -- no node but `x` has `x`
  record Forgotten (g : Layer) : Type 0 where
    apart : IsApart max_m x g
    links : (u : ℕ) → u ≢ x → count x (g u).links ≡ 0
    incoming : (u : ℕ) → u ≢ x → count x (g u).incoming ≡ 0

  Forgotten-Progress :
      (g : Layer)
      → Progress max_m x g0 (and_also (and_also (λ u. false) (g0 x).links) (g0 x).incoming) g
      → Forgotten g
  Forgotten-Progress g p = record {
    apart = p.apart;
    links = λ u nu.
        ground (
          arith,
          p.links u nu,
          has_count u (g0 x).links,
          has_count u (g0 x).incoming,
          m.tracked u x,
        );
    incoming = λ u nu. ground (
      arith,
      p.incoming u nu,
      has_count u (g0 x).links,
      has_count u (g0 x).incoming,
      m.tracked x u,
    );
  }

  -- the layer without the node `x`
  abbrev cleared : Layer → Layer
  cleared g = put x (record { incoming = []; links = [] }) g

  cleared-IsMutual :
      (g g' : Layer)
      → Forgotten g
      → ((u : ℕ) → (g' u).links ≡ (g u).links)
      → ((u v : ℕ) → v ≢ x → count v (g' u).incoming ≡ count v (g u).incoming)
      → ((u : ℕ) → count x (g' u).incoming ≤ count x (g u).incoming)
      → IsMutual max_m (cleared g')
        × ((u : ℕ) → (count x (cleared g' u).links ≡ 0) × (count x (cleared g' u).incoming ≡ 0))
  cleared-IsMutual g g' f links same less =
      let gone : (u : ℕ)
          → (count x (cleared g' u).links ≡ 0) × (count x (cleared g' u).incoming ≡ 0) =
        λ u. elim (Bool-cases (x == u)) [
          | inl own ↦ rw own (refl, refl)
          | inr other ↦
              let nu : u ≢ x = λ q. ground (arith, other) in
              (
                ground (arith, other, f.links u nu, ap (count x) (links u)),
                ground (arith, other, f.incoming u nu, less u),
              )
        ] in
      (
        record {
          simple = λ u v. ground (arith, f.apart.simple u v, ap (count v) (links u));
          loopless = λ u. ground (arith, f.apart.loopless u, ap (count u) (links u));
          bounded = λ u. ground (arith, f.apart.bounded u, ap length (links u));
          tracked = λ u v. elim (Bool-cases (x == u)) [
            | inl own ↦
                let at : x ≡ u = ground (arith, own) in
                subst
                  (λ w.
                    count w (cleared g' v).incoming
                    ≡ edges (cleared g') w v - edges (cleared g') v w)
                  at (ground (arith, gone v))
            | inr other ↦ elim (Bool-cases (x == v)) [
              | inl own ↦
                  let at =
                    ap (λ w. count w (cleared g' u).links) {x = x} {y = v} (ground (arith, own)) in
                  ground (arith, own, gone u, at)
              | inr another ↦
                  let nu : u ≢ x = λ q. ground (arith, other) in
                  let nv : v ≢ x = λ q. ground (arith, another) in
                  ground (
                    arith,
                    other,
                    another,
                    same v u nu,
                    f.apart.tracked u v nu nv,
                    ap (count v) (links u),
                    ap (count u) (links v),
                  )
            ]
          ];
        },
        gone,
      )

  -- Removing an element in place from a sound layer succeeds, and the layer stays sound. Then no
  -- node of the layer has the element among its links or its incoming edges.
  pub remove_in_place-IsMutual :
      (g' : Layer) × (remove_in_place dist sorter deleted max_m x g0 ≡ some g')
      × IsMutual max_m g'
      × ((u : ℕ) → (count x (g' u).links ≡ 0) × (count x (g' u).incoming ≡ 0))
  unfolding remove_in_place
  remove_in_place-IsMutual =
      let p : Progress max_m x g0 (λ u. false) g0 = record {
        apart = record {
          simple = m.simple;
          loopless = m.loopless;
          bounded = m.bounded;
          tracked = λ u v nu nv. m.tracked u v;
        };
        own_links = refl;
        own_incoming = λ u. refl;
        links = λ u nu. refl;
        incoming = λ u nu. refl;
      } in
      let (g1, first, p1) =
        repair_neighbors_lem (g0 x).links (λ u. false) g0 p (m.simple x) (λ v h. refl) (λ v h. h) in
      let ins = p1.own_incoming in
      let (g2, second, p2) =
        repair_incoming_lem (g1 x).incoming (and_also (λ u. false) (g0 x).links) g1 p1
          (λ v. ground (arith, ins v, m.tracked v x, m.simple v x))
          (λ v h. ground (arith, h, ins v, m.tracked v x, m.simple v x, has_count v (g0 x).links))
          (λ v h. ground (arith, h, ins v, m.tracked v x)) in
      let same_incoming : (u : ℕ) → has u (g1 x).incoming ≡ has u (g0 x).incoming =
        λ u. ground (arith, ins u, has_count u (g1 x).incoming, has_count u (g0 x).incoming) in
      let f = Forgotten-Progress g2 (
        Progress-same dist sorter deleted max_m x g0 m _ _ g2 (λ u. ground (arith, same_incoming u))
          p2) in
      let forget = λ (u : ℕ). forget_edges_lem (g2 x).links g2 u in
      let (sound, gone) =
        cleared-IsMutual g2 (forget_edges dist sorter deleted max_m x (g2 x).links g2) f
          (λ u. (forget u).0) (λ u. (forget u).1) (λ u. (forget u).2) in
      (_, rw (first, second) refl, sound, gone)
