-- ===== src/Hnsw/Swap/Sound.antt =====
-- SwapLastIdWithDeletedId keeps the graph, under new ids.
use vector_similarity.Base.{
  ℕ, ◌-◌, ◌≡◌, ◌≢◌, refl, ap, subst, true, false, List, [], arith, length, some, ◌==◌, ◌||◌,
  if◌then◌else◌, Bool-cases, inl, inr, ◌∙◌,
}
use vector_similarity.Hnsw.Links.{has}
use vector_similarity.Hnsw.Counts.{count, has_count}
use vector_similarity.Hnsw.Done.{and_also}
use vector_similarity.Hnsw.Layer.{Layer, put}
use vector_similarity.Hnsw.Tracked.{edges, IsMutual}
use vector_similarity.Hnsw.Swap.{swap_incoming, swap_last_id}
use vector_similarity.Hnsw.Swap.Renamed.{
  renamed, renamed-other, Renaming, Renaming-same, swap_neighbors_lem, swap_incoming_lem,
}

module _ (last id : ℕ) where
  -- the id that a node had before
  abbrev pub before : ℕ → ℕ
  before u = if u == id then last else u

  -- the layer `g'` is `g` with `last` under `id`
  pub record Moved (max_m : ℕ) (g g' : Layer) : Type 0 where
    pub sound : IsMutual max_m g'
    pub moved : (u v : ℕ) → u ≢ last → v ≢ last → edges g' u v ≡ edges g (before u) (before v)
    pub no_links : (u : ℕ) → count last (g' u).links ≡ 0
    pub no_incoming : (u : ℕ) → count last (g' u).incoming ≡ 0

  module _ (max_m : ℕ) (g0 : Layer) (m : IsMutual max_m g0) (ne : id ≢ last)
      (free : (u : ℕ) → (count id (g0 u).links ≡ 0) × (count id (g0 u).incoming ≡ 0)) where
    abbrev final : Layer → Layer
    final g = put last (record { incoming = []; links = [] }) (put id (g last) g)

    -- every node but `last` is renamed
    record AllRenamed (g : Layer) : Type 0 where
      own : g last ≡ g0 last
      links : (u v : ℕ) → u ≢ last → count v (g u).links ≡ renamed last id v (g0 u).links
      incoming : (u v : ℕ) → u ≢ last → count v (g u).incoming ≡ renamed last id v (g0 u).incoming
      size : (u : ℕ) → length (g u).links ≡ length (g0 u).links

    AllRenamed-Renaming :
        (g : Layer)
        → Renaming last id g0
            (and_also (and_also (λ u. false) (g0 last).links) (g0 last).incoming)
            g
        → AllRenamed g
    AllRenamed-Renaming g p = record {
      own = p.own;
      links = λ u v nu. elim (Bool-cases (has u (g0 last).links || has u (g0 last).incoming)) [
        | inl done ↦ ground (arith, p.links u v nu, done)
        | inr other ↦
            let apart =
              renamed-other last id v (g0 u).links
                (ground (
                  arith,
                  other,
                  has_count u (g0 last).links,
                  has_count u (g0 last).incoming,
                  m.tracked u last,
                ))
                (free u).0 in
            ground (arith, p.links u v nu, other, apart)
      ];
      incoming = λ u v nu. elim (Bool-cases (has u (g0 last).links || has u (g0 last).incoming)) [
        | inl done ↦ ground (arith, p.incoming u v nu, done)
        | inr other ↦
            let apart =
              renamed-other last id v (g0 u).incoming
                (ground (arith, other, has_count u (g0 last).links, m.tracked last u)) (free u).1 in
            ground (arith, p.incoming u v nu, other, apart)
      ];
      size = p.size;
    }

    module _ (g : Layer) (r : AllRenamed g) where
      -- the ids of a node under their old names
      renamed-before : (v : ℕ) (xs : List ℕ) → v ≢ last → renamed last id v xs ≡ count (before v) xs
      renamed-before v xs nv = elim (Bool-cases (v == id)) [
        | inl own ↦ ground (arith, own, nv)
        | inr other ↦ ground (arith, other, nv)
      ]

      under_old_names :
          (v : ℕ) (xs : List ℕ)
          → count id xs ≡ 0
          → count last xs ≡ 0
          → count v xs ≡ count (before v) xs
      under_old_names v xs h k = elim (Bool-cases (v == id)) [
        | inl own ↦
            ground (arith, own, k, h, ap (λ w. count w xs) {x = v} {y = id} (ground (arith, own)))
        | inr other ↦ ground (arith, other)
      ]

      links-final :
          (u v : ℕ) → u ≢ last → v ≢ last → edges (final g) u v ≡ edges g0 (before u) (before v)
      links-final u v nu nv = elim (Bool-cases (u == id)) [
        | inl own ↦ ground (
          arith,
          own,
          nu,
          ap (λ d. count v d.links) r.own,
          under_old_names v (g0 last).links (free last).0 (m.loopless last),
        )
        | inr other ↦ ground (arith, other, nu, r.links u v nu, renamed-before v (g0 u).links nv)
      ]

      incoming-final :
          (u v : ℕ)
          → u ≢ last
          → v ≢ last
          → count u (final g v).incoming ≡ count (before u) (g0 (before v)).incoming
      incoming-final u v nu nv = elim (Bool-cases (v == id)) [
        | inl own ↦ ground (
          arith,
          own,
          nv,
          ap (λ d. count u d.incoming) r.own,
          under_old_names u (g0 last).incoming (free last).1 (omega (arith, m.tracked last last)),
        )
        | inr other ↦
            ground (arith, other, nv, r.incoming v u nv, renamed-before u (g0 v).incoming nu)
      ]

      last-final :
          (u : ℕ) → (count last (final g u).links ≡ 0) × (count last (final g u).incoming ≡ 0)
      last-final u = elim (Bool-cases (last == u)) [
        | inl gone ↦ rw gone (refl, refl)
        | inr here ↦
            let nu : u ≢ last = λ q. ground (arith, here) in
            elim (Bool-cases (u == id)) [
              | inl own ↦ (
                ground (arith, here, own, ap (λ d. count last d.links) r.own, m.loopless last),
                ground
                    (arith, here, own, ap (λ d. count last d.incoming) r.own, m.tracked last last),
              )
              | inr other ↦ (
                ground (arith, here, other, r.links u last nu),
                ground (arith, here, other, r.incoming u last nu),
              )
            ]
      ]

      at_last :
          (u : ℕ)
          → (last == u) ≡ true
          → (v : ℕ) → (edges (final g) u v ≡ 0) × (count v (final g u).incoming ≡ 0)
      at_last u gone v = rw gone (refl, refl)

      -- a node is `last`, which is gone, or has its old edges
      final-IsMutual : IsMutual max_m (final g)
      final-IsMutual = record {
        simple = λ u v. elim (Bool-cases (last == u)) [
          | inl gone ↦ omega (arith, (at_last u gone v).0)
          | inr here ↦ elim (Bool-cases (last == v)) [
            | inl gone ↦ omega (
              arith,
              (last-final u).0,
              ap (λ w. edges (final g) u w) {x = last} {y = v} (ground (arith, gone)),
            )
            | inr there ↦ omega (
              arith,
              links-final u v (λ q. ground (arith, here)) (λ q. ground (arith, there)),
              m.simple (before u) (before v),
            )
          ]
        ];
        loopless = λ u. elim (Bool-cases (last == u)) [
          | inl gone ↦ (at_last u gone u).0
          | inr here ↦
              let nu : u ≢ last = λ q. ground (arith, here) in
              links-final u u nu nu ∙ m.loopless (before u)
        ];
        bounded = λ u.
            ground (arith, r.size u, m.bounded u, m.bounded last, ap (λ d. length d.links) r.own);
        tracked = λ u v. elim (Bool-cases (last == u)) [
          | inl gone ↦
              let at : last ≡ u = ground (arith, gone) in
              subst (λ w. count w (final g v).incoming ≡ edges (final g) w v - edges (final g) v w)
                at (omega (arith, (last-final v).1, (at_last last (ground arith) v).0))
          | inr here ↦ elim (Bool-cases (last == v)) [
            | inl gone ↦ omega (
              arith,
              (at_last v gone u).1,
              (last-final u).0,
              ap (λ w. edges (final g) u w) {x = last} {y = v} (ground (arith, gone)),
            )
            | inr there ↦
                let nu : u ≢ last = λ q. ground (arith, here) in
                let nv : v ≢ last = λ q. ground (arith, there) in
                omega (
                  arith,
                  incoming-final u v nu nv,
                  links-final u v nu nv,
                  links-final v u nv nu,
                  m.tracked (before u) (before v),
                )
          ]
        ];
      }

      Moved-final : Moved max_m g0 (final g)
      Moved-final = record {
        sound = final-IsMutual;
        moved = links-final;
        no_links = λ u. (last-final u).0;
        no_incoming = λ u. (last-final u).1;
      }

    -- In a sound layer that does not have the id of the element that was removed, and where this is
    -- not the last id, the swap of the last id succeeds. The layer stays sound, its edges are those
    -- of before with the last id under its new name, and no node has the last id.
    pub swap_last_id-Moved : (g' : Layer) × (swap_last_id last id g0 ≡ some g') × Moved max_m g0 g'
    unfolding swap_last_id
    swap_last_id-Moved =
        let p : Renaming last id g0 (λ u. false) g0 = record {
          own = refl;
          links = λ u v nu. refl;
          incoming = λ u v nu. refl;
          size = λ u. refl;
        } in
        let (g1, done, p1) =
          swap_neighbors_lem last id max_m g0 m ne free (g0 last).links (λ u. false) g0 p
            (m.simple last) (λ v h. refl) (λ v h. h) in
        let ins : (v : ℕ) → count v (g1 last).incoming ≡ count v (g0 last).incoming =
          λ v. ap (λ d. count v d.incoming) p1.own in
        let p2 =
          swap_incoming_lem last id max_m g0 m ne free (g1 last).incoming
            (and_also (λ u. false) (g0 last).links) g1 p1
            (λ v. omega (arith, ins v, m.tracked v last, m.simple v last))
            (λ v h.
              ground
                (arith, h, ins v, m.tracked v last, m.simple v last, has_count v (g0 last).links))
            (λ v h. omega (arith, h, ins v, m.tracked v last)) in
        let g2 = swap_incoming last id (g1 last).incoming g1 in
        let all = (and_also (and_also (λ u. false) (g0 last).links) (g1 last).incoming) in
        let p3 =
          Renaming-same last id max_m g0 m ne free all
            (and_also (and_also (λ u. false) (g0 last).links) (g0 last).incoming) g2
            (λ u.
              ground (arith, ins u, has_count u (g1 last).incoming, has_count u (g0 last).incoming))
            p2 in
        (final g2, rw done refl, Moved-final g2 (AllRenamed-Renaming g2 p3))
