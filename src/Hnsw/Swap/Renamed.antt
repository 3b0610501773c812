-- ===== src/Hnsw/Swap/Renamed.antt =====
-- The renaming of the last id, node by node.
use vector_similarity.Base.{
  ℕ, ◌≤◌, ◌<◌, ◌≡◌, ◌≢◌, refl, sym, ap, Bool, true, false, List, [], ◌∷◌, arith, length, some, ◌==◌,
  ◌||◌, if◌then◌else◌, Bool-cases, inl, inr, ◌∙◌,
}
use vector_similarity.Hnsw.Links.{LevelData, has, replace, swap_id_in_incoming}
use vector_similarity.Hnsw.Counts.{count, has_count, count-replace, length-replace}
use vector_similarity.Hnsw.Done.{and_also, and_also-cons, and_also-nil, later_new}
use vector_similarity.Hnsw.Layer.{Layer, put}
use vector_similarity.Hnsw.Tracked.{IsMutual}
use vector_similarity.Hnsw.Swap.{rename_link, swap_neighbors, swap_incoming}

module _ (last id : ℕ) where
  -- how often a node is in ids where `last` is renamed
  abbrev pub renamed : ℕ → List ℕ → ℕ
  renamed v xs = if v == last then 0 else if v == id then count last xs else count v xs

  count-renamed :
      (v : ℕ) (xs : List ℕ)
      → id ≢ last
      → has last xs ≡ true
      → count last xs ≤ 1
      → count id xs ≡ 0
      → count v (replace last id xs) ≡ renamed v xs
  count-renamed v xs ne h once absent =
      ground (arith, count-replace last id v xs h, has_count last xs, ne, eq_count)
    where
      eq_count : (v ≡ last → count v xs ≡ count last xs) × (v ≡ id → count v xs ≡ count id xs)
      eq_count = (λ q. ap (λ w. count w xs) q, λ q. ap (λ w. count w xs) q)

  -- the layer `g` where the nodes that are done have the new id
  pub record Renaming (g0 : Layer) (done : ℕ → Bool) (g : Layer) : Type 0 where
    pub own : g last ≡ g0 last
    pub links :
        (u v : ℕ)
        → u ≢ last
        → count v (g u).links ≡ (if done u then renamed v (g0 u).links else count v (g0 u).links)
    pub incoming :
        (u v : ℕ)
        → u ≢ last
        → count v (g u).incoming
          ≡ (if done u then renamed v (g0 u).incoming else count v (g0 u).incoming)
    pub size : (u : ℕ) → length (g u).links ≡ length (g0 u).links

  pub renamed-other :
      (v : ℕ) (xs : List ℕ) → count last xs ≡ 0 → count id xs ≡ 0 → renamed v xs ≡ count v xs
  renamed-other v xs h k = ground (arith, h, k, ap_eq v last, ap_eq v id)
    where
      ap_eq : (w z : ℕ) → w ≡ z → count w xs ≡ count z xs
      ap_eq w z q = ap (λ i. count i xs) q

  renamed-same :
      (v : ℕ) (xs ys : List ℕ) → ((w : ℕ) → count w xs ≡ count w ys) → renamed v xs ≡ renamed v ys
  renamed-same v xs ys h = ground (arith, h v, h last)

  module _ (max_m : ℕ) (g0 : Layer) (m : IsMutual max_m g0) (ne : id ≢ last)
      (free : (u : ℕ) → (count id (g0 u).links ≡ 0) × (count id (g0 u).incoming ≡ 0)) where
    pub Renaming-same :
        (done done' : ℕ → Bool) (g : Layer)
        → ((u : ℕ) → done u ≡ done' u)
        → Renaming g0 done g
        → Renaming g0 done' g
    Renaming-same done done' g same p = record {
      own = p.own;
      links = λ u v h. ground (arith, p.links u v h, same u);
      incoming = λ u v h. ground (arith, p.incoming u v h, same u);
      size = p.size;
    }

    module _ (done : ℕ → Bool) (c : ℕ) (g : Layer) (p : Renaming g0 done g) (nc : c ≢ last)
        (new : done c ≡ false) where
      as_before :
          (v : ℕ)
          → (count v (g c).links ≡ count v (g0 c).links)
            × (count v (g c).incoming ≡ count v (g0 c).incoming)
      as_before v = (ground (arith, p.links c v nc, new), ground (arith, p.incoming c v nc, new))

      -- what the step does to `c`, and to nothing else
      put-Renaming :
          (d : LevelData)
          → ((v : ℕ) → count v d.links ≡ renamed v (g0 c).links)
          → ((v : ℕ) → count v d.incoming ≡ renamed v (g0 c).incoming)
          → length d.links ≡ length (g c).links
          → Renaming g0 (λ u. done u || c == u) (put c d g)
      put-Renaming d links incoming size = record {
        own = ground (arith, nc) ∙ p.own;
        links = λ u v h. elim (Bool-cases (c == u)) [
          | inl same ↦
              let at = ap (λ w. renamed v (g0 w).links) {x = c} {y = u} (ground (arith, same)) in
              ground (arith, same, at, links v)
          | inr other ↦ ground (arith, other, p.links u v h)
        ];
        incoming = λ u v h. elim (Bool-cases (c == u)) [
          | inl same ↦
              let at = ap (λ w. renamed v (g0 w).incoming) {x = c} {y = u} (ground (arith, same)) in
              ground (arith, same, at, incoming v)
          | inr other ↦ ground (arith, other, p.incoming u v h)
        ];
        size = λ u. elim (Bool-cases (c == u)) [
          | inl same ↦
              let at = ap (λ w. length (g0 w).links) {x = c} {y = u} (ground (arith, same)) in
              ground (arith, same, at, size, p.size c)
          | inr other ↦ ground (arith, other, p.size u)
        ];
      }

      pub link_step :
          0 < count last (g0 c).links
          → Renaming g0 (λ u. done u || c == u) (put c (rename_link last id (g c)) g)
      link_step linked =
          let had : has last (g c).links ≡ true =
            ground (arith, has_count last (g c).links, (as_before last).0, linked) in
          put-Renaming (rename_link last id (g c))
            (λ v.
              count-renamed v (g c).links ne had
                (omega (arith, (as_before last).0, m.simple c last))
                (omega (arith, (as_before id).0, (free c).0))
              ∙ renamed-same v (g c).links (g0 c).links (λ w. (as_before w).0))
            (λ v.
              (as_before v).1
              ∙ sym (
                  renamed-other v (g0 c).incoming
                    (omega (arith, m.tracked last c, m.simple last c, linked)) (free c).1))
            (length-replace last id (g c).links)

      pub incoming_step :
          0 < count c (g0 last).links
          → count last (g0 c).links ≡ 0
          → (d : LevelData) × (swap_id_in_incoming last id (g c) ≡ some d)
            × Renaming g0 (λ u. done u || c == u) (put c d g)
      unfolding swap_id_in_incoming
      incoming_step ahead one_way =
          let once : count last (g0 c).incoming ≡ 1 =
            omega (arith, m.tracked last c, m.simple last c, ahead, one_way) in
          let had : has last (g c).incoming ≡ true =
            ground (arith, has_count last (g c).incoming, (as_before last).1, once) in
          let d : LevelData = record {
            incoming = replace last id (g c).incoming;
            links = (g c).links;
          } in
          (
            d,
            rw had refl,
            put-Renaming d
                (λ v. (as_before v).0 ∙ sym (renamed-other v (g0 c).links one_way (free c).0))
                (λ v.
                  count-renamed v (g c).incoming ne had (omega (arith, (as_before last).1, once))
                    (omega (arith, (as_before id).1, (free c).1))
                  ∙ renamed-same v (g c).incoming (g0 c).incoming (λ w. (as_before w).1))
                refl,
          )

    pub swap_neighbors_lem :
        (cs : List ℕ) (done : ℕ → Bool) (g : Layer)
        → Renaming g0 done g
        → ((v : ℕ) → count v cs ≤ 1)
        → ((v : ℕ) → 0 < count v cs → done v ≡ false)
        → ((v : ℕ) → 0 < count v cs → 0 < count v (g0 last).links)
        → (g' : Layer) × (swap_neighbors last id cs g ≡ some g') × Renaming g0 (and_also done cs) g'
    unfolding swap_neighbors
    swap_neighbors_lem [] done g p once new ahead =
        (g, refl, Renaming-same done (and_also done []) g (and_also-nil done) p)
    swap_neighbors_lem (c ∷ cs) done g p once new ahead =
        let linked = ahead c (ground arith) in
        let nc : c ≢ last =
          λ q. ground (arith, linked, m.loopless last, ap (λ w. count w (g0 last).links) q) in
        let fresh = new c (ground arith) in
        let once' : (v : ℕ) → count v cs ≤ 1 = λ v. omega (arith, once v) in
        let new' = later_new done c cs once new in
        let ahead' : (v : ℕ) → 0 < count v cs → 0 < count v (g0 last).links =
          λ v h. ahead v (omega (arith, h)) in
        elim (Bool-cases (has last (g c).links)) [
          | inl back ↦
              let p' = link_step done c g p nc fresh (
                ground (
                  arith,
                  back,
                  has_count last (g c).links,
                  (as_before done c g p nc fresh last).0,
                )) in
              let (g', rest, q) =
                swap_neighbors_lem cs (λ w. done w || c == w) _ p' once' new' ahead' in
              (
                g',
                rw back rest,
                Renaming-same _ (and_also done (c ∷ cs)) g' (and_also-cons done c cs) q,
              )
          | inr one_way ↦
              let (d, step, p') = incoming_step done c g p nc fresh linked (
                ground (
                  arith,
                  one_way,
                  has_count last (g c).links,
                  (as_before done c g p nc fresh last).0,
                )) in
              let (g', rest, q) =
                swap_neighbors_lem cs (λ w. done w || c == w) _ p' once' new' ahead' in
              (
                g',
                rw (one_way, step) rest,
                Renaming-same _ (and_also done (c ∷ cs)) g' (and_also-cons done c cs) q,
              )
        ]

    pub swap_incoming_lem :
        (cs : List ℕ) (done : ℕ → Bool) (g : Layer)
        → Renaming g0 done g
        → ((v : ℕ) → count v cs ≤ 1)
        → ((v : ℕ) → 0 < count v cs → done v ≡ false)
        → ((v : ℕ) → 0 < count v cs → 0 < count last (g0 v).links)
        → Renaming g0 (and_also done cs) (swap_incoming last id cs g)
    unfolding swap_incoming
    swap_incoming_lem [] done g p once new back =
        Renaming-same done (and_also done []) g (and_also-nil done) p
    swap_incoming_lem (c ∷ cs) done g p once new back =
        let linked = back c (ground arith) in
        let nc : c ≢ last =
          λ q. ground (arith, linked, m.loopless last, ap (λ w. count last (g0 w).links) q) in
        let p' = link_step done c g p nc (new c (ground arith)) linked in
        Renaming-same _ (and_also done (c ∷ cs)) _ (and_also-cons done c cs) (
          swap_incoming_lem cs (λ w. done w || c == w) _ p' (λ v. omega (arith, once v))
            (later_new done c cs once new) (λ v h. back v (omega (arith, h))))
