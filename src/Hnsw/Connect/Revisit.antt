-- ===== src/Hnsw/Connect/Revisit.antt =====
-- revisitNeighborConnections keeps a layer sound.
use vector_similarity.Base.{
  ℕ, ◌≤◌, ◌<◌, ◌≡◌, ◌≢◌, refl, Bool, true, false, List, [], ◌∷◌, ◌++◌, arith, length, ◌&&◌, not,
  if◌then◌else◌, Bool-cases, inl, inr, length-append, ◌∙◌, sym, ltb, ltb→lt, ◌||◌, ap, ==_ne,
}
use vector_similarity.Hnsw.Links.{has, append_link, new_incoming}
use vector_similarity.Hnsw.Counts.{count, count-append, has-count, not_has-count}
use vector_similarity.Hnsw.Layer.{Layer, put}
use vector_similarity.Hnsw.Tracked.{Edges, edges, with_edge, Tracks, IsMutual}
use vector_similarity.Hnsw.Heuristic.{Sorter, get_neighbors_by_heuristic2}
use vector_similarity.Hnsw.Connect.{
  prune_links, links_only, connect_pruned, with_neighbors, revisit_neighbor_connections,
}
use vector_similarity.Hnsw.Connect.Prune.{without, Pruned, prune_links-Pruned}

-- `kept` are the links that `a` is to have, and `e` the edges of `g` with these
pub record Settles (max_m a : ℕ) (kept : List ℕ) (e : Edges) (g : Layer) : Type 0 where
  pub simple : (u v : ℕ) → e u v ≤ 1
  pub loopless : (u : ℕ) → e u u ≡ 0
  pub here : (v : ℕ) → count v kept ≡ e a v
  pub elsewhere : (u v : ℕ) → u ≢ a → count v (g u).links ≡ e u v
  pub bounded : (u : ℕ) → u ≢ a → length (g u).links ≤ max_m
  pub room : length kept ≤ max_m
  pub tracked : Tracks e g

pub links_only-IsMutual :
    (max_m a : ℕ) (kept : List ℕ) (e : Edges) (g : Layer)
    → Settles max_m a kept e g
    → IsMutual max_m (links_only a kept g)
links_only-IsMutual max_m a kept e g s = record {
  simple = λ u v. ground (arith, s.simple u v, s.here v, s.elsewhere u v);
  loopless = λ u. ground (arith, s.loopless u, s.here u, s.elsewhere u u);
  bounded = λ u. ground (arith, s.bounded u, s.room);
  tracked =
      λ u v. ground (arith, s.tracked u v, s.here v, s.here u, s.elsewhere u v, s.elsewhere v u);
}

-- the edges that a layer has, and those that it had
pub record Joined (max_m new a : ℕ) (g g' : Layer) : Type 0 where
  pub sound : IsMutual max_m g'
  pub outgoing : (c : ℕ) → c ≢ a → edges g' new c ≡ edges g new c
  pub ingoing : (c : ℕ) → c ≢ a → edges g' c new ≡ edges g c new

-- the new node's end of the edge
abbrev linked_to : ℕ → ℕ → Layer → Layer
linked_to new a g = put new (append_link a (g new)) g

module _ (max_m new a : ℕ) (kept : List ℕ) (e : Edges) (g : Layer) (s : Settles max_m a kept e g)
    (ne : a ≢ new) (out : e new a ≡ 0) (back : e a new ≡ 0) where
  mutual-Settles :
      length (g new).links < max_m
      → length kept < max_m
      → Settles max_m a
          (kept ++ new ∷ [])
          (with_edge a new 1 (with_edge new a 1 e))
          (linked_to new a g)
  mutual-Settles room fits = record {
    simple = λ u v. ground (arith, s.simple u v);
    loopless = λ u. ground (arith, s.loopless u);
    here = λ v. ground (arith, s.here v, count-append v kept (new ∷ []));
    elsewhere = λ u v h. ground (arith, s.elsewhere u v h, count-append v (g new).links (a ∷ []));
    bounded = λ u h. ground (arith, s.bounded u h, length-append (g new).links (a ∷ []));
    room = omega (arith, length-append kept (new ∷ []));
    tracked = λ u v. ground (arith, s.tracked u v, s.tracked v u);
  }

  one_way-Settles :
      length (g new).links < max_m
      → Settles max_m a kept
          (with_edge new a 1 e)
          (put a (new_incoming new (linked_to new a g a)) (linked_to new a g))
  one_way-Settles room = record {
    simple = λ u v. ground (arith, s.simple u v);
    loopless = λ u. ground (arith, s.loopless u);
    here = λ v. ground (arith, s.here v);
    elsewhere = λ u v h. ground (arith, s.elsewhere u v h, count-append v (g new).links (a ∷ []));
    bounded = λ u h. ground (arith, s.bounded u h, length-append (g new).links (a ∷ []));
    room = s.room;
    tracked = λ u v.
        ground (arith, s.tracked u v, s.tracked v u, count-append u (g a).incoming (new ∷ []));
  }

  connect_pruned-Joined :
      length (g new).links < max_m
      → (chosen : Bool)
      → IsMutual max_m (connect_pruned max_m new a chosen kept g)
        × ((c : ℕ) → c ≢ a → edges (connect_pruned max_m new a chosen kept g) new c ≡ e new c)
        × ((c : ℕ) → c ≢ a → edges (connect_pruned max_m new a chosen kept g) c new ≡ e c new)
  unfolding connect_pruned
  connect_pruned-Joined room chosen = elim (Bool-cases (chosen && ltb (length kept) max_m)) [
    | inl joined ↦
        let fits : length kept < max_m = ground (arith, ltb→lt (length kept) max_m) in
        rw joined (
          links_only-IsMutual max_m a (kept ++ new ∷ []) _ _ (mutual-Settles room fits),
          λ c h. ground (arith, s.elsewhere new c, count-append c (g new).links (a ∷ [])),
          λ c h. ground (
            arith,
            s.elsewhere c new h,
            s.loopless new,
            count-append new (g new).links (a ∷ []),
            s.elsewhere new new,
          ),
        )
    | inr one_way ↦ rw one_way (
      links_only-IsMutual max_m a kept _ _ (one_way-Settles room),
      λ c h. ground (arith, s.elsewhere new c, count-append c (g new).links (a ∷ [])),
      λ c h. ground (
        arith,
        s.elsewhere c new h,
        s.loopless new,
        count-append new (g new).links (a ∷ []),
        s.elsewhere new new,
      ),
    )
  ]

  -- the last step, under its test
  finish-Joined :
      (g0 : Layer) (chosen b : Bool)
      → ((u v : ℕ) → u ≢ a → e u v ≡ edges g0 u v)
      → (b ≡ true → length (g new).links < max_m)
      → Joined max_m new a g0
          (if b then connect_pruned max_m new a chosen kept g else links_only a kept g)
  finish-Joined g0 chosen true same room =
      let (sound, outgoing, ingoing) = connect_pruned-Joined (room refl) chosen in
      record {
        sound = sound;
        outgoing = λ c h. outgoing c h ∙ same new c (λ q. ne (sym q));
        ingoing = λ c h. ingoing c h ∙ same c new h;
      }
  finish-Joined g0 chosen false same room = record {
    sound = links_only-IsMutual max_m a kept e g s;
    outgoing = λ c h. ground (arith, s.elsewhere new c, same new c);
    ingoing = λ c h. ground (arith, s.elsewhere c new h, same c new h);
  }

connect_pruned-links :
    (max_m new a : ℕ) (chosen : Bool) (kept : List ℕ) (g : Layer)
    → a ≢ new
    → (connect_pruned max_m new a chosen kept g new).links ≡ (g new).links ++ a ∷ []
unfolding connect_pruned
connect_pruned-links max_m new a chosen kept g ne =
    rw (==_ne new a (λ q. ne (sym q))) (ground arith)

module _ (dist : ℕ → ℕ → ℕ) (sorter : Sorter) (deleted : ℕ → Bool) (max_m : ℕ) where
  revisit-Pruned :
      (to_update : List ℕ) (new a : ℕ) (g : Layer)
      → IsMutual max_m g
      → edges g a new ≡ 0
      → Pruned to_update a
          (g a).links
          []
          (edges g)
          g
          true
          (prune_links to_update new a (g a).links [] g true)
  revisit-Pruned to_update new a g m back =
      let xs = (g a).links in
      let self : has a xs ≡ false = ground (arith, has-count a xs, m.loopless a) in
      let fresh : has new xs ≡ false = ground (arith, has-count new xs) in
      prune_links-Pruned to_update new a xs [] (edges g) g true
        (λ v h. omega (arith, has-count v xs h, m.simple a v)) (λ v. m.simple v a) (m.simple a) self
        fresh m.tracked

  pub revisit-Joined :
      (new d a : ℕ) (g : Layer)
      → IsMutual max_m g
      → a ≢ new
      → edges g new a ≡ 0
      → edges g a new ≡ 0
      → Joined max_m new a g (revisit_neighbor_connections dist sorter deleted max_m new (d, a) g)
  unfolding revisit_neighbor_connections
  revisit-Joined new d a g m ne out back =
      let removed =
        (get_neighbors_by_heuristic2 dist sorter max_m
          (with_neighbors dist sorter deleted max_m new (d, a) g)).1 in
      let chosen = not (has new removed) in
      let to_update = a ∷ (if chosen then new ∷ removed else removed) in
      let xs = (g a).links in
      let r = prune_links to_update new a xs [] g true in
      let p = revisit-Pruned to_update new a g m back in
      let e = without a to_update xs (edges g) in
      let s : Settles max_m a r.0 e r.1 = record {
        simple = λ u v. ground (arith, m.simple u v);
        loopless = λ u. ground (arith, m.loopless u);
        here = λ v. ground (arith, p.counts v, not_has-count v xs);
        elsewhere = λ u v h. ground (arith, p.links u);
        bounded = λ u h. ground (arith, p.links u, m.bounded u);
        room = omega (arith, p.size, m.bounded a);
        tracked = p.tracked;
      } in
      let test =
        r.2 && ltb (length (r.1 new).links) max_m && not (deleted new) && not (deleted a) in
      finish-Joined max_m new a r.0 e r.1 s ne (ground (arith, out)) (ground (arith, back)) g chosen
        test (λ u v h. ground arith) (λ t. ground (arith, ltb→lt (length (r.1 new).links) max_m))

  -- the new node has a link to the neighbor then, where both are live and it has room
  pub revisit-links :
      (new d a : ℕ) (g : Layer)
      → IsMutual max_m g
      → a ≢ new
      → edges g a new ≡ 0
      → (deleted new || deleted a) ≡ false
      → length (g new).links < max_m
      → (revisit_neighbor_connections dist sorter deleted max_m new (d, a) g new).links
        ≡ (g new).links ++ a ∷ []
  unfolding revisit_neighbor_connections
  revisit-links new d a g m ne back alive room =
      let removed =
        (get_neighbors_by_heuristic2 dist sorter max_m
          (with_neighbors dist sorter deleted max_m new (d, a) g)).1 in
      let chosen = not (has new removed) in
      let to_update = a ∷ (if chosen then new ∷ removed else removed) in
      let r = prune_links to_update new a (g a).links [] g true in
      let p = revisit-Pruned to_update new a g m back in
      let test : (r.2 && ltb (length (r.1 new).links) max_m && not (deleted new) && not (deleted a))
          ≡ true =
        rw (p.required_still, p.links new) (ground arith) in
      rw test (
        connect_pruned-links max_m new a chosen r.0 r.1 ne
        ∙ ap (λ (l : List ℕ). l ++ a ∷ []) (p.links new))
