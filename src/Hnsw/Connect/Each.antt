-- ===== src/Hnsw/Connect/Each.antt =====
-- The loop of mutuallyConnectNewElement over the neighbors keeps a layer sound, and links the new node
-- to those that are live.
use mathlib.Core.List.{append_assoc, append-nil}
use vector_similarity.Base.{
  ℕ, ◌≤◌, ◌<◌, ◌≡◌, ◌≢◌, refl, Bool, false, [], ◌∷◌, arith, length, ◌==◌, ◌||◌, Bool-cases, inl,
  inr, length-append, ltb, ltb→lt, some, List, true, ◌+◌, ◌++◌, if◌then◌else◌, ap, sym, ◌∙◌, ==_ne,
}
use vector_similarity.Hnsw.Links.{append_link}
use vector_similarity.Hnsw.Counts.{count, count-append}
use vector_similarity.Hnsw.Layer.{Layer, put}
use vector_similarity.Hnsw.Tracked.{edges, with_edge, IsMutual, both_ways-Tracks}
use vector_similarity.Hnsw.Heuristic.{Candidates, ids, Sorter}
use vector_similarity.Hnsw.Connect.{revisit_neighbor_connections, connect_each}
use vector_similarity.Hnsw.Connect.Revisit.{Joined, revisit-Joined, revisit-links}

-- the candidates are distinct nodes that are not linked to the new one
pub record Fresh (new : ℕ) (cs : Candidates) (g : Layer) : Type 0 where
  pub distinct : (c : ℕ) → count c (ids cs) ≤ 1
  pub others : count new (ids cs) ≡ 0
  pub outgoing : (c : ℕ) → 0 < count c (ids cs) → edges g new c ≡ 0
  pub ingoing : (c : ℕ) → 0 < count c (ids cs) → edges g c new ≡ 0

-- the candidates that a new node is connected to: all that are not marked as deleted, unless it is
abbrev pub living : (ℕ → Bool) → Candidates → List ℕ
living deleted [] = []
living deleted (c ∷ cs) = if deleted c.1 then living deleted cs else c.1 ∷ living deleted cs

abbrev pub accepted : (ℕ → Bool) → ℕ → Candidates → List ℕ
accepted deleted new cs = if deleted new then [] else living deleted cs

-- an edge in both directions
abbrev joined : ℕ → ℕ → Layer → Layer
joined new a g = put a (append_link new (g a)) (put new (append_link a (g new)) g)

append-Joined :
    (max_m new a : ℕ) (g : Layer)
    → IsMutual max_m g
    → a ≢ new
    → edges g new a ≡ 0
    → edges g a new ≡ 0
    → length (g new).links < max_m
    → length (g a).links < max_m
    → Joined max_m new a g (joined new a g)
append-Joined max_m new a g m ne out back room fits =
    let t = both_ways-Tracks new a (edges g) g (λ q. ground (arith, ne)) out back m.tracked in
    let added : (u v : ℕ)
        → edges (joined new a g) u v ≡ with_edge a new 1 (with_edge new a 1 (edges g)) u v =
      λ u v.
        ground
          (arith, count-append v (g a).links (new ∷ []), count-append v (g new).links (a ∷ [])) in
    record {
      sound = record {
        simple = λ u v. ground (arith, added u v, m.simple u v);
        loopless = λ u. ground (arith, added u u, m.loopless u);
        bounded = λ u. ground (
          arith,
          m.bounded u,
          length-append (g a).links (new ∷ []),
          length-append (g new).links (a ∷ []),
        );
        tracked = λ u v. ground (arith, t u v, added u v, added v u);
      };
      outgoing = λ c h. ground (arith, added new c);
      ingoing = λ c h. ground (arith, added c new);
    }

joined-links :
    (new a : ℕ) (g : Layer) → a ≢ new → (joined new a g new).links ≡ (g new).links ++ a ∷ []
joined-links new a g ne = rw (==_ne a new ne) (ground arith)

Fresh-Joined :
    (max_m new d a : ℕ) (cs : Candidates) (g g' : Layer)
    → Fresh new ((d, a) ∷ cs) g
    → Joined max_m new a g g'
    → Fresh new cs g'
Fresh-Joined max_m new d a cs g g' f j =
    let apart : (c : ℕ) → 0 < count c (ids cs) → c ≢ a = λ c h q. ground (arith, f.distinct c) in
    record {
      distinct = λ c. omega (arith, f.distinct c);
      others = omega (arith, f.others);
      outgoing = λ c h. omega (arith, j.outgoing c (apart c h), f.outgoing c (omega arith));
      ingoing = λ c h. omega (arith, j.ingoing c (apart c h), f.ingoing c (omega arith));
    }

Fresh-skip :
    (new d a : ℕ) (cs : Candidates) (g : Layer) → Fresh new ((d, a) ∷ cs) g → Fresh new cs g
Fresh-skip new d a cs g f = record {
  distinct = λ c. omega (arith, f.distinct c);
  others = omega (arith, f.others);
  outgoing = λ c h. f.outgoing c (omega arith);
  ingoing = λ c h. f.ingoing c (omega arith);
}

module _ (dist : ℕ → ℕ → ℕ) (sorter : Sorter) (deleted : ℕ → Bool) (max_m : ℕ) where
  accepted-skip :
      (new d a : ℕ) (cs : Candidates)
      → (deleted new || deleted a) ≡ true
      → accepted deleted new ((d, a) ∷ cs) ≡ accepted deleted new cs
  accepted-skip new d a cs gone = ground (arith, gone)

  accepted-next :
      (new d a : ℕ) (cs : Candidates) (links links' links'' : List ℕ)
      → (deleted new || deleted a) ≡ false
      → links' ≡ links ++ a ∷ []
      → links'' ≡ links' ++ accepted deleted new cs
      → links'' ≡ links ++ accepted deleted new ((d, a) ∷ cs)
  accepted-next new d a cs links links' links'' alive e rest =
      let living_new : deleted new ≡ false = ground (arith, alive) in
      let living_a : deleted a ≡ false = ground (arith, alive) in
      let rest' : links'' ≡ links' ++ living deleted cs = rw living_new at rest in
      rw (living_new, living_a)
        (rest'
          ∙ ap (λ (l : List ℕ). l ++ living deleted cs) e
          ∙ append_assoc links (a ∷ []) (living deleted cs))

  -- a sound layer after the loop, in which the new node is linked to the candidates
  pub record Connects (new : ℕ) (cs : Candidates) (g : Layer) : Type 0 where
    pub after : Layer
    pub result : connect_each dist sorter deleted max_m new cs g ≡ some after
    pub sound : IsMutual max_m after
    pub linked :
        length (g new).links + length cs ≤ max_m
        → (after new).links ≡ (g new).links ++ accepted deleted new cs

  -- a candidate that the new node is linked to
  Connects-next :
      (new d a : ℕ) (cs : Candidates) (g g1 : Layer)
      → (deleted new || deleted a) ≡ false
      → (g1 new).links ≡ (g new).links ++ a ∷ []
      → connect_each dist sorter deleted max_m new ((d, a) ∷ cs) g
        ≡ connect_each dist sorter deleted max_m new cs g1
      → Connects new cs g1
      → Connects new ((d, a) ∷ cs) g
  Connects-next new d a cs g g1 alive e step c = record {
    after = c.after;
    result = step ∙ c.result;
    sound = c.sound;
    linked = λ fits.
        accepted-next new d a cs (g new).links (g1 new).links (c.after new).links alive e
          (c.linked (omega (arith, fits, ap length e, length-append (g new).links (a ∷ []))));
  }

  pub connect_each-Connects :
      (new : ℕ) (cs : Candidates) (g : Layer)
      → IsMutual max_m g
      → Fresh new cs g
      → Connects new cs g
  unfolding connect_each
  connect_each-Connects new [] g m f = record {
    after = g;
    result = refl;
    sound = m;
    linked = λ fits. ground (arith, append-nil (g new).links);
  }
  connect_each-Connects new ((d, a) ∷ cs) g m f =
      let ne : a ≢ new = λ q. ground (arith, f.others) in
      let here : 0 < count a (ids ((d, a) ∷ cs)) = ground arith in
      let out = f.outgoing a here in
      let back = f.ingoing a here in
      let fits : ltb max_m (length (g new).links) ≡ false = ground (arith, m.bounded new) in
      let apart : (a == new) ≡ false = ground (arith, ne) in
      elim (Bool-cases (length (g new).links == max_m)) [
        | inl full ↦ record {
          after = g;
          result = rw (fits, apart, full) refl;
          sound = m;
          linked = λ few. absurd (ground (arith, full, few));
        }
        | inr space ↦
            let room : length (g new).links < max_m = ground (arith, m.bounded new) in
            elim (Bool-cases (deleted new || deleted a)) [
              | inl gone ↦
                  let c = connect_each-Connects new cs g m (Fresh-skip new d a cs g f) in
                  record {
                    after = c.after;
                    result = rw (fits, apart, space, gone) c.result;
                    sound = c.sound;
                    linked = λ few.
                        c.linked (omega (arith, few))
                        ∙ ap (λ (l : List ℕ). (g new).links ++ l)
                            (sym (accepted-skip new d a cs gone));
                  }
              | inr alive ↦ elim (Bool-cases (ltb (length (g a).links) max_m)) [
                | inl some_left ↦
                    let j =
                      append-Joined max_m new a g m ne out back room
                        (ltb→lt (length (g a).links) max_m some_left) in
                    Connects-next new d a cs g (joined new a g) alive (joined-links new a g ne)
                      (rw (fits, apart, space, alive, some_left) refl)
                      (connect_each-Connects new cs (joined new a g) j.sound
                        (Fresh-Joined max_m new d a cs g _ f j))
                | inr none_left ↦
                    let j = revisit-Joined dist sorter deleted max_m new d a g m ne out back in
                    let g1 = revisit_neighbor_connections dist sorter deleted max_m new (d, a) g in
                    Connects-next new d a cs g g1 alive
                      (revisit-links dist sorter deleted max_m new d a g m ne back alive room)
                      (rw (fits, apart, space, alive, none_left) refl)
                      (connect_each-Connects new cs g1 j.sound
                        (Fresh-Joined max_m new d a cs g _ f j))
              ]
            ]
      ]
