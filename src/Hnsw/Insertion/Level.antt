-- ===== src/Hnsw/Insertion/Level.antt =====
-- One round of the loop of insertElementToGraph over the common levels: the level stays sound, and the
-- new element is linked in it.
use vector_similarity.Base.{
  ℕ, zero, suc, Perm, length-perm, ◌≤◌, ◌<◌, ◌≡◌, ◌≢◌, refl, ap, ◌∙◌, Bool, true, List, [], ◌∷◌,
  some, length, arith, inl, inr, ==_ne, ==_self, eq_cases, sym,
}
use vector_similarity.Query.Heap.{max_priority_queue}
use vector_similarity.Hnsw.Links.{has}
use vector_similarity.Hnsw.Counts.{count, has-count}
use vector_similarity.Hnsw.Layer.{Layer}
use vector_similarity.Hnsw.Tracked.{IsMutual, edges}
use vector_similarity.Hnsw.Heuristic.{ids, Sorter}
use vector_similarity.Hnsw.Heuristic.Least.{scored-perm}
use vector_similarity.Hnsw.Heuristic.Choice.{count-get_neighbors, count-perm}
use vector_similarity.Hnsw.Connect.Each.{Fresh, accepted}
use vector_similarity.Hnsw.Connect.Insert.{mutually_connect-Connection}
use vector_similarity.Hnsw.Heuristic.{get_neighbors_by_heuristic2}
use vector_similarity.Hnsw.Visited.{Handler}
use vector_similarity.Hnsw.Visited.Fresh.{IsHandler}
use vector_similarity.Hnsw.Search.{search_layer}
use vector_similarity.Hnsw.Search.Reach.{Reach}
use vector_similarity.Hnsw.Search.Answer.{Answer}
use vector_similarity.Hnsw.Search.Keeps.{IsClosed}
use vector_similarity.Hnsw.Insertion.{Insertion, Levels, connect_levels, max_links, put_level}

Reach-IsClosed :
    (P : ℕ → Type 0) (g : Layer) (in_process : ℕ → Bool) (ep : ℕ)
    → IsClosed P g
    → P ep
    → (v : ℕ) → Reach g in_process ep v
    → P v
Reach-IsClosed P g in_process ep closed p _ Reach.entry = p
Reach-IsClosed P g in_process ep closed p _ (Reach.follow u v r l i) =
    closed u v (Reach-IsClosed P g in_process ep closed p u r) l

-- a level of an index of `n` nodes, in which the node `new` is not linked yet
pub record IsReady (max_m n new : ℕ) (g : Layer) : Type 0 where
  pub sound : IsMutual max_m g
  pub blank : (g new).links ≡ []
  pub unlinked : (u : ℕ) → edges g u new ≡ 0
  pub inside : (u v : ℕ) → has v (g u).links ≡ true → v < n

-- a node that is not the new one
abbrev pub IsOther : ℕ → ℕ → ℕ → Type 0
IsOther n new c = (c < n) × (c ≢ new)

pub IsOther-IsClosed :
    (max_m n new : ℕ) (g : Layer) → IsReady max_m n new g → IsClosed (IsOther n new) g
IsOther-IsClosed max_m n new g r u c p h = (
  r.inside u c h,
  λ e.
      absurd
        (omega (arith, has-count c (g u).links h, ap (λ k. count k (g u).links) e, r.unlinked u)),
)

-- the maximum of links of a node: `M0` on level 0, and `M` on the others
abbrev pub bound : Insertion → ℕ → ℕ
bound x zero = x.m0
bound x (suc l) = x.m

pub max_links_lem : (x : Insertion) (l : ℕ) → max_links x l ≡ bound x l
max_links_lem x zero = refl
max_links_lem x (suc l) = ground arith

-- where the search of the next level starts: at a closest result, or where there are none at the
-- same node again
abbrev pub IsNext : (ℕ → ℕ) → ℕ → List (ℕ × ℕ) → ℕ → Type 0
IsNext query curr [] next = next ≡ curr
IsNext query curr (c ∷ cs) next =
    (0 < count next (ids (c ∷ cs))) × ((v : ℕ) → 0 < count v (ids (c ∷ cs)) → query next ≤ query v)

-- The search of the level from `curr`, with some state of the visited nodes, finds `top`. The node
-- `new` is linked to the neighbors that the heuristic chooses among these, but for those marked as
-- deleted, and to none if it is marked itself. The next level starts at `next`.
pub record Linked (x : Insertion) (new curr next : ℕ) (g g' : Layer) : Type 0 where
  pub top : List (ℕ × ℕ)
  pub before : Handler
  pub after : Handler
  pub searched :
      search_layer max_priority_queue
        (λ j. j)
        x.query
        x.deleted
        x.in_process
        x.ef_construction
        x.max_score
        g
        curr
        before
      ≡ some (top, after)
  pub answer : Answer x.query x.deleted x.in_process x.ef_construction curr g before top after
  pub links :
      (g' new).links
      ≡ accepted x.deleted new
          (get_neighbors_by_heuristic2 x.dist x.sorter x.m (x.heap_order top)).0
  pub goes_on : IsNext x.query curr top next

-- the heuristic chooses none among no candidates
accepted-none :
    (dist : ℕ → ℕ → ℕ) (sorter : Sorter) (deleted : ℕ → Bool) (new m : ℕ) (cs : List (ℕ × ℕ))
    → Perm cs []
    → accepted deleted new (get_neighbors_by_heuristic2 dist sorter m cs).0 ≡ []
accepted-none dist sorter deleted new m cs empty =
    none_of (get_neighbors_by_heuristic2 dist sorter m cs).0
      (λ c. omega (arith, count-get_neighbors dist sorter c m cs, count-perm c cs [] empty))
  where
    none_of : (cs : List (ℕ × ℕ)) → ((c : ℕ) → count c (ids cs) ≡ 0) → accepted deleted new cs ≡ []
    none_of [] h = ground arith
    none_of (c ∷ cs) h = absurd (ground (arith, h c.1))

-- the candidates in another order
Fresh-perm :
    (new : ℕ) (cs ds : List (ℕ × ℕ)) (g : Layer) → Perm cs ds → Fresh new ds g → Fresh new cs g
Fresh-perm new cs ds g p f =
    let same = λ (c : ℕ). count-perm c cs ds p in
    record {
      distinct = λ c. omega (arith, f.distinct c, same c);
      others = omega (arith, f.others, same new);
      outgoing = λ c h. f.outgoing c (omega (arith, h, same c));
      ingoing = λ c h. f.ingoing c (omega (arith, h, same c));
    }

module _ (x : Insertion) (n new : ℕ) (pos : 0 < x.m) (narrow : x.m ≤ x.m0)
    (wide : 0 < x.ef_construction) where
  -- the candidates that a search returns can be connected to the new node
  Answer-Fresh :
      (max_m curr : ℕ) (g : Layer) (before after : Handler) (top : List (ℕ × ℕ))
      → IsReady max_m n new g
      → IsOther n new curr
      → Answer x.query x.deleted x.in_process x.ef_construction curr g before top after
      → Fresh new top g × ((c : ℕ) → 0 < count c (ids top) → IsOther n new c)
  Answer-Fresh max_m curr g before after top r p a =
      let other : (c : ℕ) → 0 < count c (ids top) → IsOther n new c = λ c h.
        Reach-IsClosed (IsOther n new) g x.in_process curr (IsOther-IsClosed max_m n new g r) p c
          (a.reached c h) in
      let not_new : count new (ids top) ≡ 0 = elim (eq_cases (count new (ids top)) 0) [
        | inl e ↦ e
        | inr some_there ↦ absurd ((other new (omega arith)).1 refl)
      ] in
      (
        record {
          distinct = a.distinct;
          others = not_new;
          outgoing = λ c h. ap (λ (d : List ℕ). count c d) r.blank;
          ingoing = λ c h. r.unlinked c;
        },
        other,
      )

  -- one level: the run goes on from the next candidate, with the levels `gs1`
  pub record Level (level curr : ℕ) (gs : Levels) (handler : Handler) : Type 0 where
    pub next : ℕ
    pub gs1 : Levels
    pub after : Handler
    pub run :
        connect_levels x new (suc level) curr gs handler ≡ connect_levels x new level next gs1 after
    pub other : IsOther n new next
    pub sound : IsMutual (max_links x level) (gs1 level)
    pub kept : (l : ℕ) → l ≢ level → gs1 l ≡ gs l
    pub linked : Linked x new curr next (gs level) (gs1 level)
    pub handler_sound : IsHandler after
    pub size : length after.elements_tags ≡ n

  narrow_at : (level : ℕ) → x.m ≤ max_links x level
  narrow_at level = ground (arith, narrow)

  pub connected-Level :
      (level curr : ℕ) (gs : Levels) (handler after : Handler) (top : List (ℕ × ℕ))
      → IsReady (max_links x level) n new (gs level)
      → IsOther n new curr
      → length handler.elements_tags ≡ n
      → search_layer max_priority_queue
          (λ j. j)
          x.query
          x.deleted
          x.in_process
          x.ef_construction
          x.max_score
          (gs level)
          curr
          handler
        ≡ some (top, after)
      → Answer x.query x.deleted x.in_process x.ef_construction curr (gs level) handler top after
      → Level level curr gs handler
  unfolding connect_levels
  connected-Level level curr gs handler after [] r p size searched a = record {
    next = curr;
    gs1 = gs;
    after = after;
    run = rw searched refl;
    other = p;
    sound = r.sound;
    kept = λ l h. refl;
    linked = record {
      top = [];
      before = handler;
      after = after;
      searched = searched;
      answer = a;
      links =
          r.blank
          ∙ sym (
              accepted-none x.dist x.sorter x.deleted new x.m (x.heap_order [])
                (x.heap_order-perm []));
      goes_on = refl;
    };
    handler_sound = a.handler;
    size = a.size ∙ size;
  }
  connected-Level level curr gs handler after (c ∷ cs) r p size searched a =
      let (f, others) =
        Answer-Fresh (max_links x level) curr (gs level) handler after (c ∷ cs) r p a in
      let p1 = x.heap_order-perm (c ∷ cs) in
      let v =
        mutually_connect-Connection x.dist x.sorter x.deleted (max_links x level) x.m new
          (x.heap_order (c ∷ cs)) (gs level) pos (omega (arith, length-perm p1)) r.sound r.blank
          (Fresh-perm new (x.heap_order (c ∷ cs)) (c ∷ cs) (gs level) p1 f) in
      let same = λ (u : ℕ). count-perm u (x.heap_order (c ∷ cs)) (c ∷ cs) p1 in
      let here : 0 < count v.closest (ids (c ∷ cs)) = omega (arith, v.candidate, same v.closest) in
      record {
        next = v.closest;
        gs1 = put_level level v.after gs;
        after = after;
        run = rw (searched, v.result) refl;
        other = others v.closest here;
        sound = rw (==_self level) v.sound;
        kept = λ l h. rw (==_ne level l (λ e. h (sym e))) refl;
        linked = record {
          top = c ∷ cs;
          before = handler;
          after = after;
          searched = searched;
          answer = a;
          links = rw (==_self level) (v.linked (narrow_at level));
          goes_on = (
            here,
            λ u k.
                v.nearest x.query (scored-perm x.query (x.heap_order (c ∷ cs)) (c ∷ cs) p1 a.scored)
                  u (omega (arith, k, same u)),
          );
        };
        handler_sound = a.handler;
        size = a.size ∙ size;
      }
