-- ===== src/Hnsw/Insertion/Way.antt =====
-- The two loops of insertElementToGraph, the way down to the common levels and the one over these.
use vector_similarity.Base.{
  ℕ, zero, suc, false, ◌==◌, if◌then◌else◌, ==_self, ==_ne, sym, ap, ◌+◌, ◌-◌, ◌≤◌, ◌<◌, ◌≡◌, refl,
  subst, ◌∙◌, some, length, arith, inl, inr, eq_cases,
}
use vector_similarity.Hnsw.Tracked.{IsMutual}
use vector_similarity.Hnsw.Visited.{Handler}
use vector_similarity.Hnsw.Visited.Fresh.{IsHandler}
use vector_similarity.Hnsw.Search.{greedy_search_level}
use vector_similarity.Hnsw.Search.Answer.{search_layer-Answer}
use vector_similarity.Hnsw.Search.Keeps.{IsClosed, greedy_search_level-keeps}
use vector_similarity.Hnsw.Insertion.{Insertion, Levels, connect_levels, descend, max_links}
use vector_similarity.Hnsw.Insertion.Level.{IsReady, IsOther, Linked, connected-Level}

-- the last of some values is put before the others
abbrev put_at : ℕ → ℕ → (ℕ → ℕ) → ℕ → ℕ
put_at i a f l = if l == i then a else f l

put_at-here : (i a : ℕ) (f : ℕ → ℕ) → put_at i a f i ≡ a
put_at-here i a f = rw (==_self i) refl

put_at-before : (i a : ℕ) (f : ℕ → ℕ) (l : ℕ) → l < i → put_at i a f l ≡ f l
put_at-before i a f l less = rw (==_ne l i (λ e. omega (arith, less, e))) refl

-- One search after the other on the way down, from `level` to the level above `last`: each starts
-- where the one above ended, with the distance that it ended with.
abbrev pub IsWay : Insertion → Levels → ℕ → ℕ → (ℕ → ℕ) → (ℕ → ℕ) → Type 0
IsWay x gs last level entry dist =
    (l : ℕ)
    → last < l
    → l ≤ level
    → greedy_search_level x.query x.deleted x.in_process (gs l) false (λ i. false) (entry (suc l))
        (dist (suc l))
      ≡ some (some (entry l, dist l))

-- the descent, which ends at a node to which links lead
pub record Descent (x : Insertion) (P : ℕ → Type 0) (last level curr cur_dist rounds : ℕ)
    (gs : Levels) : Type 0 where
  pub entry : ℕ → ℕ
  pub dist : ℕ → ℕ
  pub result : descend x rounds level gs curr cur_dist ≡ some (entry (suc last))
  pub first : (entry (suc level) ≡ curr) × (dist (suc level) ≡ cur_dist)
  pub way : IsWay x gs last level entry dist
  pub at_end : P (entry (suc last))

pub descend-Descent :
    (x : Insertion) (P : ℕ → Type 0) (rounds last level curr cur_dist : ℕ) (gs : Levels)
    → level ≡ rounds + last
    → ((l : ℕ) → IsClosed P (gs l))
    → P curr
    → Descent x P last level curr cur_dist rounds gs
unfolding descend
descend-Descent x P zero last level curr cur_dist gs e closed p = record {
  entry = λ l. curr;
  dist = λ l. cur_dist;
  result = refl;
  first = (refl, refl);
  way = λ l low high. absurd (omega (arith, e, low, high));
  at_end = p;
}
descend-Descent x P (suc rounds) last level curr cur_dist gs e closed p =
    let (next, next_dist, done, p') =
      greedy_search_level-keeps x.query x.deleted x.in_process P (gs level) curr cur_dist
        (closed level) p in
    let below : suc (level - 1) ≡ level = omega (arith, e) in
    let d =
      descend-Descent x P rounds last (level - 1) next next_dist gs (omega (arith, e)) closed p' in
    let entry = put_at (suc level) curr d.entry in
    let dist = put_at (suc level) cur_dist d.dist in
    let kept =
      λ (l : ℕ) (k : l ≤ level). put_at-before (suc level) curr d.entry l (omega (arith, k)) in
    let kept_dist =
      λ (l : ℕ) (k : l ≤ level). put_at-before (suc level) cur_dist d.dist l (omega (arith, k)) in
    let above = put_at-here (suc level) curr d.entry in
    let above_dist = put_at-here (suc level) cur_dist d.dist in
    let from_next : (d.entry level ≡ next) × (d.dist level ≡ next_dist) =
      (ap d.entry (sym below) ∙ d.first.0, ap d.dist (sym below) ∙ d.first.1) in
    record {
      entry = entry;
      dist = dist;
      result = rw (done, kept (suc last) (omega (arith, e))) d.result;
      first = (above, above_dist);
      way = λ l low high. elim (eq_cases l level) [
        | inl same ↦
            rw
              (
                same,
                above,
                above_dist,
                kept level (omega arith),
                kept_dist level (omega arith),
                from_next.0,
                from_next.1,
              )
              done
        | inr other ↦
            let less : suc l ≤ level = omega (arith, high, other) in
            rw (kept (suc l) less, kept_dist (suc l) less, kept l high, kept_dist l high)
              (d.way l low (omega (arith, less)))
      ];
      at_end = subst P (sym (kept (suc last) (omega (arith, e)))) d.at_end;
    }

module _ (x : Insertion) (n new : ℕ) (pos : 0 < x.m) (narrow : x.m ≤ x.m0)
    (wide : 0 < x.ef_construction) where
  -- what the loop over the common levels leaves
  pub record Connected (rounds curr : ℕ) (gs gs' : Levels) (handler : Handler) : Type 0 where
    pub entry : ℕ → ℕ
    pub first : entry rounds ≡ curr
    pub sound : (l : ℕ) → l < rounds → IsMutual (max_links x l) (gs' l)
    pub above : (l : ℕ) → rounds ≤ l → gs' l ≡ gs l
    pub linked : (l : ℕ) → l < rounds → Linked x new (entry (suc l)) (entry l) (gs l) (gs' l)
    pub handler_sound : IsHandler handler
    pub size : length handler.elements_tags ≡ n

  pub connect_levels-Connected :
      (rounds curr : ℕ) (gs : Levels) (handler : Handler)
      → ((l : ℕ) → l < rounds → IsReady (max_links x l) n new (gs l))
      → IsOther n new curr
      → IsHandler handler
      → length handler.elements_tags ≡ n
      → (gs' : Levels) × (after : Handler) × (connect_levels x new rounds curr gs handler
          ≡ some (gs', after))
        × Connected rounds curr gs gs' after
  unfolding connect_levels
  connect_levels-Connected zero curr gs handler ready p h size = (
    gs,
    handler,
    refl,
    record {
      entry = λ l. curr;
      first = refl;
      sound = λ l k. elim k [ ];
      above = λ l k. refl;
      linked = λ l k. elim k [ ];
      handler_sound = h;
      size = size;
    },
  )
  connect_levels-Connected (suc level) curr gs handler ready p h size =
      let r = ready level (omega arith) in
      let (top, after, searched, a) =
        search_layer-Answer x.query x.deleted x.in_process x.ef_construction curr (gs level)
          x.max_score handler (λ u v k. omega (arith, r.inside u v k, size)) h
          (omega (arith, p.0, size)) wide in
      let v =
        connected-Level x n new pos narrow wide level curr gs handler after top r p size searched
          a in
      let (gs', last, done, c) =
        connect_levels-Connected level v.next v.gs1 v.after
          (λ l k. rw (v.kept l (omega arith)) (ready l (omega arith))) v.other v.handler_sound
          v.size in
      let kept =
        λ (l : ℕ) (k : l ≤ level). put_at-before (suc level) curr c.entry l (omega (arith, k)) in
      let above = put_at-here (suc level) curr c.entry in
      (
        gs',
        last,
        v.run ∙ done,
        record {
          entry = put_at (suc level) curr c.entry;
          first = above;
          sound = λ l k. elim (eq_cases l level) [
            | inl same ↦ rw (same, c.above level (omega arith)) v.sound
            | inr other ↦ c.sound l (omega arith)
          ];
          linked = λ l k. elim (eq_cases l level) [
            | inl same ↦
                rw (same, above, kept level (omega arith), c.first, c.above level (omega arith))
                  v.linked
            | inr other ↦
                rw (kept (suc l) (omega (arith, k, other)), kept l (omega (arith, k)))
                  (subst (λ g. Linked x new (c.entry (suc l)) (c.entry l) g (gs' l))
                    (v.kept l other) (c.linked l (omega arith)))
          ];
          above = λ l k. c.above l (omega arith) ∙ v.kept l (omega arith);
          handler_sound = c.handler_sound;
          size = c.size;
        },
      )
