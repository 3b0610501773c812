-- ===== src/Hnsw/Insertion/Sound.antt =====
-- Inserting an element keeps every level sound and links the element on the common levels.
use vector_similarity.Base.{
  ℕ, suc, if◌then◌else◌, sym, ◌-◌, ◌≤◌, ◌<◌, ◌≡◌, ◌≢◌, refl, subst, ◌∙◌, some, length, ltb, arith,
  Bool-cases, inl, inr, eq_cases, ltb→lt, ltb→le, min,
}
use vector_similarity.Hnsw.Tracked.{IsMutual}
use vector_similarity.Hnsw.Visited.{Handler}
use vector_similarity.Hnsw.Visited.Fresh.{IsHandler}
use vector_similarity.Hnsw.Insertion.{Insertion, Levels, insert_element_to_graph, max_links}
use vector_similarity.Hnsw.Insertion.Level.{IsReady, IsOther, IsOther-IsClosed, Linked}
use vector_similarity.Hnsw.Insertion.Level.{bound, max_links_lem}
use vector_similarity.Hnsw.Insertion.Way.{
  IsWay, Descent, descend-Descent, Connected, connect_levels-Connected,
}

-- `low` up to the level `last`, and `high` above it
abbrev joined_at : ℕ → (ℕ → ℕ) → (ℕ → ℕ) → ℕ → ℕ
joined_at last low high l = if ltb last l then high l else low l

joined_at-low : (last : ℕ) (low high : ℕ → ℕ) (l : ℕ) → l ≤ last → joined_at last low high l ≡ low l
joined_at-low last low high l less = ground (arith, less)

joined_at-high :
    (last : ℕ) (low high : ℕ → ℕ) (l : ℕ) → last < l → joined_at last low high l ≡ high l
joined_at-high last low high l more = ground (arith, more)

-- where both agree
joined_at-next :
    (last : ℕ) (low high : ℕ → ℕ) (l : ℕ)
    → high (suc last) ≡ low (suc last)
    → l ≤ last
    → joined_at last low high (suc l) ≡ low (suc l)
joined_at-next last low high l agree less = elim (eq_cases l last) [
  | inl same ↦ rw same (joined_at-high last low high (suc last) (omega arith) ∙ agree)
  | inr other ↦ joined_at-low last low high (suc l) (omega (arith, less, other))
]

-- The levels after an insertion: `entry (suc l)` is the node that the search of level `l` starts
-- from, and `entry l` the one that it goes on with, from the entry point on down. Above the
-- element's highest level it is a greedy search, and on the common levels the one that the links
-- of the element come from.
pub record Inserted (x : Insertion) (new element_max_level entry_point global_max_level : ℕ)
    (gs gs' : Levels) : Type 0 where
  pub entry : ℕ → ℕ
  pub dist : ℕ → ℕ
  pub first :
      (entry (suc global_max_level) ≡ entry_point)
      × (dist (suc global_max_level) ≡ x.query entry_point)
  pub way : IsWay x gs element_max_level global_max_level entry dist
  pub linked :
      (l : ℕ)
      → l ≤ min element_max_level global_max_level
      → Linked x new (entry (suc l)) (entry l) (gs l) (gs' l)
  pub above : (l : ℕ) → min element_max_level global_max_level < l → gs' l ≡ gs l
  pub sound : (l : ℕ) → IsMutual (bound x l) (gs' l)

module _ (x : Insertion) (n new : ℕ) (pos : 0 < x.m) (narrow : x.m ≤ x.m0)
    (wide : 0 < x.ef_construction) where
  all_sound :
      (rounds curr : ℕ) (gs gs' : Levels) (after : Handler)
      → ((l : ℕ) → IsReady (bound x l) n new (gs l))
      → Connected x n new pos narrow wide rounds curr gs gs' after
      → (l : ℕ) → IsMutual (bound x l) (gs' l)
  all_sound rounds curr gs gs' after ready c l = elim (Bool-cases (ltb l rounds)) [
    | inl low ↦
        subst (λ m. IsMutual m (gs' l)) (max_links_lem x l) (c.sound l (ltb→lt l rounds low))
    | inr high ↦ rw (c.above l (ltb→le l rounds high)) (ready l).sound
  ]

  -- the element's highest level is lower than the graph's
  lower-Inserted :
      (element_max_level entry_point global_max_level : ℕ) (gs gs' : Levels) (after : Handler)
      → element_max_level < global_max_level
      → ((l : ℕ) → IsReady (bound x l) n new (gs l))
      → (d : Descent x
          (IsOther n new)
          element_max_level
          global_max_level
          entry_point
          (x.query entry_point)
          (global_max_level - element_max_level)
          gs)
      → Connected x n new pos narrow wide
          (suc element_max_level)
          (d.entry (suc element_max_level))
          gs
          gs'
          after
      → Inserted x new element_max_level entry_point global_max_level gs gs'
  lower-Inserted e ep top gs gs' after lower ready d c =
      let entry = joined_at e c.entry d.entry in
      let high = joined_at-high e c.entry d.entry in
      record {
        entry = entry;
        dist = d.dist;
        first = (high (suc top) (omega (arith, lower)) ∙ d.first.0, d.first.1);
        way = λ l low most. rw (high l low, high (suc l) (omega (arith, low))) (d.way l low most);
        linked = λ l k.
            let less : l ≤ e = ground (arith, k, lower) in
            rw
              (
                joined_at-low e c.entry d.entry l less,
                joined_at-next e c.entry d.entry l (sym c.first) less,
              )
              (c.linked l (omega (arith, less)));
        above = λ l k. c.above l (ground (arith, k, lower));
        sound = all_sound (suc e) (d.entry (suc e)) gs gs' after ready c;
      }

  higher-Inserted :
      (element_max_level entry_point global_max_level : ℕ) (gs gs' : Levels) (after : Handler)
      → global_max_level ≤ element_max_level
      → ((l : ℕ) → IsReady (bound x l) n new (gs l))
      → Connected x n new pos narrow wide (suc global_max_level) entry_point gs gs' after
      → Inserted x new element_max_level entry_point global_max_level gs gs'
  higher-Inserted e ep top gs gs' after higher ready c = record {
    entry = c.entry;
    dist = λ l. x.query ep;
    first = (c.first, refl);
    way = λ l low most. absurd (omega (arith, low, most, higher));
    linked = λ l k. c.linked l (ground (arith, k, higher));
    above = λ l k. c.above l (ground (arith, k, higher));
    sound = all_sound (suc top) ep gs gs' after ready c;
  }

  -- In a graph of `n` nodes whose levels are all sound, with at most `M0` links of a node on level 0
  -- and at most `M` on the others, and in which the new node has no links in either direction, with
  -- `M` and efConstruction positive and `M` at most `M0`, inserting the node from an entry point that
  -- is another one succeeds. All levels are sound again, under the same bounds, and those above the
  -- lower one of the element's highest level and the graph's are as they were. From the entry point,
  -- a greedy search of each level above the element's highest starts where the one before ended. So
  -- does a search of each level below, which ends at a closest of its results, or where it started
  -- if it has none; the node is linked to the neighbors that the heuristic chooses among the results,
  -- but for those marked as deleted, and to none if it is marked itself. The handler of the visited
  -- nodes stays sound.
  pub insert_element_to_graph-Sound :
      (element_max_level entry_point global_max_level : ℕ) (gs : Levels) (handler : Handler)
      → ((l : ℕ) → IsReady (bound x l) n new (gs l))
      → entry_point < n
      → entry_point ≢ new
      → IsHandler handler
      → length handler.elements_tags ≡ n
      → (gs' : Levels) × (after : Handler) × (insert_element_to_graph x new element_max_level
            entry_point global_max_level gs handler
          ≡ some (gs', after))
        × Inserted x new element_max_level entry_point global_max_level gs gs'
        × IsHandler after
  unfolding insert_element_to_graph
  insert_element_to_graph-Sound e ep top gs handler ready inside apart h size =
      let ready' : (l : ℕ) → IsReady (max_links x l) n new (gs l) =
        λ l. subst (λ m. IsReady m n new (gs l)) (sym (max_links_lem x l)) (ready l) in
      elim (Bool-cases (ltb e top)) [
        | inl lower ↦
            let less : e < top = ground (arith, lower) in
            let d =
              descend-Descent x (IsOther n new) (top - e) e top ep (x.query ep) gs
                (omega (arith, less))
                (λ l. IsOther-IsClosed (max_links x l) n new (gs l) (ready' l)) (inside, apart) in
            let (gs', after, done, c) =
              connect_levels-Connected x n new pos narrow wide (suc e) (d.entry (suc e)) gs handler
                (λ l k. ready' l) d.at_end h size in
            (
              gs',
              after,
              rw (lower, d.result) done,
              lower-Inserted e ep top gs gs' after less ready d c,
              c.handler_sound,
            )
        | inr higher ↦
            let (gs', after, done, c) =
              connect_levels-Connected x n new pos narrow wide (suc top) ep gs handler
                (λ l k. ready' l) (inside, apart) h size in
            (
              gs',
              after,
              rw higher done,
              higher-Inserted e ep top gs gs' after (ground (arith, higher)) ready c,
              c.handler_sound,
            )
      ]
