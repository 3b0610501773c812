-- ===== src/Hnsw/Entry/Highest.antt =====
-- The new entry point is a live element of the highest level.
use vector_similarity.Base.{
  ℕ, zero, suc, ◌+◌, ◌-◌, ◌≤◌, ◌≡◌, ◌≢◌, refl, ap, ◌∙◌, Bool, true, false, not, ◌&&◌, List, [], ◌∷◌,
  Option, some, none, ◌==◌, get_elem?, arith, Bool-cases, inl, inr,
}
use vector_similarity.Hnsw.Links.{has}
use vector_similarity.Hnsw.Entry.{
  Found, ready, waiting, scan_links, first_of, scan_elements, entry_at, replace_entry_point,
}

module _ (deleted in_process : ℕ → Bool) where
  -- every element that is found satisfies `P`, and where there is none, no element satisfies `Q`
  abbrev Finds : (ℕ → Type 0) → Type 0 → Found → Type 0
  Finds P nobody (ready x) = P x
  Finds P nobody (waiting none) = nobody
  Finds P nobody (waiting (some x)) = P x

  abbrev Is : (ℕ → Type 0) → Option ℕ → Type 0
  Is P none = Unit
  Is P (some x) = P x

  scan_links-Finds :
      (P : ℕ → Type 0) (xs : List ℕ) (candidate : Option ℕ)
      → ((x : ℕ) → has x xs ≡ true → deleted x ≡ false → P x)
      → Is P candidate
      → Finds P Unit (scan_links deleted in_process xs candidate)
  unfolding scan_links
  scan_links-Finds P [] none good is = tt
  scan_links-Finds P [] (some c) good is = is
  scan_links-Finds P (x ∷ xs) candidate good is =
      let later : (y : ℕ) → has y xs ≡ true → deleted y ≡ false → P y =
        λ y h a. good y (ground (arith, h)) a in
      elim (Bool-cases (deleted x)) [
        | inl gone ↦ rw gone (scan_links-Finds P xs candidate later is)
        | inr alive ↦
            let here = good x (ground arith) alive in
            elim (Bool-cases (in_process x)) [
              | inl busy ↦ rw (alive, busy) (scan_links-Finds P xs (some x) later here)
              | inr free ↦ rw (alive, free) here
            ]
      ]

  -- a live element other than the old entry point, with its top level
  abbrev pub IsLive : ℕ → List ℕ → ℕ → ℕ → Type 0
  IsLive old tops x top = (get_elem? tops x ≡ some top) × (x ≢ old) × (deleted x ≡ false)

  Finds-map : (P : ℕ → Type 0) (N M : Type 0) (r : Found) → (N → M) → Finds P N r → Finds P M r
  Finds-map P N M (ready x) f h = h
  Finds-map P N M (waiting none) f h = f h
  Finds-map P N M (waiting (some x)) f h = h

  first_of-filled :
      (candidate : Option ℕ) (x : ℕ) → ¬ (first_of deleted in_process candidate x ≡ none)
  first_of-filled none x e = cc
  first_of-filled (some c) x e = cc

  Is-first_of :
      (P : ℕ → Type 0) (candidate : Option ℕ) (x : ℕ)
      → Is P candidate
      → P x
      → Is P (first_of deleted in_process candidate x)
  Is-first_of P none x is p = p
  Is-first_of P (some c) x is p = is

  module _ (old level : ℕ) (all : List ℕ) where
    -- no candidate so far, and no live element of the level from `cur` on
    abbrev Nobody : ℕ → Option ℕ → Type 0
    Nobody cur candidate = (candidate ≡ none) × ((x : ℕ) → cur ≤ x → ¬ (IsLive old all x level))

    scan_elements-Finds :
        (cur : ℕ) (tops : List ℕ) (candidate : Option ℕ)
        → ((j : ℕ) → get_elem? all (cur + j) ≡ get_elem? tops j)
        → Is (λ x. IsLive old all x level) candidate
        → Finds
            (λ x. IsLive old all x level)
            (Nobody cur candidate)
            (scan_elements deleted in_process old level cur tops candidate)
    unfolding scan_elements
    scan_elements-Finds cur [] none at is = (refl, nobody)
      where
        nobody : (x : ℕ) → cur ≤ x → ¬ (IsLive old all x level)
        nobody x le (h, _, _) =
            let e = at (x - cur) in
            let same : cur + (x - cur) ≡ x = omega (arith, le) in
            absurd (cc (h, e, ap (get_elem? all) same))
    scan_elements-Finds cur [] (some c) at is = is
    scan_elements-Finds cur (top ∷ tops) candidate at is =
        let here : get_elem? all cur ≡ some top = ap (get_elem? all) (omega arith) ∙ at 0 in
        let next : (j : ℕ) → get_elem? all (suc cur + j) ≡ get_elem? tops j =
          λ j. ap (get_elem? all) {x = suc cur + j} {y = cur + suc j} (omega arith) ∙ at (suc j) in
        elim (Bool-cases (top == level && not (cur == old) && not (deleted cur))) [
          | inr skip ↦ rw skip (
              Finds-map (λ x. IsLive old all x level) (Nobody (suc cur) candidate)
                (Nobody cur candidate)
                (scan_elements deleted in_process old level (suc cur) tops candidate)
                (λ (e, f). (
                  e,
                  λ x le live. elim (Bool-cases (cur == x)) [
                    | inl same ↦ not_here x top skip same here live
                    | inr other ↦ f x (ground (arith, le, other)) live
                  ],
                ))
                (scan_elements-Finds (suc cur) tops candidate next is))
          | inl takes ↦
              let live : IsLive old all cur level = (
                here ∙ ap some (ground (arith, takes)),
                (λ q. ground (arith, takes, q)),
                ground (arith, takes),
              ) in
              elim (Bool-cases (in_process cur)) [
                | inl busy ↦
                    rw (takes, busy)
                      (Finds-map (λ x. IsLive old all x level)
                        (Nobody (suc cur) (first_of deleted in_process candidate cur))
                        (Nobody cur candidate)
                        (scan_elements deleted in_process old level (suc cur) tops
                          (first_of deleted in_process candidate cur))
                        (λ (e, f). absurd (first_of-filled candidate cur e))
                        (scan_elements-Finds (suc cur) tops
                          (first_of deleted in_process candidate cur) next
                          (Is-first_of (λ x. IsLive old all x level) candidate cur is live)))
                | inr free ↦ rw (takes, free) live
              ]
        ]
      where
        not_here :
            (x top : ℕ)
            → (top == level && not (cur == old) && not (deleted cur)) ≡ false
            → (cur == x) ≡ true
            → get_elem? all cur ≡ some top
            → ¬ (IsLive old all x level)
        not_here x top skip same here (at_x, other, alive) =
            let q : cur ≡ x = ground (arith, same) in
            let levels : top ≡ level = cc (here, at_x, ap (get_elem? all) q) in
            absurd (ground (arith, skip, levels, other, q, alive, ap deleted q))

  module _ (old : ℕ) (tops : List ℕ) (links : ℕ → List ℕ) where
    -- the links of the old entry point at a level are to other elements that reach the level
    abbrev pub LinksReach : ℕ → Type 0
    LinksReach level =
        (l x : ℕ)
        → l ≤ level
        → has x (links l) ≡ true
        → (x ≢ old) × ((top : ℕ) × (get_elem? tops x ≡ some top) × (l ≤ top))

    abbrev pub NoHigher : ℕ → Type 0
    NoHigher level = (x top : ℕ) → IsLive old tops x top → top ≤ level

    -- what an entry point at a level is
    abbrev EntryAt : ℕ → Option ℕ → Type 0
    EntryAt level none = (x : ℕ) → ¬ (IsLive old tops x level)
    EntryAt level (some x) = IsLive old tops x level

    entry_at-EntryAt :
        (level : ℕ)
        → LinksReach level
        → NoHigher level
        → EntryAt level (entry_at deleted in_process old tops links level)
    unfolding entry_at
    entry_at-EntryAt level reach high =
        by_links (scan_links deleted in_process (links level) none) (
          scan_links-Finds (λ x. IsLive old tops x level) (links level) none
            (λ x h alive.
              let (ne, (top, at, le)) = reach level x (omega arith) h in
              let less = high x top (at, ne, alive) in
              (at ∙ ap some (omega (arith, le, less)), ne, alive))
            tt)
      where
        by_elements :
            (c : Option ℕ) (r : Found)
            → Finds (λ x. IsLive old tops x level) (Nobody old level tops 0 c) r
            → EntryAt level (elim r [ ready x ↦ some x | waiting d ↦ d ])
        by_elements c (ready x) h = h
        by_elements c (waiting none) (e, f) = λ x. f x (omega arith)
        by_elements c (waiting (some x)) h = h

        by_links :
            (r : Found)
            → Finds (λ x. IsLive old tops x level) Unit r
            → EntryAt level (elim r [
              | ready x ↦ some x
              | waiting candidate ↦
                  elim (scan_elements deleted in_process old level 0 tops candidate) [
                    | ready x ↦ some x
                    | waiting c ↦ c
                  ]
            ])
        by_links (ready x) h = h
        by_links (waiting none) h = by_elements none _ (
            scan_elements-Finds old level tops 0 tops none (λ j. ap (get_elem? tops) (omega arith))
              tt)
        by_links (waiting (some c)) h = by_elements (some c) _ (
            scan_elements-Finds old level tops 0 tops (some c)
              (λ j. ap (get_elem? tops) (omega arith)) h)

    -- a live element of the highest level with that level, or nothing where there is no live element
    abbrev pub IsHighest : Option (ℕ × ℕ) → Type 0
    IsHighest none = (x top : ℕ) → ¬ (IsLive old tops x top)
    IsHighest (some (x, level)) = IsLive old tops x level × NoHigher level

    -- Where no live element other than the old entry point is above the maximal level, and the links
    -- of the old entry point at each level are to other elements that reach the level, the new entry
    -- point is a live element other than the old one, of the highest level, which is the new maximal
    -- level. There is none only where no other element is live.
    pub replace_entry_point-IsHighest :
        (level : ℕ)
        → LinksReach level
        → NoHigher level
        → IsHighest (replace_entry_point deleted in_process old tops links level)
    unfolding replace_entry_point
    replace_entry_point-IsHighest zero reach high =
        at_zero (entry_at deleted in_process old tops links zero) (entry_at-EntryAt zero reach high)
      where
        at_zero :
            (r : Option ℕ)
            → EntryAt zero r
            → IsHighest (elim r [ some x ↦ some (x, zero) | none ↦ none ])
        at_zero (some x) h = (h, high)
        at_zero none h =
            λ x top live. h x (live.0 ∙ ap some (omega (arith, high x top live)), live.1, live.2)
    replace_entry_point-IsHighest (suc level) reach high =
        at_level (entry_at deleted in_process old tops links (suc level))
          (entry_at-EntryAt (suc level) reach high)
          (replace_entry_point-IsHighest level (λ l x le. reach l x (omega (arith, le))))
      where
        at_level :
            (r : Option ℕ)
            → EntryAt (suc level) r
            → (NoHigher level
                → IsHighest (replace_entry_point deleted in_process old tops links level))
            → IsHighest (elim r [
              | some x ↦ some (x, suc level)
              | none ↦ replace_entry_point deleted in_process old tops links level
            ])
        at_level (some x) h lower = (h, high)
        at_level none h lower = lower (λ x top live. elim (Bool-cases (top == suc level)) [
          | inl same ↦ absurd (h x (live.0 ∙ ap some (ground (arith, same)), live.1, live.2))
          | inr other ↦ ground (arith, other, high x top live)
        ])
