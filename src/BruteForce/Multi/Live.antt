-- ===== src/BruteForce/Multi/Live.antt =====
-- The label lookup of the multi-value index while the ids of a label are deleted one after the
-- other. Before position `i` of that label's list stand ids that are gone or mean another vector by
-- now; the live ids are the others, and the lists of all other labels.
use vector_similarity.Base.{
  ℕ, zero, suc, ◌+◌, ◌<◌, ◌≡◌, ◌≢◌, refl, sym, ap, ◌∙◌, List, [], ◌∷◌, Option, none, some, map,
  get_elem?, set, drop, arith, ◌==◌, ltb, if◌then◌else◌, eq_cases, inl, inr, eq→==, ==_ne, count,
  one_if, count-set,
}
use vector_similarity.Base.Dict.{Dict, find}
use vector_similarity.BruteForce.Multi.Places.{map_same, map-set}

abbrev pub listed {ℓ} : {B : Type ℓ} → Option (List B) → List B
listed none = []
listed (some xs) = xs

abbrev pub live : ℕ → ℕ → Dict (List ℕ) → ℕ → List ℕ
live i label d l = drop (if label == l then i else 0) (listed (find l d))

-- 1 if the label read is `l`
abbrev pub tells : Option ℕ → ℕ → ℕ
tells none l = 0
tells (some k) l = one_if (k == l)

-- each id below `c` is listed once, under its label, and no other id is
abbrev pub IsMulti : ℕ → (ℕ → Option ℕ) → (ℕ → List ℕ) → Type 0
IsMulti c label_of ids_of =
    (l id : ℕ) → count id (ids_of l) ≡ (if ltb id c then tells (label_of id) l else 0)

-- The lists of ids when the vector `last`, whose label is `top`, takes the place `id`.
pub data Renamed (id last top : ℕ) (before after : ℕ → List ℕ) : Type 0 where
  unmoved : id ≡ last → ((l : ℕ) → after l ≡ before l) → Renamed id last top before after
  moved :
      (q : ℕ)
      → id ≢ last
      → get_elem? (before top) q ≡ some last
      → ((l : ℕ) → after l ≡ (if top == l then set (before l) q id else before l))
      → Renamed id last top before after

drop-suc {ℓ} :
    {A : Type ℓ} (i : ℕ) (xs : List A) (x : A)
    → get_elem? xs i ≡ some x
    → drop i xs ≡ x ∷ drop (suc i) xs
drop-suc i [] x h = cc
drop-suc zero (y ∷ xs) x h = cc
drop-suc (suc i) (y ∷ xs) x h = drop-suc i xs x h

-- The list of the label in the next round is the tail of the one in this round.
pub live_next :
    (i label id : ℕ) (d : Dict (List ℕ)) (ids : List ℕ) (l : ℕ)
    → find label d ≡ some ids
    → get_elem? ids i ≡ some id
    → live i label d l
      ≡ (if label == l then id ∷ live (suc i) label d l else live (suc i) label d l)
live_next i label id d ids l found at = elim (eq_cases label l) [
  | inl same ↦ let hit = eq→== label l same in rw (hit, ← same, found) (drop-suc i ids id at)
  | inr other ↦ let miss = ==_ne label l other in rw miss refl
]

-- the same as a count
pub count-next :
    (label id l c : ℕ) (all before : ℕ → List ℕ)
    → all l ≡ (if label == l then id ∷ before l else before l)
    → count c (all l) ≡ count c (before l) + (if label == l then one_if (id == c) else 0)
count-next label id l c all before e = ground (arith, ap (count c) e)

module _ (last id label top : ℕ) (label_of : ℕ → Option ℕ) (all before : ℕ → List ℕ)
    (v : IsMulti (suc last) label_of all) (at_top : label_of last ≡ some top)
    (split : (l c : ℕ)
      → count c (all l) ≡ count c (before l) + (if label == l then one_if (id == c) else 0)) where
  counts :
      (l c : ℕ)
      → count c (before l) + (if label == l then one_if (id == c) else 0)
        ≡ (if ltb c (suc last) then tells (label_of c) l else 0)
  counts l c = ground (arith, v l c, split l c)

  -- the id removed has the label whose ids are deleted
  pub label_of_removed : (label_of id ≡ some label) × (id < suc last)
  label_of_removed = ground (arith, counts label id)

  -- and is in no list any more
  removed_gone : (l : ℕ) → count id (before l) ≡ 0
  removed_gone l = ground (arith, counts l id, label_of_removed)

  last_once : (l : ℕ) → id ≢ last → count last (before l) ≡ one_if (top == l)
  last_once l other = ground (arith, counts l last, at_top)

  in_range : (l c : ℕ) → 0 < count c (before l) → c ≢ last → c < last
  in_range l c h other = ground (arith, counts l c)

  pub Renamed-IsMulti :
      (after : ℕ → List ℕ) (label_of' : ℕ → Option ℕ)
      → Renamed id last top before after
      → ((c : ℕ) → c < last → label_of' c ≡ (if id == c then label_of last else label_of c))
      → IsMulti last label_of' after
  Renamed-IsMulti after label_of' (unmoved same kept) relabelled l c = ground (
    arith,
    ap (count c) (kept l),
    counts l c,
    removed_gone l,
    relabelled c,
    at_top,
    label_of_removed,
  )
  Renamed-IsMulti after label_of' (moved q other at kept) relabelled l c = elim (eq_cases top l) [
    | inl same ↦
        let hit = eq→== top l same in
        let list : after l ≡ set (before l) q id = rw hit at (kept l) in
        ground (
          arith,
          ap (count c) list,
          count-set (before l) q last id c (rw (← same) at),
          counts l c,
          removed_gone l,
          relabelled c,
          at_top,
          label_of_removed,
          last_once l other,
        )
    | inr apart ↦
        let list : after l ≡ before l = rw (==_ne top l apart) at (kept l) in
        ground (
          arith,
          ap (count c) list,
          counts l c,
          removed_gone l,
          relabelled c,
          at_top,
          label_of_removed,
          last_once l other,
        )
  ]

  -- what the lists name does not change
  pub Renamed-map {ℓ} :
      {B : Type ℓ} (f f' : ℕ → B) (after : ℕ → List ℕ)
      → Renamed id last top before after
      → ((c : ℕ) → c < last → f' c ≡ (if id == c then f last else f c))
      → (l : ℕ) → map f' (after l) ≡ map f (before l)
  Renamed-map f f' after r replaced l = go r
    where
      unchanged : (c : ℕ) → 0 < count c (before l) → c ≢ last → f' c ≡ f c
      unchanged c h other =
          let apart : id ≢ c =
            λ e. absurd (omega (arith, removed_gone l, ap (λ j. count j (before l)) e)) in
          replaced c (in_range l c h other) ∙ rw (==_ne id c apart) refl

      go : Renamed id last top before after → map f' (after l) ≡ map f (before l)
      go (unmoved same kept) = rw (kept l) (
          map_same f' f (before l) (λ c h. unchanged c h (λ e.
            absurd (omega (arith, removed_gone l, ap (λ j. count j (before l)) (same ∙ sym e))))))
      go (moved q other at kept) = elim (eq_cases top l) [
        | inl same ↦
            let hit = eq→== top l same in
            let before_id : f' id ≡ f last =
              replaced id (omega (arith, label_of_removed)) ∙ rw (eq→== id id refl) refl in
            rw (kept l, hit)
              (map-set f' f (before l) q last id (rw (← same) at) (rw hit at (last_once l other))
                before_id unchanged)
        | inr apart ↦
            let miss = ==_ne top l apart in
            rw (kept l, miss)
              (map_same f' f (before l) (λ c h. unchanged c h (λ e.
                absurd
                  (omega (arith, rw miss at (last_once l other), ap (λ j. count j (before l)) e)))))
      ]
