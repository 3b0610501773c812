-- ===== src/BruteForce/Multi/Round.antt =====
-- One round of the loops that delete the ids of a label: `removeVector` of the next live id.
use vector_similarity.Base.{
  ℕ, suc, ◌+◌, ◌-◌, ◌<◌, zero, ◌≡◌, ◌≢◌, refl, sym, ap, subst, ◌∙◌, List, [], ◌∷◌, Option, none,
  some, map, length, get_elem?, set, drop, arith, ◌==◌, if◌then◌else◌, eq_cases, inl, inr, eq→==,
  ==_ne, get_elem?-some, get_elem?-lt, length-set, count, count-place,
}
use vector_similarity.Base.Dict
use vector_similarity.Base.Dict.{Dict, find, find-insert}
use vector_similarity.Containers.Raw.{RawContainer}
use vector_similarity.BruteForce.{remove_vector}
use vector_similarity.BruteForce.Capacity.{IsShaped}
use vector_similarity.BruteForce.Remove.{Replaced, Removed, remove_vector-Removed}
use vector_similarity.BruteForce.Multi.Places.{get_elem?-drop, drop-set, replace_from-set}
use vector_similarity.BruteForce.Multi.Live.{
  IsMulti, Renamed, moved, unmoved, Renamed-IsMulti, Renamed-map, count-next, label_of_removed,
  listed, live, live_next,
}
use vector_similarity.BruteForce.Multi.{MultiIndex, lookup_ops, replace_id_of_label}

-- the number of ids of a label, if it is there
abbrev pub sized {ℓ} : {B : Type ℓ} → Option (List B) → Option ℕ
sized none = none
sized (some xs) = some (length xs)

abbrev pub SameSizes : Dict (List ℕ) → Dict (List ℕ) → Type 0
SameSizes d d' = (l : ℕ) → sized (find l d') ≡ sized (find l d)

-- an id that occurs in what is left of a list has a place in the list, at or after the cut
place_after :
    (k a : ℕ) (d : Dict (List ℕ)) (l : ℕ)
    → 0 < count a (drop k (listed (find l d)))
    → (ids : List ℕ) × (find l d ≡ some ids) × (q : ℕ) × (get_elem? ids (k + q) ≡ some a)
place_after k a d l h = go (find l d) refl h
  where
    none_left : (j : ℕ) → count a (drop j []) ≡ 0
    none_left zero = refl
    none_left (suc j) = refl

    go :
        (o : Option (List ℕ))
        → find l d ≡ o
        → 0 < count a (drop k (listed o))
        → (ids : List ℕ) × (find l d ≡ some ids) × (q : ℕ) × (get_elem? ids (k + q) ≡ some a)
    go none e h = absurd (omega (arith, none_left k))
    go (some ids) e h =
        let (q, at) = count-place a (drop k ids) h in (ids, e, q, sym (get_elem?-drop k ids q) ∙ at)

-- `replaceIdOfLabel` finds the last vector among the live ids of its label, and writes there.
replace_lem :
    (i label id last top : ℕ) (d : Dict (List ℕ))
    → id ≢ last
    → 0 < count last (live i label d top)
    → (d' : Dict (List ℕ)) × (replace_id_of_label top id last d ≡ some d')
      × SameSizes d d'
      × Renamed id last top (live i label d) (live i label d')
replace_lem i label id last top d other inside =
    let k = if label == top then i else 0 in
    let (ids, found, q, at) = place_after k last d top inside in
    let (p, after, here, done) =
      replace_from-set (length ids) ids id last (k + q) (omega arith) (get_elem?-lt ids (k + q) at)
        at in
    let ids' = set ids p id in
    let p' = p - k in
    let back : k + p' ≡ p = omega arith in
    let find' = λ (l : ℕ). find-insert top l ids' d in
    (
      Dict.insert top ids' d,
      rw (found, done) refl,
      λ l. elim (eq_cases top l) [
        | inl same ↦ rw (find' l, eq→== top l same, ← same, found) (ap some (length-set ids p id))
        | inr apart ↦ rw (find' l, ==_ne top l apart) refl
      ],
      moved p' other (rw found (get_elem?-drop k ids p' ∙ rw back here)) (λ l.
          elim (eq_cases top l) [
            | inl same ↦
                rw (find' l, eq→== top l same, ← same, found)
                  (ap (λ j. drop k (set ids j id)) (sym back) ∙ drop-set k ids p' id)
            | inr apart ↦ rw (find' l, ==_ne top l apart) refl
          ]),
    )

-- the lookup that the removal of `id` leaves
Renamed-lookup :
    (i label id last top : ℕ) (d : Dict (List ℕ))
    → (id ≢ last → 0 < count last (live (suc i) label d top))
    → (d' : Dict (List ℕ)) × ((if id == last then some d else replace_id_of_label top id last d)
        ≡ some d')
      × SameSizes d d'
      × Renamed id last top (live (suc i) label d) (live (suc i) label d')
Renamed-lookup i label id last top d inside = elim (eq_cases id last) [
  | inl same ↦ (d, rw (eq→== id last same) refl, λ l. refl, unmoved same (λ l. refl))
  | inr other ↦
      let (d', done, sizes, r) = replace_lem (suc i) label id last top d other (inside other) in
      (d', rw (==_ne id last other) done, sizes, r)
]

live_head :
    (i label id : ℕ) (d : Dict (List ℕ)) (ids : List ℕ)
    → find label d ≡ some ids
    → get_elem? ids i ≡ some id
    → 0 < count id (live i label d label)
live_head i label id d ids found at =
    ground (arith, ap (count id) (live_next i label id d ids label found at))

pub Replaced_until {ℓ} :
    {B : Type ℓ} (id c last : ℕ) (xs ys : List B)
    → c ≡ last
    → Replaced id c xs ys
    → Replaced id last xs ys
Replaced_until id c last xs ys e h = subst (λ m. Replaced id m xs ys) e h

module _ {A : Type 0} {n : ℕ} (R : RawContainer A n) where
  -- the index in the round from position `i` of the list of `label`
  pub record IsLive (i label : ℕ) (s : MultiIndex R) : Type 0 where
    pub shaped : IsShaped R s
    pub multi : IsMulti s.count (get_elem? s.id_to_label) (live i label s.lookup)

  -- the blobs of a label, by its live ids
  abbrev pub blobs : ℕ → ℕ → MultiIndex R → ℕ → List (Option A)
  blobs i label s l = map (get_elem? (R.contents s.vectors)) (live i label s.lookup l)

  -- what the round makes of the index `s`
  pub record Round (i label id : ℕ) (s s' : MultiIndex R) : Type 0 where
    pub next : IsLive (suc i) label s'
    pub counted : s'.count + 1 ≡ s.count
    pub sizes : SameSizes s.lookup s'.lookup
    pub view :
        (l : ℕ)
        → blobs (suc i) label s' l
          ≡ map (get_elem? (R.contents s.vectors)) (live (suc i) label s.lookup l)
    pub labels : Replaced id s'.count s.id_to_label s'.id_to_label
    pub vectors : Replaced id s'.count (R.contents s.vectors) (R.contents s'.vectors)
    pub inside : id < s.count

  Round-of :
      (i label id last top : ℕ) (s s' : MultiIndex R) (lk : Dict (List ℕ))
      → IsLive i label s
      → suc last ≡ s.count
      → get_elem? s.id_to_label last ≡ some top
      → ((l : ℕ)
          → live i label s.lookup l ≡ (
              if label == l
              then id ∷ live (suc i) label s.lookup l
              else live (suc i) label s.lookup l))
      → SameSizes s.lookup lk
      → Renamed id last top (live (suc i) label s.lookup) (live (suc i) label lk)
      → Removed R s id lk s'
      → Round i label id s s'
  Round-of i label id last top s s' lk v suc_last labelled next sizes r m =
      let all = live i label s.lookup in
      let before = live (suc i) label s.lookup in
      let after = live (suc i) label s'.lookup in
      let multi : IsMulti (suc last) (get_elem? s.id_to_label) all = rw suc_last v.multi in
      let split = λ (l c : ℕ). count-next label id l c all before (next l) in
      let count' : s'.count ≡ last = omega (arith, m.counted) in
      let r' : Renamed id last top before after = rw m.looked_up r in
      let relabelled : Replaced id last s.id_to_label s'.id_to_label =
        Replaced_until id s'.count last s.id_to_label s'.id_to_label count' m.labels in
      let replaced : Replaced id last (R.contents s.vectors) (R.contents s'.vectors) =
        Replaced_until id s'.count last (R.contents s.vectors) (R.contents s'.vectors) count'
          m.view in
      let same_map =
        Renamed-IsMulti last id label top (get_elem? s.id_to_label) all before multi labelled split
          after (get_elem? s'.id_to_label) r' relabelled in
      let (_, below) =
        label_of_removed last id label top (get_elem? s.id_to_label) all before multi labelled
          split in
      record {
        next = record { shaped = m.shaped; multi = rw count' same_map };
        counted = m.counted;
        sizes = λ l. rw m.looked_up (sizes l);
        view =
            Renamed-map last id label top (get_elem? s.id_to_label) all before multi labelled split
              (get_elem? (R.contents s.vectors)) (get_elem? (R.contents s'.vectors)) after r'
              replaced;
        labels = m.labels;
        vectors = m.view;
        inside = omega arith;
      }

  remove_at_last :
      (i label id last : ℕ) (ids : List ℕ) (s : MultiIndex R)
      → IsLive i label s
      → find label s.lookup ≡ some ids
      → get_elem? ids i ≡ some id
      → suc last ≡ s.count
      → (s' : MultiIndex R) × (remove_vector R lookup_ops s id ≡ some s') × Round i label id s s'
  remove_at_last i label id last ids s v found at suc_last =
      let all = live i label s.lookup in
      let split = λ (l : ℕ). live_next i label id s.lookup ids l found at in
      let here = live_head i label id s.lookup ids found at in
      let (top, labelled) = get_elem?-some s.id_to_label last (omega (arith, v.shaped.enough)) in
      let (lk, replaced, sizes, r) =
        Renamed-lookup i label id last top s.lookup
          (λ other. ground (arith, v.multi top last, labelled, ap (count last) (split top))) in
      let (s', done, m) =
        remove_vector-Removed R lookup_ops s id last top lk v.shaped suc_last labelled
          (ground (arith, v.multi label id)) replaced in
      (s', done, Round-of i label id last top s s' lk v suc_last labelled split sizes r m)

  -- A round removes a vector without a failed assert.
  pub remove_live :
      (i label id : ℕ) (ids : List ℕ) (s : MultiIndex R)
      → IsLive i label s
      → find label s.lookup ≡ some ids
      → get_elem? ids i ≡ some id
      → (s' : MultiIndex R) × (remove_vector R lookup_ops s id ≡ some s') × Round i label id s s'
  remove_live i label id ids s v found at =
      let here = live_head i label id s.lookup ids found at in
      remove_at_last i label id (s.count - 1) ids s v found at (ground (arith, v.multi label id))
