-- ===== src/BruteForce/Multi/Refinement.antt =====
-- The multi-value index as a map from labels to the lists of their blobs, in the order of the
-- additions.
use mathlib.Core.List.{map-append}
use vector_similarity.Base.{
  ℕ, ◌+◌, ◌≡◌, ◌≢◌, refl, sym, ap, ◌∙◌, List, [], ◌∷◌, ◌++◌, Option, none, some, map, get_elem?,
  arith, ◌==◌, if◌then◌else◌, eq_cases, inl, inr, eq→==, ==_ne, Option-cases, get_elem?-append_left,
  get_elem?-append_right, count, count-append,
}
use vector_similarity.Base.Dict
use vector_similarity.Base.Dict.{Dict, find, find-insert, find-emplace, find-erase}
use vector_similarity.Containers.Raw.{RawContainer}
use vector_similarity.BruteForce.{IndexComponents}
use vector_similarity.BruteForce.Capacity.{IsShaped}
use vector_similarity.BruteForce.Append.{Appended, append_vector-Appended}
use vector_similarity.BruteForce.Multi.Places.{map_same}
use vector_similarity.BruteForce.Multi.Live.{IsMulti, listed}
use vector_similarity.BruteForce.Multi.{MultiIndex, lookup_ops, set_vector_id, add_vector}

-- the abstract index
abbrev pub BlobLists : Type 0 → Type 0
BlobLists A = ℕ → List A

module _ {A : Type 0} where
  abbrev pub lists_add : IndexComponents A → BlobLists A → A → ℕ → BlobLists A
  lists_add env m blob label l =
      if label == l then m l ++ env.preprocess_for_storage blob ∷ [] else m l

  abbrev pub lists_delete : BlobLists A → ℕ → BlobLists A
  lists_delete m label l = if label == l then [] else m l

-- the ids of the labels after `setVectorId`
set_vector_id_lem :
    (label id : ℕ) (d : Dict (List ℕ))
    → (d' : Dict (List ℕ)) × (set_vector_id label id d ≡ some d')
      × ((l : ℕ)
          → find l d' ≡ (if label == l then some (listed (find l d) ++ id ∷ []) else find l d))
set_vector_id_lem label id d = elim (Option-cases (find label d)) [
  | inl gone ↦ (
    Dict.emplace label (id ∷ []) d,
    rw (gone, set_vector_id) refl,
    λ l. find-emplace label l (id ∷ []) d gone ∙ at_label l [] none gone refl,
  )
  | inr (ids, here) ↦ (
    Dict.insert label (ids ++ id ∷ []) d,
    rw (here, set_vector_id) refl,
    λ l. find-insert label l (ids ++ id ∷ []) d ∙ at_label l ids (some ids) here refl,
  )
]
  where
    at_label :
        (l : ℕ) (ids : List ℕ)
        → (o : Option (List ℕ)) → find label d ≡ o
        → listed o ≡ ids
        → (if label == l then some (ids ++ id ∷ []) else find l d)
          ≡ (if label == l then some (listed (find l d) ++ id ∷ []) else find l d)
    at_label l ids o at same_ids = elim (eq_cases label l) [
      | inl same ↦ rw (eq→== label l same, ← same, at, same_ids) refl
      | inr other ↦ rw (==_ne label l other) refl
    ]

module _ {A : Type 0} {n : ℕ} (R : RawContainer A n) where
  pub record IsIndexed (s : MultiIndex R) : Type 0 where
    pub shaped : IsShaped R s
    pub multi : IsMulti s.count (get_elem? s.id_to_label) (λ l. listed (find l s.lookup))
    -- a label that is there has a vector
    pub filled : (l : ℕ) → find l s.lookup ≢ some []

  -- the blobs that are stored under a label
  abbrev pub stored : MultiIndex R → ℕ → List (Option A)
  stored s l = map (get_elem? (R.contents s.vectors)) (listed (find l s.lookup))

  -- the index holds what the abstract one holds
  abbrev pub Holds : MultiIndex R → BlobLists A → Type 0
  Holds s m = (l : ℕ) → stored s l ≡ map (λ x. some x) (m l)

  add_IsIndexed :
      (s s' : MultiIndex R) (x : A) (label : ℕ) (d : Dict (List ℕ))
      → IsIndexed s
      → Appended R s x label d s'
      → ((l : ℕ)
          → find l d ≡ (
              if label == l
              then some (listed (find l s.lookup) ++ s.count ∷ [])
              else find l s.lookup))
      → IsIndexed s'
  add_IsIndexed s s' x label d v a ids = record {
    shaped = a.shaped;
    multi = λ l id. elim (eq_cases label l) [
      | inl same ↦
          let here : find l s'.lookup ≡ some (listed (find l s.lookup) ++ s.count ∷ []) =
            rw a.looked_up (ids l ∙ rw (eq→== label l same) refl) in
          ground (
            arith,
            ap (λ o. count id (listed o)) here,
            count-append id (listed (find l s.lookup)) (s.count ∷ []),
            v.multi l id,
            a.counted,
            a.labelled,
            a.kept id,
            same,
          )
      | inr other ↦
          let here : find l s'.lookup ≡ find l s.lookup =
            rw a.looked_up (ids l ∙ rw (==_ne label l other) refl) in
          ground (
            arith,
            ap (λ o. count id (listed o)) here,
            v.multi l id,
            a.counted,
            a.labelled,
            a.kept id,
          )
    ];
    filled = λ l e. elim (eq_cases label l) [
      | inl same ↦
          filled_end (listed (find l s.lookup)) s.count
            (sym (rw (eq→== label l same) at (ids l)) ∙ rw (← a.looked_up) e)
      | inr other ↦ v.filled l (sym (rw (==_ne label l other) at (ids l)) ∙ rw (← a.looked_up) e)
    ];
  }
    where
      filled_end : (xs : List ℕ) (y : ℕ) → some (xs ++ y ∷ []) ≢ some []
      filled_end [] y e = cc
      filled_end (x ∷ xs) y e = cc

  add_view :
      (s s' : MultiIndex R) (x : A) (label : ℕ) (d : Dict (List ℕ)) (l : ℕ)
      → IsIndexed s
      → Appended R s x label d s'
      → ((l : ℕ)
          → find l d ≡ (
              if label == l
              then some (listed (find l s.lookup) ++ s.count ∷ [])
              else find l s.lookup))
      → stored s' l ≡ (if label == l then stored s l ++ some x ∷ [] else stored s l)
  add_view s s' x label d l v a ids =
      let xs = R.contents s.vectors in
      let f = get_elem? (R.contents s'.vectors) in
      let kept : map f (listed (find l s.lookup)) ≡ stored s l =
        map_same f (get_elem? xs) (listed (find l s.lookup)) (λ j h.
          rw a.view (
            get_elem?-append_left xs (x ∷ []) j (ground (arith, v.multi l j, v.shaped.counted)))) in
      let last : f s.count ≡ some x =
        rw a.view
          (get_elem?-append_right xs (x ∷ []) s.count 0 (omega (arith, v.shaped.counted))) in
      elim (eq_cases label l) [
        | inl same ↦
            let here : find l s'.lookup ≡ some (listed (find l s.lookup) ++ s.count ∷ []) =
              rw a.looked_up (ids l ∙ rw (eq→== label l same) refl) in
            rw (here, eq→== label l same)
              (map-append f (listed (find l s.lookup)) (s.count ∷ []) ∙ rw (kept, last) refl)
        | inr other ↦
            let here : find l s'.lookup ≡ find l s.lookup =
              rw a.looked_up (ids l ∙ rw (==_ne label l other) refl) in
            rw (here, ==_ne label l other) kept
      ]

  -- addVector on an index that satisfies the invariant fails no assert, keeps the invariant, puts
  -- the preprocessed blob at the end of the list of the label, changes no other label, and returns
  -- 1, by which the index has grown.
  pub multi_add_vector_refines :
      (env : IndexComponents A) (s : MultiIndex R) (blob : A) (label : ℕ) (m : BlobLists A)
      → IsIndexed s
      → Holds s m
      → (s' : MultiIndex R) × (add_vector R env s blob label ≡ some (s', 1))
        × IsIndexed s'
        × Holds s' (lists_add env m blob label)
        × (s'.count ≡ s.count + 1)
  unfolding add_vector
  multi_add_vector_refines env s blob label m v holds =
      let x = env.preprocess_for_storage blob in
      let (d, looked, ids) = set_vector_id_lem label s.count s.lookup in
      let (s', done, a) = append_vector-Appended R env lookup_ops s blob label d v.shaped looked in
      (
        s',
        rw done refl,
        add_IsIndexed s s' x label d v a ids,
        λ l. add_view s s' x label d l v a ids ∙ elim (eq_cases label l) [
          | inl same ↦
              rw (eq→== label l same, holds l) (sym (map-append (λ y. some y) (m l) (x ∷ [])))
          | inr other ↦ rw (==_ne label l other) (holds l)
        ],
        a.counted,
      )
