-- ===== src/BruteForce/Single/Views.antt =====
-- What is stored under a label, read through the id of the label, as the vectors change.
use vector_similarity.Base.{
  false, ℕ, suc, ◌<◌, ◌≡◌, refl, ◌∙◌, Option, some, none, List, [], ◌∷◌, ◌++◌, length, get_elem?,
  set, arith, ◌==◌, if◌then◌else◌, eq_cases, inl, inr, Option-cases, ◌>>=◌, get_elem?-set,
  get_elem?-append_left, get_elem?-append_right, ==_self, ==_ne, eq→==,
}
use vector_similarity.BruteForce.Single.Inverse.{IsInverse}

module _ {A : Type 0} where
  abbrev pub blob_at : Option ℕ → List A → Option A
  blob_at id xs = id >>= get_elem? xs

  pub blob_at-append :
      (xs : List A) (x : A) (label : ℕ) (label_of id_of id_of' : ℕ → Option ℕ) (l : ℕ)
      → IsInverse (length xs) label_of id_of
      → id_of' l ≡ (if label == l then some (length xs) else id_of l)
      → blob_at (id_of' l) (xs ++ x ∷ []) ≡ (if label == l then some x else blob_at (id_of l) xs)
  blob_at-append xs x label label_of id_of id_of' l v e = elim (eq_cases label l) [
    | inl same ↦
        let hit = eq→== label l same in
        let id : id_of' l ≡ some (length xs) = rw hit at e in
        rw (hit, id) (get_elem?-append_right xs (x ∷ []) (length xs) 0 (omega arith))
    | inr other ↦
        let miss = ==_ne label l other in
        let id : id_of' l ≡ id_of l = rw miss at e in
        rw (miss, id)
          (elim (Option-cases (id_of l)) [
            | inl gone ↦ rw gone refl
            | inr (i, here) ↦ rw here (get_elem?-append_left xs (x ∷ []) i (v.labelled l i here).0)
          ])
  ]

  pub blob_at-set :
      (xs : List A) (x : A) (label id : ℕ) (label_of id_of : ℕ → Option ℕ) (l : ℕ)
      → IsInverse (length xs) label_of id_of
      → id_of label ≡ some id
      → blob_at (id_of l) (set xs id x) ≡ (if label == l then some x else blob_at (id_of l) xs)
  blob_at-set xs x label id label_of id_of l v at = elim (eq_cases label l) [
    | inl same ↦
        rw (eq→== label l same, ← same, at)
          (get_elem?-set xs id id x (v.labelled label id at).0 ∙ rw (==_self id) refl)
    | inr other ↦ rw (==_ne label l other) (elim (Option-cases (id_of l)) [
      | inl gone ↦ rw gone refl
      | inr (i, here) ↦
          let apart : (id == i) ≡ false =
            ground (arith, v.labelled label id at, v.labelled l i here) in
          rw here (get_elem?-set xs id i x (v.labelled label id at).0 ∙ rw apart refl)
    ])
  ]

  pub blob_at-remove :
      (xs xs' : List A) (last id label last_label : ℕ) (label_of id_of id_of' : ℕ → Option ℕ)
      (l : ℕ)
      → IsInverse (suc last) label_of id_of
      → id_of label ≡ some id
      → label_of last ≡ some last_label
      → id_of' l ≡ (if label == l then none else if last_label == l then some id else id_of l)
      → ((i : ℕ)
          → i < last
          → get_elem? xs' i ≡ (if id == i then get_elem? xs last else get_elem? xs i))
      → blob_at (id_of' l) xs' ≡ (if label == l then none else blob_at (id_of l) xs)
  blob_at-remove xs xs' last id label last_label label_of id_of id_of' l v at top e kept =
      elim (eq_cases label l) [
        | inl same ↦
            let hit = eq→== label l same in
            let id_gone : id_of' l ≡ none = rw hit at e in rw (hit, id_gone) refl
        | inr other ↦
            let miss = ==_ne label l other in
            rw miss (elim (eq_cases last_label l) [
              | inl moved ↦
                  let now : id_of' l ≡ some id = ground arith in
                  let before : id_of l ≡ some last = ground (arith, v.found l last) in
                  let inside : id < last = ground (arith, v.labelled label id at) in
                  let swapped : get_elem? xs' id ≡ get_elem? xs last =
                    kept id inside ∙ rw (==_self id) refl in
                  rw (now, before) swapped
              | inr unmoved ↦
                  let same : id_of' l ≡ id_of l = ground arith in
                  rw same (elim (Option-cases (id_of l)) [
                    | inl gone ↦ rw gone refl
                    | inr (i, here) ↦
                        let inside : i < last = ground (arith, v.labelled l i here) in
                        let apart : (id == i) ≡ false =
                          ground (arith, v.labelled label id at, v.labelled l i here) in
                        rw here (kept i inside ∙ rw apart refl)
                  ])
            ])
      ]
