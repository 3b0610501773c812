-- ===== src/BruteForce/Single/Refinement.antt =====
-- The single-value index refines a map from labels to blobs: each operation returns, and does to
-- the map what the abstract operation does.
use vector_similarity.Base.{
  ℕ, ◌+◌, ◌<◌, ◌≡◌, refl, ◌∙◌, Option, some, none, length, get_elem?, arith, ◌==◌, if◌then◌else◌,
  inl, inr, Option-cases, ◌>>=◌, get_elem?-some,
}
use vector_similarity.Base.Dict.{find}
use vector_similarity.Containers.Raw.{RawContainer}
use vector_similarity.BruteForce.{IndexComponents}
use vector_similarity.BruteForce.Single.Store.{IsIndexed, stored, add_new, update, remove}
use vector_similarity.BruteForce.Single.{
  SingleIndex, add_vector, delete_vector, get_distance_from_unsafe,
}

-- the abstract index
abbrev pub BlobMap : Type 0 → Type 0
BlobMap A = ℕ → Option A

module _ {A : Type 0} where
  -- An update stores the blob as it comes, a new label stores it preprocessed.
  abbrev pub map_add : IndexComponents A → BlobMap A → A → ℕ → BlobMap A
  map_add env m blob label l =
      if label == l
      then some (elim (m label) [ none ↦ env.preprocess_for_storage blob | some _ ↦ blob ])
      else m l

  abbrev pub map_delete : BlobMap A → ℕ → BlobMap A
  map_delete m label l = if label == l then none else m l

  -- 1 and 0, as `addVector` and `deleteVector` count
  abbrev pub missing : Option A → ℕ
  missing none = 1
  missing (some _) = 0

  abbrev pub present : Option A → ℕ
  present none = 0
  present (some _) = 1

module _ {A : Type 0} {n : ℕ} (R : RawContainer A n) where
  stored_missing :
      (s : SingleIndex R) (label : ℕ) → find label s.lookup ≡ none → stored R s label ≡ none
  stored_missing s label e = rw e refl

  stored_present :
      (s : SingleIndex R) (label id : ℕ)
      → IsIndexed R s
      → find label s.lookup ≡ some id
      → (x : A) × (stored R s label ≡ some x) × (get_elem? (R.contents s.vectors) id ≡ some x)
  stored_present s label id v e =
      let (x, here) =
        get_elem?-some (R.contents s.vectors) id
          (omega (arith, v.inverse.labelled label id e, v.shaped.counted)) in
      (x, rw e here, here)

  -- addVector on an index that satisfies the invariant fails no assert, keeps the invariant,
  -- stores the blob under the label (preprocessed if the label is new, as it comes if not) and
  -- changes no other label, and returns by how many vectors the index has grown.
  pub add_vector_refines :
      (env : IndexComponents A) (s : SingleIndex R) (blob : A) (label : ℕ)
      → IsIndexed R s
      → (s' : SingleIndex R) × (add_vector R env s blob label
          ≡ some (s', missing (stored R s label)))
        × IsIndexed R s'
        × ((l : ℕ) → stored R s' l ≡ map_add env (stored R s) blob label l)
        × (s'.count ≡ s.count + missing (stored R s label))
  unfolding add_vector
  add_vector_refines env s blob label v = elim (Option-cases (find label s.lookup)) [
    | inl fresh ↦
        let (s', done, p, grown) = add_new R env s blob label v fresh in
        let gone = stored_missing s label fresh in
        (
          s',
          rw (fresh, add_vector) (rw done refl),
          p.indexed,
          λ l. rw gone (p.view l),
          rw gone grown,
        )
    | inr (id, at) ↦
        let (vs, done, p) = update R s blob label id v at in
        let (x, here, read) = stored_present s label id v at in
        (
          record s { vectors = vs },
          rw (at, add_vector) (rw (done, read) refl),
          p.indexed,
          λ l. rw here (p.view l),
          rw here (omega arith),
        )
  ]

  -- deleteVector on such an index fails no assert, keeps the invariant, removes the label and
  -- changes no other, and returns by how many vectors the index has shrunk.
  pub delete_vector_refines :
      (s : SingleIndex R) (label : ℕ)
      → IsIndexed R s
      → (s' : SingleIndex R) × (delete_vector R s label ≡ some (s', present (stored R s label)))
        × IsIndexed R s'
        × ((l : ℕ) → stored R s' l ≡ map_delete (stored R s) label l)
        × (s'.count + present (stored R s label) ≡ s.count)
  unfolding delete_vector
  delete_vector_refines s label v = elim (Option-cases (find label s.lookup)) [
    | inl fresh ↦
        let gone = stored_missing s label fresh in
        (s, rw (fresh, delete_vector) refl, v, λ l. ground (arith, gone), rw gone (omega arith))
    | inr (id, at) ↦
        let (s', done, p, _, _) = remove R s label id v at in
        let (x, here, read) = stored_present s label id v at in
        (s', rw (at, delete_vector) (rw (done, read) refl), p.indexed, p.view, rw here p.counted)
  ]

  -- getDistanceFrom_Unsafe is the distance from the blob that is stored under the label, and
  -- INVALID_SCORE where none is.
  pub get_distance_from_unsafe_lem :
      (env : IndexComponents A) (s : SingleIndex R) (label : ℕ) (blob : A)
      → IsIndexed R s
      → get_distance_from_unsafe R env s label blob
        ≡ some (stored R s label >>= λ x. some (env.calc_distance x blob))
  unfolding get_distance_from_unsafe
  get_distance_from_unsafe_lem env s label blob v = elim (Option-cases (find label s.lookup)) [
    | inl fresh ↦ rw (fresh, get_distance_from_unsafe) refl
    | inr (id, at) ↦
        let inside : id < length (R.contents s.vectors) =
          omega (arith, v.inverse.labelled label id at, v.shaped.counted) in
        let (x, here) = get_elem?-some (R.contents s.vectors) id inside in
        let read = R.get_element-contents s.vectors id v.shaped.valid inside ∙ here in
        rw (at, get_distance_from_unsafe) (rw (read, here) refl)
  ]
