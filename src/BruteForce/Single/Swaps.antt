-- ===== src/BruteForce/Single/Swaps.antt =====
-- deleteVectorAndGetUpdatedIds: the map that tells the tiered index where vectors went.
use vector_similarity.Base.{
  ℕ, ◌-◌, ◌<◌, ◌≡◌, refl, ap, ◌∙◌, some, none, [], get_elem?, arith, ◌==◌, if◌then◌else◌, inl, inr,
  Option-cases, get_elem?-some, eq_cases, eq→==, ==_ne,
}
use vector_similarity.Base.Dict
use vector_similarity.Base.Dict.{Dict, find, find-insert}
use vector_similarity.Containers.Raw.{RawContainer}
use vector_similarity.BruteForce.{Index, remove_vector}
use vector_similarity.BruteForce.Single.Store.{IsIndexed, remove}
use vector_similarity.BruteForce.Single.{
  SingleIndex, lookup_ops, delete_vector, delete_vector_and_get_updated_ids,
}

-- the id that an entry stood at before, by the map of updates
abbrev pub origin : Dict (ℕ × ℕ) → ℕ → ℕ
origin updates i = elim (find i updates) [ none ↦ i | some (old, _) ↦ old ]

abbrev updates_of : ℕ → ℕ → ℕ → Dict (ℕ × ℕ)
updates_of id last label = if id == last then [] else Dict.insert id (last, label) []

-- the map has one entry, at the id that was deleted, or none if that was the last
updates_lem :
    (id last label i : ℕ)
    → i < last
    → find i (updates_of id last label) ≡ (if id == i then some (last, label) else none)
unfolding find
updates_lem id last label i h = elim (eq_cases id last) [
  | inl same ↦ rw (eq→== id last same, ==_ne id i (omega arith)) refl
  | inr other ↦ rw (==_ne id last other) (find-insert id i (last, label) [])
]

module _ {A : Type 0} {n : ℕ} (R : RawContainer A n) where
  -- what the map of updates promises: each entry below the new count comes from its origin
  pub record Tracks {L : Type 0} (s : Index R.Carrier L) (updates : Dict (ℕ × ℕ))
      (s' : Index R.Carrier L) : Type 0 where
    pub labels :
        (i : ℕ)
        → i < s'.count
        → get_elem? s'.id_to_label i ≡ get_elem? s.id_to_label (origin updates i)
    pub vectors :
        (i : ℕ)
        → i < s'.count
        → get_elem? (R.contents s'.vectors) i ≡ get_elem? (R.contents s.vectors) (origin updates i)
    pub named :
        (i old label : ℕ)
        → i < s'.count
        → find i updates ≡ some (old, label)
        → get_elem? s'.id_to_label i ≡ some label

  updated_ids_run :
      (s s' : SingleIndex R) (label id top : ℕ)
      → find label s.lookup ≡ some id
      → get_elem? s.id_to_label (s.count - 1) ≡ some top
      → remove_vector R lookup_ops (record s { lookup = Dict.erase label s.lookup }) id ≡ some s'
      → delete_vector_and_get_updated_ids R s label ≡ some (s', updates_of id s'.count top)
  unfolding delete_vector_and_get_updated_ids
  updated_ids_run s s' label id top at here done =
      rw (at, delete_vector_and_get_updated_ids) (rw here (rw done refl))

  -- deleteVectorAndGetUpdatedIds leaves the index that deleteVector leaves, and the map that it
  -- returns tells, for every id left, the id at which its vector and label stood before, and
  -- names the label.
  pub updated_ids-Tracks :
      (s : SingleIndex R) (label : ℕ)
      → IsIndexed R s
      → (s' : SingleIndex R) × (updates : Dict (ℕ × ℕ)) × (deleted : ℕ)
        × (delete_vector_and_get_updated_ids R s label ≡ some (s', updates))
        × (delete_vector R s label ≡ some (s', deleted))
        × Tracks s updates s'
  unfolding delete_vector_and_get_updated_ids delete_vector find
  updated_ids-Tracks s label v = elim (Option-cases (find label s.lookup)) [
    | inl fresh ↦ (
      s,
      [],
      0,
      rw (fresh, delete_vector_and_get_updated_ids) refl,
      rw (fresh, delete_vector) refl,
      record { labels = λ i h. refl; vectors = λ i h. refl; named = λ i old l h e. absurd (cc) },
    )
    | inr (id, at) ↦
        let (s', done, p, labels, vectors) = remove R s label id v at in
        let last : s.count - 1 ≡ s'.count = omega (arith, p.counted) in
        let (top, here) =
          get_elem?-some s.id_to_label s'.count (omega (arith, p.counted, v.shaped.enough)) in
        let ups = updates_of id s'.count top in
        let ups_lem = updates_lem id s'.count top in
        (
          s',
          ups,
          1,
          updated_ids_run s s' label id top at (ap (get_elem? s.id_to_label) last ∙ here) done,
          rw (at, delete_vector) (rw done refl),
          record {
            labels = λ i h. ground (arith, ups_lem i, labels i);
            vectors = λ i h. ground (arith, ups_lem i, vectors i);
            named = λ i old l h e. ground (arith, ups_lem i, labels i);
          },
        )
  ]
