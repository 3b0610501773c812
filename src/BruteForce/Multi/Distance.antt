-- ===== src/BruteForce/Multi/Distance.antt =====
-- getDistanceFrom_Unsafe of the multi-value index.
use vector_similarity.Base.{
  ℕ, ◌≤◌, ◌<◌, ◌≡◌, ◌⊎◌, refl, ◌∙◌, List, [], ◌∷◌, some, get_elem?, arith, ltb, if◌then◌else◌,
  Bool-cases, inl, inr, get_elem?-some, count, length,
}
use vector_similarity.Base.Dict.{find}
use vector_similarity.Containers.Raw.{RawContainer}
use vector_similarity.BruteForce.{IndexComponents}
use vector_similarity.BruteForce.Multi.Refinement.{IsIndexed}
use vector_similarity.BruteForce.Multi.{MultiIndex, get_distance_from_unsafe, least_distance}

module _ {A : Type 0} {n : ℕ} (R : RawContainer A n) (env : IndexComponents A) (s : MultiIndex R)
    (blob : A) where
  -- `d` is the least of `first` and the distances of the vectors `ids` from the blob
  pub record IsLeast (ids : List ℕ) (first d : ℕ) : Type 0 where
    pub below_first : d ≤ first
    pub below :
        (id : ℕ) (x : A)
        → 0 < count id ids
        → get_elem? (R.contents s.vectors) id ≡ some x
        → d ≤ env.calc_distance x blob
    pub attained :
        (d ≡ first)
        ⊎ ((id : ℕ) × (x : A) × (0 < count id ids)
            × (get_elem? (R.contents s.vectors) id ≡ some x)
            × (d ≡ env.calc_distance x blob))

  least_distance-IsLeast :
      (ids : List ℕ) (first : ℕ)
      → R.IsValid s.vectors
      → ((id : ℕ) → 0 < count id ids → id < length (R.contents s.vectors))
      → (d : ℕ) × (least_distance R env s ids blob first ≡ some d) × IsLeast ids first d
  unfolding least_distance
  least_distance-IsLeast [] first valid inside = (
    first,
    refl,
    record {
      below_first = omega arith;
      below = λ id x h e. absurd (omega arith);
      attained = inl refl;
    },
  )
  least_distance-IsLeast (id ∷ ids) first valid inside =
      let (x, here) = get_elem?-some (R.contents s.vectors) id (inside id (ground arith)) in
      let read = R.get_element-contents s.vectors id valid (inside id (ground arith)) ∙ here in
      let d = env.calc_distance x blob in
      let next = if ltb first d then first else d in
      let (least, done, l) =
        least_distance-IsLeast ids next valid (λ j h. inside j (omega arith)) in
      (
        least,
        rw read done,
        record {
          below_first = ground (arith, l.below_first);
          below = λ j y h e. ground (arith, l.below j y, l.below_first, here);
          attained = elim l.attained [
            | inr (j, y, h, e, same) ↦ inr (j, y, omega arith, e, same)
            | inl same ↦ elim (Bool-cases (ltb first d)) [
              | inl b ↦ inl (same ∙ rw b refl)
              | inr b ↦ inr (id, x, ground arith, here, same ∙ rw b refl)
            ]
          ];
        },
      )

  -- getDistanceFrom_Unsafe, on an index that satisfies the invariant and for a label that is there,
  -- is the least of the distances of the label's vectors and of infinity.
  pub get_distance_from_unsafe-IsLeast :
      (infinity label : ℕ) (ids : List ℕ)
      → IsIndexed R s
      → find label s.lookup ≡ some ids
      → (d : ℕ) × (get_distance_from_unsafe R env infinity s label blob ≡ some (some d))
        × IsLeast ids infinity d
  unfolding get_distance_from_unsafe
  get_distance_from_unsafe-IsLeast infinity label ids v found =
      let (d, done, l) =
        least_distance-IsLeast ids infinity v.shaped.valid
          (λ id h. ground (arith, v.multi label id, found, v.shaped.counted)) in
      (d, rw (found, get_distance_from_unsafe) (rw done refl), l)
