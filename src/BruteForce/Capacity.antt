-- ===== src/BruteForce/Capacity.antt =====
-- The shape of the flat index, and the metadata arrays as they grow and shrink by blocks.
use native.Mathlib.Decide.{dec_le}
use vector_similarity.Base.{
  ℕ, suc, ◌+◌, ◌-◌, ◌*◌, ◌/◌, ◌%◌, ◌≤◌, ◌<◌, ◌≡◌, refl, ap, ◌∙◌, List, eq_cases, inl, inr, true,
  ◌==◌, Option, some, length, get_elem?, resize, arith, length-resize, get_elem?-resize,
  mod-add_block, ==_self, ==_ne, eq→==, lt→leb, le→leb,
}
use vector_similarity.Containers.Raw.{RawContainer}
use vector_similarity.BruteForce.{
  Index, resize_index_common, grow_by_block, shrink_by_block, cut_block,
}

module _ {A : Type 0} {n : ℕ} (R : RawContainer A n) {L : Type 0} where
  -- `capacity` is the size of `idToLabelMapping`: whole blocks, and less than two to spare
  pub record IsShaped (s : Index R.Carrier L) : Type 0 where
    pub positive : 0 < n
    pub valid : R.IsValid s.vectors
    pub counted : length (R.contents s.vectors) ≡ s.count
    pub whole : length s.id_to_label % n ≡ 0
    pub enough : s.count ≤ length s.id_to_label
    pub spare : length s.id_to_label < s.count + 2 * n

  resize_lem :
      (s : Index R.Carrier L) (m : ℕ)
      → 0 < n
      → m % n ≡ 0
      → resize_index_common R s m ≡ some (record s { id_to_label = resize s.id_to_label m 0 })
  unfolding resize_index_common
  resize_lem s m pos h = simp (==_ne n 0 (omega arith), h)

  -- a full index grows by one block, with no assert failing
  pub grow_by_block_lem :
      (s : Index R.Carrier L)
      → IsShaped s
      → s.count ≡ length s.id_to_label
      → grow_by_block R s
        ≡ some (record s { id_to_label = resize s.id_to_label (length s.id_to_label + n) 0 })
  unfolding grow_by_block
  grow_by_block_lem s v full =
      let c = length s.id_to_label in
      let blocks : R.num_blocks s.vectors ≡ s.count / n =
        R.num_blocks-contents s.vectors v.valid (rw v.counted (rw full v.whole))
        ∙ ap (λ m. m / n) v.counted in
      let same : (c == s.count) ≡ true = ground arith in
      simp (
        ==_ne n 0 (omega arith),
        v.whole,
        same,
        blocks,
        ==_self (s.count / n),
        resize_lem s (c + n) v.positive (grind arith),
      )

  -- as `IsShaped`, just after a vector was removed
  pub record IsLoose (s : Index R.Carrier L) : Type 0 where
    pub positive : 0 < n
    pub valid : R.IsValid s.vectors
    pub counted : length (R.contents s.vectors) ≡ s.count
    pub whole : length s.id_to_label % n ≡ 0
    pub enough : s.count < length s.id_to_label
    pub spare : length s.id_to_label < suc s.count + 2 * n

  -- the same entries for the first `count` ids, in arrays of the right shape
  abbrev pub Trimmed : Index R.Carrier L → Option (Index R.Carrier L) → Type 0
  Trimmed s r =
      (labels : List ℕ) × (r ≡ some (record s { id_to_label = labels }))
      × IsShaped (record s { id_to_label = labels })
      × ((j : ℕ) → j < s.count → get_elem? labels j ≡ get_elem? s.id_to_label j)

  pub no_trim :
      (s : Index R.Carrier L)
      → IsLoose s
      → length s.id_to_label < s.count + 2 * n
      → Trimmed s (some s)
  no_trim s v h = (
    s.id_to_label,
    refl,
    record {
      positive = v.positive;
      valid = v.valid;
      counted = v.counted;
      whole = v.whole;
      enough = omega arith;
      spare = h;
    },
    λ j k. refl,
  )

  -- cut to `m` entries, a number of whole blocks that keeps the first `count`
  trim_to :
      (s : Index R.Carrier L) (m : ℕ)
      → IsLoose s
      → m % n ≡ 0
      → s.count ≤ m
      → m < s.count + 2 * n
      → Trimmed s (resize_index_common R s m)
  trim_to s m v whole enough spare = (
    resize s.id_to_label m 0,
    resize_lem s m v.positive whole,
    record {
      positive = v.positive;
      valid = v.valid;
      counted = v.counted;
      whole = rw (length-resize s.id_to_label m 0) whole;
      enough = rw (length-resize s.id_to_label m 0) enough;
      spare = rw (length-resize s.id_to_label m 0) spare;
    },
    λ j k. get_elem?-resize s.id_to_label m j 0 (omega arith) (omega (arith, v.enough)),
  )

  cut_block-Trimmed :
      (s : Index R.Carrier L)
      → IsLoose s
      → s.count % n ≡ 0
      → s.count + 2 * n ≤ length s.id_to_label
      → Trimmed s (cut_block R s)
  unfolding cut_block
  cut_block-Trimmed s v e h =
      let c = length s.id_to_label in
      let exact : c ≡ s.count + 2 * n = grind arith in
      let size : R.size s.vectors ≡ s.count = R.size-contents s.vectors v.valid ∙ v.counted in
      let same : (s.count + 2 * n == c) ≡ true = ground arith in
      let rest : c - n ≡ s.count + n = omega arith in
      let done =
        trim_to s (c - n) v (rw rest (mod-add_block s.count n v.positive e)) (omega arith)
          (omega arith) in
      simp (size, same) done

  pub shrink_by_block-Trimmed :
      (s : Index R.Carrier L) → IsLoose s → s.count % n ≡ 0 → Trimmed s (shrink_by_block R s)
  unfolding shrink_by_block
  shrink_by_block-Trimmed s v e =
      let c = length s.id_to_label in
      let fits : n ≤ c = grind arith in
      let blocks : R.num_blocks s.vectors ≡ s.count / n =
        R.num_blocks-contents s.vectors v.valid (rw v.counted e) ∙ ap (λ m. m / n) v.counted in
      simp (==_ne n 0 (omega arith), v.whole, le→leb n c fits, blocks, ==_self (s.count / n))
        (elim (eq_cases s.count 0) [
          | inl z ↦
              simp (eq→== s.count 0 z) (trim_to s 0 v (grind arith) (omega arith) (omega arith))
          | inr z ↦ elim (dec_le (s.count + 2 * n) c) [
            | yes big ↦
                simp (==_ne s.count 0 z, le→leb (s.count + 2 * n) c big)
                  (cut_block-Trimmed s v e big)
            | no small ↦
                simp (==_ne s.count 0 z, lt→leb (s.count + 2 * n) c (omega arith))
                  (no_trim s v (omega arith))
          ]
        ])
