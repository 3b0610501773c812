-- ===== src/BruteForce/Append.antt =====
-- appendVector on a well-shaped index.
use native.Mathlib.Decide.{dec_le}
use vector_similarity.Base.{
  ℕ, ◌+◌, ◌<◌, ◌≡◌, refl, sym, ap, ◌∙◌, List, [], ◌∷◌, ◌++◌, some, length, get_elem?, set, resize,
  arith, leb, if◌then◌else◌, length-set, get_elem?-set, length-append, length-resize,
  get_elem?-resize, ==_self, ==_ne, le→leb, lt→leb, lt→ltb, mod-add_block,
}
use vector_similarity.Containers.Raw.{RawContainer}
use vector_similarity.BruteForce.Capacity.{IsShaped, IsLoose, grow_by_block_lem}
use vector_similarity.BruteForce.{
  Index, IndexComponents, LabelLookup, index_size, index_capacity, grow_by_block, append_vector,
}

module _ {A : Type 0} {n : ℕ} (R : RawContainer A n) {L : Type 0} where
  -- what `appendVector` makes of the index `s`, with the lookup `lookup` after `setVectorId`
  pub record Appended (s : Index R.Carrier L) (blob : A) (label : ℕ) (lookup : L)
      (s' : Index R.Carrier L) : Type 0 where
    pub shaped : IsShaped R s'
    pub view : R.contents s'.vectors ≡ R.contents s.vectors ++ blob ∷ []
    pub counted : s'.count ≡ s.count + 1
    pub looked_up : s'.lookup ≡ lookup
    pub labelled : get_elem? s'.id_to_label s.count ≡ some label
    pub kept : (j : ℕ) → j < s.count → get_elem? s'.id_to_label j ≡ get_elem? s.id_to_label j

  make_room :
      (s : Index R.Carrier L)
      → IsShaped R s
      → (labels : List ℕ) × ((if leb (index_capacity R s) (index_size R s)
            then grow_by_block R s
            else some s)
          ≡ some (record s { id_to_label = labels }))
        × IsLoose R (record s { id_to_label = labels })
        × ((j : ℕ) → j < s.count → get_elem? labels j ≡ get_elem? s.id_to_label j)
  make_room s v = elim (dec_le (length s.id_to_label) s.count) [
    | yes full ↦
        let c = length s.id_to_label in
        let len = length-resize s.id_to_label (c + n) 0 in
        (
          resize s.id_to_label (c + n) 0,
          simp (le→leb c s.count full) (grow_by_block_lem R s v (omega (arith, v.enough))),
          record {
            positive = v.positive;
            valid = v.valid;
            counted = v.counted;
            whole = rw len (mod-add_block c n v.positive v.whole);
            enough = omega (arith, len, v.positive, v.enough);
            spare = omega (arith, len, v.positive, v.enough);
          },
          λ j h.
              get_elem?-resize s.id_to_label (c + n) j 0 (omega (arith, v.enough))
                (omega (arith, v.enough)),
        )
    | no room ↦ (
      s.id_to_label,
      simp (lt→leb (length s.id_to_label) s.count (omega arith)),
      record {
        positive = v.positive;
        valid = v.valid;
        counted = v.counted;
        whole = v.whole;
        enough = omega arith;
        spare = omega (arith, v.spare);
      },
      λ j h. refl,
    )
  ]

  pub append_vector-Appended :
      (env : IndexComponents A) (ops : LabelLookup L) (s : Index R.Carrier L) (blob : A) (label : ℕ)
      (lookup : L)
      → IsShaped R s
      → ops.set_vector_id label s.count s.lookup ≡ some lookup
      → (s' : Index R.Carrier L) × (append_vector R env ops s blob label ≡ some s')
        × Appended s (env.preprocess_for_storage blob) label lookup s'
  unfolding append_vector
  append_vector-Appended env ops s blob label lookup v e =
      let x = env.preprocess_for_storage blob in
      let (labels, room, w, kept) = make_room s v in
      let (vs, added, valid, view) = R.add_element-contents s.vectors x v.valid in
      let here : R.add_element s.vectors x s.count ≡ some vs =
        ap (R.add_element s.vectors x) (sym v.counted) ∙ added in
      let len = length-set labels s.count label in
      let written = get_elem?-set labels s.count in
      (
        record s {
          count = s.count + 1;
          vectors = vs;
          id_to_label = set labels s.count label;
          lookup = lookup;
        },
        rw room (simp (here, lt→ltb s.count (length labels) w.enough, e)),
        record {
          shaped = record {
            positive = v.positive;
            valid = valid;
            counted =
                omega
                  (arith, ap length view, length-append (R.contents s.vectors) (x ∷ []), v.counted);
            whole = rw len w.whole;
            enough = omega (arith, len, w.enough);
            spare = omega (arith, len, w.spare);
          };
          view = view;
          counted = refl;
          looked_up = refl;
          labelled = rw (written s.count label w.enough, ==_self s.count) refl;
          kept = λ j h. rw (written j label w.enough, ==_ne s.count j (omega arith)) (kept j h);
        },
      )
