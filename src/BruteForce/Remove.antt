-- ===== src/BruteForce/Remove.antt =====
-- removeVector on a well-shaped index.
use native.Mathlib.Nat.{add-mul-mod_self_right}
use vector_similarity.Base.{
  ℕ, suc, ◌+◌, ◌-◌, ◌*◌, ◌%◌, ◌≤◌, ◌<◌, ◌≡◌, refl, sym, ap, ◌∙◌, List, some, length, get_elem?, set,
  arith, ◌==◌, if◌then◌else◌, length-set, get_elem?-set, length-drop_last, get_elem?-drop_last,
  get_elem?-some, ==_ne, eq→==, lt→ltb, eq_cases, inl, inr, some-inj, ◌≢◌, subst,
}
use vector_similarity.Containers.Raw.{RawContainer}
use vector_similarity.BruteForce.Capacity.{
  IsShaped, IsLoose, Trimmed, no_trim, shrink_by_block-Trimmed,
}
use vector_similarity.BruteForce.{
  Index, LabelLookup, move_last, remove_vector, finish_removal, shrink_by_block,
}

-- Entry `id` replaced by entry `last`, for the entries before `last`.
abbrev pub Replaced {ℓ} : {B : Type ℓ} → ℕ → ℕ → List B → List B → Type ℓ
Replaced id last xs ys =
    (j : ℕ) → j < last → get_elem? ys j ≡ (if id == j then get_elem? xs last else get_elem? xs j)

spare_blocks : (n c m : ℕ) → m % n ≡ 0 → m < suc c + 2 * n → c % n ≢ 0 → m < c + 2 * n
spare_blocks n c m whole h e = elim (eq_cases m (c + 2 * n)) [
  | inl at ↦ absurd (e (sym (add-mul-mod_self_right c 2 n) ∙ rw at at whole))
  | inr other ↦ omega arith
]

module _ {A : Type 0} {n : ℕ} (R : RawContainer A n) {L : Type 0} where
  -- what `removeVector(id)` makes of the index `s`
  pub record Removed (s : Index R.Carrier L) (id : ℕ) (lookup : L) (s' : Index R.Carrier L)
      : Type 0 where
    pub shaped : IsShaped R s'
    pub counted : s'.count + 1 ≡ s.count
    pub looked_up : s'.lookup ≡ lookup
    pub view : Replaced id s'.count (R.contents s.vectors) (R.contents s'.vectors)
    pub labels : Replaced id s'.count s.id_to_label s'.id_to_label

  -- the index when the last vector is about to be dropped: entry `id` holds what entry `last` held
  record Moved (s : Index R.Carrier L) (id : ℕ) (last : ℕ) (lookup : L) (s' : Index R.Carrier L)
      : Type 0 where
    valid : R.IsValid s'.vectors
    size : length (R.contents s'.vectors) ≡ suc last
    capacity : length s'.id_to_label ≡ length s.id_to_label
    counted : s'.count ≡ last
    looked_up : s'.lookup ≡ lookup
    view : Replaced id last (R.contents s.vectors) (R.contents s'.vectors)
    labels : Replaced id last s.id_to_label s'.id_to_label

  module _ (ops : LabelLookup L) (s : Index R.Carrier L) (id last label : ℕ) (lookup : L)
      (v : IsShaped R s) (last_one : suc last ≡ s.count)
      (labelled : get_elem? s.id_to_label last ≡ some label) where
    move_last-Moved :
        id < last
        → ops.replace_id_of_label label id last s.lookup ≡ some lookup
        → (s' : Index R.Carrier L) × (move_last R ops (record s { count = last }) id last label
            ≡ some s')
          × Moved s id last lookup s'
    unfolding move_last
    move_last-Moved h e =
        let xs = R.contents s.vectors in
        let in_xs : last < length xs = omega (arith, v.counted) in
        let in_labels : id < length s.id_to_label = omega (arith, v.enough) in
        let (x, here) = get_elem?-some xs last in_xs in
        let read = R.get_element-contents s.vectors last v.valid in_xs ∙ here in
        let (vs, updated, valid, view) =
          R.update_element-contents s.vectors id x v.valid (omega arith) in
        (
          record s {
            count = last;
            id_to_label = set s.id_to_label id label;
            lookup = lookup;
            vectors = vs;
          },
          simp (lt→ltb id last h, lt→ltb id (length s.id_to_label) in_labels, e, read, updated),
          record {
            valid = valid;
            size = omega (arith, ap length view, length-set xs id x, v.counted);
            capacity = length-set s.id_to_label id label;
            counted = refl;
            looked_up = refl;
            view = λ j k. rw (view, here) (get_elem?-set xs id j x (omega arith));
            labels = λ j k. rw labelled (get_elem?-set s.id_to_label id j label in_labels);
          },
        )

    -- the step of `removeVector` under `if (id_to_delete != last_idx)`
    moved :
        id ≤ last
        → (if id == last then some s.lookup else ops.replace_id_of_label label id last s.lookup)
          ≡ some lookup
        → (s' : Index R.Carrier L) × ((if id == last
              then some (record s { count = last })
              else move_last R ops (record s { count = last }) id last label)
            ≡ some s')
          × Moved s id last lookup s'
    moved h e = elim (eq_cases id last) [
      | inl same ↦
          let hit = eq→== id last same in
          (
            record s { count = last },
            rw hit refl,
            record {
              valid = v.valid;
              size = omega (arith, v.counted);
              capacity = refl;
              counted = refl;
              looked_up = some-inj (rw hit at e);
              view = λ j k. rw (==_ne id j (omega arith)) refl;
              labels = λ j k. rw (==_ne id j (omega arith)) refl;
            },
          )
      | inr other ↦
          let miss = ==_ne id last other in
          let (s', done, m) = move_last-Moved (omega arith) (rw miss at e) in (s', rw miss done, m)
    ]

  -- the last step: the metadata shrinks when the count reaches a multiple of the block size
  trim :
      (s : Index R.Carrier L)
      → IsLoose R s
      → Trimmed R s (if s.count % n == 0 then shrink_by_block R s else some s)
  trim s v = elim (eq_cases (s.count % n) 0) [
    | inl e ↦ rw (eq→== _ 0 e) (shrink_by_block-Trimmed R s v e)
    | inr e ↦
        rw (==_ne _ 0 e)
          (no_trim R s v (spare_blocks n s.count (length s.id_to_label) v.whole v.spare e))
  ]

  finish_removal-Removed :
      (s s1 : Index R.Carrier L) (id : ℕ) (lookup : L)
      → IsShaped R s
      → suc s1.count ≡ s.count
      → Moved s id s1.count lookup s1
      → (s' : Index R.Carrier L) × (finish_removal R s1 s1.count ≡ some s') × Removed s id lookup s'
  unfolding finish_removal
  finish_removal-Removed s s1 id lookup v last_one m =
      let (vs, removed, valid, view) =
        R.remove_element-contents s1.vectors s1.count m.valid (sym m.size) in
      let xs = R.contents s1.vectors in
      let loose : IsLoose R (record s1 { vectors = vs }) = record {
        positive = v.positive;
        valid = valid;
        counted = omega (arith, ap length view, length-drop_last xs, m.size);
        whole = rw m.capacity v.whole;
        enough = omega (arith, m.capacity, v.enough);
        spare = omega (arith, m.capacity, v.spare);
      } in
      let (labels, trimmed, shaped, kept) = trim (record s1 { vectors = vs }) loose in
      (
        record s1 { vectors = vs; id_to_label = labels },
        simp (removed, ==_ne n 0 (omega (arith, v.positive))) trimmed,
        record {
          shaped = shaped;
          counted = omega arith;
          looked_up = m.looked_up;
          view = λ j k. rw (view, get_elem?-drop_last xs j (omega (arith, m.size))) (m.view j k);
          labels = λ j k. kept j k ∙ m.labels j k;
        },
      )

  -- removing the vector `id` of a well-shaped index fails no assert
  pub remove_vector-Removed :
      (ops : LabelLookup L) (s : Index R.Carrier L) (id last label : ℕ) (lookup : L)
      → IsShaped R s
      → suc last ≡ s.count
      → get_elem? s.id_to_label last ≡ some label
      → id ≤ last
      → (if id == last then some s.lookup else ops.replace_id_of_label label id last s.lookup)
        ≡ some lookup
      → (s' : Index R.Carrier L) × (remove_vector R ops s id ≡ some s') × Removed s id lookup s'
  unfolding remove_vector
  remove_vector-Removed ops s id last label lookup v last_one labelled h e =
      let back : s.count - 1 ≡ last = omega arith in
      let (s1, swapped, m) = moved ops s id last label lookup v last_one labelled h e in
      let at : s1.count ≡ last = m.counted in
      let (s', done, r) =
        finish_removal-Removed s s1 id lookup v (ap suc at ∙ last_one)
          (subst (λ t. Moved s id t lookup s1) (sym at) m) in
      let done' = subst (λ t. finish_removal R s1 t ≡ some s') at done in
      (s', simp (lt→ltb 0 s.count (omega arith), back, labelled, swapped) done', r)
