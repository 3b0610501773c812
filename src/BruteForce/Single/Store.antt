-- ===== src/BruteForce/Single/Store.antt =====
-- The single-value index as a finite map from labels to stored blobs.
use native.Mathlib.Numerals.{add-one}
use vector_similarity.BruteForce.Single.Views.{blob_at-append, blob_at-set, blob_at-remove}
use vector_similarity.Base.{
  ℕ, suc, ◌+◌, ◌-◌, ◌<◌, ◌≡◌, ◌≢◌, refl, ap, subst, ◌∙◌, Option, some, none, length, get_elem?,
  arith, ◌==◌, if◌then◌else◌, eq_cases, inl, inr, ◌>>=◌, length-set, get_elem?-some, ==_ne, eq→==,
}
use vector_similarity.Base.Dict
use vector_similarity.Base.Dict.{Dict, find, find-erase, find-emplace, find-insert}
use vector_similarity.Containers.Raw.{RawContainer}
use vector_similarity.BruteForce.{IndexComponents, append_vector, remove_vector}
use vector_similarity.BruteForce.Capacity.{IsShaped}
use vector_similarity.BruteForce.Append.{append_vector-Appended}
use vector_similarity.BruteForce.Remove.{Replaced, remove_vector-Removed}
use vector_similarity.BruteForce.Single.Inverse.{IsInverse, IsInverse-append, IsInverse-remove}
use vector_similarity.BruteForce.Single.{SingleIndex, lookup_ops, replace_id_of_label}

-- the lookup after `label` is erased and the last label takes the id of `label`
erased_lookup :
    (last id label top : ℕ) (label_of : ℕ → Option ℕ) (d : Dict ℕ)
    → IsInverse (suc last) label_of (λ l. find l d)
    → find label d ≡ some id
    → label_of last ≡ some top
    → (d' : Dict ℕ) × ((if id == last
          then some (Dict.erase label d)
          else replace_id_of_label top id last (Dict.erase label d))
        ≡ some d')
      × ((l : ℕ)
          → find l d' ≡ (if label == l then none else if top == l then some id else find l d))
erased_lookup last id label top label_of d v at here = elim (eq_cases id last) [
  | inl same ↦ (
    Dict.erase label d,
    rw (eq→== id last same) refl,
    λ l. ground (arith, find-erase label l d, v.labelled label id at, v.found top last),
  )
  | inr other ↦
      let e = Dict.erase label d in
      let kept : find top e ≡ some last =
        ground (arith, find-erase label top d, v.labelled label id at, v.found top last) in
      let apart : label ≢ top = λ q. ground (arith, v.found top last, v.labelled label id at) in
      (
        Dict.insert top id e,
        rw (==_ne id last other, kept) refl,
        λ l. ground (arith, find-insert top l id e, find-erase label l d),
      )
]

module _ {A : Type 0} {n : ℕ} (R : RawContainer A n) where
  pub record IsIndexed (s : SingleIndex R) : Type 0 where
    pub shaped : IsShaped R s
    pub inverse : IsInverse s.count (get_elem? s.id_to_label) (λ l. find l s.lookup)

  -- the blob stored under a label
  abbrev pub stored : SingleIndex R → ℕ → Option A
  stored s l = find l s.lookup >>= λ id. get_elem? (R.contents s.vectors) id

  -- an index with `blob` stored under `label`, and the other labels as in `s`
  pub record Put (s : SingleIndex R) (label : ℕ) (blob : A) (s' : SingleIndex R) : Type 0 where
    pub indexed : IsIndexed s'
    pub view : (l : ℕ) → stored s' l ≡ (if label == l then some blob else stored s l)

  pub add_new :
      (env : IndexComponents A) (s : SingleIndex R) (blob : A) (label : ℕ)
      → IsIndexed s
      → find label s.lookup ≡ none
      → (s' : SingleIndex R) × (append_vector R env lookup_ops s blob label ≡ some s')
        × Put s label (env.preprocess_for_storage blob) s'
        × (s'.count ≡ s.count + 1)
  add_new env s blob label v fresh =
      let x = env.preprocess_for_storage blob in
      let lk = Dict.emplace label s.count s.lookup in
      let (s', done, a) = append_vector-Appended R env lookup_ops s blob label lk v.shaped refl in
      let ids : (l : ℕ)
          → find l s'.lookup ≡ (if label == l then some s.count else find l s.lookup) =
        λ l. ap (find l) a.looked_up ∙ find-emplace label l s.count s.lookup fresh in
      let len = v.shaped.counted in
      let inverse =
        IsInverse-append s.count label (get_elem? s.id_to_label) (λ l. find l s.lookup)
          (get_elem? s'.id_to_label) (λ l. find l s'.lookup) v.inverse fresh ids a.labelled
          a.kept in
      (
        s',
        done,
        record {
          indexed = record { shaped = a.shaped; inverse = rw (a.counted, add-one) inverse };
          view = λ l. rw a.view (
              blob_at-append (R.contents s.vectors) x label (get_elem? s.id_to_label)
                (λ l. find l s.lookup) (λ l. find l s'.lookup) l (rw len v.inverse)
                (rw len (ids l)));
        },
        a.counted,
      )

  pub update :
      (s : SingleIndex R) (blob : A) (label id : ℕ)
      → IsIndexed s
      → find label s.lookup ≡ some id
      → (vs : R.Carrier) × (R.update_element s.vectors id blob ≡ some vs)
        × Put s label blob (record s { vectors = vs })
  update s blob label id v at =
      let xs = R.contents s.vectors in
      let len = v.shaped.counted in
      let inside : id < length xs = rw len (v.inverse.labelled label id at).0 in
      let (vs, done, valid, view) =
        R.update_element-contents s.vectors id blob v.shaped.valid inside in
      (
        vs,
        done,
        record {
          indexed = record {
            shaped = record {
              positive = v.shaped.positive;
              valid = valid;
              counted = omega (arith, ap length view, length-set xs id blob, len);
              whole = v.shaped.whole;
              enough = v.shaped.enough;
              spare = v.shaped.spare;
            };
            inverse = v.inverse;
          };
          view = λ l. rw view (
              blob_at-set xs blob label id (get_elem? s.id_to_label) (λ l. find l s.lookup) l
                (rw len v.inverse) at);
        },
      )

  -- an index without `label`, and the other labels as in `s`
  pub record Erased (s : SingleIndex R) (label : ℕ) (s' : SingleIndex R) : Type 0 where
    pub indexed : IsIndexed s'
    pub view : (l : ℕ) → stored s' l ≡ (if label == l then none else stored s l)
    pub counted : s'.count + 1 ≡ s.count

  erase-IsShaped :
      (s : SingleIndex R) (label : ℕ)
      → IsShaped R s
      → IsShaped R (record s { lookup = Dict.erase label s.lookup })
  erase-IsShaped s label v = record {
    positive = v.positive;
    valid = v.valid;
    counted = v.counted;
    whole = v.whole;
    enough = v.enough;
    spare = v.spare;
  }

  pub remove :
      (s : SingleIndex R) (label id : ℕ)
      → IsIndexed s
      → find label s.lookup ≡ some id
      → (s' : SingleIndex R) × (remove_vector R lookup_ops
            (record s { lookup = Dict.erase label s.lookup })
            id
          ≡ some s')
        × Erased s label s'
        × Replaced id s'.count s.id_to_label s'.id_to_label
        × Replaced id s'.count (R.contents s.vectors) (R.contents s'.vectors)
  remove s label id v at =
      let c = s.count in
      let last = c - 1 in
      let inside = (v.inverse.labelled label id at).0 in
      let suc_last : suc last ≡ c = omega arith in
      let (top, here) = get_elem?-some s.id_to_label last (omega (arith, v.shaped.enough)) in
      let inverse : IsInverse (suc last) (get_elem? s.id_to_label) (λ l. find l s.lookup) =
        rw suc_last v.inverse in
      let (lk, replaced, ids) =
        erased_lookup last id label top (get_elem? s.id_to_label) s.lookup inverse at here in
      let s0 = record s { lookup = Dict.erase label s.lookup } in
      let (s', done, r) =
        remove_vector-Removed R lookup_ops s0 id last top lk (erase-IsShaped s label v.shaped)
          suc_last here (omega arith) replaced in
      let count : s'.count ≡ last = omega (arith, r.counted) in
      let ids' : (l : ℕ)
          → find l s'.lookup
            ≡ (if label == l then none else if top == l then some id else find l s.lookup) =
        λ l. ap (find l) r.looked_up ∙ ids l in
      (
        s',
        done,
        record {
          indexed = record {
            shaped = r.shaped;
            inverse = rw count (
                IsInverse-remove last id label top (get_elem? s.id_to_label) (λ l. find l s.lookup)
                  (get_elem? s'.id_to_label) (λ l. find l s'.lookup) inverse at here ids'
                  (subst (λ m. Replaced id m s.id_to_label s'.id_to_label) count r.labels));
          };
          view = λ l.
              blob_at-remove (R.contents s.vectors) (R.contents s'.vectors) last id label top
                (get_elem? s.id_to_label) (λ k. find k s.lookup) (λ k. find k s'.lookup) l inverse
                at here (ids' l)
                (subst (λ m. Replaced id m (R.contents s.vectors) (R.contents s'.vectors)) count
                  r.view);
          counted = r.counted;
        },
        r.labels,
        r.view,
      )
