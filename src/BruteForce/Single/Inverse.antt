-- ===== src/BruteForce/Single/Inverse.antt =====
-- The label of an id and the id of a label, as inverse partial functions on the first ids.
use vector_similarity.Base.{ℕ, suc, ◌<◌, ◌≡◌, Option, some, none, arith, ◌==◌, if◌then◌else◌}

-- `label_of` and `id_of` are inverse on the ids below `count`
pub record IsInverse (count : ℕ) (label_of id_of : ℕ → Option ℕ) : Type 0 where
  pub labelled : (l i : ℕ) → id_of l ≡ some i → (i < count) × (label_of i ≡ some l)
  pub found : (l i : ℕ) → i < count → label_of i ≡ some l → id_of l ≡ some i

-- a new label at the first free id
pub IsInverse-append :
    (count label : ℕ) (label_of id_of label_of' id_of' : ℕ → Option ℕ)
    → IsInverse count label_of id_of
    → id_of label ≡ none
    → ((l : ℕ) → id_of' l ≡ (if label == l then some count else id_of l))
    → label_of' count ≡ some label
    → ((i : ℕ) → i < count → label_of' i ≡ label_of i)
    → IsInverse (suc count) label_of' id_of'
IsInverse-append count label label_of id_of label_of' id_of' v fresh ids here kept = record {
  labelled = λ l i e. ground (arith, ids l, v.labelled l i, kept i);
  found = λ l i h e. ground (arith, ids l, v.found l i, kept i, v.labelled label i);
}

-- the last id takes the place of the deleted one
pub IsInverse-remove :
    (last id label last_label : ℕ) (label_of id_of label_of' id_of' : ℕ → Option ℕ)
    → IsInverse (suc last) label_of id_of
    → id_of label ≡ some id
    → label_of last ≡ some last_label
    → ((l : ℕ)
        → id_of' l ≡ (if label == l then none else if last_label == l then some id else id_of l))
    → ((i : ℕ) → i < last → label_of' i ≡ (if id == i then label_of last else label_of i))
    → IsInverse last label_of' id_of'
IsInverse-remove last id label last_label label_of id_of label_of' id_of' v at top ids kept =
    record {
      labelled = λ l i e.
          ground
            (arith, ids l, kept i, v.labelled l i, v.labelled label id, v.found last_label last);
      found = λ l i h e. ground (
        arith,
        ids l,
        kept i,
        v.found l i,
        v.labelled label id,
        v.found last_label last,
        v.labelled l last,
      );
    }
