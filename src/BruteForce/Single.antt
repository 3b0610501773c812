-- ===== src/BruteForce/Single.antt =====
-- src/VecSim/algorithms/brute_force/brute_force_single.h: the flat index with one vector a label.
pub mod Inverse
pub mod Views
pub mod Store
pub mod Refinement
pub mod Swaps
pub mod History
pub mod Tests
use vector_similarity.Base.{
  ℕ, suc, ◌+◌, ◌-◌, ◌≤◌, ◌<◌, Bool, true, false, List, [], ◌∷◌, Option, some, none, get_elem?, ◌==◌,
  if◌then◌else◌, ◌>>=◌, ◌>>◌, assert,
}
use vector_similarity.Base.Dict
use vector_similarity.Base.Dict.{Dict}
use vector_similarity.Containers.Raw.{RawContainer}
use vector_similarity.BruteForce.{
  Index, IndexComponents, LabelLookup, index_size, append_vector, remove_vector,
}

-- `setVectorId` is `emplace`; `replaceIdOfLabel` writes through `at`, which throws on a missing
-- label.
abbrev pub set_vector_id : ℕ → ℕ → Dict ℕ → Option (Dict ℕ)
set_vector_id label id d = some (Dict.emplace label id d)

abbrev pub replace_id_of_label : ℕ → ℕ → ℕ → Dict ℕ → Option (Dict ℕ)
replace_id_of_label label new_id old_id d = do
  _ ← Dict.find label d
  some (Dict.insert label new_id d)

abbrev pub lookup_ops : LabelLookup (Dict ℕ)
lookup_ops = record { set_vector_id = set_vector_id; replace_id_of_label = replace_id_of_label }

module _ {A : Type 0} {n : ℕ} (R : RawContainer A n) where
  abbrev pub SingleIndex : Type 0
  SingleIndex = Index R.Carrier (Dict ℕ)

  -- The number returned is 1 for a new label, 0 for an update.
  pub add_vector : IndexComponents A → SingleIndex → A → ℕ → Option (SingleIndex × ℕ)
  add_vector env s blob label = elim (Dict.find label s.lookup) [
    | some id ↦ do
      vectors ← R.update_element s.vectors id blob
      some (record s { vectors = vectors }, 0)
    | none ↦ do s' ← append_vector R env lookup_ops s blob label; some (s', 1)
  ]

  pub delete_vector : SingleIndex → ℕ → Option (SingleIndex × ℕ)
  delete_vector s label = elim (Dict.find label s.lookup) [
    | none ↦ some (s, 0)
    | some id ↦ do
      s' ← remove_vector R lookup_ops (record s { lookup = Dict.erase label s.lookup }) id
      some (s', 1)
  ]

  pub delete_vector_by_id : SingleIndex → ℕ → ℕ → Option (SingleIndex × ℕ)
  delete_vector_by_id s label id = delete_vector s label

  -- The map returned has, under the id that a vector was moved to, its old id and its label.
  pub delete_vector_and_get_updated_ids : SingleIndex → ℕ → Option (SingleIndex × Dict (ℕ × ℕ))
  delete_vector_and_get_updated_ids s label = elim (Dict.find label s.lookup) [
    | none ↦ some (s, [])
    | some id ↦ do
      last_id_label ← get_elem? s.id_to_label (s.count - 1)
      s' ← remove_vector R lookup_ops (record s { lookup = Dict.erase label s.lookup }) id
      some (s', if id == s'.count then [] else Dict.insert id (s'.count, last_id_label) [])
  ]

  -- `none` inside stands for INVALID_SCORE
  pub get_distance_from_unsafe : IndexComponents A → SingleIndex → ℕ → A → Option (Option ℕ)
  get_distance_from_unsafe env s label blob = elim (Dict.find label s.lookup) [
    | none ↦ some none
    | some id ↦ do x ← R.get_element s.vectors id; some (some (env.calc_distance x blob))
  ]

  pub index_label_count : SingleIndex → ℕ
  index_label_count s = s.count

  pub is_label_exists : SingleIndex → ℕ → Bool
  is_label_exists s label = elim (Dict.find label s.lookup) [ none ↦ false | some _ ↦ true ]

  pub get_labels_set : SingleIndex → List ℕ
  get_labels_set s = Dict.keys s.lookup

  pub get_element_ids : SingleIndex → ℕ → List ℕ
  get_element_ids s label = elim (Dict.find label s.lookup) [ none ↦ [] | some id ↦ id ∷ [] ]
