-- ===== src/BruteForce/Multi.antt =====
-- src/VecSim/algorithms/brute_force/brute_force_multi.h: the flat index with any number of vectors a
-- label. A range-based `for` over the ids of a label reads the vector that the calls in its body
-- write to: a round takes the id at its position in the lookup of the moment.
mod Places
mod Live
mod Round
pub mod Refinement
pub mod Deletion
pub mod Moves
pub mod ById
pub mod Distance
pub mod History
pub mod Tests
use vector_similarity.Base.{
  ℕ, zero, suc, ◌+◌, ◌-◌, ◌<◌, Bool, true, false, List, [], ◌∷◌, ◌++◌, Option, some, none, length,
  get_elem?, set, ltb, ◌==◌, if◌then◌else◌, ◌>>=◌, ◌>>◌, assert,
}
use vector_similarity.Base.Dict
use vector_similarity.Base.Dict.{Dict}
use vector_similarity.Containers.Raw.{RawContainer}
use vector_similarity.BruteForce.{Index, IndexComponents, LabelLookup, append_vector, remove_vector}

abbrev pub set_vector_id : ℕ → ℕ → Dict (List ℕ) → Option (Dict (List ℕ))
set_vector_id label id d = elim (Dict.find label d) [
  | some ids ↦ some (Dict.insert label (ids ++ id ∷ []) d)
  | none ↦ some (Dict.emplace label (id ∷ []) d)
]

-- The loop of `replaceIdOfLabel` from position `i - 1` down to 0; no position is a failed assert.
unfoldable pub replace_from : ℕ → List ℕ → ℕ → ℕ → Option (List ℕ)
replace_from zero ids new_id old_id = none
replace_from (suc i) ids new_id old_id =
    let rest = replace_from i ids new_id old_id in
    do id ← get_elem? ids i; if id == old_id then some (set ids i new_id) else rest

abbrev pub replace_id_of_label : ℕ → ℕ → ℕ → Dict (List ℕ) → Option (Dict (List ℕ))
replace_id_of_label label new_id old_id d = do
  ids ← Dict.find label d
  ids' ← replace_from (length ids) ids new_id old_id
  some (Dict.insert label ids' d)

abbrev pub lookup_ops : LabelLookup (Dict (List ℕ))
lookup_ops = record { set_vector_id = set_vector_id; replace_id_of_label = replace_id_of_label }

-- the first position of an id, as the loop of `deleteVectorById` looks for it
unfoldable pub index_of : ℕ → List ℕ → Option ℕ
index_of id [] = none
index_of id (x ∷ ids) =
    let rest = index_of id ids in if x == id then some 0 else (rest >>= λ i. some (suc i))

-- `ids.erase(ids.begin() + i)`
unfoldable pub erase_at {ℓ} : {B : Type ℓ} → ℕ → List B → List B
erase_at i [] = []
erase_at zero (x ∷ xs) = xs
erase_at (suc i) (x ∷ xs) = x ∷ erase_at i xs

-- `ids.erase`, and of the label where no id is left
abbrev pub write_ids : ℕ → List ℕ → Dict (List ℕ) → Dict (List ℕ)
write_ids label [] d = Dict.erase label d
write_ids label (id ∷ ids) d = Dict.insert label (id ∷ ids) d

-- `updated_ids` after the vector `id` is removed, where `count` vectors are left and the last one
-- had the label `last_id_label`
unfoldable pub move_update : ℕ → ℕ → ℕ → Dict (ℕ × ℕ) → Dict (ℕ × ℕ)
move_update id count last_id_label updated_ids =
    let u = Dict.erase id updated_ids in
    if id == count then u else elim (Dict.find count u) [
      | some original ↦ Dict.erase count (Dict.insert id original u)
      | none ↦ Dict.insert id (count, last_id_label) u
    ]

module _ {A : Type 0} {n : ℕ} (R : RawContainer A n) where
  abbrev pub MultiIndex : Type 0
  MultiIndex = Index R.Carrier (Dict (List ℕ))

  pub add_vector : IndexComponents A → MultiIndex → A → ℕ → Option (MultiIndex × ℕ)
  add_vector env s blob label = do s' ← append_vector R env lookup_ops s blob label; some (s', 1)

  -- The loop of `deleteVector` over the ids of `label`: `rounds` of them are left, from position
  -- `i`, and `ret` vectors are removed.
  pub delete_ids : ℕ → ℕ → ℕ → MultiIndex → ℕ → Option (MultiIndex × ℕ)
  delete_ids zero i label s ret = some (s, ret)
  delete_ids (suc rounds) i label s ret = do
    ids ← Dict.find label s.lookup
    id_to_delete ← get_elem? ids i
    s' ← remove_vector R lookup_ops s id_to_delete
    delete_ids rounds (suc i) label s' (ret + 1)

  pub delete_vector : MultiIndex → ℕ → Option (MultiIndex × ℕ)
  delete_vector s label = elim (Dict.find label s.lookup) [
    | none ↦ some (s, 0)
    | some ids ↦ do
      (s', ret) ← delete_ids (length ids) 0 label s 0
      some (record s' { lookup = Dict.erase label s'.lookup }, ret)
  ]

  -- The loop of `deleteVectorAndGetUpdatedIds`.
  pub update_ids : ℕ → ℕ → ℕ → MultiIndex → Dict (ℕ × ℕ) → Option (MultiIndex × Dict (ℕ × ℕ))
  update_ids zero i label s updated_ids = some (s, updated_ids)
  update_ids (suc rounds) i label s updated_ids = do
    ids ← Dict.find label s.lookup
    cur_id_to_delete ← get_elem? ids i
    last_id_label ← get_elem? s.id_to_label (s.count - 1)
    s' ← remove_vector R lookup_ops s cur_id_to_delete
    update_ids rounds (suc i) label s'
        (move_update cur_id_to_delete s'.count last_id_label updated_ids)

  pub delete_vector_and_get_updated_ids : MultiIndex → ℕ → Option (MultiIndex × Dict (ℕ × ℕ))
  delete_vector_and_get_updated_ids s label = elim (Dict.find label s.lookup) [
    | none ↦ some (s, [])
    | some ids ↦ do
      (s', updated_ids) ← update_ids (length ids) 0 label s []
      some (record s' { lookup = Dict.erase label s'.lookup }, updated_ids)
  ]

  -- An id that is not one of the label is a failed assert.
  pub delete_vector_by_id : MultiIndex → ℕ → ℕ → Option (MultiIndex × ℕ)
  delete_vector_by_id s label id = elim (Dict.find label s.lookup) [
    | none ↦ some (s, 0)
    | some ids ↦ do
      i ← index_of id ids
      s' ← remove_vector R lookup_ops s id
      ids' ← Dict.find label s'.lookup
      some (record s' { lookup = write_ids label (erase_at i ids') s'.lookup }, 1)
  ]

  -- the loop of `getDistanceFrom_Unsafe`, with the least distance so far
  pub least_distance : IndexComponents A → MultiIndex → List ℕ → A → ℕ → Option ℕ
  least_distance env s [] blob dist = some dist
  least_distance env s (id ∷ ids) blob dist = do
    x ← R.get_element s.vectors id
    let d = env.calc_distance x blob
    least_distance env s ids blob (if ltb dist d then dist else d)

  -- `none` inside stands for INVALID_SCORE
  pub get_distance_from_unsafe : IndexComponents A → ℕ → MultiIndex → ℕ → A → Option (Option ℕ)
  get_distance_from_unsafe env infinity s label blob = elim (Dict.find label s.lookup) [
    | none ↦ some none
    | some ids ↦ do dist ← least_distance env s ids blob infinity; some (some dist)
  ]

  pub index_label_count : MultiIndex → ℕ
  index_label_count s = length s.lookup

  pub is_label_exists : MultiIndex → ℕ → Bool
  is_label_exists s label = elim (Dict.find label s.lookup) [ none ↦ false | some _ ↦ true ]

  pub get_labels_set : MultiIndex → List ℕ
  get_labels_set s = Dict.keys s.lookup

  pub get_element_ids : MultiIndex → ℕ → List ℕ
  get_element_ids s label = elim (Dict.find label s.lookup) [ none ↦ [] | some ids ↦ ids ]
