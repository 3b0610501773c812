-- ===== src/BruteForce.antt =====
-- src/VecSim/algorithms/brute_force/brute_force.h: the flat index that BruteForceIndex_Single and
-- BruteForceIndex_Multi share. `none` is a failed `assert` or an `at` out of range; ids do not
-- reach 2^32. A vector's capacity is its size, as the asserts of the code want after
-- `shrink_to_fit`, and `reserve` of the label lookup has no effect that is seen.
pub mod Capacity
pub mod Append
pub mod Remove
pub mod Single
pub mod Multi
pub mod Search
use vector_similarity.Base.{
  ℕ, zero, suc, ◌+◌, ◌-◌, ◌*◌, ◌<◌, List, [], ◌∷◌, Option, some, none, length, get_elem?, set,
  resize, ltb, leb, ◌==◌, if◌then◌else◌, ◌>>=◌, ◌>>◌, assert,
}
use vector_similarity.Containers.Raw.{RawContainer}
use vector_similarity.Containers.Blocks.{quotient, remainder}

-- What an index is given by the factories, none of it under src/VecSim/algorithms: the blob as it
-- is stored, the blob as it is searched by, and the distance. A distance is a number that stands
-- for its place in the order of the floating-point values other than NaN.
pub record IndexComponents (A : Type 0) : Type 0 where
  pub preprocess_for_storage : A → A
  pub preprocess_query : A → A
  pub calc_distance : A → A → ℕ

-- The virtual methods by which the base keeps the label lookup of the derived index.
pub record LabelLookup (L : Type 0) : Type 0 where
  pub set_vector_id : ℕ → ℕ → L → Option L
  pub replace_id_of_label : ℕ → ℕ → ℕ → L → Option L

-- `V` is the raw container, `L` the derived index's lookup. The field `blockSize` is the `n` of the
-- operations below, which the constructor also gives to the container.
pub record Index (V L : Type 0) : Type 0 where
  pub id_to_label : List ℕ
  pub count : ℕ
  pub vectors : V
  pub lookup : L

-- `v.at(i) = x`
abbrev pub write_at {ℓ} : {B : Type ℓ} → List B → ℕ → B → Option (List B)
write_at v i x = if ltb i (length v) then some (set v i x) else none

module _ {A : Type 0} {n : ℕ} (R : RawContainer A n) {L : Type 0} where
  abbrev pub index_size : Index R.Carrier L → ℕ
  index_size s = s.count

  abbrev pub index_capacity : Index R.Carrier L → ℕ
  index_capacity s = length s.id_to_label

  pub resize_index_common : Index R.Carrier L → ℕ → Option (Index R.Carrier L)
  resize_index_common s new_max = do
    r ← remainder new_max n
    assert (r == 0)
    some (record s { id_to_label = resize s.id_to_label new_max 0 })

  pub grow_by_block : Index R.Carrier L → Option (Index R.Carrier L)
  grow_by_block s = do
    r ← remainder (index_capacity s) n
    assert (r == 0)
    assert (index_capacity s == index_size s)
    q ← quotient (index_size s) n
    assert (R.num_blocks s.vectors == q)
    resize_index_common s (index_capacity s + n)

  -- the second branch of `shrinkByBlock`
  pub cut_block : Index R.Carrier L → Option (Index R.Carrier L)
  cut_block s = do
    assert (R.size s.vectors + 2 * n == index_capacity s)
    resize_index_common s (index_capacity s - n)

  pub shrink_by_block : Index R.Carrier L → Option (Index R.Carrier L)
  shrink_by_block s = do
    assert (leb n (index_capacity s))
    r ← remainder (index_capacity s) n
    assert (r == 0)
    q ← quotient (index_size s) n
    assert (R.num_blocks s.vectors == q)
    if index_size s == 0
        then resize_index_common s 0
        else if leb (index_size s + 2 * n) (index_capacity s)
        then cut_block s
        else some s

  pub append_vector :
      IndexComponents A → LabelLookup L → Index R.Carrier L → A → ℕ → Option (Index R.Carrier L)
  append_vector env ops s blob label = do
    s ← if leb (index_capacity s) (index_size s) then grow_by_block s else some s
    let id = s.count
    vectors ← R.add_element s.vectors (env.preprocess_for_storage blob) id
    labels ← write_at s.id_to_label id label
    lookup ← ops.set_vector_id label id s.lookup
    some
        (record s { count = s.count + 1; vectors = vectors; id_to_label = labels; lookup = lookup })

  -- the last vector takes the place of the deleted one
  pub move_last : LabelLookup L → Index R.Carrier L → ℕ → ℕ → ℕ → Option (Index R.Carrier L)
  move_last ops s id last last_label = do
    assert (ltb id last)
    labels ← write_at s.id_to_label id last_label
    lookup ← ops.replace_id_of_label last_label id last s.lookup
    last_data ← R.get_element s.vectors last
    vectors ← R.update_element s.vectors id last_data
    some (record s { id_to_label = labels; lookup = lookup; vectors = vectors })

  -- the end of `removeVector`, from `this->vectors->removeElement(last_idx)`
  pub finish_removal : Index R.Carrier L → ℕ → Option (Index R.Carrier L)
  finish_removal s last = do
    vectors ← R.remove_element s.vectors last
    let s = record s { vectors = vectors }
    r ← remainder s.count n
    if r == 0 then shrink_by_block s else some s

  -- On an empty index `--count` wraps round, and `at` throws.
  pub remove_vector : LabelLookup L → Index R.Carrier L → ℕ → Option (Index R.Carrier L)
  remove_vector ops s id = do
    assert (ltb 0 s.count)
    let last = s.count - 1
    let s = record s { count = last }
    last_label ← get_elem? s.id_to_label last
    s ← if id == last then some s else move_last ops s id last last_label
    finish_removal s last
