-- ===== src/Containers/Blocks.antt =====
-- src/VecSim/containers/data_block.{h,cpp} and data_blocks_container.{h,cpp}: elements kept in
-- blocks of a fixed number of elements. An element is one value here, in place of
-- `element_bytes_count` bytes, and a block holds its first `length` elements: the memory past them
-- is not represented. Allocation does not fail.
pub mod Packed
pub mod Last
pub mod Flat
pub mod Iteration
pub mod Container
mod Tests
use vector_similarity.Base.{
  ℕ, zero, suc, ◌+◌, ◌-◌, ◌/◌, ◌%◌, ◌<◌, Bool, List, [], ◌∷◌, ◌++◌, Option, some, none, length,
  get_elem?, set, drop_last, ltb, ◌==◌, if◌then◌else◌, ◌>>=◌, ◌>>◌, assert, not,
}

-- `a / b` and `a % b`, which trap on zero
abbrev pub quotient : ℕ → ℕ → Option ℕ
quotient a b = if b == 0 then none else some (a / b)

abbrev pub remainder : ℕ → ℕ → Option ℕ
remainder a b = if b == 0 then none else some (a % b)

-- `v.back() = f(v.back())`
unfoldable pub modify_back {ℓ} : {B : Type ℓ} → (B → Option B) → List B → Option (List B)
modify_back f [] = none
modify_back f (b ∷ []) = do b' ← f b; some (b' ∷ [])
modify_back f (b ∷ c ∷ bs) = do rest ← modify_back f (c ∷ bs); some (b ∷ rest)

unfoldable pub get_back {ℓ} : {B : Type ℓ} → List B → Option B
get_back [] = none
get_back (b ∷ []) = some b
get_back (b ∷ c ∷ bs) = get_back (c ∷ bs)

-- DataBlock
abbrev pub DataBlock : Type 0 → Type 0
DataBlock A = List A

module _ {A : Type 0} where
  -- DataBlock::addElement
  unfoldable pub add_to_block : A → DataBlock A → Option (DataBlock A)
  add_to_block x b = some (b ++ x ∷ [])

  -- DataBlock::updateElement, at an index that the block holds
  unfoldable pub update_in_block : ℕ → A → DataBlock A → Option (DataBlock A)
  update_in_block i x b = if ltb i (length b) then some (set b i x) else none

  -- DataBlock::popLastElement
  unfoldable pub pop_last_element : DataBlock A → Option (DataBlock A)
  pop_last_element b = assert (ltb 0 (length b)) >> some (drop_last b)

-- DataBlocksContainer
pub record Blocks (A : Type 0) : Type 0 where
  pub element_count : ℕ
  pub blocks : List (DataBlock A)
  pub block_size : ℕ

-- DataBlocksContainer::Iterator. `cur_element` is the block and the offset that the pointer
-- stands at, `none` for the null pointer.
pub record Iterator : Type 0 where
  pub cur_id : ℕ
  pub cur_element : Option (ℕ × ℕ)

unfoldable pub start : Iterator
start = record { cur_id = 0; cur_element = none }

module _ {A : Type 0} where
  unfoldable pub init : ℕ → Blocks A
  init bs = record { element_count = 0; blocks = []; block_size = bs }

  unfoldable pub size : Blocks A → ℕ
  size c = c.element_count

  unfoldable pub num_blocks : Blocks A → ℕ
  num_blocks c = length c.blocks

  unfoldable pub add_element : Blocks A → A → ℕ → Option (Blocks A)
  unfolding add_to_block
  add_element c x id = do
    assert (id == c.element_count)
    r ← remainder c.element_count c.block_size
    let grown = if r == 0 then c.blocks ++ [] ∷ [] else c.blocks
    bs ← modify_back (add_to_block x) grown
    some (record c { element_count = c.element_count + 1; blocks = bs })

  unfoldable pub get_element : Blocks A → ℕ → Option A
  get_element c id = do
    assert (ltb id c.element_count)
    q ← quotient id c.block_size
    r ← remainder id c.block_size
    block ← get_elem? c.blocks q
    get_elem? block r

  unfoldable pub remove_element : Blocks A → ℕ → Option (Blocks A)
  unfolding pop_last_element
  remove_element c id = do
    assert (id + 1 == c.element_count)
    bs ← modify_back pop_last_element c.blocks
    last ← get_back bs
    some (record c {
      element_count = c.element_count - 1;
      blocks = if length last == 0 then drop_last bs else bs;
    })

  unfoldable pub update_element : Blocks A → ℕ → A → Option (Blocks A)
  unfolding update_in_block
  update_element c id x = do
    assert (ltb id c.element_count)
    q ← quotient id c.block_size
    r ← remainder id c.block_size
    block ← get_elem? c.blocks q
    block' ← update_in_block r x block
    some (record c { blocks = set c.blocks q block' })

  unfoldable pub has_next : Blocks A → Iterator → Bool
  has_next c it = not (it.cur_id == c.element_count)

  -- the pointer after the step: recomputed at the start of a block, moved by one element elsewhere
  unfoldable pub advance : Blocks A → Iterator → Option (ℕ × ℕ)
  advance c it = do
    r ← remainder it.cur_id c.block_size
    q ← quotient it.cur_id c.block_size
    let fresh = (assert (ltb it.cur_id c.element_count) >> some (q, r))
    let moved = (it.cur_element >>= λ (b, o). some (b, o + 1))
    if r == 0 then fresh else moved

  -- `next`: the outer `none` is a fault, the inner one the null pointer at the end
  unfoldable pub next : Blocks A → Iterator → Option (Option A × Iterator)
  unfolding has_next advance
  next c it =
      let step : Option (Option A × Iterator) = do
        (b, o) ← advance c it
        block ← get_elem? c.blocks b
        x ← get_elem? block o
        some (some x, record { cur_id = it.cur_id + 1; cur_element = some (b, o) })
      in if has_next c it then step else some (none, it)
