-- ===== src/Containers/Blocks/Flat.antt =====
-- DataBlocksContainer as a sequence: its `contents` are the elements of the blocks in turn, and
-- each operation does to them what it says.
use vector_similarity.Base.{
  ℕ, suc, ◌+◌, ◌-◌, ◌*◌, ◌/◌, ◌%◌, ◌<◌, ◌≡◌, refl, ap, subst, ◌∙◌, List, [], ◌∷◌, ◌++◌, Option,
  some, length, get_elem?, set, drop_last, arith, length-append, length-set, ◌==◌, ==_self, ==_ne,
  lt→ltb, true, length-drop_last,
}
use vector_similarity.Containers.Blocks.Packed.{
  flat, IsPacked, IsFull, length-flat, IsPacked-IsFull, flat-block, IsPacked-set, flat-set,
}
use vector_similarity.Containers.Blocks.Last.{room_for-Grown, popped_blocks, trimmed}
use vector_similarity.Containers.Blocks.{
  Blocks, init, add_to_block, pop_last_element, size, num_blocks, add_element, get_element,
  remove_element, update_element,
}

module _ {A : Type 0} where
  abbrev pub contents : Blocks A → List A
  contents c = flat c.blocks

  pub record IsValid (c : Blocks A) : Type 0 where
    pub positive : 0 < c.block_size
    pub packed : IsPacked c.block_size c.blocks
    pub counted : c.element_count ≡ length (contents c)

  pub size-contents : (c : Blocks A) → IsValid c → size c ≡ length (contents c)
  unfolding size
  size-contents c v = v.counted

  -- getElement at an id in range of a valid container reads the contents at that id.
  pub get_element-contents :
      (c : Blocks A) (i : ℕ)
      → IsValid c
      → i < length (contents c)
      → get_element c i ≡ get_elem? (contents c) i
  unfolding get_element
  get_element-contents c i v h =
      let (b, found, same, _) = flat-block c.block_size c.blocks i v.positive v.packed h in
      rw (lt→ltb i c.element_count (omega arith), ==_ne c.block_size 0 (omega arith), found, same)

  -- updateElement at an id in range succeeds on a valid container, keeps it valid and replaces
  -- that one of its contents.
  pub update_element-contents :
      (c : Blocks A) (i : ℕ) (x : A)
      → IsValid c
      → i < length (contents c)
      → (c' : Blocks A) × (update_element c i x ≡ some c')
        × IsValid c'
        × (contents c' ≡ set (contents c) i x)
  unfolding update_element
  update_element-contents c i x v h =
      let n = c.block_size in
      let (b, found, same, within) = flat-block n c.blocks i v.positive v.packed h in
      let written = flat-set n c.blocks i x b v.positive v.packed h found in
      let b' = set b (i % n) x in
      (
        record c { blocks = set c.blocks (i / n) b' },
        rw (
          lt→ltb i c.element_count (omega arith),
          ==_ne n 0 (omega arith),
          found,
          lt→ltb (i % n) (length b) within,
        ),
        record {
          positive = v.positive;
          packed = IsPacked-set n c.blocks (i / n) b b' v.packed found (length-set b (i % n) x);
          counted = omega (arith, ap length written, length-set (flat c.blocks) i x);
        },
        written,
      )

  -- addElement at the next id succeeds on a valid container, keeps it valid and appends the
  -- element to its contents.
  pub add_element-contents :
      (c : Blocks A) (x : A)
      → IsValid c
      → (c' : Blocks A) × (add_element c x (length (contents c)) ≡ some c')
        × IsValid c'
        × (contents c' ≡ contents c ++ x ∷ [])
  unfolding add_element add_to_block
  add_element-contents c x v =
      let n = c.block_size in
      let (bs, done, packed, view) = room_for-Grown n x c.blocks v.positive v.packed in
      (
        record c { element_count = c.element_count + 1; blocks = bs },
        rw (v.counted, ==_self (length (flat c.blocks)), ==_ne n 0 (omega arith), done),
        record {
          positive = v.positive;
          packed = packed;
          counted = omega (arith, ap length view, length-append (flat c.blocks) (x ∷ []));
        },
        view,
      )

  -- removeElement of the last id succeeds on a valid container, keeps it valid and drops the
  -- last of its contents.
  pub remove_element-contents :
      (c : Blocks A) (i : ℕ)
      → IsValid c
      → suc i ≡ length (contents c)
      → (c' : Blocks A) × (remove_element c i ≡ some c')
        × IsValid c'
        × (contents c' ≡ drop_last (contents c))
  unfolding remove_element pop_last_element
  remove_element-contents c i v h =
      let n = c.block_size in
      let (bs, last, pops, back, packed, view) =
        popped_blocks n c.blocks v.positive v.packed (omega arith) in
      let at_end : (i + 1 == c.element_count) ≡ true = ground arith in
      (
        record c { element_count = c.element_count - 1; blocks = trimmed last bs },
        rw (at_end, pops, back),
        record {
          positive = v.positive;
          packed = packed;
          counted = omega (arith, ap length view, length-drop_last (flat c.blocks));
        },
        view,
      )

-- valid, with blocks of `n` elements
pub record IsValidOf {A : Type 0} (n : ℕ) (c : Blocks A) : Type 0 where
  pub valid : IsValid c
  pub sized : c.block_size ≡ n

module _ {A : Type 0} (n : ℕ) where
  num_full : (bs : List (List A)) → 0 < n → IsFull n bs → length (flat bs) ≡ length bs * n
  num_full [] pos f = omega arith
  num_full (b ∷ bs) pos f =
      omega (arith, length-flat b bs, num_full bs pos f.1, ap (λ (t : ℕ). t) f.0)

  pub num_blocks-contents :
      (c : Blocks A)
      → IsValidOf n c
      → length (contents c) % n ≡ 0
      → num_blocks c ≡ length (contents c) / n
  unfolding num_blocks
  num_blocks-contents c v e =
      let pos : 0 < n = omega (arith, v.valid.positive, v.sized) in
      let packed : IsPacked n c.blocks = subst (λ m. IsPacked m c.blocks) v.sized v.valid.packed in
      let full = IsPacked-IsFull n c.blocks pos packed e in
      grind (arith, num_full c.blocks pos full)

  -- the result of an operation has the block size of its argument
  pub keeps_size :
      {c : Blocks A} {P : Blocks A → Type 0} {r : Option (Blocks A)}
      → IsValidOf n c
      → ((c' : Blocks A) → r ≡ some c' → c'.block_size ≡ c.block_size)
      → (c' : Blocks A) × (r ≡ some c') × IsValid c' × P c'
      → (c' : Blocks A) × (r ≡ some c') × IsValidOf n c' × P c'
  keeps_size v same (c', e, valid, p) =
      (c', e, record { valid = valid; sized = same c' e ∙ v.sized }, p)

module _ {A : Type 0} where
  pub add_element-size :
      (c c' : Blocks A) (x : A) (i : ℕ) → add_element c x i ≡ some c' → c'.block_size ≡ c.block_size
  unfolding add_element
  add_element-size c c' x i e = ground arith

  pub remove_element-size :
      (c c' : Blocks A) (i : ℕ) → remove_element c i ≡ some c' → c'.block_size ≡ c.block_size
  unfolding remove_element
  remove_element-size c c' i e = ground arith

  pub update_element-size :
      (c c' : Blocks A) (i : ℕ) (x : A)
      → update_element c i x ≡ some c'
      → c'.block_size ≡ c.block_size
  unfolding update_element
  update_element-size c c' i x e = ground arith

pub init-IsValidOf : {A : Type 0} (n : ℕ) → 0 < n → IsValidOf {A = A} n (init n)
unfolding init
init-IsValidOf n h = record {
  valid = record { positive = h; packed = tt; counted = refl };
  sized = refl;
}
