-- ===== src/Hnsw/Serializer/Vectors.antt =====
-- The round trip of the vectors. The file has neither the number of the blocks nor their lengths:
-- packed blocks are found again from the number of vectors alone.
use mathlib.Core.List.{append_assoc, append-nil}
use vector_similarity.Base.{
  ℕ, suc, ◌+◌, ◌-◌, ◌/◌, ◌<◌, ◌≡◌, refl, ap, ◌∙◌, List, [], ◌∷◌, ◌++◌, length, arith, ltb,
  if◌then◌else◌,
}
use vector_similarity.Containers.Blocks
use vector_similarity.Containers.Blocks.{Blocks}
use vector_similarity.Containers.Blocks.Packed.{IsPacked, flat, length-flat}
use vector_similarity.Containers.Blocks.Flat.{IsValid}
use vector_similarity.Hnsw.Serializer.Bytes.{
  All, ok, read_bytes, write_each, read_bytes-append, read_each-write_each,
}
use vector_similarity.Hnsw.Serializer.{save_vectors_data, v4}
use vector_similarity.Hnsw.Serializer.Load.{
  Loader, restore_blocks, restore_data_block, restore_data_blocks,
}

-- packed blocks that are there have an element
flat-IsPacked :
    (n : ℕ) (b : List (List ℕ)) (bs : List (List (List ℕ)))
    → 0 < n
    → IsPacked n (b ∷ bs)
    → 0 < length (flat (b ∷ bs))
flat-IsPacked n b [] pos p = omega (arith, length-flat b [], p.0)
flat-IsPacked n b (c ∷ bs) pos p = omega (arith, length-flat b (c ∷ bs), p.0)

-- the length that `restoreBlocks` computes is that of the next block
next_length :
    (n : ℕ) (b : List (List ℕ)) (bs : List (List (List ℕ)))
    → 0 < n
    → IsPacked n (b ∷ bs)
    → (if ltb n (length (flat (b ∷ bs))) then n else length (flat (b ∷ bs))) ≡ length b
next_length n b [] pos p = ground (arith, length-flat b [], p.0, p.1)
next_length n b (c ∷ bs) pos p =
    ground (arith, length-flat b (c ∷ bs), p.0, flat-IsPacked n c bs pos p.1)

div-add_block : (a n : ℕ) → 0 < n → (n + a + n - 1) / n ≡ suc ((a + n - 1) / n)
div-add_block a n pos = grind arith

-- and so is the number of blocks
pub num_blocks-IsPacked :
    (n : ℕ) (bs : List (List (List ℕ)))
    → 0 < n
    → IsPacked n bs
    → (length (flat bs) + n - 1) / n ≡ length bs
num_blocks-IsPacked n [] pos p = grind arith
num_blocks-IsPacked n (b ∷ []) pos p = grind (arith, length-flat b [], p.0, p.1)
num_blocks-IsPacked n (b ∷ c ∷ bs) pos p =
    let rest = num_blocks-IsPacked n (c ∷ bs) pos p.1 in
    ap (λ k. (k + n - 1) / n) (length-flat b (c ∷ bs) ∙ ap (λ k. k + length (flat (c ∷ bs))) p.0)
    ∙ div-add_block (length (flat (c ∷ bs))) n pos
    ∙ ap suc rest

-- every vector has as many bytes as the container says
abbrev pub Sized : ℕ → List (List (List ℕ)) → Type 0
Sized bytes = All (All (λ v. length v ≡ bytes))

blob_back :
    (bytes : ℕ) (v rest : List ℕ) → length v ≡ bytes → read_bytes bytes (v ++ rest) ≡ ok (v, rest)
blob_back bytes v rest h = rw (← h) (read_bytes-append v rest)

module _ {L : Type 0} (env : Loader L) where
  restore_data_block-save :
      (c : Blocks (List ℕ)) (num : ℕ) (b : List (List ℕ)) (bs : List (List (List ℕ)))
      (rest : List ℕ)
      → 0 < c.block_size
      → IsPacked c.block_size (b ∷ bs)
      → num ≡ c.element_count + length (flat (b ∷ bs))
      → All (λ v. length v ≡ env.element_bytes_count) b
      → restore_data_block env v4 c num (write_each (λ v. v) b ++ rest)
        ≡ ok (
          record c { element_count = c.element_count + length b; blocks = c.blocks ++ b ∷ [] },
          rest,
        )
  unfolding restore_data_block
  restore_data_block-save c num b bs rest pos p counted sized =
      let left : num - c.element_count ≡ length (flat (b ∷ bs)) = omega arith in
      let len = next_length c.block_size b bs pos p in
      rw
        (
          left,
          len,
          read_each-write_each (λ v. length v ≡ env.element_bytes_count) (λ v. v)
              (read_bytes env.element_bytes_count) b rest (blob_back env.element_bytes_count) sized,
        )
        refl

  restore_data_blocks-save :
      (bs : List (List (List ℕ))) (c : Blocks (List ℕ)) (num : ℕ) (rest : List ℕ)
      → 0 < c.block_size
      → IsPacked c.block_size bs
      → num ≡ c.element_count + length (flat bs)
      → Sized env.element_bytes_count bs
      → restore_data_blocks env v4 (length bs) c num (write_each (write_each (λ v. v)) bs ++ rest)
        ≡ ok (record c { element_count = num; blocks = c.blocks ++ bs }, rest)
  unfolding restore_data_blocks write_each
  restore_data_blocks-save [] c num rest pos p counted sized =
      let all : num ≡ c.element_count = omega arith in rw (all, append-nil c.blocks) refl
  restore_data_blocks-save (b ∷ bs) c num rest pos p counted sized =
      let w = write_each (write_each (λ (v : List ℕ). v)) bs in
      let c1 = record c {
        element_count = c.element_count + length b;
        blocks = c.blocks ++ b ∷ [];
      } in
      rw
        (
          append_assoc (write_each (λ v. v) b) w rest,
          restore_data_block-save c num b bs (w ++ rest) pos p counted sized.0,
        )
        (restore_data_blocks-save bs c1 num rest pos (tail c.block_size b bs p)
            (omega (arith, length-flat b bs)) sized.1
          ∙ ap (λ ys. ok (record c { element_count = num; blocks = ys }, rest))
              (append_assoc c.blocks (b ∷ []) bs))
    where
      tail :
          (n : ℕ) (b : List (List ℕ)) (bs : List (List (List ℕ)))
          → IsPacked n (b ∷ bs)
          → IsPacked n bs
      tail n b [] p = tt
      tail n b (d ∷ bs) p = p.1

  -- restoreBlocks of what saveVectorsData wrote is the container again.
  pub restore_blocks-save :
      (c : Blocks (List ℕ)) (num : ℕ) (rest : List ℕ)
      → IsValid c
      → num ≡ c.element_count
      → env.ceil_div num c.block_size ≡ (num + c.block_size - 1) / c.block_size
      → Sized env.element_bytes_count c.blocks
      → restore_blocks env v4 (Blocks.init c.block_size) num (save_vectors_data c ++ rest)
        ≡ ok (c, rest)
  unfolding restore_blocks save_vectors_data Blocks.init
  restore_blocks-save c num rest v counted ceil sized =
      let total : num ≡ 0 + length (flat c.blocks) = omega (arith, v.counted) in
      let blocks : env.ceil_div num c.block_size ≡ length c.blocks =
        ceil
        ∙ ap (λ k. (k + c.block_size - 1) / c.block_size) (omega (arith, v.counted))
        ∙ num_blocks-IsPacked c.block_size c.blocks v.positive v.packed in
      rw blocks (
        restore_data_blocks-save c.blocks
          (record { element_count = 0; blocks = []; block_size = c.block_size }) num rest v.positive
          v.packed total sized
        ∙ ap (λ k. ok (record c { element_count = k }, rest)) counted)
