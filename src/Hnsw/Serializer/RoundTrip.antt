-- ===== src/Hnsw/Serializer/RoundTrip.antt =====
-- Loading the file that an index was saved to.
use mathlib.Core.List.{append_assoc}
use vector_similarity.Base.{
  ℕ, zero, suc, ◌+◌, ◌-◌, ◌/◌, ◌%◌, ◌^◌, ◌≤◌, ◌<◌, ◌≡◌, refl, sym, ap, ◌∙◌, subst, List, ◌++◌, some,
  length, get_elem?, replicate, take, arith, le→leb, lt→leb, le→ltb, length-take,
}
use vector_similarity.Containers.Blocks
use vector_similarity.Containers.Blocks.{Blocks}
use vector_similarity.Containers.Blocks.Flat.{IsValid}
use vector_similarity.Hnsw.Serializer.Bytes.{
  All, Result, ok, read_binary_pod, read_each, write_binary_pod, write_each, read-write,
  read_each-write_each,
}
use vector_similarity.Hnsw.Serializer.Graph.{IsStorableBlock, restore_block-save}
use vector_similarity.Hnsw.Serializer.Vectors.{Sized, restore_blocks-save}
use vector_similarity.Hnsw.Serializer.MetaData.{
  FitsMetaData, fill, get_elem?-fill, get_elem?-take, relabel, restore_meta_data-save,
}
use vector_similarity.Hnsw.Serializer.Fields.{
  FitsFields, initialize_params-write, restore_index_fields-write, restored_fields,
}
use vector_similarity.Hnsw.Serializer.{
  HnswIndex, hnswlib, round_up_initial_capacity, save_block, save_graph, save_index,
  save_index_fields, save_meta_data, save_vectors_data, v4,
}
use vector_similarity.Hnsw.Serializer.Load.{
  Loader, fields_validation, last_type, new_index, new_meta_data, read_version, restore_block,
  restore_blocks, restore_graph, restore_meta_data,
}

length-replicate {ℓ} : {A : Type ℓ} (n : ℕ) (x : A) → length (replicate n x) ≡ n
length-replicate zero x = refl
length-replicate (suc n) x = ap suc (length-replicate n x)

round_up_le : (a b : ℕ) → 0 < b → a ≤ round_up_initial_capacity a b
round_up_le a b pos = ground (arith, mod_lt a b)
  where
    mod_lt : (a b : ℕ) → 0 < b → a % b < b
    mod_lt a b pos = grind arith

module _ {L : Type 0} (env : Loader L) where
  -- The index is in order, its values fit their types, and there are less than 2^24 vectors, as many
  -- as a `float` counts; `lookup` is what `setVectorId` makes of its labels.
  pub record IsStorable (s : HnswIndex L) (lookup : L) : Type 0 where
    pub fields : FitsFields s
    pub known_type : s.vec_type ≤ last_type
    pub m_above_one : 1 < s.m
    pub m_in_range : s.m ≤ 32767
    pub vectors : IsValid s.vectors
    pub sized : Sized env.element_bytes_count s.vectors.blocks
    pub block_size : s.vectors.block_size ≡ s.block_size
    pub counted : s.vectors.element_count ≡ s.cur_element_count
    pub few : s.cur_element_count < 2 ^ 24
    pub small_blocks : s.block_size < 2 ^ 24
    pub enough : s.cur_element_count ≤ length s.id_to_meta_data
    pub meta_data : All FitsMetaData (take s.cur_element_count s.id_to_meta_data)
    pub labels :
        relabel env 0 (take s.cur_element_count s.id_to_meta_data) env.empty_lookup ≡ some lookup
    pub graph : All IsStorableBlock s.graph_data_blocks
    pub as_many : length s.graph_data_blocks ≡ length s.vectors.blocks

  -- the index that is loaded: its metadata has the capacity that its size asks for
  abbrev pub reloaded : HnswIndex L → L → HnswIndex L
  reloaded s lookup =
      let max_elements = round_up_initial_capacity s.cur_element_count s.block_size in
      record s {
        max_elements = max_elements;
        id_to_meta_data =
            fill 0 (take s.cur_element_count s.id_to_meta_data)
              (replicate max_elements new_meta_data);
        label_lookup = lookup;
      }

  module _
      (exact : (a b : ℕ) → a < 2 ^ 24 → 0 < b → b < 2 ^ 24 → env.ceil_div a b ≡ (a + b - 1) / b)
      (s : HnswIndex L) (lookup : L) (v : IsStorable s lookup) where
    vectors_back :
        (rest : List ℕ)
        → restore_blocks env v4
            (Blocks.init s.block_size)
            s.cur_element_count
            (save_vectors_data s.vectors ++ rest)
          ≡ ok (s.vectors, rest)
    vectors_back rest =
        let size = v.block_size in
        subst
          (λ n.
            restore_blocks env v4 (Blocks.init n) s.cur_element_count
              (save_vectors_data s.vectors ++ rest)
            ≡ ok (s.vectors, rest))
          size
          (restore_blocks-save env s.vectors s.cur_element_count rest v.vectors (sym v.counted)
            (exact s.cur_element_count s.vectors.block_size v.few v.vectors.positive
              (omega (arith, v.small_blocks, size)))
            v.sized)

    restore_graph-save :
        (rest : List ℕ)
        → restore_graph env v4 (restored_fields s env) (save_graph s ++ rest)
          ≡ ok (reloaded s lookup, rest)
    unfolding restore_graph save_graph
    restore_graph-save rest =
        let xs = take s.cur_element_count s.id_to_meta_data in
        let max_elements = round_up_initial_capacity s.cur_element_count s.block_size in
        let meta = replicate max_elements new_meta_data in
        let len : length xs ≡ s.cur_element_count =
          omega (arith, length-take s.cur_element_count s.id_to_meta_data, v.enough) in
        let graph = write_each save_block s.graph_data_blocks ++ rest in
        let tail = save_vectors_data s.vectors ++ graph in
        let metas =
          subst
            (λ k.
              restore_meta_data env k 0 meta env.empty_lookup (write_each save_meta_data xs ++ tail)
              ≡ ok ((fill 0 xs meta, lookup), tail))
            len
            (restore_meta_data-save env xs 0 meta env.empty_lookup lookup tail v.meta_data
              v.labels) in
        let blocks =
          subst (λ k. read_each restore_block k graph ≡ ok (s.graph_data_blocks, rest)) v.as_many
            (read_each-write_each IsStorableBlock save_block restore_block s.graph_data_blocks rest
              restore_block-save v.graph) in
        rw
          (
            append_assoc (write_each save_meta_data xs)
                (save_vectors_data s.vectors ++ write_each save_block s.graph_data_blocks) rest,
            append_assoc (save_vectors_data s.vectors) (write_each save_block s.graph_data_blocks)
                rest,
            metas,
            vectors_back graph,
            blocks,
          )
          refl

    read_version-v4 : (rest : List ℕ) → read_version (write_binary_pod 4 v4 ++ rest) ≡ ok (v4, rest)
    unfolding read_version
    read_version-v4 rest = rw (read-write 4 v4 rest (omega arith)) refl

    algorithm_back :
        (rest : List ℕ)
        → read_binary_pod 4 (write_binary_pod 4 hnswlib ++ rest) ≡ ok (hnswlib, rest)
    algorithm_back rest = read-write 4 hnswlib rest (omega arith)

    valid_m : {B : Type 0} (next : Result B) → fields_validation s.m next ≡ next
    unfolding fields_validation
    valid_m next = rw (le→ltb 32767 s.m v.m_in_range, lt→leb s.m 1 v.m_above_one) refl

    labels_back :
        (id : ℕ)
        → id < s.cur_element_count
        → get_elem? (reloaded s lookup).id_to_meta_data id ≡ get_elem? s.id_to_meta_data id
    labels_back id h =
        let count = s.cur_element_count in
        let xs = take count s.id_to_meta_data in
        let max_elements = round_up_initial_capacity count s.block_size in
        let meta = replicate max_elements new_meta_data in
        let len = length-take count s.id_to_meta_data in
        let pos : 0 < s.block_size = omega (arith, v.vectors.positive, v.block_size) in
        ap (get_elem? (fill 0 xs meta)) (omega arith)
        ∙ get_elem?-fill 0 id xs meta (omega (arith, len, v.enough)) (
            omega (
              arith,
              len,
              v.enough,
              length-replicate max_elements new_meta_data,
              round_up_le count s.block_size pos,
            ))
        ∙ get_elem?-take count id s.id_to_meta_data h

    -- NewIndex of what saveIndex wrote, for an index that is in order, whose values fit their types
    -- and that has less than 2^24 vectors and blocks of less than 2^24, restores every field, vector,
    -- link and incoming edge, and the label and flags of every id; the capacity is rounded up from
    -- the number of vectors, and the lookup is what setVectorId makes of the labels.
    pub new_index-save :
        (rest : List ℕ)
        → (new_index env (save_index s ++ rest) ≡ ok (reloaded s lookup, rest))
          × ((id : ℕ)
              → id < s.cur_element_count
              → get_elem? (reloaded s lookup).id_to_meta_data id ≡ get_elem? s.id_to_meta_data id)
    unfolding new_index save_index save_index_fields
    new_index-save rest = (
      simp (append_assoc) (
          rw
            (
              read_version-v4,
              algorithm_back,
              initialize_params-write s v.fields,
              le→leb s.vec_type last_type v.known_type,
              restore_index_fields-write s v.fields env,
              valid_m,
              restore_graph-save rest,
            )
            refl),
      labels_back,
    )
