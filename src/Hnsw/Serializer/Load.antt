-- ===== src/Hnsw/Serializer/Load.antt =====
-- Loading the file of an index: restoreIndexFields and restoreGraph of hnsw_serializer_impl.h,
-- ReadVersion of hnsw_serializer.cpp, and NewIndex of src/VecSim/index_factories/hnsw_factory.cpp.
use vector_similarity.Base.{
  ℕ, zero, suc, ◌+◌, ◌-◌, ◌/◌, ◌^◌, List, [], ◌∷◌, ◌++◌, none, some, length, set, replicate, ltb,
  leb, ◌==◌, if◌then◌else◌,
}
use vector_similarity.Containers.Blocks
use vector_similarity.Containers.Blocks.{Blocks}
use vector_similarity.BruteForce.{LabelLookup}
use vector_similarity.Hnsw.Links.{LevelData}
use vector_similarity.Hnsw.Serializer.Bytes.{
  deprecated_version, bad_version, bad_algorithm, bad_type, m_too_large, m_too_small, failed_assert,
  Read, Result, ok, err, ◌>>=◌, read_binary_pod, read_bytes, read_each,
}
use vector_similarity.Hnsw.Serializer.{
  Element, HnswIndex, round_up_initial_capacity, hnswlib, deprecated, v3, invalid, uint16_max,
}

unfoldable pub restore_level : List ℕ → Read LevelData
restore_level input = do
  (num_links, input) ← read_binary_pod 2 input
  (links, input) ← read_each (read_binary_pod 4) num_links input
  (size, input) ← read_binary_pod 4 input
  (incoming, input) ← read_each (read_binary_pod 4) size input
  ok (record { incoming = incoming; links = links }, input)

-- the element that is read at `restoreGraph`: its levels are those up to the top level
unfoldable pub restore_element : List ℕ → Read Element
restore_element input = do
  (toplevel, input) ← read_binary_pod 8 input
  (level0, input) ← restore_level input
  (others, input) ← read_each restore_level toplevel input
  ok (record { level0 = level0; others = others }, input)

unfoldable pub restore_block : List ℕ → Read (List Element)
restore_block input = do
  (block_len, input) ← read_binary_pod 4 input
  read_each restore_element block_len input

-- HNSWSerializer::ReadVersion
unfoldable pub read_version : List ℕ → Read ℕ
read_version input = do
  (version, input) ← read_binary_pod 4 input
  if leb version deprecated
      then err deprecated_version
      else if leb invalid version
      then err bad_version
      else ok (version, input)

-- HNSWIndex::fieldsValidation
unfoldable pub fields_validation {ℓ} : {B : Type ℓ} → ℕ → Result B → Result B
fields_validation m next =
    if ltb (uint16_max / 2) m then err m_too_large else if leb m 1 then err m_too_small else next

-- What the library of the machine and of the derived index give: a stored vector's number of bytes,
-- `std::ceil((float)a / b)`, and the lookup of labels with its state at the start.
pub record Loader (L : Type 0) : Type 0 where
  pub element_bytes_count : ℕ
  pub ceil_div : ℕ → ℕ → ℕ
  pub lookup_ops : LabelLookup L
  pub empty_lookup : L

module _ {L : Type 0} (env : Loader L) where
  -- a block of DataBlocksContainer::restoreBlocks
  unfoldable pub restore_data_block : ℕ → Blocks (List ℕ) → ℕ → List ℕ → Read (Blocks (List ℕ))
  restore_data_block version c num_vectors input = do
    (block_len, input) ←
        (if version == v3
          then read_binary_pod 4 input
          else (let vectors_left = num_vectors - c.element_count in
              ok (if ltb c.block_size vectors_left then c.block_size else vectors_left, input)))
    (block, input) ← read_each (read_bytes env.element_bytes_count) block_len input
    ok (
      record c { element_count = c.element_count + length block; blocks = c.blocks ++ block ∷ [] },
      input,
    )

  unfoldable pub restore_data_blocks : ℕ → ℕ → Blocks (List ℕ) → ℕ → List ℕ → Read (Blocks (List ℕ))
  restore_data_blocks version zero c num_vectors input = ok (c, input)
  restore_data_blocks version (suc left) c num_vectors input = do
    (c, input) ← restore_data_block version c num_vectors input
    restore_data_blocks version left c num_vectors input

  -- DataBlocksContainer::restoreBlocks
  unfoldable pub restore_blocks : ℕ → Blocks (List ℕ) → ℕ → List ℕ → Read (Blocks (List ℕ))
  restore_blocks version c num_vectors input = do
    (num_blocks, input) ←
        (if version == v3
          then read_binary_pod 4 input
          else ok (env.ceil_div num_vectors c.block_size, input))
    restore_data_blocks version num_blocks c num_vectors input

  -- the first loop of `restoreGraph`, with `left` ids to come
  unfoldable pub restore_meta_data : ℕ → ℕ → List (ℕ × ℕ) → L → List ℕ → Read (List (ℕ × ℕ) × L)
  restore_meta_data zero id meta lookup input = ok ((meta, lookup), input)
  restore_meta_data (suc left) id meta lookup input = do
    (label, input) ← read_binary_pod 8 input
    (flags, input) ← read_binary_pod 1 input
    elim (env.lookup_ops.set_vector_id label id lookup) [
      | none ↦ err failed_assert
      | some lookup' ↦ restore_meta_data left (suc id) (set meta id (label, flags)) lookup' input
    ]

  -- `meta` is the metadata of a new element, label SIZE_MAX and flag IN_PROCESS.
  unfoldable pub restore_graph : ℕ → HnswIndex L → List ℕ → Read (HnswIndex L)
  restore_graph version s input = do
    ((meta, lookup), input) ←
        restore_meta_data s.cur_element_count 0 s.id_to_meta_data s.label_lookup input
    (vectors, input) ← restore_blocks version s.vectors s.cur_element_count input
    (blocks, input) ← read_each restore_block (length vectors.blocks) input
    ok (
      record s {
        id_to_meta_data = meta;
        label_lookup = lookup;
        vectors = vectors;
        graph_data_blocks = blocks;
      },
      input,
    )

-- what InitializeParams reads
pub record Params : Type 0 where
  pub dim : ℕ
  pub type : ℕ
  pub metric : ℕ
  pub block_size : ℕ
  pub multi : ℕ
  pub initial_capacity : ℕ

unfoldable pub initialize_params : List ℕ → Read Params
initialize_params input = do
  (dim, input) ← read_binary_pod 8 input
  (type, input) ← read_binary_pod 4 input
  (metric, input) ← read_binary_pod 4 input
  (block_size, input) ← read_binary_pod 8 input
  (multi, input) ← read_binary_pod 1 input
  (initial_capacity, input) ← read_binary_pod 8 input
  ok (
    record {
      dim = dim;
      type = type;
      metric = metric;
      block_size = block_size;
      multi = multi;
      initial_capacity = initial_capacity;
    },
    input,
  )

-- the label and the flag of a new ElementMetaData
abbrev pub new_meta_data : ℕ × ℕ
new_meta_data = (2 ^ 64 - 1, 2)

-- the last of the data types that have an index, VecSimType_UINT8
abbrev pub last_type : ℕ
last_type = 5

module _ {L : Type 0} (env : Loader L) where
  -- restoreIndexFields, and the fields that the constructor sets
  unfoldable pub restore_index_fields : Params → List ℕ → Read (HnswIndex L)
  restore_index_fields p input = do
    (m, input) ← read_binary_pod 8 input
    (m0, input) ← read_binary_pod 8 input
    (ef_construction, input) ← read_binary_pod 8 input
    (ef, input) ← read_binary_pod 8 input
    (epsilon, input) ← read_binary_pod 8 input
    (mult, input) ← read_binary_pod 8 input
    (cur_element_count, input) ← read_binary_pod 8 input
    (num_marked_deleted, input) ← read_binary_pod 8 input
    (max_level, input) ← read_binary_pod 8 input
    (entrypoint_node, input) ← read_binary_pod 4 input
    let max_elements = round_up_initial_capacity cur_element_count p.block_size
    ok (
      record {
        dim = p.dim;
        vec_type = p.type;
        metric = p.metric;
        block_size = p.block_size;
        is_multi = p.multi;
        max_elements = max_elements;
        m = m;
        m0 = m0;
        ef_construction = ef_construction;
        ef = ef;
        epsilon = epsilon;
        mult = mult;
        cur_element_count = cur_element_count;
        num_marked_deleted = num_marked_deleted;
        max_level = max_level;
        entrypoint_node = entrypoint_node;
        id_to_meta_data = replicate max_elements new_meta_data;
        vectors = Blocks.init p.block_size;
        graph_data_blocks = [];
        label_lookup = env.empty_lookup;
      },
      input,
    )

  -- HNSWFactory::NewIndex of a file
  unfoldable pub new_index : List ℕ → Read (HnswIndex L)
  new_index input = do
    (version, input) ← read_version input
    (algo, input) ← read_binary_pod 4 input
    if algo == hnswlib
        then (do
          (params, input) ← initialize_params input
          if leb params.type last_type
              then (do
                (s, input) ← restore_index_fields params input
                fields_validation s.m (restore_graph env version s input))
              else err bad_type)
        else err bad_algorithm
