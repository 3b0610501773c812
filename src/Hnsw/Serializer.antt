-- ===== src/Hnsw/Serializer.antt =====
-- src/VecSim/algorithms/hnsw/hnsw_serializer_impl.h, hnsw_serializer.cpp: an index and how
-- it is saved. A file is its list of bytes. The level of
-- an element of number 0 stands beside the others, so its top level is the number of those.
pub mod Bytes
pub mod Load
pub mod Graph
pub mod Vectors
pub mod MetaData
pub mod Fields
pub mod RoundTrip
pub mod Tests
use vector_similarity.Base.{
  ℕ, zero, suc, ◌+◌, ◌-◌, ◌*◌, ◌/◌, ◌%◌, ◌^◌, ◌<◌, Bool, true, false, List, [], ◌∷◌, ◌++◌, Option,
  none, some, length, map, set, replicate, take, ltb, leb, ◌==◌, if◌then◌else◌,
}
use vector_similarity.Containers.Blocks
use vector_similarity.Containers.Blocks.{Blocks}
use vector_similarity.BruteForce.{LabelLookup}
use vector_similarity.Hnsw.Links.{LevelData}
use vector_similarity.Hnsw.Serializer.Bytes.{
  Failure, end_of_stream, deprecated_version, bad_version, bad_algorithm, bad_type, m_too_large,
  m_too_small, failed_assert, Read, Result, ok, err, ◌>>=◌, read_binary_pod, read_bytes, read_each,
  write_binary_pod, write_each,
}

-- ElementGraphData
pub record Element : Type 0 where
  pub level0 : LevelData
  pub others : List LevelData

-- HNSWIndex, as far as it is saved. `L` is the derived index's lookup, the values of `epsilon` and
-- `mult` are the bits of doubles, and a vector is its bytes. An entry of `id_to_meta_data` is a label
-- and flags.
pub record HnswIndex (L : Type 0) : Type 0 where
  pub dim : ℕ
  pub vec_type : ℕ
  pub metric : ℕ
  pub block_size : ℕ
  pub is_multi : ℕ
  pub max_elements : ℕ
  pub m : ℕ
  pub m0 : ℕ
  pub ef_construction : ℕ
  pub ef : ℕ
  pub epsilon : ℕ
  pub mult : ℕ
  pub cur_element_count : ℕ
  pub num_marked_deleted : ℕ
  pub max_level : ℕ
  pub entrypoint_node : ℕ
  pub id_to_meta_data : List (ℕ × ℕ)
  pub vectors : Blocks (List ℕ)
  pub graph_data_blocks : List (List Element)
  pub label_lookup : L

unfoldable pub save_level : LevelData → List ℕ
save_level d =
    write_binary_pod 2 (length d.links)
    ++ (write_each (write_binary_pod 4) d.links
        ++ (write_binary_pod 4 (length d.incoming) ++ write_each (write_binary_pod 4) d.incoming))

unfoldable pub save_element : Element → List ℕ
save_element e =
    write_binary_pod 8 (length e.others) ++ (save_level e.level0 ++ write_each save_level e.others)

unfoldable pub save_block : List Element → List ℕ
save_block b = write_binary_pod 4 (length b) ++ write_each save_element b

unfoldable pub save_meta_data : ℕ × ℕ → List ℕ
save_meta_data (label, flags) = write_binary_pod 8 label ++ write_binary_pod 1 flags

-- DataBlocksContainer::saveVectorsData
unfoldable pub save_vectors_data : Blocks (List ℕ) → List ℕ
save_vectors_data c = write_each (write_each (λ v. v)) c.blocks

-- RoundUpInitialCapacity
abbrev pub round_up_initial_capacity : ℕ → ℕ → ℕ
round_up_initial_capacity capacity block_size =
    if capacity % block_size == 0 then capacity else capacity + block_size - capacity % block_size

-- VecSimAlgo_HNSWLIB, HNSWSerializer::EncodingVersion, UINT16_MAX
abbrev pub hnswlib : ℕ
hnswlib = 1

abbrev pub deprecated : ℕ
deprecated = 2

abbrev pub v3 : ℕ
v3 = 3

abbrev pub v4 : ℕ
v4 = 4

abbrev pub invalid : ℕ
invalid = 5

abbrev pub uint16_max : ℕ
uint16_max = 65535

module _ {L : Type 0} where
  unfoldable pub save_index_fields : HnswIndex L → List ℕ
  save_index_fields s =
      write_binary_pod 4 hnswlib
      ++ (write_binary_pod 8 s.dim
          ++ (write_binary_pod 4 s.vec_type
              ++ (write_binary_pod 4 s.metric
                  ++ (write_binary_pod 8 s.block_size
                      ++ (write_binary_pod 1 s.is_multi
                          ++ (write_binary_pod 8 s.max_elements
                              ++ (write_binary_pod 8 s.m
                                  ++ (write_binary_pod 8 s.m0
                                      ++ (write_binary_pod 8 s.ef_construction
                                          ++ (write_binary_pod 8 s.ef
                                              ++ (write_binary_pod 8 s.epsilon
                                                  ++ (write_binary_pod 8 s.mult
                                                      ++ (write_binary_pod 8 s.cur_element_count
                                                          ++ (write_binary_pod 8
                                                            s.num_marked_deleted
                                                            ++ (write_binary_pod 8 s.max_level
                                                            ++ write_binary_pod 4
                                                            s.entrypoint_node)))))))))))))))

  unfoldable pub save_graph : HnswIndex L → List ℕ
  save_graph s =
      write_each save_meta_data (take s.cur_element_count s.id_to_meta_data)
      ++ (save_vectors_data s.vectors ++ write_each save_block s.graph_data_blocks)

  -- HNSWSerializer::saveIndex
  unfoldable pub save_index : HnswIndex L → List ℕ
  save_index s = write_binary_pod 4 v4 ++ (save_index_fields s ++ save_graph s)
