-- ===== src/Hnsw/Serializer/Fields.antt =====
-- The round trip of the fields of an index.
use vector_similarity.Base.{ℕ, ◌≡◌, refl, List, [], ◌++◌, replicate}
use vector_similarity.Containers.Blocks
use vector_similarity.Hnsw.Serializer.Bytes.{ok, write_binary_pod, read-write}
use vector_similarity.Hnsw.Serializer.Graph.{Fits}
use vector_similarity.Hnsw.Serializer.{HnswIndex, round_up_initial_capacity}
use vector_similarity.Hnsw.Serializer.Load.{
  Loader, Params, initialize_params, new_meta_data, restore_index_fields,
}

-- the fields fit their types
pub record FitsFields {L : Type 0} (s : HnswIndex L) : Type 0 where
  pub dim : Fits 8 s.dim
  pub vec_type : Fits 4 s.vec_type
  pub metric : Fits 4 s.metric
  pub block_size : Fits 8 s.block_size
  pub is_multi : Fits 1 s.is_multi
  pub max_elements : Fits 8 s.max_elements
  pub m : Fits 8 s.m
  pub m0 : Fits 8 s.m0
  pub ef_construction : Fits 8 s.ef_construction
  pub ef : Fits 8 s.ef
  pub epsilon : Fits 8 s.epsilon
  pub mult : Fits 8 s.mult
  pub cur_element_count : Fits 8 s.cur_element_count
  pub num_marked_deleted : Fits 8 s.num_marked_deleted
  pub max_level : Fits 8 s.max_level
  pub entrypoint_node : Fits 4 s.entrypoint_node

module _ {L : Type 0} (s : HnswIndex L) where
  abbrev pub params_of : Params
  params_of = record {
    dim = s.dim;
    type = s.vec_type;
    metric = s.metric;
    block_size = s.block_size;
    multi = s.is_multi;
    initial_capacity = s.max_elements;
  }

  -- the index that the constructor makes of the fields
  abbrev pub restored_fields : Loader L → HnswIndex L
  restored_fields env =
      let max_elements = round_up_initial_capacity s.cur_element_count s.block_size in
      record s {
        max_elements = max_elements;
        id_to_meta_data = replicate max_elements new_meta_data;
        vectors = Blocks.init s.block_size;
        graph_data_blocks = [];
        label_lookup = env.empty_lookup;
      }

module _ {L : Type 0} (s : HnswIndex L) (v : FitsFields s) where
  pub initialize_params-write :
      (rest : List ℕ)
      → initialize_params (
          write_binary_pod 8 s.dim
          ++ (write_binary_pod 4 s.vec_type
              ++ (write_binary_pod 4 s.metric
                  ++ (write_binary_pod 8 s.block_size
                      ++ (write_binary_pod 1 s.is_multi
                          ++ (write_binary_pod 8 s.max_elements ++ (rest)))))))
        ≡ ok (params_of s, rest)
  unfolding initialize_params
  initialize_params-write rest =
      let t6 = rest in
      let t5 = write_binary_pod 8 s.max_elements ++ t6 in
      let t4 = write_binary_pod 1 s.is_multi ++ t5 in
      let t3 = write_binary_pod 8 s.block_size ++ t4 in
      let t2 = write_binary_pod 4 s.metric ++ t3 in
      let t1 = write_binary_pod 4 s.vec_type ++ t2 in
      rw
        (
          read-write 8 s.dim t1 v.dim,
          read-write 4 s.vec_type t2 v.vec_type,
          read-write 4 s.metric t3 v.metric,
          read-write 8 s.block_size t4 v.block_size,
          read-write 1 s.is_multi t5 v.is_multi,
          read-write 8 s.max_elements t6 v.max_elements,
        )
        refl

  pub restore_index_fields-write :
      (env : Loader L) (rest : List ℕ)
      → restore_index_fields env (params_of s) (
          write_binary_pod 8 s.m
          ++ (write_binary_pod 8 s.m0
              ++ (write_binary_pod 8 s.ef_construction
                  ++ (write_binary_pod 8 s.ef
                      ++ (write_binary_pod 8 s.epsilon
                          ++ (write_binary_pod 8 s.mult
                              ++ (write_binary_pod 8 s.cur_element_count
                                  ++ (write_binary_pod 8 s.num_marked_deleted
                                      ++ (write_binary_pod 8 s.max_level
                                          ++ (write_binary_pod 4 s.entrypoint_node
                                              ++ (rest)))))))))))
        ≡ ok (restored_fields s env, rest)
  unfolding restore_index_fields
  restore_index_fields-write env rest =
      let t10 = rest in
      let t9 = write_binary_pod 4 s.entrypoint_node ++ t10 in
      let t8 = write_binary_pod 8 s.max_level ++ t9 in
      let t7 = write_binary_pod 8 s.num_marked_deleted ++ t8 in
      let t6 = write_binary_pod 8 s.cur_element_count ++ t7 in
      let t5 = write_binary_pod 8 s.mult ++ t6 in
      let t4 = write_binary_pod 8 s.epsilon ++ t5 in
      let t3 = write_binary_pod 8 s.ef ++ t4 in
      let t2 = write_binary_pod 8 s.ef_construction ++ t3 in
      let t1 = write_binary_pod 8 s.m0 ++ t2 in
      rw
        (
          read-write 8 s.m t1 v.m,
          read-write 8 s.m0 t2 v.m0,
          read-write 8 s.ef_construction t3 v.ef_construction,
          read-write 8 s.ef t4 v.ef,
          read-write 8 s.epsilon t5 v.epsilon,
          read-write 8 s.mult t6 v.mult,
          read-write 8 s.cur_element_count t7 v.cur_element_count,
          read-write 8 s.num_marked_deleted t8 v.num_marked_deleted,
          read-write 8 s.max_level t9 v.max_level,
          read-write 4 s.entrypoint_node t10 v.entrypoint_node,
        )
        refl
