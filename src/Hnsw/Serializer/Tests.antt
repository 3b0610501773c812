-- ===== src/Hnsw/Serializer/Tests.antt =====
-- A small index saved and loaded.
use vector_similarity.Base.{ℕ, ◌+◌, ◌-◌, ◌/◌, ◌<◌, ◌≡◌, refl, List, [], ◌∷◌, ◌++◌, get_elem?, arith}
use vector_similarity.Base.Dict.{Dict, emplace, find, insert}
use vector_similarity.BruteForce.Single.{lookup_ops}
use vector_similarity.Hnsw.Links.{LevelData}
use vector_similarity.Hnsw.Serializer.Bytes.{ok, write_binary_pod, write_each}
use vector_similarity.Hnsw.Serializer.{Element, HnswIndex, save_element, save_level, save_index}
use vector_similarity.Hnsw.Serializer.Load.{Loader, new_index}
use vector_similarity.Hnsw.Serializer.MetaData.{relabel}
use vector_similarity.Hnsw.Serializer.RoundTrip.{IsStorable, new_index-save, reloaded}

-- vectors of two bytes
abbrev loader : Loader (Dict ℕ)
loader = record {
  element_bytes_count = 2;
  ceil_div = λ a b. (a + b - 1) / b;
  lookup_ops = lookup_ops;
  empty_lookup = [];
}

abbrev level : List ℕ → List ℕ → LevelData
level incoming links = record { incoming = incoming; links = links }

-- element 2 is on level 1 too
abbrev graph : List (List Element)
graph =
    (record { level0 = level [] (1 ∷ 2 ∷ []); others = [] }
      ∷ record { level0 = level (2 ∷ []) (0 ∷ []); others = [] }
      ∷ [])
    ∷ (record { level0 = level [] (0 ∷ 1 ∷ []); others = level [] [] ∷ [] } ∷ [])
    ∷ []

abbrev saved : HnswIndex (Dict ℕ)
saved = record {
  dim = 2;
  vec_type = 4;
  metric = 0;
  block_size = 2;
  is_multi = 0;
  max_elements = 6;
  m = 4;
  m0 = 8;
  ef_construction = 200;
  ef = 10;
  epsilon = 4576918229304087675;
  mult = 4604418534313441775;
  cur_element_count = 3;
  num_marked_deleted = 1;
  max_level = 1;
  entrypoint_node = 2;
  id_to_meta_data = (7, 0) ∷ (300, 1) ∷ (9, 0) ∷ (1, 2) ∷ [];
  vectors = record {
    element_count = 3;
    blocks = ((1 ∷ 2 ∷ []) ∷ (3 ∷ 4 ∷ []) ∷ []) ∷ ((5 ∷ 255 ∷ []) ∷ []) ∷ [];
    block_size = 2;
  };
  graph_data_blocks = graph;
  label_lookup = (7, 0) ∷ (300, 1) ∷ (9, 2) ∷ [];
}

saved-IsStorable : IsStorable loader saved saved.label_lookup
unfolding relabel emplace find insert
saved-IsStorable = record {
  fields = omega arith;
  known_type = omega arith;
  m_above_one = omega arith;
  m_in_range = omega arith;
  vectors = omega arith;
  sized = omega arith;
  block_size = refl;
  counted = refl;
  few = omega arith;
  small_blocks = omega arith;
  enough = omega arith;
  meta_data = omega arith;
  labels = refl;
  graph = omega arith;
  as_many = refl;
}

new_index-save_example :
    (new_index loader (save_index saved ++ []) ≡ ok (reloaded loader saved saved.label_lookup, []))
    × ((id : ℕ)
        → id < 3
        → get_elem? (reloaded loader saved saved.label_lookup).id_to_meta_data id
          ≡ get_elem? saved.id_to_meta_data id)
new_index-save_example =
    new_index-save loader (λ a b h p k. refl) saved saved.label_lookup saved-IsStorable []

-- the bytes of element 2: its top level, and the links and incoming edges of its two levels
element_bytes :
    save_element (record { level0 = level [] (0 ∷ 1 ∷ []); others = level [] [] ∷ [] })
    ≡ 1 ∷ 0 ∷ 0 ∷ 0 ∷ 0 ∷ 0 ∷ 0 ∷ 0 ∷ 2 ∷ 0 ∷ 0 ∷ 0 ∷ 0 ∷ 0 ∷ 1 ∷ 0 ∷ 0 ∷ 0 ∷ 0 ∷ 0 ∷ 0 ∷ 0 ∷ 0 ∷ 0
      ∷ 0 ∷ 0 ∷ 0 ∷ 0 ∷ []
unfolding save_element save_level write_each write_binary_pod
element_bytes = refl
