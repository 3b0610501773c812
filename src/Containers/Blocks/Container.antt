-- ===== src/Containers/Blocks/Container.antt =====
-- DataBlocksContainer fills the interface RawContainer.
use vector_similarity.Base.{ℕ, ◌+◌}
use vector_similarity.Containers.Raw.{RawContainer}
use vector_similarity.Containers.Blocks.Flat.{
  contents, IsValidOf, size-contents, num_blocks-contents, keeps_size, add_element-size,
  remove_element-size, update_element-size, add_element-contents, get_element-contents,
  remove_element-contents, update_element-contents,
}
use vector_similarity.Containers.Blocks.Iteration.{visit, visit-contents}
use vector_similarity.Containers.Blocks.{
  Blocks, start, size, num_blocks, add_element, get_element, remove_element, update_element,
}

-- DataBlocksContainer as a raw container
abbrev pub blocks_container : (A : Type 0) (n : ℕ) → RawContainer A n
blocks_container A n = record {
  Carrier = Blocks A;
  IsValid = IsValidOf n;
  contents = contents;
  size = size;
  add_element = add_element;
  get_element = get_element;
  remove_element = remove_element;
  update_element = update_element;
  num_blocks = num_blocks;
  iterate = λ c. visit (c.element_count + 1) c start;
  iterate-contents = λ c v. visit-contents c v.valid;
  size-contents = λ c v. size-contents c v.valid;
  num_blocks-contents = num_blocks-contents n;
  add_element-contents =
      λ c x v. keeps_size n v (λ c'. add_element-size c c' x _) (add_element-contents c x v.valid);
  get_element-contents = λ c i v. get_element-contents c i v.valid;
  remove_element-contents = λ c i v h.
      keeps_size n v (λ c'. remove_element-size c c' i) (remove_element-contents c i v.valid h);
  update_element-contents = λ c i x v h.
      keeps_size n v (λ c'. update_element-size c c' i x) (update_element-contents c i x v.valid h);
}
