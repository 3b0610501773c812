-- ===== src/Containers/Blocks/Tests.antt =====
-- Runs of a container with blocks of two elements.
use vector_similarity.Base.{ℕ, ◌≡◌, refl, [], ◌∷◌, some, none, arith}
use vector_similarity.Containers.Blocks.{
  Blocks, modify_back, get_back, add_element, get_element, remove_element, update_element, start,
}
use vector_similarity.Containers.Blocks.Flat.{
  IsValid, contents, add_element-contents, get_element-contents, remove_element-contents,
  update_element-contents,
}
use vector_similarity.Containers.Blocks.Iteration.{visit, visit-contents}

abbrev three : Blocks ℕ
three = record { element_count = 3; blocks = (7 ∷ 8 ∷ []) ∷ (9 ∷ []) ∷ []; block_size = 2 }

three-IsValid : IsValid three
three-IsValid = record {
  positive = omega arith;
  packed = (refl, (omega arith, omega arith));
  counted = refl;
}

-- the id must be the one of the last element
only_the_last :
    (remove_element three 0 ≡ none)
    × (remove_element three 2
        ≡ some (record { element_count = 2; blocks = (7 ∷ 8 ∷ []) ∷ []; block_size = 2 }))
unfolding remove_element modify_back get_back
only_the_last = (refl, refl)

add_element-contents_example :
    (c' : Blocks ℕ) × (add_element three 5 3 ≡ some c')
    × IsValid c'
    × (contents c' ≡ 7 ∷ 8 ∷ 9 ∷ 5 ∷ [])
add_element-contents_example = add_element-contents three 5 three-IsValid

get_element-contents_example : get_element three 2 ≡ some 9
get_element-contents_example = get_element-contents three 2 three-IsValid (omega arith)

remove_element-contents_example :
    (c' : Blocks ℕ) × (remove_element three 2 ≡ some c') × IsValid c' × (contents c' ≡ 7 ∷ 8 ∷ [])
remove_element-contents_example = remove_element-contents three 2 three-IsValid refl

update_element-contents_example :
    (c' : Blocks ℕ) × (update_element three 1 5 ≡ some c')
    × IsValid c'
    × (contents c' ≡ 7 ∷ 5 ∷ 9 ∷ [])
update_element-contents_example = update_element-contents three 1 5 three-IsValid (omega arith)

visit-contents_example : visit 4 three start ≡ some (7 ∷ 8 ∷ 9 ∷ [])
visit-contents_example = visit-contents three three-IsValid
