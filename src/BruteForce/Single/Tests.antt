-- ===== src/BruteForce/Single/Tests.antt =====
-- Runs of the single-value index on blocks of two vectors.
use vector_similarity.Base.{
  ℕ, ◌+◌, ◌≡◌, refl, sym, ◌∙◌, subst, List, [], ◌∷◌, some, none, arith, some-inj,
}
use vector_similarity.Base.Dict
use vector_similarity.Base.Dict.{find, insert, emplace, erase}
use vector_similarity.Containers.Raw.{RawContainer}
use vector_similarity.Containers.Blocks
use vector_similarity.Containers.Blocks.{modify_back, get_back}
use vector_similarity.Containers.Blocks.Flat.{init-IsValidOf}
use vector_similarity.Containers.Blocks.Container.{blocks_container}
use vector_similarity.BruteForce.{
  IndexComponents, resize_index_common, grow_by_block, shrink_by_block, cut_block, append_vector,
  move_last, finish_removal, remove_vector,
}
use vector_similarity.BruteForce.Single.{
  SingleIndex, add_vector, delete_vector, get_distance_from_unsafe,
  delete_vector_and_get_updated_ids,
}
use vector_similarity.BruteForce.Single.Store.{IsIndexed, stored}
use vector_similarity.BruteForce.Single.Refinement.{
  map_add, map_delete, add_vector_refines, delete_vector_refines, get_distance_from_unsafe_lem,
}
use vector_similarity.BruteForce.Single.Swaps.{Tracks, updated_ids-Tracks}
use vector_similarity.BruteForce.Single.History.{
  Call, adds, map_run, empty_index, empty_index-IsIndexed, step, run, run_refines,
}

abbrev pub R : RawContainer ℕ 2
R = blocks_container ℕ 2

-- blobs are numbers, stored with a mark of 100
abbrev pub env : IndexComponents ℕ
env = record {
  preprocess_for_storage = λ x. x + 100;
  preprocess_query = λ x. x;
  calc_distance = λ x y. x + y;
}

abbrev fresh : SingleIndex R
fresh = empty_index R (Blocks.init 2)

fresh-IsIndexed : IsIndexed R fresh
unfolding Blocks.init empty_index
fresh-IsIndexed =
    empty_index-IsIndexed R (Blocks.init 2) (omega arith) (init-IsValidOf 2 (omega arith)) refl

-- an update in the middle
abbrev script : List (Call ℕ)
script = adds 1 5 ∷ adds 2 6 ∷ adds 3 7 ∷ adds 9 6 ∷ []

abbrev pub three : SingleIndex R
three = record {
  id_to_label = 5 ∷ 6 ∷ 7 ∷ 0 ∷ [];
  count = 3;
  vectors = record { element_count = 3; blocks = (101 ∷ 9 ∷ []) ∷ (103 ∷ []) ∷ []; block_size = 2 };
  lookup = (5, 0) ∷ (6, 1) ∷ (7, 2) ∷ [];
}

script_builds_three : run R env fresh script ≡ some three
unfolding run step add_vector append_vector grow_by_block resize_index_common empty_index find
    insert emplace Blocks.init Blocks.add_element Blocks.update_element Blocks.num_blocks
    modify_back Blocks.add_to_block Blocks.update_in_block
script_builds_three = refl

run_refines_example :
    (s' : SingleIndex R) × (run R env fresh script ≡ some s')
    × IsIndexed R s'
    × ((l : ℕ) → stored R s' l ≡ map_run env (λ l. none) script l)
unfolding empty_index find
run_refines_example = run_refines R env fresh script (λ l. none) fresh-IsIndexed (λ l. refl)

pub three-IsIndexed : IsIndexed R three
three-IsIndexed =
    let (s', done, v, _) = run_refines_example in
    subst (IsIndexed R) (some-inj (sym done ∙ script_builds_three)) v

-- label 5 is at id 0, where the last vector moves
delete_moves_last :
    delete_vector_and_get_updated_ids R three 5
    ≡ some (
      record {
        id_to_label = 7 ∷ 6 ∷ 7 ∷ 0 ∷ [];
        count = 2;
        vectors = record { element_count = 2; blocks = (103 ∷ 9 ∷ []) ∷ []; block_size = 2 };
        lookup = (6, 1) ∷ (7, 0) ∷ [];
      },
      (0, (2, 7)) ∷ [],
    )
unfolding delete_vector_and_get_updated_ids remove_vector move_last finish_removal shrink_by_block
    cut_block resize_index_common find insert erase Blocks.get_element Blocks.update_element
    Blocks.remove_element Blocks.size Blocks.num_blocks modify_back get_back Blocks.pop_last_element
    Blocks.update_in_block
delete_moves_last = refl

add_vector_refines_example :
    (s' : SingleIndex R) × (add_vector R env three 4 6 ≡ some (s', 0))
    × IsIndexed R s'
    × ((l : ℕ) → stored R s' l ≡ map_add env (stored R three) 4 6 l)
    × (s'.count ≡ 3 + 0)
unfolding find
add_vector_refines_example = add_vector_refines R env three 4 6 three-IsIndexed

delete_vector_refines_example :
    (s' : SingleIndex R) × (delete_vector R three 5 ≡ some (s', 1))
    × IsIndexed R s'
    × ((l : ℕ) → stored R s' l ≡ map_delete (stored R three) 5 l)
    × (s'.count + 1 ≡ 3)
unfolding find
delete_vector_refines_example = delete_vector_refines R three 5 three-IsIndexed

-- the distance of 8 from the blob 9
get_distance_from_unsafe_lem_example : get_distance_from_unsafe R env three 6 8 ≡ some (some 17)
unfolding find
get_distance_from_unsafe_lem_example = get_distance_from_unsafe_lem R env three 6 8 three-IsIndexed

updated_ids-Tracks_example :
    (s' : SingleIndex R) × (updates : Dict.Dict (ℕ × ℕ)) × (deleted : ℕ)
    × (delete_vector_and_get_updated_ids R three 5 ≡ some (s', updates))
    × (delete_vector R three 5 ≡ some (s', deleted))
    × Tracks R three updates s'
updated_ids-Tracks_example = updated_ids-Tracks R three 5 three-IsIndexed
