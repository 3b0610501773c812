-- ===== src/BruteForce/Multi/Tests.antt =====
-- Runs of the multi-value index on blocks of two vectors.
use vector_similarity.Base.{
  ℕ, ◌+◌, ◌≡◌, refl, sym, ◌∙◌, subst, List, [], ◌∷◌, some, arith, some-inj, ◌==◌, if◌then◌else◌,
}
use vector_similarity.Base.Dict.{Dict, find, insert, emplace, erase}
use vector_similarity.Containers.Blocks
use vector_similarity.Containers.Blocks.{modify_back, get_back}
use vector_similarity.Containers.Blocks.Flat.{init-IsValidOf}
use vector_similarity.BruteForce.{
  resize_index_common, grow_by_block, shrink_by_block, cut_block, append_vector, move_last,
  finish_removal, remove_vector,
}
use vector_similarity.BruteForce.Single.Swaps.{Tracks}
use vector_similarity.BruteForce.Single.History.{Call, adds}
use vector_similarity.BruteForce.Single.Tests.{R, env}
use vector_similarity.BruteForce.Multi.{
  MultiIndex, add_vector, delete_vector, delete_vector_by_id, erase_at, get_distance_from_unsafe,
  delete_vector_and_get_updated_ids, replace_from, update_ids, move_update,
}
use vector_similarity.BruteForce.Multi.Refinement.{Holds, IsIndexed, lists_delete, stored}
use vector_similarity.BruteForce.Multi.Deletion.{multi_delete_vector_refines}
use vector_similarity.BruteForce.Multi.Moves.{moved_ids-Tracks}
use vector_similarity.BruteForce.Multi.ById.{delete_vector_by_id_refines}
use vector_similarity.BruteForce.Multi.Distance.{IsLeast, get_distance_from_unsafe-IsLeast}
use vector_similarity.BruteForce.Multi.History.{
  empty_multi_index, empty_multi_index-IsIndexed, lists_run, lists_step, multi_run_refines, run,
  step,
}

abbrev fresh : MultiIndex R
fresh = empty_multi_index R (Blocks.init 2)

fresh-IsIndexed : IsIndexed R fresh
unfolding Blocks.init empty_multi_index
fresh-IsIndexed =
    empty_multi_index-IsIndexed R (Blocks.init 2) (omega arith) (init-IsValidOf 2 (omega arith))
      refl

-- label 5 has the ids 1, 2 and 4
abbrev script : List (Call ℕ)
script = adds 1 6 ∷ adds 2 5 ∷ adds 3 5 ∷ adds 4 6 ∷ adds 5 5 ∷ []

abbrev five : MultiIndex R
five = record {
  id_to_label = 6 ∷ 5 ∷ 5 ∷ 6 ∷ 5 ∷ 0 ∷ [];
  count = 5;
  vectors = record {
    element_count = 5;
    blocks = (101 ∷ 102 ∷ []) ∷ (103 ∷ 104 ∷ []) ∷ (105 ∷ []) ∷ [];
    block_size = 2;
  };
  lookup = (6, 0 ∷ 3 ∷ []) ∷ (5, 1 ∷ 2 ∷ 4 ∷ []) ∷ [];
}

abbrev held : ℕ → List ℕ
held = lists_run env (λ l. []) script

script_builds_five : run R env fresh script ≡ some five
unfolding run step add_vector append_vector grow_by_block resize_index_common empty_multi_index find
    insert emplace Blocks.init Blocks.add_element Blocks.num_blocks modify_back Blocks.add_to_block
script_builds_five = refl

multi_run_refines_example :
    (s' : MultiIndex R) × (run R env fresh script ≡ some s') × IsIndexed R s' × Holds R s' held
unfolding empty_multi_index find
multi_run_refines_example =
    multi_run_refines R env fresh script (λ l. []) fresh-IsIndexed (λ l. refl)

five-IsIndexed : IsIndexed R five × Holds R five held
five-IsIndexed =
    let (s', done, v, holds) = multi_run_refines_example in
    subst (λ s. IsIndexed R s × Holds R s held) (some-inj (sym done ∙ script_builds_five))
      (v, holds)

-- the last vector, of the label that is deleted, moves into the first gap and is deleted there
delete_own_last :
    delete_vector_and_get_updated_ids R five 5
    ≡ some (
      record {
        id_to_label = 6 ∷ 6 ∷ 6 ∷ 6 ∷ [];
        count = 2;
        vectors = record { element_count = 2; blocks = (101 ∷ 104 ∷ []) ∷ []; block_size = 2 };
        lookup = (6, 0 ∷ 1 ∷ []) ∷ [];
      },
      (1, (3, 6)) ∷ [],
    )
unfolding delete_vector_and_get_updated_ids update_ids move_update remove_vector move_last
    finish_removal shrink_by_block cut_block resize_index_common find insert erase replace_from
    Blocks.get_element Blocks.update_element Blocks.remove_element Blocks.size Blocks.num_blocks
    modify_back get_back Blocks.pop_last_element Blocks.update_in_block
delete_own_last = refl

multi_delete_vector_refines_example :
    (s' : MultiIndex R) × (delete_vector R five 5 ≡ some (s', 3))
    × IsIndexed R s'
    × Holds R s' (lists_delete held 5)
    × (s'.count + 3 ≡ 5)
unfolding lists_run lists_step
multi_delete_vector_refines_example =
    multi_delete_vector_refines R five 5 held five-IsIndexed.0 five-IsIndexed.1

moved_ids-Tracks_example :
    (s' : MultiIndex R) × (updates : Dict (ℕ × ℕ)) × (deleted : ℕ)
    × (delete_vector_and_get_updated_ids R five 5 ≡ some (s', updates))
    × (delete_vector R five 5 ≡ some (s', deleted))
    × Tracks R five updates s'
moved_ids-Tracks_example = moved_ids-Tracks R five 5 five-IsIndexed.0

delete_vector_by_id_refines_example :
    (s' : MultiIndex R) × (delete_vector_by_id R five 5 2 ≡ some (s', 1))
    × IsIndexed R s'
    × ((l : ℕ) → stored R s' l ≡ (if 5 == l then erase_at 1 (stored R five l) else stored R five l))
    × (s'.count + 1 ≡ 5)
unfolding find
delete_vector_by_id_refines_example =
    delete_vector_by_id_refines R five 5 2 1 (1 ∷ 2 ∷ 4 ∷ []) five-IsIndexed.0 refl refl

get_distance_from_unsafe-IsLeast_example :
    (d : ℕ) × (get_distance_from_unsafe R env 1000 five 5 3 ≡ some (some d))
    × IsLeast R env five 3 (1 ∷ 2 ∷ 4 ∷ []) 1000 d
unfolding find
get_distance_from_unsafe-IsLeast_example =
    get_distance_from_unsafe-IsLeast R env five 3 1000 5 (1 ∷ 2 ∷ 4 ∷ []) five-IsIndexed.0 refl
