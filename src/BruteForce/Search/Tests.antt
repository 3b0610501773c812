-- ===== src/BruteForce/Search/Tests.antt =====
-- Queries of the index of three vectors.
use vector_similarity.Base.{
  ℕ, ◌<◌, ◌≡◌, ◌⊎◌, refl, Bool, true, false, List, [], ◌∷◌, map, some, take, ◌==◌,
}
use vector_similarity.Query.{QueryResult, ReplyCode, reply_ok, timed_out, to_result}
use vector_similarity.Query.Heap.{max_priority_queue, emplace, pop, top}
use vector_similarity.Containers.Results.{default_results_container}
use vector_similarity.Containers.Blocks
use vector_similarity.Containers.Blocks.{start}
use vector_similarity.Containers.Blocks.Iteration.{visit}
use vector_similarity.BruteForce.Single.Tests.{R, env, three, three-IsIndexed}
use vector_similarity.BruteForce.Search.{
  top_k_query, range_query, scan, consider, unload, range_scan,
}
use vector_similarity.BruteForce.Search.TopK.{candidates, all_candidates, top_k_query_correct}
use vector_similarity.BruteForce.Search.Chosen.{IsTopK}
use vector_similarity.BruteForce.Search.Range.{within, range_query_correct}

abbrev never : ℕ → Bool
never i = false

abbrev at_second : ℕ → Bool
at_second i = i == 1

abbrev two_closest : List QueryResult
two_closest = record { id = 6; score = 10 } ∷ record { id = 5; score = 102 } ∷ []

closest_two :
    top_k_query R env never max_priority_queue 0 three 1 2
    ≡ some (record { results = two_closest; code = reply_ok })
unfolding top_k_query scan consider unload emplace pop top visit start Blocks.next Blocks.advance
    Blocks.has_next
closest_two = refl

abbrev two : ℕ
two = 2

top_k_query_correct_example :
    ((i : ℕ) × (i < 3)
      × (never i ≡ true)
      × (top_k_query R env never max_priority_queue 0 three 1 two
          ≡ some (record { results = []; code = timed_out })))
    ⊎ (((two ≡ 0) ⊎ ((i : ℕ) → i < 3 → never i ≡ false))
        × (results : List QueryResult) × (top_k_query R env never max_priority_queue 0 three 1 two
            ≡ some (record { results = results; code = reply_ok }))
        × IsTopK two (all_candidates R env three 1) results)
top_k_query_correct_example = top_k_query_correct R env never 0 three 1 two three-IsIndexed.shaped

-- the timeout at the second vector leaves one result
range_times_out :
    range_query R env at_second default_results_container three 1 102
    ≡ some (record { results = record { id = 5; score = 102 } ∷ []; code = timed_out })
unfolding range_query range_scan visit start Blocks.next Blocks.advance Blocks.has_next
range_times_out = refl

range_query_correct_example :
    (m : ℕ) × (code : ReplyCode) × (range_query R env at_second default_results_container three 1
        102
      ≡ some (record {
        results =
            map to_result
              (within 102 (candidates env 1 (take m (101 ∷ 9 ∷ 103 ∷ [])) (5 ∷ 6 ∷ 7 ∷ 0 ∷ [])));
        code = code;
      }))
    × ((j : ℕ) → j < m → at_second j ≡ false)
    × (((code ≡ reply_ok) × (m ≡ 3)) ⊎ ((code ≡ timed_out) × (m < 3) × (at_second m ≡ true)))
unfolding visit
range_query_correct_example = range_query_correct R env at_second three 1 102 three-IsIndexed.shaped
