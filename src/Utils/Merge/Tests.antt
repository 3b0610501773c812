-- ===== src/Utils/Merge/Tests.antt =====
-- A merge of small lists.
use vector_similarity.Base.{ℕ, ◌≡◌, refl, false, List, [], ◌∷◌, some, take, arith, inl, inr}
use vector_similarity.Query.{QueryResult, to_result}
use vector_similarity.Query.Order.{All}
use vector_similarity.Utils.Merge.{
  null, positive, cast_sign, double_eq, compare_results, merge_results,
}
use vector_similarity.Utils.Merge.Compare.{Says, compare_results-Says}
use vector_similarity.Utils.Merge.Union.{union, Spaced, merge_results-union}

abbrev flat : List QueryResult
flat = to_result (1, 7) ∷ to_result (3, 2) ∷ []

abbrev backend : List QueryResult
backend = to_result (1, 7) ∷ to_result (3, 1) ∷ to_result (5, 9) ∷ []

flat-Spaced : All (λ a. All (Spaced 2 a) backend) flat
flat-Spaced = (
  (inl refl, (inr (inl (omega arith)), (inr (inl (omega arith)), tt))),
  ((inr (inr (omega arith)), (inl refl, (inr (inl (omega arith)), tt))), tt),
)

merge_results-union_example :
    (n m : ℕ) × (merge_results 2 false flat backend 3 ≡ some (take 3 (union flat backend), n, m))
merge_results-union_example =
    merge_results-union 2 (omega arith) flat backend 3 ((inl (omega arith), tt), (tt, tt))
      ((inl (omega arith), (inl (omega arith), tt)), ((inl (omega arith), tt), (tt, tt)))
      (omega arith, (omega arith, tt)) (omega arith, (omega arith, (omega arith, tt))) flat-Spaced

compare_results-Says_example :
    Says 2
      (to_result (5, 2147483647))
      (to_result (5, 0))
      (compare_results 2 (to_result (5, 2147483647)) (to_result (5, 0)))
compare_results-Says_example =
    compare_results-Says 2 (to_result (5, 2147483647)) (to_result (5, 0)) (omega arith)
      (omega arith)

-- the smaller score comes last where the scores are closer than epsilon
compare_results_close : compare_results 2 (to_result (4, 9)) (to_result (5, 3)) ≡ positive
unfolding compare_results cast_sign double_eq
compare_results_close = refl

-- two results of equal score, whose ids differ by 2^32, are taken for one
compare_results_wide : compare_results 2 (to_result (5, 4294967296)) (to_result (5, 0)) ≡ null
unfolding compare_results cast_sign double_eq
compare_results_wide = refl
