-- ===== src/Containers/Results/Tests.antt =====
-- A run of the container of unique results.
use vector_similarity.Base.{ℕ, ◌≡◌, List, [], ◌∷◌, some}
use vector_similarity.Base.Dict.{find}
use vector_similarity.Containers.Results.Lowest.{emplace_all, find-emplace_all}

abbrev twice : List (ℕ × ℕ)
twice = (7, 30) ∷ (8, 10) ∷ (7, 20) ∷ []

find-emplace_all_example : find 7 (emplace_all twice []) ≡ some 20
unfolding find
find-emplace_all_example = find-emplace_all twice [] 7
