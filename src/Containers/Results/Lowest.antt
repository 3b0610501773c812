-- ===== src/Containers/Results/Lowest.antt =====
-- unique_results_container keeps the lowest score of each id.
use vector_similarity.Base.{
  ℕ, ◌≡◌, refl, ap, ◌∙◌, List, [], ◌∷◌, Option, none, some, min, arith, ◌==◌, if◌then◌else◌,
  Option-cases, inl, inr,
}
use vector_similarity.Base.Dict.{Dict, find, find-insert, find-emplace}
use vector_similarity.Containers.Results.{emplace_unique}

-- the results of a query, put in one after the other
pub emplace_all : List (ℕ × ℕ) → Dict ℕ → Dict ℕ
emplace_all [] d = d
emplace_all ((id, score) ∷ rs) d = emplace_all rs (emplace_unique id score d)

abbrev pub lower : Option ℕ → ℕ → Option ℕ
lower none score = some score
lower (some old) score = some (min old score)

-- the lowest score of an id among the results and a score that it had before
abbrev pub lowest : ℕ → List (ℕ × ℕ) → Option ℕ → Option ℕ
lowest id [] before = before
lowest id ((j, score) ∷ rs) before = lowest id rs (if j == id then lower before score else before)

find-emplace_unique :
    (id score j : ℕ) (d : Dict ℕ)
    → find j (emplace_unique id score d) ≡ (if id == j then lower (find j d) score else find j d)
unfolding emplace_unique
find-emplace_unique id score j d = elim (Option-cases (find id d)) [
  | inl fresh ↦ rw (fresh, emplace_unique) (ground (arith, find-emplace id j score d fresh, fresh))
  | inr (old, at) ↦ rw (at, emplace_unique) (ground (arith, find-insert id j score d, at))
]

-- After any sequence of results, the container has under each id the lowest of its scores, those
-- that it had before included, and has no id that was given no score.
pub find-emplace_all :
    (rs : List (ℕ × ℕ)) (d : Dict ℕ) (id : ℕ)
    → find id (emplace_all rs d) ≡ lowest id rs (find id d)
unfolding emplace_all
find-emplace_all [] d id = refl
find-emplace_all ((j, score) ∷ rs) d id =
    find-emplace_all rs (emplace_unique j score d) id
    ∙ ap (lowest id rs) (find-emplace_unique j score id d)
