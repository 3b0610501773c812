-- ===== src/Utils/Filter/Tests.antt =====
-- The filter on a small list, with insertion for the sort.
use mathlib.Core.List.Perm
use vector_similarity.Base.{
  ℕ, ◌≤◌, ◌≡◌, true, List, [], ◌∷◌, Perm, min, leb, if◌then◌else◌, arith, Bool-cases, inl, inr,
}
use vector_similarity.Query.{QueryResult, to_result}
use vector_similarity.Utils.Filter.{IsById, SortById, filter_results_by_id}
use vector_similarity.Utils.Filter.Unique.{copies, least, filter_results_by_id-least}

abbrev place : QueryResult → List QueryResult → List QueryResult
place r [] = r ∷ []
place r (s ∷ rs) = let rest = place r rs in if leb r.id s.id then r ∷ s ∷ rs else s ∷ rest

abbrev placed : List QueryResult → List QueryResult
placed [] = []
placed (r ∷ rs) = place r (placed rs)

place-perm : (r : QueryResult) (rs : List QueryResult) → Perm (place r rs) (r ∷ rs)
place-perm r [] = Perm.refl (r ∷ [])
place-perm r (s ∷ rs) = elim (Bool-cases (leb r.id s.id)) [
  | inl low ↦ rw low (Perm.refl (r ∷ s ∷ rs))
  | inr high ↦ rw high (Perm.trans (Perm.cons s (place-perm r rs)) (Perm.swap r s rs))
]

placed-perm : (rs : List QueryResult) → Perm (placed rs) rs
placed-perm [] = Perm.refl []
placed-perm (r ∷ rs) = Perm.trans (place-perm r (placed rs)) (Perm.cons r (placed-perm rs))

place-IsById : (r : QueryResult) (rs : List QueryResult) → IsById rs → IsById (place r rs)
place-IsById r [] h = tt
place-IsById r (s ∷ []) h = elim (Bool-cases (leb r.id s.id)) [
  | inl low ↦ rw low (ground (arith, low), tt)
  | inr high ↦ rw high (ground (arith, high), tt)
]
place-IsById r (s ∷ t ∷ rs) (h, hs) =
    let rest = place-IsById r (t ∷ rs) hs in
    elim (Bool-cases (leb r.id s.id)) [
      | inl low ↦ rw low (ground (arith, low), (h, hs))
      | inr high ↦ elim (Bool-cases (leb r.id t.id)) [
        | inl next ↦ rw (high, next) (ground (arith, high), (rw next at rest))
        | inr after ↦ rw (high, after) (h, (rw after at rest))
      ]
    ]

placed-IsById : (rs : List QueryResult) → IsById (placed rs)
placed-IsById [] = tt
placed-IsById (r ∷ rs) = place-IsById r (placed rs) (placed-IsById rs)

abbrev sorter : SortById
sorter = record { sort = placed; sort-perm = placed-perm; sort-IsById = placed-IsById }

abbrev found : List QueryResult
found = to_result (5, 7) ∷ to_result (1, 3) ∷ to_result (2, 7) ∷ []

found-copies : (v : ℕ) → copies v found ≤ 2
found-copies v = ground arith

filter_results_by_id-least_example :
    (copies 7 (filter_results_by_id sorter true found) ≡ min 1 (copies 7 found))
    × (least 7 100 (filter_results_by_id sorter true found) ≡ least 7 100 found)
filter_results_by_id-least_example = filter_results_by_id-least sorter found found-copies 7 100
