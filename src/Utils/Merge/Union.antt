-- ===== src/Utils/Merge/Union.antt =====
-- merge_results without a set, against the union of two sorted lists.
use mathlib.Core.List.{append-nil, append_assoc}
use vector_similarity.Base.{
  ℕ, zero, suc, ◌+◌, ◌-◌, ◌<◌, ◌≤◌, ◌≡◌, ◌⊎◌, refl, sym, ap, ◌∙◌, Bool, true, false, ◌&&◌, ◌||◌,
  List, [], ◌∷◌, ◌++◌, length, take, ltb, ◌==◌, if◌then◌else◌, some, arith, Bool-cases, inl, inr,
}
use vector_similarity.Query.{QueryResult}
use vector_similarity.Query.Order.{All, All-map}
use vector_similarity.Utils.Merge.{
  Sign, negative, null, positive, compare_results, Merged, append_rest, merge_loop, merge_results,
}
use vector_similarity.Utils.Merge.Compare.{IsSmall, Says, compare_results-Says}

-- by score, and then by id
abbrev pub Before : QueryResult → QueryResult → Type 0
Before a b = (a.score < b.score) ⊎ ((a.score ≡ b.score) × (a.id < b.id))

-- the scores of two results are equal, or `epsilon` or more apart
abbrev pub Spaced : ℕ → QueryResult → QueryResult → Type 0
Spaced epsilon a b =
    (a.score ≡ b.score) ⊎ ((a.score + epsilon ≤ b.score) ⊎ (b.score + epsilon ≤ a.score))

-- what a sign says of two such results
abbrev Orders : QueryResult → QueryResult → Sign → Type 0
Orders a b negative = Before a b
Orders a b null = (a.score ≡ b.score) × (a.id ≡ b.id)
Orders a b positive = Before b a

Orders-of_Says :
    (epsilon : ℕ) (a b : QueryResult) (sign : Sign)
    → 0 < epsilon
    → Spaced epsilon a b
    → Says epsilon a b sign
    → Orders a b sign
Orders-of_Says epsilon a b negative pos h s = ground (arith, pos, h, s)
Orders-of_Says epsilon a b null pos h s = (ground (arith, pos, h, s), s.1)
Orders-of_Says epsilon a b positive pos h s = ground (arith, pos, h, s)

abbrev before : QueryResult → QueryResult → Bool
before a b = ltb a.score b.score || (a.score == b.score && ltb a.id b.id)

-- strictly sorted by score and then by id
abbrev pub IsSorted : List QueryResult → Type 0
IsSorted [] = Unit
IsSorted (x ∷ xs) = All (Before x) xs × IsSorted xs

-- a result at its place in a sorted list, unless it is there
abbrev pub insert : QueryResult → List QueryResult → List QueryResult
insert r [] = r ∷ []
insert r (y ∷ ys) =
    let later = insert r ys in
    if before r y then r ∷ y ∷ ys else if before y r then y ∷ later else y ∷ ys

-- the results of both lists, each once
abbrev pub union : List QueryResult → List QueryResult → List QueryResult
union [] ys = ys
union (x ∷ xs) ys = insert x (union xs ys)

before_of : (a b : QueryResult) → Before a b → (before a b ≡ true) × (before b a ≡ false)
before_of a b h = (ground (arith, h), ground (arith, h))

insert-All {κ} :
    (P : QueryResult → Type κ) (r : QueryResult) (ys : List QueryResult)
    → P r
    → All P ys
    → All P (insert r ys)
insert-All P r [] p q = (p, tt)
insert-All P r (y ∷ ys) p (q, qs) = elim (Bool-cases (before r y)) [
  | inl first ↦ rw first (p, (q, qs))
  | inr not_first ↦ elim (Bool-cases (before y r)) [
    | inl later ↦ rw (not_first, later) (q, insert-All P r ys p qs)
    | inr same ↦ rw (not_first, same) (q, qs)
  ]
]

union-All {κ} :
    (P : QueryResult → Type κ) (xs ys : List QueryResult)
    → All P xs
    → All P ys
    → All P (union xs ys)
union-All P [] ys p q = q
union-All P (x ∷ xs) ys (p, ps) q = insert-All P x (union xs ys) p (union-All P xs ys ps q)

insert-first : (a : QueryResult) (u : List QueryResult) → All (Before a) u → insert a u ≡ a ∷ u
insert-first a [] h = refl
insert-first a (y ∷ u) (h, hs) = rw (before_of a y h).0 refl

insert-later :
    (b r : QueryResult) (u : List QueryResult) → Before b r → insert r (b ∷ u) ≡ b ∷ insert r u
insert-later b r u h = rw ((before_of b r h).1, (before_of b r h).0) refl

same_place :
    (a b : QueryResult) (u : List QueryResult)
    → before a b ≡ false
    → before b a ≡ false
    → insert a (b ∷ u) ≡ b ∷ u
same_place a b u h k = rw (h, k) refl

union-later :
    (b : QueryResult) (xs ys : List QueryResult)
    → All (Before b) xs
    → union xs (b ∷ ys) ≡ b ∷ union xs ys
union-later b [] ys h = refl
union-later b (x ∷ xs) ys (h, hs) =
    ap (insert x) (union-later b xs ys hs) ∙ insert-later b x (union xs ys) h

union-nil : (xs : List QueryResult) → IsSorted xs → union xs [] ≡ xs
union-nil [] h = refl
union-nil (x ∷ xs) (h, hs) = ap (insert x) (union-nil xs hs) ∙ insert-first x xs h

Before-trans : (a b c : QueryResult) → Before a b → Before b c → Before a c
Before-trans a b c h k = ground (arith, h, k)

-- one more result
emit :
    (done : List QueryResult) (limit : ℕ) (r : QueryResult) (rest : List QueryResult)
    → (limit == 0) ≡ false
    → (done ++ r ∷ []) ++ take (limit - 1) rest ≡ done ++ take limit (r ∷ rest)
emit done zero r rest h = cc
emit done (suc n) r rest h =
    append_assoc done (r ∷ []) _
    ∙ ap (λ k. done ++ r ∷ take k rest) {x = suc n - 1} {y = n} (omega arith)

full :
    (done : List QueryResult) (limit : ℕ) (rest : List QueryResult)
    → (limit == 0) ≡ true
    → done ≡ done ++ take limit rest
full done zero rest h = sym (append-nil done)
full done (suc n) rest h = absurd (ground (arith, h))

module _ (epsilon : ℕ) (pos : 0 < epsilon) where
  append_rest_lem :
      (rs : List QueryResult) (s : Merged epsilon)
      → (append_rest epsilon false rs s).0.results ≡ s.results ++ take s.limit rs
  unfolding append_rest
  append_rest_lem [] s = full_of_nil s.limit
    where
      full_of_nil : (n : ℕ) → s.results ≡ s.results ++ take n []
      full_of_nil zero = sym (append-nil s.results)
      full_of_nil (suc n) = sym (append-nil s.results)
  append_rest_lem (r ∷ rs) s = elim (Bool-cases (s.limit == 0)) [
    | inl none_left ↦ rw none_left (full s.results s.limit (r ∷ rs) none_left)
    | inr more ↦ rw more (
        append_rest_lem rs (record s { results = s.results ++ r ∷ []; limit = s.limit - 1 })
        ∙ emit s.results s.limit r rs more)
  ]

  -- what the loop has to give
  abbrev Gives :
      ℕ → List QueryResult → List QueryResult → Merged epsilon → List QueryResult → Type 0
  Gives fuel xs ys s all =
      (r : Merged epsilon × List QueryResult × List QueryResult) × (merge_loop epsilon fuel false xs
          ys s
        ≡ some r)
      × (r.0.results ≡ s.results ++ take s.limit all)

  same_result : (a b : QueryResult) → a.score ≡ b.score → a.id ≡ b.id → a ≡ b
  same_result a b p q =
      ap (λ k. record { id = k; score = a.score }) q ∙ ap (λ k. record { id = b.id; score = k }) p

  module _ (fuel : ℕ) (a b : QueryResult) (xs ys : List QueryResult) (s : Merged epsilon)
      (more : (s.limit == 0) ≡ false) (ax : All (Before a) xs) (by_b : All (Before b) ys) where
    abbrev pushed : QueryResult → Merged epsilon
    pushed r = record s { results = s.results ++ r ∷ []; limit = s.limit - 1 }

    -- one round
    merge_step :
        (sign : Sign)
        → compare_results epsilon a b ≡ sign
        → Orders a b sign
        → Gives fuel (a ∷ xs) ys (pushed b) (union (a ∷ xs) ys)
        → Gives fuel xs (b ∷ ys) (pushed a) (union xs (b ∷ ys))
        → Gives fuel xs ys (pushed a) (union xs ys)
        → Gives (suc fuel) (a ∷ xs) (b ∷ ys) s (union (a ∷ xs) (b ∷ ys))
    unfolding merge_loop
    merge_step positive e h (r, done, q) _ _ =
        let all = union-later b (a ∷ xs) ys (h, All-map xs (λ x k. Before-trans b a x h k) ax) in
        (
          r,
          rw (more, e) done,
          q ∙ emit s.results s.limit b _ more ∙ ap (λ u. s.results ++ take s.limit u) (sym all),
        )
    merge_step negative e h _ (r, done, q) _ =
        let all = insert-first a (union xs (b ∷ ys)) (
          union-All (Before a) xs (b ∷ ys) ax
            (h, All-map ys (λ y k. Before-trans a b y h k) by_b)) in
        (
          r,
          rw (more, e) done,
          q ∙ emit s.results s.limit a _ more ∙ ap (λ u. s.results ++ take s.limit u) (sym all),
        )
    merge_step null e (p, i) _ _ (r, done, q) =
        let all = union-later b xs ys (All-map xs (λ x k. ground (arith, p, i, k)) ax) in
        let here : insert a (b ∷ union xs ys) ≡ b ∷ union xs ys =
          same_place a b (union xs ys) (ground (arith, p, i)) (ground (arith, p, i)) in
        let whole =
          ap (insert a) all ∙ here ∙ ap (λ k. k ∷ union xs ys) (sym (same_result a b p i)) in
        (
          r,
          rw (more, e) done,
          q ∙ emit s.results s.limit a _ more ∙ ap (λ u. s.results ++ take s.limit u) (sym whole),
        )

  merge_loop_lem :
      (fuel : ℕ) (xs ys : List QueryResult) (s : Merged epsilon)
      → length xs + length ys < fuel
      → IsSorted xs
      → IsSorted ys
      → All IsSmall xs
      → All IsSmall ys
      → All (λ a. All (Spaced epsilon a) ys) xs
      → Gives fuel xs ys s (union xs ys)
  unfolding merge_loop
  merge_loop_lem zero xs ys s less sx sy px py apart = absurd (omega arith)
  merge_loop_lem (suc fuel) [] ys s less sx sy px py apart =
      let r = append_rest epsilon false ys s in ((r.0, [], r.1), refl, append_rest_lem ys s)
  merge_loop_lem (suc fuel) (a ∷ xs) [] s less sx sy px py apart =
      let r = append_rest epsilon false (a ∷ xs) s in
      (
        (r.0, r.1, []),
        refl,
        append_rest_lem (a ∷ xs) s
            ∙ ap (λ u. s.results ++ take s.limit u) (sym (union-nil (a ∷ xs) sx)),
      )
  merge_loop_lem (suc fuel) (a ∷ xs) (b ∷ ys) s less (ax, sx) (by_b, sy) (pa, px) (pb, py) apart =
      elim (Bool-cases (s.limit == 0)) [
        | inl done ↦ ((s, a ∷ xs, b ∷ ys), rw done refl, full s.results s.limit _ done)
        | inr more ↦
            let push = pushed fuel a b xs ys s more ax by_b in
            merge_step fuel a b xs ys s more ax by_b (compare_results epsilon a b) refl
              (Orders-of_Says epsilon a b _ pos apart.0.0 (compare_results-Says epsilon a b pa pb))
              (merge_loop_lem fuel (a ∷ xs) ys (push b) (omega (arith, less)) (ax, sx) sy (pa, px)
                py (All-map (a ∷ xs) (λ x h. h.1) apart))
              (merge_loop_lem fuel xs (b ∷ ys) (push a) (omega (arith, less)) sx (by_b, sy) px
                (pb, py) apart.1)
              (merge_loop_lem fuel xs ys (push a) (omega (arith, less)) sx sy px py
                (All-map xs (λ x h. h.1) apart.1))
      ]

  -- The merge without a set, of two lists that are strictly sorted by score and then by id, and whose
  -- ids are below 2^31, returns the first `limit` results of the union of both, where the scores of a
  -- result of one list and of one of the other are equal, or `epsilon` or more apart.
  pub merge_results-union :
      (xs ys : List QueryResult) (limit : ℕ)
      → IsSorted xs
      → IsSorted ys
      → All IsSmall xs
      → All IsSmall ys
      → All (λ a. All (Spaced epsilon a) ys) xs
      → (n m : ℕ) × (merge_results epsilon false xs ys limit
          ≡ some (take limit (union xs ys), n, m))
  unfolding merge_results
  merge_results-union xs ys limit sx sy px py apart =
      let s : Merged epsilon = record { results = []; ids = []; limit = limit } in
      let (r, done, q) =
        merge_loop_lem (suc (length xs + length ys)) xs ys s (omega arith) sx sy px py apart in
      (
        length xs - length r.1,
        length ys - length r.2,
        rw (done, merge_results)
            (ap (λ u. some (u, length xs - length r.1, length ys - length r.2)) q),
      )
