-- ===== src/Query/Order.antt =====
-- The order of `std::pair<DistType, labelType>`, and predicates over lists of candidates.
use vector_similarity.Base.{
  ℕ, ◌≤◌, ◌<◌, ◌≡◌, ◌⊎◌, Bool, true, false, not, ◌&&◌, ◌||◌, List, [], ◌∷◌, ◌++◌, arith, ltb,
}

-- `operator<` of pairs: by score, then by label
abbrev pub pair_lt : ℕ × ℕ → ℕ × ℕ → Bool
pair_lt (s, l) (t, m) = ltb s t || (not (ltb t s) && ltb l m)

abbrev pub AtMost : ℕ × ℕ → ℕ × ℕ → Type 0
AtMost x y = (x.0 < y.0) ⊎ ((x.0 ≡ y.0) × (x.1 ≤ y.1))

abbrev pub All {ℓ κ} : {A : Type ℓ} → (A → Type κ) → List A → Type κ
All P [] = Unit
All P (x ∷ xs) = P x × All P xs

abbrev pub IsDescending : List (ℕ × ℕ) → Type 0
IsDescending [] = Unit {0}
IsDescending (x ∷ xs) = All (λ y. AtMost y x) xs × IsDescending xs

abbrev pub IsAscending : List (ℕ × ℕ) → Type 0
IsAscending [] = Unit {0}
IsAscending (x ∷ xs) = All (AtMost x) xs × IsAscending xs

pub All-map {ℓ κ κ'} :
    {A : Type ℓ} {P : A → Type κ} {Q : A → Type κ'} (xs : List A)
    → ((a : A) → P a → Q a)
    → All P xs
    → All Q xs
All-map [] f h = tt
All-map (x ∷ xs) f h = (f x h.0, All-map xs f h.1)

pub All-append {ℓ κ} :
    {A : Type ℓ} (P : A → Type κ) (xs ys : List A) → All P xs → All P ys → All P (xs ++ ys)
All-append P [] ys h k = k
All-append P (x ∷ xs) ys h k = (h.0, All-append P xs ys h.1 k)

pub AtMost-trans : (x y z : ℕ × ℕ) → AtMost x y → AtMost y z → AtMost x z
AtMost-trans x y z h k = ground arith

pub AtMost-of_lt : (x y : ℕ × ℕ) → pair_lt x y ≡ true → AtMost x y
AtMost-of_lt x y h = ground arith

pub AtMost-of_not_lt : (x y : ℕ × ℕ) → pair_lt x y ≡ false → AtMost y x
AtMost-of_not_lt x y h = ground arith
