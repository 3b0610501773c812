-- ===== src/Base/Counts.antt =====
-- How often a number occurs in a list, and where.
use Prim.Native.Nat.{ℕ, zero, suc, ◌+◌, ◌<◌}
use mathlib.Core.Path.{◌≡◌, refl}
use mathlib.Core.Logic.{inl, inr}
use mathlib.Core.Bool.{Bool}
use mathlib.Core.List.{List, [], ◌∷◌, ◌++◌}
use mathlib.Core.Option.{some}
use native.Mathlib.Omega.{arith}
use vector_similarity.Base.Tests.{◌==◌, if◌then◌else◌, eq_cases}
use vector_similarity.Base.Lists.{get_elem?, set}

abbrev pub one_if : Bool → ℕ
one_if b = if b then 1 else 0

abbrev pub count : ℕ → List ℕ → ℕ
count a [] = 0
count a (x ∷ xs) = one_if (x == a) + count a xs

pub count-append :
    (id : ℕ) (front back : List ℕ) → count id (front ++ back) ≡ count id front + count id back
count-append id [] back = omega arith
count-append id (other ∷ front) back = omega (arith, count-append id front back)

pub count-set :
    (xs : List ℕ) (i old new a : ℕ)
    → get_elem? xs i ≡ some old
    → count a (set xs i new) + one_if (old == a) ≡ count a xs + one_if (new == a)
count-set [] i old new a h = cc
count-set (x ∷ xs) zero old new a h = ground arith
count-set (x ∷ xs) (suc i) old new a h = ground (arith, count-set xs i old new a h)

-- what occurs stands somewhere
pub count-place : (a : ℕ) (xs : List ℕ) → 0 < count a xs → (i : ℕ) × (get_elem? xs i ≡ some a)
count-place a [] h = absurd (omega arith)
count-place a (x ∷ xs) h = elim (eq_cases x a) [
  | inl same ↦ (0, rw same refl)
  | inr other ↦ let (i, here) = count-place a xs (ground arith) in (suc i, here)
]

-- and what stands somewhere occurs
pub place-count : (a : ℕ) (xs : List ℕ) (i : ℕ) → get_elem? xs i ≡ some a → 0 < count a xs
place-count a [] i h = cc
place-count a (x ∷ xs) zero h = ground arith
place-count a (x ∷ xs) (suc i) h = omega (arith, place-count a xs i h)
