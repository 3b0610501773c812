-- ===== src/Base/Lists.antt =====
-- Lists measured and indexed by native numbers, under the library's names.
use Prim.Native.Nat.{ℕ, zero, suc, ◌+◌, ◌-◌, ◌<◌, min}
use mathlib.Core.Path.{◌≡◌, refl, sym, ap, ◌∙◌}
use mathlib.Core.Logic.{∥∥₁_elim}
use mathlib.Core.List.{List, [], ◌∷◌, ◌++◌, Perm, Permᴰ}
use mathlib.Core.Option.{Option, none, some}
use native.Mathlib.Omega.{arith}
use native.Mathlib.Nat.{ℕ_set}
use vector_similarity.Base.Tests.{◌==◌, if◌then◌else◌}

module _ {ℓ} {A : Type ℓ} where
  abbrev pub replicate : ℕ → A → List A
  replicate zero a = []
  replicate (suc n) a = a ∷ replicate n a

  abbrev pub drop : ℕ → List A → List A
  drop zero xs = xs
  drop (suc n) [] = []
  drop (suc n) (x ∷ xs) = drop n xs

  abbrev pub take : ℕ → List A → List A
  take zero xs = []
  take (suc n) [] = []
  take (suc n) (x ∷ xs) = x ∷ take n xs

  abbrev pub get_elem? : List A → ℕ → Option A
  get_elem? [] i = none
  get_elem? (x ∷ xs) zero = some x
  get_elem? (x ∷ xs) (suc i) = get_elem? xs i

  -- A write out of bounds changes nothing.
  abbrev pub set : List A → ℕ → A → List A
  set [] i v = []
  set (x ∷ xs) zero v = v ∷ xs
  set (x ∷ xs) (suc i) v = x ∷ set xs i v

  abbrev pub length : List A → ℕ
  length [] = 0
  length (x ∷ xs) = suc (length xs)

  -- `std::vector::resize`: cut, or padded with a value.
  abbrev pub resize : List A → ℕ → A → List A
  resize xs zero d = []
  resize [] (suc n) d = d ∷ resize [] n d
  resize (x ∷ xs) (suc n) d = x ∷ resize xs n d

  -- All but the last element.
  abbrev pub drop_last : List A → List A
  drop_last [] = []
  drop_last (x ∷ []) = []
  drop_last (x ∷ y ∷ xs) = x ∷ drop_last (y ∷ xs)

  pub length-resize : (xs : List A) (n : ℕ) (d : A) → length (resize xs n d) ≡ n
  length-resize xs zero d = refl
  length-resize [] (suc n) d = ap suc (length-resize [] n d)
  length-resize (x ∷ xs) (suc n) d = ap suc (length-resize xs n d)

  pub length-drop_last : (xs : List A) → length (drop_last xs) ≡ length xs - 1
  length-drop_last [] = refl
  length-drop_last (x ∷ []) = refl
  length-drop_last (x ∷ y ∷ xs) = omega (arith, length-drop_last (y ∷ xs))

  pub length-append : (xs ys : List A) → length (xs ++ ys) ≡ length xs + length ys
  length-append [] ys = omega arith
  length-append (x ∷ xs) ys = omega (arith, length-append xs ys)

  pub length-take : (n : ℕ) (xs : List A) → length (take n xs) ≡ min n (length xs)
  length-take zero xs = omega arith
  length-take (suc n) [] = omega arith
  length-take (suc n) (x ∷ xs) = omega (arith, length-take n xs)

  pub length-drop : (n : ℕ) (xs : List A) → length (drop n xs) ≡ length xs - n
  length-drop zero xs = omega arith
  length-drop (suc n) [] = omega arith
  length-drop (suc n) (x ∷ xs) = omega (arith, length-drop n xs)

  pub length-set : (xs : List A) (i : ℕ) (v : A) → length (set xs i v) ≡ length xs
  length-set [] i v = refl
  length-set (x ∷ xs) zero v = refl
  length-set (x ∷ xs) (suc i) v = ap suc (length-set xs i v)

  pub get_elem?-set :
      (xs : List A) (i j : ℕ) (v : A)
      → i < length xs
      → get_elem? (set xs i v) j ≡ (if i == j then some v else get_elem? xs j)
  get_elem?-set [] i j v h = elim h [ ]
  get_elem?-set (x ∷ xs) zero zero v h = refl
  get_elem?-set (x ∷ xs) zero (suc j) v h = ground arith
  get_elem?-set (x ∷ xs) (suc i) zero v h = ground arith
  get_elem?-set (x ∷ xs) (suc i) (suc j) v h = ground (arith, get_elem?-set xs i j v)

  pub get_elem?-resize :
      (xs : List A) (n i : ℕ) (d : A)
      → i < n
      → i < length xs
      → get_elem? (resize xs n d) i ≡ get_elem? xs i
  get_elem?-resize xs zero i d h k = elim h [ ]
  get_elem?-resize [] (suc n) i d h k = elim k [ ]
  get_elem?-resize (x ∷ xs) (suc n) zero d h k = refl
  get_elem?-resize (x ∷ xs) (suc n) (suc i) d h k =
      get_elem?-resize xs n i d (omega arith) (omega arith)

  pub get_elem?-drop_last :
      (xs : List A) (i : ℕ) → suc i < length xs → get_elem? (drop_last xs) i ≡ get_elem? xs i
  get_elem?-drop_last [] i h = elim h [ ]
  get_elem?-drop_last (x ∷ []) i h = absurd (omega arith)
  get_elem?-drop_last (x ∷ y ∷ xs) zero h = refl
  get_elem?-drop_last (x ∷ y ∷ xs) (suc i) h = get_elem?-drop_last (y ∷ xs) i (omega arith)

  pub get_elem?-append_left :
      (xs ys : List A) (i : ℕ) → i < length xs → get_elem? (xs ++ ys) i ≡ get_elem? xs i
  get_elem?-append_left [] ys i h = elim h [ ]
  get_elem?-append_left (x ∷ xs) ys zero h = refl
  get_elem?-append_left (x ∷ xs) ys (suc i) h = get_elem?-append_left xs ys i (omega arith)

  pub get_elem?-append_right :
      (xs ys : List A) (i j : ℕ) → i ≡ length xs + j → get_elem? (xs ++ ys) i ≡ get_elem? ys j
  get_elem?-append_right [] ys i j h = ap (get_elem? ys) (omega arith)
  get_elem?-append_right (x ∷ xs) ys zero j h = absurd (omega arith)
  get_elem?-append_right (x ∷ xs) ys (suc i) j h = get_elem?-append_right xs ys i j (omega arith)

  pub get_elem?-some : (xs : List A) (i : ℕ) → i < length xs → (a : A) × (get_elem? xs i ≡ some a)
  get_elem?-some [] i h = elim h [ ]
  get_elem?-some (x ∷ xs) zero h = (x, refl)
  get_elem?-some (x ∷ xs) (suc i) h = get_elem?-some xs i (omega arith)

  pub get_elem?-lt : (xs : List A) (i : ℕ) {a : A} → get_elem? xs i ≡ some a → i < length xs
  get_elem?-lt [] i h = cc
  get_elem?-lt (x ∷ xs) zero h = omega arith
  get_elem?-lt (x ∷ xs) (suc i) h = omega (arith, get_elem?-lt xs i h)

  pub set-append_left :
      (xs ys : List A) (i : ℕ) (v : A) → i < length xs → set (xs ++ ys) i v ≡ set xs i v ++ ys
  set-append_left [] ys i v h = elim h [ ]
  set-append_left (x ∷ xs) ys zero v h = refl
  set-append_left (x ∷ xs) ys (suc i) v h = ap (◌∷◌ x) (set-append_left xs ys i v (omega arith))

  pub set-append_right :
      (xs ys : List A) (i j : ℕ) (v : A) → i ≡ length xs + j → set (xs ++ ys) i v ≡ xs ++ set ys j v
  set-append_right [] ys i j v h = ap (λ k. set ys k v) (omega arith)
  set-append_right (x ∷ xs) ys zero j v h = absurd (omega arith)
  set-append_right (x ∷ xs) ys (suc i) j v h =
      ap (◌∷◌ x) (set-append_right xs ys i j v (omega arith))

  pub drop_last-append :
      (xs : List A) (y : A) (ys : List A) → drop_last (xs ++ y ∷ ys) ≡ xs ++ drop_last (y ∷ ys)
  drop_last-append [] y ys = refl
  drop_last-append (x ∷ []) y ys = refl
  drop_last-append (x ∷ z ∷ xs) y ys = ap (◌∷◌ x) (drop_last-append (z ∷ xs) y ys)

  same_length : {xs ys : List A} → Permᴰ xs ys → length ys ≡ length xs
  same_length (Permᴰ.trans p q) = same_length q ∙ same_length p
  same_length (Permᴰ.swap x y) = omega arith
  same_length (Permᴰ.cons x p) = omega (arith, same_length p)
  same_length Permᴰ.nil = omega arith

  pub length-perm : {xs ys : List A} → Perm xs ys → length xs ≡ length ys
  length-perm {xs = xs} {ys = ys} p =
      ∥∥₁_elim p (ℕ_set (length xs) (length ys)) (λ d. sym (same_length d))
