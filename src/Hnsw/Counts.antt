-- ===== src/Hnsw/Counts.antt =====
-- What the operations on links do to the number of times that an id occurs.
use vector_similarity.Base.{
  ℕ, suc, ◌+◌, ◌-◌, ◌<◌, ◌≡◌, refl, true, false, List, [], ◌∷◌, some, none, length, drop_last,
  arith, ◌==◌, ltb, Bool-cases, inl, inr, length-drop_last,
}
use vector_similarity.Containers.Blocks.{get_back}
use vector_similarity.Hnsw.Links.{has, replace, swap_remove, remove}
pub use vector_similarity.Base.{one_if, count, count-append}

pub has-count : (a : ℕ) (xs : List ℕ) → has a xs ≡ true → 0 < count a xs
has-count a [] h = cc
has-count a (x ∷ xs) h = ground (arith, has-count a xs)

pub not_has-count : (a : ℕ) (xs : List ℕ) → has a xs ≡ false → count a xs ≡ 0
not_has-count a [] h = refl
not_has-count a (x ∷ xs) h = ground (arith, not_has-count a xs)

pub count-replace :
    (a b c : ℕ) (xs : List ℕ)
    → has a xs ≡ true
    → count c (replace a b xs) + one_if (a == c) ≡ count c xs + one_if (b == c)
count-replace a b c [] h = cc
count-replace a b c (x ∷ xs) h = ground (arith, count-replace a b c xs)

pub length-replace : (a b : ℕ) (xs : List ℕ) → length (replace a b xs) ≡ length xs
length-replace a b [] = refl
length-replace a b (x ∷ xs) = ground (arith, length-replace a b xs)

get_back_of_has : (a : ℕ) (xs : List ℕ) → has a xs ≡ true → (b : ℕ) × (get_back xs ≡ some b)
unfolding get_back
get_back_of_has a [] h = cc
get_back_of_has a (x ∷ []) h = (x, refl)
get_back_of_has a (x ∷ y ∷ ys) h = back x y ys
  where
    back : (x y : ℕ) (ys : List ℕ) → (b : ℕ) × (get_back (x ∷ y ∷ ys) ≡ some b)
    back x y [] = (y, refl)
    back x y (z ∷ zs) = back y z zs

get_back-replace :
    (a b : ℕ) (xs : List ℕ) → get_back xs ≡ some b → get_back (replace a b xs) ≡ some b
unfolding get_back
get_back-replace a b [] h = cc
get_back-replace a b (x ∷ []) h = ground arith
get_back-replace a b (x ∷ y ∷ ys) h = ground (arith, get_back-replace a b (y ∷ ys))

count-drop_last :
    (b c : ℕ) (xs : List ℕ)
    → get_back xs ≡ some b
    → count c (drop_last xs) + one_if (b == c) ≡ count c xs
unfolding get_back
count-drop_last b c [] h = cc
count-drop_last b c (x ∷ []) h = ground arith
count-drop_last b c (x ∷ y ∷ ys) h = ground (arith, count-drop_last b c (y ∷ ys))

-- one occurrence is gone, and nothing else
pub swap_remove_lem :
    (a : ℕ) (xs : List ℕ)
    → has a xs ≡ true
    → (ys : List ℕ) × (swap_remove a xs ≡ some ys)
      × ((c : ℕ) → count c ys + one_if (a == c) ≡ count c xs)
      × (suc (length ys) ≡ length xs)
unfolding swap_remove
swap_remove_lem a xs h =
    let (b, back) = get_back_of_has a xs h in
    let back' = get_back-replace a b xs back in
    (
      drop_last (replace a b xs),
      rw (h, back) refl,
      λ c. omega (arith, count-replace a b c xs h, count-drop_last b c (replace a b xs) back'),
      omega (arith, length-drop_last (replace a b xs), length-replace a b xs, filled xs h),
    )
  where
    filled : (xs : List ℕ) → has a xs ≡ true → 0 < length xs
    filled [] h = cc
    filled (x ∷ xs) h = omega arith

swap_remove_missing : (a : ℕ) (xs : List ℕ) → has a xs ≡ false → swap_remove a xs ≡ none
unfolding swap_remove
swap_remove_missing a xs h = rw h refl

remove_of_found : (a : ℕ) (xs ys : List ℕ) → swap_remove a xs ≡ some ys → remove a xs ≡ (ys, true)
unfolding remove
remove_of_found a xs ys h = rw (h, remove) refl

pub remove_missing : (a : ℕ) (xs : List ℕ) → has a xs ≡ false → remove a xs ≡ (xs, false)
unfolding remove
remove_missing a xs h = rw (swap_remove_missing a xs h, remove) refl

pub count-remove : (a c : ℕ) (xs : List ℕ) → count c (remove a xs).0 ≡ count c xs - one_if (a == c)
count-remove a c xs = elim (Bool-cases (has a xs)) [
  | inl e ↦
      let (ys, done, counts, _) = swap_remove_lem a xs e in
      ground (arith, remove_of_found a xs ys done, counts c)
  | inr e ↦ ground (arith, remove_missing a xs e, not_has-count a xs e)
]

pub remove-found : (a : ℕ) (xs : List ℕ) → (remove a xs).1 ≡ has a xs
remove-found a xs = elim (Bool-cases (has a xs)) [
  | inl e ↦
      let (ys, done, _, _) = swap_remove_lem a xs e in ground (arith, remove_of_found a xs ys done)
  | inr e ↦ ground (arith, remove_missing a xs e)
]

pub has_count : (v : ℕ) (xs : List ℕ) → has v xs ≡ ltb 0 (count v xs)
has_count v [] = refl
has_count v (x ∷ xs) = ground (arith, has_count v xs)
