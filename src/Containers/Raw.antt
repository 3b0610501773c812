-- ===== src/Containers/Raw.antt =====
-- src/VecSim/containers/raw_data_container_interface.h: the container that an index stores its
-- vectors in, as operations and the laws that the index relies on.
-- `none` is a failed `assert`, an access out of range, or a division by zero.
use vector_similarity.Base.{
  ℕ, suc, ◌/◌, ◌%◌, ◌<◌, ◌≡◌, List, [], ◌∷◌, ◌++◌, Option, some, length, get_elem?, set, drop_last,
}

-- `contents` is the abstract view: the stored elements, in order of their ids.
-- The container is one with blocks of `n` elements, as `BruteForceIndex` asserts by a cast.
pub record RawContainer (A : Type 0) (n : ℕ) : Type 1 where
  pub Carrier : Type 0
  pub IsValid : Carrier → Type 0
  pub contents : Carrier → List A
  pub size : Carrier → ℕ
  pub add_element : Carrier → A → ℕ → Option Carrier
  pub get_element : Carrier → ℕ → Option A
  pub remove_element : Carrier → ℕ → Option Carrier
  pub update_element : Carrier → ℕ → A → Option Carrier
  pub num_blocks : Carrier → ℕ
  -- what a `while (next())` loop over a new iterator visits
  pub iterate : Carrier → Option (List A)
  pub iterate-contents : (c : Carrier) → IsValid c → iterate c ≡ some (contents c)
  pub size-contents : (c : Carrier) → IsValid c → size c ≡ length (contents c)
  pub num_blocks-contents :
      (c : Carrier)
      → IsValid c
      → length (contents c) % n ≡ 0
      → num_blocks c ≡ length (contents c) / n
  pub add_element-contents :
      (c : Carrier) (x : A)
      → IsValid c
      → (c' : Carrier) × (add_element c x (length (contents c)) ≡ some c')
        × IsValid c'
        × (contents c' ≡ contents c ++ x ∷ [])
  pub get_element-contents :
      (c : Carrier) (i : ℕ)
      → IsValid c
      → i < length (contents c)
      → get_element c i ≡ get_elem? (contents c) i
  pub remove_element-contents :
      (c : Carrier) (i : ℕ)
      → IsValid c
      → suc i ≡ length (contents c)
      → (c' : Carrier) × (remove_element c i ≡ some c')
        × IsValid c'
        × (contents c' ≡ drop_last (contents c))
  pub update_element-contents :
      (c : Carrier) (i : ℕ) (x : A)
      → IsValid c
      → i < length (contents c)
      → (c' : Carrier) × (update_element c i x ≡ some c')
        × IsValid c'
        × (contents c' ≡ set (contents c) i x)
