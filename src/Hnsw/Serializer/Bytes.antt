-- ===== src/Hnsw/Serializer/Bytes.antt =====
-- src/VecSim/utils/serializer.h: numbers in a stream of bytes. `writeBinaryPOD` copies the memory of
-- a value, here that of a little-endian machine. A stream that ends too early sets a flag that the
-- code does not look at; here it is a failure.
use vector_similarity.Base.{
  ℕ, zero, suc, ◌+◌, ◌*◌, ◌/◌, ◌%◌, ◌^◌, ◌<◌, ◌≡◌, refl, List, [], ◌∷◌, ◌++◌, arith, length,
}
use mathlib.Core.List.{append_assoc}

-- the exceptions that loading an index throws, the end of the stream, and a failed assert
pub data Failure : Type 0 where
  end_of_stream : Failure
  deprecated_version : Failure
  bad_version : Failure
  bad_algorithm : Failure
  bad_type : Failure
  m_too_large : Failure
  m_too_small : Failure
  failed_assert : Failure

pub data Result {ℓ} (A : Type ℓ) : Type ℓ where
  ok : A → Result A
  err : Failure → Result A

infixl 5 ◌>>=◌
abbrev pub ◌>>=◌ {ℓ κ} : {A : Type ℓ} {B : Type κ} → Result A → (A → Result B) → Result B
ok a >>= f = f a
err e >>= f = err e

-- what is read, and the rest of the stream
abbrev pub Read {ℓ} : Type ℓ → Type ℓ
Read A = Result (A × List ℕ)

-- a value of `w` bytes
unfoldable pub write_binary_pod : ℕ → ℕ → List ℕ
write_binary_pod zero v = []
write_binary_pod (suc w) v = v % 256 ∷ write_binary_pod w (v / 256)

unfoldable pub read_binary_pod : ℕ → List ℕ → Read ℕ
read_binary_pod zero input = ok (0, input)
read_binary_pod (suc w) [] = err end_of_stream
read_binary_pod (suc w) (b ∷ input) = do (v, rest) ← read_binary_pod w input; ok (b + 256 * v, rest)

-- `input.read(p, n)`
unfoldable pub read_bytes : ℕ → List ℕ → Read (List ℕ)
read_bytes zero input = ok ([], input)
read_bytes (suc n) [] = err end_of_stream
read_bytes (suc n) (b ∷ input) = do (bs, rest) ← read_bytes n input; ok (b ∷ bs, rest)

module _ {ℓ} {A : Type ℓ} where
  -- a loop that writes the values of a list
  unfoldable pub write_each : (A → List ℕ) → List A → List ℕ
  write_each write [] = []
  write_each write (x ∷ xs) = write x ++ write_each write xs

  -- a loop that reads `n` values
  unfoldable pub read_each : (List ℕ → Read A) → ℕ → List ℕ → Read (List A)
  read_each read zero input = ok ([], input)
  read_each read (suc n) input = do
    (x, rest) ← read input
    (xs, rest') ← read_each read n rest
    ok (x ∷ xs, rest')

-- A number that fits its bytes is read back, and the stream goes on behind it.
pub read-write :
    (w v : ℕ) (rest : List ℕ)
    → v < 256 ^ w
    → read_binary_pod w (write_binary_pod w v ++ rest) ≡ ok (v, rest)
unfolding read_binary_pod write_binary_pod
read-write zero v rest h = ground arith
read-write (suc w) v rest h = ground (arith, read-write w (v / 256) rest (fits w v h))
  where
    fits : (w v : ℕ) → v < 256 ^ suc w → v / 256 < 256 ^ w
    fits w v h = omega arith

pub read_bytes-append : (bs rest : List ℕ) → read_bytes (length bs) (bs ++ rest) ≡ ok (bs, rest)
unfolding read_bytes
read_bytes-append [] rest = refl
read_bytes-append (b ∷ bs) rest = rw (read_bytes-append bs rest) refl

abbrev pub All {ℓ κ} : {A : Type ℓ} → (A → Type κ) → List A → Type κ
All P [] = Unit
All P (x ∷ xs) = P x × All P xs

-- Values that are read back one by one are read back in a loop.
pub read_each-write_each {ℓ κ} :
    {A : Type ℓ} (P : A → Type κ) (write : A → List ℕ) (read : List ℕ → Read A) (xs : List A)
    (rest : List ℕ)
    → ((x : A) (tail : List ℕ) → P x → read (write x ++ tail) ≡ ok (x, tail))
    → All P xs
    → read_each read (length xs) (write_each write xs ++ rest) ≡ ok (xs, rest)
unfolding read_each write_each
read_each-write_each P write read [] rest back all = refl
read_each-write_each P write read (x ∷ xs) rest back all =
    let e = write_each write xs in
    rw
      (
        append_assoc (write x) e rest,
        back x (e ++ rest) all.0,
        read_each-write_each P write read xs rest back all.1,
      )
      refl
