-- ===== src/Utils/Merge/Compare.antt =====
-- What the comparison of two results says.
use vector_similarity.Base.{
  ℕ, ◌+◌, ◌-◌, ◌%◌, ◌<◌, ◌≤◌, ◌≡◌, ◌⊎◌, refl, ltb, arith, Bool-cases, inl, inr,
}
use vector_similarity.Query.{QueryResult}
use vector_similarity.Utils.Merge.{
  Sign, negative, null, positive, cast_sign, double_eq, compare_results,
}

-- two scores that are less than `epsilon` apart
abbrev pub Near : ℕ → QueryResult → QueryResult → Type 0
Near epsilon a b = (a.score < b.score + epsilon) × (b.score < a.score + epsilon)

-- by score where the scores are `epsilon` or more apart, and else by id
abbrev pub Precedes : ℕ → QueryResult → QueryResult → Type 0
Precedes epsilon a b =
    ((a.score + epsilon ≤ b.score) × (a.score ≤ b.score)) ⊎ (Near epsilon a b × (a.id < b.id))

-- a result whose id is below 2^31
abbrev pub IsSmall : QueryResult → Type 0
IsSmall r = r.id < 2147483648

-- what a sign says of two results
abbrev pub Says : ℕ → QueryResult → QueryResult → Sign → Type 0
Says epsilon a b negative = Precedes epsilon a b
Says epsilon a b null = Near epsilon a b × (a.id ≡ b.id)
Says epsilon a b positive = Precedes epsilon b a

cast_sign_null :
    (a b : ℕ)
    → a ≡ b
    → a < 2147483648
    → cast_sign ((a + 18446744073709551616 - b) % 18446744073709551616) ≡ null
unfolding cast_sign
cast_sign_null a b q h =
    let zero_diff : (a + 18446744073709551616 - b) % 18446744073709551616 % 4294967296 ≡ 0 =
      omega (arith, q, h) in
    rw zero_diff refl

cast_sign_positive :
    (a b : ℕ)
    → b < a
    → a < 2147483648
    → cast_sign ((a + 18446744073709551616 - b) % 18446744073709551616) ≡ positive
unfolding cast_sign
cast_sign_positive a b q h =
    let diff : (a + 18446744073709551616 - b) % 18446744073709551616 % 4294967296 ≡ a - b =
      omega (arith, q, h) in
    rw diff (ground (arith, q, h))

cast_sign_negative :
    (a b : ℕ)
    → a < b
    → b < 2147483648
    → cast_sign ((a + 18446744073709551616 - b) % 18446744073709551616) ≡ negative
unfolding cast_sign
cast_sign_negative a b q h =
    let diff : (a + 18446744073709551616 - b) % 18446744073709551616 % 4294967296
        ≡ 4294967296 + a - b =
      omega (arith, q, h) in
    rw diff (ground (arith, q, h))

-- The comparison of two results whose ids are below 2^31 is that by score where their scores are
-- `epsilon` or more apart, and that by id where they are less than `epsilon` apart.
pub compare_results-Says :
    (epsilon : ℕ) (a b : QueryResult)
    → IsSmall a
    → IsSmall b
    → Says epsilon a b (compare_results epsilon a b)
unfolding compare_results double_eq
compare_results-Says epsilon a b ha hb =
    elim (Bool-cases (ltb (a.score - b.score + (b.score - a.score)) epsilon)) [
      | inl same ↦
          let near : Near epsilon a b = (ground (arith, same), ground (arith, same)) in
          elim (Bool-cases (ltb a.id b.id)) [
            | inl less ↦
                let sign = cast_sign_negative a.id b.id (ground (arith, less)) hb in
                rw (same, sign) (inr (near, ground (arith, less)))
            | inr not_less ↦ elim (Bool-cases (ltb b.id a.id)) [
              | inl more ↦
                  let sign = cast_sign_positive a.id b.id (ground (arith, more)) ha in
                  rw (same, sign) (inr ((near.1, near.0), ground (arith, more)))
              | inr equal ↦
                  let eq : a.id ≡ b.id = ground (arith, not_less, equal) in
                  let sign = cast_sign_null a.id b.id eq ha in rw (same, sign) (near, eq)
            ]
          ]
      | inr apart ↦ elim (Bool-cases (ltb b.score a.score)) [
        | inl more ↦ rw (apart, more) (inl (ground (arith, more, apart), ground (arith, more)))
        | inr less ↦ rw (apart, less) (inl (ground (arith, less, apart), ground (arith, less)))
      ]
    ]
