-- ===== src/Utils/Filter/Unique.antt =====
-- Each id is left once, with its lowest score.
use mathlib.Core.Logic.{∥∥₁_elim}
use mathlib.Core.List.{Permᴰ}
use native.Mathlib.Nat.{ℕ_set}
use vector_similarity.Base.{
  ℕ, ◌+◌, ◌≤◌, ◌<◌, ◌≡◌, refl, ap, ◌∙◌, true, List, [], ◌∷◌, Perm, length, ltb, min, ◌==◌,
  if◌then◌else◌, arith, Bool-cases, inl, inr,
}
use vector_similarity.Query.{QueryResult}
use vector_similarity.Utils.Filter.{IsById, SortById, keep, filter_sorted, filter_results_by_id}

-- how many results have an id
abbrev pub copies : ℕ → List QueryResult → ℕ
copies v [] = 0
copies v (r ∷ rs) = (if r.id == v then 1 else 0) + copies v rs

-- the lowest score of an id, and of `bound`
abbrev pub least : ℕ → ℕ → List QueryResult → ℕ
least v bound [] = bound
least v bound (r ∷ rs) = if r.id == v then min r.score (least v bound rs) else least v bound rs

swapped :
    (v bound : ℕ) (a b : QueryResult) (l : List QueryResult)
    → least v bound (a ∷ b ∷ l) ≡ least v bound (b ∷ a ∷ l)
swapped v bound a b l = ground arith

same_permᴰ :
    {rs ss : List QueryResult} (v bound : ℕ)
    → Permᴰ rs ss
    → (copies v rs ≡ copies v ss) × (least v bound rs ≡ least v bound ss)
same_permᴰ v bound Permᴰ.nil = (refl, refl)
same_permᴰ v bound (Permᴰ.cons {b = b} {l₁ = l₁} e p) =
    let (c, l) = same_permᴰ v bound p in
    (
      omega (arith, c, ap {B = ℕ} (λ r. if r.id == v then 1 else 0) e),
      ap (λ r. if r.id == v then min r.score (least v bound l₁) else least v bound l₁) e
          ∙ ap (λ k. if b.id == v then min b.score k else k) l,
    )
same_permᴰ v bound (Permᴰ.swap {a = a} {b = b} {a' = a'} {b' = b'} {l = l} d e) = (
  omega (
    arith,
    ap {B = ℕ} (λ r. if r.id == v then 1 else 0) d,
    ap {B = ℕ} (λ r. if r.id == v then 1 else 0) e,
  ),
  swapped v bound a b l
      ∙ ap (λ r. least v bound (r ∷ a ∷ l)) e
      ∙ ap (λ r. least v bound (a' ∷ r ∷ l)) d,
)
same_permᴰ v bound (Permᴰ.trans p q) =
    let (c, l) = same_permᴰ v bound p in let (c', l') = same_permᴰ v bound q in (c ∙ c', l ∙ l')

pub same_perm :
    (v bound : ℕ) (rs ss : List QueryResult)
    → Perm rs ss
    → (copies v rs ≡ copies v ss) × (least v bound rs ≡ least v bound ss)
same_perm v bound rs ss p = (
  ∥∥₁_elim p (ℕ_set _ _) (λ d. (same_permᴰ v bound d).0),
  ∥∥₁_elim p (ℕ_set _ _) (λ d. (same_permᴰ v bound d).1),
)

-- an id that is below the first is not there
none_below :
    (v : ℕ) (r : QueryResult) (rs : List QueryResult)
    → IsById (r ∷ rs)
    → v < r.id
    → copies v (r ∷ rs) ≡ 0
none_below v r [] h lt = ground (arith, lt)
none_below v r (s ∷ rs) (le, h) lt = ground (arith, lt, none_below v s rs h (omega (arith, le, lt)))

later_sorted : (r : QueryResult) (rs : List QueryResult) → IsById (r ∷ rs) → IsById rs
later_sorted r [] h = tt
later_sorted r (s ∷ rs) (le, h) = h

-- of an id that is not there, the bound is the least
least_none : (v bound : ℕ) (rs : List QueryResult) → copies v rs ≡ 0 → least v bound rs ≡ bound
least_none v bound [] h = refl
least_none v bound (r ∷ rs) h = ground (arith, h, least_none v bound rs)

-- two results of one id, where `t` is what is left of the rest
both_lem :
    (v bound : ℕ) (r s : QueryResult) (rs t : List QueryResult)
    → (r.id == s.id) ≡ true
    → copies v (r ∷ s ∷ rs) ≤ 2
    → copies v t ≡ min 1 (copies v rs)
    → least v bound t ≡ least v bound rs
    → (copies v (keep true r s ∷ t) ≡ min 1 (copies v (r ∷ s ∷ rs)))
      × (least v bound (keep true r s ∷ t) ≡ least v bound (r ∷ s ∷ rs))
both_lem v bound r s rs t same two c l = elim (Bool-cases (ltb r.score s.score)) [
  | inl less ↦ rw less (ground (arith, same, two, c), ground (arith, same, l, less))
  | inr more ↦ rw more (ground (arith, same, two, c), ground (arith, same, l, more))
]

-- a result whose id the rest does not have
one_lem :
    (v bound : ℕ) (r : QueryResult) (rs t : List QueryResult)
    → (r.id ≡ v → copies v rs ≡ 0)
    → copies v t ≡ min 1 (copies v rs)
    → least v bound t ≡ least v bound rs
    → (copies v (r ∷ t) ≡ min 1 (copies v (r ∷ rs)))
      × (least v bound (r ∷ t) ≡ least v bound (r ∷ rs))
one_lem v bound r rs t gone c l = (ground (arith, gone, c), ground (arith, l))

filter_sorted_lem :
    (rs : List QueryResult)
    → IsById rs
    → ((v : ℕ) → copies v rs ≤ 2)
    → (v bound : ℕ)
    → (copies v (filter_sorted true rs) ≡ min 1 (copies v rs))
      × (least v bound (filter_sorted true rs) ≡ least v bound rs)
unfolding filter_sorted
filter_sorted_lem [] h two v bound = (omega arith, refl)
filter_sorted_lem (r ∷ []) h two v bound = (ground arith, refl)
filter_sorted_lem (r ∷ s ∷ rs) (le, h) two v bound = elim (Bool-cases (r.id == s.id)) [
  | inl same ↦
      let (c, l) = filter_sorted_lem rs (later_sorted s rs h) (λ w. omega (arith, two w)) v bound in
      rw same (both_lem v bound r s rs (filter_sorted true rs) same (two v) c l)
  | inr apart ↦
      let (c, l) = filter_sorted_lem (s ∷ rs) h (λ w. omega (arith, two w)) v bound in
      let gone : r.id ≡ v → copies v (s ∷ rs) ≡ 0 =
        λ q. none_below v s rs h (ground (arith, le, apart, q)) in
      rw apart (one_lem v bound r (s ∷ rs) (filter_sorted true (s ∷ rs)) gone c l)
]

-- Where an id has at most two results, the filter for a multi-value index leaves every id that has a
-- result once, and no other, with the lowest of its scores.
pub filter_results_by_id-least :
    (sorter : SortById) (rs : List QueryResult)
    → ((v : ℕ) → copies v rs ≤ 2)
    → (v bound : ℕ)
    → (copies v (filter_results_by_id sorter true rs) ≡ min 1 (copies v rs))
      × (least v bound (filter_results_by_id sorter true rs) ≡ least v bound rs)
unfolding filter_results_by_id
filter_results_by_id-least sorter rs two v bound = elim (Bool-cases (ltb (length rs) 2)) [
  | inl short ↦ rw short (short_once rs short, refl)
  | inr long ↦
      let (c, l) = same_perm v bound (sorter.sort rs) rs (sorter.sort-perm rs) in
      let (c', l') =
        filter_sorted_lem (sorter.sort rs) (sorter.sort-IsById rs)
          (λ w. omega (arith, two w, (same_perm w 0 (sorter.sort rs) rs (sorter.sort-perm rs)).0)) v
          bound in
      rw long (omega (arith, c, c'), l' ∙ l)
]
  where
    short_once :
        (rs : List QueryResult) → ltb (length rs) 2 ≡ true → copies v rs ≡ min 1 (copies v rs)
    short_once [] h = omega arith
    short_once (r ∷ []) h = ground arith
    short_once (r ∷ s ∷ rs) h = absurd (ground (arith, h))
