-- ===== src/Hnsw/Heuristic/Least.antt =====
-- The candidate that the choice for a new element returns is a closest one.
use mathlib.Core.Logic.{∥∥₁_elim}
use mathlib.Core.List.{Permᴰ}
use native.Mathlib.Nat.{ℕ_set}
use vector_similarity.Base.{
  ℕ, ◌+◌, ◌≤◌, ◌<◌, ◌≡◌, refl, sym, ap, subst, ◌∙◌, true, false, List, [], ◌∷◌, ◌++◌, Perm, length,
  leb, ltb, ◌==◌, if◌then◌else◌, arith, Bool-cases, inl, inr,
}
use vector_similarity.Query.Order.{All, All-map}
use vector_similarity.Hnsw.Heuristic.{Candidates, IsByDistance, is_covered, select, min_element}

-- the candidates whose distance is not that of `query`
abbrev wrong_one : (ℕ → ℕ) → ℕ × ℕ → ℕ
wrong_one query c = if c.0 == query c.1 then 0 else 1

abbrev wrong : (ℕ → ℕ) → Candidates → ℕ
wrong query [] = 0
wrong query (c ∷ cs) = wrong_one query c + wrong query cs

wrong-permᴰ : {xs ys : Candidates} (query : ℕ → ℕ) → Permᴰ xs ys → wrong query xs ≡ wrong query ys
wrong-permᴰ query Permᴰ.nil = refl
wrong-permᴰ query (Permᴰ.cons e p) = omega (arith, wrong-permᴰ query p, ap (wrong_one query) e)
wrong-permᴰ query (Permᴰ.swap d e) = omega (arith, ap (wrong_one query) d, ap (wrong_one query) e)
wrong-permᴰ query (Permᴰ.trans p q) = wrong-permᴰ query p ∙ wrong-permᴰ query q

wrong-none : (query : ℕ → ℕ) (cs : Candidates) → All (λ c. c.0 ≡ query c.1) cs → wrong query cs ≡ 0
wrong-none query [] all = refl
wrong-none query (c ∷ cs) all = ground (arith, all.0, wrong-none query cs all.1)

none-wrong : (query : ℕ → ℕ) (cs : Candidates) → wrong query cs ≡ 0 → All (λ c. c.0 ≡ query c.1) cs
none-wrong query [] none_left = tt
none-wrong query (c ∷ cs) none_left =
    (ground (arith, none_left), none-wrong query cs (ground (arith, none_left)))

pub scored-perm :
    (query : ℕ → ℕ) (xs ys : Candidates)
    → Perm xs ys
    → All (λ c. c.0 ≡ query c.1) ys
    → All (λ c. c.0 ≡ query c.1) xs
scored-perm query xs ys p all =
    none-wrong query xs (∥∥₁_elim p (ℕ_set _ _) (wrong-permᴰ query) ∙ wrong-none query ys all)

pub min_element-All {κ} :
    (P : ℕ × ℕ → Type κ) (b : ℕ × ℕ) (cs : Candidates) → All P (b ∷ cs) → P (min_element b cs)
unfolding min_element
min_element-All P b [] all = all.0
min_element-All P b (c ∷ cs) all = elim (Bool-cases (ltb c.0 b.0)) [
  | inl less ↦ rw less (min_element-All P c cs all.1)
  | inr more ↦ rw more (min_element-All P b cs (all.0, all.1.1))
]

min_element-closer :
    (b c : ℕ × ℕ) (cs : Candidates) → ltb c.0 b.0 ≡ true → min_element b (c ∷ cs) ≡ min_element c cs
unfolding min_element
min_element-closer b c cs less = rw less refl

min_element-farther :
    (b c : ℕ × ℕ) (cs : Candidates)
    → ltb c.0 b.0 ≡ false
    → min_element b (c ∷ cs) ≡ min_element b cs
unfolding min_element
min_element-farther b c cs more = rw more refl

pub min_element-least :
    (b : ℕ × ℕ) (cs : Candidates) → All (λ c. (min_element b cs).0 ≤ c.0) (b ∷ cs)
unfolding min_element
min_element-least b [] = (omega arith, tt)
min_element-least b (c ∷ cs) = elim (Bool-cases (ltb c.0 b.0)) [
  | inl less ↦
      let ih = min_element-least c cs in
      subst (λ (m : ℕ × ℕ). All (λ x. m.0 ≤ x.0) (b ∷ c ∷ cs))
        (sym (min_element-closer b c cs less)) (ground (arith, ih.0, less), ih)
  | inr more ↦
      let ih = min_element-least b cs in
      subst (λ (m : ℕ × ℕ). All (λ x. m.0 ≤ x.0) (b ∷ c ∷ cs))
        (sym (min_element-farther b c cs more)) (ih.0, (ground (arith, ih.0, more), ih.1))
]

pub IsByDistance-least :
    (c : ℕ × ℕ) (cs : Candidates) → IsByDistance (c ∷ cs) → All (λ x. c.0 ≤ x.0) (c ∷ cs)
IsByDistance-least c [] h = (omega arith, tt)
IsByDistance-least c (d ∷ cs) (le, h) =
    (omega arith, All-map (d ∷ cs) (λ x k. omega (arith, le, k)) (IsByDistance-least d cs h))

module _ (dist : ℕ → ℕ → ℕ) where
  select_keeps_head :
      (m : ℕ) (c : ℕ × ℕ) (cs selected : Candidates) (removed : List ℕ)
      → (rest : Candidates) × ((select dist m cs (c ∷ selected) removed).0 ≡ c ∷ rest)
  unfolding select
  select_keeps_head m c [] selected removed = (selected, refl)
  select_keeps_head m c (x ∷ cs) selected removed =
      elim (Bool-cases (leb m (length (c ∷ selected)))) [
        | inl full ↦ rw full (selected, refl)
        | inr space ↦ elim (Bool-cases (is_covered dist x (c ∷ selected))) [
          | inl covered ↦
              rw (space, covered) (select_keeps_head m c cs selected (removed ++ x.1 ∷ []))
          | inr apart ↦ rw (space, apart) (select_keeps_head m c cs (selected ++ x ∷ []) removed)
        ]
      ]

  -- the first candidate is always selected
  pub select_head :
      (m : ℕ) (c : ℕ × ℕ) (cs : Candidates)
      → 0 < m
      → (rest : Candidates) × ((select dist m (c ∷ cs) [] []).0 ≡ c ∷ rest)
  unfolding select
  select_head m c cs pos =
      let space : leb m 0 ≡ false = ground arith in rw space (select_keeps_head m c cs [] [])
