-- ===== src/Base/Dict.antt =====
-- `std::unordered_map` from labels: an association list whose order stands for the unspecified
-- iteration order. Used qualified: `Dict.find`.
use Prim.Native.Nat.{ℕ}
use mathlib.Core.Path.{◌≡◌, refl}
use mathlib.Core.List.{List, [], ◌∷◌, map}
use mathlib.Core.Option.{Option, none, some}
use native.Mathlib.Omega.{arith}
use vector_similarity.Base.Tests.{◌==◌, if◌then◌else◌}

abbrev pub Dict {ℓ} : Type ℓ → Type ℓ
Dict V = List (ℕ × V)

module _ {ℓ} {V : Type ℓ} where
  unfoldable pub find : ℕ → Dict V → Option V
  find k [] = none
  find k ((j, v) ∷ d) = if j == k then some v else find k d

  -- `d[k] = v`
  unfoldable pub insert : ℕ → V → Dict V → Dict V
  insert k v [] = (k, v) ∷ []
  insert k v ((j, w) ∷ d) = if j == k then (k, v) ∷ d else (j, w) ∷ insert k v d

  -- `d.emplace(k, v)`, which keeps an entry that is there
  unfoldable pub emplace : ℕ → V → Dict V → Dict V
  emplace k v d = elim (find k d) [ none ↦ insert k v d | some _ ↦ d ]

  -- `d.erase(k)`
  unfoldable pub erase : ℕ → Dict V → Dict V
  erase k [] = []
  erase k ((j, w) ∷ d) = let rest = erase k d in if j == k then rest else (j, w) ∷ rest

  abbrev pub keys : Dict V → List ℕ
  keys = map (λ e. e.0)

  pub find-insert :
      (k j : ℕ) (v : V) (d : Dict V) → find j (insert k v d) ≡ (if k == j then some v else find j d)
  unfolding find insert
  find-insert k j v [] = refl
  find-insert k j v ((i, w) ∷ d) = ground (arith, find-insert k j v d)

  pub find-erase : (k j : ℕ) (d : Dict V) → find j (erase k d) ≡ (if k == j then none else find j d)
  unfolding find erase
  find-erase k j [] = ground arith
  find-erase k j ((i, w) ∷ d) = ground (arith, find-erase k j d)

  pub find-emplace :
      (k j : ℕ) (v : V) (d : Dict V)
      → find k d ≡ none
      → find j (emplace k v d) ≡ (if k == j then some v else find j d)
  unfolding emplace
  find-emplace k j v d h = ground (arith, find-insert k j v d)
