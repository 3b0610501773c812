-- ===== src/Hnsw/Done.antt =====
-- The nodes that a loop over ids has done.
use vector_similarity.Base.{ℕ, ◌≤◌, ◌<◌, ◌≡◌, Bool, false, ◌||◌, List, [], ◌∷◌, arith, ◌==◌}
use vector_similarity.Hnsw.Links.{has}
use vector_similarity.Hnsw.Counts.{count}

-- the nodes that are done after those of `cs`
abbrev pub and_also : (ℕ → Bool) → List ℕ → ℕ → Bool
and_also done cs u = done u || has u cs

pub and_also-cons :
    (done : ℕ → Bool) (c : ℕ) (cs : List ℕ) (u : ℕ)
    → and_also (λ w. done w || c == w) cs u ≡ and_also done (c ∷ cs) u
and_also-cons done c cs u = ground arith

pub and_also-nil : (done : ℕ → Bool) (u : ℕ) → done u ≡ and_also done [] u
and_also-nil done u = ground arith

-- the nodes of `c ∷ cs` are distinct and not done, so those of `cs` are not where `c` is
pub later_new :
    (done : ℕ → Bool) (c : ℕ) (cs : List ℕ)
    → ((v : ℕ) → count v (c ∷ cs) ≤ 1)
    → ((v : ℕ) → 0 < count v (c ∷ cs) → done v ≡ false)
    → (v : ℕ) → 0 < count v cs
    → (done v || c == v) ≡ false
later_new done c cs once new v h = ground (arith, once v, new v, h)
