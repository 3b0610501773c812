-- ===== src/Hnsw/Sample.antt =====
-- A sort for the candidates, and a small layer, on which the operations are run.
use mathlib.Core.List.Perm
use vector_similarity.Base.{
  ℕ, zero, suc, ◌+◌, ◌-◌, ◌≤◌, ◌<◌, ◌≡◌, refl, Bool, true, false, [], ◌∷◌, Perm, length, leb, ◌==◌,
  if◌then◌else◌, arith, Bool-cases, inl, inr,
}
use vector_similarity.Hnsw.Links.{has}
use vector_similarity.Hnsw.Counts.{count}
use vector_similarity.Hnsw.Layer.{Layer}
use vector_similarity.Hnsw.Tracked.{edges, Tracks, IsMutual}
use vector_similarity.Hnsw.Heuristic.{Candidates, IsByDistance, Sorter}

abbrev insert_by : ℕ × ℕ → Candidates → Candidates
insert_by c [] = c ∷ []
insert_by c (x ∷ xs) = let rest = insert_by c xs in if leb c.0 x.0 then c ∷ x ∷ xs else x ∷ rest

abbrev sort_by : Candidates → Candidates
sort_by [] = []
sort_by (c ∷ cs) = insert_by c (sort_by cs)

insert_by-perm : (c : ℕ × ℕ) (cs : Candidates) → Perm (insert_by c cs) (c ∷ cs)
insert_by-perm c [] = Perm.refl (c ∷ [])
insert_by-perm c (x ∷ xs) = elim (Bool-cases (leb c.0 x.0)) [
  | inl e ↦ rw e (Perm.refl (c ∷ x ∷ xs))
  | inr e ↦ rw e (Perm.trans (Perm.cons x (insert_by-perm c xs)) (Perm.swap c x xs))
]

pub sort_by-perm : (cs : Candidates) → Perm (sort_by cs) cs
sort_by-perm [] = Perm.refl []
sort_by-perm (c ∷ cs) = Perm.trans (insert_by-perm c (sort_by cs)) (Perm.cons c (sort_by-perm cs))

insert_by-IsByDistance :
    (c : ℕ × ℕ) (cs : Candidates) → IsByDistance cs → IsByDistance (insert_by c cs)
insert_by-IsByDistance c [] h = tt
insert_by-IsByDistance c (x ∷ []) h = elim (Bool-cases (leb c.0 x.0)) [
  | inl e ↦ rw e (ground (arith, e), tt)
  | inr e ↦ rw e (ground (arith, e), tt)
]
insert_by-IsByDistance c (x ∷ y ∷ xs) (h, hs) =
    let rest = insert_by-IsByDistance c (y ∷ xs) hs in
    elim (Bool-cases (leb c.0 x.0)) [
      | inl e ↦ rw e (ground (arith, e), (h, hs))
      | inr e ↦ elim (Bool-cases (leb c.0 y.0)) [
        | inl e' ↦ rw (e, e') (ground (arith, e), (rw e' at rest))
        | inr e' ↦ rw (e, e') (h, (rw e' at rest))
      ]
    ]

pub sort_by-IsByDistance : (cs : Candidates) → IsByDistance (sort_by cs)
sort_by-IsByDistance [] = tt
sort_by-IsByDistance (c ∷ cs) = insert_by-IsByDistance c (sort_by cs) (sort_by-IsByDistance cs)

abbrev pub sorter : Sorter
sorter = record {
  sort = sort_by;
  sort-perm = sort_by-perm;
  sort-IsByDistance = sort_by-IsByDistance;
}

-- the vectors are points of a line
abbrev pub apart : ℕ → ℕ → ℕ
apart i j = (i - j) + (j - i)

abbrev pub nothing : ℕ → Bool
nothing i = false

abbrev pub only_two : ℕ → Bool
only_two i = i == 2

-- 0 and 1 are linked, as are 1 and 2, and 2 is linked to 0 one way
abbrev pub three : Layer
three zero = record { incoming = 2 ∷ []; links = 1 ∷ [] }
three (suc zero) = record { incoming = []; links = 0 ∷ 2 ∷ [] }
three (suc (suc zero)) = record { incoming = []; links = 1 ∷ 0 ∷ [] }
three (suc (suc (suc i))) = record { incoming = []; links = [] }

three-Tracks : Tracks (edges three) three
three-Tracks zero zero = refl
three-Tracks zero (suc zero) = refl
three-Tracks zero (suc (suc zero)) = refl
three-Tracks zero (suc (suc (suc v))) = ground arith
three-Tracks (suc zero) zero = refl
three-Tracks (suc zero) (suc zero) = refl
three-Tracks (suc zero) (suc (suc zero)) = refl
three-Tracks (suc zero) (suc (suc (suc v))) = ground arith
three-Tracks (suc (suc zero)) zero = refl
three-Tracks (suc (suc zero)) (suc zero) = refl
three-Tracks (suc (suc zero)) (suc (suc zero)) = refl
three-Tracks (suc (suc zero)) (suc (suc (suc v))) = ground arith
three-Tracks (suc (suc (suc u))) zero = ground arith
three-Tracks (suc (suc (suc u))) (suc zero) = ground arith
three-Tracks (suc (suc (suc u))) (suc (suc zero)) = ground arith
three-Tracks (suc (suc (suc u))) (suc (suc (suc v))) = ground arith

three-simple : (u v : ℕ) → count v (three u).links ≤ 1
three-simple zero v = ground arith
three-simple (suc zero) v = ground arith
three-simple (suc (suc zero)) v = ground arith
three-simple (suc (suc (suc u))) v = omega arith

three-loopless : (u : ℕ) → count u (three u).links ≡ 0
three-loopless zero = refl
three-loopless (suc zero) = refl
three-loopless (suc (suc zero)) = refl
three-loopless (suc (suc (suc u))) = refl

three-bounded : (u : ℕ) → length (three u).links ≤ 2
three-bounded zero = omega arith
three-bounded (suc zero) = omega arith
three-bounded (suc (suc zero)) = omega arith
three-bounded (suc (suc (suc u))) = omega arith

pub three-IsMutual : IsMutual 2 three
three-IsMutual = record {
  simple = three-simple;
  loopless = three-loopless;
  bounded = three-bounded;
  tracked = three-Tracks;
}

pub three-inside : (u v : ℕ) → has v (three u).links ≡ true → v < 3
three-inside zero v h = ground (arith, h)
three-inside (suc zero) v h = ground (arith, h)
three-inside (suc (suc zero)) v h = ground (arith, h)
three-inside (suc (suc (suc u))) v h = cc
