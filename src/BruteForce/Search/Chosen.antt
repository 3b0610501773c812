-- ===== src/BruteForce/Search/Chosen.antt =====
-- The results that topKQuery takes from its queue are a best selection of the candidates.
use mathlib.Core.List.{append-nil, perm_middle}
use mathlib.Core.List.Perm
use vector_similarity.Base.{
  ℕ, ◌≤◌, ◌≡◌, refl, List, [], ◌∷◌, ◌++◌, map, Perm, some, length, min, arith, length-perm,
  length-append,
}
use vector_similarity.Query.Order.{AtMost, All, IsDescending, IsAscending, All-map}
use vector_similarity.Query.{QueryResult, to_result}
use vector_similarity.Query.Heap.{pop, top, max_priority_queue}
use vector_similarity.BruteForce.Search.Step.{Best}
use vector_similarity.BruteForce.Search.{unload}

-- from the largest first to the smallest first
abbrev pub rev_onto : List (ℕ × ℕ) → List (ℕ × ℕ) → List (ℕ × ℕ)
rev_onto [] out = out
rev_onto (x ∷ h) out = rev_onto h (x ∷ out)

rev_onto-perm : (h out : List (ℕ × ℕ)) → Perm (rev_onto h out) (h ++ out)
rev_onto-perm [] out = Perm.refl out
rev_onto-perm (x ∷ h) out = Perm.trans (rev_onto-perm h (x ∷ out)) (perm_middle h out)

rev_onto-IsAscending :
    (h out : List (ℕ × ℕ))
    → IsDescending h
    → IsAscending out
    → All (λ x. All (AtMost x) out) h
    → IsAscending (rev_onto h out)
rev_onto-IsAscending [] out d a h = a
rev_onto-IsAscending (x ∷ t) out d a h =
    rev_onto-IsAscending t (x ∷ out) d.1 (h.0, a) (both t d.0 h.1)
  where
    both :
        (t : List (ℕ × ℕ))
        → All (λ y. AtMost y x) t
        → All (λ y. All (AtMost y) out) t
        → All (λ y. AtMost y x × All (AtMost y) out) t
    both [] p q = tt
    both (y ∷ t) p q = ((p.0, q.0), both t p.1 q.1)

All-nothing : (h : List (ℕ × ℕ)) → All (λ x. All (AtMost x) []) h
All-nothing [] = tt
All-nothing (x ∷ h) = (tt, All-nothing h)

All-rev_onto :
    (P : ℕ × ℕ → Type 0) (h out : List (ℕ × ℕ)) → All P h → All P out → All P (rev_onto h out)
All-rev_onto P [] out p q = q
All-rev_onto P (x ∷ h) out p q = All-rev_onto P h (x ∷ out) p.1 (p.0, q)

pub unload_lem :
    (h out : List (ℕ × ℕ))
    → unload max_priority_queue (length h) h (map to_result out)
      ≡ some (map to_result (rev_onto h out))
unfolding unload top pop
unload_lem [] out = refl
unload_lem (x ∷ h) out = unload_lem h (x ∷ out)

-- `results` are `k` of the candidates in ascending order of score and then label, or all of them
-- where there are fewer, and no candidate left out has a lower score than one of them
pub record IsTopK (k : ℕ) (candidates : List (ℕ × ℕ)) (results : List QueryResult) : Type 0 where
  pub chosen : List (ℕ × ℕ)
  pub others : List (ℕ × ℕ)
  pub listed : results ≡ map to_result chosen
  pub perm : Perm (chosen ++ others) candidates
  pub ascending : IsAscending chosen
  pub closest : All (λ d. All (λ c. c.0 ≤ d.0) chosen) others
  pub counted : length chosen ≡ min k (length candidates)

pub Best-IsTopK :
    (k : ℕ) (seen h rest : List (ℕ × ℕ))
    → Best k seen h rest
    → IsTopK k seen (map to_result (rev_onto h []))
Best-IsTopK k seen h rest b =
    let same = rw (append-nil h) at (rev_onto-perm h []) in
    let size = length-perm same in
    let all = length-perm b.perm in
    record {
      chosen = rev_onto h [];
      others = rest;
      listed = refl;
      perm = Perm.trans (Perm.append_right rest same) b.perm;
      ascending = rev_onto-IsAscending h [] b.descending tt (All-nothing h);
      closest = All-map rest (λ d p. All-rev_onto (λ c. c.0 ≤ d.0) h [] p tt) b.worse;
      counted = ground (arith, size, all, length-append h rest, b.full, b.bounded);
    }
