-- ===== src/Hnsw/Range/State.antt =====
-- The states of a range search, and what a visit of links does to one.
use vector_similarity.Base.{
  ℕ, ◌+◌, ◌≤◌, ◌<◌, ◌≡◌, ◌⊎◌, ◌∙◌, refl, sym, ap, Bool, true, false, ◌||◌, List, [], ◌∷◌, ◌++◌,
  Option, some, length, arith, Bool-cases, inl, inr,
}
use vector_similarity.Query.{QueryResult}
use vector_similarity.Query.Order.{All}
use vector_similarity.Hnsw.Links.{has}
use vector_similarity.Hnsw.Counts.{count}
use vector_similarity.Hnsw.Heuristic.{ids}
use vector_similarity.Hnsw.Layer.{Layer}
use vector_similarity.Hnsw.Visited.Fresh.{is_tagged, untagged}
use vector_similarity.Hnsw.Search.Candidates.{InOrder}
use vector_similarity.Hnsw.Search.Reach.{Reach}
use vector_similarity.Hnsw.Range.{RangeScan}

-- a result is among others
abbrev pub IsIn : QueryResult → List QueryResult → Type 0
IsIn r [] = ⊥
IsIn r (x ∷ xs) = (x ≡ r) ⊎ IsIn r xs

pub IsIn-append : (r : QueryResult) (xs ys : List QueryResult) → IsIn r xs → IsIn r (xs ++ ys)
IsIn-append r [] ys h = elim h [ ]
IsIn-append r (x ∷ xs) ys (inl here) = inl here
IsIn-append r (x ∷ xs) ys (inr later) = inr (IsIn-append r xs ys later)

pub IsIn-last : (r : QueryResult) (xs : List QueryResult) → IsIn r (xs ++ r ∷ [])
IsIn-last r [] = inl refl
IsIn-last r (x ∷ xs) = inr (IsIn-last r xs)

module _ (name query : ℕ → ℕ) (deleted in_process : ℕ → Bool) (stretch : ℕ → ℕ) (radius : ℕ)
    (g : Layer) (ep : ℕ) where
  -- a result is a live node in the range that the entry point reaches
  abbrev pub IsWithin : QueryResult → Type 0
  IsWithin r =
      (r.score ≤ radius)
      × ((v : ℕ) × (r.id ≡ name v)
          × (r.score ≡ query v)
          × (deleted v ≡ false)
          × Reach g in_process ep v)

  abbrev pub State : Type 0
  State = RangeScan (List QueryResult)

  abbrev pub result_of : ℕ → QueryResult
  result_of v = record { id = name v; score = query v }

  -- the distance of a candidate is that of its node
  abbrev pub IsScored : State → Type 0
  IsScored s = All (λ c. c.0 ≡ query c.1) s.candidates

  module _ (n tag : ℕ) where
    -- `found` is of the live nodes in the range that have been visited.
    pub record InRange (s : State) : Type 0 where
      pub floor : stretch radius ≤ s.boundaries
      pub found :
          (v : ℕ)
          → is_tagged tag s.tags v ≡ true
          → deleted v ≡ false
          → query v ≤ radius
          → query v < stretch radius
          → IsIn (result_of v) s.results
      pub in_order : InOrder s.candidates
      pub size : length s.tags ≡ n
      pub within : All IsWithin s.results
      pub reached : (v : ℕ) → is_tagged tag s.tags v ≡ true → Reach g in_process ep v
      pub queued : (v : ℕ) → 0 < count v (ids s.candidates) → is_tagged tag s.tags v ≡ true

    abbrev pub measure : State → ℕ
    measure s = length s.candidates + untagged tag s.tags

    -- what a visit of the links `js` does to the visited nodes and the candidates
    pub record Passed (js : List ℕ) (s s' : State) : Type 0 where
      pub grows : (v : ℕ) → is_tagged tag s.tags v ≡ true → is_tagged tag s'.tags v ≡ true
      pub visited :
          (v : ℕ) → has v js ≡ true → in_process v ≡ false → is_tagged tag s'.tags v ≡ true
      pub keeps : (v : ℕ) → count v (ids s.candidates) ≤ count v (ids s'.candidates)
      pub queues :
          (v : ℕ)
          → is_tagged tag s'.tags v ≡ true
          → query v < stretch radius
          → (is_tagged tag s.tags v ≡ true) ⊎ (0 < count v (ids s'.candidates))
      pub scored : IsScored s → IsScored s'

    -- a step that succeeds, from one state in range to another
    abbrev pub Steps : List ℕ → State → Option State → Type 0
    Steps js s r =
        (s' : State) × (r ≡ some s') × InRange s' × (measure s' ≤ measure s) × Passed js s s'

    pub Passed-none : (s : State) → Passed [] s s
    Passed-none s = record {
      grows = λ v h. h;
      visited = λ v h k. cc;
      keeps = λ v. omega arith;
      queues = λ v h k. inl h;
      scored = λ h. h;
    }

    pub Passed-then :
        (j : ℕ) (js : List ℕ) (s s' s'' : State)
        → Passed (j ∷ []) s s'
        → Passed js s' s''
        → Passed (j ∷ js) s s''
    Passed-then j js s s' s'' p q = record {
      grows = λ v h. q.grows v (p.grows v h);
      visited = λ v h k. elim (Bool-cases (has v js)) [
        | inl later ↦ q.visited v later k
        | inr now ↦ q.grows v (p.visited v (ground (arith, h, now)) k)
      ];
      keeps = λ v. omega (arith, p.keeps v, q.keeps v);
      queues = λ v h k. elim (q.queues v h k) [
        | inr here ↦ inr here
        | inl before ↦ elim (p.queues v before k) [
          | inl earlier ↦ inl earlier
          | inr here ↦ inr (omega (arith, here, q.keeps v))
        ]
      ];
      scored = λ h. q.scored (p.scored h);
    }

    pub Passed-skip :
        (id : ℕ) (s : State)
        → (is_tagged tag s.tags id || in_process id) ≡ true
        → Passed (id ∷ []) s s
    Passed-skip id s skip = record {
      grows = λ v h. h;
      visited = λ v h p.
          let same : id ≡ v = ground (arith, h) in
          ap (is_tagged tag s.tags) (sym same) ∙ ground (arith, skip, ap in_process same, p);
      keeps = λ v. omega arith;
      queues = λ v h k. inl h;
      scored = λ h. h;
    }
