-- ===== src/Hnsw/Entry.antt =====
-- hnsw.h: replaceEntryPoint. `links l` are the links of the entry point at the level `l`, `deleted` is
-- isMarkedDeleted, and `in_process` is isInProcess. The wait for a candidate that is in process is
-- left out: it ends when another thread has inserted the candidate.
pub mod Highest
use vector_similarity.Base.{
  ℕ, zero, suc, Bool, true, false, not, ◌&&◌, List, [], ◌∷◌, Option, some, none, ◌==◌,
  if◌then◌else◌,
}

-- What a loop has found: an element to return, or a candidate that is in process, if any.
pub data Found : Type 0 where
  ready : ℕ → Found
  waiting : Option ℕ → Found

module _ (deleted in_process : ℕ → Bool) where
  -- the loop over the links of the entry point
  pub scan_links : List ℕ → Option ℕ → Found
  scan_links [] candidate = waiting candidate
  scan_links (x ∷ xs) candidate =
      let skip = scan_links xs candidate in
      let wait = scan_links xs (some x) in
      if deleted x then skip else if in_process x then wait else ready x

  abbrev pub first_of : Option ℕ → ℕ → Option ℕ
  first_of none x = some x
  first_of (some c) x = some c

  -- the loop over the elements from the id `cur`, which are given by their top levels
  pub scan_elements : ℕ → ℕ → ℕ → List ℕ → Option ℕ → Found
  scan_elements old level cur [] candidate = waiting candidate
  scan_elements old level cur (top ∷ tops) candidate =
      let skip = scan_elements old level (suc cur) tops candidate in
      let wait = scan_elements old level (suc cur) tops (first_of candidate cur) in
      if not (top == level && not (cur == old) && not (deleted cur))
      then skip
      else if in_process cur
      then wait
      else ready cur

  -- one round at a level: the new entry point
  unfoldable pub entry_at : ℕ → List ℕ → (ℕ → List ℕ) → ℕ → Option ℕ
  entry_at old tops links level = elim (scan_links (links level) none) [
    | ready x ↦ some x
    | waiting candidate ↦ elim (scan_elements old level 0 tops candidate) [
      | ready x ↦ some x
      | waiting c ↦ c
    ]
  ]

  -- the new entry point with the new maximal level, or neither where no element is left
  pub replace_entry_point : ℕ → List ℕ → (ℕ → List ℕ) → ℕ → Option (ℕ × ℕ)
  replace_entry_point old tops links zero = elim (entry_at old tops links zero) [
    | some x ↦ some (x, zero)
    | none ↦ none
  ]
  replace_entry_point old tops links (suc level) =
      let lower = replace_entry_point old tops links level in
      elim (entry_at old tops links (suc level)) [ some x ↦ some (x, suc level) | none ↦ lower ]
