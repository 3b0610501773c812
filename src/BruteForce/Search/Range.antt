-- ===== src/BruteForce/Search/Range.antt =====
-- rangeQuery on the single-value index: the results are the vectors within the radius.
use native.Mathlib.Nat.{add-zero, zero-add}
use mathlib.Core.List.{append-nil, append_assoc}
use vector_similarity.Base.{
  ℕ, zero, suc, ◌+◌, ◌≤◌, ◌<◌, ◌≡◌, refl, sym, ap, ◌∙◌, ◌⊎◌, inl, inr, Bool, true, false, List, [],
  ◌∷◌, ◌++◌, map, Option, some, length, get_elem?, take, arith, leb, if◌then◌else◌, Bool-cases,
}
use vector_similarity.Containers.Raw.{RawContainer}
use vector_similarity.Containers.Results.{default_results_container}
use vector_similarity.Query.{QueryResult, ReplyCode, to_result, reply_ok, timed_out}
use vector_similarity.BruteForce.{Index, IndexComponents}
use vector_similarity.BruteForce.Capacity.{IsShaped}
use vector_similarity.BruteForce.Search.TopK.{candidates}
use vector_similarity.BruteForce.Search.{range_scan, range_query}

-- the candidates within the radius, in their order
abbrev pub within : ℕ → List (ℕ × ℕ) → List (ℕ × ℕ)
within radius [] = []
within radius (c ∷ cs) = if leb c.0 radius then c ∷ within radius cs else within radius cs

module _ {A : Type 0} (env : IndexComponents A) (stop : ℕ → Bool) (radius : ℕ) (labels : List ℕ)
    (query : A) where
  -- the loop ends after `m` more vectors: all of them, or those before the first timeout
  abbrev Ranged :
      ℕ → List A → List ℕ → List QueryResult → Option (List QueryResult × ReplyCode) → Type 0
  Ranged i xs ls out r =
      (m : ℕ) × (code : ReplyCode) × (r
        ≡ some (out ++ map to_result (within radius (candidates env query (take m xs) ls)), code))
      × ((j : ℕ) → j < m → stop (i + j) ≡ false)
      × (((code ≡ reply_ok) × (m ≡ length xs))
          ⊎ ((code ≡ timed_out) × (m < length xs) × (stop (i + m) ≡ true)))

  module _ (i : ℕ) (x : A) (xs : List A) (l : ℕ) (ls : List ℕ) (out : List QueryResult) where
    went_on :
        (m : ℕ)
        → stop i ≡ false
        → ((j : ℕ) → j < m → stop (suc i + j) ≡ false)
        → (j : ℕ) → j < suc m
        → stop (i + j) ≡ false
    went_on m goes went zero lt = ap stop (add-zero i) ∙ goes
    went_on m goes went (suc j) lt = ap stop {y = suc i + j} (omega arith) ∙ went j (omega arith)

    ended :
        (m : ℕ) (code : ReplyCode)
        → ((code ≡ reply_ok) × (m ≡ length xs))
          ⊎ ((code ≡ timed_out) × (m < length xs) × (stop (suc i + m) ≡ true))
        → ((code ≡ reply_ok) × (suc m ≡ suc (length xs)))
          ⊎ ((code ≡ timed_out) × (suc m < suc (length xs)) × (stop (i + suc m) ≡ true))
    ended m code (inl (c, e)) = inl (c, ap suc e)
    ended m code (inr (c, lt, e)) =
        inr (c, omega arith, ap stop {x = i + suc m} {y = suc i + m} (omega arith) ∙ e)

    found_later :
        leb (env.calc_distance x query) radius ≡ true
        → stop i ≡ false
        → (r : Option (List QueryResult × ReplyCode))
        → Ranged (suc i) xs ls (out ++ to_result (env.calc_distance x query, l) ∷ []) r
        → Ranged i (x ∷ xs) (l ∷ ls) out r
    found_later near goes r (m, code, e, went, how) =
        (suc m, code, e ∙ rw near (rw append_assoc refl), went_on m goes went, ended m code how)

    missed_later :
        leb (env.calc_distance x query) radius ≡ false
        → stop i ≡ false
        → (r : Option (List QueryResult × ReplyCode)) → Ranged (suc i) xs ls out r
        → Ranged i (x ∷ xs) (l ∷ ls) out r
    missed_later far goes r (m, code, e, went, how) =
        (suc m, code, e ∙ rw far refl, went_on m goes went, ended m code how)

  range_scan-Ranged :
      (i : ℕ) (xs : List A) (ls : List ℕ) (out : List QueryResult)
      → length xs ≤ length ls
      → ((j : ℕ) → get_elem? labels (i + j) ≡ get_elem? ls j)
      → Ranged i xs ls out
          (range_scan env stop default_results_container radius labels query i xs out)
  unfolding range_scan
  range_scan-Ranged i [] ls out fits at =
      (0, reply_ok, rw (append-nil out) refl, λ j lt. absurd (omega arith), inl (refl, refl))
  range_scan-Ranged i (x ∷ xs) [] out fits at = absurd (omega arith)
  range_scan-Ranged i (x ∷ xs) (l ∷ ls) out fits at = elim (Bool-cases (stop i)) [
    | inl stopped ↦ rw stopped (
      0,
      timed_out,
      rw (append-nil out) refl,
      λ j lt. absurd (omega arith),
      inr (refl, omega arith, ap stop (add-zero i) ∙ stopped),
    )
    | inr goes ↦
        let here : get_elem? labels i ≡ some l = ap (get_elem? labels) (sym (add-zero i)) ∙ at 0 in
        let later = λ (j : ℕ). ap (get_elem? labels) (shift j) ∙ at (suc j) in
        rw goes (elim (Bool-cases (leb (env.calc_distance x query) radius)) [
          | inl near ↦
              let out' = out ++ to_result (env.calc_distance x query, l) ∷ [] in
              let ih = range_scan-Ranged (suc i) xs ls out' (omega arith) later in
              rw (near, here) (found_later i x xs l ls out near goes _ ih)
          | inr far ↦
              let ih = range_scan-Ranged (suc i) xs ls out (omega arith) later in
              rw far (missed_later i x xs l ls out far goes _ ih)
        ])
  ]
    where
      shift : (j : ℕ) → suc i + j ≡ i + suc j
      shift j = omega arith

module _ {A : Type 0} {n : ℕ} (R : RawContainer A n) {L : Type 0} (env : IndexComponents A) where
  -- On a well-shaped single-value index, whose results go into a default_results_container,
  -- rangeQuery fails no assert. It goes through
  -- the first `m` vectors, in the order of their ids, and replies with those of them whose
  -- distance is at most the radius: `m` is the number of vectors and the code is OK, unless the
  -- timeout callback answers yes, when `m` is the first vector at which it does.
  pub range_query_correct :
      (stop : ℕ → Bool) (s : Index R.Carrier L) (query : A) (radius : ℕ)
      → IsShaped R s
      → (m : ℕ) × (code : ReplyCode) × (range_query R env stop default_results_container s query
            radius
          ≡ some (record {
            results = map to_result (
                within radius (
                  candidates env
                    (env.preprocess_query query)
                    (take m (R.contents s.vectors))
                    s.id_to_label));
            code = code;
          }))
        × ((j : ℕ) → j < m → stop j ≡ false)
        × (((code ≡ reply_ok) × (m ≡ s.count))
            ⊎ ((code ≡ timed_out) × (m < s.count) × (stop m ≡ true)))
  unfolding range_query
  range_query_correct stop s query radius v =
      let xs = R.contents s.vectors in
      let (m, code, e, went, how) =
        range_scan-Ranged env stop radius s.id_to_label (env.preprocess_query query) 0 xs
          s.id_to_label [] (omega (arith, v.counted, v.enough))
          (λ j. ap (get_elem? s.id_to_label) (zero-add j)) in
      (
        m,
        code,
        rw (R.iterate-contents s.vectors v.valid) (rw e refl),
        λ j lt. ap stop (sym (zero-add j)) ∙ went j lt,
        counted m code v.counted how,
      )
    where
      counted :
          (m : ℕ) (code : ReplyCode)
          → length (R.contents s.vectors) ≡ s.count
          → ((code ≡ reply_ok) × (m ≡ length (R.contents s.vectors)))
            ⊎ ((code ≡ timed_out) × (m < length (R.contents s.vectors)) × (stop (0 + m) ≡ true))
          → ((code ≡ reply_ok) × (m ≡ s.count))
            ⊎ ((code ≡ timed_out) × (m < s.count) × (stop m ≡ true))
      counted m code len (inl (c, e)) = inl (c, e ∙ len)
      counted m code len (inr (c, lt, e)) = inr (c, omega arith, ap stop (sym (zero-add m)) ∙ e)
