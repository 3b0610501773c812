-- ===== src/BruteForce/Search/TopK.antt =====
-- topKQuery on the single-value index: the results are a best selection of all the candidates.
use mathlib.Core.List.{append-nil, perm_middle}
use mathlib.Core.List.Perm
use native.Mathlib.Nat.{add-zero, zero-add}
use vector_similarity.Base.{
  ℕ, zero, suc, ◌+◌, ◌≤◌, ◌<◌, ◌≡◌, ◌≢◌, refl, sym, ap, subst, ◌∙◌, ◌⊎◌, inl, inr, Bool, true,
  false, List, [], ◌∷◌, ◌++◌, map, Option, some, none, length, get_elem?, arith, Bool-cases, ==_ne,
  eq→==, eq_cases,
}
use vector_similarity.Containers.Raw.{RawContainer}
use vector_similarity.Query.Order.{All}
use vector_similarity.Query.{QueryResult, to_result, reply_ok, timed_out}
use vector_similarity.Query.Heap.{Heap, max_priority_queue}
use vector_similarity.BruteForce.{Index, IndexComponents}
use vector_similarity.BruteForce.Capacity.{IsShaped}
use vector_similarity.BruteForce.Search.Step.{Best, IsBound, consider-Stepped}
use vector_similarity.BruteForce.Search.{scan, top_k_query}
use vector_similarity.BruteForce.Search.Chosen.{rev_onto, unload_lem, IsTopK, Best-IsTopK}

module _ {A : Type 0} (env : IndexComponents A) where
  -- the candidates of the vectors `xs`, whose labels are `ls`
  abbrev pub candidates : A → List A → List ℕ → List (ℕ × ℕ)
  candidates query [] ls = []
  candidates query (x ∷ xs) [] = []
  candidates query (x ∷ xs) (l ∷ ls) = (env.calc_distance x query, l) ∷ candidates query xs ls

  module _ (stop : ℕ → Bool) (k : ℕ) (pos : 0 < k) (query : A) (labels : List ℕ) where
    -- the loop ends by a timeout at one of the next vectors, or with the best of all
    abbrev Scanned : ℕ → List A → List (ℕ × ℕ) → Option (Option Heap) → Type 0
    Scanned i xs all r =
        ((j : ℕ) × (j < length xs) × (stop (i + j) ≡ true) × (r ≡ some none))
        ⊎ (((j : ℕ) → j < length xs → stop (i + j) ≡ false)
            × (h : Heap) × (rest : List (ℕ × ℕ)) × (r ≡ some (some h))
            × Best k all h rest)

    Scanned-later :
        (i : ℕ) (x : A) (xs : List A) (cs seen : List (ℕ × ℕ)) (c : ℕ × ℕ)
        (r : Option (Option Heap))
        → stop i ≡ false
        → Scanned (suc i) xs (cs ++ c ∷ seen) r
        → Scanned i (x ∷ xs) (c ∷ cs ++ seen) r
    Scanned-later i x xs cs seen c r goes (inl (j, lt, stopped, e)) =
        inl (suc j, omega arith, ap stop (omega arith) ∙ stopped, e)
    Scanned-later i x xs cs seen c r goes (inr (went, h, rest, e, b)) = inr (
      all_went,
      h,
      rest,
      e,
      record {
        perm = Perm.trans b.perm (perm_middle cs seen);
        descending = b.descending;
        worse = b.worse;
        bounded = b.bounded;
        full = b.full;
      },
    )
      where
        all_went : (j : ℕ) → j < suc (length xs) → stop (i + j) ≡ false
        all_went zero lt = ap stop (add-zero i) ∙ goes
        all_went (suc j) lt = ap stop {y = suc i + j} (omega arith) ∙ went j (omega arith)

    scan-Scanned :
        (i : ℕ) (xs : List A) (ls : List ℕ) (seen h rest : List (ℕ × ℕ)) (upper : ℕ)
        → Best k seen h rest
        → IsBound upper h
        → length xs ≤ length ls
        → ((j : ℕ) → get_elem? labels (i + j) ≡ get_elem? ls j)
        → Scanned i xs
            (candidates query xs ls ++ seen)
            (scan env stop max_priority_queue k labels query i xs h upper)
    unfolding scan
    scan-Scanned i [] ls seen h rest upper b bound fits at =
        inr (λ j lt. absurd (omega arith), h, rest, refl, b)
    scan-Scanned i (x ∷ xs) [] seen h rest upper b bound fits at = absurd (omega arith)
    scan-Scanned i (x ∷ xs) (l ∷ ls) seen h rest upper b bound fits at =
        elim (Bool-cases (stop i)) [
          | inl stopped ↦ rw stopped (inl (0, omega arith, ap stop (add-zero i) ∙ stopped, refl))
          | inr goes ↦
              let here : get_elem? labels i ≡ some l =
                ap (get_elem? labels) (sym (add-zero i)) ∙ at 0 in
              let (h', upper', rest', stepped, bound', b') =
                consider-Stepped env stop k pos seen h rest b (env.calc_distance x query) l labels i
                  upper here bound in
              let later = λ (j : ℕ). ap (get_elem? labels) (shift j) ∙ at (suc j) in
              let ih =
                scan-Scanned (suc i) xs ls ((env.calc_distance x query, l) ∷ seen) h' rest' upper'
                  b' bound' (omega arith) later in
              rw (goes, stepped)
                (Scanned-later i x xs (candidates query xs ls) seen (env.calc_distance x query, l) _
                  goes ih)
        ]
      where
        shift : (j : ℕ) → suc i + j ≡ i + suc j
        shift j = omega arith

  IsTopK-zero : (cs : List (ℕ × ℕ)) → IsTopK 0 cs []
  IsTopK-zero cs = record {
    chosen = [];
    others = cs;
    listed = refl;
    perm = Perm.refl cs;
    ascending = tt;
    closest = unbounded cs;
    counted = omega arith;
  }
    where
      unbounded : (cs : List (ℕ × ℕ)) → All (λ d. All {A = ℕ × ℕ} (λ c. c.0 ≤ d.0) []) cs
      unbounded [] = tt
      unbounded (c ∷ cs) = (tt, unbounded cs)

module _ {A : Type 0} {n : ℕ} (R : RawContainer A n) {L : Type 0} (env : IndexComponents A) where
  -- every stored vector's distance from the query, with its label
  abbrev pub all_candidates : Index R.Carrier L → A → List (ℕ × ℕ)
  all_candidates s query =
      candidates env (env.preprocess_query query) (R.contents s.vectors) s.id_to_label

  module _ (stop : ℕ → Bool) (lowest : ℕ) (s : Index R.Carrier L) (query : A) (k : ℕ) where
    abbrev scan_all : Option (Option Heap)
    scan_all =
        scan env stop max_priority_queue k s.id_to_label (env.preprocess_query query) 0
          (R.contents s.vectors) [] lowest

    scanned :
        (pos : 0 < k)
        → IsShaped R s
        → Scanned env stop k pos
            (env.preprocess_query query)
            s.id_to_label
            0
            (R.contents s.vectors)
            (all_candidates s query)
            scan_all
    scanned pos v =
        subst
          (λ cs.
            Scanned env stop k pos (env.preprocess_query query) s.id_to_label 0
              (R.contents s.vectors) cs scan_all)
          (append-nil (all_candidates s query))
          (scan-Scanned env stop k pos (env.preprocess_query query) s.id_to_label 0
            (R.contents s.vectors) s.id_to_label [] [] [] lowest start tt
            (omega (arith, v.counted, v.enough)) (λ j. ap (get_elem? s.id_to_label) (omega arith)))
      where
        start : Best k [] [] []
        start = record {
          perm = Perm.nil;
          descending = tt;
          worse = tt;
          bounded = omega arith;
          full = inl refl;
        }

    reply_timed_out :
        IsShaped R s
        → k ≢ 0
        → scan_all ≡ some none
        → top_k_query R env stop max_priority_queue lowest s query k
          ≡ some (record { results = []; code = timed_out })
    unfolding top_k_query
    reply_timed_out v more e =
        rw (==_ne k 0 more, R.iterate-contents s.vectors v.valid) (rw (e, top_k_query) refl)

    reply_found :
        (h : Heap)
        → IsShaped R s
        → k ≢ 0
        → scan_all ≡ some (some h)
        → top_k_query R env stop max_priority_queue lowest s query k
          ≡ some (record { results = map to_result (rev_onto h []); code = reply_ok })
    unfolding top_k_query
    reply_found h v more e =
        rw (==_ne k 0 more, R.iterate-contents s.vectors v.valid)
          (rw (e, top_k_query) (rw (unload_lem h []) refl))

  -- On a well-shaped single-value index, whose queue is a max_priority_queue, topKQuery fails no
  -- assert. Either the timeout callback answers yes at
  -- some vector, and the reply is empty with the code of a timeout; or it does not (or k is 0),
  -- and the reply has `k` of the stored vectors' labels with their distances, or all where there
  -- are fewer: in ascending order of distance and then label, none of the others being closer.
  pub top_k_query_correct :
      (stop : ℕ → Bool) (lowest : ℕ) (s : Index R.Carrier L) (query : A) (k : ℕ)
      → IsShaped R s
      → ((i : ℕ) × (i < s.count)
          × (stop i ≡ true)
          × (top_k_query R env stop max_priority_queue lowest s query k
              ≡ some (record { results = []; code = timed_out })))
        ⊎ (((k ≡ 0) ⊎ ((i : ℕ) → i < s.count → stop i ≡ false))
            × (results : List QueryResult) × (top_k_query R env stop max_priority_queue lowest s
                  query k
                ≡ some (record { results = results; code = reply_ok }))
            × IsTopK k (all_candidates s query) results)
  unfolding top_k_query
  top_k_query_correct stop lowest s query k v = elim (eq_cases k 0) [
    | inl z ↦
        inr (inl z, [], rw (eq→== k 0 z) refl, rw z (IsTopK-zero env (all_candidates s query)))
    | inr more ↦ elim (scanned stop lowest s query k (omega arith) v) [
      | inl (i, lt, stopped, e) ↦ inl (
        i,
        omega (arith, v.counted),
        ap stop (sym (zero-add i)) ∙ stopped,
        reply_timed_out stop lowest s query k v more e,
      )
      | inr (went, h, rest, e, b) ↦ inr (
        inr (λ i lt. ap stop (sym (zero-add i)) ∙ went i (omega (arith, v.counted))),
        map to_result (rev_onto h []),
        reply_found stop lowest s query k h v more e,
        Best-IsTopK k (all_candidates s query) h rest b,
      )
    ]
  ]
