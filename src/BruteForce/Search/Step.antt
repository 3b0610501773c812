-- ===== src/BruteForce/Search/Step.antt =====
-- One step of topKQuery: the queue goes on holding a best selection of the candidates seen.
use mathlib.Core.List.{append-nil, perm_middle}
use mathlib.Core.List.Perm
use native.Mathlib.Decide.{dec_lt}
use vector_similarity.Base.{
  ℕ, suc, ◌≤◌, ◌<◌, ◌≡◌, refl, sym, ap, ◌∙◌, ◌⊎◌, inl, inr, Bool, true, false, ◌||◌, List, [], ◌∷◌,
  ◌++◌, Perm, Option, some, length, get_elem?, arith, ltb, Bool-cases, le→ltb, lt→ltb,
}
use vector_similarity.Query.Order.{AtMost, All, IsDescending, All-map}
use vector_similarity.Query.Heap.{
  Heap, emplace, pop, top, max_priority_queue, emplace-perm, length-emplace, emplace-All,
  emplace-IsDescending,
}
use vector_similarity.BruteForce.{IndexComponents}
use vector_similarity.BruteForce.Search.{consider}

-- `heap` holds `k` best of the candidates `seen`, or all of them where there are fewer; `rest`
-- are the others
pub record Best (k : ℕ) (seen heap rest : List (ℕ × ℕ)) : Type 0 where
  pub perm : Perm (heap ++ rest) seen
  pub descending : IsDescending heap
  pub worse : All (λ d. All (λ c. c.0 ≤ d.0) heap) rest
  pub bounded : length heap ≤ k
  pub full : (rest ≡ []) ⊎ (length heap ≡ k)

-- the bound is the score of the worst candidate that is kept
abbrev pub IsBound : ℕ → Heap → Type 0
IsBound upper [] = Unit {0}
IsBound upper (x ∷ h) = upper ≡ x.0

emplace-cons : (c : ℕ × ℕ) (h : Heap) → (m : ℕ × ℕ) × (g : Heap) × (emplace c h ≡ m ∷ g)
emplace-cons c h = cons_of (emplace c h) (length-emplace c h)
  where
    cons_of : (l : Heap) → length l ≡ suc (length h) → (m : ℕ × ℕ) × (g : Heap) × (l ≡ m ∷ g)
    cons_of [] e = absurd (omega arith)
    cons_of (m ∷ g) e = (m, g, refl)

cons_of_length : (h : Heap) → 0 < length h → (x : ℕ × ℕ) × (t : Heap) × (h ≡ x ∷ t)
cons_of_length [] lt = absurd (omega arith)
cons_of_length (x ∷ t) lt = (x, t, refl)

scores_below :
    (x : ℕ × ℕ) (b : ℕ) (h : Heap) → x.0 ≤ b → All (λ y. AtMost y x) h → All (λ y. y.0 ≤ b) h
scores_below x b h le = All-map h (λ y k. ground arith)

module _ {A : Type 0} (env : IndexComponents A) (stop : ℕ → Bool) (k : ℕ) (pos : 0 < k) where
  -- what the body of the loop does with the candidate `c`
  abbrev pub Stepped : List (ℕ × ℕ) → ℕ × ℕ → Option (Heap × ℕ) → Type 0
  Stepped seen c r =
      (h : Heap) × (upper : ℕ) × (rest : List (ℕ × ℕ)) × (r ≡ some (h, upper))
      × IsBound upper h
      × Best k (c ∷ seen) h rest

  module _ (seen h rest : List (ℕ × ℕ)) (b : Best k seen h rest) (score label : ℕ) where
    skipped :
        (x : ℕ × ℕ) (t : Heap)
        → h ≡ x ∷ t
        → x.0 ≤ score
        → length h ≡ k
        → Best k ((score, label) ∷ seen) h ((score, label) ∷ rest)
    skipped x t e le len = record {
      perm = Perm.trans (perm_middle h rest) (Perm.cons (score, label) b.perm);
      descending = b.descending;
      worse = (rw e (le, scores_below x score t le (rw e at b.descending).0), b.worse);
      bounded = b.bounded;
      full = inr len;
    }

    room : length h < k → Best k ((score, label) ∷ seen) (emplace (score, label) h) []
    room lt =
        let c : ℕ × ℕ = (score, label) in
        let none_left : rest ≡ [] = ground (arith, b.full) in
        let all : Perm h seen = rw (append-nil h) at (rw none_left at b.perm) in
        record {
          perm = rw (append-nil (emplace c h)) (Perm.trans (emplace-perm c h) (Perm.cons c all));
          descending = emplace-IsDescending c h b.descending;
          worse = tt;
          bounded = omega (arith, length-emplace c h);
          full = inl refl;
        }

    traded :
        (x : ℕ × ℕ) (t : Heap) (m : ℕ × ℕ) (g : Heap)
        → h ≡ x ∷ t
        → score < x.0
        → length h ≡ k
        → emplace (score, label) h ≡ m ∷ g
        → Best k ((score, label) ∷ seen) g (m ∷ rest)
    traded x t m g e lt len grown =
        let c : ℕ × ℕ = (score, label) in
        let order = rw grown at (emplace-IsDescending c h b.descending) in
        let size : suc (length g) ≡ suc (length h) = ap length (sym grown) ∙ length-emplace c h in
        let same = rw grown at (emplace-perm c h) in
        record {
          perm =
              Perm.trans (perm_middle g rest)
                (Perm.trans (Perm.append_right rest same) (Perm.cons c b.perm));
          descending = order.1;
          worse = (
            All-map g (λ y q. ground arith) order.0,
            All-map rest
                (λ d q.
                  (rw grown at
                    (emplace-All (λ y. y.0 ≤ d.0) c h (omega (arith, (rw e at q).0)) q)).1)
                b.worse,
          );
          bounded = omega arith;
          full = inr (omega arith);
        }

    module _ (labels : List ℕ) (curr_id upper : ℕ)
        (here : get_elem? labels curr_id ≡ some label) where
      abbrev step : Option (Heap × ℕ)
      step = consider env stop max_priority_queue k labels curr_id score h upper

      abbrev is_better : Bool
      is_better = ltb score upper || ltb (length h) k

      step_keeps : is_better ≡ false → step ≡ some (h, upper)
      unfolding consider
      step_keeps e = rw (e, consider) refl

      step_grows :
          (m : ℕ × ℕ) (g : Heap)
          → is_better ≡ true
          → emplace (score, label) h ≡ m ∷ g
          → length (m ∷ g) ≤ k
          → step ≡ some (m ∷ g, m.0)
      unfolding consider top
      step_grows m g e grown fits =
          rw (e, consider) (rw (here, grown, le→ltb k (length (m ∷ g)) fits) refl)

      step_trades :
          (m y : ℕ × ℕ) (g : Heap)
          → is_better ≡ true
          → emplace (score, label) h ≡ m ∷ y ∷ g
          → k < length (m ∷ y ∷ g)
          → step ≡ some (y ∷ g, y.0)
      unfolding consider top pop
      step_trades m y g e grown over =
          rw (e, consider) (rw (here, grown, lt→ltb k (length (m ∷ y ∷ g)) over) refl)

      when_room : length h < k → Stepped seen (score, label) step
      when_room lt =
          let (m, g, grown) = emplace-cons (score, label) h in
          let better : is_better ≡ true = ground arith in
          let len = ap length (sym grown) ∙ length-emplace (score, label) h in
          (m ∷ g, m.0, [], step_grows m g better grown (omega arith), refl, rw grown at (room lt))

      when_full :
          (x : ℕ × ℕ) (t : Heap)
          → h ≡ x ∷ t
          → upper ≡ x.0
          → length h ≡ k
          → Stepped seen (score, label) step
      when_full x t e bound len = elim (Bool-cases (ltb score upper)) [
        | inl better ↦
            let (m, g, grown) = emplace-cons (score, label) h in
            let size = ap length (sym grown) ∙ length-emplace (score, label) h in
            let (y, g', tail) = cons_of_length g (omega arith) in
            let lower : score < x.0 = ground arith in
            let all : is_better ≡ true = rw better refl in
            let grown' : emplace (score, label) h ≡ m ∷ y ∷ g' = rw tail at grown in
            (
              y ∷ g',
              y.0,
              m ∷ rest,
              step_trades m y g' all grown' (omega (arith, ap length tail)),
              refl,
              traded x t m (y ∷ g') e lower len grown',
            )
        | inr worse ↦
            let none_better : is_better ≡ false = ground arith in
            (
              h,
              upper,
              (score, label) ∷ rest,
              step_keeps none_better,
              rw e bound,
              skipped x t e (ground arith) len,
            )
      ]

      pub consider-Stepped : IsBound upper h → Stepped seen (score, label) step
      consider-Stepped bound = elim (dec_lt (length h) k) [
        | yes lt ↦ when_room lt
        | no ge ↦
            let len : length h ≡ k = omega (arith, b.bounded) in
            let (x, t, e) = cons_of_length h (omega arith) in when_full x t e (rw e at bound) len
      ]
