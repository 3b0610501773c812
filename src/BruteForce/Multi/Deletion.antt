-- ===== src/BruteForce/Multi/Deletion.antt =====
-- deleteVector of the multi-value index: the loop over the ids of a label, which the removals in
-- its body change.
use native.Mathlib.Nat.{zero-add}
use vector_similarity.Base.{
  Bool, true, false, count, ℕ, zero, suc, ◌+◌, ◌≡◌, ◌≢◌, refl, sym, ap, ◌∙◌, subst, List, [], ◌∷◌,
  Option, none, some, map, length, get_elem?, drop, arith, ◌==◌, if◌then◌else◌, eq_cases, inl, inr,
  eq→==, ==_ne, Option-cases, get_elem?-some, some-inj,
}
use vector_similarity.Base.Dict
use vector_similarity.Base.Dict.{Dict, find, find-erase}
use vector_similarity.Containers.Raw.{RawContainer}
use vector_similarity.BruteForce.Multi.Live.{listed, live}
use vector_similarity.BruteForce.Multi.Round.{IsLive, Round, SameSizes, remove_live, sized}
use vector_similarity.BruteForce.Multi.Refinement.{
  BlobLists, Holds, IsIndexed, lists_delete, stored,
}
use vector_similarity.BruteForce.Multi.{MultiIndex, delete_ids, delete_vector}

-- a list of a known length is there
sized_some :
    (d : Dict (List ℕ)) (l k : ℕ)
    → sized (find l d) ≡ some k
    → (ids : List ℕ) × (find l d ≡ some ids) × (length ids ≡ k)
sized_some d l k e = go (find l d) refl e
  where
    go :
        (o : Option (List ℕ))
        → find l d ≡ o
        → sized o ≡ some k
        → (ids : List ℕ) × (find l d ≡ some ids) × (length ids ≡ k)
    go none at h = cc
    go (some ids) at h = (ids, at, some-inj h)

drop_all : (k : ℕ) (xs : List ℕ) → length xs ≡ k → drop k xs ≡ []
drop_all zero [] h = refl
drop_all zero (x ∷ xs) h = absurd (omega arith)
drop_all (suc k) [] h = refl
drop_all (suc k) (x ∷ xs) h = drop_all k xs (omega arith)

module _ {A : Type 0} {n : ℕ} (R : RawContainer A n) where
  -- what `rounds` rounds from position `i` of the list of `label` make of the index `s`
  pub record Rounds (rounds i label : ℕ) (s s' : MultiIndex R) : Type 0 where
    pub live_left : IsLive R (rounds + i) label s'
    pub counted : s'.count + rounds ≡ s.count
    pub sizes : SameSizes s.lookup s'.lookup
    pub view : (l : ℕ) → label ≢ l → stored R s' l ≡ stored R s l

  pub no-Rounds : (i label : ℕ) (s : MultiIndex R) → IsLive R i label s → Rounds 0 i label s s
  no-Rounds i label s v = record {
    live_left = rw zero-add v;
    counted = omega arith;
    sizes = λ l. refl;
    view = λ l other. refl;
  }

  pub next-Round :
      (rounds i label id : ℕ) (s s1 s' : MultiIndex R)
      → Round R i label id s s1
      → Rounds rounds (suc i) label s1 s'
      → Rounds (suc rounds) i label s s'
  next-Round rounds i label id s s1 s' r rs =
      let at : rounds + suc i ≡ suc rounds + i = omega arith in
      record {
        live_left = subst (λ k. IsLive R k label s') at rs.live_left;
        counted = omega (arith, r.counted, rs.counted);
        sizes = λ l. rs.sizes l ∙ r.sizes l;
        view = λ l other. rs.view l other ∙ (rw (==_ne label l other) at (r.view l));
      }

  -- the next id of a list that is not at its end
  pub next_id :
      (i label rounds : ℕ) (s : MultiIndex R)
      → sized (find label s.lookup) ≡ some (suc rounds + i)
      → (ids : List ℕ) × (id : ℕ) × (find label s.lookup ≡ some ids) × (get_elem? ids i ≡ some id)
  next_id i label rounds s size =
      let (ids, found, len) = sized_some s.lookup label (suc rounds + i) size in
      let (id, at) = get_elem?-some ids i (omega arith) in (ids, id, found, at)

  -- the loop of deleteVector goes through all ids
  delete_ids-Rounds :
      (rounds i label : ℕ) (s : MultiIndex R) (ret : ℕ)
      → IsLive R i label s
      → sized (find label s.lookup) ≡ some (rounds + i)
      → (s' : MultiIndex R) × (delete_ids R rounds i label s ret ≡ some (s', ret + rounds))
        × Rounds rounds i label s s'
  unfolding delete_ids
  delete_ids-Rounds zero i label s ret v size =
      (s, ap (λ r. some (s, r)) (omega arith), no-Rounds i label s v)
  delete_ids-Rounds (suc rounds) i label s ret v size =
      let (ids, id, found, at) = next_id i label rounds s size in
      let (s1, removed, r) = remove_live R i label id ids s v found at in
      let (s', done, rs) =
        delete_ids-Rounds rounds (suc i) label s1 (ret + 1) r.next
          (r.sizes label ∙ size ∙ ap some (omega arith)) in
      (
        s',
        rw (found, at, removed) (done ∙ ap (λ k. some (s', k)) (omega arith)),
        next-Round rounds i label id s s1 s' r rs,
      )

  -- at the start of the loop all listed ids are live
  pub all_live : (label : ℕ) (s : MultiIndex R) → IsIndexed R s → IsLive R 0 label s
  all_live label s v = record {
    shaped = v.shaped;
    multi =
        λ l id. ap (count id) (from_start (label == l) (listed (find l s.lookup))) ∙ v.multi l id;
  }
    where
      from_start : (b : Bool) (xs : List ℕ) → drop (if b then 0 else 0) xs ≡ xs
      from_start true xs = refl
      from_start false xs = refl

  -- an index without `label`
  abbrev pub erased : ℕ → MultiIndex R → MultiIndex R
  erased label s = record s { lookup = Dict.erase label s.lookup }

  -- at its end the list of the label can go
  pub Rounds-erased :
      (rounds label : ℕ) (s s' : MultiIndex R) (ids : List ℕ) (m : BlobLists A)
      → IsIndexed R s
      → find label s.lookup ≡ some ids
      → length ids ≡ rounds
      → Rounds rounds 0 label s s'
      → Holds R s m
      → IsIndexed R (erased label s') × Holds R (erased label s') (lists_delete m label)
  Rounds-erased rounds label s s' ids m v found len rs holds =
      let e = λ (l : ℕ). find-erase label l s'.lookup in
      let (ids', found', len') =
        sized_some s'.lookup label rounds (rs.sizes label ∙ rw found (ap some len)) in
      (
        record {
          shaped = record {
            positive = rs.live_left.shaped.positive;
            valid = rs.live_left.shaped.valid;
            counted = rs.live_left.shaped.counted;
            whole = rs.live_left.shaped.whole;
            enough = rs.live_left.shaped.enough;
            spare = rs.live_left.shaped.spare;
          };
          multi = λ l id. elim (eq_cases label l) [
            | inl same ↦
                let hit = eq→== label l same in
                let gone : live (rounds + 0) label s'.lookup l ≡ [] =
                  rw (hit, ← same, found') (drop_all (rounds + 0) ids' (omega arith)) in
                rw (e l, hit) (sym (ap (count id) gone) ∙ rs.live_left.multi l id)
            | inr other ↦
                let miss = ==_ne label l other in
                rw (e l, miss) (rw miss at (rs.live_left.multi l id))
          ];
          filled = λ l h. elim (eq_cases label l) [
            | inl same ↦
                let hit = eq→== label l same in let gone : none ≡ some [] = rw (e l, hit) at h in cc
            | inr other ↦
                let miss = ==_ne label l other in
                let here : find l s'.lookup ≡ some [] = rw (e l, miss) at h in
                let before = sized_some s.lookup l 0 (sym (rs.sizes l) ∙ ap sized here) in
                v.filled l (nil_of l s.lookup before.0 before.1 before.2)
          ];
        },
        λ l. elim (eq_cases label l) [
          | inl same ↦ let hit = eq→== label l same in rw (e l, hit) refl
          | inr other ↦ let miss = ==_ne label l other in rw (e l, miss) (rs.view l other ∙ holds l)
        ],
      )
    where
      nil_of :
          (l : ℕ) (d : Dict (List ℕ)) (xs : List ℕ)
          → find l d ≡ some xs
          → length xs ≡ 0
          → find l d ≡ some []
      nil_of l d [] at z = at
      nil_of l d (x ∷ xs) at z = absurd (omega arith)

  -- deleteVector on an index that satisfies the invariant fails no assert, keeps the invariant,
  -- removes all vectors of the label and the label, leaves the list of every other label as it
  -- was, in its order, and returns the number of vectors removed.
  pub multi_delete_vector_refines :
      (s : MultiIndex R) (label : ℕ) (m : BlobLists A)
      → IsIndexed R s
      → Holds R s m
      → (s' : MultiIndex R) × (delete_vector R s label ≡ some (s', length (m label)))
        × IsIndexed R s'
        × Holds R s' (lists_delete m label)
        × (s'.count + length (m label) ≡ s.count)
  unfolding delete_vector
  multi_delete_vector_refines s label m v holds = elim (Option-cases (find label s.lookup)) [
    | inl gone ↦
        let none_there : m label ≡ [] = no_blobs label (m label) (rw gone at (holds label)) in
        (
          s,
          rw (gone, delete_vector, none_there) refl,
          v,
          λ l. elim (eq_cases label l) [
            | inl same ↦ rw (eq→== label l same, ← same, gone) refl
            | inr other ↦ rw (==_ne label l other) (holds l)
          ],
          rw none_there (omega arith),
        )
    | inr (ids, found) ↦
        let k = length ids in
        let size : length (m label) ≡ k = same_lengths ids (m label) (rw found at (holds label)) in
        let (s', done, rs) =
          delete_ids-Rounds k 0 label s 0 (all_live label s v) (rw found (ap some (omega arith))) in
        let (v', holds') = Rounds-erased k label s s' ids m v found refl rs holds in
        (
          erased label s',
          rw (found, delete_vector)
              (rw done (ap (λ j. some (erased label s', j)) (omega (arith, size)))),
          v',
          holds',
          omega (arith, size, rs.counted),
        )
  ]
    where
      f : ℕ → Option A
      f = get_elem? (R.contents s.vectors)

      no_blobs : (l : ℕ) (xs : List A) → [] ≡ map (λ x. some x) xs → xs ≡ []
      no_blobs l [] e = refl
      no_blobs l (x ∷ xs) e = cc

      same_lengths :
          (is : List ℕ) (xs : List A) → map f is ≡ map (λ x. some x) xs → length xs ≡ length is
      same_lengths [] [] e = refl
      same_lengths [] (x ∷ xs) e = cc
      same_lengths (i ∷ is) [] e = cc
      same_lengths (i ∷ is) (x ∷ xs) e = ap suc (same_lengths is xs (cc))
