-- ===== src/Containers/Blocks/Iteration.antt =====
-- DataBlocksContainer::Iterator: a `while (next())` loop visits the elements in order.
use vector_similarity.Base.{
  true, false, ℕ, zero, suc, ◌+◌, ◌-◌, ◌/◌, ◌%◌, ◌≤◌, ◌<◌, ◌≡◌, refl, List, [], ◌∷◌, Option, some,
  none, length, get_elem?, drop, arith, ◌==◌, ==_ne, lt→ltb, eq_cases, inl, inr, ◌>>=◌,
  get_elem?-some,
}
use vector_similarity.Containers.Blocks.Packed.{flat-block}
use vector_similarity.Containers.Blocks.Flat.{contents, IsValid}
use vector_similarity.Containers.Blocks.{Blocks, Iterator, start, has_next, advance, next}

module _ {A : Type 0} where
  -- `while (auto *x = it->next()) { out.push_back(x); }`, with fuel; the outer `none` is a fault
  -- or the fuel running out
  unfoldable pub visit : ℕ → Blocks A → Iterator → Option (List A)
  visit zero c it = none
  visit (suc k) c it = elim (next c it) [
    | none ↦ none
    | some (none, _) ↦ some []
    | some (some x, it') ↦ visit k c it' >>= λ xs. some (x ∷ xs)
  ]

  -- the iterator has returned the elements before `i`, and points at the last of them
  IsAt : Blocks A → ℕ → Iterator → Type 0
  IsAt c i it =
      (it.cur_id ≡ i)
      × (0 < i → it.cur_element ≡ some ((i - 1) / c.block_size, (i - 1) % c.block_size))

  advance-IsAt :
      (c : Blocks A) (i : ℕ) (it : Iterator)
      → 0 < c.block_size
      → i < c.element_count
      → IsAt c i it
      → advance c it ≡ some (i / c.block_size, i % c.block_size)
  unfolding advance IsAt
  advance-IsAt c i it pos h (id, el) = elim (eq_cases (i % c.block_size) 0) [
    | inl e ↦ rw (id, ==_ne c.block_size 0 (omega arith), e, lt→ltb i c.element_count h) refl
    | inr e ↦
        let q : (i - 1) / c.block_size ≡ i / c.block_size = grind arith in
        let r : (i - 1) % c.block_size + 1 ≡ i % c.block_size = grind arith in
        rw (id, ==_ne c.block_size 0 (omega arith), ==_ne _ 0 e, el (grind arith), q, r) refl
  ]

  next-IsAt :
      (c : Blocks A) (i : ℕ) (it : Iterator)
      → IsValid c
      → i < c.element_count
      → IsAt c i it
      → (x : A) × (it' : Iterator) × (next c it ≡ some (some x, it'))
        × (get_elem? (contents c) i ≡ some x)
        × IsAt c (suc i) it'
  unfolding next IsAt has_next
  next-IsAt c i it v h at =
      let n = c.block_size in
      let h' : i < length (contents c) = omega (arith, v.counted) in
      let (b, found, same, _) = flat-block n c.blocks i v.positive v.packed h' in
      let (x, here) = get_elem?-some (contents c) i h' in
      let moved = advance-IsAt c i it v.positive h at in
      let back : suc i - 1 ≡ i = omega arith in
      let more : (it.cur_id == c.element_count) ≡ false = ground arith in
      (
        x,
        record { cur_id = it.cur_id + 1; cur_element = some (i / n, i % n) },
        rw (more, moved, found, same, here) refl,
        here,
        (omega arith, λ _. rw back refl),
      )

  next_end :
      (c : Blocks A) (i : ℕ) (it : Iterator)
      → IsAt c i it
      → i ≡ c.element_count
      → next c it ≡ some (none, it)
  unfolding next IsAt has_next
  next_end c i it at e =
      let done : (it.cur_id == c.element_count) ≡ true = ground arith in rw done refl

  drop-get_elem? :
      (xs : List A) (i : ℕ) (x : A) → get_elem? xs i ≡ some x → drop i xs ≡ x ∷ drop (suc i) xs
  drop-get_elem? [] i x e = cc
  drop-get_elem? (y ∷ xs) zero x e = ground arith
  drop-get_elem? (y ∷ xs) (suc i) x e = drop-get_elem? xs i x e

  drop_all : (xs : List A) (i : ℕ) → length xs ≤ i → drop i xs ≡ []
  drop_all [] zero h = refl
  drop_all [] (suc i) h = refl
  drop_all (x ∷ xs) zero h = absurd (omega arith)
  drop_all (x ∷ xs) (suc i) h = drop_all xs i (omega arith)

  visit-drop :
      (k : ℕ) (c : Blocks A) (i : ℕ) (it : Iterator)
      → IsValid c
      → IsAt c i it
      → i ≤ c.element_count
      → c.element_count < i + k
      → visit k c it ≡ some (drop i (contents c))
  unfolding visit
  visit-drop zero c i it v at h f = absurd (omega arith)
  visit-drop (suc k) c i it v at h f = elim (eq_cases i c.element_count) [
    | inl e ↦
        rw (next_end c i it at e, visit, drop_all (contents c) i (omega (arith, v.counted))) refl
    | inr e ↦
        let (x, it', stepped, here, at') = next-IsAt c i it v (omega arith) at in
        let ih = visit-drop k c (suc i) it' v at' (omega arith) (omega arith) in
        rw (stepped, visit, ih, drop-get_elem? (contents c) i x here) refl
  ]

  -- A loop over the iterator of a valid container visits every element once, in the order of the
  -- ids, without a fault and within one more step than there are elements.
  pub visit-contents :
      (c : Blocks A) → IsValid c → visit (c.element_count + 1) c start ≡ some (contents c)
  unfolding start IsAt
  visit-contents c v =
      visit-drop (c.element_count + 1) c 0 start v (refl, λ h. absurd (omega arith)) (omega arith)
        (omega arith)
