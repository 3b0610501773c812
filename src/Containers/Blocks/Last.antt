-- ===== src/Containers/Blocks/Last.antt =====
-- The last block of a container, as addElement fills it and removeElement empties it.
use mathlib.Core.List.{append-nil, append_assoc}
use vector_similarity.Base.{
  ℕ, ◌%◌, ◌≤◌, ◌<◌, ◌≡◌, ◌≢◌, refl, sym, ap, ◌∙◌, List, [], ◌∷◌, ◌++◌, Option, some, length,
  drop_last, arith, length-append, ◌==◌, ==_ne, lt→ltb, drop_last-append, inl, inr, eq_cases, ◌⊎◌,
  if◌then◌else◌, length-drop_last,
}
use vector_similarity.Containers.Blocks.Packed.{
  flat, IsPacked, IsFull, length-flat, IsPacked-IsFull, IsFull-append_IsPacked,
}
use vector_similarity.Containers.Blocks.{modify_back, get_back, add_to_block, pop_last_element}

module _ {B : Type 0} where
  snoc_cases : (xs : List B) → (xs ≡ []) ⊎ ((init : List B) × (last : B) × (xs ≡ init ++ last ∷ []))
  snoc_cases [] = inl refl
  snoc_cases (x ∷ []) = inr ([], x, refl)
  snoc_cases (x ∷ y ∷ ys) = elim (snoc_cases (y ∷ ys)) [
    | inl e ↦ cc
    | inr (i, l, e) ↦ inr (x ∷ i, l, ap (◌∷◌ x) e)
  ]

  modify_back-append :
      (f : B → Option B) (bs : List B) (b b' : B)
      → f b ≡ some b'
      → modify_back f (bs ++ b ∷ []) ≡ some (bs ++ b' ∷ [])
  unfolding modify_back
  modify_back-append f [] b b' e = rw e
  modify_back-append f (c ∷ []) b b' e = rw e
  modify_back-append f (c ∷ d ∷ bs) b b' e = rw (modify_back-append f (d ∷ bs) b b' e)

  get_back-append : (bs : List B) (b : B) → get_back (bs ++ b ∷ []) ≡ some b
  unfolding get_back
  get_back-append [] b = refl
  get_back-append (c ∷ []) b = refl
  get_back-append (c ∷ d ∷ bs) b = get_back-append (d ∷ bs) b

module _ {A : Type 0} where
  flat-append : (bs : List (List A)) (b : List A) → flat (bs ++ b ∷ []) ≡ flat bs ++ b
  flat-append [] b = append-nil b
  flat-append (c ∷ bs) b = ap (◌++◌ c) (flat-append bs b) ∙ sym (append_assoc c (flat bs) b)

  IsPacked-split :
      (n : ℕ) (bs : List (List A)) (b : List A)
      → IsPacked n (bs ++ b ∷ [])
      → IsFull n bs × (0 < length b) × (length b ≤ n)
  IsPacked-split n [] b p = (tt, p.0, p.1)
  IsPacked-split n (c ∷ []) b p = ((p.0, tt), p.1.0, p.1.1)
  IsPacked-split n (c ∷ d ∷ bs) b p =
      let r = IsPacked-split n (d ∷ bs) b p.1 in ((p.0, r.0), r.1, r.2)

  IsFull-IsPacked : (n : ℕ) (bs : List (List A)) → 0 < n → IsFull n bs → IsPacked n bs
  IsFull-IsPacked n [] h f = tt
  IsFull-IsPacked n (c ∷ []) h f = omega arith
  IsFull-IsPacked n (c ∷ d ∷ bs) h f = (f.0, IsFull-IsPacked n (d ∷ bs) h f.1)

  pub IsFull-snoc :
      (n : ℕ) (bs : List (List A)) (b : List A)
      → IsFull n bs
      → length b ≡ n
      → IsFull n (bs ++ b ∷ [])
  IsFull-snoc n [] b f e = (e, tt)
  IsFull-snoc n (c ∷ bs) b f e = (f.0, IsFull-snoc n bs b f.1 e)

  IsFull-multiple : (n : ℕ) (bs : List (List A)) → 0 < n → IsFull n bs → length (flat bs) % n ≡ 0
  IsFull-multiple n [] h f = grind arith
  IsFull-multiple n (b ∷ bs) h f = grind (arith, length-flat b bs, IsFull-multiple n bs h f.1)

  -- the blocks after an element is added to the last one
  abbrev Grown : ℕ → A → List (List A) → Type 0
  Grown n x bs =
      (bs' : List (List A)) × (modify_back (add_to_block x) bs ≡ some bs')
      × IsPacked n bs'
      × (flat bs' ≡ flat bs ++ x ∷ [])

  last_block-Grown :
      (n : ℕ) (x : A) (bs : List (List A)) (b : List A)
      → IsFull n bs
      → length b < n
      → Grown n x (bs ++ b ∷ [])
  unfolding add_to_block
  last_block-Grown n x bs b f h =
      let len = length-append b (x ∷ []) in
      (
        bs ++ (b ++ x ∷ []) ∷ [],
        modify_back-append (add_to_block x) bs b (b ++ x ∷ []) refl,
        IsFull-append_IsPacked n bs (b ++ x ∷ []) f (omega (arith, len)) (omega (arith, len)),
        rw (flat-append bs (b ++ x ∷ []), flat-append bs b)
            (sym (append_assoc (flat bs) b (x ∷ []))),
      )

  open_block-Grown :
      (n : ℕ) (x : A) (bs : List (List A))
      → 0 < n
      → IsPacked n bs
      → length (flat bs) % n ≢ 0
      → Grown n x bs
  open_block-Grown n x bs pos p h = elim (snoc_cases bs) [
    | inl e ↦ absurd (h (rw e (grind arith)))
    | inr (i, b, e) ↦
        let (full, _, fits) = IsPacked-split n i b (rw e at p) in
        let room : length b ≢ n =
          λ k. h (rw e (IsFull-multiple n (i ++ b ∷ []) pos (IsFull-snoc n i b full k))) in
        rw e (last_block-Grown n x i b full (omega arith))
  ]

  -- the blocks that `addElement` appends to
  abbrev pub room_for : ℕ → List (List A) → List (List A)
  room_for r bs = if r == 0 then bs ++ [] ∷ [] else bs

  pub room_for-Grown :
      (n : ℕ) (x : A) (bs : List (List A))
      → 0 < n
      → IsPacked n bs
      → (bs' : List (List A)) × (modify_back (add_to_block x) (room_for (length (flat bs) % n) bs)
          ≡ some bs')
        × IsPacked n bs'
        × (flat bs' ≡ flat bs ++ x ∷ [])
  room_for-Grown n x bs pos p = elim (eq_cases (length (flat bs) % n) 0) [
    | inl e ↦
        let (bs', done, packed, view) =
          last_block-Grown n x bs [] (IsPacked-IsFull n bs pos p e) pos in
        let plain : flat (bs ++ [] ∷ []) ≡ flat bs = flat-append bs [] ∙ append-nil (flat bs) in
        (bs', rw e done, packed, rw plain at view)
    | inr e ↦
        let (bs', done, packed, view) = open_block-Grown n x bs pos p e in
        (bs', rw (==_ne _ 0 e) done, packed, view)
  ]

  -- the blocks after the last element is popped and an empty last block dropped
  abbrev pub trimmed : List A → List (List A) → List (List A)
  trimmed last bs = if length last == 0 then drop_last bs else bs

  trimmed_last :
      (n : ℕ) (i : List (List A)) (b : List A)
      → 0 < n
      → IsFull n i
      → 0 < length b
      → length b ≤ n
      → IsPacked n (trimmed (drop_last b) (i ++ drop_last b ∷ []))
        × (flat (trimmed (drop_last b) (i ++ drop_last b ∷ [])) ≡ drop_last (flat (i ++ b ∷ [])))
  trimmed_last n i [] pos full h k = absurd (omega arith)
  trimmed_last n i (x ∷ []) pos full h k =
      let gone : drop_last (i ++ [] ∷ []) ≡ i = drop_last-append i [] [] ∙ append-nil i in
      rw (gone, flat-append i (x ∷ []), drop_last-append (flat i) x [], append-nil (flat i))
        (IsFull-IsPacked n i pos full, refl)
  trimmed_last n i (x ∷ y ∷ b) pos full h k =
      let len = length-drop_last (y ∷ b) in
      let b' = x ∷ drop_last (y ∷ b) in
      rw (==_ne (length b') 0 (omega arith)) (
        IsFull-append_IsPacked n i b' full (omega (arith, len)) (omega (arith, len)),
        rw (flat-append i b', flat-append i (x ∷ y ∷ b), drop_last-append (flat i) x (y ∷ b)),
      )

  pub popped_blocks :
      (n : ℕ) (bs : List (List A))
      → 0 < n
      → IsPacked n bs
      → 0 < length (flat bs)
      → (bs' : List (List A)) × (last : List A) × (modify_back pop_last_element bs ≡ some bs')
        × (get_back bs' ≡ some last)
        × IsPacked n (trimmed last bs')
        × (flat (trimmed last bs') ≡ drop_last (flat bs))
  unfolding pop_last_element
  popped_blocks n bs pos p h = elim (snoc_cases bs) [
    | inl e ↦ absurd (omega (arith, ap (λ xs. length (flat xs)) e))
    | inr (i, b, e) ↦
        let (full, some_in, fits) = IsPacked-split n i b (rw e at p) in
        let b' = drop_last b in
        let pops : pop_last_element b ≡ some b' = rw (lt→ltb 0 (length b) some_in) in
        let (shape, view) = trimmed_last n i b pos full some_in fits in
        (
          i ++ b' ∷ [],
          b',
          rw e (modify_back-append pop_last_element i b b' pops),
          get_back-append i b',
          shape,
          rw e view,
        )
  ]
