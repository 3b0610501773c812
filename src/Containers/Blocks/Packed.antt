-- ===== src/Containers/Blocks/Packed.antt =====
-- The shape of the blocks: every block but the last is full, and the last is not empty.
use native.Mathlib.Decide.{dec_lt}
use vector_similarity.Base.{
  ℕ, zero, suc, ◌+◌, ◌-◌, ◌/◌, ◌%◌, ◌≤◌, ◌<◌, ◌≡◌, refl, List, [], ◌∷◌, ◌++◌, some, length,
  get_elem?, set, arith, length-append, get_elem?-append_left, get_elem?-append_right,
  set-append_left, set-append_right, some-inj,
}

module _ {A : Type 0} where
  abbrev pub flat : List (List A) → List A
  flat [] = []
  flat (b ∷ bs) = b ++ flat bs

  abbrev pub IsPacked : ℕ → List (List A) → Type 0
  IsPacked n [] = Unit {0}
  IsPacked n (b ∷ []) = (0 < length b) × (length b ≤ n)
  IsPacked n (b ∷ c ∷ bs) = (length b ≡ n) × IsPacked n (c ∷ bs)

  abbrev pub IsFull : ℕ → List (List A) → Type 0
  IsFull n [] = Unit {0}
  IsFull n (b ∷ bs) = (length b ≡ n) × IsFull n bs

  pub length-flat :
      (b : List A) (bs : List (List A)) → length (flat (b ∷ bs)) ≡ length b + length (flat bs)
  length-flat b bs = length-append b (flat bs)

  -- packed blocks hold a multiple of `n` elements only when the last one is full too
  pub IsPacked-IsFull :
      (n : ℕ) (bs : List (List A)) → 0 < n → IsPacked n bs → length (flat bs) % n ≡ 0 → IsFull n bs
  IsPacked-IsFull n [] pos p e = tt
  IsPacked-IsFull n (b ∷ []) pos p e = (grind (arith, length-flat b []), tt)
  IsPacked-IsFull n (b ∷ c ∷ bs) pos p e =
      (p.0, IsPacked-IsFull n (c ∷ bs) pos p.1 (grind (arith, length-flat b (c ∷ bs))))

  pub IsFull-append_IsPacked :
      (n : ℕ) (bs : List (List A)) (b : List A)
      → IsFull n bs
      → 0 < length b
      → length b ≤ n
      → IsPacked n (bs ++ b ∷ [])
  IsFull-append_IsPacked n [] b f h k = (h, k)
  IsFull-append_IsPacked n (c ∷ []) b f h k = (f.0, (h, k))
  IsFull-append_IsPacked n (c ∷ d ∷ bs) b f h k = (f.0, IsFull-append_IsPacked n (d ∷ bs) b f.1 h k)

  abbrev At : ℕ → List (List A) → ℕ → Type 0
  At n bs i =
      (b : List A) × (get_elem? bs (i / n) ≡ some b)
      × (get_elem? b (i % n) ≡ get_elem? (flat bs) i)
      × (i % n < length b)

  first_block :
      (n : ℕ) (b : List A) (bs : List (List A)) (i : ℕ)
      → i < length b
      → length b ≤ n
      → At n (b ∷ bs) i
  first_block n b bs i h k =
      let q : i / n ≡ 0 = grind arith in
      let r : i % n ≡ i = grind arith in
      (b, rw q, rw (r, get_elem?-append_left b (flat bs) i h), omega arith)

  later_block :
      (n : ℕ) (b : List A) (bs : List (List A)) (i : ℕ)
      → 0 < n
      → length b ≡ n
      → n ≤ i
      → At n bs (i - n)
      → At n (b ∷ bs) i
  later_block n b bs i pos e h (c, found, same, within) =
      let q : i / n ≡ suc ((i - n) / n) = grind arith in
      let r : i % n ≡ (i - n) % n = grind arith in
      let flat_at = get_elem?-append_right b (flat bs) i (i - n) (omega arith) in
      (c, rw q found, rw (r, flat_at) same, omega arith)

  set_first :
      (n : ℕ) (c : List A) (bs : List (List A)) (i : ℕ) (x : A) (b : List A)
      → i < length c
      → length c ≤ n
      → get_elem? (c ∷ bs) (i / n) ≡ some b
      → flat (set (c ∷ bs) (i / n) (set b (i % n) x)) ≡ set (flat (c ∷ bs)) i x
  set_first n c bs i x b h k e =
      let q : i / n ≡ 0 = grind arith in
      let r : i % n ≡ i = grind arith in
      let same : c ≡ b = some-inj (rw q at e) in rw (q, r, set-append_left c (flat bs) i x h, same)

  set_later :
      (n : ℕ) (c : List A) (bs : List (List A)) (i : ℕ) (x : A) (b : List A)
      → 0 < n
      → length c ≡ n
      → n ≤ i
      → get_elem? (c ∷ bs) (i / n) ≡ some b
      → (get_elem? bs ((i - n) / n) ≡ some b
          → flat (set bs ((i - n) / n) (set b ((i - n) % n) x)) ≡ set (flat bs) (i - n) x)
      → flat (set (c ∷ bs) (i / n) (set b (i % n) x)) ≡ set (flat (c ∷ bs)) i x
  set_later n c bs i x b pos len h e ih =
      let q : i / n ≡ suc ((i - n) / n) = grind arith in
      let r : i % n ≡ (i - n) % n = grind arith in
      let e' : get_elem? bs ((i - n) / n) ≡ some b = rw q at e in
      rw (q, r, set-append_right c (flat bs) i (i - n) x (omega arith), ih e')

  -- the block and the offset at which an element of the flat sequence stands
  pub flat-block :
      (n : ℕ) (bs : List (List A)) (i : ℕ)
      → 0 < n
      → IsPacked n bs
      → i < length (flat bs)
      → (b : List A) × (get_elem? bs (i / n) ≡ some b)
        × (get_elem? b (i % n) ≡ get_elem? (flat bs) i)
        × (i % n < length b)
  flat-block n [] i pos p h = absurd (omega arith)
  flat-block n (b ∷ []) i pos p h = first_block n b [] i (omega (arith, length-flat b [])) p.1
  flat-block n (b ∷ c ∷ bs) i pos p h = elim (dec_lt i (length b)) [
    | yes near ↦ first_block n b (c ∷ bs) i near (omega arith)
    | no far ↦
        let there = flat-block n (c ∷ bs) (i - n) pos p.1 (omega (arith, length-flat b (c ∷ bs))) in
        later_block n b (c ∷ bs) i pos p.0 (omega arith) there
  ]

  pub IsPacked-set :
      (n : ℕ) (bs : List (List A)) (q : ℕ) (b b' : List A)
      → IsPacked n bs
      → get_elem? bs q ≡ some b
      → length b' ≡ length b
      → IsPacked n (set bs q b')
  IsPacked-set n [] q b b' p e k = tt
  IsPacked-set n (c ∷ []) zero b b' p e k = ground arith
  IsPacked-set n (c ∷ []) (suc q) b b' p e k = p
  IsPacked-set n (c ∷ d ∷ bs) zero b b' p e k = ground arith
  IsPacked-set n (c ∷ d ∷ []) (suc zero) b b' p e k =
      (p.0, IsPacked-set n (d ∷ []) zero b b' p.1 e k)
  IsPacked-set n (c ∷ d ∷ []) (suc (suc q)) b b' p e k = p
  IsPacked-set n (c ∷ d ∷ f ∷ bs) (suc zero) b b' p e k =
      (p.0, IsPacked-set n (d ∷ f ∷ bs) zero b b' p.1 e k)
  IsPacked-set n (c ∷ d ∷ f ∷ bs) (suc (suc q)) b b' p e k =
      (p.0, IsPacked-set n (d ∷ f ∷ bs) (suc q) b b' p.1 e k)

  -- a write at that block and offset is a write to the flat sequence
  pub flat-set :
      (n : ℕ) (bs : List (List A)) (i : ℕ) (x : A) (b : List A)
      → 0 < n
      → IsPacked n bs
      → i < length (flat bs)
      → get_elem? bs (i / n) ≡ some b
      → flat (set bs (i / n) (set b (i % n) x)) ≡ set (flat bs) i x
  flat-set n [] i x b pos p h e = refl
  flat-set n (c ∷ []) i x b pos p h e =
      set_first n c [] i x b (omega (arith, length-flat c [])) p.1 e
  flat-set n (c ∷ d ∷ bs) i x b pos p h e = elim (dec_lt i (length c)) [
    | yes near ↦ set_first n c (d ∷ bs) i x b near (omega arith) e
    | no far ↦
        set_later n c (d ∷ bs) i x b pos p.0 (omega arith) e
          (flat-set n (d ∷ bs) (i - n) x b pos p.1 (omega (arith, length-flat c (d ∷ bs))))
  ]
