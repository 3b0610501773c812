-- ===== src/Hnsw/Serializer/MetaData.antt =====
-- The round trip of labels and flags, from which the lookup of labels is built anew.
use mathlib.Core.List.{append_assoc}
use vector_similarity.Base.{
  ℕ, zero, suc, ◌+◌, ◌≤◌, ◌<◌, ◌≡◌, refl, ap, ◌∙◌, List, [], ◌∷◌, ◌++◌, Option, none, some, length,
  get_elem?, set, take, arith, ==_ne, ==_self, Option-cases, inl, inr, length-set, get_elem?-set,
}
use vector_similarity.Hnsw.Serializer.Bytes.{All, ok, write_binary_pod, write_each, read-write}
use vector_similarity.Hnsw.Serializer.Graph.{Fits}
use vector_similarity.Hnsw.Serializer.{save_meta_data}
use vector_similarity.Hnsw.Serializer.Load.{Loader, restore_meta_data}

-- a label of 8 bytes and flags of one
abbrev pub FitsMetaData : ℕ × ℕ → Type 0
FitsMetaData (label, flags) = Fits 8 label × Fits 1 flags

-- the entries written in turn from place `id` on
abbrev pub fill : ℕ → List (ℕ × ℕ) → List (ℕ × ℕ) → List (ℕ × ℕ)
fill id [] meta = meta
fill id (x ∷ xs) meta = fill (suc id) xs (set meta id x)

fill-before :
    (id j : ℕ) (xs meta : List (ℕ × ℕ))
    → j < id
    → id + length xs ≤ length meta
    → get_elem? (fill id xs meta) j ≡ get_elem? meta j
fill-before id j [] meta h k = refl
fill-before id j (x ∷ xs) meta h k =
    fill-before (suc id) j xs (set meta id x) (omega arith) (omega (arith, length-set meta id x))
    ∙ get_elem?-set meta id j x (omega arith)
    ∙ rw (==_ne id j (omega arith)) refl

-- each entry is found at its place
pub get_elem?-fill :
    (id j : ℕ) (xs meta : List (ℕ × ℕ))
    → j < length xs
    → id + length xs ≤ length meta
    → get_elem? (fill id xs meta) (id + j) ≡ get_elem? xs j
get_elem?-fill id j [] meta h k = absurd (omega arith)
get_elem?-fill id zero (x ∷ xs) meta h k =
    ap (get_elem? (fill (suc id) xs (set meta id x))) (omega arith)
    ∙ fill-before (suc id) id xs (set meta id x) (omega arith) (omega (arith, length-set meta id x))
    ∙ get_elem?-set meta id id x (omega arith)
    ∙ rw (==_self id) refl
get_elem?-fill id (suc j) (x ∷ xs) meta h k =
    ap (get_elem? (fill (suc id) xs (set meta id x))) (omega arith)
    ∙ get_elem?-fill (suc id) j xs (set meta id x) (omega arith)
        (omega (arith, length-set meta id x))

pub get_elem?-take {ℓ} :
    {A : Type ℓ} (n j : ℕ) (xs : List A) → j < n → get_elem? (take n xs) j ≡ get_elem? xs j
get_elem?-take zero j xs h = elim h [ ]
get_elem?-take (suc n) j [] h = refl
get_elem?-take (suc n) zero (x ∷ xs) h = refl
get_elem?-take (suc n) (suc j) (x ∷ xs) h = get_elem?-take n j xs (omega arith)

module _ {L : Type 0} (env : Loader L) where
  -- the lookup that `setVectorId` builds of the labels of the ids from `id` on
  unfoldable pub relabel : ℕ → List (ℕ × ℕ) → L → Option L
  relabel id [] lookup = some lookup
  relabel id ((label, flags) ∷ xs) lookup = elim (env.lookup_ops.set_vector_id label id lookup) [
    | none ↦ none
    | some lookup' ↦ relabel (suc id) xs lookup'
  ]

  pub restore_meta_data-save :
      (xs : List (ℕ × ℕ)) (id : ℕ) (meta : List (ℕ × ℕ)) (lookup lookup' : L) (rest : List ℕ)
      → All FitsMetaData xs
      → relabel id xs lookup ≡ some lookup'
      → restore_meta_data env (length xs) id meta lookup (write_each save_meta_data xs ++ rest)
        ≡ ok ((fill id xs meta, lookup'), rest)
  unfolding restore_meta_data relabel write_each save_meta_data
  restore_meta_data-save [] id meta lookup lookup' rest fits built =
      ap (λ l. ok ((meta, l), rest)) (cc)
  restore_meta_data-save ((label, flags) ∷ xs) id meta lookup lookup' rest fits built =
      let w = write_each save_meta_data xs ++ rest in
      let assoc =
        append_assoc (write_binary_pod 8 label ++ write_binary_pod 1 flags)
          (write_each save_meta_data xs) rest
        ∙ append_assoc (write_binary_pod 8 label) (write_binary_pod 1 flags) w in
      elim (Option-cases (env.lookup_ops.set_vector_id label id lookup)) [
        | inl gone ↦ let bad : none ≡ some lookup' = rw (gone, relabel) at built in cc
        | inr (next, here) ↦
            let built' : relabel (suc id) xs next ≡ some lookup' = rw (here, relabel) at built in
            rw
              (
                assoc,
                read-write 8 label (write_binary_pod 1 flags ++ w) fits.0.0,
                read-write 1 flags w fits.0.1,
                here,
                restore_meta_data,
              )
              (restore_meta_data-save xs (suc id) (set meta id (label, flags)) next lookup' rest
                fits.1 built')
      ]
