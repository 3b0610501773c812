-- ===== src/Hnsw/Visited/Fresh.antt =====
-- A fresh tag is on no node.
use vector_similarity.Base.{
  ℕ, zero, suc, ◌+◌, ◌≤◌, ◌<◌, ◌≡◌, refl, ◌∙◌, Bool, true, false, List, [], ◌∷◌, some, length,
  get_elem?, set, replicate, ◌==◌, if◌then◌else◌, arith, Bool-cases, inl, inr,
}
use vector_similarity.Hnsw.Visited.{Handler, next_tag, get_fresh_tag}

-- a node has the tag
abbrev pub is_tagged : ℕ → List ℕ → ℕ → Bool
is_tagged tag [] i = false
is_tagged tag (t ∷ ts) zero = t == tag
is_tagged tag (t ∷ ts) (suc i) = is_tagged tag ts i

-- the nodes that have another tag
abbrev pub untagged : ℕ → List ℕ → ℕ
untagged tag [] = 0
untagged tag (t ∷ ts) = (if t == tag then 0 else 1) + untagged tag ts

abbrev pub AtMostTags : ℕ → List ℕ → Type 0
AtMostTags bound [] = Unit
AtMostTags bound (t ∷ ts) = (t ≤ bound) × AtMostTags bound ts

-- no tag is above the current one, which is a 16-bit integer
pub record IsHandler (h : Handler) : Type 0 where
  pub below : AtMostTags h.cur_tag h.elements_tags
  pub wide : h.cur_tag < 65536

AtMostTags-replicate : (n bound : ℕ) → AtMostTags bound (replicate n 0)
AtMostTags-replicate zero bound = tt
AtMostTags-replicate (suc n) bound = (omega arith, AtMostTags-replicate n bound)

AtMostTags-mono : (ts : List ℕ) (a b : ℕ) → a ≤ b → AtMostTags a ts → AtMostTags b ts
AtMostTags-mono [] a b h k = tt
AtMostTags-mono (t ∷ ts) a b h (k, ks) = (omega arith, AtMostTags-mono ts a b h ks)

pub AtMostTags-set : (ts : List ℕ) (i t : ℕ) → AtMostTags t ts → AtMostTags t (set ts i t)
AtMostTags-set [] i t k = tt
AtMostTags-set (x ∷ ts) zero t (k, ks) = (omega arith, ks)
AtMostTags-set (x ∷ ts) (suc i) t (k, ks) = (k, AtMostTags-set ts i t ks)

untagged_above :
    (ts : List ℕ) (t bound : ℕ) → bound < t → AtMostTags bound ts → untagged t ts ≡ length ts
untagged_above [] t bound h k = refl
untagged_above (x ∷ ts) t bound h (k, ks) = ground (arith, untagged_above ts t bound h ks)

length-replicate : (n : ℕ) → length {A = ℕ} (replicate n 0) ≡ n
length-replicate zero = refl
length-replicate (suc n) = omega (arith, length-replicate n)

-- a fresh tag, and the handler that gave it
pub record Freshened (h : Handler) (r : Handler × ℕ) : Type 0 where
  pub sound : IsHandler r.0
  pub current : r.0.cur_tag ≡ r.1
  pub size : length r.0.elements_tags ≡ length h.elements_tags
  pub unused : untagged r.1 r.0.elements_tags ≡ length h.elements_tags

-- On a handler whose tags are at most its current tag, a fresh tag is the new current tag, no node
-- has it, also where the 16 bits wrap around, the number of nodes stays, and the tags are at most
-- the current one again.
pub get_fresh_tag-Freshened : (h : Handler) → IsHandler h → Freshened h (get_fresh_tag h)
unfolding get_fresh_tag
get_fresh_tag-Freshened h s = elim (Bool-cases (next_tag h.cur_tag == 0)) [
  | inl wraps ↦
      let n = length h.elements_tags in
      let cleared = AtMostTags-replicate n 0 in
      rw wraps (record {
        sound = record { below = AtMostTags-replicate n 1; wide = omega arith };
        current = refl;
        size = length-replicate n;
        unused = untagged_above (replicate n 0) 1 0 (omega arith) cleared ∙ length-replicate n;
      })
  | inr goes ↦
      let same : next_tag h.cur_tag ≡ suc h.cur_tag = ground (arith, s.wide) in
      rw goes (record {
        sound = record {
          below = AtMostTags-mono h.elements_tags h.cur_tag _ (omega (arith, same)) s.below;
          wide = omega arith;
        };
        current = refl;
        size = refl;
        unused = untagged_above h.elements_tags _ h.cur_tag (omega (arith, same)) s.below;
      })
]

pub is_tagged-set :
    (tag : ℕ) (ts : List ℕ) (i j : ℕ)
    → i < length ts
    → is_tagged tag (set ts i tag) j ≡ (if i == j then true else is_tagged tag ts j)
is_tagged-set tag [] i j h = absurd (omega arith)
is_tagged-set tag (t ∷ ts) zero zero h = ground arith
is_tagged-set tag (t ∷ ts) zero (suc j) h = ground arith
is_tagged-set tag (t ∷ ts) (suc i) zero h = ground arith
is_tagged-set tag (t ∷ ts) (suc i) (suc j) h =
    ground (arith, is_tagged-set tag ts i j (omega arith))

-- what a scan reads of a node's tag
pub get_elem?-is_tagged :
    (tag : ℕ) (ts : List ℕ) (i : ℕ)
    → i < length ts
    → (t : ℕ) × (get_elem? ts i ≡ some t) × ((t == tag) ≡ is_tagged tag ts i)
get_elem?-is_tagged tag [] i h = absurd (omega arith)
get_elem?-is_tagged tag (t ∷ ts) zero h = (t, refl, refl)
get_elem?-is_tagged tag (t ∷ ts) (suc i) h = get_elem?-is_tagged tag ts i (omega arith)

pub untagged-set :
    (tag : ℕ) (ts : List ℕ) (i : ℕ)
    → i < length ts
    → is_tagged tag ts i ≡ false
    → suc (untagged tag (set ts i tag)) ≡ untagged tag ts
untagged-set tag [] i h k = absurd (omega arith)
untagged-set tag (t ∷ ts) zero h k = ground (arith, k)
untagged-set tag (t ∷ ts) (suc i) h k = omega (arith, untagged-set tag ts i (omega arith) k)

untagged-bound : (tag : ℕ) (ts : List ℕ) → untagged tag ts ≤ length ts
untagged-bound tag [] = omega arith
untagged-bound tag (t ∷ ts) = ground (arith, untagged-bound tag ts)

pub untagged-none :
    (tag : ℕ) (ts : List ℕ) (i : ℕ) → untagged tag ts ≡ length ts → is_tagged tag ts i ≡ false
untagged-none tag [] i h = refl
untagged-none tag (t ∷ ts) zero h = ground (arith, untagged-bound tag ts)
untagged-none tag (t ∷ ts) (suc i) h =
    untagged-none tag ts i (ground (arith, untagged-bound tag ts))
