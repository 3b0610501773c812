-- ===== src/Query/Heap.antt =====
-- src/VecSim/utils/vecsim_stl.h: max_priority_queue, the `std::priority_queue` of the candidates.
-- A queue is the list of its entries, the largest first: what `top` and `pop` let a client see.
use mathlib.Core.List.Perm
use vector_similarity.Base.{
  ℕ, suc, ◌≡◌, Bool, true, false, inl, inr, List, [], ◌∷◌, Perm, Option, none, some, length,
  Bool-cases, if◌then◌else◌, length-perm,
}
use vector_similarity.Query.Order.{
  pair_lt, AtMost, All, IsDescending, All-map, AtMost-trans, AtMost-of_lt, AtMost-of_not_lt,
}

abbrev pub Heap : Type 0
Heap = List (ℕ × ℕ)

unfoldable pub emplace : ℕ × ℕ → Heap → Heap
emplace c [] = c ∷ []
emplace c (x ∷ h) = if pair_lt x c then c ∷ x ∷ h else x ∷ emplace c h

-- undefined on an empty queue
unfoldable pub pop : Heap → Option Heap
pop [] = none
pop (x ∷ h) = some h

unfoldable pub top : Heap → Option (ℕ × ℕ)
top [] = none
top (x ∷ h) = some x

abbrev pub size : Heap → ℕ
size = length

-- abstract_priority_queue
pub record PriorityQueue (Q : Type 0) : Type 0 where
  pub new_queue : Q
  pub push : ℕ × ℕ → Q → Q
  pub drop_top : Q → Option Q
  pub best : Q → Option (ℕ × ℕ)
  pub count : Q → ℕ

abbrev pub max_priority_queue : PriorityQueue Heap
max_priority_queue = record {
  new_queue = [];
  push = emplace;
  drop_top = pop;
  best = top;
  count = size;
}

abbrev pub is_empty : Heap → Bool
is_empty [] = true
is_empty (_ ∷ _) = false

pub emplace-perm : (c : ℕ × ℕ) (h : Heap) → Perm (emplace c h) (c ∷ h)
unfolding emplace
emplace-perm c [] = Perm.refl (c ∷ [])
emplace-perm c (x ∷ h) = elim (Bool-cases (pair_lt x c)) [
  | inl e ↦ rw e (Perm.refl (c ∷ x ∷ h))
  | inr e ↦ rw e (Perm.trans (Perm.cons x (emplace-perm c h)) (Perm.swap c x h))
]

pub length-emplace : (c : ℕ × ℕ) (h : Heap) → length (emplace c h) ≡ suc (length h)
length-emplace c h = length-perm (emplace-perm c h)

pub emplace-All {κ} :
    (P : ℕ × ℕ → Type κ) (c : ℕ × ℕ) (h : Heap) → P c → All P h → All P (emplace c h)
unfolding emplace
emplace-All P c [] p q = (p, q)
emplace-All P c (x ∷ h) p q = elim (Bool-cases (pair_lt x c)) [
  | inl e ↦ rw e (p, (q.0, q.1))
  | inr e ↦ rw e (q.0, emplace-All P c h p q.1)
]

-- the entries stay in order
pub emplace-IsDescending : (c : ℕ × ℕ) (h : Heap) → IsDescending h → IsDescending (emplace c h)
unfolding emplace
emplace-IsDescending c [] d = (tt, tt)
emplace-IsDescending c (x ∷ h) d = elim (Bool-cases (pair_lt x c)) [
  | inl e ↦
      let below = AtMost-of_lt x c e in
      rw e ((below, All-map h (λ y k. AtMost-trans y x c k below) d.0), d)
  | inr e ↦
      rw e (
        emplace-All (λ y. AtMost y x) c h (AtMost-of_not_lt x c e) d.0,
        emplace-IsDescending c h d.1,
      )
]
