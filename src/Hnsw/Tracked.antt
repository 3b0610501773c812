-- ===== src/Hnsw/Tracked.antt =====
-- The incoming edges of a layer against its links.
use vector_similarity.Base.{
  ℕ, ◌-◌, ◌≤◌, ◌≡◌, ◌≢◌, [], ◌∷◌, arith, ◌==◌, ◌&&◌, if◌then◌else◌, length,
}
use vector_similarity.Hnsw.Links.{new_incoming}
use vector_similarity.Hnsw.Counts.{
  count, count-append, has-count, not_has-count, count-remove, remove-found,
}
use vector_similarity.Hnsw.Layer.{Layer, put, mutually_remove_neighbor, track_new_link}

-- how often there is a link from one node to another
abbrev pub Edges : Type 0
Edges = ℕ → ℕ → ℕ

abbrev pub edges : Layer → Edges
edges g u v = count v (g u).links

abbrev pub with_edge : ℕ → ℕ → ℕ → Edges → Edges
with_edge a b n e u v = if (u == a) && (v == b) then n else e u v

-- A node is in the incoming edges of another, once, if and only if it has a link to it and the
-- other has none to it.
abbrev pub Tracks : Edges → Layer → Type 0
Tracks e g = (u v : ℕ) → count u (g v).incoming ≡ e u v - e v u

pub mutually_remove_neighbor-Tracks :
    (a b : ℕ) (e : Edges) (g : Layer)
    → a ≢ b
    → e a b ≡ 1
    → e b a ≤ 1
    → Tracks e g
    → Tracks (with_edge a b 0 e) (mutually_remove_neighbor a b g)
unfolding mutually_remove_neighbor
mutually_remove_neighbor-Tracks a b e g ne ab ba t u v = ground (
  arith,
  t u v,
  t a b,
  t b a,
  remove-found a (g b).incoming,
  count-remove a u (g b).incoming,
  has-count a (g b).incoming,
  not_has-count a (g b).incoming,
  count-append u (g a).incoming (b ∷ []),
)

pub track_new_link-Tracks :
    (a b : ℕ) (e : Edges) (g : Layer)
    → a ≢ b
    → e a b ≡ 0
    → e b a ≤ 1
    → Tracks e g
    → Tracks (with_edge a b 1 e) (track_new_link a b g)
unfolding track_new_link
track_new_link-Tracks a b e g ne ab ba t u v = ground (
  arith,
  t u v,
  t a b,
  t b a,
  remove-found b (g a).incoming,
  count-remove b u (g a).incoming,
  has-count b (g a).incoming,
  not_has-count b (g a).incoming,
  count-append u (g b).incoming (a ∷ []),
)

-- A link that nothing answers is recorded at the node that it leads to.
pub new_incoming-Tracks :
    (a b : ℕ) (e : Edges) (g : Layer)
    → a ≢ b
    → e a b ≡ 0
    → e b a ≡ 0
    → Tracks e g
    → Tracks (with_edge a b 1 e) (put b (new_incoming a (g b)) g)
new_incoming-Tracks a b e g ne ab ba t u v =
    ground (arith, t u v, count-append u (g b).incoming (a ∷ []))

-- A link in both directions is recorded nowhere.
pub both_ways-Tracks :
    (a b : ℕ) (e : Edges) (g : Layer)
    → a ≢ b
    → e a b ≡ 0
    → e b a ≡ 0
    → Tracks e g
    → Tracks (with_edge b a 1 (with_edge a b 1 e)) g
both_ways-Tracks a b e g ne ab ba t u v = ground (arith, t u v, t v u)

-- a layer of a sound graph, whose nodes have at most `max_m` links
pub record IsMutual (max_m : ℕ) (g : Layer) : Type 0 where
  pub simple : (u v : ℕ) → count v (g u).links ≤ 1
  pub loopless : (u : ℕ) → count u (g u).links ≡ 0
  pub bounded : (u : ℕ) → length (g u).links ≤ max_m
  pub tracked : Tracks (edges g) g
