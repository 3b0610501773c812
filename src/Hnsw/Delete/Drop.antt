-- ===== src/Hnsw/Delete/Drop.antt =====
-- The candidates that were not chosen, in a layer that has an element to be removed.
use vector_similarity.Base.{
  ℕ, ◌-◌, ◌≤◌, ◌<◌, ◌≡◌, ◌≢◌, refl, true, List, [], ◌∷◌, arith, ◌==◌, ◌&&◌, if◌then◌else◌,
  Bool-cases, inl, inr, ◌∙◌,
}
use vector_similarity.Hnsw.Links.{has}
use vector_similarity.Hnsw.Counts.{count, count-append, has_count, count-remove, remove-found}
use vector_similarity.Hnsw.Layer.{Layer, mutually_remove_neighbor}
use vector_similarity.Hnsw.Tracked.{Edges, with_edge}
use vector_similarity.Hnsw.Connect.Prune.{links_of-mutually_remove}
use vector_similarity.Hnsw.Delete.{drop_unchosen}

-- the incoming edges between nodes other than `x`
abbrev pub TracksApart : ℕ → Edges → Layer → Type 0
TracksApart x e g = (u v : ℕ) → u ≢ x → v ≢ x → count u (g v).incoming ≡ e u v - e v u

-- what a repair does not change
pub record Unmoved (x : ℕ) (g g' : Layer) : Type 0 where
  pub links : (u : ℕ) → (g' u).links ≡ (g u).links
  pub of_removed : (u : ℕ) → count x (g' u).incoming ≡ count x (g u).incoming
  pub to_removed : (u : ℕ) → count u (g' x).incoming ≡ count u (g x).incoming

pub Unmoved-then : (x : ℕ) (g g' g'' : Layer) → Unmoved x g g' → Unmoved x g' g'' → Unmoved x g g''
Unmoved-then x g g' g'' p q = record {
  links = λ u. q.links u ∙ p.links u;
  of_removed = λ u. q.of_removed u ∙ p.of_removed u;
  to_removed = λ u. q.to_removed u ∙ p.to_removed u;
}

-- the edges without those from `a` to the nodes of `cs` that are in `orig`
abbrev pub without_orig : ℕ → List ℕ → List ℕ → Edges → Edges
without_orig a orig cs e u v = if (u == a) && (has v cs && has v orig) then 0 else e u v

module _ (x a : ℕ) (ne : a ≢ x) where
  remove-Unmoved :
      (b : ℕ) (g : Layer) → b ≢ x → a ≢ b → Unmoved x g (mutually_remove_neighbor a b g)
  unfolding mutually_remove_neighbor
  remove-Unmoved b g nb differ = record {
    links = links_of-mutually_remove a b g;
    of_removed = λ u.
        ground (arith, count-remove a x (g b).incoming, count-append x (g a).incoming (b ∷ []));
    to_removed = λ u. ground arith;
  }

  remove-TracksApart :
      (b : ℕ) (e : Edges) (g : Layer)
      → b ≢ x
      → a ≢ b
      → e a b ≡ 1
      → e b a ≤ 1
      → TracksApart x e g
      → TracksApart x (with_edge a b 0 e) (mutually_remove_neighbor a b g)
  unfolding mutually_remove_neighbor
  remove-TracksApart b e g nb differ ab ba t u v nu nv = ground (
    arith,
    t u v nu nv,
    t a b ne nb,
    t b a nb ne,
    remove-found a (g b).incoming,
    count-remove a u (g b).incoming,
    has_count a (g b).incoming,
    count-append u (g a).incoming (b ∷ []),
  )

  pub drop_unchosen-TracksApart :
      (orig cs : List ℕ) (e : Edges) (g : Layer)
      → ((v : ℕ) → count v cs ≤ 1)
      → count x cs ≡ 0
      → count a cs ≡ 0
      → ((v : ℕ) → 0 < count v cs → has v orig ≡ true → e a v ≡ 1)
      → ((v : ℕ) → e v a ≤ 1)
      → TracksApart x e g
      → TracksApart x (without_orig a orig cs e) (drop_unchosen a orig cs g)
        × Unmoved x g (drop_unchosen a orig cs g)
  unfolding drop_unchosen
  drop_unchosen-TracksApart orig [] e g once not_x not_a linked back t = (
    λ u v nu nv. ground (arith, t u v nu nv),
    record { links = λ u. refl; of_removed = λ u. refl; to_removed = λ u. refl },
  )
  drop_unchosen-TracksApart orig (c ∷ cs) e g once not_x not_a linked back t =
      let nc : c ≢ x = λ q. ground (arith, not_x) in
      let once' : (v : ℕ) → count v cs ≤ 1 = λ v. omega (arith, once v) in
      elim (Bool-cases (has c orig)) [
        | inl was ↦
            let differ : a ≢ c = λ q. ground (arith, not_a) in
            let m = remove-Unmoved c g nc differ in
            let (t', m') =
              drop_unchosen-TracksApart orig cs (with_edge a c 0 e) (mutually_remove_neighbor a c g)
                once' (omega (arith, not_x)) (omega (arith, not_a))
                (λ v h k. ground (arith, linked v, h, k, once v)) (λ v. ground (arith, back v))
                (remove-TracksApart c e g nc differ (ground (arith, linked c, was)) (back c) t) in
            rw was (
              λ u v nu nv. ground (arith, t' u v nu nv, was, once c, has_count c cs),
              Unmoved-then x g _ _ m m',
            )
        | inr new ↦
            let (t', m') =
              drop_unchosen-TracksApart orig cs e g once' (omega (arith, not_x))
                (omega (arith, not_a)) (λ v h. linked v (omega (arith, h))) back t in
            rw new (λ u v nu nv. ground (arith, t' u v nu nv, new), m')
      ]
