-- ===== src/Hnsw/Connect/Prune.antt =====
-- What the loop over the neighbor's links does.
use vector_similarity.Base.{
  ℕ, ◌+◌, ◌≤◌, ◌≡◌, ◌≢◌, refl, Bool, true, false, List, [], ◌∷◌, ◌++◌, arith, length, ◌==◌, ◌&&◌,
  if◌then◌else◌, Bool-cases, inl, inr, length-append, ◌∙◌,
}
use vector_similarity.Hnsw.Links.{has}
use vector_similarity.Hnsw.Counts.{count, count-append, has-count}
use vector_similarity.Hnsw.Layer.{Layer, mutually_remove_neighbor}
use vector_similarity.Hnsw.Tracked.{Edges, with_edge, Tracks, mutually_remove_neighbor-Tracks}
use vector_similarity.Hnsw.Connect.{prune_links}

-- the edges without those from `a` to the nodes of `xs` that are in `out`
abbrev pub without : ℕ → List ℕ → List ℕ → Edges → Edges
without a out xs e u v = if (u == a) && (has v xs && has v out) then 0 else e u v

pub links_of-mutually_remove :
    (a b : ℕ) (g : Layer) (u : ℕ) → (mutually_remove_neighbor a b g u).links ≡ (g u).links
unfolding mutually_remove_neighbor
links_of-mutually_remove a b g u = ground arith

pub record Pruned (out : List ℕ) (a : ℕ) (xs kept : List ℕ) (e : Edges) (g : Layer)
    (required : Bool) (r : List ℕ × Layer × Bool) : Type 0 where
  pub counts : (v : ℕ) → count v r.0 ≡ count v kept + (if has v out then 0 else count v xs)
  pub size : length r.0 ≤ length kept + length xs
  pub links : (u : ℕ) → (r.1 u).links ≡ (g u).links
  pub tracked : Tracks (without a out xs e) r.1
  pub required_still : r.2 ≡ required

-- where the new node is not among the links
pub prune_links-Pruned :
    (out : List ℕ) (new a : ℕ) (xs kept : List ℕ) (e : Edges) (g : Layer) (required : Bool)
    → ((v : ℕ) → has v xs ≡ true → e a v ≡ 1)
    → ((v : ℕ) → e v a ≤ 1)
    → ((v : ℕ) → count v xs ≤ 1)
    → has a xs ≡ false
    → has new xs ≡ false
    → Tracks e g
    → Pruned out a xs kept e g required (prune_links out new a xs kept g required)
unfolding prune_links
prune_links-Pruned out new a [] kept e g required linked back once self fresh t = record {
  counts = λ v. ground arith;
  size = omega arith;
  links = λ u. refl;
  tracked = λ u v. ground (arith, t u v);
  required_still = refl;
}
prune_links-Pruned out new a (x ∷ xs) kept e g required linked back once self fresh t =
    let apart : (x == new) ≡ false = ground (arith, fresh) in
    let self' : has a xs ≡ false = ground (arith, self) in
    let fresh' : has new xs ≡ false = ground (arith, fresh) in
    let once' : (v : ℕ) → count v xs ≤ 1 = λ v. omega (arith, once v) in
    let linked' : (v : ℕ) → has v xs ≡ true → e a v ≡ 1 = λ v h. ground (arith, linked v, h) in
    elim (Bool-cases (has x out)) [
      | inl gone ↦
          let e' = with_edge a x 0 e in
          let at_x : e a x ≡ 1 = ground (arith, linked x) in
          let differ : a ≢ x = λ q. ground (arith, self) in
          let ih =
            prune_links-Pruned out new a xs kept e' (mutually_remove_neighbor a x g) required
              (λ v h. ground (arith, linked' v h, once x, has-count v xs h))
              (λ v. ground (arith, back v)) once' self' fresh'
              (mutually_remove_neighbor-Tracks a x e g differ at_x (back x) t) in
          rw (gone, apart)
            (record {
              counts = λ v. ground (arith, ih.counts v, gone);
              size = omega (arith, ih.size);
              links = λ u. ih.links u ∙ links_of-mutually_remove a x g u;
              tracked = λ u v. ground (arith, ih.tracked u v, gone, once x, has-count x xs);
              required_still = ih.required_still;
            })
      | inr stays ↦
          let ih =
            prune_links-Pruned out new a xs (kept ++ x ∷ []) e g required linked' back once' self'
              fresh' t in
          rw stays (record {
            counts = λ v. ground (arith, ih.counts v, count-append v kept (x ∷ []), stays);
            size = omega (arith, ih.size, length-append kept (x ∷ []));
            links = ih.links;
            tracked = λ u v. ground (arith, ih.tracked u v, stays);
            required_still = ih.required_still;
          })
    ]
