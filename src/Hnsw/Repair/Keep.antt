-- ===== src/Hnsw/Repair/Keep.antt =====
-- What the loop over the links of a repaired node does.
use vector_similarity.Base.{
  ℕ, ◌+◌, ◌-◌, ◌≤◌, ◌≡◌, ◌≢◌, refl, Bool, true, false, List, [], ◌∷◌, ◌++◌, arith, length, ◌==◌,
  ◌&&◌, not, if◌then◌else◌, Bool-cases, inl, inr, length-append, ◌∙◌,
}
use vector_similarity.Hnsw.Links.{has, remove}
use vector_similarity.Hnsw.Counts.{
  count, count-append, has-count, count-remove, remove-found, has_count,
}
use vector_similarity.Hnsw.Layer.{Layer, mutually_remove_neighbor}
use vector_similarity.Hnsw.Tracked.{Edges, with_edge, Tracks, mutually_remove_neighbor-Tracks}
use vector_similarity.Hnsw.Connect.Prune.{links_of-mutually_remove}
use vector_similarity.Hnsw.Repair.{keep_links}

-- a link that is to be updated and was not chosen
abbrev pub goes : List ℕ → List ℕ → ℕ → Bool
goes out chosen v = has v out && not (has v chosen)

-- the edges without those from `a` to the nodes of `xs` that go
abbrev pub without_unchosen : ℕ → List ℕ → List ℕ → List ℕ → Edges → Edges
without_unchosen a out chosen xs e u v =
    if (u == a) && (has v xs && goes out chosen v) then 0 else e u v

pub record Kept (out : List ℕ) (a : ℕ) (xs kept chosen : List ℕ) (e : Edges) (g : Layer)
    (r : List ℕ × List ℕ × Layer) : Type 0 where
  pub counts : (v : ℕ) → count v r.0 ≡ count v kept + (if goes out chosen v then 0 else count v xs)
  pub missing : (v : ℕ) → count v r.1 ≡ count v chosen - (if has v out then count v xs else 0)
  pub size : length r.0 ≤ length kept + length xs
  pub links : (u : ℕ) → (r.2 u).links ≡ (g u).links
  pub tracked : Tracks (without_unchosen a out chosen xs e) r.2

-- removing one of distinct ids
has-remove :
    (x v : ℕ) (chosen : List ℕ)
    → count v chosen ≤ 1
    → has v (remove x chosen).0 ≡ (has v chosen && not (x == v))
has-remove x v chosen once =
    ground (arith, has_count v chosen, has_count v (remove x chosen).0, count-remove x v chosen)

pub keep_links-Kept :
    (out : List ℕ) (a : ℕ) (xs kept chosen : List ℕ) (e : Edges) (g : Layer)
    → ((v : ℕ) → has v xs ≡ true → e a v ≡ 1)
    → ((v : ℕ) → e v a ≤ 1)
    → ((v : ℕ) → count v xs ≤ 1)
    → ((v : ℕ) → count v chosen ≤ 1)
    → has a xs ≡ false
    → Tracks e g
    → Kept out a xs kept chosen e g (keep_links out a xs kept chosen g)
unfolding keep_links
keep_links-Kept out a [] kept chosen e g linked back once once_chosen self t = record {
  counts = λ v. ground arith;
  missing = λ v. ground arith;
  size = omega arith;
  links = λ u. refl;
  tracked = λ u v. ground (arith, t u v);
}
keep_links-Kept out a (x ∷ xs) kept chosen e g linked back once once_chosen self t =
    let self' : has a xs ≡ false = ground (arith, self) in
    let once' : (v : ℕ) → count v xs ≤ 1 = λ v. omega (arith, once v) in
    let linked' : (v : ℕ) → has v xs ≡ true → e a v ≡ 1 = λ v h. ground (arith, linked v, h) in
    let fewer : (v : ℕ) → count v (remove x chosen).0 ≤ 1 =
      λ v. omega (arith, once_chosen v, count-remove x v chosen) in
    let rest : (v : ℕ) → has v (remove x chosen).0 ≡ (has v chosen && not (x == v)) =
      λ v. has-remove x v chosen (once_chosen v) in
    let longer = length-append kept (x ∷ []) in
    elim (Bool-cases (has x out)) [
      | inl updated ↦ elim (Bool-cases (has x chosen)) [
        | inl found ↦
            let ih =
              keep_links-Kept out a xs (kept ++ x ∷ []) (remove x chosen).0 e g linked' back once'
                fewer self' t in
            rw (updated, remove-found x chosen, found)
              (record {
                counts = λ v. ground (
                  arith,
                  ih.counts v,
                  count-append v kept (x ∷ []),
                  updated,
                  found,
                  rest v,
                  once x,
                  has_count x xs,
                );
                missing = λ v. ground (arith, ih.missing v, updated, count-remove x v chosen);
                size = omega (arith, ih.size, longer);
                links = ih.links;
                tracked = λ u v.
                    ground (
                      arith,
                      ih.tracked u v,
                      updated,
                      found,
                      rest v,
                      rest u,
                      once x,
                      has_count x xs,
                    );
              })
        | inr unchosen ↦
            let e' = with_edge a x 0 e in
            let differ : a ≢ x = λ q. ground (arith, self) in
            let ih =
              keep_links-Kept out a xs kept (remove x chosen).0 e' (mutually_remove_neighbor a x g)
                (λ v h. ground (arith, linked' v h, once x, has-count v xs h))
                (λ v. ground (arith, back v)) once' fewer self'
                (mutually_remove_neighbor-Tracks a x e g differ (ground (arith, linked x)) (back x)
                  t) in
            rw (updated, remove-found x chosen, unchosen)
              (record {
                counts = λ v.
                    ground (arith, ih.counts v, updated, unchosen, rest v, once x, has_count x xs);
                missing = λ v. ground (
                  arith,
                  ih.missing v,
                  updated,
                  unchosen,
                  count-remove x v chosen,
                  has_count x chosen,
                );
                size = omega (arith, ih.size);
                links = λ u. ih.links u ∙ links_of-mutually_remove a x g u;
                tracked = λ u v. ground (
                  arith,
                  ih.tracked u v,
                  updated,
                  unchosen,
                  rest v,
                  rest u,
                  once x,
                  has_count x xs,
                );
              })
      ]
      | inr other ↦
          let ih =
            keep_links-Kept out a xs (kept ++ x ∷ []) chosen e g linked' back once' once_chosen
              self' t in
          rw other (record {
            counts = λ v. ground (arith, ih.counts v, count-append v kept (x ∷ []), other);
            missing = λ v. ground (arith, ih.missing v, other);
            size = omega (arith, ih.size, longer);
            links = ih.links;
            tracked = λ u v. ground (arith, ih.tracked u v, other);
          })
    ]
