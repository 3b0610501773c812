-- ===== src/BruteForce/Single/History.antt =====
-- Any history of calls on a new single-value index.
use vector_similarity.Base.{
  ℕ, ◌<◌, ◌≡◌, refl, ap, ◌∙◌, Option, some, List, [], ◌∷◌, length, arith, ◌>>=◌,
}
use mathlib.Core.Path.{fun_ext}
use vector_similarity.Base.Dict.{find}
use vector_similarity.Containers.Raw.{RawContainer}
use vector_similarity.BruteForce.{IndexComponents}
use vector_similarity.BruteForce.Single.Store.{IsIndexed, stored}
use vector_similarity.BruteForce.Single.Refinement.{
  BlobMap, map_add, map_delete, add_vector_refines, delete_vector_refines,
}
use vector_similarity.BruteForce.Single.{SingleIndex, add_vector, delete_vector}

pub data Call (A : Type 0) : Type 0 where
  adds : A → ℕ → Call A
  deletes : ℕ → Call A

module _ {A : Type 0} (env : IndexComponents A) where
  pub map_step : BlobMap A → Call A → BlobMap A
  map_step m (adds blob label) = map_add env m blob label
  map_step m (deletes label) = map_delete m label

  pub map_run : BlobMap A → List (Call A) → BlobMap A
  map_run m [] = m
  map_run m (c ∷ cs) = map_run (map_step m c) cs

module _ {A : Type 0} {n : ℕ} (R : RawContainer A n) where
  -- the constructor, on an empty container
  unfoldable pub empty_index : R.Carrier → SingleIndex R
  empty_index vectors = record { id_to_label = []; count = 0; vectors = vectors; lookup = [] }

  pub empty_index-IsIndexed :
      (vectors : R.Carrier)
      → 0 < n
      → R.IsValid vectors
      → length (R.contents vectors) ≡ 0
      → IsIndexed R (empty_index vectors)
  unfolding empty_index find
  empty_index-IsIndexed vectors pos valid none_yet = record {
    shaped = record {
      positive = pos;
      valid = valid;
      counted = none_yet;
      whole = grind arith;
      enough = omega arith;
      spare = omega arith;
    };
    inverse = record { labelled = λ l i e. cc; found = λ l i h e. cc };
  }

  module _ (env : IndexComponents A) where
    unfoldable pub step : SingleIndex R → Call A → Option (SingleIndex R)
    step s (adds blob label) = do (s', _) ← add_vector R env s blob label; some s'
    step s (deletes label) = do (s', _) ← delete_vector R s label; some s'

    unfoldable pub run : SingleIndex R → List (Call A) → Option (SingleIndex R)
    run s [] = some s
    run s (c ∷ cs) = do s' ← step s c; run s' cs

    step_refines :
        (s : SingleIndex R) (c : Call A) (m : BlobMap A)
        → IsIndexed R s
        → ((l : ℕ) → stored R s l ≡ m l)
        → (s' : SingleIndex R) × (step s c ≡ some s')
          × IsIndexed R s'
          × ((l : ℕ) → stored R s' l ≡ map_step env m c l)
    unfolding step map_step
    step_refines s (adds blob label) m v same =
        let (s', done, v', view, _) = add_vector_refines R env s blob label v in
        (s', rw done refl, v', λ l. view l ∙ ap (λ f. map_add env f blob label l) (fun_ext same))
    step_refines s (deletes label) m v same =
        let (s', done, v', view, _) = delete_vector_refines R s label v in
        (s', rw done refl, v', λ l. view l ∙ ap (λ f. map_delete f label l) (fun_ext same))

    -- Any history of additions and deletions on an index that satisfies the invariant runs without
    -- a failed assert, keeps the invariant, and leaves what the abstract map holds after the same
    -- history.
    pub run_refines :
        (s : SingleIndex R) (cs : List (Call A)) (m : BlobMap A)
        → IsIndexed R s
        → ((l : ℕ) → stored R s l ≡ m l)
        → (s' : SingleIndex R) × (run s cs ≡ some s')
          × IsIndexed R s'
          × ((l : ℕ) → stored R s' l ≡ map_run env m cs l)
    unfolding run map_run
    run_refines s [] m v same = (s, refl, v, same)
    run_refines s (c ∷ cs) m v same =
        let (s1, stepped, v1, same1) = step_refines s c m v same in
        let (s', done, v', same') = run_refines s1 cs (map_step env m c) v1 same1 in
        (s', rw stepped done, v', same')
