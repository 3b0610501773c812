-- ===== src/BruteForce/Multi/History.antt =====
-- Any history of calls on a new multi-value index.
use vector_similarity.Base.{ℕ, ◌<◌, ◌≡◌, refl, Option, some, List, [], ◌∷◌, length, arith, ◌>>=◌}
use vector_similarity.Base.Dict.{find}
use vector_similarity.Containers.Raw.{RawContainer}
use vector_similarity.BruteForce.{IndexComponents}
use vector_similarity.BruteForce.Single.History.{Call, adds, deletes}
use vector_similarity.BruteForce.Multi.Refinement.{
  BlobLists, Holds, IsIndexed, multi_add_vector_refines, lists_add, lists_delete,
}
use vector_similarity.BruteForce.Multi.Deletion.{multi_delete_vector_refines}
use vector_similarity.BruteForce.Multi.{MultiIndex, add_vector, delete_vector}

module _ {A : Type 0} (env : IndexComponents A) where
  unfoldable pub lists_step : BlobLists A → Call A → BlobLists A
  lists_step m (adds blob label) = lists_add env m blob label
  lists_step m (deletes label) = lists_delete m label

  unfoldable pub lists_run : BlobLists A → List (Call A) → BlobLists A
  lists_run m [] = m
  lists_run m (c ∷ cs) = lists_run (lists_step m c) cs

module _ {A : Type 0} {n : ℕ} (R : RawContainer A n) where
  -- the constructor, on an empty container
  unfoldable pub empty_multi_index : R.Carrier → MultiIndex R
  empty_multi_index vectors = record { id_to_label = []; count = 0; vectors = vectors; lookup = [] }

  pub empty_multi_index-IsIndexed :
      (vectors : R.Carrier)
      → 0 < n
      → R.IsValid vectors
      → length (R.contents vectors) ≡ 0
      → IsIndexed R (empty_multi_index vectors)
  unfolding empty_multi_index find
  empty_multi_index-IsIndexed vectors pos valid none_yet = record {
    shaped = record {
      positive = pos;
      valid = valid;
      counted = none_yet;
      whole = grind arith;
      enough = omega arith;
      spare = omega arith;
    };
    multi = λ l id. ground arith;
    filled = λ l e. cc;
  }

  module _ (env : IndexComponents A) where
    unfoldable pub step : MultiIndex R → Call A → Option (MultiIndex R)
    step s (adds blob label) = do (s', _) ← add_vector R env s blob label; some s'
    step s (deletes label) = do (s', _) ← delete_vector R s label; some s'

    unfoldable pub run : MultiIndex R → List (Call A) → Option (MultiIndex R)
    run s [] = some s
    run s (c ∷ cs) = do s' ← step s c; run s' cs

    step_refines :
        (s : MultiIndex R) (c : Call A) (m : BlobLists A)
        → IsIndexed R s
        → Holds R s m
        → (s' : MultiIndex R) × (step s c ≡ some s')
          × IsIndexed R s'
          × Holds R s' (lists_step env m c)
    unfolding step lists_step
    step_refines s (adds blob label) m v holds =
        let (s', done, v', holds', _) = multi_add_vector_refines R env s blob label m v holds in
        (s', rw done refl, v', holds')
    step_refines s (deletes label) m v holds =
        let (s', done, v', holds', _) = multi_delete_vector_refines R s label m v holds in
        (s', rw done refl, v', holds')

    -- Any history of additions and deletions on a multi-value index that satisfies the invariant
    -- runs without a failed assert, keeps the invariant, and leaves under each label the blobs that
    -- the abstract lists hold after the same history, in their order.
    pub multi_run_refines :
        (s : MultiIndex R) (cs : List (Call A)) (m : BlobLists A)
        → IsIndexed R s
        → Holds R s m
        → (s' : MultiIndex R) × (run s cs ≡ some s')
          × IsIndexed R s'
          × Holds R s' (lists_run env m cs)
    unfolding run lists_run
    multi_run_refines s [] m v holds = (s, refl, v, holds)
    multi_run_refines s (c ∷ cs) m v holds =
        let (s1, stepped, v1, holds1) = step_refines s c m v holds in
        let (s', done, v', holds') = multi_run_refines s1 cs (lists_step env m c) v1 holds1 in
        (s', rw stepped done, v', holds')
