-- ===== src/BruteForce/Multi/ById.antt =====
-- deleteVectorById of the multi-value index: one vector of a label is removed, and the list of the
-- label loses one id.
mod Without
use vector_similarity.Base.{
  ℕ, zero, suc, ◌+◌, ◌-◌, ◌≤◌, ◌<◌, ◌≡◌, ◌≢◌, refl, sym, ap, ◌∙◌, subst, List, [], ◌∷◌, Option,
  none, some, map, length, get_elem?, set, arith, ◌==◌, if◌then◌else◌, eq_cases, inl, inr, eq→==,
  ==_ne, ==_self, Option-cases, ◌>>=◌, get_elem?-some, get_elem?-lt, length-set, count, one_if,
  count-place, place-count, some-inj,
}
use vector_similarity.Base.Dict
use vector_similarity.Base.Dict.{Dict, find, find-insert, find-erase}
use vector_similarity.Containers.Raw.{RawContainer}
use vector_similarity.BruteForce.{remove_vector}
use vector_similarity.BruteForce.Capacity.{IsShaped}
use vector_similarity.BruteForce.Remove.{Replaced, Removed, remove_vector-Removed}
use vector_similarity.BruteForce.Multi.Places.{replace_from-set}
use vector_similarity.BruteForce.Multi.Live.{
  IsMulti, Renamed, moved, unmoved, Renamed-IsMulti, Renamed-map, label_of_removed, listed,
}
use vector_similarity.BruteForce.Multi.Round.{Replaced_until}
use vector_similarity.BruteForce.Multi.Refinement.{IsIndexed, stored}
use vector_similarity.BruteForce.Multi.{
  MultiIndex, delete_vector_by_id, erase_at, index_of, lookup_ops, replace_from,
  replace_id_of_label, write_ids,
}
use vector_similarity.BruteForce.Multi.ById.Without.{
  map-erase_at, index_of_lem, without, write_ids_lem, Renamed-without, count-without,
}

module _ {A : Type 0} {n : ℕ} (R : RawContainer A n) where
  -- the index at the end of `deleteVectorById`
  abbrev with_ids : ℕ → List ℕ → MultiIndex R → MultiIndex R
  with_ids label ids s = record s { lookup = write_ids label ids s.lookup }

  -- what the removal of one vector of a label makes of the index
  record Taken (i label : ℕ) (s s' : MultiIndex R) : Type 0 where
    indexed : IsIndexed R s'
    view :
        (l : ℕ) → stored R s' l ≡ (if label == l then erase_at i (stored R s l) else stored R s l)
    counted : s'.count + 1 ≡ s.count

  Taken-of :
      (i label id last top : ℕ) (s s' : MultiIndex R) (lk : Dict (List ℕ)) (ids ids' : List ℕ)
      → IsIndexed R s
      → suc last ≡ s.count
      → get_elem? s.id_to_label last ≡ some top
      → find label s.lookup ≡ some ids
      → get_elem? ids i ≡ some id
      → ((l : ℕ) → find l s.lookup ≢ some [] → find l lk ≢ some [])
      → find label lk ≡ some ids'
      → Renamed id last top (without i label s.lookup) (without i label lk)
      → Removed R s id lk s'
      → Taken i label s (with_ids label (erase_at i ids') s')
  Taken-of i label id last top s s' lk ids ids' v suc_last labelled found at filled found' r m =
      let f = get_elem? (R.contents s.vectors) in
      let f' = get_elem? (R.contents s'.vectors) in
      let all = λ (l : ℕ). listed (find l s.lookup) in
      let before = without i label s.lookup in
      let after = without i label lk in
      let multi : IsMulti (suc last) (get_elem? s.id_to_label) all = rw suc_last v.multi in
      let split = λ (l c : ℕ). count-without i label id l c s.lookup ids found at in
      let count' : s'.count ≡ last = omega (arith, m.counted) in
      let relabelled =
        Replaced_until id s'.count last s.id_to_label s'.id_to_label count' m.labels in
      let replaced =
        Replaced_until id s'.count last (R.contents s.vectors) (R.contents s'.vectors) count'
          m.view in
      let end = write_ids label (erase_at i ids') s'.lookup in
      let lists : (l : ℕ) → listed (find l end) ≡ after l = λ l.
        (write_ids_lem label l (erase_at i ids') s'.lookup).0
        ∙ rw m.looked_up (without_found i label l lk ids' found') in
      let still =
        Renamed-IsMulti last id label top (get_elem? s.id_to_label) all before multi labelled split
          after (get_elem? s'.id_to_label) r relabelled in
      let same_map =
        Renamed-map last id label top (get_elem? s.id_to_label) all before multi labelled split f f'
          after r replaced in
      record {
        indexed = record {
          shaped = record {
            positive = m.shaped.positive;
            valid = m.shaped.valid;
            counted = m.shaped.counted;
            whole = m.shaped.whole;
            enough = m.shaped.enough;
            spare = m.shaped.spare;
          };
          multi = λ l c. ap (count c) (lists l) ∙ rw count' (still l c);
          filled = λ l.
              (write_ids_lem label l (erase_at i ids') s'.lookup).1
                (rw m.looked_up (filled l (v.filled l)));
        };
        view = λ l. ap (map f') (lists l) ∙ same_map l ∙ stored_without l;
        counted = m.counted;
      }
    where
      without_found :
          (i label l : ℕ) (d : Dict (List ℕ)) (xs : List ℕ)
          → find label d ≡ some xs
          → (if label == l then erase_at i xs else listed (find l d)) ≡ without i label d l
      without_found i label l d xs e = elim (eq_cases label l) [
        | inl same ↦ rw (eq→== label l same, ← same, e) refl
        | inr other ↦ rw (==_ne label l other) refl
      ]

      stored_without :
          (l : ℕ)
          → map (get_elem? (R.contents s.vectors)) (without i label s.lookup l)
            ≡ (if label == l then erase_at i (stored R s l) else stored R s l)
      stored_without l = elim (eq_cases label l) [
        | inl same ↦
            rw (eq→== label l same)
              (map-erase_at (get_elem? (R.contents s.vectors)) i (listed (find l s.lookup)))
        | inr other ↦ rw (==_ne label l other) refl
      ]

  -- deleteVectorById, where `id` stands at place `i` of the ids of the label, fails no assert, keeps
  -- the invariant, takes the blob at place `i` from those of the label, leaves all else that is
  -- stored, and returns 1, by which the index has shrunk.
  pub delete_vector_by_id_refines :
      (s : MultiIndex R) (label id i : ℕ) (ids : List ℕ)
      → IsIndexed R s
      → find label s.lookup ≡ some ids
      → get_elem? ids i ≡ some id
      → (s' : MultiIndex R) × (delete_vector_by_id R s label id ≡ some (s', 1))
        × IsIndexed R s'
        × ((l : ℕ)
            → stored R s' l ≡ (if label == l then erase_at i (stored R s l) else stored R s l))
        × (s'.count + 1 ≡ s.count)
  unfolding delete_vector_by_id
  delete_vector_by_id_refines s label id i ids v found at =
      taken (s.count - 1) (ground (arith, v.multi label id, occurs))
    where
      occurs : 0 < count id (listed (find label s.lookup))
      occurs = rw found (place-count id ids i at)

      once : count id ids ≡ 1
      once = ground (arith, v.multi label id, ap (λ o. count id (listed o)) found, occurs)

      taken :
          (last : ℕ)
          → suc last ≡ s.count
          → (s' : MultiIndex R) × (delete_vector_by_id R s label id ≡ some (s', 1))
            × IsIndexed R s'
            × ((l : ℕ)
                → stored R s' l ≡ (if label == l then erase_at i (stored R s l) else stored R s l))
            × (s'.count + 1 ≡ s.count)
      taken last suc_last =
          let (top, labelled) =
            get_elem?-some s.id_to_label last (omega (arith, v.shaped.enough)) in
          let (lk, replaced, filled, (ids', found'), r) =
            Renamed-without i label id last top s.lookup ids found at
              (λ other. ground (arith, v.multi top last, labelled)) in
          let (s', done, m) =
            remove_vector-Removed R lookup_ops s id last top lk v.shaped suc_last labelled
              (ground (arith, v.multi label id, occurs)) replaced in
          let t =
            Taken-of i label id last top s s' lk ids ids' v suc_last labelled found at filled found'
              r m in
          (
            with_ids label (erase_at i ids') s',
            rw (found, delete_vector_by_id)
                (rw (index_of_lem id i ids at once, done, m.looked_up, found') refl),
            t.indexed,
            t.view,
            t.counted,
          )
