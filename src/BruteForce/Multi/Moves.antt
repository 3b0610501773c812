-- ===== src/BruteForce/Multi/Moves.antt =====
-- deleteVectorAndGetUpdatedIds of the multi-value index: the map of moved ids, kept up through a
-- series of removals that may move a vector more than once.
use vector_similarity.Base.{
  ℕ, zero, suc, ◌+◌, ◌-◌, ◌≤◌, ◌≡◌, refl, ap, ◌∙◌, [], Option, none, some, length, get_elem?, arith,
  ◌==◌, if◌then◌else◌, eq_cases, inl, inr, eq→==, ==_ne, Option-cases, get_elem?-some,
}
use vector_similarity.Base.Dict
use vector_similarity.Base.Dict.{Dict, find, find-erase, find-insert}
use vector_similarity.Containers.Raw.{RawContainer}
use vector_similarity.BruteForce.Single.Swaps.{Tracks}
use vector_similarity.BruteForce.Multi.Round.{IsLive, Round, remove_live, sized}
use vector_similarity.BruteForce.Multi.Refinement.{IsIndexed}
use vector_similarity.BruteForce.Multi.Deletion.{all_live, erased, next_id}
use vector_similarity.BruteForce.Multi.{
  MultiIndex, delete_ids, delete_vector, delete_vector_and_get_updated_ids, move_update, update_ids,
}

-- where the vector that fills the gap comes from, and its label
abbrev source : ℕ → ℕ → Option (ℕ × ℕ) → ℕ × ℕ
source last top none = (last, top)
source last top (some v) = v

-- The map after a removal: the gap has the origin of the last vector, and the last place no entry.
find-move_update :
    (id last top : ℕ) (u : Dict (ℕ × ℕ)) (j : ℕ)
    → id ≤ last
    → find j (move_update id last top u) ≡ (
        if last == j
        then none
        else if id == j
        then some (source last top (find last u))
        else find j u)
unfolding move_update
find-move_update id last top u j h = elim (eq_cases id last) [
  | inl same ↦ rw (eq→== id last same) (ground (arith, find-erase id j u))
  | inr other ↦ rw (==_ne id last other) (elim (Option-cases (find last u)) [
    | inl gone ↦
        let e = Dict.erase id u in
        let gone' : find last e ≡ none = ground (arith, find-erase id last u) in
        rw (gone', gone) (ground (arith, find-insert id j (last, top) e, find-erase id j u, gone))
    | inr (v, here) ↦
        let e = Dict.erase id u in
        let here' : find last e ≡ some v = ground (arith, find-erase id last u) in
        rw (here', here)
          (ground (
            arith,
            find-erase last j (Dict.insert id v e),
            find-insert id j v e,
            find-erase id j u,
          ))
  ])
]

module _ {A : Type 0} {n : ℕ} (R : RawContainer A n) where
  -- the map tells where each vector of the index `s` stood in `s0`, and has no other entries
  record Traced (s0 : MultiIndex R) (u : Dict (ℕ × ℕ)) (s : MultiIndex R) : Type 0 where
    tracks : Tracks R s0 u s
    beyond : (j : ℕ) → s.count ≤ j → find j u ≡ none

  Traced-next :
      (i label id top : ℕ) (u : Dict (ℕ × ℕ)) (s0 s s1 : MultiIndex R)
      → Traced s0 u s
      → Round R i label id s s1
      → get_elem? s.id_to_label s1.count ≡ some top
      → Traced s0 (move_update id s1.count top u) s1
  Traced-next i label id top u s0 s s1 t r labelled =
      let last = s1.count in
      let found =
        λ (j : ℕ). find-move_update id last top u j (omega (arith, r.counted, r.inside)) in
      record {
        tracks = record {
          labels = λ j h.
              ground
                (arith, found j, r.labels j, t.tracks.labels j, t.tracks.labels last, r.counted);
          vectors = λ j h.
              ground
                (arith, found j, r.vectors j, t.tracks.vectors j, t.tracks.vectors last, r.counted);
          named = λ j old l h e. ground (
            arith,
            found j,
            r.labels j,
            t.tracks.named j old l,
            t.tracks.named last old l,
            r.counted,
            labelled,
          );
        };
        beyond = λ j h. ground (arith, found j, t.beyond j, r.counted, r.inside);
      }

  -- The two loops remove the same vectors.
  update_ids-Traced :
      (rounds i label : ℕ) (s0 s : MultiIndex R) (u : Dict (ℕ × ℕ)) (ret : ℕ)
      → IsLive R i label s
      → sized (find label s.lookup) ≡ some (rounds + i)
      → Traced s0 u s
      → (s' : MultiIndex R) × (u' : Dict (ℕ × ℕ)) × (update_ids R rounds i label s u
          ≡ some (s', u'))
        × (delete_ids R rounds i label s ret ≡ some (s', ret + rounds))
        × Traced s0 u' s'
  unfolding update_ids delete_ids
  update_ids-Traced zero i label s0 s u ret v size t =
      (s, u, refl, ap (λ r. some (s, r)) (omega arith), t)
  update_ids-Traced (suc rounds) i label s0 s u ret v size t =
      let (ids, id, found, at) = next_id R i label rounds s size in
      let (s1, removed, r) = remove_live R i label id ids s v found at in
      let last : s.count - 1 ≡ s1.count = omega (arith, r.counted) in
      let (top, labelled) =
        get_elem?-some s.id_to_label s1.count (omega (arith, r.counted, v.shaped.enough)) in
      let labelled' = ap (get_elem? s.id_to_label) last ∙ labelled in
      let u1 = move_update id s1.count top u in
      let (s', u', updated, deleted, t') =
        update_ids-Traced rounds (suc i) label s0 s1 u1 (ret + 1) r.next
          (r.sizes label ∙ size ∙ ap some (omega arith))
          (Traced-next i label id top u s0 s s1 t r labelled) in
      (
        s',
        u',
        rw (found, at, labelled', removed) updated,
        rw (found, at, removed) (deleted ∙ ap (λ k. some (s', k)) (omega arith)),
        t',
      )

  Traced-start : (s : MultiIndex R) → Traced s [] s
  unfolding find
  Traced-start s = record {
    tracks = record {
      labels = λ i h. refl;
      vectors = λ i h. refl;
      named = λ i old l h e. absurd (cc);
    };
    beyond = λ j h. refl;
  }

  Tracks-erased :
      (label : ℕ) (s0 s : MultiIndex R) (u : Dict (ℕ × ℕ))
      → Tracks R s0 u s
      → Tracks R s0 u (erased R label s)
  Tracks-erased label s0 s u t = record { labels = t.labels; vectors = t.vectors; named = t.named }

  -- deleteVectorAndGetUpdatedIds leaves the index that deleteVector leaves, and the map that it
  -- returns tells, for every id left, the id at which its vector and label stood before, and
  -- names the label, also where a vector was moved more than once.
  pub moved_ids-Tracks :
      (s : MultiIndex R) (label : ℕ)
      → IsIndexed R s
      → (s' : MultiIndex R) × (updates : Dict (ℕ × ℕ)) × (deleted : ℕ)
        × (delete_vector_and_get_updated_ids R s label ≡ some (s', updates))
        × (delete_vector R s label ≡ some (s', deleted))
        × Tracks R s updates s'
  unfolding delete_vector_and_get_updated_ids delete_vector
  moved_ids-Tracks s label v = elim (Option-cases (find label s.lookup)) [
    | inl gone ↦ (
      s,
      [],
      0,
      rw (gone, delete_vector_and_get_updated_ids) refl,
      rw (gone, delete_vector) refl,
      (Traced-start s).tracks,
    )
    | inr (ids, found) ↦
        let k = length ids in
        let (s', u, updated, deleted, t) =
          update_ids-Traced k 0 label s s [] 0 (all_live R label s v)
            (rw found (ap some (omega arith))) (Traced-start s) in
        (
          erased R label s',
          u,
          0 + k,
          rw (found, delete_vector_and_get_updated_ids) (rw updated refl),
          rw (found, delete_vector) (rw deleted refl),
          Tracks-erased label s s' u t.tracks,
        )
  ]
