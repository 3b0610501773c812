-- ===== src/Hnsw/Links.antt =====
-- src/VecSim/algorithms/hnsw/graph_data.h: the links of a node at one level. `links` holds the first
-- `numLinks` entries of the array; a `linkListSize` does not overflow, as a node has at most `M0`.
use vector_similarity.Base.{
  ℕ, Bool, true, false, List, [], ◌∷◌, ◌++◌, map, Option, some, none, length, get_elem?, drop_last,
  ltb, ◌==◌, ◌||◌, if◌then◌else◌, ◌>>=◌, ◌>>◌, assert,
}
use vector_similarity.Containers.Blocks.{get_back}

-- ElementLevelData
pub record LevelData : Type 0 where
  pub incoming : List ℕ
  pub links : List ℕ

-- `std::find` is not the end
abbrev pub has : ℕ → List ℕ → Bool
has a [] = false
has a (x ∷ xs) = x == a || has a xs

-- the first `a` becomes `b`
abbrev pub replace : ℕ → ℕ → List ℕ → List ℕ
replace a b [] = []
replace a b (x ∷ xs) = let rest = replace a b xs in if x == a then b ∷ xs else x ∷ rest

-- the last entry takes the place of the first `a`
unfoldable pub swap_remove : ℕ → List ℕ → Option (List ℕ)
swap_remove a xs = do assert (has a xs); last ← get_back xs; some (drop_last (replace a last xs))

-- vecsim_stl::vector::remove
unfoldable pub remove : ℕ → List ℕ → List ℕ × Bool
remove a xs = elim (swap_remove a xs) [ none ↦ (xs, false) | some ys ↦ (ys, true) ]

unfoldable pub get_link_at_pos : ℕ → LevelData → Option ℕ
get_link_at_pos pos d = do assert (ltb pos (length d.links)); get_elem? d.links pos

-- setLinks, of ids and of candidates
abbrev pub set_links : List ℕ → LevelData → LevelData
set_links ids d = record d { links = ids }

abbrev pub set_candidates : List (ℕ × ℕ) → LevelData → LevelData
set_candidates cs d = record d { links = map (λ c. c.1) cs }

abbrev pub append_link : ℕ → LevelData → LevelData
append_link id d = record d { links = d.links ++ id ∷ [] }

unfoldable pub remove_link : ℕ → LevelData → Option LevelData
remove_link id d = do ids ← swap_remove id d.links; some (record d { links = ids })

abbrev pub new_incoming : ℕ → LevelData → LevelData
new_incoming id d = record d { incoming = d.incoming ++ id ∷ [] }

-- removeIncomingUnidirectionalEdgeIfExists
abbrev pub remove_incoming : ℕ → LevelData → LevelData × Bool
remove_incoming id d =
    let (ids, found) = remove id d.incoming in (record d { incoming = ids }, found)

unfoldable pub swap_id_in_incoming : ℕ → ℕ → LevelData → Option LevelData
swap_id_in_incoming before after d = do
  assert (has before d.incoming)
  some (record d { incoming = replace before after d.incoming })
