-- ===== src/Hnsw/Connect/Insert.antt =====
-- mutuallyConnectNewElement keeps a layer sound, and links the new node to what the heuristic chooses.
use vector_similarity.Base.{
  ℕ, ◌≤◌, ◌<◌, ◌≡◌, refl, Bool, false, [], arith, length, ltb, some, List, ◌++◌, ap, ◌∙◌,
}
use vector_similarity.Query.Order.{All}
use vector_similarity.Hnsw.Counts.{count}
use vector_similarity.Hnsw.Layer.{Layer}
use vector_similarity.Hnsw.Tracked.{IsMutual}
use vector_similarity.Hnsw.Heuristic.{Candidates, ids, Sorter, get_neighbors_by_heuristic2}
use vector_similarity.Hnsw.Heuristic.Choice.{
  count-get_neighbors, length-get_neighbors, get_neighbors_and_closest_lem,
}
use vector_similarity.Hnsw.Connect.{mutually_connect_new_element}
use vector_similarity.Hnsw.Connect.Each.{Fresh, accepted, connect_each-Connects}

module _ (dist : ℕ → ℕ → ℕ) (sorter : Sorter) (deleted : ℕ → Bool) (max_m : ℕ) where
  -- the run, with the neighbors that were chosen
  pub record Connection (m new : ℕ) (top : Candidates) (g : Layer) : Type 0 where
    pub closest : ℕ
    pub after : Layer
    pub result :
        mutually_connect_new_element dist sorter deleted max_m m new top g ≡ some (closest, after)
    pub candidate : 0 < count closest (ids top)
    pub nearest :
        (query : ℕ → ℕ)
        → All (λ c. c.0 ≡ query c.1) top
        → (v : ℕ) → 0 < count v (ids top)
        → query closest ≤ query v
    pub sound : IsMutual max_m after
    pub linked :
        m ≤ max_m
        → (after new).links ≡ accepted deleted new (get_neighbors_by_heuristic2 dist sorter m top).0

  pub mutually_connect-Connection :
      (m new : ℕ) (top : Candidates) (g : Layer)
      → 0 < m
      → 0 < length top
      → IsMutual max_m g
      → (g new).links ≡ []
      → Fresh new top g
      → Connection m new top g
  unfolding mutually_connect_new_element
  mutually_connect-Connection m new top g pos some_left sound blank f =
      let left = (get_neighbors_by_heuristic2 dist sorter m top).0 in
      let split : (c : ℕ) → count c (ids left) ≤ count c (ids top) =
        λ c. omega (arith, count-get_neighbors dist sorter c m top) in
      let left-Fresh : Fresh new left g = record {
        distinct = λ c. omega (arith, split c, f.distinct c);
        others = omega (arith, split new, f.others);
        outgoing = λ c h. f.outgoing c (omega (arith, split c));
        ingoing = λ c h. f.ingoing c (omega (arith, split c));
      } in
      let chosen = get_neighbors_and_closest_lem dist sorter m top pos some_left in
      let few : ltb m (length left) ≡ false =
        ground (arith, length-get_neighbors dist sorter m top) in
      let c = connect_each-Connects dist sorter deleted max_m new left g sound left-Fresh in
      record {
        closest = chosen.closest;
        after = c.after;
        result = rw (chosen.result, few, blank, c.result) refl;
        candidate = chosen.candidate;
        nearest = chosen.nearest;
        sound = c.sound;
        linked = λ wide.
            c.linked (omega (arith, wide, length-get_neighbors dist sorter m top, ap length blank))
            ∙ ap (λ (l : List ℕ). l ++ accepted deleted new left) blank;
      }

  -- Connecting a new node, which has no links in either direction, to candidates that are distinct
  -- other nodes, of which there is one at least, in a sound layer, succeeds, and the layer stays
  -- sound: no node has a link to itself, two to one node or more than `max_m`, and the incoming
  -- edges are those of the one-way links. The entry point for the next level is a candidate.
  pub mutually_connect_new_element-IsMutual :
      (m new : ℕ) (top : Candidates) (g : Layer)
      → 0 < m
      → 0 < length top
      → IsMutual max_m g
      → (g new).links ≡ []
      → Fresh new top g
      → (closest : ℕ) × (g' : Layer) × (mutually_connect_new_element dist sorter deleted max_m m new
            top g
          ≡ some (closest, g'))
        × (0 < count closest (ids top))
        × IsMutual max_m g'
  mutually_connect_new_element-IsMutual m new top g pos some_left sound blank f =
      let c = mutually_connect-Connection m new top g pos some_left sound blank f in
      (c.closest, c.after, c.result, c.candidate, c.sound)

  -- Connecting a new node under the same conditions, where `M` is at most the maximum of the level,
  -- leaves it linked to the neighbors that the heuristic chooses among the candidates, in their
  -- order, but for those marked as deleted, and to none if the new node is marked as deleted.
  pub mutually_connect_new_element-links :
      (m new : ℕ) (top : Candidates) (g : Layer)
      → 0 < m
      → m ≤ max_m
      → 0 < length top
      → IsMutual max_m g
      → (g new).links ≡ []
      → Fresh new top g
      → (closest : ℕ) × (g' : Layer) × (mutually_connect_new_element dist sorter deleted max_m m new
            top g
          ≡ some (closest, g'))
        × ((g' new).links ≡ accepted deleted new (get_neighbors_by_heuristic2 dist sorter m top).0)
  mutually_connect_new_element-links m new top g pos wide some_left sound blank f =
      let c = mutually_connect-Connection m new top g pos some_left sound blank f in
      (c.closest, c.after, c.result, c.linked wide)
