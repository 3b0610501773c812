-- ===== src/Hnsw/Tests/Searches.antt =====
-- Searches of the small layer, and the theorems at them.
use vector_similarity.Base.{
  ℕ, ◌≤◌, ◌≡◌, ◌⊎◌, ◌↔◌, refl, true, false, [], ◌∷◌, Option, some, arith, ◌>>=◌, ◌+◌,
}
use vector_similarity.Query.Heap.{Heap, emplace, pop, top, max_priority_queue}
use vector_similarity.Hnsw.Links.{has}
use vector_similarity.Hnsw.Sample.{apart, nothing, only_two, three, three-inside}
use vector_similarity.Hnsw.Heuristic.{ids}
use vector_similarity.Hnsw.Visited.{Handler, get_node_tag, tag_node, get_fresh_tag}
use vector_similarity.Hnsw.Visited.Fresh.{IsHandler, Freshened, get_fresh_tag-Freshened}
use vector_similarity.Hnsw.Search.{
  search_loop, visit_link, insert_candidate, search_layer, greedy_search_level,
}
use vector_similarity.Hnsw.Search.Reach.{Reach}
use vector_similarity.Hnsw.Search.Answer.{Answer, search_layer-Answer, search_layer-Reach}
use vector_similarity.Hnsw.Search.Descent.{greedy_search_level-Descended}

-- the last tag before the 16 bits wrap around
abbrev worn : Handler
worn = record { cur_tag = 65535; elements_tags = 65535 ∷ 0 ∷ 7 ∷ [] }

worn-IsHandler : IsHandler worn
worn-IsHandler = record {
  below = (omega arith, (omega arith, (omega arith, tt)));
  wide = omega arith;
}

get_fresh_tag-Freshened_example : Freshened worn (get_fresh_tag worn)
get_fresh_tag-Freshened_example = get_fresh_tag-Freshened worn worn-IsHandler

search_layer-Answer_example :
    (top : Heap) × (after : Handler) × (search_layer max_priority_queue
        (λ j. j)
        (apart 2)
        nothing
        nothing
        2
        100
        three
        0
        worn
      ≡ some (top, after))
    × Answer (apart 2) nothing nothing 2 0 three worn top after
search_layer-Answer_example =
    search_layer-Answer (apart 2) nothing nothing 2 0 three 100 worn three-inside worn-IsHandler
      (omega arith) (omega arith)

search_layer-Reach_example :
    (top : Heap) × (after : Handler) × (search_layer max_priority_queue
        (λ j. j)
        (apart 2)
        only_two
        nothing
        4
        100
        three
        0
        worn
      ≡ some (top, after))
    × ((v : ℕ) → (has v (ids top) ≡ true) ↔ (Reach three nothing 0 v × (only_two v ≡ false)))
search_layer-Reach_example =
    search_layer-Reach (apart 2) only_two nothing 4 0 three 100 worn three-inside worn-IsHandler
      (omega arith) (omega arith)

greedy_search_level-Descended_example :
    (best dist : ℕ) × (greedy_search_level (apart 2) nothing nothing three true nothing 0 2
      ≡ some (some (best, dist)))
    × (dist ≤ 2)
    × (true ≡ true
        → (apart 2 best ≡ dist)
          × ((c : ℕ) → has c (three best).links ≡ true → nothing c ≡ false → dist ≤ apart 2 c))
    × (true ≡ false → (best ≡ 0) ⊎ (nothing best ≡ false))
greedy_search_level-Descended_example =
    greedy_search_level-Descended (apart 2) nothing nothing three true nothing 0 2 (λ i. refl) refl

abbrev queue_of : Option (Heap × Handler) → Option Heap
queue_of r = do (top, after) ← r; some top

search_layer_run :
    queue_of
      (search_layer max_priority_queue (λ j. j) (apart 2) only_two nothing 4 100 three 0 worn)
    ≡ some ((2, 0) ∷ (1, 1) ∷ [])
unfolding search_layer search_loop visit_link insert_candidate get_node_tag tag_node get_fresh_tag
    emplace pop top
search_layer_run = refl

-- the labels of the nodes
abbrev label : ℕ → ℕ
label i = i + 10
