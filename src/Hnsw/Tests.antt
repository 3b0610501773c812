-- ===== src/Hnsw/Tests.antt =====
-- Runs of the operations on small layers, and the theorems at them.
mod Searches
mod Insertions
use vector_similarity.Base.{
  ℕ, zero, suc, ◌≤◌, ◌<◌, ◌≡◌, ◌⊎◌, ◌↔◌, refl, true, false, [], ◌∷◌, Option, some, arith, ◌>>=◌,
  List,
}
use vector_similarity.Containers.Blocks.{get_back}
use vector_similarity.Query.Heap.{Heap, emplace, pop, top, max_priority_queue}
use vector_similarity.Hnsw.Links.{has, remove, swap_remove}
use vector_similarity.Hnsw.Counts.{count}
use vector_similarity.Hnsw.Layer.{Layer, mutually_remove_neighbor, track_new_link}
use vector_similarity.Hnsw.Tracked.{edges, IsMutual}
use vector_similarity.Hnsw.Entry.{replace_entry_point}
use vector_similarity.Hnsw.Entry.Highest.{
  LinksReach, NoHigher, IsHighest, replace_entry_point-IsHighest,
}
use vector_similarity.Hnsw.Sample.{
  sorter, apart, nothing, only_two, three, three-IsMutual, three-inside,
}
use vector_similarity.Hnsw.Delete.{remove_in_place}
use vector_similarity.Hnsw.Delete.Sound.{remove_in_place-IsMutual}
use vector_similarity.Hnsw.Swap.{swap_last_id}
use vector_similarity.Hnsw.Swap.Sound.{Moved, swap_last_id-Moved}
use vector_similarity.Hnsw.Heuristic.{Candidates, ids, get_neighbors_by_heuristic2, select}
use vector_similarity.Hnsw.Connect.{mutually_connect_new_element}
use vector_similarity.Hnsw.Connect.Each.{Fresh, accepted}
use vector_similarity.Hnsw.Connect.Insert.{
  mutually_connect_new_element-IsMutual, mutually_connect_new_element-links,
}
use vector_similarity.Hnsw.Repair.{
  keep_links, add_links, mutually_update_for_repaired_node, repair_candidates,
  repair_node_connections,
}
use vector_similarity.Hnsw.Repair.Sound.{repair_node_connections-IsMutual}
use vector_similarity.Hnsw.Visited.{Handler, get_node_tag, tag_node, get_fresh_tag}
use vector_similarity.Hnsw.Visited.Fresh.{IsHandler, Freshened, get_fresh_tag-Freshened}
use vector_similarity.Hnsw.Search.{
  search_loop, visit_link, insert_candidate, search_layer, greedy_search_level,
}
use vector_similarity.Hnsw.Search.Reach.{Reach}
use vector_similarity.Hnsw.Search.Answer.{Answer, search_layer-Answer, search_layer-Reach}
use vector_similarity.Hnsw.Search.Descent.{greedy_search_level-Descended}

-- the new node 3, whose nearest neighbor is full
abbrev found : Candidates
found = (3, 0) ∷ (1, 2) ∷ []

found-Fresh : Fresh 3 found three
found-Fresh = record {
  distinct = λ c. ground arith;
  others = refl;
  outgoing = λ c h. refl;
  ingoing = λ c h. ground (arith, h);
}

mutually_connect_new_element-IsMutual_example :
    (closest : ℕ) × (g' : Layer) × (mutually_connect_new_element apart sorter nothing 2 2 3 found
        three
      ≡ some (closest, g'))
    × (0 < count closest (ids found))
    × IsMutual 2 g'
mutually_connect_new_element-IsMutual_example =
    mutually_connect_new_element-IsMutual apart sorter nothing 2 2 3 found three (omega arith)
      (omega arith) three-IsMutual refl found-Fresh

mutually_connect_new_element-links_example :
    (closest : ℕ) × (g' : Layer) × (mutually_connect_new_element apart sorter nothing 2 2 3 found
        three
      ≡ some (closest, g'))
    × ((g' 3).links ≡ accepted nothing 3 (get_neighbors_by_heuristic2 apart sorter 2 found).0)
mutually_connect_new_element-links_example =
    mutually_connect_new_element-links apart sorter nothing 2 2 3 found three (omega arith)
      (omega arith) (omega arith) three-IsMutual refl found-Fresh

repair_node_connections-IsMutual_example :
    IsMutual 2 (repair_node_connections apart sorter only_two nothing 2 1 three)
    × ((v : ℕ)
        → 0 < edges (repair_node_connections apart sorter only_two nothing 2 1 three) 1 v
        → only_two v ≡ false)
repair_node_connections-IsMutual_example =
    repair_node_connections-IsMutual apart sorter only_two nothing 2 1 three three-IsMutual

-- the links of node 1 after the repair, without the deleted node 2
repair_run : (repair_node_connections apart sorter only_two nothing 2 1 three 1).links ≡ 0 ∷ []
unfolding repair_node_connections repair_candidates keep_links add_links
    mutually_update_for_repaired_node mutually_remove_neighbor track_new_link remove swap_remove
    get_neighbors_by_heuristic2 select get_back
repair_run = refl

remove_in_place-IsMutual_example :
    (g' : Layer) × (remove_in_place apart sorter nothing 2 0 three ≡ some g')
    × IsMutual 2 g'
    × ((u : ℕ) → (count 0 (g' u).links ≡ 0) × (count 0 (g' u).incoming ≡ 0))
remove_in_place-IsMutual_example =
    remove_in_place-IsMutual apart sorter nothing 2 0 three three-IsMutual

-- the id 3 is not in the layer
three-free : (u : ℕ) → (count 3 (three u).links ≡ 0) × (count 3 (three u).incoming ≡ 0)
three-free zero = (refl, refl)
three-free (suc zero) = (refl, refl)
three-free (suc (suc zero)) = (refl, refl)
three-free (suc (suc (suc u))) = (refl, refl)

swap_last_id-Moved_example :
    (g' : Layer) × (swap_last_id 2 3 three ≡ some g') × Moved 2 3 2 three g'
swap_last_id-Moved_example =
    swap_last_id-Moved 2 3 2 three three-IsMutual (λ q. absurd (omega (arith, q))) three-free

-- the old entry point is 0, on the levels 0 and 1, as 2 is, which is marked as deleted
abbrev tops : List ℕ
tops = 1 ∷ 0 ∷ 1 ∷ []

abbrev old_links : ℕ → List ℕ
old_links zero = 1 ∷ 2 ∷ []
old_links (suc l) = 2 ∷ []

old_links-LinksReach : LinksReach only_two nothing 0 tops old_links 1
old_links-LinksReach zero zero le h = cc
old_links-LinksReach zero (suc zero) le h = (λ q. absurd (omega (arith, q)), (0, refl, omega arith))
old_links-LinksReach zero (suc (suc zero)) le h =
    (λ q. absurd (omega (arith, q)), (1, refl, omega arith))
old_links-LinksReach zero (suc (suc (suc x))) le h = absurd (ground (arith, h))
old_links-LinksReach (suc l) zero le h = cc
old_links-LinksReach (suc l) (suc zero) le h = cc
old_links-LinksReach (suc l) (suc (suc zero)) le h =
    (λ q. absurd (omega (arith, q)), (1, refl, omega (arith, le)))
old_links-LinksReach (suc l) (suc (suc (suc x))) le h = absurd (ground (arith, h))

tops-NoHigher : NoHigher only_two nothing 0 tops old_links 1
tops-NoHigher zero top (e, _, _) = ground (arith, e)
tops-NoHigher (suc zero) top (e, _, _) = ground (arith, e)
tops-NoHigher (suc (suc zero)) top (e, _, _) = ground (arith, e)
tops-NoHigher (suc (suc (suc x))) top (e, _, _) = cc

replace_entry_point-IsHighest_example :
    IsHighest only_two nothing 0 tops old_links
      (replace_entry_point only_two nothing 0 tops old_links 1)
replace_entry_point-IsHighest_example =
    replace_entry_point-IsHighest only_two nothing 0 tops old_links 1 old_links-LinksReach
      tops-NoHigher
