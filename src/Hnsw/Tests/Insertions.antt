-- ===== src/Hnsw/Tests/Insertions.antt =====
-- Inserting a fourth element into a graph that has the same three on every level.
use mathlib.Core.List.Perm
use vector_similarity.Base.{ℕ, zero, suc, ◌≤◌, ◌≡◌, refl, Bool, [], ◌∷◌, some, arith, ◌==◌}
use vector_similarity.Hnsw.Tracked.{edges}
use vector_similarity.Hnsw.Sample.{apart, nothing, sorter, three, three-IsMutual, three-inside}
use vector_similarity.Hnsw.Visited.{Handler}
use vector_similarity.Hnsw.Visited.Fresh.{IsHandler}
use vector_similarity.Hnsw.Insertion.{Insertion, Levels, insert_element_to_graph}
use vector_similarity.Hnsw.Insertion.Level.{IsReady, bound}
use vector_similarity.Hnsw.Insertion.Sound.{Inserted, insert_element_to_graph-Sound}

abbrev only_three : ℕ → Bool
only_three i = i == 3

abbrev line : Insertion
line = record {
  dist = apart;
  sorter = sorter;
  query = apart 3;
  deleted = nothing;
  in_process = only_three;
  m = 2;
  m0 = 4;
  ef_construction = 3;
  max_score = 100;
  heap_order = λ h. h;
  heap_order-perm = Perm.refl;
}

abbrev levels : Levels
levels l = three

abbrev handler : Handler
handler = record { cur_tag = 7; elements_tags = 7 ∷ 0 ∷ 3 ∷ 0 ∷ [] }

handler-IsHandler : IsHandler handler
handler-IsHandler = record {
  below = (omega arith, (omega arith, (omega arith, (omega arith, tt))));
  wide = omega arith;
}

three-unlinked : (u : ℕ) → edges three u 3 ≡ 0
three-unlinked zero = refl
three-unlinked (suc zero) = refl
three-unlinked (suc (suc zero)) = refl
three-unlinked (suc (suc (suc u))) = refl

three-IsReady : (m : ℕ) → 2 ≤ m → IsReady m 4 3 three
three-IsReady m wide = record {
  sound = record {
    simple = three-IsMutual.simple;
    loopless = three-IsMutual.loopless;
    bounded = λ u. omega (arith, three-IsMutual.bounded u, wide);
    tracked = three-IsMutual.tracked;
  };
  blank = refl;
  unlinked = three-unlinked;
  inside = λ u v h. omega (arith, three-inside u v h);
}

levels-IsReady : (l : ℕ) → IsReady (bound line l) 4 3 (levels l)
levels-IsReady zero = three-IsReady 4 (omega arith)
levels-IsReady (suc l) = three-IsReady 2 (omega arith)

-- the element is on the levels 0 and 1, the graph has one more
insert_element_to_graph-Sound_example :
    (gs' : Levels) × (after : Handler) × (insert_element_to_graph line 3 1 0 2 levels handler
      ≡ some (gs', after))
    × Inserted line 3 1 0 2 levels gs'
    × IsHandler after
insert_element_to_graph-Sound_example =
    insert_element_to_graph-Sound line 4 3 (omega arith) (omega arith) (omega arith) 1 0 2 levels
      handler levels-IsReady (omega arith) (omega arith) handler-IsHandler refl
