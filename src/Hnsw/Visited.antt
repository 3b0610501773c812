-- ===== src/Hnsw/Visited.antt =====
-- hnsw/visited_nodes_handler.h and .cpp: the tags of the nodes that a scan of the graph has visited,
-- and the pool of the handlers. A tag is a 16-bit integer. The mutex of the pool is left out.
pub mod Fresh
use vector_similarity.Base.{
  ℕ, suc, ◌+◌, ◌-◌, ◌%◌, Bool, true, false, List, [], ◌∷◌, ◌++◌, map, Option, some, none, length,
  get_elem?, set, drop_last, replicate, resize, ltb, ◌==◌, if◌then◌else◌, ◌>>=◌, ◌>>◌, assert,
}
use vector_similarity.Containers.Blocks.{get_back}

-- VisitedNodesHandler; `num_elements` is the number of the tags
pub record Handler : Type 0 where
  pub cur_tag : ℕ
  pub elements_tags : List ℕ

abbrev pub new_handler : ℕ → Handler
new_handler cap = record { cur_tag = 0; elements_tags = replicate cap 0 }

abbrev pub reset : Handler → Handler
reset h = record { cur_tag = 0; elements_tags = replicate (length h.elements_tags) 0 }

-- reallocation keeps the tags that fit, and the reset clears all
abbrev pub resize_handler : ℕ → Handler → Handler
resize_handler new_size h = reset (record h { elements_tags = resize h.elements_tags new_size 0 })

abbrev pub next_tag : ℕ → ℕ
next_tag t = suc t % 65536

-- the handler and its `cur_tag`
unfoldable pub get_fresh_tag : Handler → Handler × ℕ
get_fresh_tag h =
    let cur = next_tag h.cur_tag in
    let cleared = reset h in
    if cur == 0
    then (record cleared { cur_tag = next_tag 0 }, next_tag 0)
    else (record h { cur_tag = cur }, cur)

unfoldable pub tag_node : ℕ → ℕ → List ℕ → Option (List ℕ)
tag_node node tag tags = do assert (ltb node (length tags)); some (set tags node tag)

unfoldable pub get_node_tag : ℕ → List ℕ → Option ℕ
get_node_tag node tags = get_elem? tags node

-- VisitedNodesHandlerPool
pub record Pool : Type 0 where
  pub pool : List Handler
  pub num_elements : ℕ
  pub total_handlers_in_use : ℕ

abbrev pub new_pool : ℕ → Pool
new_pool cap = record { pool = []; num_elements = cap; total_handlers_in_use = 0 }

unfoldable pub get_available_handler : Pool → Handler × Pool
get_available_handler p = elim (get_back p.pool) [
  | none ↦ (
    new_handler p.num_elements,
    record p { total_handlers_in_use = suc p.total_handlers_in_use % 65536 },
  )
  | some h ↦ (h, record p { pool = drop_last p.pool })
]

abbrev pub return_handler : Handler → Pool → Pool
return_handler h p = record p { pool = p.pool ++ h ∷ [] }

unfoldable pub resize_pool : ℕ → Pool → Option Pool
resize_pool new_size p = do
  assert (p.total_handlers_in_use == length p.pool)
  some (record p { num_elements = new_size; pool = map (resize_handler new_size) p.pool })

abbrev pub clear_pool : Pool → Pool
clear_pool p = record p { pool = [] }
