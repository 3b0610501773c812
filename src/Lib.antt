-- ===== src/Lib.antt =====
-- VectorSimilarity: a library of vector indexes. An index keeps blobs (vectors) under labels and
-- answers which stored vectors are closest to a query.
--
-- Paths are from the root of the repository. `VecSim` is src/VecSim.
--
-- The parts, and the files that model them:
--   Base          names shared by all: lists, tests, `Option` as the monad of code that may fault,
--                 and `Dict`, an association list for std::unordered_map
--   Containers    VecSim/containers: the raw container interface (Raw), DataBlocksContainer
--                 (Blocks, with its contents in Flat, its blocks in Packed and Last, its iterator
--                 in Iteration and the interface filled in Container) and the containers of
--                 range results (Results, Results/Lowest)
--   Query         VecSim/query_result_definitions.h and the max_priority_queue of
--                 VecSim/utils/vecsim_stl.h (Heap, ordered by Order)
--   BruteForce    VecSim/algorithms/brute_force/brute_force.h: the state of the flat index, the
--                 growth and shrinking of its metadata (Capacity), appendVector (Append) and
--                 removeVector (Remove); brute_force_single.h (Single) with the label lookup as an
--                 inverse of the labels (Inverse, Views), the invariant (Store), the refinement to a
--                 map (Refinement), histories of calls (History) and the map of moved ids (Swaps);
--                 brute_force_multi.h (Multi) with the live ids of a label in the loop that deletes
--                 them (Live, Round), what it refines (Refinement, Deletion, History), the map of
--                 moved ids (Moves), the deletion of one vector (ById) and the distance from a label
--                 (Distance); topKQuery and rangeQuery (Search, Search/TopK, Search/Range)
--   Hnsw          VecSim/algorithms/hnsw: the links of a node (Links, of graph_data.h), the layer of
--                 one level (Layer) with its sound states (Tracked); of hnsw.h the choice of
--                 neighbors (Heuristic, a closest one in Heuristic/Least), connecting a new element (Connect, with its loop in
--                 Connect/Each), inserting it on all its levels (Insertion, one level in
--                 Insertion/Level, the way down in Insertion/Way), repairing a node after a deletion (Repair), deletion in place
--                 (Delete), the swap of the last id with a removed one (Swap), the new entry point after
--                 the deletion of one (Entry), the search of a level and the greedy descent (Search: its
--                 states in Scans, one node in Visit, the links of one in Step, the loop in Expand and
--                 Whole, a search in Run; Keeps is on the descent of an insertion), the range search
--                 (Range: its states in State, the visit of links in Visit, the loop in Loop and a
--                 search in Within); the tags of visited nodes of visited_nodes_handler.cpp (Visited); saving an
--                 index (Serializer) and loading the file (Serializer/Load), of
--                 hnsw_serializer_impl.h, with the round trip of numbers (Bytes), graph data (Graph),
--                 vectors (Vectors), labels and flags (MetaData) and fields (Fields)
--   Spaces        VecSim/spaces: the choice of a kernel by L2_space.cpp (L2) and IP_space.cpp (Ip,
--                 Cosine), and by spaces.cpp for a type and metric (Dispatch); Usable says what a
--                 kernel needs of the build, the CPU and the vectors
--   Params        VecSimIndex_ResolveParams of VecSim/vec_sim.cpp, with the checks of values of
--                 VecSim/utils/vec_utils.cpp (Values); Legal and Twice are about what it accepts
--   Utils         the merge of two lists of results of VecSim/utils/query_result_utils.h (Merge), its
--                 comparison (Merge/Compare) and the union that it returns (Merge/Union), and the filter
--                 by id (Filter)
--
-- How they interact: an index stores blobs through the raw container interface. The modules of
-- BruteForce take a RawContainer, and Containers/Blocks/Container fills it with
-- DataBlocksContainer. The label lookup of the derived index comes to the base as LabelLookup, the
-- queue and the container of results to the queries as PriorityQueue and ResultsContainer.
--
-- State and errors: an operation takes the state and returns the new state in `Option`; `none` is a
-- failed assert, an `at` out of range or a division by zero. The theorems on the operations say that
-- the result is `some`. The containers of the standard library and the preprocessing and distance
-- functions are parameters or their documented behaviour; a distance is a number, for the order of
-- the floating-point values other than NaN, and in the merge of results a multiple of some unit, in
-- which its tolerance is a number too (Utils/Merge). strtoll and strtod are parameters
-- (Params/Values). Numbers are not bounded: ids do not reach 2^32 and sizes not 2^64. Allocation
-- does not fail.
--
-- Files: a file is its bytes, on a machine that puts the lowest byte first; a stream that ends too
-- early is a failure. A double is its bits. Rounding a quotient of floats up is a parameter, taken to be
-- exact below 2^24.
--
-- HNSW: one level is a function from ids to links, the graph one from numbers to levels (that a node
-- has the level it is read at is not checked), and the functions run one after the other. The locks
-- are left out, and so is what another thread may do between two of them. `std::sort` is a parameter
-- with its laws, and so is the order of the array of a std::priority_queue. `dist` is the distance
-- of the stored vectors, `deleted` isMarkedDeleted, and `in_process` isInProcess. A score is a
-- natural number, so that one is never the negative that the queue of candidates stores: the queue
-- is ordered the other way round instead. Two asserts are left out: that a candidate of
-- greedySearchLevel is below the number of elements, and that removeAndSwap finds the edges of an
-- element that is marked as deleted.
--
-- Fuel: the loop over the iterator has it (Containers/Blocks/Iteration), one step more than there are
-- elements; the searches of a level have one step more than there are nodes, as each is a candidate at
-- most once; the greedy descent has one step more than its first distance, as each round lowers
-- it. The merge of two lists of results has one
-- step more than both have results. Each is proved to be enough. All other loops are structural.
--
-- Not modelled: storing a new element in HNSW, its labels and its topKQuery, SVS and tiered indexes, batch
-- iterators, the factories but for loading a file, the SIMD kernels, the bindings, and memory
-- accounting.
pub mod Base
pub mod Containers
pub mod Query
pub mod BruteForce
pub mod Hnsw
pub mod Spaces
pub mod Params
pub mod Utils
