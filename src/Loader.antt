-- ===== src/Loader.antt =====
-- src/loader.cpp: a graph in compressed rows from a list of edges. `NB_NODES` is the argument
-- `nb_nodes`; `NB_EDGES` is the number of edges read. `none` is a process that `die` or `assert` ended.
pub mod Degrees
pub mod Offsets
pub mod Filling
pub mod Rows
pub mod Correct
pub mod Input
pub mod Output
use graph_benchmark.Base.{
  ℕ, zero, suc, ◌+◌, List, [], ◌∷◌, map, Bool, Option, none, some, if◌then◌else◌, ◌==◌, get_or, set,
  length, replicate, u32, u64, ◌>>=◌,
}
use graph_benchmark.Graph.{Edge, Graph}
use graph_benchmark.Parallel.{parallel_for}

-- What `graph_malloc` finds in the memory that it hands out: `malloc` does not clear it.
pub record Fresh : Type 0 where
  pub out_edge_offsets : List ℕ
  pub in_edge_offsets : List ℕ
  pub out_edges : List ℕ
  pub in_edges : List ℕ

-- `a[i]++` and `__sync_fetch_and_add(&a[i], 1)` on an array of `size_t`.
unfoldable pub increment : List ℕ → ℕ → List ℕ
increment a i = set a i (u64 (get_or a i 0 + 1))

-- One round of `count_degree_0_sequential`.
unfoldable pub count_edge : Graph → Edge → Graph
count_edge g e =
    let g' = record g { out_edge_offsets = increment g.out_edge_offsets e.src } in
    if g.symmetric then record g' { in_edge_offsets = increment g.in_edge_offsets e.dst } else g'

unfoldable pub count_degree_0_sequential : Graph → List Edge → Graph
count_degree_0_sequential g [] = g
count_degree_0_sequential g (e ∷ es) = count_degree_0_sequential (count_edge g e) es

-- Where a run of the body of `count_degree_1_atomic` stands.
pub data Count : Type 0 where
  count_out : Edge → Count
  count_in : Edge → Count
  counted : Count

unfoldable pub count_step : Count → Graph → Count × Graph
count_step (count_out e) g = (
  if g.symmetric then count_in e else counted,
  record g { out_edge_offsets = increment g.out_edge_offsets e.src },
)
count_step (count_in e) g =
    (counted, record g { in_edge_offsets = increment g.in_edge_offsets e.dst })
count_step counted g = (counted, g)

abbrev pub count_budget : Count → ℕ
count_budget t = 2

unfoldable pub count_degree_1_atomic : List ℕ → Graph → List Edge → Graph
count_degree_1_atomic schedule g edges =
    (parallel_for count_step count_budget schedule (map count_out edges) g).1

-- The loop of `sum_degree` over the cells from `i` on, `n` rounds left: the cells, and `prev`.
unfoldable pub sum_loop : ℕ → ℕ → List ℕ → List ℕ × ℕ
sum_loop zero prev a = (a, prev)
sum_loop (suc n) prev [] = ([], prev)
sum_loop (suc n) prev (tmp ∷ a) =
    let (a', last) = sum_loop n (u64 (prev + tmp)) a in (prev ∷ a', last)

-- One of the two blocks of `sum_degree`, its assertion included.
unfoldable pub sum_offsets : ℕ → ℕ → List ℕ → Option (List ℕ)
sum_offsets nb_nodes nb_edges a =
    let (a', prev) = sum_loop nb_nodes 0 a in
    if prev == nb_edges then some (set a' nb_nodes prev) else none

unfoldable pub sum_degree : ℕ → ℕ → Graph → Option Graph
sum_degree nb_nodes nb_edges g = do
  out_offsets ← sum_offsets nb_nodes nb_edges g.out_edge_offsets
  let g' = record g { out_edge_offsets = out_offsets }
  if g.symmetric
      then (do
        in_offsets ← sum_offsets nb_nodes nb_edges g.in_edge_offsets
        some (record g' { in_edge_offsets = in_offsets }))
      else some g'

-- The `switch` of `count_degree`: any other option dies.
unfoldable pub count_by : ℕ → List ℕ → Graph → List Edge → Option Graph
count_by zero schedule g edges = some (count_degree_0_sequential g edges)
count_by (suc zero) schedule g edges = some (count_degree_1_atomic schedule g edges)
count_by (suc (suc opt)) schedule g edges = none

unfoldable pub count_degree : ℕ → Fresh → List ℕ → Graph → List Edge → ℕ → Option Graph
count_degree nb_nodes fresh schedule g edges opt = do
  let g' = record g { out_edge_offsets = fresh.out_edge_offsets }
  let g'' = (if g.symmetric then record g' { in_edge_offsets = fresh.in_edge_offsets } else g')
  counts ← count_by opt schedule g'' edges
  sum_degree nb_nodes (length edges) counts

-- The arrays that `create_edges` writes: `out_offsets` and `in_offsets` count the edges stored so far
-- in each row.
pub record Slots : Type 0 where
  pub out_offsets : List ℕ
  pub out_edges : List ℕ
  pub in_offsets : List ℕ
  pub in_edges : List ℕ

-- Where a run of the body of `create_edges` stands; `o` is the local variable.
pub data Fill : Type 0 where
  claim_out : Edge → Fill
  store_out : Edge → (o : ℕ) → Fill
  claim_in : Edge → Fill
  store_in : Edge → (o : ℕ) → Fill
  filled : Fill

unfoldable pub fill_step : Graph → Fill → Slots → Fill × Slots
fill_step g (claim_out e) s =
    let o = get_or s.out_offsets e.src 0 in
    (store_out e o, record s { out_offsets = set s.out_offsets e.src (u32 (o + 1)) })
fill_step g (store_out e o) s =
    let at_slot = u64 (get_or g.out_edge_offsets e.src 0 + o) in
    (
      if g.symmetric then claim_in e else filled,
      record s { out_edges = set s.out_edges at_slot e.dst },
    )
fill_step g (claim_in e) s =
    let o = get_or s.in_offsets e.dst 0 in
    (store_in e o, record s { in_offsets = set s.in_offsets e.dst (u32 (o + 1)) })
fill_step g (store_in e o) s =
    let at_slot = u64 (get_or g.in_edge_offsets e.dst 0 + o) in
    (filled, record s { in_edges = set s.in_edges at_slot e.src })
fill_step g filled s = (filled, s)

abbrev pub fill_budget : Fill → ℕ
fill_budget t = 4

-- The arrays when the parallel loop starts: the counters are cleared by `memset`.
abbrev pub blank_slots : ℕ → Fresh → Graph → Slots
blank_slots nb_nodes fresh g = record {
  out_offsets = replicate nb_nodes 0;
  out_edges = fresh.out_edges;
  in_offsets = replicate nb_nodes 0;
  in_edges = fresh.in_edges;
}

unfoldable pub create_edges : ℕ → Fresh → List ℕ → Graph → List Edge → Graph
create_edges nb_nodes fresh schedule g edges =
    let s =
      (parallel_for (fill_step g) fill_budget schedule (map claim_out edges)
        (blank_slots nb_nodes fresh g)).1 in
    let g' = record g { out_edges = s.out_edges } in
    if g.symmetric then record g' { in_edges = s.in_edges } else g'

-- `create_graph` behind the reading of the file. `raw` is the new `Graph`, and the two schedules
-- are those of the two parallel loops.
unfoldable pub build_graph : Bool → ℕ → Graph → Fresh → List ℕ → List ℕ → List Edge → Option Graph
build_graph symmetric nb_nodes raw fresh schedule schedule' edges = do
  let g = record raw { symmetric = symmetric; nb_nodes = nb_nodes; nb_edges = length edges }
  g' ← count_degree nb_nodes fresh schedule g edges 1
  some (create_edges nb_nodes fresh schedule' g' edges)
