-- ===== src/Bfs/Pull.antt =====
-- `bfs_pull` of src/bfs.cpp. `NB_NODES` is the argument `nb_nodes`; the cells of the two new arrays are
-- arguments, since `malloc` leaves them as they are.
pub mod Nodes
pub mod Rounds
pub mod Correct
use graph_benchmark.Base.{
  ℕ, zero, suc, ◌+◌, ◌-◌, Bool, true, false, List, [], ◌∷◌, ltb, ◌==◌, if◌then◌else◌, get_or, set,
  u32, u64, replicate,
}
use graph_benchmark.Graph.{Graph}
use graph_benchmark.Parallel.{parallel_for}

-- The local variables of a run of the body: the node, and the cells of its row that are left.
pub record Cursor : Type 0 where
  pub dst : ℕ
  pub beg : ℕ
  pub end : ℕ

-- Where a run of the body stands: before its test of `visited[dst]`, at the head of the inner loop,
-- before the stores to `visited[dst]`, to `in_frontier_next[dst]` and to `cont`, or at its end.
pub data Pull : Type 0 where
  enter : (dst : ℕ) → Pull
  look : Cursor → Pull
  mark : (dst : ℕ) → Pull
  enlist : (dst : ℕ) → Pull
  raise : (dst : ℕ) → Pull
  pulled : (dst : ℕ) → Pull

pub record PullState : Type 0 where
  pub visited : List ℕ
  pub in_frontier : List Bool
  pub in_frontier_next : List Bool
  pub cont : Bool
  pub iterations : ℕ

-- One access to shared memory. A run that has found no neighbour has `local_cont` false and does not
-- store to `cont`.
unfoldable pub pull_step : Graph → Pull → PullState → Pull × PullState
pull_step g (enter dst) m = (
  if get_or m.visited dst 0 == 0
      then look (record {
        dst = dst;
        beg = get_or g.in_edge_offsets dst 0;
        end = get_or g.in_edge_offsets (dst + 1) 0;
      })
      else pulled dst,
  m,
)
pull_step g (look c) m = (
  if ltb c.beg c.end
      then (if get_or m.in_frontier (get_or g.in_edges c.beg 0) false
          then mark c.dst
          else look (record c { beg = c.beg + 1 }))
      else pulled c.dst,
  m,
)
pull_step g (mark dst) m = (enlist dst, record m { visited = set m.visited dst 1 })
pull_step g (enlist dst) m =
    (raise dst, record m { in_frontier_next = set m.in_frontier_next dst true })
pull_step g (raise dst) m = (pulled dst, record m { cont = true })
pull_step g (pulled dst) m = (pulled dst, m)

-- The steps left to a task that runs alone.
abbrev pub pull_budget : Graph → Pull → ℕ
pull_budget g (enter dst) =
    get_or g.in_edge_offsets (dst + 1) 0 - get_or g.in_edge_offsets dst 0 + 5
pull_budget g (look c) = c.end - c.beg + 4
pull_budget g (mark dst) = 3
pull_budget g (enlist dst) = 2
pull_budget g (raise dst) = 1
pull_budget g (pulled dst) = 0

-- The runs of the body for the indices from `i` on, `n` of them; `uint32_t dst = i`.
unfoldable pub pullers : ℕ → ℕ → List Pull
pullers i zero = []
pullers i (suc n) = enter (u32 i) ∷ pullers (i + 1) n

-- One round of the `do` loop: the frontier is cleared by `memset` and the two arrays are swapped.
unfoldable pub pull_round : Graph → ℕ → List ℕ → PullState → PullState
pull_round g nb_nodes schedule s =
    let m =
      (parallel_for (pull_step g) (pull_budget g) schedule (pullers 0 nb_nodes)
        (record s { cont = false; iterations = u64 (s.iterations + 1) })).1 in
    record m { in_frontier = m.in_frontier_next; in_frontier_next = replicate nb_nodes false }

pub data PullOutcome : Type 0 where
  finished : PullState → PullOutcome
  out_of_fuel : PullOutcome

-- The `do` loop; round `k` of it runs as `schedules k` says.
unfoldable pub pull_loop : Graph → ℕ → (ℕ → List ℕ) → ℕ → ℕ → PullState → PullOutcome
pull_loop g nb_nodes schedules zero k s = out_of_fuel
pull_loop g nb_nodes schedules (suc fuel) k s =
    let s' = pull_round g nb_nodes (schedules k) s in
    let rest = pull_loop g nb_nodes schedules fuel (k + 1) s' in
    if s'.cont then rest else finished s'

-- `bfs_pull` on a `visited` array that `bfs_hub` has cleared.
unfoldable pub bfs_pull :
    Graph → ℕ → List Bool → List Bool → (ℕ → List ℕ) → List ℕ → ℕ → PullOutcome
bfs_pull g nb_nodes frontier_cells next_cells schedules visited start =
    pull_loop g nb_nodes schedules (nb_nodes + 1) 0 (record {
      visited = set visited start 1;
      in_frontier = set frontier_cells start true;
      in_frontier_next = next_cells;
      cont = false;
      iterations = 0;
    })
