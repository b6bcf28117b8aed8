-- ===== src/Bfs/PushPull.antt =====
-- `bfs_pushpull` of src/bfs.cpp. `NB_NODES` and `NB_EDGES` are the arguments `nb_nodes` and `nb_edges`.
-- A `concurrent_vector` is the list of its elements, and `push_back` is one step; `combinable` is the sum
-- of what the threads have added.
pub mod Level
pub mod Claims
pub mod Steps
pub mod Rounds
pub mod Listing
pub mod Correct
use graph_benchmark.Base.{
  ℕ, zero, suc, ◌+◌, ◌-◌, ◌*◌, ◌^◌, Bool, true, false, List, [], ◌∷◌, ◌++◌, ltb, ◌==◌,
  if◌then◌else◌, get_or, set, u64, length, map,
}
use graph_benchmark.Graph.{Graph}
use graph_benchmark.Parallel.{parallel_for}
use graph_benchmark.Bfs.Pull.{PullOutcome, pull_loop}

-- The local variables of a run of the body: the node, the cells of its row that are left, and the two
-- local counters.
pub record Cursor : Type 0 where
  pub src : ℕ
  pub beg : ℕ
  pub end : ℕ
  pub local_edges : ℕ
  pub local_explored : ℕ

-- At the loop's head, before the `push_back` of the node that was won, before each of the two additions
-- to the shared counters, and at the end.
pub data Visit : Type 0 where
  scan : Cursor → Visit
  won : Cursor → (dst : ℕ) → Visit
  report : Cursor → Visit
  account : Cursor → Visit
  visited_all : Cursor → Visit

pub record Shared : Type 0 where
  pub visited : List ℕ
  pub frontier_next : List ℕ
  pub edges_in_frontier : ℕ
  pub explored : ℕ

abbrev pub next_edge : Cursor → Cursor
next_edge c = record c { beg = c.beg + 1 }

-- One access to shared memory; the first is the compare-and-swap on `visited[dst]`.
unfoldable pub visit_step : Graph → Visit → Shared → Visit × Shared
visit_step g (scan c) m =
    let dst = get_or g.out_edges c.beg 0 in
    if ltb c.beg c.end
    then (if get_or m.visited dst 0 == 0
        then (won c dst, record m { visited = set m.visited dst 1 })
        else (scan (next_edge c), m))
    else (report c, m)
visit_step g (won c dst) m =
    let degree =
      u64 (get_or g.out_edge_offsets (dst + 1) 0 + 2 ^ 64 - get_or g.out_edge_offsets dst 0) in
    (
      scan (record (next_edge c) { local_edges = u64 (c.local_edges + degree) }),
      record m { frontier_next = m.frontier_next ++ dst ∷ [] },
    )
visit_step g (report c) m =
    (account c, record m { edges_in_frontier = u64 (m.edges_in_frontier + c.local_edges) })
visit_step g (account c) m =
    (visited_all c, record m { explored = u64 (m.explored + c.local_explored) })
visit_step g (visited_all c) m = (visited_all c, m)

-- The steps left to a task that runs alone.
abbrev pub visit_budget : Visit → ℕ
visit_budget (scan c) = 2 * (c.end - c.beg) + 3
visit_budget (won c dst) = 2 * (c.end - (c.beg + 1)) + 4
visit_budget (report c) = 2
visit_budget (account c) = 1
visit_budget (visited_all c) = 0

-- The runs of the body for the nodes of the frontier.
unfoldable pub visitors : Graph → List ℕ → List Visit
visitors g [] = []
visitors g (src ∷ frontier) =
    let beg = get_or g.out_edge_offsets src 0 in
    let end = get_or g.out_edge_offsets (src + 1) 0 in
    scan (record {
      src = src;
      beg = beg;
      end = end;
      local_edges = 0;
      local_explored = u64 (end + 2 ^ 64 - beg);
    })
    ∷ visitors g frontier

pub record VisitState : Type 0 where
  pub frontier : List ℕ
  pub shared : Shared

-- One round of the `while` loop behind its switch: the sum is cleared, and the vectors are swapped.
unfoldable pub visit_round : Graph → List ℕ → VisitState → VisitState
visit_round g schedule s =
    let m =
      (parallel_for (visit_step g) visit_budget schedule (visitors g s.frontier)
        (record s.shared { frontier_next = []; edges_in_frontier = 0 })).1 in
    record { frontier = m.frontier_next; shared = m }

-- `edges_in_frontier.combine(…) > unexplored`
unfoldable pub switches : ℕ → VisitState → Bool
switches nb_edges s = ltb (u64 (nb_edges + 2 ^ 64 - s.shared.explored)) s.shared.edges_in_frontier

pub data VisitOutcome : Type 0 where
  left : VisitState → VisitOutcome
  out_of_fuel : VisitOutcome

-- The `while` loop, which ends with an empty frontier or by the `goto`.
unfoldable pub visit_loop : Graph → ℕ → (ℕ → List ℕ) → ℕ → ℕ → VisitState → VisitOutcome
visit_loop g nb_edges schedules zero k s = out_of_fuel
visit_loop g nb_edges schedules (suc fuel) k s =
    let rest = visit_loop g nb_edges schedules fuel (k + 1) (visit_round g (schedules k) s) in
    if length s.frontier == 0 then left s else if switches nb_edges s then left s else rest

-- A run of the body of the loop that fills `in_frontier`: before its store and after it.
pub data Enter : Type 0 where
  entering : (node : ℕ) → Enter
  entered : (node : ℕ) → Enter

unfoldable pub enter_step : Enter → List Bool → Enter × List Bool
enter_step (entering node) a = (entered node, set a node true)
enter_step (entered node) a = (entered node, a)

abbrev pub enter_budget : Enter → ℕ
enter_budget (entering node) = 1
enter_budget (entered node) = 0

-- `in_frontier` behind that loop, from the cells that `malloc` found.
unfoldable pub enter_all : List ℕ → List ℕ → List Bool → List Bool
enter_all schedule frontier cells =
    (parallel_for enter_step enter_budget schedule (map entering frontier) cells).1

-- What an execution depends on: the interleavings of the loops, and the cells of the new arrays.
pub record Setting : Type 0 where
  pub visiting : ℕ → List ℕ
  pub entries : List ℕ
  pub pulling : ℕ → List ℕ
  pub frontier_cells : List Bool
  pub next_cells : List Bool

-- From the label `PULL` on.
unfoldable pub pull_phase : Graph → ℕ → Setting → VisitState → PullOutcome
pull_phase g nb_nodes set_up s = pull_loop g nb_nodes set_up.pulling (nb_nodes + 1) 0 (record {
  visited = s.shared.visited;
  in_frontier = enter_all set_up.entries s.frontier set_up.frontier_cells;
  in_frontier_next = set_up.next_cells;
  cont = false;
  iterations = 0;
})

unfoldable pub then_pull : Graph → ℕ → Setting → VisitOutcome → PullOutcome
then_pull g nb_nodes set_up (left s) = pull_phase g nb_nodes set_up s
then_pull g nb_nodes set_up out_of_fuel = PullOutcome.out_of_fuel

-- `bfs_pushpull` on a `visited` array that `bfs_hub` has cleared; an empty frontier falls through to
-- the pull phase too.
unfoldable pub bfs_pushpull : Graph → ℕ → ℕ → Setting → List ℕ → ℕ → PullOutcome
bfs_pushpull g nb_nodes nb_edges set_up visited start = then_pull g nb_nodes set_up (
    visit_loop g nb_edges set_up.visiting (nb_nodes + 2) 0 (record {
      frontier = start ∷ [];
      shared = record {
        visited = set visited start 1;
        frontier_next = [];
        edges_in_frontier = 0;
        explored = 0;
      };
    }))
