-- ===== src/Bfs/Push.antt =====
-- `bfs_push` of src/bfs.cpp. `NB_NODES` and `THREADS` are the arguments `nb_nodes` and `threads`. The
-- cells of a new array are an argument, since `malloc` leaves them as they are.
pub mod Level
pub mod Steps
pub mod Shares
pub mod Slots
pub mod Claims
pub mod Pushes
pub mod Start
pub mod Rounds
pub mod Distance
pub mod First
pub mod Correct
use graph_benchmark.Base.{
  ℕ, zero, suc, ◌+◌, ◌-◌, ◌*◌, ◌%◌, Bool, true, false, List, [], ◌∷◌, map, ltb, ◌==◌, if◌then◌else◌,
  get_or, set, modify, total, u64, count, range_from, ◌++◌, ◌≡◌, ◌≤◌,
}
use graph_benchmark.Graph.{Graph}
use graph_benchmark.Parallel.{parallel_for}
use graph_benchmark.Buffer.{
  ThreadBuffer, init, clear, size, at, push, store_entry, count_entry, transfer,
}

-- The local variables of a run of the body: the index of its thread's buffer, the node, and the cells
-- of its row that are left.
pub record Cursor : Type 0 where
  pub slot : ℕ
  pub src : ℕ
  pub beg : ℕ
  pub end : ℕ

-- Where a run of the body stands: at the loop's head, before its compare-and-swap on `visited[dst]`,
-- before the two accesses of the push of the node that it has won (the write of the buffer's next cell,
-- and `next++`), or at its end.
pub data Explore : Type 0 where
  scan : Cursor → Explore
  claim : Cursor → (dst : ℕ) → Explore
  won : Cursor → (dst : ℕ) → Explore
  stored : Cursor → (dst : ℕ) → Explore
  explored : Cursor → Explore

pub record Shared : Type 0 where
  pub visited : List ℕ
  pub buffers : List ThreadBuffer

-- `beg++`
abbrev pub next_edge : Cursor → Cursor
next_edge c = record c { beg = c.beg + 1 }

-- One access to shared memory: the test of `visited[dst]`, the compare-and-swap, the write of the
-- buffer's next cell, or the increment of `next`. Nothing guards the buffer.
unfoldable pub explore_step : Graph → Explore → Shared → Explore × Shared
explore_step g (scan c) m =
    let dst = get_or g.out_edges c.beg 0 in
    (
      if ltb c.beg c.end
          then (if get_or m.visited dst 0 == 0 then claim c dst else scan (next_edge c))
          else explored c,
      m,
    )
explore_step g (claim c dst) m =
    if get_or m.visited dst 0 == 0
    then (won c dst, record m { visited = set m.visited dst 1 })
    else (scan (next_edge c), m)
explore_step g (won c dst) m =
    (stored c dst, record m { buffers = modify m.buffers c.slot (λ b. store_entry b dst) })
explore_step g (stored c dst) m =
    (scan (next_edge c), record m { buffers = modify m.buffers c.slot count_entry })
explore_step g (explored c) m = (explored c, m)

-- The steps left to a run of the body that is alone.
abbrev pub explore_budget : Explore → ℕ
explore_budget (scan c) = 4 * (c.end - c.beg) + 1
explore_budget (claim c dst) = 4 * (c.end - (c.beg + 1)) + 4
explore_budget (won c dst) = 4 * (c.end - (c.beg + 1)) + 3
explore_budget (stored c dst) = 4 * (c.end - (c.beg + 1)) + 2
explore_budget (explored c) = 0

-- A thread of the arena: `gettid() % THREADS`, and its runs of the body, one after the other.
pub record Worker : Type 0 where
  pub slot : ℕ
  pub runs : List Explore

-- The first run that has not ended makes a step.
unfoldable pub move_first : Graph → List Explore → Shared → List Explore × Shared
move_first g [] m = ([], m)
move_first g (explored c ∷ ts) m = let (ts', m') = move_first g ts m in (explored c ∷ ts', m')
move_first g (scan c ∷ ts) m = let (t', m') = explore_step g (scan c) m in (t' ∷ ts, m')
move_first g (claim c dst ∷ ts) m = let (t', m') = explore_step g (claim c dst) m in (t' ∷ ts, m')
move_first g (won c dst ∷ ts) m = let (t', m') = explore_step g (won c dst) m in (t' ∷ ts, m')
move_first g (stored c dst ∷ ts) m = let (t', m') = explore_step g (stored c dst) m in (t' ∷ ts, m')

unfoldable pub worker_step : Graph → Worker → Shared → Worker × Shared
worker_step g w m = let (runs', m') = move_first g w.runs m in (record w { runs = runs' }, m')

abbrev pub worker_budget : Worker → ℕ
worker_budget w = total explore_budget w.runs

-- A thread's id, and the indices of the range that it is given, in its order.
pub record Share : Type 0 where
  pub thread : ℕ
  pub indices : List ℕ

-- How a parallel loop runs: the threads' shares of the range `0 .. n - 1`, and the interleaving.
pub record Round : Type 0 where
  pub assign : (n : ℕ) → List Share
  pub schedule : List ℕ

-- The runs of the body for a list of indices, on the buffer `slot`.
unfoldable pub explorers : Graph → ℕ → ThreadBuffer → List ℕ → List Explore
explorers g slot frontier [] = []
explorers g slot frontier (i ∷ is) =
    let src = at frontier i in
    scan (record {
      slot = slot;
      src = src;
      beg = get_or g.out_edge_offsets src 0;
      end = get_or g.out_edge_offsets (src + 1) 0;
    })
    ∷ explorers g slot frontier is

unfoldable pub workers : Graph → ℕ → ThreadBuffer → List Share → List Worker
workers g threads frontier [] = []
workers g threads frontier (s ∷ shares) =
    let slot = s.thread % threads in
    record { slot = slot; runs = explorers g slot frontier s.indices }
    ∷ workers g threads frontier shares

abbrev pub slot_of : ℕ → Share → ℕ
slot_of threads s = s.thread % threads

abbrev pub indices_of : List Share → List ℕ
indices_of [] = []
indices_of (s ∷ shares) = s.indices ++ indices_of shares

-- What `parallel_for` does, each index of the range is run once, and what the source relies on: no two
-- threads that run at once have the same `gettid() % THREADS`.
pub record IsSound (threads : ℕ) (round : Round) : Type 0 where
  pub covers : (n x : ℕ) → count x (indices_of (round.assign n)) ≡ count x (range_from 0 n)
  pub apart : (n s : ℕ) → count s (map (slot_of threads) (round.assign n)) ≤ 1

-- `for(i = 0; i < THREADS; i++) buffers[i].transfer(frontier)`
unfoldable pub collect : List ThreadBuffer → ThreadBuffer → List ThreadBuffer × ThreadBuffer
collect [] frontier = ([], frontier)
collect (b ∷ bs) frontier =
    let (b', frontier') = transfer b frontier in
    let (bs', frontier'') = collect bs frontier' in (b' ∷ bs', frontier'')

pub record PushState : Type 0 where
  pub frontier : ThreadBuffer
  pub shared : Shared
  pub iterations : ℕ

-- One round of the `while` loop.
unfoldable pub push_round : Graph → ℕ → Round → PushState → PushState
push_round g threads round s =
    let to_process = size s.frontier in
    let tasks = workers g threads s.frontier (round.assign to_process) in
    let m = (parallel_for (worker_step g) worker_budget round.schedule tasks s.shared).1 in
    let (buffers, frontier) = collect m.buffers (clear s.frontier) in
    record {
      frontier = frontier;
      shared = record m { buffers = buffers };
      iterations = u64 (s.iterations + 1);
    }

pub data Outcome : Type 0 where
  finished : PushState → Outcome
  out_of_fuel : Outcome

-- The `while` loop; round `k` of it runs as `rounds k` says.
unfoldable pub push_loop : Graph → ℕ → (ℕ → Round) → ℕ → ℕ → PushState → Outcome
push_loop g threads rounds zero k s = if size s.frontier == 0 then finished s else out_of_fuel
push_loop g threads rounds (suc fuel) k s = elim (size s.frontier == 0) [
  | true ↦ finished s
  | false ↦ push_loop g threads rounds fuel (k + 1) (push_round g threads (rounds k) s)
]

-- `bfs_push` on a `visited` array that `bfs_hub` has cleared.
unfoldable pub bfs_push :
    Graph → ℕ → ℕ → List ℕ → List (List ℕ) → (ℕ → Round) → List ℕ → ℕ → Outcome
bfs_push g nb_nodes threads frontier_cells buffer_cells rounds visited start =
    push_loop g threads rounds (nb_nodes + 1) 0 (record {
      frontier = push (init nb_nodes frontier_cells) start;
      shared = record { visited = set visited start 1; buffers = map (init nb_nodes) buffer_cells };
      iterations = 0;
    })

-- The number that `bfs_push` prints: the sum of the first `NB_NODES` cells.
unfoldable pub visited_sum : ℕ → ℕ → List ℕ → ℕ
visited_sum zero v visited = v
visited_sum (suc n) v [] = v
visited_sum (suc n) v (x ∷ visited) = visited_sum n (u64 (v + x)) visited
