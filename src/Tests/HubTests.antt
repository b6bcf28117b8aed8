-- ===== src/Tests/HubTests.antt =====
-- Runs of `bfs_pushpull` and `bfs_hub` of src/bfs.cpp, and their theorems at them.
use graph_benchmark.Base.{
  ℕ, pos, negsuc, ◌+◌, ◌≡◌, refl, arith, [], ◌∷◌, true, some, replicate, get_or, length,
}
use graph_benchmark.Graph.{Graph}
use graph_benchmark.Parallel.{parallel_for, run, drain, advance}
use graph_benchmark.Loader.{build_graph}
use graph_benchmark.Loader.Correct.{IsGraphOf, build_graph-IsGraphOf}
use graph_benchmark.Bfs.{ReachIn}
use graph_benchmark.Bfs.Pull.{PullState, finished, pull_loop, pull_round, pull_step, pullers}
use graph_benchmark.Bfs.PushPull.{
  Setting, visit_step, visitors, visit_round, switches, visit_loop, enter_step, enter_all,
  pull_phase, then_pull, bfs_pushpull,
}
use graph_benchmark.Bfs.PushPull.Correct.{bfs_pushpull-reaches}
use graph_benchmark.Bfs.Hub.{
  Execution, visited_flags, died, after_pull, search_by, after_search, after_launch, bfs_hub,
}
use graph_benchmark.Pebs.{launch_cache_collect, terminate_cache_collect}
use graph_benchmark.Bfs.Hub.Loaded.{Finds, IsStarted, IsMirrored-of_IsGraphOf, load_and_hub}
use graph_benchmark.Tests.Data.{
  raw, fresh, edges, schedule, rounds, buffer_cells, fresh-IsBlank, edges-IsSmall, reversed-IsSmall,
  cells-IsAllocated, rounds-IsSound,
}
use graph_benchmark.Tests.PullTests.{sample_in, off, off-IsCleared}

abbrev pub set_up : Setting
set_up = record {
  visiting = λ _. schedule;
  entries = 1 ∷ 0 ∷ [];
  pulling = λ _. schedule;
  frontier_cells = off;
  next_cells = off;
}

abbrev pub execution : Execution
execution = record {
  threads = 2;
  rounds = rounds;
  cells = replicate 4 9;
  buffer_cells = buffer_cells;
  set_up = set_up;
  collecting = record {
    init_ok = true;
    affinity_ok = λ core. true;
    create_ok = true;
    join_ok = true;
  };
}

pub execution-IsStarted : IsStarted execution
unfolding launch_cache_collect terminate_cache_collect
execution-IsStarted = record { launched = refl; joined = refl }

-- Node 3 is not visited.
bfs_hub-runs : bfs_hub sample_in 4 4 execution 0 (pos 2) ≡ visited_flags (1 ∷ 1 ∷ 1 ∷ 0 ∷ [])
unfolding bfs_hub launch_cache_collect terminate_cache_collect after_launch after_search search_by
    after_pull bfs_pushpull then_pull pull_phase visit_loop switches visit_round visitors visit_step
    enter_all enter_step pull_loop pull_round pull_step pullers parallel_for run drain advance
bfs_hub-runs = refl

abbrev loaded :
    (g : Graph) × (build_graph true 4 raw fresh schedule schedule edges ≡ some g)
    × IsGraphOf true 4 edges g
loaded =
    build_graph-IsGraphOf true 4 raw fresh schedule schedule edges fresh-IsBlank edges-IsSmall
      (λ _. reversed-IsSmall)

bfs_pushpull-reaches_example :
    (p : PullState) × (bfs_pushpull loaded.0 4 4 set_up (replicate 4 0) 0 ≡ finished p)
    × ((x : ℕ)
        → (get_or p.visited x 0 ≡ 1 → ReachIn loaded.0 4 0 x)
          × (ReachIn loaded.0 4 0 x → get_or p.visited x 0 ≡ 1))
bfs_pushpull-reaches_example =
    bfs_pushpull-reaches loaded.0 4 0 set_up
      (IsMirrored-of_IsGraphOf loaded.2 edges-IsSmall reversed-IsSmall) off-IsCleared (omega arith)
      4

load_and_hub_example :
    (g : Graph) × (build_graph true 4 raw fresh schedule schedule edges ≡ some g)
    × Finds edges 0 (bfs_hub g 4 (length edges) execution 0 (pos 0))
    × Finds edges 0 (bfs_hub g 4 (length edges) execution 0 (pos 1))
    × Finds edges 0 (bfs_hub g 4 (length edges) execution 0 (pos 2))
    × ((k : ℕ) → bfs_hub g 4 (length edges) execution 0 (pos (k + 3)) ≡ died)
    × ((k : ℕ) → bfs_hub g 4 (length edges) execution 0 (negsuc k) ≡ died)
load_and_hub_example =
    load_and_hub 4 raw fresh schedule schedule edges 0 execution fresh-IsBlank edges-IsSmall
      reversed-IsSmall cells-IsAllocated rounds-IsSound off-IsCleared execution-IsStarted
      (omega arith)
