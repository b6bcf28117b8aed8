-- ===== src/Tests/PullTests.antt =====
-- Runs of `bfs_pull` of src/bfs.cpp, and its theorems at them.
use graph_benchmark.Base.{
  ℕ, zero, suc, ◌+◌, ◌<◌, ◌≡◌, ◌≤◌, refl, arith, List, [], ◌∷◌, Bool, true, false, some, replicate,
  get_or, get_or-replicate,
}
use graph_benchmark.Graph.{Graph}
use graph_benchmark.Parallel.{parallel_for, run, drain, advance}
use graph_benchmark.Loader.{build_graph}
use graph_benchmark.Bfs.{IsInEdge, ReachIn}
use graph_benchmark.Bfs.Push.{PushState, Outcome, bfs_push}
use graph_benchmark.Bfs.Pull.{
  PullState, PullOutcome, finished, out_of_fuel, bfs_pull, pull_loop, pull_round, pull_step,
  pullers,
}
use graph_benchmark.Bfs.Pull.Correct.{IsCleared, IsInside, bfs_pull-reaches}
use graph_benchmark.Bfs.Loaded.{Connected}
use graph_benchmark.Bfs.LoadedPull.{load_and_pull, bfs_push-agrees-bfs_pull}
use graph_benchmark.Tests.Data.{
  raw, fresh, edges, schedule, rounds, buffer_cells, fresh-IsBlank, edges-IsSmall, reversed-IsSmall,
  cells-IsAllocated, rounds-IsSound, sample,
}

-- The incoming rows of the input of `Tests.Data`.
abbrev pub sample_in : Graph
sample_in = record sample {
  in_edges = 0 ∷ 1 ∷ 0 ∷ 0 ∷ [];
  in_edge_offsets = 0 ∷ 0 ∷ 1 ∷ 4 ∷ 4 ∷ [];
}

abbrev pub off : List Bool
off = replicate 4 false

pub off-IsCleared : IsCleared 4 off off
off-IsCleared = record {
  few = omega arith;
  frontier_size = refl;
  next_size = refl;
  frontier_clear = λ x. get_or-replicate 4 x false;
  next_clear = λ x. get_or-replicate 4 x false;
}

sample_in-IsInside : IsInside 4 sample_in
sample_in-IsInside = record { offsets = omega arith; rows = rows; sources = sources }
  where
    rows : (x : ℕ) → x < 4 → get_or sample_in.in_edge_offsets (x + 1) 0 ≤ 4
    rows zero h = omega arith
    rows (suc zero) h = omega arith
    rows (suc (suc zero)) h = omega arith
    rows (suc (suc (suc zero))) h = omega arith
    rows (suc (suc (suc (suc x)))) h = absurd (omega arith)

    sources : (u x : ℕ) → x < 4 → IsInEdge sample_in u x → u < 4
    sources u x h (zero, low, high, e) = omega arith
    sources u x h (suc zero, low, high, e) = omega arith
    sources u x h (suc (suc zero), low, high, e) = omega arith
    sources u x h (suc (suc (suc zero)), low, high, e) = omega arith
    sources u x h (suc (suc (suc (suc p))), low, high, e) = omega arith

visited_of : PullOutcome → List ℕ
visited_of (finished s) = s.visited
visited_of out_of_fuel = []

-- Node 3 is not visited.
bfs_pull-runs :
    visited_of (bfs_pull sample_in 4 off off (λ _. schedule) (replicate 4 0) 0) ≡ 1 ∷ 1 ∷ 1 ∷ 0 ∷ []
unfolding visited_of bfs_pull pull_loop pull_round pull_step pullers parallel_for run drain advance
bfs_pull-runs = refl

bfs_pull-reaches_example :
    (s : PullState) × (bfs_pull sample_in 4 off off (λ _. schedule) (replicate 4 0) 0 ≡ finished s)
    × ((x : ℕ)
        → (get_or s.visited x 0 ≡ 1 → ReachIn sample_in 4 0 x)
          × (ReachIn sample_in 4 0 x → get_or s.visited x 0 ≡ 1))
    × ((x : ℕ) → get_or s.visited x 0 ≤ 1)
bfs_pull-reaches_example =
    bfs_pull-reaches sample_in 4 0 off off sample_in-IsInside off-IsCleared (omega arith)
      (λ _. schedule)

load_and_pull_example :
    (g : Graph) × (s : PullState) × (build_graph true 4 raw fresh schedule schedule edges ≡ some g)
    × (bfs_pull g 4 off off (λ _. schedule) (replicate 4 0) 0 ≡ finished s)
    × ((x : ℕ)
        → (get_or s.visited x 0 ≡ 1 → Connected edges 0 x)
          × (Connected edges 0 x → get_or s.visited x 0 ≡ 1))
load_and_pull_example =
    load_and_pull 4 raw fresh schedule schedule edges 0 (λ _. schedule) off off fresh-IsBlank
      edges-IsSmall reversed-IsSmall off-IsCleared (omega arith)

bfs_push-agrees-bfs_pull_example :
    (g : Graph) × (s : PushState) × (p : PullState) × (build_graph true 4 raw fresh schedule
        schedule edges
      ≡ some g)
    × (bfs_push g 4 2 (replicate 4 9) buffer_cells rounds (replicate 4 0) 0 ≡ Outcome.finished s)
    × (bfs_pull g 4 off off (λ _. schedule) (replicate 4 0) 0 ≡ finished p)
    × ((x : ℕ) → get_or s.shared.visited x 0 ≡ get_or p.visited x 0)
bfs_push-agrees-bfs_pull_example =
    bfs_push-agrees-bfs_pull 4 raw fresh schedule schedule edges 2 0 rounds (replicate 4 9)
      buffer_cells (λ _. schedule) off off fresh-IsBlank edges-IsSmall reversed-IsSmall
      cells-IsAllocated rounds-IsSound off-IsCleared (omega arith)
