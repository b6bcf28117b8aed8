-- ===== src/Tests/BfsTests.antt =====
-- Runs of src/bfs.cpp, and its theorems at them.
use graph_benchmark.Base.{
  ℕ, zero, suc, ◌+◌, ◌*◌, ◌≡◌, ◌<◌, ◌≤◌, refl, arith, List, [], ◌∷◌, true, some, replicate, get_or,
  count,
}
use graph_benchmark.Graph.{Graph}
use graph_benchmark.Parallel.{parallel_for, run, drain, advance}
use graph_benchmark.Buffer.{
  init, clear, size, at, push, store_entry, count_entry, copy_entries, transfer,
}
use graph_benchmark.Loader.{build_graph}
use graph_benchmark.Bfs.{HasTargets, Reach, Walk}
use graph_benchmark.Bfs.Push.{
  Share, Round, PushState, Outcome, finished, bfs_push, push_loop, push_round, workers, explorers,
  worker_step, move_first, explore_step, collect, visited_sum,
}
use graph_benchmark.Bfs.Push.First.{first_state}
use graph_benchmark.Bfs.Push.Distance.{IsListed, IsVisited, after}
use graph_benchmark.Bfs.Push.Correct.{bfs_push-reaches, push_rounds-distance}
use graph_benchmark.Bfs.Loaded.{Connected, load_and_search}
use graph_benchmark.Tests.Data.{
  raw, fresh, edges, schedule, rounds, buffer_cells, fresh-IsBlank, edges-IsSmall, reversed-IsSmall,
  cells-IsAllocated, rounds-IsSound, sample,
}

sample-HasTargets : HasTargets 4 sample
sample-HasTargets u x lt (zero, low, high, e) = omega arith
sample-HasTargets u x lt (suc zero, low, high, e) = omega arith
sample-HasTargets u x lt (suc (suc zero), low, high, e) = omega arith
sample-HasTargets u x lt (suc (suc (suc zero)), low, high, e) = omega arith
sample-HasTargets u x lt (suc (suc (suc (suc p))), low, high, e) = omega arith

visited_of : Outcome → List ℕ
visited_of (finished s) = s.shared.visited
visited_of Outcome.out_of_fuel = []

-- Node 3 is not visited.
bfs_push-runs :
    visited_of (bfs_push sample 4 2 (replicate 4 9) buffer_cells rounds (replicate 4 0) 0)
    ≡ 1 ∷ 1 ∷ 1 ∷ 0 ∷ []
unfolding visited_of bfs_push push_loop push_round workers explorers worker_step move_first
    explore_step collect parallel_for run drain advance init clear size at push store_entry
    count_entry copy_entries transfer
bfs_push-runs = refl

-- 0 → 1, 0 → 2, 1 → 3, 2 → 4 and 3 → 5.
abbrev tree : Graph
tree = record sample {
  nb_nodes = 6;
  nb_edges = 5;
  out_edges = 1 ∷ 2 ∷ 3 ∷ 4 ∷ 5 ∷ [];
  out_edge_offsets = 0 ∷ 2 ∷ 3 ∷ 4 ∷ 5 ∷ 5 ∷ 5 ∷ [];
}

-- A thread for each index, all of them with an odd number.
abbrev odd_threads : ℕ → ℕ → List Share
odd_threads i zero = []
odd_threads i (suc n) = record { thread = 2 * i + 1; indices = i ∷ [] } ∷ odd_threads (i + 1) n

abbrev colliding : ℕ → Round
colliding k = record { assign = odd_threads 0; schedule = 0 ∷ 0 ∷ 0 ∷ 1 ∷ 1 ∷ 1 ∷ 0 ∷ 1 ∷ [] }

-- Two threads with the same `gettid() % THREADS` write the same cell: node 3 is lost from the frontier,
-- and node 5 is not visited.
bfs_push-loses :
    visited_of
      (bfs_push tree 6 2 (replicate 6 0) (replicate 2 (replicate 6 0)) colliding (replicate 6 0) 0)
    ≡ 1 ∷ 1 ∷ 1 ∷ 1 ∷ 1 ∷ 0 ∷ []
unfolding visited_of bfs_push push_loop push_round workers explorers worker_step move_first
    explore_step collect parallel_for run drain advance init clear size at push store_entry
    count_entry copy_entries transfer
bfs_push-loses = refl

bfs_push-reaches_example :
    (s : PushState) × (bfs_push sample 4 2 (replicate 4 9) buffer_cells rounds (replicate 4 0) 0
      ≡ finished s)
    × ((x : ℕ) → (IsVisited s x → Reach sample 0 x) × (Reach sample 0 x → IsVisited s x))
    × ((x : ℕ) → get_or s.shared.visited x 0 ≤ 1)
    × (visited_sum 4 0 s.shared.visited ≡ count 1 s.shared.visited)
bfs_push-reaches_example =
    bfs_push-reaches sample 4 2 0 rounds (replicate 4 9) buffer_cells sample-HasTargets
      rounds-IsSound cells-IsAllocated (omega arith)

push_rounds-distance_example :
    (IsListed (after sample 2 rounds 0 1 (first_state 4 (replicate 4 9) buffer_cells 0)) 2
      → Walk sample 0 1 2 × ((j : ℕ) → j < 1 → ¬ Walk sample 0 j 2))
    × (Walk sample 0 1 2
        → ((j : ℕ) → j < 1 → ¬ Walk sample 0 j 2)
        → IsListed (after sample 2 rounds 0 1 (first_state 4 (replicate 4 9) buffer_cells 0)) 2)
    × (IsVisited (after sample 2 rounds 0 1 (first_state 4 (replicate 4 9) buffer_cells 0)) 2
        → (j : ℕ) × (j ≤ 1) × Walk sample 0 j 2)
    × ((j : ℕ)
        → j ≤ 1
        → Walk sample 0 j 2
        → IsVisited (after sample 2 rounds 0 1 (first_state 4 (replicate 4 9) buffer_cells 0)) 2)
push_rounds-distance_example =
    push_rounds-distance sample 4 2 0 rounds (replicate 4 9) buffer_cells sample-HasTargets
      rounds-IsSound cells-IsAllocated (omega arith) 1 2

load_and_search_example :
    (g : Graph) × (s : PushState) × (build_graph true 4 raw fresh schedule schedule edges ≡ some g)
    × (bfs_push g 4 2 (replicate 4 9) buffer_cells rounds (replicate 4 0) 0 ≡ finished s)
    × ((x : ℕ)
        → (get_or s.shared.visited x 0 ≡ 1 → Connected edges 0 x)
          × (Connected edges 0 x → get_or s.shared.visited x 0 ≡ 1))
load_and_search_example =
    load_and_search true 4 raw fresh schedule schedule edges 2 0 rounds (replicate 4 9) buffer_cells
      fresh-IsBlank edges-IsSmall (λ _. reversed-IsSmall) cells-IsAllocated rounds-IsSound
      (omega arith)
