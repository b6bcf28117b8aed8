-- ===== src/Bfs/Hub.antt =====
-- `bfs_hub` of src/bfs.cpp: the array of flags, and the choice of the search, between the start and the
-- end of the collector. The time stamps and the printed time are left out.
pub mod Loaded
use graph_benchmark.Base.{
  ℕ, zero, suc, ◌+◌, ℤ, pos, negsuc, List, replicate, Bool, Option, none, some,
}
use graph_benchmark.Graph.{Graph}
use graph_benchmark.Pebs.{Starting, launch_cache_collect, terminate_cache_collect}
use graph_benchmark.Bfs.Push.{Round, PushState, Outcome, bfs_push}
use graph_benchmark.Bfs.Pull.{PullState, PullOutcome, bfs_pull}
use graph_benchmark.Bfs.PushPull.{Setting, bfs_pushpull}

-- What a search depends on: for the push search the number of threads, the cells of the buffers and the
-- rounds, for the others the setting, and for all whether the collector starts and ends.
pub record Execution : Type 0 where
  pub threads : ℕ
  pub rounds : ℕ → Round
  pub cells : List ℕ
  pub buffer_cells : List (List ℕ)
  pub set_up : Setting
  pub collecting : Starting

pub data Searched : Type 0 where
  visited_flags : List ℕ → Searched
  out_of_fuel : Searched
  died : Searched

unfoldable pub after_push : Outcome → Searched
after_push (Outcome.finished s) = visited_flags s.shared.visited
after_push Outcome.out_of_fuel = out_of_fuel

unfoldable pub after_pull : PullOutcome → Searched
after_pull (PullOutcome.finished s) = visited_flags s.visited
after_pull PullOutcome.out_of_fuel = out_of_fuel

-- The `switch` on `opt`, an `int`.
unfoldable pub search_by : Graph → ℕ → ℕ → Execution → ℕ → ℤ → Searched
search_by g nb_nodes nb_edges run source (pos zero) = after_push (
    bfs_push g nb_nodes run.threads run.cells run.buffer_cells run.rounds (replicate nb_nodes 0)
      source)
search_by g nb_nodes nb_edges run source (pos (suc zero)) = after_pull (
    bfs_pull g nb_nodes run.set_up.frontier_cells run.set_up.next_cells run.set_up.pulling
      (replicate nb_nodes 0) source)
search_by g nb_nodes nb_edges run source (pos (suc (suc zero))) =
    after_pull (bfs_pushpull g nb_nodes nb_edges run.set_up (replicate nb_nodes 0) source)
search_by g nb_nodes nb_edges run source (pos (suc (suc (suc k)))) = died
search_by g nb_nodes nb_edges run source (negsuc k) = died

-- A thread that cannot be joined ends the process.
unfoldable pub after_search : Option (Unit {0}) → Searched → Searched
after_search joined out_of_fuel = out_of_fuel
after_search joined died = died
after_search none (visited_flags v) = died
after_search (some u) (visited_flags v) = visited_flags v

unfoldable pub after_launch : Option (Unit {0}) → Searched → Searched
after_launch none o = died
after_launch (some u) o = o

unfoldable pub bfs_hub : Graph → ℕ → ℕ → Execution → ℕ → ℤ → Searched
bfs_hub g nb_nodes nb_edges run source opt =
    after_launch (launch_cache_collect run.collecting (run.threads + 1)) (
      after_search (terminate_cache_collect run.collecting)
        (search_by g nb_nodes nb_edges run source opt))
