-- ===== src/Bfs/Hub/Loaded.antt =====
-- The loader and the choice of the search together.
use graph_benchmark.Base.{
  zero, ℕ, suc, pos, negsuc, ◌+◌, ◌≡◌, ◌<◌, refl, ap, List, map, arith, get_or, length, true, some,
}
use graph_benchmark.Graph.{Edge, Graph, reverse_edge}
use graph_benchmark.Pebs.{launch_cache_collect, terminate_cache_collect}
use graph_benchmark.Loader.{Fresh, build_graph}
use graph_benchmark.Loader.Filling.Result.{IsSmall}
use graph_benchmark.Loader.Correct.{IsGraphOf, IsBlank, build_graph-IsGraphOf}
use graph_benchmark.Bfs.Push.{IsSound}
use graph_benchmark.Bfs.Push.First.{IsAllocated}
use graph_benchmark.Bfs.Push.Correct.{bfs_push-reaches}
use graph_benchmark.Bfs.Pull.Correct.{IsCleared, bfs_pull_flags}
use graph_benchmark.Bfs.PushPull.Rounds.{IsMirrored}
use graph_benchmark.Bfs.PushPull.Correct.{bfs_pushpull-reaches}
use graph_benchmark.Bfs.Loaded.{
  Connected, HasTargets-of_IsGraphOf, IsEdge-iff_copies, Connected-of_Reach, Reach-of_Connected,
}
use graph_benchmark.Bfs.LoadedPull.{IsInEdge-iff_copies, Connected-of_ReachIn, ReachIn-of_Connected}
use graph_benchmark.Bfs.Hub.{
  Execution, Searched, visited_flags, died, after_push, after_pull, search_by, after_search,
  after_launch, bfs_hub,
}

-- The search has returned, and its flags are set exactly at the nodes that edges lead to from `start`.
pub record Finds (edges : List Edge) (start : ℕ) (o : Searched) : Type 0 where
  pub visited : List ℕ
  pub returned : o ≡ visited_flags visited
  pub found :
      (x : ℕ)
      → (get_or visited x 0 ≡ 1 → Connected edges start x)
        × (Connected edges start x → get_or visited x 0 ≡ 1)

-- The collecting thread starts, on the core behind the workers', and is joined.
pub record IsStarted (run : Execution) : Type 0 where
  pub launched : launch_cache_collect run.collecting (run.threads + 1) ≡ some tt
  pub joined : terminate_cache_collect run.collecting ≡ some tt

module _ {n : ℕ} {edges : List Edge} {g : Graph} (r : IsGraphOf true n edges g)
    (small : IsSmall n edges) (small' : IsSmall n (map reverse_edge edges)) where
  -- The loader writes the same edges in both directions.
  pub IsMirrored-of_IsGraphOf : IsMirrored n g
  IsMirrored-of_IsGraphOf = record {
    targets = HasTargets-of_IsGraphOf r small;
    same = λ u x lt lt'.
        let out = IsEdge-iff_copies r small u x lt in
        let back = IsInEdge-iff_copies r small small' u x lt' in
        (λ e. back.1 (out.0 e), λ e. out.1 (back.0 e));
  }

  module _ (run : Execution) (start : ℕ) (lt : start < n)
      (a : IsAllocated n run.threads run.cells run.buffer_cells)
      (safe : (k : ℕ) → IsSound run.threads (run.rounds k))
      (c : IsCleared n run.set_up.frontier_cells run.set_up.next_cells) where
    search_by-push : (m : ℕ) → Finds edges start (search_by g n m run start (pos 0))
    unfolding search_by after_push
    search_by-push m =
        let (s, returned, flags, _, _) =
          bfs_push-reaches g n run.threads start run.rounds run.cells run.buffer_cells
            (HasTargets-of_IsGraphOf r small) safe a lt in
        record {
          visited = s.shared.visited;
          returned = ap after_push returned;
          found = λ x. (
            λ v. Connected-of_Reach r small start x lt ((flags x).0 v),
            λ w. (flags x).1 (Reach-of_Connected r small start x lt w),
          );
        }

    search_by-pull : (m : ℕ) → Finds edges start (search_by g n m run start (pos 1))
    unfolding search_by after_pull
    search_by-pull m =
        let (s, returned, flags, _) =
          bfs_pull_flags g n start run.set_up.frontier_cells run.set_up.next_cells c lt
            run.set_up.pulling in
        record {
          visited = s.visited;
          returned = ap after_pull returned;
          found = λ x. (
            λ v. Connected-of_ReachIn r small small' start x ((flags x).0 v),
            λ w. (flags x).1 (ReachIn-of_Connected r small small' start x w),
          );
        }

    search_by-pushpull : (m : ℕ) → Finds edges start (search_by g n m run start (pos 2))
    unfolding search_by after_pull
    search_by-pushpull m =
        let (p, returned, flags) =
          bfs_pushpull-reaches g n start run.set_up IsMirrored-of_IsGraphOf c lt m in
        record {
          visited = p.visited;
          returned = ap after_pull returned;
          found = λ x. (
            λ v. Connected-of_ReachIn r small small' start x ((flags x).0 v),
            λ w. (flags x).1 (ReachIn-of_Connected r small small' start x w),
          );
        }

    search_by-Finds : (m k : ℕ) → k < 3 → Finds edges start (search_by g n m run start (pos k))
    search_by-Finds m zero h = search_by-push m
    search_by-Finds m (suc zero) h = search_by-pull m
    search_by-Finds m (suc (suc zero)) h = search_by-pushpull m
    search_by-Finds m (suc (suc (suc k))) h = absurd (omega arith)

    -- Each of the three options finds the connected nodes.
    pub bfs_hub-Finds :
        IsStarted run → (m k : ℕ) → k < 3 → Finds edges start (bfs_hub g n m run start (pos k))
    unfolding bfs_hub after_launch after_search
    bfs_hub-Finds ok m k h =
        let found = search_by-Finds m k h in
        record {
          visited = found.visited;
          returned = rw (ok.launched, ok.joined, found.returned) refl;
          found = found.found;
        }

-- On input that fits its words, with at most 2^32 nodes, cleared memory and both directions loaded, if
-- the collecting thread starts and is joined and no two threads of the push search that run at once have
-- the same `gettid() % THREADS`, `create_graph` does not abort, and on its graph `bfs_hub` returns for
-- each of the options 0, 1 and 2, for every interleaving, with flags exactly at the nodes that the
-- input's edges lead to from `start`. For every other option it dies.
pub load_and_hub :
    (n : ℕ) (raw : Graph) (fresh : Fresh) (schedule schedule' : List ℕ) (edges : List Edge)
    (start : ℕ) (run : Execution)
    → IsBlank n (length edges) fresh
    → IsSmall n edges
    → IsSmall n (map reverse_edge edges)
    → IsAllocated n run.threads run.cells run.buffer_cells
    → ((k : ℕ) → IsSound run.threads (run.rounds k))
    → IsCleared n run.set_up.frontier_cells run.set_up.next_cells
    → IsStarted run
    → start < n
    → (g : Graph) × (build_graph true n raw fresh schedule schedule' edges ≡ some g)
      × Finds edges start (bfs_hub g n (length edges) run start (pos 0))
      × Finds edges start (bfs_hub g n (length edges) run start (pos 1))
      × Finds edges start (bfs_hub g n (length edges) run start (pos 2))
      × ((k : ℕ) → bfs_hub g n (length edges) run start (pos (k + 3)) ≡ died)
      × ((k : ℕ) → bfs_hub g n (length edges) run start (negsuc k) ≡ died)
unfolding bfs_hub search_by after_launch after_search
load_and_hub n raw fresh schedule schedule' edges start run blank small small' a safe c ok lt =
    let (g, built, r) =
      build_graph-IsGraphOf true n raw fresh schedule schedule' edges blank small (λ _. small') in
    (
      g,
      built,
      bfs_hub-Finds r small small' run start lt a safe c ok (length edges) 0 (omega arith),
      bfs_hub-Finds r small small' run start lt a safe c ok (length edges) 1 (omega arith),
      bfs_hub-Finds r small small' run start lt a safe c ok (length edges) 2 (omega arith),
      λ k. let more : k + 3 ≡ suc (suc (suc k)) = omega arith in rw (more, ok.launched) refl,
      λ k. rw ok.launched refl,
    )
