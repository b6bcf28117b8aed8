-- ===== src/Bfs/LoadedPull.antt =====
-- The loader and the pull search together, and the two searches side by side.
use graph_benchmark.Base.{
  ℕ, ◌≡◌, ◌<◌, ◌≤◌, ◌↔◌, refl, sym, ◌∙◌, List, [], ◌∷◌, map, arith, get_or, length, length-map,
  Bool, true, false, replicate, some,
}
use mathlib.Core.Bool.{false≢true}
use graph_benchmark.Graph.{Edge, Graph, copies, reverse_edge}
use graph_benchmark.Loader.{Fresh, build_graph}
use graph_benchmark.Loader.Filling.Result.{IsSmall}
use graph_benchmark.Loader.Correct.{IsGraphOf, IsBlank, build_graph-IsGraphOf}
use graph_benchmark.Bfs.{IsInEdge, ReachIn}
use graph_benchmark.Bfs.Push.{Round, IsSound, PushState, Outcome, bfs_push}
use graph_benchmark.Bfs.Push.Correct.{bfs_push-reaches}
use graph_benchmark.Bfs.Push.First.{IsAllocated}
use graph_benchmark.Bfs.Pull.{PullState, finished, bfs_pull}
use graph_benchmark.Bfs.Pull.Correct.{IsCleared, bfs_pull_flags}
use graph_benchmark.Bfs.Loaded.{
  Connected, copies-target, IsEdge-iff_copies, HasTargets-of_IsGraphOf, Connected-of_Reach,
  Reach-of_Connected,
}

-- The graph with its two directions exchanged.
abbrev transpose : Graph → Graph
transpose g = record g { out_edges = g.in_edges; out_edge_offsets = g.in_edge_offsets }

copies-reverse_edge :
    (edges : List Edge) (u x : ℕ) → copies (map reverse_edge edges) x u ≡ copies edges u x
unfolding copies
copies-reverse_edge [] u x = refl
copies-reverse_edge (e ∷ es) u x = ground (arith, copies-reverse_edge es u x)

module _ {n : ℕ} {edges : List Edge} {g : Graph} (r : IsGraphOf true n edges g)
    (small : IsSmall n edges) (small' : IsSmall n (map reverse_edge edges)) where
  transpose-IsGraphOf : IsGraphOf false n (map reverse_edge edges) (transpose g)
  transpose-IsGraphOf = record {
    nodes = r.nodes;
    edges_read = r.edges_read ∙ sym (length-map reverse_edge edges);
    out_offsets = r.in_offsets refl;
    out_rows = r.in_rows refl;
    in_offsets = λ e. absurd (false≢true e);
    in_rows = λ e. absurd (false≢true e);
  }

  -- The pull search sees an edge exactly where the input has one.
  pub IsInEdge-iff_copies : (u x : ℕ) → x < n → IsInEdge g u x ↔ (0 < copies edges u x)
  IsInEdge-iff_copies u x lt =
      let both = IsEdge-iff_copies transpose-IsGraphOf small' x u lt in
      (
        λ e. omega (arith, both.0 e, copies-reverse_edge edges u x),
        λ c. both.1 (omega (arith, copies-reverse_edge edges u x)),
      )

  pub Connected-of_ReachIn : (start x : ℕ) → ReachIn g n start x → Connected edges start x
  Connected-of_ReachIn start x ReachIn.here = Connected.here
  Connected-of_ReachIn start x (ReachIn.step {u} w lt edge) =
      Connected.step (Connected-of_ReachIn start u w) ((IsInEdge-iff_copies u x lt).0 edge)

  pub ReachIn-of_Connected : (start x : ℕ) → Connected edges start x → ReachIn g n start x
  ReachIn-of_Connected start x Connected.here = ReachIn.here
  ReachIn-of_Connected start x (Connected.step {u} w c) =
      let lt = copies-target n edges u x small.ends c in
      ReachIn.step (ReachIn-of_Connected start u w) lt ((IsInEdge-iff_copies u x lt).1 c)

-- Loading and searching by pull: on input that fits its words, with at most 2^32 nodes, cleared memory
-- and both directions loaded, `create_graph` does not abort, `bfs_pull` on its graph returns, and `visited` is 1 exactly at
-- the nodes that the input's edges lead to from `start`.
pub load_and_pull :
    (n : ℕ) (raw : Graph) (fresh : Fresh) (schedule schedule' : List ℕ) (edges : List Edge)
    (start : ℕ) (schedules : ℕ → List ℕ) (frontier_cells next_cells : List Bool)
    → IsBlank n (length edges) fresh
    → IsSmall n edges
    → IsSmall n (map reverse_edge edges)
    → IsCleared n frontier_cells next_cells
    → start < n
    → (g : Graph) × (s : PullState) × (build_graph true n raw fresh schedule schedule' edges
        ≡ some g)
      × (bfs_pull g n frontier_cells next_cells schedules (replicate n 0) start ≡ finished s)
      × ((x : ℕ)
          → (get_or s.visited x 0 ≡ 1 → Connected edges start x)
            × (Connected edges start x → get_or s.visited x 0 ≡ 1))
load_and_pull n raw fresh schedule schedule' edges start schedules frontier_cells next_cells blank
      small small' c lt =
    let (g, built, r) =
      build_graph-IsGraphOf true n raw fresh schedule schedule' edges blank small (λ _. small') in
    let (s, returned, flags, _) =
      bfs_pull_flags g n start frontier_cells next_cells c lt schedules in
    (
      g,
      s,
      built,
      returned,
      λ x. (
        λ v. Connected-of_ReachIn r small small' start x ((flags x).0 v),
        λ w. (flags x).1 (ReachIn-of_Connected r small small' start x w),
      ),
    )

same_bit : (a b : ℕ) → a ≤ 1 → b ≤ 1 → (a ≡ 1 → b ≡ 1) → (b ≡ 1 → a ≡ 1) → a ≡ b
same_bit a b ha hb to from = ground arith

-- Under the same conditions, and if no two threads of the push search that run at once have the same
-- `gettid() % THREADS`, push and pull visit the same nodes: both return, and their flags agree.
pub bfs_push-agrees-bfs_pull :
    (n : ℕ) (raw : Graph) (fresh : Fresh) (schedule schedule' : List ℕ) (edges : List Edge)
    (threads start : ℕ) (rounds : ℕ → Round) (cells : List ℕ) (buffer_cells : List (List ℕ))
    (schedules : ℕ → List ℕ) (frontier_cells next_cells : List Bool)
    → IsBlank n (length edges) fresh
    → IsSmall n edges
    → IsSmall n (map reverse_edge edges)
    → IsAllocated n threads cells buffer_cells
    → ((k : ℕ) → IsSound threads (rounds k))
    → IsCleared n frontier_cells next_cells
    → start < n
    → (g : Graph) × (s : PushState) × (p : PullState) × (build_graph true n raw fresh schedule
          schedule' edges
        ≡ some g)
      × (bfs_push g n threads cells buffer_cells rounds (replicate n 0) start ≡ Outcome.finished s)
      × (bfs_pull g n frontier_cells next_cells schedules (replicate n 0) start ≡ finished p)
      × ((x : ℕ) → get_or s.shared.visited x 0 ≡ get_or p.visited x 0)
bfs_push-agrees-bfs_pull n raw fresh schedule schedule' edges threads start rounds cells
      buffer_cells schedules frontier_cells next_cells blank small small' a safe c lt =
    let (g, built, r) =
      build_graph-IsGraphOf true n raw fresh schedule schedule' edges blank small (λ _. small') in
    let (s, returned, flags, bits, _) =
      bfs_push-reaches g n threads start rounds cells buffer_cells (HasTargets-of_IsGraphOf r small)
        safe a lt in
    let (p, returned', flags', bits') =
      bfs_pull_flags g n start frontier_cells next_cells c lt schedules in
    (
      g,
      s,
      p,
      built,
      returned,
      returned',
      λ x.
          same_bit (get_or s.shared.visited x 0) (get_or p.visited x 0) (bits x) (bits' x)
            (λ v. (flags' x).1 (
              ReachIn-of_Connected r small small' start x
                (Connected-of_Reach r small start x lt ((flags x).0 v))))
            (λ v. (flags x).1 (
              Reach-of_Connected r small start x lt
                (Connected-of_ReachIn r small small' start x ((flags' x).0 v)))),
    )
