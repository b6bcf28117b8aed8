-- ===== src/Bfs/Pull/Correct.antt =====
-- `bfs_pull` returns, and its flags are set exactly at the reachable nodes.
use graph_benchmark.Base.{
  ℕ, ◌+◌, ◌≡◌, ◌≢◌, ◌<◌, ◌≤◌, ◌^◌, inr, sym, ◌∙◌, List, arith, Bool, true, false, get_or, set,
  length, length-set, get_or-set_self, get_or-set_ne, get_or-replicate, length-replicate, replicate,
  count-le-length, ℕ_discrete,
}
use mathlib.Core.Bool.{false≢true}
use graph_benchmark.Graph.{Graph}
use graph_benchmark.Bfs.{IsInEdge, ReachIn}
use graph_benchmark.Bfs.Pull.{PullState, finished, bfs_pull}
use graph_benchmark.Bfs.Pull.Rounds.{IsReady, pull_loop-Ends, complete}

-- Nodes that a `uint32_t` can number, arrays of the right sizes, and flags that happen to be false.
pub record IsCleared (n : ℕ) (frontier_cells next_cells : List Bool) : Type 0 where
  pub few : n ≤ 2 ^ 32
  pub frontier_size : length frontier_cells ≡ n
  pub next_size : length next_cells ≡ n
  pub frontier_clear : (x : ℕ) → get_or frontier_cells x false ≡ false
  pub next_clear : (x : ℕ) → get_or next_cells x false ≡ false

module _ (g : Graph) (n start : ℕ) (frontier_cells next_cells : List Bool)
    (c : IsCleared n frontier_cells next_cells) (start_lt : start < n) where
  abbrev first_flags : List ℕ
  first_flags = set (replicate n 0) start 1

  abbrev first : PullState
  first = record {
    visited = first_flags;
    in_frontier = set frontier_cells start true;
    in_frontier_next = next_cells;
    cont = false;
    iterations = 0;
  }

  flag_here : get_or first_flags start 0 ≡ 1
  flag_here =
      get_or-set_self (replicate n 0) start 1 0 (omega (arith, length-replicate {A = ℕ} n 0))

  flag_other : (x : ℕ) → x ≢ start → get_or first_flags x 0 ≡ 0
  flag_other x ne =
      get_or-set_ne (replicate n 0) start x 1 0 (λ e. ne (sym e)) ∙ get_or-replicate n x 0

  only_start : (x : ℕ) → get_or first_flags x 0 ≡ 1 → x ≡ start
  only_start x e = elim (ℕ_discrete x start) [
    | yes same ↦ same
    | no ne ↦ absurd (omega (arith, flag_other x ne))
  ]

  front_here : get_or (set frontier_cells start true) start false ≡ true
  front_here = get_or-set_self frontier_cells start true false (omega (arith, c.frontier_size))

  first-IsReady : IsReady g n start first
  first-IsReady = record {
    few = c.few;
    flags = length-set {A = ℕ} (replicate n 0) start 1 ∙ length-replicate n 0;
    cells = c.next_size;
    clear = c.next_clear;
    bits = λ x. elim (ℕ_discrete x start) [
      | yes e ↦ rw e (omega (arith, flag_here))
      | no ne ↦ omega (arith, flag_other x ne)
    ];
    begun = flag_here;
    sound = λ x e. rw (only_start x e) ReachIn.here;
    listed = λ u e. elim (ℕ_discrete u start) [
      | yes same ↦ rw same flag_here
      | no ne ↦ absurd (
          false≢true (
            sym (
              get_or-set_ne frontier_cells start u true false (λ q. ne (sym q))
              ∙ c.frontier_clear u)
            ∙ e))
    ];
    closed = λ u x e lt edge. inr (rw (only_start u e) front_here);
  }

  pub bfs_pull_flags :
      (schedules : ℕ → List ℕ)
      → (s : PullState) × (bfs_pull g n frontier_cells next_cells schedules (replicate n 0) start
          ≡ finished s)
        × ((x : ℕ)
            → (get_or s.visited x 0 ≡ 1 → ReachIn g n start x)
              × (ReachIn g n start x → get_or s.visited x 0 ≡ 1))
        × ((x : ℕ) → get_or s.visited x 0 ≤ 1)
  unfolding bfs_pull
  bfs_pull_flags schedules =
      let e = pull_loop-Ends g n start schedules (n + 1) 0 first first-IsReady (
        omega (
          arith,
          count-le-length 0 first_flags,
          length-set {A = ℕ} (replicate n 0) start 1,
          length-replicate {A = ℕ} n 0,
        )) in
      (
        e.state,
        e.returned,
        λ x. (e.ready.sound x, complete g n start e.state e.ready e.emptied x),
        e.ready.bits,
      )

-- The incoming rows of the nodes lie in their array and hold nodes only, so that every read of the
-- search is inside of its array.
pub record IsInside (n : ℕ) (g : Graph) : Type 0 where
  pub offsets : n < length g.in_edge_offsets
  pub rows : (x : ℕ) → x < n → get_or g.in_edge_offsets (x + 1) 0 ≤ length g.in_edges
  pub sources : (u x : ℕ) → x < n → IsInEdge g u x → u < n

-- On a graph of at most 2^32 nodes whose incoming rows lie in their array and hold nodes only, and on
-- arrays that happen to be clear, `bfs_pull` returns within `NB_NODES + 1` rounds, whatever the
-- interleavings. Then `visited` is 1 exactly at the nodes that walks along the incoming rows lead to
-- from `start`, and 0 at the others.
pub bfs_pull-reaches :
    (g : Graph) (n start : ℕ) (frontier_cells next_cells : List Bool)
    → IsInside n g
    → IsCleared n frontier_cells next_cells
    → start < n
    → (schedules : ℕ → List ℕ)
    → (s : PullState) × (bfs_pull g n frontier_cells next_cells schedules (replicate n 0) start
        ≡ finished s)
      × ((x : ℕ)
          → (get_or s.visited x 0 ≡ 1 → ReachIn g n start x)
            × (ReachIn g n start x → get_or s.visited x 0 ≡ 1))
      × ((x : ℕ) → get_or s.visited x 0 ≤ 1)
bfs_pull-reaches g n start frontier_cells next_cells inside c lt schedules =
    bfs_pull_flags g n start frontier_cells next_cells c lt schedules
