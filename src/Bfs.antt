-- ===== src/Bfs.antt =====
-- src/bfs.cpp: breadth-first search over a graph in compressed rows.
pub mod Push
pub mod Pull
pub mod PushPull
pub mod Hub
pub mod Loaded
pub mod LoadedPull
use graph_benchmark.Base.{ℕ, suc, ◌+◌, ◌≡◌, ◌≤◌, ◌<◌, get_or}
use graph_benchmark.Graph.{Graph}

-- Some cell of the row of `u` holds `x`.
abbrev pub IsEdge : Graph → ℕ → ℕ → Type 0
IsEdge g u x =
    (p : ℕ) × (get_or g.out_edge_offsets u 0 ≤ p)
    × (p < get_or g.out_edge_offsets (u + 1) 0)
    × (get_or g.out_edges p 0 ≡ x)

-- The nodes that walks from `start` lead to.
pub data Reach (g : Graph) (start : ℕ) : ℕ → Type 0 where
  here : Reach g start start
  step : {u x : ℕ} → Reach g start u → IsEdge g u x → Reach g start x

-- The rows hold nodes of the graph.
abbrev pub HasTargets : ℕ → Graph → Type 0
HasTargets n g = (u x : ℕ) → u < n → IsEdge g u x → x < n

-- The walks from `start` of a given number of edges.
pub data Walk (g : Graph) (start : ℕ) : ℕ → ℕ → Type 0 where
  here : Walk g start 0 start
  step : {k u x : ℕ} → Walk g start k u → IsEdge g u x → Walk g start (suc k) x

-- The edge from `u` to `x` is in the incoming row of `x`.
abbrev pub IsInEdge : Graph → ℕ → ℕ → Type 0
IsInEdge g u x =
    (p : ℕ) × (get_or g.in_edge_offsets x 0 ≤ p)
    × (p < get_or g.in_edge_offsets (x + 1) 0)
    × (get_or g.in_edges p 0 ≡ u)

-- The nodes below `n` that walks along the incoming rows lead to.
pub data ReachIn (g : Graph) (n start : ℕ) : ℕ → Type 0 where
  here : ReachIn g n start start
  step : {u x : ℕ} → ReachIn g n start u → x < n → IsInEdge g u x → ReachIn g n start x
