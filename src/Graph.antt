-- ===== src/Graph.antt =====
-- include/config.h: an edge of the input, and the graph in compressed rows.
pub mod Counting
use graph_benchmark.Base.{
  ℕ, ◌+◌, ◌-◌, Bool, List, get_or, take, drop, total, if◌then◌else◌, ◌==◌, ltb,
}

-- `edge_t`
pub record Edge : Type 0 where
  pub src : ℕ
  pub dst : ℕ

-- `class Graph`. An array is the list of its cells; a pointer that is not set is the empty list.
pub record Graph : Type 0 where
  pub symmetric : Bool
  pub nb_nodes : ℕ
  pub nb_edges : ℕ
  pub out_edges : List ℕ
  pub out_edge_offsets : List ℕ
  pub in_edges : List ℕ
  pub in_edge_offsets : List ℕ

-- The cells of `edges` between `offsets[v]` and `offsets[v + 1]`: the row of node `v`.
unfoldable pub row : List ℕ → List ℕ → ℕ → List ℕ
row offsets edges v =
    let beg = get_or offsets v 0 in take (get_or offsets (v + 1) 0 - beg) (drop beg edges)

abbrev pub reverse_edge : Edge → Edge
reverse_edge e = record { src = e.dst; dst = e.src }

-- The number of edges that leave `v`.
unfoldable pub degree : List Edge → ℕ → ℕ
degree edges v = total (λ (e : Edge). if v == e.src then 1 else 0) edges

-- How often the edge from `v` to `x` is in the input.
unfoldable pub copies : List Edge → ℕ → ℕ → ℕ
copies edges v x =
    total (λ (e : Edge). if v == e.src then (if x == e.dst then 1 else 0) else 0) edges

-- The number of edges that leave the nodes below `v`.
unfoldable pub preceding : List Edge → ℕ → ℕ
preceding edges v = total (λ (e : Edge). if ltb e.src v then 1 else 0) edges
