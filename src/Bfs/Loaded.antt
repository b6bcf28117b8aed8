-- ===== src/Bfs/Loaded.antt =====
-- The loader and the search together: the search follows the edges of the input.
use graph_benchmark.Base.{
  ℕ, ◌+◌, ◌-◌, ◌≡◌, ◌<◌, ◌↔◌, refl, sym, ap, ◌∙◌, List, [], ◌∷◌, map, arith, get_or, length, count,
  index_of, count-get_or, get_or-take, get_or-drop, length-take_le, length-drop, Bool, replicate,
  some, true,
}
use graph_benchmark.Graph.{Edge, Graph, row, copies, reverse_edge}
use graph_benchmark.Graph.Counting.{AreEdgesOf, preceding-le-length}
use graph_benchmark.Loader.Filling.Result.{IsSmall}
use graph_benchmark.Loader.Correct.{IsGraphOf}
use graph_benchmark.Loader.{Fresh, build_graph}
use graph_benchmark.Loader.Correct.{IsBlank, build_graph-IsGraphOf}
use graph_benchmark.Bfs.{IsEdge, HasTargets, Reach}
use graph_benchmark.Bfs.Push.{Round, IsSound, PushState, finished, bfs_push}
use graph_benchmark.Bfs.Push.First.{IsAllocated}
use graph_benchmark.Bfs.Push.Correct.{bfs_push-reaches}

-- The nodes that the input's edges lead to from `start`.
pub data Connected (edges : List Edge) (start : ℕ) : ℕ → Type 0 where
  here : Connected edges start start
  step : {u x : ℕ} → Connected edges start u → 0 < copies edges u x → Connected edges start x

pub copies-target :
    (n : ℕ) (edges : List Edge) (u x : ℕ) → AreEdgesOf n edges → 0 < copies edges u x → x < n
unfolding copies
copies-target n [] u x h c = absurd (omega arith)
copies-target n (e ∷ es) u x h c = ground (arith, copies-target n es u x h.1)

module _ {b : Bool} {n : ℕ} {edges : List Edge} {g : Graph} (r : IsGraphOf b n edges g)
    (small : IsSmall n edges) where
  length-row :
      (u : ℕ)
      → u < n
      → length (row g.out_edge_offsets g.out_edges u)
        ≡ get_or g.out_edge_offsets (u + 1) 0 - get_or g.out_edge_offsets u 0
  unfolding row
  length-row u lt = length-take_le _ _ (
      omega (
        arith,
        length-drop (get_or g.out_edge_offsets u 0) g.out_edges,
        r.out_rows.0,
        r.out_offsets.cell (u + 1) (omega arith),
        preceding-le-length edges (u + 1),
      ))

  row_cell :
      (u i p : ℕ)
      → p ≡ get_or g.out_edge_offsets u 0 + i
      → p < get_or g.out_edge_offsets (u + 1) 0
      → get_or (row g.out_edge_offsets g.out_edges u) i 0 ≡ get_or g.out_edges p 0
  unfolding row
  row_cell u i p e lt =
      get_or-take _ i _ 0 (omega arith)
      ∙ get_or-drop (get_or g.out_edge_offsets u 0) i p g.out_edges 0 e

  -- The search sees an edge exactly where the input has one.
  pub IsEdge-iff_copies : (u x : ℕ) → u < n → IsEdge g u x ↔ (0 < copies edges u x)
  IsEdge-iff_copies u x lt = (
    λ (p, low, high, e).
        let i = p - get_or g.out_edge_offsets u 0 in
        let cell = row_cell u i p (omega arith) high in
        let found =
          count-get_or (row g.out_edge_offsets g.out_edges u) i 0
            (omega (arith, length-row u lt)) in
        omega (
          arith,
          r.out_rows.1 u x lt,
          ap (λ y. count y (row g.out_edge_offsets g.out_edges u)) (cell ∙ e),
        ),
    λ c.
        let (i, inside, e) =
          index_of x (row g.out_edge_offsets g.out_edges u) (omega (arith, r.out_rows.1 u x lt)) in
        let p = get_or g.out_edge_offsets u 0 + i in
        (
          p,
          omega arith,
          omega (arith, length-row u lt),
          sym (row_cell u i p refl (omega (arith, length-row u lt))) ∙ e,
        ),
  )

  pub HasTargets-of_IsGraphOf : HasTargets n g
  HasTargets-of_IsGraphOf u x lt edge =
      copies-target n edges u x small.ends ((IsEdge-iff_copies u x lt).0 edge)

  node_of : (start x : ℕ) → start < n → Reach g start x → x < n
  node_of start x lt Reach.here = lt
  node_of start x lt (Reach.step {u} w edge) =
      HasTargets-of_IsGraphOf u x (node_of start u lt w) edge

  pub Connected-of_Reach : (start x : ℕ) → start < n → Reach g start x → Connected edges start x
  Connected-of_Reach start x lt Reach.here = Connected.here
  Connected-of_Reach start x lt (Reach.step {u} w edge) =
      Connected.step (Connected-of_Reach start u lt w)
        ((IsEdge-iff_copies u x (node_of start u lt w)).0 edge)

  Connected-node : (start x : ℕ) → start < n → Connected edges start x → x < n
  Connected-node start x lt Connected.here = lt
  Connected-node start x lt (Connected.step {u} w c) = copies-target n edges u x small.ends c

  pub Reach-of_Connected : (start x : ℕ) → start < n → Connected edges start x → Reach g start x
  Reach-of_Connected start x lt Connected.here = Reach.here
  Reach-of_Connected start x lt (Connected.step {u} w c) =
      Reach.step (Reach-of_Connected start u lt w)
        ((IsEdge-iff_copies u x (Connected-node start u lt w)).1 c)

-- Loading and searching: on input that fits its words, with cleared memory, and if no two threads that
-- run at once have the same `gettid() % THREADS`, `create_graph` does not abort, `bfs_push` on its graph
-- returns for every interleaving, and `visited` is 1 exactly at the nodes that the input's edges lead to
-- from `start`.
pub load_and_search :
    (symmetric : Bool) (n : ℕ) (raw : Graph) (fresh : Fresh) (schedule schedule' : List ℕ)
    (edges : List Edge) (threads start : ℕ) (rounds : ℕ → Round) (frontier_cells : List ℕ)
    (buffer_cells : List (List ℕ))
    → IsBlank n (length edges) fresh
    → IsSmall n edges
    → (symmetric ≡ true → IsSmall n (map reverse_edge edges))
    → IsAllocated n threads frontier_cells buffer_cells
    → ((k : ℕ) → IsSound threads (rounds k))
    → start < n
    → (g : Graph) × (s : PushState) × (build_graph symmetric n raw fresh schedule schedule' edges
        ≡ some g)
      × (bfs_push g n threads frontier_cells buffer_cells rounds (replicate n 0) start ≡ finished s)
      × ((x : ℕ)
          → (get_or s.shared.visited x 0 ≡ 1 → Connected edges start x)
            × (Connected edges start x → get_or s.shared.visited x 0 ≡ 1))
load_and_search symmetric n raw fresh schedule schedule' edges threads start rounds frontier_cells
      buffer_cells blank small small' a safe lt =
    let (g, built, r) =
      build_graph-IsGraphOf symmetric n raw fresh schedule schedule' edges blank small small' in
    let (s, returned, flags, _, _) =
      bfs_push-reaches g n threads start rounds frontier_cells buffer_cells
        (HasTargets-of_IsGraphOf r small) safe a lt in
    (
      g,
      s,
      built,
      returned,
      λ x. (
        λ v. Connected-of_Reach r small start x lt ((flags x).0 v),
        λ c. (flags x).1 (Reach-of_Connected r small start x lt c),
      ),
    )
