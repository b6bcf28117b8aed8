-- ===== src/Loader/Correct.antt =====
-- `create_graph` from the edges on: the graph that it returns is the input, in rows.
use graph_benchmark.Base.{
  ℕ, ◌+◌, ◌≡◌, refl, ◌∙◌, List, map, Bool, true, false, some, arith, length, length-map, replicate,
  length-replicate, get_or, get_or-replicate,
}
use graph_benchmark.Graph.{Edge, Graph, reverse_edge}
use graph_benchmark.Graph.Counting.{degree-le-length}
use graph_benchmark.Loader.{
  Fresh, sum_offsets, sum_degree, count_by, count_degree, create_edges, build_graph,
}
use graph_benchmark.Loader.Degrees.{
  increments, sequential-eq-counts_of, length-increments, get_or-increments,
  count_degree_1_atomic-eq-sequential,
}
use graph_benchmark.Loader.Offsets.{AreOffsets, sum_offsets-AreOffsets}
use graph_benchmark.Loader.Filling.Result.{IsSmall, HasRows}
use graph_benchmark.Loader.Rows.{create_edges-out, create_edges-in, create_edges-offsets}

-- Arrays of the right sizes, and counters that happen to be 0.
pub record IsBlank (nb_nodes nb_edges : ℕ) (fresh : Fresh) : Type 0 where
  pub out_counts : fresh.out_edge_offsets ≡ replicate (nb_nodes + 1) 0
  pub in_counts : fresh.in_edge_offsets ≡ replicate (nb_nodes + 1) 0
  pub out_size : length fresh.out_edges ≡ nb_edges
  pub in_size : length fresh.in_edges ≡ nb_edges

-- The offsets of one direction, from cleared counters.
offsets_of :
    (n : ℕ) (edges : List Edge)
    → IsSmall n edges
    → (a : List ℕ) → a ≡ replicate (n + 1) 0
    → (offsets : List ℕ) × (sum_offsets n (length edges) (increments a edges) ≡ some offsets)
      × AreOffsets n edges offsets
offsets_of n edges small a e =
    sum_offsets-AreOffsets edges small.total n (increments a edges)
      (length-increments a edges ∙ rw e (length-replicate (n + 1) 0)) small.ends
      (λ v lt.
        let zero_there : get_or a v 0 ≡ 0 = rw e (get_or-replicate (n + 1) v 0) in
        omega (
          arith,
          small.total,
          degree-le-length edges v,
          zero_there,
          get_or-increments edges a v (rw e (rw (length-replicate {A = ℕ} (n + 1) 0) (omega arith)))
              (omega (arith, zero_there, small.total, degree-le-length edges v)),
        ))

-- The graph has the input's edges in its rows, and on demand the reversed edges too.
pub record IsGraphOf (symmetric : Bool) (nb_nodes : ℕ) (edges : List Edge) (g : Graph)
    : Type 0 where
  pub nodes : g.nb_nodes ≡ nb_nodes
  pub edges_read : g.nb_edges ≡ length edges
  pub out_offsets : AreOffsets nb_nodes edges g.out_edge_offsets
  pub out_rows : HasRows nb_nodes edges g.out_edge_offsets g.out_edges
  pub in_offsets : symmetric ≡ true → AreOffsets nb_nodes (map reverse_edge edges) g.in_edge_offsets
  pub in_rows :
      symmetric ≡ true → HasRows nb_nodes (map reverse_edge edges) g.in_edge_offsets g.in_edges

module _ (n : ℕ) (raw : Graph) (fresh : Fresh) (schedule schedule' : List ℕ) (edges : List Edge)
    (blank : IsBlank n (length edges) fresh) (small : IsSmall n edges) where
  directed :
      (g : Graph) × (build_graph false n raw fresh schedule schedule' edges ≡ some g)
      × IsGraphOf false n edges g
  unfolding build_graph count_degree count_by sum_degree
  directed =
      let (out, made, off) = offsets_of n edges small fresh.out_edge_offsets blank.out_counts in
      let g = record raw {
        symmetric = false;
        nb_nodes = n;
        nb_edges = length edges;
        out_edge_offsets = out;
      } in
      let kept = create_edges-offsets n fresh schedule' g edges in
      (
        create_edges n fresh schedule' g edges,
        simp (count_degree_1_atomic-eq-sequential, sequential-eq-counts_of, made),
        record {
          nodes = kept.3;
          edges_read = kept.4;
          out_offsets = rw kept.0 off;
          out_rows =
              rw kept.0 (create_edges-out n fresh schedule' g edges small off blank.out_size);
          in_offsets = λ e. cc;
          in_rows = λ e. cc;
        },
      )

  both_ways :
      IsSmall n (map reverse_edge edges)
      → (g : Graph) × (build_graph true n raw fresh schedule schedule' edges ≡ some g)
        × IsGraphOf true n edges g
  unfolding build_graph count_degree count_by sum_degree
  both_ways small' =
      let (out, made, off) = offsets_of n edges small fresh.out_edge_offsets blank.out_counts in
      let (inn, made', off') =
        offsets_of n (map reverse_edge edges) small' fresh.in_edge_offsets blank.in_counts in
      let same : length (map reverse_edge edges) ≡ length edges = length-map reverse_edge edges in
      let made'' : sum_offsets n (length edges)
            (increments fresh.in_edge_offsets (map reverse_edge edges))
          ≡ some inn =
        rw same at made' in
      let g = record raw {
        symmetric = true;
        nb_nodes = n;
        nb_edges = length edges;
        out_edge_offsets = out;
        in_edge_offsets = inn;
      } in
      let kept = create_edges-offsets n fresh schedule' g edges in
      (
        create_edges n fresh schedule' g edges,
        simp (count_degree_1_atomic-eq-sequential, sequential-eq-counts_of, made, made''),
        record {
          nodes = kept.3;
          edges_read = kept.4;
          out_offsets = rw kept.0 off;
          out_rows =
              rw kept.0 (create_edges-out n fresh schedule' g edges small off blank.out_size);
          in_offsets = λ _. rw kept.1 off';
          in_rows = λ _.
              rw kept.1 (create_edges-in n fresh schedule' g edges refl small' off' blank.in_size);
        },
      )

-- On input that fits its words and with cleared counters the loader does not abort, whatever the
-- interleavings of its parallel loops, and each row of the graph that it returns holds the targets of
-- its node's edges, each as often as the input has it; so do the incoming rows of a symmetric graph.
pub build_graph-IsGraphOf :
    (symmetric : Bool) (n : ℕ) (raw : Graph) (fresh : Fresh) (schedule schedule' : List ℕ)
    (edges : List Edge)
    → IsBlank n (length edges) fresh
    → IsSmall n edges
    → (symmetric ≡ true → IsSmall n (map reverse_edge edges))
    → (g : Graph) × (build_graph symmetric n raw fresh schedule schedule' edges ≡ some g)
      × IsGraphOf symmetric n edges g
build_graph-IsGraphOf true n raw fresh schedule schedule' edges blank small small' =
    both_ways n raw fresh schedule schedule' edges blank small (small' refl)
build_graph-IsGraphOf false n raw fresh schedule schedule' edges blank small small' =
    directed n raw fresh schedule schedule' edges blank small
