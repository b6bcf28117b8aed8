-- ===== src/Tests/LoaderTests.antt =====
-- Runs of src/loader.cpp, and its theorems at them.
use graph_benchmark.Base.{◌≡◌, refl, [], ◌∷◌, true, some}
use graph_benchmark.Graph.{Graph}
use graph_benchmark.Parallel.{parallel_for, run, drain, advance}
use graph_benchmark.Loader.{
  build_graph, count_degree, count_by, count_degree_1_atomic, count_degree_0_sequential, count_step,
  increment, sum_degree, sum_offsets, sum_loop, create_edges, fill_step,
}
use graph_benchmark.Loader.Degrees.{count_degree_1_atomic-eq-sequential}
use graph_benchmark.Loader.Correct.{IsGraphOf, build_graph-IsGraphOf}
use graph_benchmark.Tests.Data.{
  raw, fresh, edges, schedule, fresh-IsBlank, edges-IsSmall, reversed-IsSmall,
}

-- Both directions, with the fetch-and-adds of different edges interleaved.
build_graph-runs :
    build_graph true 4 raw fresh schedule schedule edges
    ≡ some record {
      symmetric = true;
      nb_nodes = 4;
      nb_edges = 4;
      out_edges = 2 ∷ 1 ∷ 2 ∷ 2 ∷ [];
      out_edge_offsets = 0 ∷ 3 ∷ 4 ∷ 4 ∷ 4 ∷ [];
      in_edges = 0 ∷ 1 ∷ 0 ∷ 0 ∷ [];
      in_edge_offsets = 0 ∷ 0 ∷ 1 ∷ 4 ∷ 4 ∷ [];
    }
unfolding build_graph count_degree count_by count_degree_1_atomic count_step increment sum_degree
    sum_offsets sum_loop create_edges fill_step parallel_for run drain advance
build_graph-runs = refl

build_graph-IsGraphOf_example :
    (g : Graph) × (build_graph true 4 raw fresh schedule schedule edges ≡ some g)
    × IsGraphOf true 4 edges g
build_graph-IsGraphOf_example =
    build_graph-IsGraphOf true 4 raw fresh schedule schedule edges fresh-IsBlank edges-IsSmall
      (λ _. reversed-IsSmall)

count_degree_1_atomic-eq-sequential_example :
    count_degree_1_atomic schedule
      (record raw {
        symmetric = true;
        out_edge_offsets = fresh.out_edge_offsets;
        in_edge_offsets = fresh.in_edge_offsets;
      })
      edges
    ≡ count_degree_0_sequential
        (record raw {
          symmetric = true;
          out_edge_offsets = fresh.out_edge_offsets;
          in_edge_offsets = fresh.in_edge_offsets;
        })
        edges
count_degree_1_atomic-eq-sequential_example =
    count_degree_1_atomic-eq-sequential schedule
      (record raw {
        symmetric = true;
        out_edge_offsets = fresh.out_edge_offsets;
        in_edge_offsets = fresh.in_edge_offsets;
      })
      edges
