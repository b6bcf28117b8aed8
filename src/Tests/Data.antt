-- ===== src/Tests/Data.antt =====
-- A small input: 0 → 1, 1 → 2, 0 → 2 twice, and node 3 that no edge leads to.
use graph_benchmark.Base.{
  ℕ, refl, List, [], ◌∷◌, map, false, arith, replicate, zero, suc, ◌≡◌, ◌≤◌, count, range_from,
  total-append, if◌then◌else◌, ◌==◌,
}
use graph_benchmark.Graph.{Edge, Graph, reverse_edge}
use graph_benchmark.Graph.Counting.{degree-le-length}
use graph_benchmark.Loader.{Fresh}
use graph_benchmark.Loader.Filling.Result.{IsSmall}
use graph_benchmark.Loader.Correct.{IsBlank}
use graph_benchmark.Bfs.Push.{Round, Share, IsSound, indices_of, slot_of}
use graph_benchmark.Bfs.Push.First.{IsAllocated}

abbrev pub edge : ℕ → ℕ → Edge
edge u v = record { src = u; dst = v }

abbrev pub edges : List Edge
edges = edge 0 1 ∷ edge 1 2 ∷ edge 0 2 ∷ edge 0 2 ∷ []

abbrev pub raw : Graph
raw = record {
  symmetric = false;
  nb_nodes = 0;
  nb_edges = 0;
  out_edges = [];
  out_edge_offsets = [];
  in_edges = [];
  in_edge_offsets = [];
}

abbrev pub fresh : Fresh
fresh = record {
  out_edge_offsets = replicate 5 0;
  in_edge_offsets = replicate 5 0;
  out_edges = replicate 4 77;
  in_edges = replicate 4 77;
}

-- The rows of the input above.
abbrev pub sample : Graph
sample = record {
  symmetric = false;
  nb_nodes = 4;
  nb_edges = 4;
  out_edges = 2 ∷ 1 ∷ 2 ∷ 2 ∷ [];
  out_edge_offsets = 0 ∷ 3 ∷ 4 ∷ 4 ∷ 4 ∷ [];
  in_edges = [];
  in_edge_offsets = [];
}

abbrev pub schedule : List ℕ
schedule = 2 ∷ 0 ∷ 3 ∷ 3 ∷ 1 ∷ 0 ∷ 2 ∷ []

-- The first thread takes the indices from 1 on, the other one index 0.
abbrev pub shares : ℕ → List Share
shares zero = []
shares (suc n) =
    record { thread = 5; indices = range_from 1 n } ∷ record { thread = 6; indices = 0 ∷ [] } ∷ []

abbrev pub rounds : ℕ → Round
rounds k = record { assign = shares; schedule = 1 ∷ 0 ∷ 0 ∷ 1 ∷ 1 ∷ [] }

pub rounds-IsSound : (k : ℕ) → IsSound 2 (rounds k)
rounds-IsSound k = record { covers = covers; apart = apart }
  where
    covers : (n x : ℕ) → count x (indices_of (shares n)) ≡ count x (range_from 0 n)
    covers zero x = refl
    covers (suc n) x =
        ground (arith, total-append (λ y. if x == y then 1 else 0) (range_from 1 n) (0 ∷ []))

    apart : (n s : ℕ) → count s (map (slot_of 2) (shares n)) ≤ 1
    apart zero s = omega arith
    apart (suc n) s = ground arith

pub fresh-IsBlank : IsBlank 4 4 fresh
fresh-IsBlank = record { out_counts = refl; in_counts = refl; out_size = refl; in_size = refl }

pub edges-IsSmall : IsSmall 4 edges
edges-IsSmall = record {
  ends = omega arith;
  total = omega arith;
  narrow = λ v lt. omega (arith, degree-le-length edges v);
}

pub reversed-IsSmall : IsSmall 4 (map reverse_edge edges)
reversed-IsSmall = record {
  ends = omega arith;
  total = omega arith;
  narrow = λ v lt. omega (arith, degree-le-length (map reverse_edge edges) v);
}

abbrev pub buffer_cells : List (List ℕ)
buffer_cells = replicate 4 9 ∷ replicate 4 9 ∷ []

pub cells-IsAllocated : IsAllocated 4 2 (replicate 4 9) buffer_cells
cells-IsAllocated = omega arith
