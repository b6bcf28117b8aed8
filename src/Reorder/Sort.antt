-- ===== src/Reorder/Sort.antt =====
-- `sort_by_degree` of reorder.cpp: the degrees, the order of the nodes, and the whole function.
-- `std::sort` is the argument `sort`, and a parallel loop runs as its schedule says.
use graph_benchmark.Base.{
  ℕ, zero, suc, ◌+◌, ◌/◌, Bool, Option, some, ◌>>=◌, check, List, [], ◌∷◌, map, if◌then◌else◌, ltb,
  get_or, set, u32, length,
}
use graph_benchmark.Graph.{Edge}
use graph_benchmark.Parallel.{parallel_for}
use graph_benchmark.File.{Input, read_all, after_read, edges_of, bytes_of}
use graph_benchmark.Reorder.{assign_numbers, relabel}

-- `__sync_fetch_and_add(&a[i], 1)` on an array of `uint32_t`.
unfoldable pub increment : List ℕ → ℕ → List ℕ
increment a i = set a i (u32 (get_or a i 0 + 1))

-- A run of the body of the loop that counts degrees.
pub data Tally : Type 0 where
  tallying : Edge → Tally
  tallied : Tally

unfoldable pub tally_step : Tally → List ℕ → Tally × List ℕ
tally_step (tallying e) a = (tallied, increment a e.src)
tally_step tallied a = (tallied, a)

abbrev pub tally_budget : Tally → ℕ
tally_budget (tallying e) = 1
tally_budget tallied = 0

-- `out_edge_offsets` behind the loop, from the cells that `malloc` found.
unfoldable pub tally : List ℕ → List Edge → List ℕ → List ℕ
tally schedule edges cells =
    (parallel_for tally_step tally_budget schedule (map tallying edges) cells).1

-- A run of the body of the loop that fills `ordered`.
pub data Place : Type 0 where
  placing : (i : ℕ) → Place
  placed : Place

unfoldable pub place_step : Place → List ℕ → Place × List ℕ
place_step (placing i) a = (placed, set a i (u32 i))
place_step placed a = (placed, a)

abbrev pub place_budget : Place → ℕ
place_budget (placing i) = 1
place_budget placed = 0

unfoldable pub placers : ℕ → ℕ → List Place
placers i zero = []
placers i (suc n) = placing i ∷ placers (i + 1) n

unfoldable pub place_all : List ℕ → ℕ → List ℕ → List ℕ
place_all schedule nb_nodes cells =
    (parallel_for place_step place_budget schedule (placers 0 nb_nodes) cells).1

-- The comparison that `std::sort` is given.
unfoldable pub precedes : Bool → List ℕ → ℕ → ℕ → Bool
precedes ascending degrees a b =
    if ascending
    then ltb (get_or degrees a 0) (get_or degrees b 0)
    else ltb (get_or degrees b 0) (get_or degrees a 0)

-- What `malloc` finds for the arrays.
pub record Cells : Type 0 where
  pub edges : List ℕ
  pub degrees : List ℕ
  pub ordered : List ℕ
  pub mapping : List ℕ

pub record Schedules : Type 0 where
  pub tallying : List ℕ
  pub placing : List ℕ
  pub relabelling : List ℕ

-- The global `mapping` at the end, the bytes of the output file, and the two numbers of its `.ini` file.
pub record Output : Type 0 where
  pub mapping : List ℕ
  pub bytes : List ℕ
  pub nodes : ℕ
  pub edges : ℕ

abbrev pub Sorting : Type 0
Sorting = (ℕ → ℕ → Bool) → List ℕ → List ℕ

-- Behind the reading.
unfoldable pub reorder : Sorting → Cells → Schedules → Bool → Bool → ℕ → List Edge → Output
reorder sort cells run ascending maintain nb_nodes edges =
    let degrees = tally run.tallying edges cells.degrees in
    let ordered =
      sort (precedes ascending degrees) (place_all run.placing nb_nodes cells.ordered) in
    let mapping = assign_numbers maintain ordered cells.mapping in
    record {
      mapping = mapping;
      bytes = bytes_of (relabel mapping run.relabelling edges);
      nodes = nb_nodes;
      edges = length edges;
    }

unfoldable pub sort_by_degree :
    Sorting → Input → Cells → Schedules → Bool → Bool → ℕ → Option Output
sort_by_degree sort file cells run ascending maintain nb_nodes = do
  _ ← check file.open_ok
  _ ← check file.advise_ok
  let nb_edges = length file.bytes / 8
  after_read (read_all file cells.edges)
      (λ bs. some (reorder sort cells run ascending maintain nb_nodes (edges_of nb_edges bs)))
