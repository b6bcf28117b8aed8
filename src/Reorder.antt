-- ===== src/Reorder.antt =====
-- reorder.cpp: the new numbers of the nodes, and the edges that are written with them. `NB_NODES` is the argument `nb_nodes`, and `ordered` is the
-- array after `std::sort`.
pub mod Numbers
pub mod Distinct
pub mod Renaming
pub mod Isomorphism
pub mod Sort
pub mod Loops
pub mod Rising
pub mod Degrees
pub mod Program
use graph_benchmark.Base.{
  ℕ, ◌+◌, Bool, true, false, List, [], ◌∷◌, ◌==◌, if◌then◌else◌, get_or, set, u32, u64, zero, suc,
  length,
}
use graph_benchmark.Graph.{Edge}
use graph_benchmark.Parallel.{parallel_for}

-- `maintain && ordered[i] == 0`
unfoldable pub stays : Bool → ℕ → Bool
stays maintain x = if maintain then x == 0 else false

-- The loop over `ordered`; `cnt` is the local `count`.
unfoldable pub assign_loop : Bool → List ℕ → ℕ → List ℕ → List ℕ
assign_loop maintain [] cnt mapping = mapping
assign_loop maintain (x ∷ ordered) cnt mapping =
    let kept = assign_loop maintain ordered cnt (set mapping 0 0) in
    let numbered = assign_loop maintain ordered (u64 (cnt + 1)) (set mapping x (u32 cnt)) in
    if stays maintain x then kept else numbered

-- `mapping` as `sort_by_degree` fills it; `cells` is what `malloc` finds.
unfoldable pub assign_numbers : Bool → List ℕ → List ℕ → List ℕ
assign_numbers maintain ordered cells =
    assign_loop maintain ordered (if maintain then 1 else 0) cells

-- A run of the body of the last parallel loop: before each of its two statements, and after them.
pub data Relabel : Type 0 where
  relabel_src : (i : ℕ) → Relabel
  relabel_dst : (i : ℕ) → Relabel
  relabelled : (i : ℕ) → Relabel

-- What stands behind the end of the array.
abbrev pub blank : Edge
blank = record { src = 0; dst = 0 }

unfoldable pub relabel_step : List ℕ → Relabel → List Edge → Relabel × List Edge
relabel_step mapping (relabel_src i) edges =
    let e = get_or edges i blank in
    (relabel_dst i, set edges i (record e { src = get_or mapping e.src 0 }))
relabel_step mapping (relabel_dst i) edges =
    let e = get_or edges i blank in
    (relabelled i, set edges i (record e { dst = get_or mapping e.dst 0 }))
relabel_step mapping (relabelled i) edges = (relabelled i, edges)

abbrev pub relabel_budget : Relabel → ℕ
relabel_budget (relabel_src i) = 2
relabel_budget (relabel_dst i) = 1
relabel_budget (relabelled i) = 0

-- The runs for the edges from `i` on, `n` of them.
unfoldable pub relabelers : ℕ → ℕ → List Relabel
relabelers i zero = []
relabelers i (suc n) = relabel_src i ∷ relabelers (i + 1) n

-- The edges that `sort_by_degree` writes out.
unfoldable pub relabel : List ℕ → List ℕ → List Edge → List Edge
relabel mapping schedule edges =
    (parallel_for (relabel_step mapping) relabel_budget schedule (relabelers 0 (length edges))
      edges).1
