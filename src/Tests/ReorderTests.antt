-- ===== src/Tests/ReorderTests.antt =====
-- Runs of reorder.cpp, and its theorems at them.
use graph_benchmark.Base.{
  IsOrder, ℕ, zero, suc, ◌≡◌, ◌<◌, ◌≤◌, refl, arith, List, [], ◌∷◌, true, replicate, get_or, count,
}
use graph_benchmark.Graph.{copies}
use graph_benchmark.Parallel.{parallel_for, run, drain, advance}
use graph_benchmark.Reorder.{assign_numbers, assign_loop, stays, relabel, relabelers, relabel_step}
use graph_benchmark.Reorder.Distinct.{assign_numbers-renames}
use graph_benchmark.Reorder.Isomorphism.{relabel-copies}
use graph_benchmark.Tests.Data.{edge, edges, schedule, edges-IsSmall}

-- The nodes in the descending order of their degrees, which are 3, 1, 0 and 0.
abbrev ordered : List ℕ
ordered = 0 ∷ 1 ∷ 3 ∷ 2 ∷ []

ordered-once : (x : ℕ) → count x ordered ≤ 1
ordered-once x = ground arith

ordered-all : (x : ℕ) → x < 4 → 0 < count x ordered
ordered-all x lt = ground arith

ordered-low : (i : ℕ) → i < 4 → get_or ordered i 0 < 4
ordered-low zero lt = omega arith
ordered-low (suc zero) lt = omega arith
ordered-low (suc (suc zero)) lt = omega arith
ordered-low (suc (suc (suc zero))) lt = omega arith
ordered-low (suc (suc (suc (suc i)))) lt = absurd (omega arith)

ordered-IsOrder : IsOrder 4 ordered
ordered-IsOrder = record { size = refl; once = ordered-once; low = ordered-low; all = ordered-all }

-- Nodes 2 and 3 change their numbers.
relabel-runs :
    relabel (assign_numbers true ordered (replicate 4 9)) schedule edges
    ≡ edge 0 1 ∷ edge 1 3 ∷ edge 0 3 ∷ edge 0 3 ∷ []
unfolding relabel relabelers relabel_step assign_numbers assign_loop stays parallel_for run drain
    advance
relabel-runs = refl

assign_numbers-renames_example :
    ((x : ℕ) → x < 4 → get_or (assign_numbers true ordered (replicate 4 9)) x 0 < 4)
    × ((x y : ℕ)
        → x < 4
        → y < 4
        → get_or (assign_numbers true ordered (replicate 4 9)) x 0
          ≡ get_or (assign_numbers true ordered (replicate 4 9)) y 0
        → x ≡ y)
    × (true ≡ true → 0 < 4 → get_or (assign_numbers true ordered (replicate 4 9)) 0 0 ≡ 0)
assign_numbers-renames_example =
    assign_numbers-renames true 4 ordered (replicate 4 9) ordered-IsOrder refl (omega arith)

relabel-copies_example :
    copies
      (relabel (assign_numbers true ordered (replicate 4 9)) schedule edges)
      (get_or (assign_numbers true ordered (replicate 4 9)) 0 0)
      (get_or (assign_numbers true ordered (replicate 4 9)) 2 0)
    ≡ copies edges 0 2
relabel-copies_example =
    relabel-copies true 4 ordered (replicate 4 9) schedule edges ordered-IsOrder refl (omega arith)
      edges-IsSmall.ends 0 2 (omega arith) (omega arith)
