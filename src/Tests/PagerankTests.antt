-- ===== src/Tests/PagerankTests.antt =====
-- Runs of src/pagerank.cpp, and its theorem at one.
use graph_benchmark.Base.{ℕ, zero, suc, ◌≡◌, ◌<◌, refl, arith, [], ◌∷◌, some, get_or}
use graph_benchmark.Parallel.{parallel_for, run, drain, advance}
use graph_benchmark.Pagerank.{
  Ranks, Schedules, pr_hub, pr_push, pr_iteration, spreaders, spread_step, settlers, settle_step,
}
use graph_benchmark.Pagerank.Spreading.{HasCells}
use graph_benchmark.Pagerank.Iterations.{prev_after, pr_hub-push}
use graph_benchmark.Tests.Data.{sample, schedule}

abbrev schedules : ℕ → Schedules
schedules it = record { spreading = schedule; settling = schedule }

sample-HasCells : HasCells 4 sample
sample-HasCells zero lt = omega arith
sample-HasCells (suc zero) lt = omega arith
sample-HasCells (suc (suc zero)) lt = omega arith
sample-HasCells (suc (suc (suc zero))) lt = omega arith
sample-HasCells (suc (suc (suc (suc v)))) lt = absurd (omega arith)

-- Two edges lead from node 0 to node 2, and one from node 1.
pr_hub-runs :
    pr_hub sample 4 schedules 1 0
    ≡ some record { rank = 0 ∷ 0 ∷ 0 ∷ 0 ∷ []; prev = 0 ∷ 1 ∷ 3 ∷ 0 ∷ [] }
unfolding pr_hub pr_push pr_iteration spreaders spread_step settlers settle_step parallel_for run
    drain advance
pr_hub-runs = refl

pr_hub-push_example :
    (m : Ranks) × (pr_hub sample 4 schedules 2 0 ≡ some m)
    × ((x : ℕ)
        → x < 4
        → (get_or m.prev x 0 ≡ prev_after sample 4 2 (λ _. 4) x) × (get_or m.rank x 0 ≡ 0))
pr_hub-push_example = pr_hub-push sample 4 sample-HasCells schedules 1
