-- ===== src/Pagerank.antt =====
-- src/pagerank.cpp: `pr_push`, the PageRank kernel, with `atomicAdd` of include/util.h. `NB_NODES` is the
-- argument `nb_nodes`; `pr_pull` has an empty body.
pub mod Spreading
pub mod Settling
pub mod Iterations
use graph_benchmark.Base.{
  ℕ, zero, suc, ◌+◌, ◌-◌, ◌*◌, ◌/◌, List, [], ◌∷◌, Bool, true, false, ltb, ◌==◌, if◌then◌else◌,
  get_or, set, replicate, u32, Option, none, some,
}
use graph_benchmark.Graph.{Graph}
use graph_benchmark.Parallel.{parallel_for}

-- `rank` and `prev`, of `uint32_t`.
pub record Ranks : Type 0 where
  pub rank : List ℕ
  pub prev : List ℕ

-- The local variables of a run of the first loop body.
pub record Cursor : Type 0 where
  pub src : ℕ
  pub beg : ℕ
  pub end : ℕ
  pub delta : ℕ

-- At the loop's head, or in `atomicAdd` between its load and its compare-and-swap.
pub data Spread : Type 0 where
  scan : Cursor → Spread
  loaded : Cursor → (old_val : ℕ) → Spread
  spread : Cursor → Spread

-- One access to `rank`. A compare-and-swap that fails goes back to the load.
unfoldable pub spread_step : Graph → Spread → Ranks → Spread × Ranks
spread_step g (scan c) m = (
  if ltb c.beg c.end then loaded c (get_or m.rank (get_or g.out_edges c.beg 0) 0) else spread c,
  m,
)
spread_step g (loaded c old_val) m =
    let dst = get_or g.out_edges c.beg 0 in
    if get_or m.rank dst 0 == old_val
    then (
      scan (record c { beg = c.beg + 1 }),
      record m { rank = set m.rank dst (u32 (old_val + c.delta)) },
    )
    else (scan c, m)
spread_step g (spread c) m = (spread c, m)

-- The steps of a task that runs alone: no compare-and-swap fails, but for one whose load is stale.
abbrev pub spread_budget : Spread → ℕ
spread_budget (scan c) = 2 * (c.end - c.beg) + 1
spread_budget (loaded c old_val) = 2 * (c.end - c.beg) + 2
spread_budget (spread c) = 0

-- The runs of the first loop body for the nodes from `i` on, `n` of them.
unfoldable pub spreaders : Graph → List ℕ → ℕ → ℕ → List Spread
spreaders g prev i zero = []
spreaders g prev i (suc n) =
    scan (record {
      src = i;
      beg = get_or g.out_edge_offsets i 0;
      end = get_or g.out_edge_offsets (i + 1) 0;
      delta = get_or prev i 0 / 2;
    })
    ∷ spreaders g prev (i + 1) n

-- A run of the second loop body: before its first statement, between the two, and after.
pub data Settle : Type 0 where
  halve : (i : ℕ) → Settle
  reset : (i : ℕ) → Settle
  settled : (i : ℕ) → Settle

unfoldable pub settle_step : Settle → Ranks → Settle × Ranks
settle_step (halve i) m = (reset i, record m { prev = set m.prev i (get_or m.rank i 0 / 2) })
settle_step (reset i) m = (settled i, record m { rank = set m.rank i 0 })
settle_step (settled i) m = (settled i, m)

abbrev pub settle_budget : Settle → ℕ
settle_budget (halve i) = 2
settle_budget (reset i) = 1
settle_budget (settled i) = 0

unfoldable pub settlers : ℕ → ℕ → List Settle
settlers i zero = []
settlers i (suc n) = halve i ∷ settlers (i + 1) n

-- The interleavings of the two parallel loops of an iteration.
pub record Schedules : Type 0 where
  pub spreading : List ℕ
  pub settling : List ℕ

-- One round of the `while` loop.
unfoldable pub pr_iteration : Graph → ℕ → Schedules → Ranks → Ranks
pr_iteration g nb_nodes sched m =
    let m' =
      (parallel_for (spread_step g) spread_budget sched.spreading (spreaders g m.prev 0 nb_nodes)
        m).1 in
    (parallel_for settle_step settle_budget sched.settling (settlers 0 nb_nodes) m').1

-- `pr_push`, with `n` iterations left, the first of them number `it`.
unfoldable pub pr_push : Graph → ℕ → (ℕ → Schedules) → ℕ → ℕ → Ranks → Ranks
pr_push g nb_nodes scheds it zero m = m
pr_push g nb_nodes scheds it (suc n) m =
    pr_push g nb_nodes scheds (it + 1) n (pr_iteration g nb_nodes (scheds it) m)

-- `pr_hub` up to its output: `assert(iteration != 0)`, ranks of 0, previous ranks of 4, and the
-- `switch`; `pr_pull` does nothing, and any other option dies.
unfoldable pub pr_hub : Graph → ℕ → (ℕ → Schedules) → ℕ → ℕ → Option Ranks
pr_hub g nb_nodes scheds zero opt = none
pr_hub g nb_nodes scheds (suc n) zero = some (
    pr_push g nb_nodes scheds 0 (suc n)
      (record { rank = replicate nb_nodes 0; prev = replicate nb_nodes 4 }))
pr_hub g nb_nodes scheds (suc n) (suc zero) =
    some (record { rank = replicate nb_nodes 0; prev = replicate nb_nodes 4 })
pr_hub g nb_nodes scheds (suc n) (suc (suc opt)) = none
