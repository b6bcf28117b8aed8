-- ===== src/Parallel.antt =====
-- `parallel_for` (oneTBB, not part of the repository) as the sources use it: the body is run once for
-- each index of the range, and the runs overlap in any order. One index is one task, except in the push
-- search, where a thread with its indices is one. A task is a state machine whose step is one access to
-- shared memory, and a schedule names the task that moves next, so that all interleavings of all
-- partitions of the range are covered. Memory is sequentially consistent.
pub mod Rule
pub mod Commute
pub mod Owner
use graph_benchmark.Base.{ℕ, zero, suc, List, [], ◌∷◌, ◌++◌, ◌≡◌, All}

module _ {M T : Type 0} (step : T → M → T × M) where
  -- Task `i` makes one step; an index that names no task makes none.
  abbrev pub pick : ℕ → List T → M → List T × M
  pick i [] m = ([], m)
  pick zero (t ∷ ts) m = let (t', m') = step t m in (t' ∷ ts, m')
  pick (suc i) (t ∷ ts) m = let (ts', m') = pick i ts m in (t ∷ ts', m')

  -- The tasks in the order of a schedule.
  unfoldable pub run : List ℕ → List T → M → List T × M
  run [] ts m = (ts, m)
  run (i ∷ is) ts m = let (ts', m') = pick i ts m in run is ts' m'

  -- One task alone, for `n` steps.
  unfoldable pub advance : ℕ → T → M → T × M
  advance zero t m = (t, m)
  advance (suc n) t m = let (t', m') = step t m in advance n t' m'

  -- What a schedule leaves unfinished, task after task; `budget` bounds the steps of a task alone.
  unfoldable pub drain : (T → ℕ) → List T → M → List T × M
  unfolding advance
  drain budget [] m = ([], m)
  drain budget (t ∷ ts) m =
      let (t', m') = advance (budget t) t m in
      let (ts', m'') = drain budget ts m' in (t' ∷ ts', m'')

  -- `arena.execute(f)`: returns when every task has ended. A schedule that runs all tasks to their end
  -- leaves nothing to drain, and every schedule is completed.
  unfoldable pub parallel_for : (T → ℕ) → List ℕ → List T → M → List T × M
  unfolding run drain
  parallel_for budget schedule ts m = let (ts', m') = run schedule ts m in drain budget ts' m'

  -- A property of the tasks and the memory that every step of every task keeps.
  abbrev pub Keeps {κ} : (List T → M → Type κ) → Type κ
  Keeps P =
      (pre : List T) (t : T) (post : List T) (m : M)
      → P (pre ++ t ∷ post) m
      → P (pre ++ (step t m).0 ∷ post) (step t m).1
