-- ===== src/Tests/BarrierTests.antt =====
-- A run of the barrier of bw/bw.cpp, and its theorems at it.
use graph_benchmark.Base.{ℕ, ◌*◌, ◌≡◌, ◌≢◌, ◌<◌, ◌≤◌, ◌⊎◌, inl, refl, arith, [], ◌∷◌, get_or}
use graph_benchmark.Bandwidth.Barrier.{
  Hall, outside, awake, passed, wake, barrier_init, barrier_cross, Step, cross, Reach, here, next,
}
use graph_benchmark.Bandwidth.Barrier.Crossing.{steps, barrier_cross_safe, barrier_cross_passes}
use graph_benchmark.Bandwidth.Barrier.Uncounted.{barrier_cross_uncounted}

-- Thread 1 waits, thread 0 lets both through.
abbrev both : Hall
both = barrier_cross 0 (barrier_cross 1 (barrier_init 2 2))

both-runs :
    both ≡ record { barrier = record { count = 2; crossed = 0 }; phases = passed ∷ awake ∷ [] }
unfolding barrier_init barrier_cross wake
both-runs = refl

both-Reach : Reach (barrier_init 2 2) both
unfolding barrier_init barrier_cross
both-Reach = next (next here (cross 1 (omega arith) refl)) (cross 0 (omega arith) refl)

barrier_cross_safe_example : get_or both.phases 0 passed ≢ outside
unfolding barrier_init barrier_cross wake
barrier_cross_safe_example =
    barrier_cross_safe 2 (omega arith) both-Reach 1 0 (omega arith) (omega arith) (inl refl)

barrier_cross_passes_example :
    (steps both-Reach ≤ 2 * 2)
    × (((i : ℕ) → i < 2 → get_or both.phases i passed ≡ passed) ⊎ ((t : Hall) × Step both t))
barrier_cross_passes_example = barrier_cross_passes 2 (omega arith) both-Reach

-- The same threads at a barrier that is not set up: thread 1 passes at once.
abbrev alone : Hall
alone = barrier_cross 1 (barrier_init 0 2)

alone-Reach : Reach (barrier_init 0 2) alone
unfolding barrier_init
alone-Reach = next here (cross 1 (omega arith) refl)

barrier_cross_uncounted_example :
    (get_or alone.phases 1 passed ≡ outside) ⊎ (get_or alone.phases 1 passed ≡ passed)
barrier_cross_uncounted_example = barrier_cross_uncounted 2 alone-Reach 1
