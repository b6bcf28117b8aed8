-- ===== src/Bandwidth/Barrier/Crossing.antt =====
-- No thread is behind the barrier while another is before it, and all threads get through.
use graph_benchmark.Base.{
  ℕ, zero, suc, ◌+◌, ◌*◌, ◌≡◌, ◌≢◌, ◌<◌, ◌≤◌, ◌⊎◌, inl, inr, refl, ◌∙◌, map, replicate, arith,
  length, get_or, total, total-modify, total-get_or, length-map, length-modify, length-replicate,
  ltb, Bool-cases, ltb→lt, true, dec_lt,
}
use graph_benchmark.Bandwidth.Barrier.{
  outside, waiting, awake, passed, Hall, wake, barrier_init, barrier_cross, barrier_leave, Step,
  cross, leave, Reach, here, next,
}
use graph_benchmark.Bandwidth.Barrier.Phases.{
  is_outside, is_waiting, is_released, to_go, is_awake, eq_outside, eq_awake, all_passed,
  three_kinds, wake_all, get_or-map_outside, summand,
}

-- Before the broadcast `crossed` counts the threads that wait; after it no thread is before the barrier.
record Balance (n : ℕ) (h : Hall) : Type 0 where
  counted : h.barrier.count ≡ n
  size : length h.phases ≡ n
  stage :
      ((h.barrier.crossed ≡ total is_waiting h.phases)
        × (total is_outside h.phases + total is_waiting h.phases ≡ n)
        × (h.barrier.crossed < n))
      ⊎ ((total is_outside h.phases ≡ 0) × (total is_waiting h.phases ≡ 0))

module _ (n : ℕ) (h : Hall) (b : Balance n h) (i : ℕ) (lt : i < length h.phases) where
  cross-Balance :
      get_or h.phases i passed ≡ outside
      → Balance n (barrier_cross i h)
        × (total to_go (barrier_cross i h).phases < total to_go h.phases)
  unfolding barrier_cross
  cross-Balance e = elim (Bool-cases (ltb (h.barrier.crossed + 1) h.barrier.count)) [
    | inl early ↦
        let outs = rw e at (total-modify is_outside h.phases i (λ _. waiting) passed lt) in
        let waits = rw e at (total-modify is_waiting h.phases i (λ _. waiting) passed lt) in
        let goes = rw e at (total-modify to_go h.phases i (λ _. waiting) passed lt) in
        rw early (
          record {
            counted = b.counted;
            size = length-modify h.phases i (λ _. waiting) ∙ b.size;
            stage = elim b.stage [
              | inl (c, all, less) ↦ inl (
                omega (arith, c, waits),
                omega (arith, all, outs, waits),
                omega (arith, b.counted, ltb→lt _ _ early),
              )
              | inr (none, _) ↦ absurd (omega (arith, outs, none))
            ];
          },
          omega (arith, goes),
        )
    | inr last ↦
        let woken = map wake h.phases in
        let lt' : i < length woken = omega (arith, length-map wake h.phases) in
        let all_awake = wake_all h.phases in
        let here_outside = get_or-map_outside h.phases i e in
        let outs = rw here_outside at (total-modify is_outside woken i (λ _. passed) passed lt') in
        let waits = rw here_outside at (total-modify is_waiting woken i (λ _. passed) passed lt') in
        let goes = rw here_outside at (total-modify to_go woken i (λ _. passed) passed lt') in
        rw last (
          record {
            counted = b.counted;
            size = length-modify woken i (λ _. passed) ∙ length-map wake h.phases ∙ b.size;
            stage = elim b.stage [
              | inl (c, all, less) ↦
                  let full : n ≤ h.barrier.crossed + 1 = ground (arith, last, b.counted) in
                  inr
                    (omega (arith, outs, all_awake, c, all, full), omega (arith, waits, all_awake))
              | inr (none, _) ↦ absurd (omega (arith, outs, none, all_awake))
            ];
          },
          omega (arith, goes, all_awake),
        )
  ]

  leave-Balance :
      get_or h.phases i passed ≡ awake
      → Balance n (barrier_leave i h)
        × (total to_go (barrier_leave i h).phases < total to_go h.phases)
  unfolding barrier_leave
  leave-Balance e =
      let outs = rw e at (total-modify is_outside h.phases i (λ _. passed) passed lt) in
      let waits = rw e at (total-modify is_waiting h.phases i (λ _. passed) passed lt) in
      let goes = rw e at (total-modify to_go h.phases i (λ _. passed) passed lt) in
      (
        record {
          counted = b.counted;
          size = length-modify h.phases i (λ _. passed) ∙ b.size;
          stage = elim b.stage [
            | inl (c, all, less) ↦
                inl (omega (arith, c, waits), omega (arith, all, outs, waits), less)
            | inr (no_outs, no_waits) ↦ inr (omega (arith, outs), omega (arith, waits))
          ];
        },
        omega (arith, goes),
      )

Step-Balance :
    (n : ℕ) {h t : Hall}
    → Balance n h
    → Step h t
    → Balance n t × (total to_go t.phases < total to_go h.phases)
Step-Balance n {h} b (cross i lt e) = cross-Balance n h b i lt e
Step-Balance n {h} b (leave i lt e) = leave-Balance n h b i lt e

total-outside :
    (n : ℕ)
    → (total is_outside (replicate n outside) ≡ n)
      × (total is_waiting (replicate n outside) ≡ 0)
      × (total to_go (replicate n outside) ≡ 2 * n)
total-outside zero = omega arith
total-outside (suc n) = omega (arith, total-outside n)

-- The steps of a run.
abbrev pub steps : {h t : Hall} → Reach h t → ℕ
steps here = 0
steps (next r s) = steps r + 1

module _ (n : ℕ) (some_threads : 0 < n) where
  init-Balance : Balance n (barrier_init n n)
  unfolding barrier_init
  init-Balance =
      let start = total-outside n in
      record {
        counted = refl;
        size = length-replicate n outside;
        stage = inl (omega (arith, start), omega (arith, start), some_threads);
      }

  Reach-Balance :
      {h : Hall} (r : Reach (barrier_init n n) h)
      → Balance n h × (steps r + total to_go h.phases ≤ 2 * n)
  unfolding barrier_init
  Reach-Balance here = (init-Balance, omega (arith, total-outside n))
  Reach-Balance (next {t} r s) =
      let (b, le) = Reach-Balance r in
      let (b', less) = Step-Balance n b s in (b', omega (arith, le, less))

  -- Without spurious wake-ups, and with as many threads as the barrier counts: when a thread has been let
  -- through, no thread is before the barrier.
  pub barrier_cross_safe :
      {h : Hall}
      → Reach (barrier_init n n) h
      → (i j : ℕ) → i < n
      → j < n
      → (get_or h.phases i passed ≡ awake) ⊎ (get_or h.phases i passed ≡ passed)
      → get_or h.phases j passed ≢ outside
  barrier_cross_safe {h} r i j hi hj through e =
      let (b, _) = Reach-Balance r in
      let let_through : 1 ≤ is_released (get_or h.phases i passed) = elim through [
        | inl w ↦ rw w (omega arith)
        | inr p ↦ rw p (omega arith)
      ] in
      let before : 1 ≤ is_outside (get_or h.phases j passed) = rw e (omega arith) in
      let some_released = total-get_or is_released h.phases i passed (omega (arith, b.size)) in
      let some_outside = total-get_or is_outside h.phases j passed (omega (arith, b.size)) in
      let kinds = three_kinds h.phases in
      elim b.stage [
        | inl (c, all, less) ↦ omega (arith, all, kinds, b.size)
        | inr (no_outs, _) ↦ omega (arith, no_outs)
      ]

  -- Every run has at most two steps for a thread, and as long as not all threads have passed, one of them
  -- can make a step: all threads get through.
  pub barrier_cross_passes :
      {h : Hall} (r : Reach (barrier_init n n) h)
      → (steps r ≤ 2 * n)
        × (((i : ℕ) → i < n → get_or h.phases i passed ≡ passed) ⊎ ((t : Hall) × Step h t))
  barrier_cross_passes {h} r =
      let (b, le) = Reach-Balance r in
      (
        omega (arith, le),
        elim (dec_lt 0 (total is_outside h.phases)) [
          | yes some_outside ↦
              let (i, lt, more) = summand is_outside h.phases some_outside in
              inr (barrier_cross i h, cross i lt (eq_outside (get_or h.phases i passed) more))
          | no none_outside ↦ elim (dec_lt 0 (total is_awake h.phases)) [
            | yes some_awake ↦
                let (i, lt, more) = summand is_awake h.phases some_awake in
                inr (barrier_leave i h, leave i lt (eq_awake (get_or h.phases i passed) more))
            | no none_awake ↦
                let none_waiting : total is_waiting h.phases ≡ 0 = elim b.stage [
                  | inl (c, all, less) ↦ absurd (omega (arith, c, all, less, none_outside))
                  | inr (_, no_waits) ↦ no_waits
                ] in
                inl (λ i lt. all_passed h.phases i (omega arith) none_waiting (omega arith))
          ]
        ],
      )

-- A wait that returns without a broadcast lets its thread through, since the wait is in no loop: with two
-- or more threads, a thread that wakes by itself has passed while another has not come.
pub spurious_wake :
    (n : ℕ)
    → let h = barrier_cross 0 (barrier_init (n + 2) (n + 2)) in
      let t = barrier_leave 0 h in
      (get_or t.phases 0 passed ≡ passed) × (get_or t.phases 1 passed ≡ outside)
unfolding barrier_init barrier_cross barrier_leave
spurious_wake n =
    let two : n + 2 ≡ suc (suc n) = omega arith in
    let early : ltb (0 + 1) (suc (suc n)) ≡ true = ground arith in rw (two, early) (refl, refl)
