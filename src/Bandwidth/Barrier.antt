-- ===== src/Bandwidth/Barrier.antt =====
-- bw/bw.cpp: the barrier that the threads cross before they measure.
pub mod Phases
pub mod Crossing
pub mod Uncounted
use graph_benchmark.Base.{
  ℕ, zero, suc, ◌+◌, ◌-◌, ◌*◌, ◌≡◌, ◌<◌, ◌≤◌, ◌⊎◌, inl, inr, refl, sym, ap, ◌∙◌, List, [], ◌∷◌, map,
  replicate, arith, length, get_or, modify, total, total-modify, total-get_or, length-map, ltb,
  Bool-cases, if◌then◌else◌, ltb→lt, Bool, true, false,
}

-- `barrier_t` without the handles of pthreads.
pub record BarrierState : Type 0 where
  pub count : ℕ
  pub crossed : ℕ

-- Where a thread stands: before `barrier_cross`, in `pthread_cond_wait`, woken there, or behind it.
pub data Phase : Type 0 where
  outside waiting awake passed : Phase

pub record Hall : Type 0 where
  pub barrier : BarrierState
  pub phases : List Phase

-- `pthread_cond_broadcast`
unfoldable pub wake : Phase → Phase
wake outside = outside
wake waiting = awake
wake awake = awake
wake passed = passed

-- `barrier_init`, before `threads` threads run.
unfoldable pub barrier_init : ℕ → ℕ → Hall
barrier_init count threads = record {
  barrier = record { count = count; crossed = 0 };
  phases = replicate threads outside;
}

-- `barrier_cross` of thread `i` from its lock on: to the wait, or to the end.
unfoldable pub barrier_cross : ℕ → Hall → Hall
barrier_cross i h =
    let crossed = h.barrier.crossed + 1 in
    if ltb crossed h.barrier.count
    then record {
      barrier = record { count = h.barrier.count; crossed = crossed };
      phases = modify h.phases i (λ _. waiting);
    }
    else record {
      barrier = record { count = h.barrier.count; crossed = 0 };
      phases = modify (map wake h.phases) i (λ _. passed);
    }

-- `pthread_cond_wait` returns to a thread that has been woken, and it unlocks.
unfoldable pub barrier_leave : ℕ → Hall → Hall
barrier_leave i h = record h { phases = modify h.phases i (λ _. passed) }

-- A step of some thread; the mutex makes each a single one. No thread wakes without a broadcast.
pub data Step (h : Hall) : Hall → Type 0 where
  cross :
      (i : ℕ)
      → i < length h.phases
      → get_or h.phases i passed ≡ outside
      → Step h (barrier_cross i h)
  leave :
      (i : ℕ) → i < length h.phases → get_or h.phases i passed ≡ awake → Step h (barrier_leave i h)

pub data Reach (h : Hall) : Hall → Type 0 where
  here : Reach h h
  next : {t u : Hall} → Reach h t → Step t u → Reach h u
