-- ===== src/Pebs/Setup.antt =====
-- The events of `cache_event_setup`.
use graph_benchmark.Base.{
  ℕ, zero, suc, ℤ, pos, negsuc, ◌+◌, ◌≡◌, ◌<◌, refl, none, some, >>=-eq-none, map, arith, true,
  range_from,
}
use graph_benchmark.Pebs.{
  Kernel, type_raw, local_dram, sample_attr, opened, perf_sample_setup, setup_loop,
  cache_event_setup,
}

-- What the kernel answers for processor `i`.
abbrev pub answer : Kernel → ℕ → ℤ
answer os i = os.open_event (sample_attr type_raw local_dram 0) (negsuc 0) (pos i) (negsuc 0)

setup_loop-none :
    (os : Kernel) (i n k : ℕ) → k < n → answer os (i + k) ≡ negsuc 0 → setup_loop os i n ≡ none
unfolding setup_loop perf_sample_setup opened
setup_loop-none os i zero k h e = absurd (omega arith)
setup_loop-none os i (suc n) zero h e =
    let here : i + 0 ≡ i = omega arith in
    let failed : answer os i ≡ negsuc 0 = rw here at e in rw failed refl
setup_loop-none os i (suc n) (suc k) h e =
    let later : i + suc k ≡ i + 1 + k = omega arith in
    >>=-eq-none (perf_sample_setup os type_raw local_dram 0 i (negsuc 0)) _
      (λ fd. rw (setup_loop-none os (i + 1) n k (omega arith) (rw later at e)) refl)

setup_loop-opens :
    (os : Kernel) (fd : ℕ → ℕ) (i n : ℕ)
    → ((k : ℕ) → answer os k ≡ pos (fd k))
    → ((k : ℕ) → os.map_ok (pos (fd k)) ≡ true)
    → setup_loop os i n ≡ some (map (λ k. pos (fd k)) (range_from i n))
unfolding setup_loop perf_sample_setup opened
setup_loop-opens os fd i zero opens maps = refl
setup_loop-opens os fd i (suc n) opens maps =
    rw (opens i, maps i, setup_loop-opens os fd (i + 1) n opens maps) refl

-- If the kernel opens and maps an event on every processor, `cache_event_setup` keeps the descriptors in
-- the order of the processors.
pub cache_event_setup-opens :
    (os : Kernel) (fd : ℕ → ℕ) (threads : ℕ)
    → ((k : ℕ) → answer os k ≡ pos (fd k))
    → ((k : ℕ) → os.map_ok (pos (fd k)) ≡ true)
    → cache_event_setup os threads ≡ some (map (λ k. pos (fd k)) (range_from 0 threads))
unfolding cache_event_setup
cache_event_setup-opens os fd threads opens maps = setup_loop-opens os fd 0 threads opens maps

-- If the kernel refuses the event on the processor of one of the threads, `cache_event_setup` dies.
pub cache_event_setup-none :
    (os : Kernel) (threads k : ℕ)
    → k < threads
    → answer os k ≡ negsuc 0
    → cache_event_setup os threads ≡ none
unfolding cache_event_setup
cache_event_setup-none os threads k h e =
    let same : 0 + k ≡ k = omega arith in setup_loop-none os 0 threads k h (rw same e)
