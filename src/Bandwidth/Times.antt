-- ===== src/Bandwidth/Times.antt =====
-- bw/bw.h: the earliest start and the latest stop of all threads.
use graph_benchmark.Base.{
  ℕ, suc, ◌≡◌, ◌<◌, ◌≤◌, ◌^◌, ◌⊎◌, inl, inr, refl, List, [], ◌∷◌, arith, ltb, if◌then◌else◌, length,
  get_or, All, Bool-cases, sym,
}
use graph_benchmark.Bandwidth.{ThreadInfo}
use graph_benchmark.Bandwidth.Parts.{no_info}

-- The loop of `find_start`, from the minimum so far.
unfoldable pub find_start_loop : ℕ → List ThreadInfo → ℕ
find_start_loop min [] = min
find_start_loop min (info ∷ infos) =
    find_start_loop (if ltb info.start_cycle min then info.start_cycle else min) infos

unfoldable pub find_start : List ThreadInfo → ℕ
unfolding find_start_loop
find_start infos = find_start_loop 0xffffffffffffffff infos

unfoldable pub find_stop_loop : ℕ → List ThreadInfo → ℕ
find_stop_loop max [] = max
find_stop_loop max (info ∷ infos) =
    find_stop_loop (if ltb max info.stop_cycle then info.stop_cycle else max) infos

unfoldable pub find_stop : List ThreadInfo → ℕ
unfolding find_stop_loop
find_stop infos = find_stop_loop 0 infos

module _ (infos : List ThreadInfo) where
  -- No thread started earlier, and some thread started then.
  pub record IsStart (t : ℕ) : Type 0 where
    pub earliest : All (λ info. t ≤ info.start_cycle) infos
    pub taken : (i : ℕ) × (i < length infos) × ((get_or infos i no_info).start_cycle ≡ t)

  pub record IsStop (t : ℕ) : Type 0 where
    pub latest : All (λ info. info.stop_cycle ≤ t) infos
    pub taken : (i : ℕ) × (i < length infos) × ((get_or infos i no_info).stop_cycle ≡ t)

find_start_loop-le : (min : ℕ) (infos : List ThreadInfo) → find_start_loop min infos ≤ min
unfolding find_start_loop
find_start_loop-le min [] = omega arith
find_start_loop-le min (info ∷ infos) =
    ground (arith, find_start_loop-le info.start_cycle infos, find_start_loop-le min infos)

find_start_loop_earliest :
    (min : ℕ) (infos : List ThreadInfo)
    → All (λ info. find_start_loop min infos ≤ info.start_cycle) infos
unfolding find_start_loop
find_start_loop_earliest min [] = tt
find_start_loop_earliest min (info ∷ infos) = (
  ground (arith, find_start_loop-le info.start_cycle infos, find_start_loop-le min infos),
  find_start_loop_earliest (if ltb info.start_cycle min then info.start_cycle else min) infos,
)

-- The minimum is the one so far, or the time of a thread.
find_start_loop_taken :
    (min : ℕ) (infos : List ThreadInfo)
    → (find_start_loop min infos ≡ min)
      ⊎ ((i : ℕ) × (i < length infos)
          × ((get_or infos i no_info).start_cycle ≡ find_start_loop min infos))
unfolding find_start_loop
find_start_loop_taken min [] = inl refl
find_start_loop_taken min (info ∷ infos) = elim (Bool-cases (ltb info.start_cycle min)) [
  | inl less ↦ rw less (elim (find_start_loop_taken info.start_cycle infos) [
    | inl e ↦ inr (0, omega arith, sym e)
    | inr (i, lt, e) ↦ inr (suc i, omega arith, e)
  ])
  | inr more ↦ rw more (elim (find_start_loop_taken min infos) [
    | inl e ↦ inl e
    | inr (i, lt, e) ↦ inr (suc i, omega arith, e)
  ])
]

find_stop_loop-le : (max : ℕ) (infos : List ThreadInfo) → max ≤ find_stop_loop max infos
unfolding find_stop_loop
find_stop_loop-le max [] = omega arith
find_stop_loop-le max (info ∷ infos) =
    ground (arith, find_stop_loop-le info.stop_cycle infos, find_stop_loop-le max infos)

find_stop_loop_latest :
    (max : ℕ) (infos : List ThreadInfo)
    → All (λ info. info.stop_cycle ≤ find_stop_loop max infos) infos
unfolding find_stop_loop
find_stop_loop_latest max [] = tt
find_stop_loop_latest max (info ∷ infos) = (
  ground (arith, find_stop_loop-le info.stop_cycle infos, find_stop_loop-le max infos),
  find_stop_loop_latest (if ltb max info.stop_cycle then info.stop_cycle else max) infos,
)

find_stop_loop_taken :
    (max : ℕ) (infos : List ThreadInfo)
    → (find_stop_loop max infos ≡ max)
      ⊎ ((i : ℕ) × (i < length infos)
          × ((get_or infos i no_info).stop_cycle ≡ find_stop_loop max infos))
unfolding find_stop_loop
find_stop_loop_taken max [] = inl refl
find_stop_loop_taken max (info ∷ infos) = elim (Bool-cases (ltb max info.stop_cycle)) [
  | inl more ↦ rw more (elim (find_stop_loop_taken info.stop_cycle infos) [
    | inl e ↦ inr (0, omega arith, sym e)
    | inr (i, lt, e) ↦ inr (suc i, omega arith, e)
  ])
  | inr less ↦ rw less (elim (find_stop_loop_taken max infos) [
    | inl e ↦ inl e
    | inr (i, lt, e) ↦ inr (suc i, omega arith, e)
  ])
]

-- For at least one thread, and times that are 64-bit words, `find_start` is the earliest start and
-- `find_stop` the latest stop.
pub find_start-find_stop :
    (info : ThreadInfo) (infos : List ThreadInfo)
    → All (λ (i : ThreadInfo). i.start_cycle < 2 ^ 64) (info ∷ infos)
    → IsStart (info ∷ infos) (find_start (info ∷ infos))
      × IsStop (info ∷ infos) (find_stop (info ∷ infos))
unfolding find_start find_stop
find_start-find_stop info infos words = (
  record {
    earliest = find_start_loop_earliest 0xffffffffffffffff (info ∷ infos);
    taken = elim (find_start_loop_taken 0xffffffffffffffff (info ∷ infos)) [
      | inl e ↦
          let first = (find_start_loop_earliest 0xffffffffffffffff (info ∷ infos)).0 in
          (0, omega arith, omega (arith, e, first, words.0))
      | inr t ↦ t
    ];
  },
  record {
    latest = find_stop_loop_latest 0 (info ∷ infos);
    taken = elim (find_stop_loop_taken 0 (info ∷ infos)) [
      | inl e ↦
          let first = (find_stop_loop_latest 0 (info ∷ infos)).0 in
          (0, omega arith, omega (arith, e, first))
      | inr t ↦ t
    ];
  },
)
