-- ===== src/Bandwidth/Barrier/Phases.antt =====
-- Counts of the threads of a hall by where they stand.
use graph_benchmark.Base.{
  ℕ, zero, suc, ◌+◌, ◌≡◌, ◌<◌, refl, List, [], ◌∷◌, map, arith, length, get_or, total, dec_lt,
}
use graph_benchmark.Bandwidth.Barrier.{Phase, outside, waiting, awake, passed, wake}

abbrev pub is_outside : Phase → ℕ
is_outside outside = 1
is_outside waiting = 0
is_outside awake = 0
is_outside passed = 0

abbrev pub is_waiting : Phase → ℕ
is_waiting outside = 0
is_waiting waiting = 1
is_waiting awake = 0
is_waiting passed = 0

abbrev pub is_released : Phase → ℕ
is_released outside = 0
is_released waiting = 0
is_released awake = 1
is_released passed = 1

-- The steps that a thread has before it.
abbrev pub to_go : Phase → ℕ
to_go outside = 2
to_go waiting = 1
to_go awake = 1
to_go passed = 0

abbrev pub is_awake : Phase → ℕ
is_awake outside = 0
is_awake waiting = 0
is_awake awake = 1
is_awake passed = 0

pub eq_outside : (p : Phase) → 0 < is_outside p → p ≡ outside
eq_outside outside h = refl
eq_outside waiting h = absurd (omega arith)
eq_outside awake h = absurd (omega arith)
eq_outside passed h = absurd (omega arith)

pub eq_awake : (p : Phase) → 0 < is_awake p → p ≡ awake
eq_awake awake h = refl
eq_awake outside h = absurd (omega arith)
eq_awake waiting h = absurd (omega arith)
eq_awake passed h = absurd (omega arith)

-- Where nobody is before the barrier, waits, or has only been woken, all have passed.
pub all_passed :
    (ps : List Phase) (i : ℕ)
    → total is_outside ps ≡ 0
    → total is_waiting ps ≡ 0
    → total is_awake ps ≡ 0
    → get_or ps i passed ≡ passed
all_passed [] i a b c = refl
all_passed (outside ∷ ps) i a b c = absurd (omega arith)
all_passed (waiting ∷ ps) i a b c = absurd (omega arith)
all_passed (awake ∷ ps) i a b c = absurd (omega arith)
all_passed (passed ∷ ps) zero a b c = refl
all_passed (passed ∷ ps) (suc i) a b c = all_passed ps i (omega arith) (omega arith) (omega arith)

pub three_kinds :
    (ps : List Phase) → total is_outside ps + total is_waiting ps + total is_released ps ≡ length ps
three_kinds [] = omega arith
three_kinds (outside ∷ ps) = omega (arith, three_kinds ps)
three_kinds (waiting ∷ ps) = omega (arith, three_kinds ps)
three_kinds (awake ∷ ps) = omega (arith, three_kinds ps)
three_kinds (passed ∷ ps) = omega (arith, three_kinds ps)

-- The broadcast leaves no thread in its wait, and moves no other.
pub wake_all :
    (ps : List Phase)
    → (total is_waiting (map wake ps) ≡ 0)
      × (total is_outside (map wake ps) ≡ total is_outside ps)
      × (total to_go (map wake ps) ≡ total to_go ps)
unfolding wake
wake_all [] = omega arith
wake_all (outside ∷ ps) = omega (arith, wake_all ps)
wake_all (waiting ∷ ps) = omega (arith, wake_all ps)
wake_all (awake ∷ ps) = omega (arith, wake_all ps)
wake_all (passed ∷ ps) = omega (arith, wake_all ps)

pub get_or-map_outside :
    (ps : List Phase) (i : ℕ)
    → get_or ps i passed ≡ outside
    → get_or (map wake ps) i passed ≡ outside
unfolding wake
get_or-map_outside [] i e = e
get_or-map_outside (outside ∷ ps) zero e = refl
get_or-map_outside (waiting ∷ ps) zero e = cc
get_or-map_outside (awake ∷ ps) zero e = cc
get_or-map_outside (passed ∷ ps) zero e = cc
get_or-map_outside (p ∷ ps) (suc i) e = get_or-map_outside ps i e

-- A sum that is not 0 has a summand that is not 0.
pub summand :
    (w : Phase → ℕ) (ps : List Phase)
    → 0 < total w ps
    → (i : ℕ) × (i < length ps) × (0 < w (get_or ps i passed))
summand w [] h = absurd (omega arith)
summand w (p ∷ ps) h = elim (dec_lt 0 (w p)) [
  | yes first ↦ (0, omega arith, first)
  | no none ↦ let (i, lt, more) = summand w ps (omega arith) in (suc i, omega arith, more)
]
