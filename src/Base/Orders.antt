-- ===== src/Base/Orders.antt =====
-- The indices below a bound, in some order.
use Prim.Native.Nat.{ℕ, zero, suc, ◌+◌, ◌<◌, ◌≤◌}
use mathlib.Core.Path.{◌≡◌, refl, ap}
use mathlib.Core.List.{List, [], ◌∷◌}
use native.Mathlib.Decide.{ℕ_discrete}
use native.Mathlib.Omega.{arith}
use graph_benchmark.Base.Lists.{length, get_or}
use graph_benchmark.Base.Counting.{count}

-- `i`, `i + 1`, …, `n` of them.
abbrev pub range_from : ℕ → ℕ → List ℕ
range_from i zero = []
range_from i (suc n) = i ∷ range_from (i + 1) n

pub range_from-low : (x i n : ℕ) → suc x ≤ i → count x (range_from i n) ≡ 0
range_from-low x i zero h = refl
range_from-low x i (suc n) h = ground (arith, range_from-low x (i + 1) n)

pub range_from-distinct : (x i n : ℕ) → count x (range_from i n) ≤ 1
range_from-distinct x i zero = omega arith
range_from-distinct x i (suc n) =
    ground (arith, range_from-distinct x (i + 1) n, range_from-low x (i + 1) n)

pub range_from-listed : (x i n : ℕ) → i ≤ x → suc x ≤ i + n → 0 < count x (range_from i n)
range_from-listed x i zero low high = absurd (omega arith)
range_from-listed x i (suc n) low high = elim (ℕ_discrete x i) [
  | yes e ↦ ground arith
  | no ne ↦ ground (arith, range_from-listed x (i + 1) n)
]

pub length-range_from : (i n : ℕ) → length (range_from i n) ≡ n
length-range_from i zero = refl
length-range_from i (suc n) = ap suc (length-range_from (i + 1) n)

pub get_or-range_from : (i n j : ℕ) → j < n → get_or (range_from i n) j 0 ≡ i + j
get_or-range_from i zero j lt = absurd (omega arith)
get_or-range_from i (suc n) zero lt = omega arith
get_or-range_from i (suc n) (suc j) lt = omega (arith, get_or-range_from (i + 1) n j (omega arith))

-- Every index below `len` stands once in the list.
pub record IsOrder (len : ℕ) (indices : List ℕ) : Type 0 where
  pub size : length indices ≡ len
  pub once : (x : ℕ) → count x indices ≤ 1
  pub low : (i : ℕ) → i < len → get_or indices i 0 < len
  pub all : (x : ℕ) → x < len → 0 < count x indices

pub range_from-IsOrder : (len : ℕ) → IsOrder len (range_from 0 len)
range_from-IsOrder len = record {
  size = length-range_from 0 len;
  once = λ x. range_from-distinct x 0 len;
  low = λ i lt. omega (arith, get_or-range_from 0 len i lt);
  all = λ x lt. range_from-listed x 0 len (omega arith) (omega arith);
}
