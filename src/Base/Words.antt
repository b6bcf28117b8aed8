-- ===== src/Base/Words.antt =====
-- The program's machine words: a value of `uint32_t` or `size_t` is a number below the modulus.
use Prim.Native.Nat.{ℕ, ◌^◌, ◌%◌, ◌<◌}
use mathlib.Core.Path.{◌≡◌}
use native.Mathlib.Omega.{arith}

-- Arithmetic of `uint32_t`, modulo 2^32.
abbrev pub u32 : ℕ → ℕ
u32 n = n % 2 ^ 32

-- Arithmetic of `size_t` and `uint64_t`, modulo 2^64.
abbrev pub u64 : ℕ → ℕ
u64 n = n % 2 ^ 64

pub u32-eq_of_lt : (n : ℕ) → n < 2 ^ 32 → u32 n ≡ n
u32-eq_of_lt n h = omega arith

pub u64-eq_of_lt : (n : ℕ) → n < 2 ^ 64 → u64 n ≡ n
u64-eq_of_lt n h = omega arith
