-- ===== src/Base/Counting.antt =====
-- How often a number stands in a list.
use Prim.Native.Nat.{ℕ, zero, suc, ◌+◌, ◌<◌, ◌≤◌}
use mathlib.Core.Path.{◌≡◌, refl, ap, sym}
use mathlib.Core.Logic.{◌≢◌}
use mathlib.Core.List.{List, [], ◌∷◌}
use native.Mathlib.Decide.{ℕ_discrete}
use native.Mathlib.Omega.{arith}
use graph_benchmark.Base.Tests.{◌==◌, if◌then◌else◌}
use graph_benchmark.Base.Lists.{length, get_or, set, total}

-- How often a number occurs.
abbrev pub count : ℕ → List ℕ → ℕ
count a xs = total (λ x. if a == x then 1 else 0) xs

-- A write of another value over one occurrence of `a` takes one away.
pub count-set :
    (a v : ℕ) (xs : List ℕ) (i d : ℕ)
    → i < length xs
    → get_or xs i d ≡ a
    → v ≢ a
    → count a (set xs i v) + 1 ≡ count a xs
count-set a v [] i d h e ne = absurd (omega arith)
count-set a v (x ∷ xs) zero d h e ne = ground (arith, ne)
count-set a v (x ∷ xs) (suc i) d h e ne = ground (arith, count-set a v xs i d)

pub count-le-length : (a : ℕ) (xs : List ℕ) → count a xs ≤ length xs
count-le-length a [] = omega arith
count-le-length a (x ∷ xs) = ground (arith, count-le-length a xs)

pub count-get_or : (xs : List ℕ) (i d : ℕ) → i < length xs → 0 < count (get_or xs i d) xs
count-get_or [] i d h = absurd (omega arith)
count-get_or (x ∷ xs) zero d h = ground arith
count-get_or (x ∷ xs) (suc i) d h = ground (arith, count-get_or xs i d)

-- Where no cell falls, no zeros come up.
pub count-zero_le :
    (xs ys : List ℕ)
    → length xs ≡ length ys
    → ((i : ℕ) → get_or xs i 0 ≤ get_or ys i 0)
    → count 0 ys ≤ count 0 xs
count-zero_le [] [] e h = omega arith
count-zero_le [] (y ∷ ys) e h = absurd (omega arith)
count-zero_le (x ∷ xs) [] e h = absurd (omega arith)
count-zero_le (x ∷ xs) (y ∷ ys) e h =
    ground (arith, h 0, count-zero_le xs ys (omega arith) (λ i. h (suc i)))

-- A zero that goes away is one less.
pub count-zero_lt :
    (xs ys : List ℕ) (i : ℕ)
    → length xs ≡ length ys
    → ((i : ℕ) → get_or xs i 0 ≤ get_or ys i 0)
    → i < length xs
    → get_or xs i 0 ≡ 0
    → 0 < get_or ys i 0
    → count 0 ys < count 0 xs
count-zero_lt [] ys i e h lt a b = absurd (omega arith)
count-zero_lt (x ∷ xs) [] i e h lt a b = absurd (omega arith)
count-zero_lt (x ∷ xs) (y ∷ ys) zero e h lt a b =
    ground (arith, count-zero_le xs ys (omega arith) (λ i. h (suc i)))
count-zero_lt (x ∷ xs) (y ∷ ys) (suc i) e h lt a b =
    ground (arith, h 0, count-zero_lt xs ys i (omega arith) (λ j. h (suc j)) (omega arith) a b)

repeated : (x : ℕ) (xs : List ℕ) (j : ℕ) → count x (x ∷ xs) ≤ 1 → j < length xs → get_or xs j 0 ≢ x
repeated x xs j once h e =
    let there : 0 < count x xs = rw e at (count-get_or xs j 0 h) in ground arith

-- In a list without repetitions a value stands at one index.
pub index_unique :
    (xs : List ℕ) (i j : ℕ)
    → ((x : ℕ) → count x xs ≤ 1)
    → i < length xs
    → j < length xs
    → get_or xs i 0 ≡ get_or xs j 0
    → i ≡ j
index_unique [] i j once hi hj e = absurd (omega arith)
index_unique (x ∷ xs) zero zero once hi hj e = refl
index_unique (x ∷ xs) zero (suc j) once hi hj e =
    absurd (repeated x xs j (once x) (omega arith) (sym e))
index_unique (x ∷ xs) (suc i) zero once hi hj e = absurd (repeated x xs i (once x) (omega arith) e)
index_unique (x ∷ xs) (suc i) (suc j) once hi hj e =
    ap suc (index_unique xs i j (λ y. omega (arith, once y)) (omega arith) (omega arith) e)

-- An element that occurs stands at some index.
pub index_of :
    (x : ℕ) (xs : List ℕ) → 0 < count x xs → (i : ℕ) × (i < length xs) × (get_or xs i 0 ≡ x)
index_of x [] h = absurd (omega arith)
index_of x (y ∷ ys) h = elim (ℕ_discrete x y) [
  | yes e ↦ (0, omega arith, sym e)
  | no ne ↦ let (i, lt, e) = index_of x ys (ground arith) in (suc i, omega arith, e)
]
