-- ===== src/Tests/ChasingTests.antt =====
-- Runs of pointer_chasing/pointer_chasing.h, and its theorems at them.
use graph_benchmark.Base.{
  ℕ, suc, ◌≡◌, ◌≢◌, ◌<◌, refl, ap, arith, List, [], ◌∷◌, true, some, replicate, length, count,
}
use graph_benchmark.Chasing.{
  Chain, null, entry, create_random, aligned, number_loop, link, link_loop, read_chase,
  cas_chase_fail,
}
use graph_benchmark.Chasing.Cycle.{Permutes, create_random-cycle, cas_chase_fail-read_chase}

abbrev put_last : List ℕ → ℕ → List ℕ
put_last [] x = x ∷ []
put_last (y ∷ ys) x = y ∷ put_last ys x

-- A shuffle that moves the first index to the end.
abbrev pub rotate : List ℕ → List ℕ
rotate [] = []
rotate (x ∷ xs) = put_last xs x

length-put_last : (x : ℕ) (xs : List ℕ) → length (put_last xs x) ≡ suc (length xs)
length-put_last x [] = refl
length-put_last x (y ∷ ys) = ap suc (length-put_last x ys)

count-put_last : (z x : ℕ) (xs : List ℕ) → count z (put_last xs x) ≡ count z (x ∷ xs)
count-put_last z x [] = refl
count-put_last z x (y ∷ ys) = omega (arith, count-put_last z x ys)

length-rotate : (l : List ℕ) → length (rotate l) ≡ length l
length-rotate [] = refl
length-rotate (x ∷ xs) = length-put_last x xs

count-rotate : (z : ℕ) (l : List ℕ) → count z (rotate l) ≡ count z l
count-rotate z [] = refl
count-rotate z (x ∷ xs) = count-put_last z x xs

pub rotate-Permutes : Permutes rotate
rotate-Permutes = record { size = length-rotate; kept = count-rotate }

-- 25 bytes are rounded up to four entries of 8.
abbrev chain : Chain
chain = create_random 8 rotate (replicate 4 null) (replicate 4 7) 25 true

chain-runs :
    chain ≡ record { buffer_sz = 32; len = 4; buffer = entry 1 ∷ entry 2 ∷ entry 3 ∷ entry 0 ∷ [] }
unfolding create_random aligned number_loop link link_loop
chain-runs = refl

create_random-cycle_example :
    ((x : ℕ)
      → x < chain.len
      → (k : ℕ) × (k < chain.len) × (read_chase chain.buffer (entry 0) k ≡ some (entry x)))
    × (read_chase chain.buffer (entry 0) chain.len ≡ some (entry 0))
    × ((k : ℕ) → 0 < k → k < chain.len → read_chase chain.buffer (entry 0) k ≢ some (entry 0))
unfolding aligned
create_random-cycle_example =
    create_random-cycle 8 rotate rotate-Permutes (replicate 4 null) (replicate 4 7) 25 true refl
      refl (omega arith)

cas_chase_fail-read_chase_example :
    (x : ℕ) × (read_chase chain.buffer (entry 0) 6 ≡ some (entry x))
    × (cas_chase_fail chain.buffer (entry 0) 6 ≡ some (entry x, chain.buffer))
unfolding aligned
cas_chase_fail-read_chase_example =
    cas_chase_fail-read_chase 8 rotate rotate-Permutes (replicate 4 null) (replicate 4 7) 25 true
      refl refl (omega arith) 6
