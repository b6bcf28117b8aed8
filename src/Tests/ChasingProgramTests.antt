-- ===== src/Tests/ChasingProgramTests.antt =====
-- The main program of pointer_chasing at 25 bytes and 7 rounds. The text of a number is as long as it.
use graph_benchmark.Base.{
  ℕ, ◌^◌, ◌≡◌, ◌≤◌, refl, arith, false, true, ℕ, [], ◌∷◌, some, replicate, length,
}
use graph_benchmark.Chasing.{
  null, entry, aligned, cas_chase_fail, swap_null, create_random, read_chase,
}
use graph_benchmark.Chasing.Program.{usage, chased, cas_hub, chasing_main, chasing_main-chases}
use graph_benchmark.Tests.ChasingTests.{rotate, rotate-Permutes}

cas_hub-runs : cas_hub (entry 1 ∷ entry 0 ∷ []) 2 5 false 8 ≡ some (entry 1 ∷ entry 0 ∷ [])
unfolding cas_hub cas_chase_fail swap_null
cas_hub-runs = refl

no_arguments : chasing_main length rotate [] [] (replicate 3 49 ∷ []) ≡ usage
unfolding chasing_main
no_arguments = refl

chasing_main-chases_example :
    (k : ℕ) × (x : ℕ) × (2 ^ 30 ≤ k)
    × (7 ≤ k)
    × (read_chase
          (create_random 8 rotate (replicate 4 null) (replicate 4 7) 25 true).buffer
          (entry 0)
          k
        ≡ some (entry x))
    × (chasing_main length rotate
          (replicate 4 null)
          (replicate 4 7)
          (replicate 25 49 ∷ replicate 7 49 ∷ [])
        ≡ chased 32 k (entry x))
unfolding aligned
chasing_main-chases_example =
    chasing_main-chases length rotate rotate-Permutes (replicate 4 null) (replicate 4 7)
      (replicate 25 49) (replicate 7 49) [] refl refl (omega arith)
