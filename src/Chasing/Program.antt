-- ===== src/Chasing/Program.antt =====
-- `cas_hub` of pointer_chasing/pointer_chasing.h, and pointer_chasing/main.cpp. The texts of numbers are
-- read by `atol`.
use graph_benchmark.Base.{
  ℕ, ◌/◌, ◌^◌, ◌≡◌, ◌<◌, ◌≤◌, refl, Bool, true, Option, none, some, ◌>>=◌, List, [], ◌∷◌, length,
  ltb, if◌then◌else◌, arith,
}
use graph_benchmark.Chasing.{Pointer, entry, aligned, create_random, read_chase, cas_chase_fail}
use graph_benchmark.Chasing.Cycle.{Permutes, cas_chase_fail-read_chase}

-- `cas_chase_success`, whose body is empty.
unfoldable pub cas_chase_success : List Pointer → (len count sz : ℕ) → List Pointer
cas_chase_success buffer len count sz = buffer

-- `cas_hub` from the start of the buffer: the buffer after it.
unfoldable pub cas_hub : List Pointer → (len count : ℕ) → Bool → ℕ → Option (List Pointer)
cas_hub buffer len count success sz =
    if success
    then some (cas_chase_success buffer len count sz)
    else (do (p, buffer') ← cas_chase_fail buffer (entry 0) count; some buffer')

-- `count = (count > (1<<30))? count: (1<<30)`
unfoldable pub round_count : ℕ → ℕ
round_count count = if ltb (2 ^ 30) count then count else 2 ^ 30

-- The usage text, an access outside of the buffer, or the rounded size of the buffer, the number of
-- rounds that the printed time is for, and the pointer that the chase ends at.
pub data Exit : Type 0 where
  usage : Exit
  crashed : Exit
  chased : (buffer_sz count : ℕ) → Pointer → Exit

unfoldable pub after_chase : (buffer_sz count : ℕ) → Option Pointer → Exit
after_chase buffer_sz count none = crashed
after_chase buffer_sz count (some p) = chased buffer_sz count p

-- `main` on the arguments behind the program's name. An entry without padding has 8 bytes.
unfoldable pub chasing_main :
    (List ℕ → ℕ) → (List ℕ → List ℕ) → List Pointer → List ℕ → List (List ℕ) → Exit
chasing_main atol random_shuffle cells index_cells [] = usage
chasing_main atol random_shuffle cells index_cells (size ∷ []) = usage
chasing_main atol random_shuffle cells index_cells (size ∷ count ∷ others) =
    let chain = create_random 8 random_shuffle cells index_cells (atol size) true in
    let k = round_count (atol count) in
    after_chase chain.buffer_sz k (read_chase chain.buffer (entry 0) k)

module _ (atol : List ℕ → ℕ) (random_shuffle : List ℕ → List ℕ) (permutes : Permutes random_shuffle)
    (cells : List Pointer) (index_cells size count : List ℕ) (others : List (List ℕ)) where
  abbrev entries : ℕ
  entries = aligned 8 (atol size) / 8

  -- With two arguments or more, and a size that gives at least one entry, the tool follows `k` pointers
  -- of the chain that `create_random` makes, `k` at least 2^30 and at least the second argument, never
  -- leaves the buffer, and reports the size rounded up to whole entries.
  pub chasing_main-chases :
      length cells ≡ entries
      → length index_cells ≡ entries
      → 0 < entries
      → (k : ℕ) × (x : ℕ) × (2 ^ 30 ≤ k)
        × (atol count ≤ k)
        × (read_chase
              (create_random 8 random_shuffle cells index_cells (atol size) true).buffer
              (entry 0)
              k
            ≡ some (entry x))
        × (chasing_main atol random_shuffle cells index_cells (size ∷ count ∷ others)
            ≡ chased (aligned 8 (atol size)) k (entry x))
  unfolding chasing_main round_count after_chase create_random
  chasing_main-chases sized index_sized pos =
      let k = round_count (atol count) in
      let (x, e, _) =
        cas_chase_fail-read_chase 8 random_shuffle permutes cells index_cells (atol size) true sized
          index_sized pos k in
      (k, x, ground arith, ground arith, e, rw e refl)
