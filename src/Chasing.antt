-- ===== src/Chasing.antt =====
-- pointer_chasing/pointer_chasing.h: a chain of entries in random order, and the loops that follow it.
-- The size of an entry is the argument `sz`; `std::random_shuffle` is the argument `random_shuffle`.
pub mod Links
pub mod Cycle
pub mod Program
use graph_benchmark.Base.{
  ℕ, zero, suc, ◌+◌, ◌-◌, ◌*◌, ◌/◌, List, Bool, Option, none, some, get_or, set, u64, if◌then◌else◌,
  ◌>>=◌,
}

-- A `void*`: null, the value 0x1, or the address of entry `i` of the buffer.
pub data Pointer : Type 0 where
  null : Pointer
  one : Pointer
  entry : (i : ℕ) → Pointer

-- `for(i = 0; i < len; i++) indices[i] = i`, with `n` rounds left.
unfoldable pub number_loop : ℕ → ℕ → List ℕ → List ℕ
number_loop i zero indices = indices
number_loop i (suc n) indices = number_loop (i + 1) n (set indices i i)

-- `for(i = 1; i < len; i++) buffer[indices[i-1]].next = &buffer[indices[i]]`, with `n` rounds left.
unfoldable pub link_loop : List ℕ → ℕ → ℕ → List Pointer → List Pointer
link_loop indices i zero buffer = buffer
link_loop indices i (suc n) buffer =
    link_loop indices (i + 1) n (set buffer (get_or indices (i - 1) 0) (entry (get_or indices i 0)))

-- The results of `create_random`; `buffer` holds the fields `next`.
pub record Chain : Type 0 where
  pub buffer_sz : ℕ
  pub len : ℕ
  pub buffer : List Pointer

-- `buffer_sz` is rounded up to whole entries.
unfoldable pub aligned : ℕ → ℕ → ℕ
aligned sz buffer_sz = u64 (buffer_sz + sz - 1) / sz * sz

-- The two links of `create_random` after the shuffle.
unfoldable pub link : List ℕ → ℕ → List Pointer → List Pointer
link indices len buffer =
    set (link_loop indices 1 (len - 1) buffer) (get_or indices (len - 1) 0)
      (entry (get_or indices 0 0))

-- `create_random`; `cells` and `index_cells` are what the two allocations hold.
unfoldable pub create_random : ℕ → (List ℕ → List ℕ) → List Pointer → List ℕ → ℕ → Bool → Chain
create_random sz random_shuffle cells index_cells buffer_sz shuffle =
    let size = aligned sz buffer_sz in
    let len = size / sz in
    let numbered = number_loop 0 len index_cells in
    let indices = if shuffle then random_shuffle numbered else numbered in
    record { buffer_sz = size; len = len; buffer = link indices len cells }

-- A load through a pointer; `none` where it does not point into the buffer.
unfoldable pub load : List Pointer → Pointer → Option Pointer
load buffer null = none
load buffer one = none
load buffer (entry i) = some (get_or buffer i null)

-- `read_chase`: where `p` stands after `count` rounds.
unfoldable pub read_chase : List Pointer → Pointer → ℕ → Option Pointer
read_chase buffer p zero = some p
read_chase buffer p (suc count) = do p' ← load buffer p; read_chase buffer p' count

-- `__sync_val_compare_and_swap(p, 0, 1)` on entry `i`: the old value, and the buffer after it.
unfoldable pub swap_null : List Pointer → ℕ → Pointer → Pointer × List Pointer
swap_null buffer i null = (null, set buffer i one)
swap_null buffer i one = (one, buffer)
swap_null buffer i (entry j) = (entry j, buffer)

-- `cas_chase_fail`
unfoldable pub cas_chase_fail : List Pointer → Pointer → ℕ → Option (Pointer × List Pointer)
cas_chase_fail buffer p zero = some (p, buffer)
cas_chase_fail buffer null (suc count) = none
cas_chase_fail buffer one (suc count) = none
cas_chase_fail buffer (entry i) (suc count) =
    let (old, buffer') = swap_null buffer i (get_or buffer i null) in
    cas_chase_fail buffer' old count
