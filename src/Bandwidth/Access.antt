-- ===== src/Bandwidth/Access.antt =====
-- bw/bw.cpp: the access loops, and the functions that start a thread on them. The sizes `access_size`
-- and `nb_accesses` and the count of `UNROLL`, `LOOPS`, are arguments.
use Prim.Native.Nat.{bit_and}
use graph_benchmark.Base.{
  ℕ, zero, suc, ◌+◌, ◌*◌, ◌/◌, ◌%◌, ◌^◌, Bool, Option, none, some, ◌>>=◌, check, List, [], ◌∷◌,
  ◌++◌, ltb, if◌then◌else◌, u64, length, take, drop, segment,
}
use graph_benchmark.Bandwidth.{ThreadInfo, SrMode, seq, random}

-- The globals that the loops read.
pub record Setup : Type 0 where
  pub access_size : ℕ
  pub nb_accesses : ℕ
  pub access_count : ℕ
  pub loops : ℕ

-- `g_lehmer64_state *= 0xda942042e4dd58b5; return g_lehmer64_state >> 64`: the new state and the result.
unfoldable pub lehmer64 : ℕ → ℕ × ℕ
lehmer64 state = let state' = state * 0xda942042e4dd58b5 % 2 ^ 128 in (state', state' / 2 ^ 64)

-- `init_seed`; `rand` is the first number that `rand()` gives after `srand(i)`.
unfoldable pub init_seed : (ℕ → ℕ) → ℕ → ℕ
init_seed rand i = rand i

-- `memcpy(dst + to, src + from, n)`; `none` outside of the arrays.
unfoldable pub memcpy : List ℕ → ℕ → List ℕ → ℕ → ℕ → Option (List ℕ)
memcpy src from dst to n =
    if ltb (length src) (from + n)
    then none
    else if ltb (length dst) (to + n)
    then none
    else some (take to dst ++ (segment src from n ++ drop (to + n) dst))

-- `base + (i&access_count)*s` and `base + loc*s`
unfoldable pub seq_place : Setup → ThreadInfo → ℕ → ℕ
seq_place c info i = info.start + u64 (bit_and i c.access_count * info.stride)

unfoldable pub random_place : Setup → ThreadInfo → ℕ → ℕ
random_place c info r = info.start + u64 (r % c.access_count * info.stride)

-- The `for` loop of `read_seq` from round `i` on, `n` rounds.
unfoldable pub read_seq_loop : Setup → ThreadInfo → List ℕ → ℕ → ℕ → List ℕ → Option (List ℕ)
read_seq_loop c info mem i zero b = some b
read_seq_loop c info mem i (suc n) b = do
  b' ← memcpy mem (seq_place c info i) b 0 c.access_size
  read_seq_loop c info mem (i + 1) n b'

unfoldable pub read_random_loop : Setup → ThreadInfo → List ℕ → ℕ → List ℕ × ℕ → Option (List ℕ × ℕ)
read_random_loop c info mem zero (b, state) = some (b, state)
read_random_loop c info mem (suc n) (b, state) = do
  let draw = lehmer64 state
  b' ← memcpy mem (random_place c info draw.1) b 0 c.access_size
  read_random_loop c info mem n (b', draw.0)

unfoldable pub write_seq_loop : Setup → ThreadInfo → ℕ → ℕ → List ℕ → Option (List ℕ)
write_seq_loop c info i zero mem = some mem
write_seq_loop c info i (suc n) mem = do
  mem' ← memcpy info.buffer 0 mem (seq_place c info i) c.access_size
  write_seq_loop c info (i + 1) n mem'

unfoldable pub write_random_loop : Setup → ThreadInfo → ℕ → List ℕ × ℕ → Option (List ℕ × ℕ)
write_random_loop c info zero (mem, state) = some (mem, state)
write_random_loop c info (suc n) (mem, state) = do
  let draw = lehmer64 state
  mem' ← memcpy info.buffer 0 mem (random_place c info draw.1) c.access_size
  write_random_loop c info n (mem', draw.0)

-- `UNROLL(x)`: the statement `x`, `LOOPS` times.
unfoldable pub unroll {ℓ} : {S : Type ℓ} → ℕ → (S → Option S) → S → Option S
unroll zero x s = some s
unroll (suc n) x s = do s' ← x s; unroll n x s'

-- The four thread functions behind the barrier. A thread starts with its own `g_lehmer64_state` at 0.
unfoldable pub read_seq : Setup → ThreadInfo → List ℕ → Option (List ℕ)
read_seq c info mem = unroll c.loops (read_seq_loop c info mem 0 c.nb_accesses) info.buffer

unfoldable pub read_random : Setup → ThreadInfo → List ℕ → Option (List ℕ × ℕ)
read_random c info mem = unroll c.loops (read_random_loop c info mem c.nb_accesses) (info.buffer, 0)

unfoldable pub write_seq : Setup → ThreadInfo → List ℕ → Option (List ℕ)
write_seq c info mem = unroll c.loops (write_seq_loop c info 0 c.nb_accesses) mem

unfoldable pub write_random : Setup → ThreadInfo → List ℕ → Option (List ℕ × ℕ)
write_random c info mem = unroll c.loops (write_random_loop c info c.nb_accesses) (mem, 0)

-- The functions that a thread can be started on.
pub data Func : Type 0 where
  read_seq_func read_random_func write_seq_func write_random_func : Func

-- `launch`; `create_ok i` says whether `pthread_create` succeeds for thread `i`.
unfoldable pub launch : (ℕ → Bool) → Func → ℕ → ℕ → Option (List (ℕ × Func))
launch create_ok func i zero = some []
launch create_ok func i (suc n) = do
  _ ← check (create_ok i)
  rest ← launch create_ok func (i + 1) n
  some ((i, func) ∷ rest)

unfoldable pub read_hub : (ℕ → Bool) → ℕ → SrMode → Option (List (ℕ × Func))
read_hub create_ok threads seq = launch create_ok read_seq_func 0 threads
read_hub create_ok threads random = launch create_ok read_random_func 0 threads

unfoldable pub write_hub : (ℕ → Bool) → ℕ → SrMode → Option (List (ℕ × Func))
write_hub create_ok threads seq = launch create_ok write_seq_func 0 threads
write_hub create_ok threads random = launch create_ok write_random_func 0 threads
