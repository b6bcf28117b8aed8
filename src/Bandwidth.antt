-- ===== src/Bandwidth.antt =====
-- bw/bw.h and bw/bw.cpp: the buffer of the bandwidth tool, and its division over the threads. An address
-- in the buffer is its distance from the buffer's start. `none` is a process that has ended: by `die`, by
-- a division by zero, or by an access outside of an array.
pub mod Access
pub mod Barrier
pub mod Places
pub mod Bounds
pub mod Sequential
pub mod Parts
pub mod Random
pub mod Times
pub mod Program
use graph_benchmark.Base.{
  ℕ, zero, suc, ◌+◌, ◌-◌, ◌*◌, ◌/◌, Bool, true, false, ◌&&◌, Option, none, some, ◌>>=◌, check, List,
  [], ◌∷◌, ◌==◌, ltb, if◌then◌else◌, u64, replicate, get_or,
}

pub data RwMode : Type 0 where
  read write : RwMode

pub data SrMode : Type 0 where
  seq random : SrMode

pub data AccessMode : Type 0 where
  grouped interleaved : AccessMode

-- `thread_info_t` without the handles of pthreads.
pub record ThreadInfo : Type 0 where
  pub start : ℕ
  pub end : ℕ
  pub stride : ℕ
  pub start_cycle : ℕ
  pub stop_cycle : ℕ
  pub buffer : List ℕ

-- What the operating system answers to `create_buffer`: whether the file is there already, and whether
-- each call succeeds.
pub record FileCalls : Type 0 where
  pub exists : Bool
  pub open_ok : Bool
  pub lseek_ok : Bool
  pub write_ok : Bool
  pub mmap_ok : Bool

-- `(sz + 4096 - 1)/4096*4096`
unfoldable pub page_aligned : ℕ → ℕ
page_aligned sz = u64 (sz + 4096 - 1) / 4096 * 4096

-- The rounded size, and the bytes of the mapping after the `memset`.
unfoldable pub create_buffer : FileCalls → ℕ → Option (ℕ × List ℕ)
create_buffer os sz = do
  _ ← (if os.exists then none else some (tt {0}))
  let size = page_aligned sz
  _ ← check os.open_ok
  _ ← check os.lseek_ok
  _ ← check os.write_ok
  _ ← check os.mmap_ok
  some (size, replicate size 0)

-- A thread's part, for `i` of `threads`.
unfoldable pub thread_info : AccessMode → ℕ → ℕ → ℕ → ℕ → ThreadInfo
thread_info grouped sz threads access_size i =
    let partition = sz / threads in
    record {
      start = u64 (i * partition);
      end = u64 ((i + 1) * partition);
      stride = access_size;
      start_cycle = 0;
      stop_cycle = 0;
      buffer = replicate access_size 42;
    }
thread_info interleaved sz threads access_size i = record {
  start = u64 (i * access_size);
  end = u64 (sz + u64 (i * access_size));
  stride = u64 (threads * access_size);
  start_cycle = 0;
  stop_cycle = 0;
  buffer = replicate access_size 42;
}

-- The loop over the threads from `i` on, `n` of them. `attr_ok i` says whether the two calls that set
-- the attributes of thread `i` succeed.
unfoldable pub thread_infos : (ℕ → Bool) → AccessMode → ℕ → ℕ → ℕ → ℕ → ℕ → Option (List ThreadInfo)
thread_infos attr_ok m sz threads access_size i zero = some []
thread_infos attr_ok m sz threads access_size i (suc n) = do
  _ ← check (attr_ok i)
  rest ← thread_infos attr_ok m sz threads access_size (i + 1) n
  some (thread_info m sz threads access_size i ∷ rest)

-- `create_thread_info`: the parts, and the global `access_count` that it sets.
unfoldable pub create_thread_info :
    (ℕ → Bool) → ℕ → ℕ → ℕ → AccessMode → Option (List ThreadInfo × ℕ)
create_thread_info attr_ok sz threads access_size m = do
  _ ← (if threads == 0 then none else some (tt {0}))
  _ ← (if access_size == 0 then none else some (tt {0}))
  let access_count = sz / threads / access_size
  _ ← (if access_count == 0 then none else some (tt {0}))
  infos ← thread_infos attr_ok m sz threads access_size 0 threads
  some (infos, access_count)
