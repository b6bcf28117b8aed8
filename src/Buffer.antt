-- ===== src/Buffer.antt =====
-- `thread_buffer` (include/config.h, src/config.cpp): a growing array of node ids with no check of its
-- capacity.
pub mod Laws
use graph_benchmark.Base.{
  ℕ, suc, zero, ◌+◌, List, [], ◌∷◌, ◌==◌, if◌then◌else◌, get_or, set, take, drop, ◌++◌, u64,
}

-- `capacity` is the number of cells asked for; `buffer` holds the cells, which `malloc` does not clear.
pub record ThreadBuffer : Type 0 where
  pub buffer : List ℕ
  pub capacity : ℕ
  pub next : ℕ

-- `cells` is the memory that `malloc` returns for `c` entries.
unfoldable pub init : ℕ → List ℕ → ThreadBuffer
init c cells = record { buffer = cells; capacity = c; next = 0 }

unfoldable pub clear : ThreadBuffer → ThreadBuffer
clear b = record b { next = 0 }

unfoldable pub size : ThreadBuffer → ℕ
size b = b.next

-- `operator[]`
unfoldable pub at : ThreadBuffer → ℕ → ℕ
at b i = get_or b.buffer i 0

unfoldable pub push : ThreadBuffer → ℕ → ThreadBuffer
push b id = record b { buffer = set b.buffer b.next id; next = u64 (b.next + 1) }

-- The two accesses of a push to memory: the write of the cell, and `next++`.
unfoldable pub store_entry : ThreadBuffer → ℕ → ThreadBuffer
store_entry b id = record b { buffer = set b.buffer b.next id }

unfoldable pub count_entry : ThreadBuffer → ThreadBuffer
count_entry b = record b { next = u64 (b.next + 1) }

-- `memcpy`: the first `n` entries of `from` to the cells of `to` from `offset` on.
unfoldable pub copy_entries : List ℕ → ℕ → List ℕ → ℕ → List ℕ
copy_entries to offset from zero = to
copy_entries to offset [] (suc n) = to
copy_entries to offset (x ∷ from) (suc n) = copy_entries (set to offset x) (offset + 1) from n

-- The buffer and the destination afterwards.
unfoldable pub transfer : ThreadBuffer → ThreadBuffer → ThreadBuffer × ThreadBuffer
transfer b dst = if b.next == 0 then (b, dst) else (
  record b { next = 0 },
  record dst {
    next = u64 (dst.next + b.next);
    buffer = copy_entries dst.buffer dst.next b.buffer b.next;
  },
)

-- The entries pushed and not yet cleared.
abbrev pub contents : ThreadBuffer → List ℕ
contents b = take b.next b.buffer
