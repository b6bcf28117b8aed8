-- ===== src/File.antt =====
-- The binary files of edges that src/loader.cpp and reorder.cpp read, and reorder.cpp writes: an array of
-- `edge_t`, whose two members are words of four bytes, the lowest first (x86). A byte is a number.
pub mod Reading
pub mod Bytes
use graph_benchmark.Base.{
  ℕ, zero, suc, ◌+◌, ◌-◌, ◌*◌, ◌/◌, ◌%◌, ◌^◌, Bool, Option, none, some, List, [], ◌∷◌, ◌++◌, ◌==◌,
  if◌then◌else◌, get_or, drop, segment, u64, length,
}
use graph_benchmark.Graph.{Edge}

-- An open file, and what the operating system answers: whether `open` and `posix_fadvise` succeed, and
-- for the `k`-th `read` of at most `count` bytes whether it fails and how many bytes it gives.
pub record Input : Type 0 where
  pub bytes : List ℕ
  pub open_ok : Bool
  pub advise_ok : Bool
  pub fails : ℕ → ℕ → Bool
  pub sizes : ℕ → ℕ → ℕ

-- `memcpy(buffer + to, chunk, …)`, cells behind the end lost.
unfoldable pub overwrite : List ℕ → ℕ → List ℕ → List ℕ
overwrite [] to chunk = []
overwrite (x ∷ xs) zero [] = x ∷ xs
overwrite (x ∷ xs) zero (c ∷ chunk) = c ∷ overwrite xs zero chunk
overwrite (x ∷ xs) (suc to) chunk = x ∷ overwrite xs to chunk

pub data ReadOutcome : Type 0 where
  loaded : List ℕ → ReadOutcome
  failed : ReadOutcome
  out_of_fuel : ReadOutcome

-- The loop over `read`; `at` is the position in the file, and `cursor` the one in the buffer.
unfoldable pub read_loop : Input → ℕ → ℕ → ℕ → ℕ → ℕ → List ℕ → ReadOutcome
read_loop file zero k at cursor count buffer = out_of_fuel
read_loop file (suc fuel) k at cursor count buffer =
    let sz = file.sizes k count in
    let buffer' = overwrite buffer cursor (segment file.bytes at sz) in
    let rest =
      read_loop file fuel (k + 1) (at + sz) (cursor + sz) (u64 (count + 2 ^ 64 - sz)) buffer' in
    if file.fails k count
    then failed
    else if sz == count
    then loaded buffer'
    else if sz == 0
    then loaded buffer'
    else rest

-- The loop from the start of the file, `buffer` being what `malloc` finds.
unfoldable pub read_all : Input → List ℕ → ReadOutcome
read_all file buffer = let size = length file.bytes in read_loop file (size + 1) 0 0 0 size buffer

-- The loop over `read` dies, or what follows it gets the bytes.
unfoldable pub after_read {ℓ} : {A : Type ℓ} → ReadOutcome → (List ℕ → Option A) → Option A
after_read (loaded bs) go_on = go_on bs
after_read failed go_on = none
after_read out_of_fuel go_on = none

abbrev pub word_at : List ℕ → ℕ → ℕ
word_at bs i =
    get_or bs i 0
    + 2 ^ 8 * get_or bs (i + 1) 0
    + 2 ^ 16 * get_or bs (i + 2) 0
    + 2 ^ 24 * get_or bs (i + 3) 0

-- `(edge_t*)`: the bytes as `n` edges.
unfoldable pub edges_of : ℕ → List ℕ → List Edge
edges_of zero bs = []
edges_of (suc n) bs = record { src = word_at bs 0; dst = word_at bs 4 } ∷ edges_of n (drop 8 bs)

abbrev pub word_bytes : ℕ → List ℕ
word_bytes w = w % 2 ^ 8 ∷ w / 2 ^ 8 % 2 ^ 8 ∷ w / 2 ^ 16 % 2 ^ 8 ∷ w / 2 ^ 24 % 2 ^ 8 ∷ []

-- `(const char*)edges`
unfoldable pub bytes_of : List Edge → List ℕ
bytes_of [] = []
bytes_of (e ∷ edges) = word_bytes e.src ++ (word_bytes e.dst ++ bytes_of edges)
