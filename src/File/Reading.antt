-- ===== src/File/Reading.antt =====
-- The loop over `read` ends with the whole file in the buffer, in however many pieces it comes.
use graph_benchmark.Base.{
  ℕ, zero, suc, ◌+◌, ◌-◌, ◌^◌, ◌≡◌, ◌<◌, ◌≤◌, refl, ap, ◌∙◌, List, [], ◌∷◌, arith, length, get_or,
  true, false, eq_of_get_or, segment, drop, get_or-take, get_or-drop, length-take_le, length-drop,
  u64, ◌==◌, dec_lt,
}
use graph_benchmark.File.{Input, overwrite, loaded, failed, read_loop, read_all}

pub length-overwrite :
    (xs : List ℕ) (to : ℕ) (chunk : List ℕ) → length (overwrite xs to chunk) ≡ length xs
unfolding overwrite
length-overwrite [] to chunk = refl
length-overwrite (x ∷ xs) zero [] = refl
length-overwrite (x ∷ xs) zero (c ∷ chunk) = ap suc (length-overwrite xs zero chunk)
length-overwrite (x ∷ xs) (suc to) chunk = ap suc (length-overwrite xs to chunk)

get_or-overwrite_before :
    (xs : List ℕ) (to : ℕ) (chunk : List ℕ) (i : ℕ)
    → i < to
    → get_or (overwrite xs to chunk) i 0 ≡ get_or xs i 0
unfolding overwrite
get_or-overwrite_before [] to chunk i h = refl
get_or-overwrite_before (x ∷ xs) zero chunk i h = absurd (omega arith)
get_or-overwrite_before (x ∷ xs) (suc to) chunk zero h = refl
get_or-overwrite_before (x ∷ xs) (suc to) chunk (suc i) h =
    get_or-overwrite_before xs to chunk i (omega arith)

get_or-overwrite_inside :
    (xs : List ℕ) (to : ℕ) (chunk : List ℕ) (i j : ℕ)
    → i ≡ to + j
    → j < length chunk
    → i < length xs
    → get_or (overwrite xs to chunk) i 0 ≡ get_or chunk j 0
unfolding overwrite
get_or-overwrite_inside [] to chunk i j e h lt = absurd (omega arith)
get_or-overwrite_inside (x ∷ xs) zero [] i j e h lt = absurd (omega arith)
get_or-overwrite_inside (x ∷ xs) zero (c ∷ chunk) zero zero e h lt = refl
get_or-overwrite_inside (x ∷ xs) zero (c ∷ chunk) zero (suc j) e h lt = absurd (omega arith)
get_or-overwrite_inside (x ∷ xs) zero (c ∷ chunk) (suc i) zero e h lt = absurd (omega arith)
get_or-overwrite_inside (x ∷ xs) zero (c ∷ chunk) (suc i) (suc j) e h lt =
    get_or-overwrite_inside xs zero chunk i j (omega arith) (omega arith) (omega arith)
get_or-overwrite_inside (x ∷ xs) (suc to) chunk zero j e h lt = absurd (omega arith)
get_or-overwrite_inside (x ∷ xs) (suc to) chunk (suc i) j e h lt =
    get_or-overwrite_inside xs to chunk i j (omega arith) h (omega arith)

-- A file that does not change while it is read: no call fails, and each gives at least one byte and no
-- more than it is asked for.
pub record IsReadable (file : Input) : Type 0 where
  pub opens : (file.open_ok ≡ true) × (file.advise_ok ≡ true)
  pub whole : (k count : ℕ) → file.fails k count ≡ false
  pub within : (k count : ℕ) → file.sizes k count ≤ count
  pub proceeds : (k count : ℕ) → 0 < count → 0 < file.sizes k count
  pub small : length file.bytes < 2 ^ 64

module _ (file : Input) (ok : IsReadable file) where
  -- The first `at` bytes are in the buffer.
  record HasRead (at : ℕ) (buffer : List ℕ) : Type 0 where
    size : length buffer ≡ length file.bytes
    same : (i : ℕ) → i < at → get_or buffer i 0 ≡ get_or file.bytes i 0

  module _ (at sz : ℕ) (fits : at + sz ≤ length file.bytes) (buffer : List ℕ)
      (h : HasRead at buffer) where
    abbrev chunk : List ℕ
    chunk = segment file.bytes at sz

    chunk_size : length chunk ≡ sz
    chunk_size = length-take_le sz (drop at file.bytes) (omega (arith, length-drop at file.bytes))

    read-HasRead : HasRead (at + sz) (overwrite buffer at chunk)
    read-HasRead = record {
      size = length-overwrite buffer at chunk ∙ h.size;
      same = λ i lt. elim (dec_lt i at) [
        | yes before ↦ get_or-overwrite_before buffer at chunk i before ∙ h.same i before
        | no inside ↦
            get_or-overwrite_inside buffer at chunk i (i - at) (omega arith)
              (omega (arith, chunk_size)) (omega (arith, h.size))
            ∙ get_or-take sz (i - at) (drop at file.bytes) 0 (omega arith)
            ∙ get_or-drop at (i - at) i file.bytes 0 (omega arith)
      ];
    }

  all_read :
      (at : ℕ) (buffer : List ℕ) → length file.bytes ≤ at → HasRead at buffer → buffer ≡ file.bytes
  all_read at buffer end h =
      eq_of_get_or buffer file.bytes 0 h.size (λ i lt. h.same i (omega (arith, h.size)))

  read_loop-loaded :
      (fuel k at count : ℕ) (buffer : List ℕ)
      → at + count ≡ length file.bytes
      → count < fuel
      → HasRead at buffer
      → read_loop file fuel k at at count buffer ≡ loaded file.bytes
  unfolding read_loop
  read_loop-loaded zero k at count buffer e h r = absurd (omega arith)
  read_loop-loaded (suc fuel) k at count buffer e h r =
      let sz = file.sizes k count in
      let le = ok.within k count in
      let r' = read-HasRead at sz (omega (arith, e, le)) buffer r in
      elim (dec_lt sz count) [
        | no last ↦
            let same : (sz == count) ≡ true = ground (arith, le) in
            rw (ok.whole k count, same) (ap loaded (all_read (at + sz) _ (omega (arith, e, le)) r'))
        | yes more ↦
            let first : (sz == count) ≡ false = ground arith in
            let some : (sz == 0) ≡ false = ground (arith, ok.proceeds k count (omega arith)) in
            let left : u64 (count + 2 ^ 64 - sz) ≡ count - sz = omega (arith, e, le, ok.small) in
            rw (ok.whole k count, first, some, left)
              (read_loop-loaded fuel (k + 1) (at + sz) (count - sz) _ (omega (arith, e, le))
                (omega (arith, ok.proceeds k count (omega arith))) r')
      ]

  -- Whatever the pieces, the buffer is the file afterwards, and the loop ends within one round for a
  -- byte.
  pub read_all-loaded :
      (buffer : List ℕ)
      → length buffer ≡ length file.bytes
      → read_all file buffer ≡ loaded file.bytes
  unfolding read_all
  read_all-loaded buffer size =
      read_loop-loaded (length file.bytes + 1) 0 0 (length file.bytes) buffer (omega arith)
        (omega arith) (record { size = size; same = λ i lt. absurd (omega arith) })

-- A first call that fails ends the loop.
pub read_all-failed :
    (file : Input) (buffer : List ℕ)
    → file.fails 0 (length file.bytes) ≡ true
    → read_all file buffer ≡ failed
unfolding read_all read_loop
read_all-failed file buffer e =
    let one : length file.bytes + 1 ≡ suc (length file.bytes) = omega arith in rw (one, e) refl
