-- ===== src/Bandwidth/Sequential.antt =====
-- The sequential accesses: in the part of the thread up to `access_count` rounds, and out of it after.
use Prim.Native.Nat.{bit_and}
use graph_benchmark.Base.{
  ℕ, zero, suc, ◌+◌, ◌≡◌, ◌<◌, ◌≤◌, inl, inr, refl, ◌∙◌, List, none, some, arith, length, lt→ltb,
  bit_and-le, bit_and_self, Option-cases, dec_lt,
}
use graph_benchmark.Bandwidth.{ThreadInfo}
use graph_benchmark.Bandwidth.Places.{place}
use graph_benchmark.Bandwidth.Access.{
  Setup, memcpy, seq_place, read_seq_loop, write_seq_loop, unroll, read_seq, write_seq,
}
use graph_benchmark.Bandwidth.Bounds.{memcpy-Copies, unroll_inv, KeepsOthers}

module _ (c : Setup) (info : ThreadInfo) (size : ℕ) (full : length info.buffer ≡ c.access_size)
    (fits : (k : ℕ) → k < c.access_count → place info k + c.access_size ≤ size)
    (few : c.nb_accesses ≤ c.access_count) where
  index_lt : (i : ℕ) → i < c.access_count → bit_and i c.access_count < c.access_count
  index_lt i h = omega (arith, bit_and-le i c.access_count)

  seq_fits : (i : ℕ) → i < c.access_count → seq_place c info i + c.access_size ≤ size
  unfolding seq_place
  seq_fits i h = fits (bit_and i c.access_count) (index_lt i h)

  module _ (mem : List ℕ) (mem_size : length mem ≡ size) where
    abbrev Holds : List ℕ → Type 0
    Holds b = length b ≡ c.access_size

    read_seq_loop-Holds :
        (i n : ℕ) (b : List ℕ)
        → i + n ≤ c.access_count
        → Holds b
        → (b' : List ℕ) × (read_seq_loop c info mem i n b ≡ some b') × Holds b'
    unfolding read_seq_loop
    read_seq_loop-Holds i zero b le h = (b, refl, h)
    read_seq_loop-Holds i (suc n) b le h =
        let (b', e, copied) =
          memcpy-Copies mem (seq_place c info i) b 0 c.access_size
            (omega (arith, seq_fits i (omega arith), mem_size)) (omega arith) in
        let (b'', f, q) = read_seq_loop-Holds (i + 1) n b' (omega arith) (copied.size ∙ h) in
        (b'', rw e f, q)

    pub read_seq-returns : (b : List ℕ) × (read_seq c info mem ≡ some b)
    unfolding read_seq
    read_seq-returns =
        let (b, e, _) =
          unroll_inv Holds (read_seq_loop c info mem 0 c.nb_accesses)
            (λ b h. read_seq_loop-Holds 0 c.nb_accesses b (omega arith) h) c.loops info.buffer
            full in
        (b, e)

    write_seq_loop-KeepsOthers :
        (i n : ℕ) (m : List ℕ)
        → i + n ≤ c.access_count
        → KeepsOthers c info mem m
        → (m' : List ℕ) × (write_seq_loop c info i n m ≡ some m') × KeepsOthers c info mem m'
    unfolding write_seq_loop seq_place
    write_seq_loop-KeepsOthers i zero m le h = (m, refl, h)
    write_seq_loop-KeepsOthers i (suc n) m le h =
        let (m', e, copied) =
          memcpy-Copies info.buffer 0 m (seq_place c info i) c.access_size (omega (arith, full))
            (omega (arith, seq_fits i (omega arith), mem_size, h.sized)) in
        let (m'', f, q) = write_seq_loop-KeepsOthers (i + 1) n m' (omega arith) (record {
          sized = copied.size ∙ h.sized;
          same = λ x out.
              copied.kept x (out (bit_and i c.access_count) (index_lt i (omega arith)))
              ∙ h.same x out;
        }) in
        (m'', rw e f, q)

    pub write_seq-KeepsOthers :
        (m : List ℕ) × (write_seq c info mem ≡ some m) × KeepsOthers c info mem m
    unfolding write_seq
    write_seq-KeepsOthers =
        unroll_inv (KeepsOthers c info mem) (write_seq_loop c info 0 c.nb_accesses)
          (λ m h. write_seq_loop-KeepsOthers 0 c.nb_accesses m (omega arith) h) c.loops mem
          (record { sized = refl; same = λ x out. refl })

-- The round in which `i & access_count` is `access_count` itself.
module _ (c : Setup) (info : ThreadInfo) (mem : List ℕ)
    (past : length mem < place info c.access_count + c.access_size) where
  overrun : (b : List ℕ) → memcpy mem (seq_place c info c.access_count) b 0 c.access_size ≡ none
  unfolding memcpy seq_place
  overrun b = rw (bit_and_self, lt→ltb _ _ past) refl

  read_seq_loop-none :
      (i n : ℕ) (b : List ℕ)
      → i ≤ c.access_count
      → c.access_count < i + n
      → read_seq_loop c info mem i n b ≡ none
  unfolding read_seq_loop
  read_seq_loop-none i zero b le lt = absurd (omega arith)
  read_seq_loop-none i (suc n) b le lt = elim (dec_lt i c.access_count) [
    | no last ↦ let same : i ≡ c.access_count = omega arith in rw (same, overrun b) refl
    | yes before ↦ elim (Option-cases (memcpy mem (seq_place c info i) b 0 c.access_size)) [
      | inl fault ↦ rw fault refl
      | inr (b', e) ↦ rw e (read_seq_loop-none (i + 1) n b' (omega arith) (omega arith))
    ]
  ]

  pub read_seq-none : 0 < c.loops → c.access_count < c.nb_accesses → read_seq c info mem ≡ none
  unfolding read_seq unroll
  read_seq-none pos more =
      let first = read_seq_loop-none 0 c.nb_accesses info.buffer (omega arith) (omega arith) in
      unroll_none c.loops pos first
    where
      unroll_none :
          (n : ℕ)
          → 0 < n
          → read_seq_loop c info mem 0 c.nb_accesses info.buffer ≡ none
          → unroll n (read_seq_loop c info mem 0 c.nb_accesses) info.buffer ≡ none
      unroll_none zero p e = absurd (omega arith)
      unroll_none (suc n) p e = rw e refl
