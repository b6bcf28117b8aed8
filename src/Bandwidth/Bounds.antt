-- ===== src/Bandwidth/Bounds.antt =====
-- The random accesses stay in the part of their thread.
use native.Mathlib.Nat.{mod-lt}
use graph_benchmark.Base.{
  ℕ, zero, suc, ◌+◌, ◌-◌, ◌%◌, ◌≡◌, ◌<◌, ◌≤◌, ◌⊎◌, inl, inr, refl, ◌∙◌, List, ◌++◌, Option, some,
  arith, length, get_or, take, drop, segment, length-take_le, length-drop, length-append,
  get_or-append_left, get_or-append_right, get_or-take, get_or-drop,
}
use graph_benchmark.Bandwidth.{ThreadInfo}
use graph_benchmark.Bandwidth.Places.{place, IsOutside}
use graph_benchmark.Bandwidth.Access.{
  Setup, lehmer64, memcpy, random_place, read_random_loop, write_random_loop, unroll, read_random,
  write_random,
}

-- What a copy inside the arrays does.
pub record Copies (src : List ℕ) (from : ℕ) (dst : List ℕ) (to n : ℕ) (dst' : List ℕ) : Type 0 where
  pub size : length dst' ≡ length dst
  pub kept : (x : ℕ) → (x < to) ⊎ (to + n ≤ x) → get_or dst' x 0 ≡ get_or dst x 0

pub memcpy-Copies :
    (src : List ℕ) (from : ℕ) (dst : List ℕ) (to n : ℕ)
    → from + n ≤ length src
    → to + n ≤ length dst
    → (dst' : List ℕ) × (memcpy src from dst to n ≡ some dst') × Copies src from dst to n dst'
unfolding memcpy
memcpy-Copies src from dst to n hs hd =
    let front = take to dst in
    let back = drop (to + n) dst in
    let mid = segment src from n in
    let front_size = length-take_le to dst (omega arith) in
    let mid_size = length-take_le n (drop from src) (omega (arith, length-drop from src)) in
    let back_size = length-drop (to + n) dst in
    (
      front ++ (mid ++ back),
      ground arith,
      record {
        size = omega (
          arith,
          length-append front (mid ++ back),
          length-append mid back,
          front_size,
          mid_size,
          back_size,
        );
        kept = λ x out. elim out [
          | inl before ↦
              get_or-append_left front (mid ++ back) x 0 (omega (arith, front_size))
              ∙ get_or-take to x dst 0 before
          | inr behind ↦
              get_or-append_right front (mid ++ back) x (x - to) 0 (omega (arith, front_size))
              ∙ get_or-append_right mid back (x - to) (x - (to + n)) 0 (omega (arith, mid_size))
              ∙ get_or-drop (to + n) (x - (to + n)) x dst 0 (omega arith)
        ];
      },
    )

-- A statement that keeps an invariant keeps it when `UNROLL` repeats it.
pub unroll_inv {ℓ κ} :
    {S : Type ℓ} (P : S → Type κ) (x : S → Option S)
    → ((s : S) → P s → (s' : S) × (x s ≡ some s') × P s')
    → (n : ℕ) (s : S) → P s
    → (s' : S) × (unroll n x s ≡ some s') × P s'
unfolding unroll
unroll_inv P x keep zero s p = (s, refl, p)
unroll_inv P x keep (suc n) s p =
    let (s', e, q) = keep s p in let (s'', f, r) = unroll_inv P x keep n s' q in (s'', rw e f, r)

-- A memory that differs from `mem` in the blocks of the part at most.
pub record KeepsOthers (c : Setup) (info : ThreadInfo) (mem m : List ℕ) : Type 0 where
  pub sized : length m ≡ length mem
  pub same : (x : ℕ) → IsOutside c.access_count c.access_size info x → get_or m x 0 ≡ get_or mem x 0

module _ (c : Setup) (info : ThreadInfo) (size : ℕ) (some_accesses : 0 < c.access_count)
    (full : length info.buffer ≡ c.access_size)
    (fits : (k : ℕ) → k < c.access_count → place info k + c.access_size ≤ size) where
  random_fits : (r : ℕ) → random_place c info r + c.access_size ≤ size
  unfolding random_place
  random_fits r = fits (r % c.access_count) (mod-lt r some_accesses)

  module _ (mem : List ℕ) (mem_size : length mem ≡ size) where
    -- The buffer keeps its size.
    abbrev Holds : List ℕ × ℕ → Type 0
    Holds s = length s.0 ≡ c.access_size

    read_random_loop-Holds :
        (n : ℕ) (s : List ℕ × ℕ)
        → Holds s
        → (s' : List ℕ × ℕ) × (read_random_loop c info mem n s ≡ some s') × Holds s'
    unfolding read_random_loop
    read_random_loop-Holds zero (b, state) h = ((b, state), refl, h)
    read_random_loop-Holds (suc n) (b, state) h =
        let draw = lehmer64 state in
        let (b', e, copied) =
          memcpy-Copies mem (random_place c info draw.1) b 0 c.access_size
            (omega (arith, random_fits draw.1, mem_size)) (omega arith) in
        let (s', f, q) = read_random_loop-Holds n (b', draw.0) (copied.size ∙ h) in (s', rw e f, q)

    -- `read_random` never leaves the buffer.
    pub read_random-returns : (s : List ℕ × ℕ) × (read_random c info mem ≡ some s)
    unfolding read_random
    read_random-returns =
        let (s, e, _) =
          unroll_inv Holds (read_random_loop c info mem c.nb_accesses)
            (read_random_loop-Holds c.nb_accesses) c.loops (info.buffer, 0) full in
        (s, e)

  module _ (mem : List ℕ) (mem_size : length mem ≡ size) where
    abbrev Kept : List ℕ × ℕ → Type 0
    Kept s = KeepsOthers c info mem s.0

    write_random_loop-Kept :
        (n : ℕ) (s : List ℕ × ℕ)
        → Kept s
        → (s' : List ℕ × ℕ) × (write_random_loop c info n s ≡ some s') × Kept s'
    unfolding write_random_loop random_place
    write_random_loop-Kept zero (m, state) h = ((m, state), refl, h)
    write_random_loop-Kept (suc n) (m, state) h =
        let draw = lehmer64 state in
        let (m', e, copied) =
          memcpy-Copies info.buffer 0 m (random_place c info draw.1) c.access_size
            (omega (arith, full)) (omega (arith, random_fits draw.1, h.sized, mem_size)) in
        let (s', f, q) =
          write_random_loop-Kept n (m', draw.0)
            (record {
              sized = copied.size ∙ h.sized;
              same = λ x out.
                  copied.kept x (out (draw.1 % c.access_count) (mod-lt draw.1 some_accesses))
                  ∙ h.same x out;
            }) in
        (s', rw e f, q)

    -- `write_random` never leaves the buffer, and writes in the thread's own blocks only.
    pub write_random-KeepsOthers :
        (s : List ℕ × ℕ) × (write_random c info mem ≡ some s) × KeepsOthers c info mem s.0
    unfolding write_random
    write_random-KeepsOthers =
        unroll_inv Kept (write_random_loop c info c.nb_accesses)
          (write_random_loop-Kept c.nb_accesses) c.loops (mem, 0)
          (record { sized = refl; same = λ x out. refl })
