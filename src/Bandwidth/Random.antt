-- ===== src/Bandwidth/Random.antt =====
-- The random accesses of a fresh thread: its generator stands at 0 and stays there.
use graph_benchmark.Base.{
  ℕ, zero, suc, ◌+◌, ◌%◌, ◌≡◌, ◌<◌, ◌≤◌, ◌⊎◌, refl, sym, subst, ◌∙◌, List, some, arith, length,
  get_or,
}
use graph_benchmark.Bandwidth.{ThreadInfo}
use graph_benchmark.Bandwidth.Access.{
  Setup, lehmer64, random_place, write_random_loop, write_random,
}
use graph_benchmark.Bandwidth.Bounds.{memcpy-Copies, unroll_inv}

lehmer64-zero : lehmer64 0 ≡ (0, 0)
unfolding lehmer64
lehmer64-zero = refl

module _ (c : Setup) (info : ThreadInfo) (mem : List ℕ) (some_accesses : 0 < c.access_count)
    (full : length info.buffer ≡ c.access_size)
    (fits : info.start + c.access_size ≤ length mem) where
  first_block : random_place c info 0 ≡ info.start
  unfolding random_place
  first_block = let none_left : 0 % c.access_count ≡ 0 = grind arith in rw none_left (omega arith)

  -- The generator at 0, and the memory as at the start behind the first block and before it.
  record Still (s : List ℕ × ℕ) : Type 0 where
    generator : s.1 ≡ 0
    sized : length s.0 ≡ length mem
    same :
        (x : ℕ)
        → (x < info.start) ⊎ (info.start + c.access_size ≤ x)
        → get_or s.0 x 0 ≡ get_or mem x 0

  write_random_loop-Still :
      (n : ℕ) (m : List ℕ)
      → Still (m, 0)
      → (s' : List ℕ × ℕ) × (write_random_loop c info n (m, 0) ≡ some s') × Still s'
  unfolding write_random_loop
  write_random_loop-Still zero m h = ((m, 0), refl, h)
  write_random_loop-Still (suc n) m h =
      let (m', e, copied) =
        memcpy-Copies info.buffer 0 m info.start c.access_size (omega (arith, full))
          (omega (arith, h.sized)) in
      let (s', f, q) = write_random_loop-Still n m' (record {
        generator = refl;
        sized = copied.size ∙ h.sized;
        same = λ x out. copied.kept x out ∙ h.same x out;
      }) in
      (s', rw (lehmer64-zero, first_block, e) f, q)

  -- The accesses of `write_random` are not random: a thread starts with its own generator at 0, which
  -- `init_seed` has set for the main thread only, so that nothing but the first block is ever written.
  pub write_random-first_block :
      (s : List ℕ × ℕ) × (write_random c info mem ≡ some s)
      × (s.1 ≡ 0)
      × ((x : ℕ)
          → (x < info.start) ⊎ (info.start + c.access_size ≤ x)
          → get_or s.0 x 0 ≡ get_or mem x 0)
  unfolding write_random
  write_random-first_block =
      let (s, e, q) =
        unroll_inv Still (write_random_loop c info c.nb_accesses) again c.loops (mem, 0)
          (record { generator = refl; sized = refl; same = λ x out. refl }) in
      (s, e, q.generator, q.same)
    where
      again :
          (s : List ℕ × ℕ)
          → Still s
          → (s' : List ℕ × ℕ) × (write_random_loop c info c.nb_accesses s ≡ some s') × Still s'
      again (m, g) h =
          let at_zero : g ≡ 0 = h.generator in
          subst
            (λ v.
              Still (m, v)
              → (s' : List ℕ × ℕ) × (write_random_loop c info c.nb_accesses (m, v) ≡ some s')
                × Still s')
            (sym at_zero) (write_random_loop-Still c.nb_accesses m) h
