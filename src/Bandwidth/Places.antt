-- ===== src/Bandwidth/Places.antt =====
-- The parts of the threads: their blocks lie in the buffer and are apart.
use native.Mathlib.Nat.{mul-le-mul_right, mul-le-mul_left}
use graph_benchmark.Base.{
  ℕ, suc, ◌+◌, ◌*◌, ◌/◌, ◌≡◌, ◌≢◌, ◌<◌, ◌≤◌, ◌^◌, ◌⊎◌, inl, inr, ap, arith, dec_lt, u64,
}
use graph_benchmark.Bandwidth.{ThreadInfo, AccessMode, grouped, interleaved, thread_info}

-- The address of block `k` of a part.
abbrev pub place : ThreadInfo → ℕ → ℕ
place info k = info.start + u64 (k * info.stride)

-- A byte that is in none of the first `count` blocks of a part.
abbrev pub IsOutside : ℕ → ℕ → ThreadInfo → ℕ → Type 0
IsOutside count width info x = (k : ℕ) → k < count → (x < place info k) ⊎ (place info k + width ≤ x)

block_lt : (a b w : ℕ) → a < b → a * w + w ≤ b * w
block_lt a b w h = grind (arith, mul-le-mul_right {m = suc a} {n = b} w h)

div_le : (n d : ℕ) → 0 < d → n / d * d ≤ n
div_le n d h = grind arith

-- Two blocks of width `w` do not overlap.
abbrev pub AreApart : ℕ → ℕ → ℕ → Type 0
AreApart w p q = (p + w ≤ q) ⊎ (q + w ≤ p)

module _ (sz threads access_size : ℕ) (some_threads : 0 < threads) (some_bytes : 0 < access_size)
    (small : sz < 2 ^ 64) where
  abbrev pub access_count : ℕ
  access_count = sz / threads / access_size

  abbrev partition : ℕ
  partition = sz / threads

  abbrev part : AccessMode → ℕ → ThreadInfo
  part m i = thread_info m sz threads access_size i

  threads_fit : threads * partition ≤ sz
  threads_fit = grind (arith, div_le sz threads some_threads)

  accesses_fit : access_count * access_size ≤ partition
  accesses_fit = div_le partition access_size some_bytes

  -- A block of thread `i` ends in its partition.
  in_partition : (k : ℕ) → k < access_count → k * access_size + access_size ≤ partition
  in_partition k h = omega (arith, block_lt k access_count access_size h, accesses_fit)

  partition_fits : (i : ℕ) → i < threads → i * partition + partition ≤ sz
  partition_fits i h = omega (arith, block_lt i threads partition h, threads_fit)

  grouped_place :
      (i k : ℕ)
      → i < threads
      → k < access_count
      → place (part grouped i) k ≡ i * partition + k * access_size
  unfolding thread_info
  grouped_place i k hi hk = omega (arith, partition_fits i hi, in_partition k hk)

  -- The number of a block in the order of the addresses.
  abbrev number : ℕ → ℕ → ℕ
  number i k = k * threads + i

  number_lt : (i k l : ℕ) → i < threads → k < l → number i k < l * threads
  number_lt i k l hi hk = omega (arith, block_lt k l threads hk)

  number_fits :
      (i k : ℕ) → i < threads → k < access_count → number i k * access_size + access_size ≤ sz
  number_fits i k hi hk =
      let below =
        block_lt (number i k) (access_count * threads) access_size
          (number_lt i k access_count hi hk) in
      let wide = mul-le-mul_left threads accesses_fit in grind (arith, below, wide, threads_fit)

  interleaved_place :
      (i k : ℕ)
      → i < threads
      → k < access_count
      → place (part interleaved i) k ≡ number i k * access_size
  unfolding thread_info
  interleaved_place i k hi hk =
      let fits = number_fits i k hi hk in
      let apart : number i k * access_size ≡ k * threads * access_size + i * access_size =
        grind arith in
      let regroup : k * (threads * access_size) ≡ k * threads * access_size = grind arith in
      let wide : access_size ≤ partition = omega (arith, in_partition k hk) in
      let one_round = mul-le-mul_left threads wide in
      let stride : u64 (threads * access_size) ≡ threads * access_size =
        omega (arith, one_round, threads_fit) in
      rw stride (omega (arith, fits, apart, regroup))

  -- Every block lies in the buffer.
  pub place_fits :
      (m : AccessMode) (i k : ℕ)
      → i < threads
      → k < access_count
      → place (part m i) k + access_size ≤ sz
  place_fits grouped i k hi hk =
      omega (arith, grouped_place i k hi hk, in_partition k hk, partition_fits i hi)
  place_fits interleaved i k hi hk =
      omega (arith, interleaved_place i k hi hk, number_fits i k hi hk)

  -- A block with a smaller number, in either division, ends before the other begins.
  grouped_before :
      (i k j l : ℕ)
      → i < threads
      → j < threads
      → k < access_count
      → l < access_count
      → (i < j) ⊎ ((i ≡ j) × (k < l))
      → place (part grouped i) k + access_size ≤ place (part grouped j) l
  grouped_before i k j l hi hj hk hl (inl h) = omega (
    arith,
    grouped_place i k hi hk,
    grouped_place j l hj hl,
    in_partition k hk,
    block_lt i j partition h,
  )
  grouped_before i k j l hi hj hk hl (inr (e, h)) =
      let same = ap (λ x. x * partition) e in
      omega
        (arith, grouped_place i k hi hk, grouped_place j l hj hl, same, block_lt k l access_size h)

  interleaved_before :
      (i k j l : ℕ)
      → i < threads
      → j < threads
      → k < access_count
      → l < access_count
      → (k < l) ⊎ ((k ≡ l) × (i < j))
      → place (part interleaved i) k + access_size ≤ place (part interleaved j) l
  interleaved_before i k j l hi hj hk hl (inl h) = omega (
    arith,
    interleaved_place i k hi hk,
    interleaved_place j l hj hl,
    block_lt (number i k) (number j l) access_size (omega (arith, number_lt i k l hi h)),
  )
  interleaved_before i k j l hi hj hk hl (inr (e, h)) =
      let same = ap (λ x. x * threads) e in
      omega (
        arith,
        interleaved_place i k hi hk,
        interleaved_place j l hj hl,
        block_lt (number i k) (number j l) access_size (omega arith),
      )

  -- Blocks of different threads, or different blocks of one thread, do not overlap.
  pub place_apart :
      (m : AccessMode) (i k j l : ℕ)
      → i < threads
      → j < threads
      → k < access_count
      → l < access_count
      → (i ≢ j) ⊎ (k ≢ l)
      → AreApart access_size (place (part m i) k) (place (part m j) l)
  place_apart grouped i k j l hi hj hk hl ne = elim (dec_lt i j) [
    | yes h ↦ inl (grouped_before i k j l hi hj hk hl (inl h))
    | no not_a ↦ elim (dec_lt j i) [
      | yes h ↦ inr (grouped_before j l i k hj hi hl hk (inl h))
      | no not_b ↦ elim (dec_lt k l) [
        | yes h ↦ inl (grouped_before i k j l hi hj hk hl (inr (omega arith, h)))
        | no not_c ↦ inr (grouped_before j l i k hj hi hl hk (inr (omega arith, omega arith)))
      ]
    ]
  ]
  place_apart interleaved i k j l hi hj hk hl ne = elim (dec_lt k l) [
    | yes h ↦ inl (interleaved_before i k j l hi hj hk hl (inl h))
    | no not_x ↦ elim (dec_lt l k) [
      | yes h ↦ inr (interleaved_before j l i k hj hi hl hk (inl h))
      | no not_y ↦ elim (dec_lt i j) [
        | yes h ↦ inl (interleaved_before i k j l hi hj hk hl (inr (omega arith, h)))
        | no not_z ↦ inr (interleaved_before j l i k hj hi hl hk (inr (omega arith, omega arith)))
      ]
    ]
  ]
