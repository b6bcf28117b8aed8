-- ===== src/Chasing/Links.antt =====
-- The loops of `create_random`: the entries are linked in the order of the indices.
use graph_benchmark.Base.{
  ℕ, zero, suc, ◌+◌, ◌-◌, ◌≡◌, ◌<◌, ◌≤◌, refl, sym, ap, ◌∙◌, List, arith, get_or, set, length,
  length-set, get_or-set_self, get_or-set_ne, ℕ_discrete, index_unique, eq_of_get_or, range_from,
  length-range_from, get_or-range_from, IsOrder,
}
use graph_benchmark.Chasing.{Pointer, null, entry, number_loop, link_loop, link}

length-number_loop : (i n : ℕ) (a : List ℕ) → length (number_loop i n a) ≡ length a
unfolding number_loop
length-number_loop i zero a = refl
length-number_loop i (suc n) a = length-number_loop (i + 1) n (set a i i) ∙ length-set a i i

number_loop-kept :
    (i n : ℕ) (a : List ℕ) (j : ℕ) → j < i → get_or (number_loop i n a) j 0 ≡ get_or a j 0
unfolding number_loop
number_loop-kept i zero a j lt = refl
number_loop-kept i (suc n) a j lt =
    number_loop-kept (i + 1) n (set a i i) j (omega arith)
    ∙ get_or-set_ne a i j i 0 (λ e. omega arith)

get_or-number_loop :
    (i n : ℕ) (a : List ℕ) (j : ℕ)
    → i + n ≤ length a
    → i ≤ j
    → j < i + n
    → get_or (number_loop i n a) j 0 ≡ j
unfolding number_loop
get_or-number_loop i zero a j h le lt = absurd (omega arith)
get_or-number_loop i (suc n) a j h le lt = elim (ℕ_discrete j i) [
  | yes e ↦ rw e (
      number_loop-kept (i + 1) n (set a i i) i (omega arith)
      ∙ get_or-set_self a i i 0 (omega arith))
  | no ne ↦
      get_or-number_loop (i + 1) n (set a i i) j (omega (arith, length-set a i i)) (omega arith)
        (omega arith)
]

module _ (len : ℕ) (indices : List ℕ) (o : IsOrder len indices) where
  abbrev pub at_index : ℕ → ℕ
  at_index i = get_or indices i 0

  pub at_index_unique : (i j : ℕ) → i < len → j < len → at_index i ≡ at_index j → i ≡ j
  at_index_unique i j hi hj e =
      index_unique indices i j o.once (omega (arith, o.size)) (omega (arith, o.size)) e

  length-link_loop : (i n : ℕ) (b : List Pointer) → length (link_loop indices i n b) ≡ length b
  unfolding link_loop
  length-link_loop i zero b = refl
  length-link_loop i (suc n) b =
      length-link_loop (i + 1) n (set b (at_index (i - 1)) (entry (at_index i)))
      ∙ length-set b (at_index (i - 1)) (entry (at_index i))

  link_loop-kept :
      (i n k : ℕ) (b : List Pointer)
      → 1 ≤ i
      → i + n ≤ len
      → suc k < i
      → get_or (link_loop indices i n b) (at_index k) null ≡ get_or b (at_index k) null
  unfolding link_loop
  link_loop-kept i zero k b pos h lt = refl
  link_loop-kept i (suc n) k b pos h lt =
      link_loop-kept (i + 1) n k (set b (at_index (i - 1)) (entry (at_index i))) (omega arith)
        (omega arith) (omega arith)
      ∙ get_or-set_ne b (at_index (i - 1)) (at_index k) (entry (at_index i)) null
          (λ e. omega (arith, at_index_unique (i - 1) k (omega arith) (omega arith) e))

  get_or-link_loop :
      (i n k : ℕ) (b : List Pointer)
      → 1 ≤ i
      → i + n ≤ len
      → len ≤ length b
      → i ≤ suc k
      → suc k < i + n
      → get_or (link_loop indices i n b) (at_index k) null ≡ entry (at_index (suc k))
  unfolding link_loop
  get_or-link_loop i zero k b pos h size le lt = absurd (omega arith)
  get_or-link_loop i (suc n) k b pos h size le lt = elim (ℕ_discrete i (suc k)) [
    | yes e ↦
        let b' = set b (at_index (i - 1)) (entry (at_index i)) in
        let here : k ≡ i - 1 = omega arith in
        ap (λ v. get_or (link_loop indices (i + 1) n b') (at_index v) null) here
        ∙ link_loop-kept (i + 1) n (i - 1) b' (omega arith) (omega arith) (omega arith)
        ∙ get_or-set_self b (at_index (i - 1)) (entry (at_index i)) null
            (omega (arith, o.low (i - 1) (omega arith)))
        ∙ ap (λ v. entry (at_index v)) e
    | no ne ↦
        get_or-link_loop (i + 1) n k (set b (at_index (i - 1)) (entry (at_index i))) (omega arith)
          (omega arith) (omega (arith, length-set b (at_index (i - 1)) (entry (at_index i))))
          (omega arith) (omega arith)
  ]

  module _ (b : List Pointer) (size : length b ≡ len) where
    -- Each entry points to the next one in the order.
    pub get_or-link :
        (k : ℕ)
        → suc k < len
        → get_or (link indices len b) (at_index k) null ≡ entry (at_index (suc k))
    unfolding link
    get_or-link k lt =
        get_or-set_ne (link_loop indices 1 (len - 1) b) (at_index (len - 1)) (at_index k)
          (entry (at_index 0)) null
          (λ e. omega (arith, at_index_unique (len - 1) k (omega arith) (omega arith) e))
        ∙ get_or-link_loop 1 (len - 1) k b (omega arith) (omega arith) (omega arith) (omega arith)
            (omega arith)

    -- The last one points to the first.
    pub get_or-link_last :
        (k : ℕ) → suc k ≡ len → get_or (link indices len b) (at_index k) null ≡ entry (at_index 0)
    unfolding link
    get_or-link_last k e =
        let here : len - 1 ≡ k = omega arith in
        rw here (
          get_or-set_self (link_loop indices 1 k b) (at_index k) (entry (at_index 0)) null
            (omega (arith, o.low k (omega arith), length-link_loop 1 k b)))

-- The numbering before the shuffle.
pub number_loop_lem :
    (len : ℕ) (cells : List ℕ) → length cells ≡ len → number_loop 0 len cells ≡ range_from 0 len
number_loop_lem len cells size =
    eq_of_get_or (number_loop 0 len cells) (range_from 0 len) 0
      (length-number_loop 0 len cells ∙ size ∙ sym (length-range_from 0 len))
      (λ i lt.
        let inside : i < len = omega (arith, length-number_loop 0 len cells, size) in
        let here = get_or-number_loop 0 len cells i (omega arith) (omega arith) (omega arith) in
        omega (arith, here, get_or-range_from 0 len i inside))
