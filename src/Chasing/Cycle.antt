-- ===== src/Chasing/Cycle.antt =====
-- The chain of `create_random` is one cycle through all entries.
use graph_benchmark.Base.{
  range_from, IsOrder, range_from-IsOrder, ℕ, zero, suc, ◌+◌, ◌-◌, ◌≡◌, ◌≢◌, ◌<◌, ◌/◌, refl, sym,
  ap, ◌∙◌, List, arith, Bool, true, false, Option, none, some, get_or, length, count, index_of,
  dec_lt, count-get_or, if◌then◌else◌,
}
use graph_benchmark.Chasing.{
  Pointer, null, one, entry, Chain, aligned, number_loop, link, create_random, load, read_chase,
  swap_null, cas_chase_fail,
}
use graph_benchmark.Chasing.Links.{
  at_index, at_index_unique, get_or-link, get_or-link_last, number_loop_lem,
}

index_eq : (i j : ℕ) → some (entry i) ≡ some (entry j) → i ≡ j
index_eq i j e = ap (λ p. index_of_pointer p) e
  where
    index_of_pointer : Option Pointer → ℕ
    index_of_pointer none = 0
    index_of_pointer (some null) = 0
    index_of_pointer (some one) = 0
    index_of_pointer (some (entry k)) = k

module _ (len : ℕ) (indices : List ℕ) (o : IsOrder len indices) (cells : List Pointer)
    (size : length cells ≡ len) where
  abbrev at : ℕ → ℕ
  at = at_index len indices o

  abbrev b : List Pointer
  b = link indices len cells

  -- Within the order, a round moves on by one index.
  ahead : (k i d : ℕ) → i + k ≡ d → d < len → read_chase b (entry (at i)) k ≡ some (entry (at d))
  unfolding read_chase load
  ahead zero i d e lt = let same : i ≡ d = omega arith in rw same refl
  ahead (suc k) i d e lt =
      ap (λ p. read_chase b p k) (get_or-link len indices o cells size i (omega arith))
      ∙ ahead k (suc i) d (omega arith) lt

  -- Past the end of the order it starts over.
  around :
      (k i d : ℕ)
      → i + k ≡ d + len
      → i < len
      → d < len
      → read_chase b (entry (at i)) k ≡ some (entry (at d))
  unfolding read_chase load
  around zero i d e hi hd = absurd (omega arith)
  around (suc k) i d e hi hd = elim (dec_lt (suc i) len) [
    | yes inner ↦
        ap (λ p. read_chase b p k) (get_or-link len indices o cells size i inner)
        ∙ around k (suc i) d (omega arith) inner hd
    | no last ↦
        ap (λ p. read_chase b p k) (get_or-link_last len indices o cells size i (omega arith))
        ∙ ahead k 0 d (omega arith) hd
  ]

  index_for : (x : ℕ) → x < len → (i : ℕ) × (i < len) × (at i ≡ x)
  index_for x lt =
      let (i, inside, e) = index_of x indices (o.all x lt) in (i, omega (arith, o.size), e)

  module _ (pos : 0 < len) where
    -- The place of entry 0, where the chase starts.
    abbrev home : ℕ
    home = (index_for 0 pos).0

    home_lt : home < len
    home_lt = (index_for 0 pos).1

    home_lem : at home ≡ 0
    home_lem = (index_for 0 pos).2

    from_home :
        (k d : ℕ)
        → read_chase b (entry (at home)) k ≡ some (entry (at d))
        → read_chase b (entry 0) k ≡ some (entry (at d))
    from_home k d e = rw home_lem at e

    visits : (x : ℕ) → x < len → (k : ℕ) × (k < len) × (read_chase b (entry 0) k ≡ some (entry x))
    visits x lt =
        let (d, hd, e) = index_for x lt in
        elim (dec_lt d home) [
          | yes before ↦ (
            d + len - home,
            omega (arith, home_lt),
            rw e at (
                from_home (d + len - home) d
                  (around (d + len - home) home d (omega (arith, home_lt)) home_lt hd)),
          )
          | no after ↦ (
            d - home,
            omega arith,
            rw e at (from_home (d - home) d (ahead (d - home) home d (omega arith) hd)),
          )
        ]

    returns : read_chase b (entry 0) len ≡ some (entry 0)
    returns = rw home_lem at (from_home len home (around len home home refl home_lt home_lt))

    not_home : (d : ℕ) → d < len → d ≢ home → some (entry (at d)) ≢ some (entry 0)
    not_home d lt ne e =
        ne (at_index_unique len indices o d home lt home_lt (index_eq (at d) 0 e ∙ sym home_lem))

    no_sooner : (k : ℕ) → 0 < k → k < len → read_chase b (entry 0) k ≢ some (entry 0)
    no_sooner k low high back = elim (dec_lt (home + k) len) [
      | yes inner ↦
          not_home (home + k) inner (λ e. omega arith)
            (sym (from_home k (home + k) (ahead k home (home + k) refl inner)) ∙ back)
      | no outer ↦
          not_home (home + k - len) (omega (arith, home_lt)) (λ e. omega arith)
            (sym (
                from_home k (home + k - len)
                  (around k home (home + k - len) (omega arith) home_lt (omega (arith, home_lt))))
              ∙ back)
    ]

  -- A compare-and-swap with null finds an address, and moves on as a load does.
  never_null :
      (k i : ℕ)
      → i < len
      → (d : ℕ) × (d < len)
        × (read_chase b (entry (at i)) k ≡ some (entry (at d)))
        × (cas_chase_fail b (entry (at i)) k ≡ some (entry (at d), b))
  unfolding read_chase load cas_chase_fail swap_null
  never_null zero i lt = (i, lt, refl, refl)
  never_null (suc k) i lt = elim (dec_lt (suc i) len) [
    | yes inner ↦
        let (d, hd, e, e') = never_null k (suc i) inner in
        (
          d,
          hd,
          rw (get_or-link len indices o cells size i inner) e,
          rw (get_or-link len indices o cells size i inner) e',
        )
    | no last ↦
        let end : suc i ≡ len = omega arith in
        let (d, hd, e, e') = never_null k 0 (omega arith) in
        (
          d,
          hd,
          rw (get_or-link_last len indices o cells size i end) e,
          rw (get_or-link_last len indices o cells size i end) e',
        )
  ]

-- What `std::random_shuffle` does: it permutes the values of the array.
pub record Permutes (f : List ℕ → List ℕ) : Type 0 where
  pub size : (l : List ℕ) → length (f l) ≡ length l
  pub kept : (x : ℕ) (l : List ℕ) → count x (f l) ≡ count x l

Permutes-IsOrder :
    (f : List ℕ → List ℕ) → Permutes f → (len : ℕ) (l : List ℕ) → IsOrder len l → IsOrder len (f l)
Permutes-IsOrder f p len l o = record {
  size = p.size l ∙ o.size;
  once = λ x. omega (arith, p.kept x l, o.once x);
  low = λ i lt.
      let there = count-get_or (f l) i 0 (omega (arith, p.size l, o.size)) in
      let (j, inside, e) =
        index_of (get_or (f l) i 0) l (omega (arith, there, p.kept (get_or (f l) i 0) l)) in
      omega (arith, o.low j (omega (arith, inside, o.size)), e);
  all = λ x lt. omega (arith, p.kept x l, o.all x lt);
}

module _ (sz : ℕ) (random_shuffle : List ℕ → List ℕ) (permutes : Permutes random_shuffle)
    (cells : List Pointer) (index_cells : List ℕ) (buffer_sz : ℕ) (shuffle : Bool) where
  abbrev chain : Chain
  chain = create_random sz random_shuffle cells index_cells buffer_sz shuffle

  abbrev entries : ℕ
  entries = aligned sz buffer_sz / sz

  module _ (size : length cells ≡ entries) (index_size : length index_cells ≡ entries) where
    abbrev order : Bool → List ℕ
    order b =
        if b
        then random_shuffle (number_loop 0 entries index_cells)
        else number_loop 0 entries index_cells

    order-IsOrder : (b : Bool) → IsOrder entries (order b)
    order-IsOrder true = rw (number_loop_lem entries index_cells index_size) (
        Permutes-IsOrder random_shuffle permutes entries (range_from 0 entries)
          (range_from-IsOrder entries))
    order-IsOrder false =
        rw (number_loop_lem entries index_cells index_size) (range_from-IsOrder entries)

    -- If there is an entry, the chain of `create_random` is one cycle: `read_chase` from the start of the
    -- buffer comes to every entry in less than `len` rounds, is back after `len` rounds, and not sooner.
    pub create_random-cycle :
        0 < entries
        → ((x : ℕ)
            → x < chain.len
            → (k : ℕ) × (k < chain.len) × (read_chase chain.buffer (entry 0) k ≡ some (entry x)))
          × (read_chase chain.buffer (entry 0) chain.len ≡ some (entry 0))
          × ((k : ℕ) → 0 < k → k < chain.len → read_chase chain.buffer (entry 0) k ≢ some (entry 0))
    unfolding create_random
    create_random-cycle pos = (
      visits entries (order shuffle) (order-IsOrder shuffle) cells size pos,
      returns entries (order shuffle) (order-IsOrder shuffle) cells size pos,
      no_sooner entries (order shuffle) (order-IsOrder shuffle) cells size pos,
    )

    -- On that chain neither loop leaves the buffer: for every number of rounds `read_chase` ends at an
    -- entry, and `cas_chase_fail` ends at the same one and has written nothing.
    pub cas_chase_fail-read_chase :
        0 < entries
        → (k : ℕ)
        → (x : ℕ) × (read_chase chain.buffer (entry 0) k ≡ some (entry x))
          × (cas_chase_fail chain.buffer (entry 0) k ≡ some (entry x, chain.buffer))
    unfolding create_random
    cas_chase_fail-read_chase pos k =
        let o = order-IsOrder shuffle in
        let (d, hd, e, e') =
          never_null entries (order shuffle) o cells size k
            (home entries (order shuffle) o cells size pos)
            (home_lt entries (order shuffle) o cells size pos) in
        (
          _,
          rw (home_lem entries (order shuffle) o cells size pos) at e,
          rw (home_lem entries (order shuffle) o cells size pos) at e',
        )
