-- ===== src/Bandwidth/Parts.antt =====
-- The parts that `create_thread_info` makes, and the threads that run on them.
use graph_benchmark.Base.{
  ℕ, zero, suc, ◌+◌, ◌*◌, ◌/◌, ◌-◌, ◌≡◌, ◌≢◌, ◌<◌, ◌≤◌, ◌^◌, ◌⊎◌, inl, inr, refl, sym, List, [],
  ◌∷◌, none, some, arith, Bool, true, length, get_or, length-replicate,
}
use graph_benchmark.Bandwidth.{
  ThreadInfo, AccessMode, grouped, interleaved, thread_info, thread_infos, create_thread_info,
}
use graph_benchmark.Bandwidth.Places.{place, AreApart, place_fits, place_apart}
use graph_benchmark.Bandwidth.Access.{Setup, read_random, write_random, read_seq, write_seq}
use graph_benchmark.Bandwidth.Bounds.{KeepsOthers, read_random-returns, write_random-KeepsOthers}
use graph_benchmark.Bandwidth.Sequential.{read_seq-returns, write_seq-KeepsOthers, read_seq-none}

-- What stands behind the end of the array of parts.
abbrev pub no_info : ThreadInfo
no_info = record { start = 0; end = 0; stride = 0; start_cycle = 0; stop_cycle = 0; buffer = [] }

last_part : (t w : ℕ) → 0 < t → (t - 1) * w + w ≡ t * w
last_part zero w h = absurd (omega arith)
last_part (suc t) w h = let before : suc t - 1 ≡ t = omega arith in rw before (grind arith)

module _ (attr_ok : ℕ → Bool) (m : AccessMode) (sz threads access_size : ℕ)
    (attrs : (i : ℕ) → attr_ok i ≡ true) where
  thread_infos-returns :
      (i n : ℕ)
      → (infos : List ThreadInfo) × (thread_infos attr_ok m sz threads access_size i n ≡ some infos)
        × ((k j : ℕ)
            → k < n
            → j ≡ i + k
            → get_or infos k no_info ≡ thread_info m sz threads access_size j)
  unfolding thread_infos
  thread_infos-returns i zero = ([], refl, λ k j lt e. absurd (omega arith))
  thread_infos-returns i (suc n) =
      let (rest, e, at) = thread_infos-returns (i + 1) n in
      (thread_info m sz threads access_size i ∷ rest, rw (attrs i, e) refl, each rest at)
    where
      each :
          (rest : List ThreadInfo)
          → ((k j : ℕ)
              → k < n
              → j ≡ i + 1 + k
              → get_or rest k no_info ≡ thread_info m sz threads access_size j)
          → (k j : ℕ) → k < suc n
          → j ≡ i + k
          → get_or (thread_info m sz threads access_size i ∷ rest) k no_info
            ≡ thread_info m sz threads access_size j
      each rest at zero j lt e = let same : j ≡ i = omega arith in rw same refl
      each rest at (suc k) j lt e = at k j (omega arith) (omega arith)

  abbrev count : ℕ
  count = sz / threads / access_size

  -- `access_count` is 0: too many threads, or too large accesses, for the buffer.
  pub create_thread_info-none :
      count ≡ 0 → create_thread_info attr_ok sz threads access_size m ≡ none
  unfolding create_thread_info
  create_thread_info-none e = rw e (ground arith)

  module _ (some_threads : 0 < threads) (some_bytes : 0 < access_size) (some_accesses : 0 < count)
      (small : sz < 2 ^ 64) where
    pub made :
        (infos : List ThreadInfo) × (create_thread_info attr_ok sz threads access_size m
          ≡ some (infos, count))
        × ((k : ℕ) → k < threads → get_or infos k no_info ≡ thread_info m sz threads access_size k)
    unfolding create_thread_info
    made =
        let (infos, e, at) = thread_infos-returns 0 threads in
        (infos, rw e (ground arith), λ k lt. at k k lt (omega arith))

    abbrev info_of : ℕ → ThreadInfo
    info_of i = get_or made.0 i no_info

    info_fits : (i k : ℕ) → i < threads → k < count → place (info_of i) k + access_size ≤ sz
    info_fits i k hi hk =
        rw (made.2 i hi)
          (place_fits sz threads access_size some_threads some_bytes small m i k hi hk)

    info_apart :
        (i k j l : ℕ)
        → i < threads
        → j < threads
        → k < count
        → l < count
        → (i ≢ j) ⊎ (k ≢ l)
        → AreApart access_size (place (info_of i) k) (place (info_of j) l)
    info_apart i k j l hi hj hk hl ne =
        rw (made.2 i hi, made.2 j hj)
          (place_apart sz threads access_size some_threads some_bytes small m i k j l hi hj hk hl
            ne)

    -- The last thread of the grouped division has no block number `access_count`.
    past_end :
        m ≡ grouped
        → threads * (sz / threads) ≡ sz
        → sz < place (info_of (threads - 1)) count + access_size
    unfolding thread_info
    past_end e whole =
        let last : threads - 1 < threads = omega arith in
        let ends : (threads - 1) * (sz / threads) + sz / threads ≡ threads * (sz / threads) =
          last_part threads (sz / threads) some_threads in
        let over : sz / threads < count * access_size + access_size = grind arith in
        let inside : count * access_size ≤ sz / threads = grind arith in
        rw (made.2 (threads - 1) last, e) (omega arith)

    -- Whatever the division, if the pthread attribute calls succeed and every thread gets at least one
    -- access, `create_thread_info` gives each thread `access_count` blocks that lie in the buffer, and no
    -- two blocks overlap, of one thread or of two.
    pub create_thread_info-AreApart :
        (infos : List ThreadInfo) × (create_thread_info attr_ok sz threads access_size m
          ≡ some (infos, count))
        × ((i k : ℕ)
            → i < threads
            → k < count
            → place (get_or infos i no_info) k + access_size ≤ sz)
        × ((i k j l : ℕ)
            → i < threads
            → j < threads
            → k < count
            → l < count
            → (i ≢ j) ⊎ (k ≢ l)
            → AreApart access_size
                (place (get_or infos i no_info) k)
                (place (get_or infos j no_info) l))
    create_thread_info-AreApart = (made.0, made.1, info_fits, info_apart)

    module _ (nb_accesses loops : ℕ) where
      abbrev pub setup : Setup
      setup = record {
        access_size = access_size;
        nb_accesses = nb_accesses;
        access_count = count;
        loops = loops;
      }

      -- No byte of a block of another thread is changed.
      abbrev pub KeepsTheirs : List ThreadInfo → ℕ → List ℕ → List ℕ → Type 0
      KeepsTheirs infos i mem mem' =
          (j l y : ℕ)
          → j < threads
          → j ≢ i
          → l < count
          → y < access_size
          → get_or mem' (place (get_or infos j no_info) l + y) 0
            ≡ get_or mem (place (get_or infos j no_info) l + y) 0

      module _ (i : ℕ) (hi : i < threads) (mem : List ℕ) (mem_size : length mem ≡ sz) where
        abbrev own : ThreadInfo
        own = info_of i

        own_full : length own.buffer ≡ access_size
        unfolding thread_info
        own_full = rw (made.2 i hi) (full m)
          where
            full :
                (m : AccessMode)
                → length (thread_info m sz threads access_size i).buffer ≡ access_size
            full grouped = length-replicate access_size 42
            full interleaved = length-replicate access_size 42

        own_fits : (k : ℕ) → k < count → place own k + access_size ≤ sz
        own_fits k hk = info_fits i k hi hk

        KeepsTheirs-of :
            (mem' : List ℕ) → KeepsOthers setup own mem mem' → KeepsTheirs made.0 i mem mem'
        KeepsTheirs-of mem' kept j l y hj ne hl hy = kept.same (place (info_of j) l + y) (λ k hk.
            elim (info_apart i k j l hi hj hk hl (inl (λ e. ne (sym e)))) [
              | inl before ↦ inr (omega arith)
              | inr behind ↦ inl (omega arith)
            ])

        random_write :
            (s : List ℕ × ℕ) × (write_random setup own mem ≡ some s) × KeepsTheirs made.0 i mem s.0
        random_write =
            let (s, e, kept) =
              write_random-KeepsOthers setup own sz some_accesses own_full own_fits mem mem_size in
            (s, e, KeepsTheirs-of s.0 kept)

        seq_write :
            nb_accesses ≤ count
            → (mem' : List ℕ) × (write_seq setup own mem ≡ some mem')
              × KeepsTheirs made.0 i mem mem'
        seq_write few =
            let (s, e, kept) =
              write_seq-KeepsOthers setup own sz own_full own_fits few mem mem_size in
            (s, e, KeepsTheirs-of s kept)

        random_read : (s : List ℕ × ℕ) × (read_random setup own mem ≡ some s)
        random_read = read_random-returns setup own sz some_accesses own_full own_fits mem mem_size

        seq_read : nb_accesses ≤ count → (b : List ℕ) × (read_seq setup own mem ≡ some b)
        seq_read few = read_seq-returns setup own sz own_full own_fits few mem mem_size

      -- On the parts of `create_thread_info`, `write_random` of thread `i` returns for every number of
      -- accesses and rounds, and changes no byte of a block of another thread; `write_seq` does so when
      -- `nb_accesses` is at most `access_count`.
      pub write_random-KeepsTheirs :
          (infos : List ThreadInfo) × (create_thread_info attr_ok sz threads access_size m
            ≡ some (infos, count))
          × ((i : ℕ) (mem : List ℕ)
              → i < threads
              → length mem ≡ sz
              → (s : List ℕ × ℕ) × (write_random setup (get_or infos i no_info) mem ≡ some s)
                × KeepsTheirs infos i mem s.0)
          × ((i : ℕ) (mem : List ℕ)
              → i < threads
              → length mem ≡ sz
              → nb_accesses ≤ count
              → (mem' : List ℕ) × (write_seq setup (get_or infos i no_info) mem ≡ some mem')
                × KeepsTheirs infos i mem mem')
      write_random-KeepsTheirs = (
        made.0,
        made.1,
        λ i mem hi size. random_write i hi mem size,
        λ i mem hi size few. seq_write i hi mem size few,
      )

      -- `read_random` never leaves the buffer, and `read_seq` does not while `nb_accesses` is at most
      -- `access_count`; with more accesses, and parts that fill the buffer, the last thread of the grouped
      -- division reads behind its end.
      pub read_seq-bounds :
          (infos : List ThreadInfo) × (create_thread_info attr_ok sz threads access_size m
            ≡ some (infos, count))
          × ((i : ℕ) (mem : List ℕ)
              → i < threads
              → length mem ≡ sz
              → (s : List ℕ × ℕ) × (read_random setup (get_or infos i no_info) mem ≡ some s))
          × ((i : ℕ) (mem : List ℕ)
              → i < threads
              → length mem ≡ sz
              → nb_accesses ≤ count
              → (b : List ℕ) × (read_seq setup (get_or infos i no_info) mem ≡ some b))
          × ((mem : List ℕ)
              → length mem ≡ sz
              → m ≡ grouped
              → threads * (sz / threads) ≡ sz
              → count < nb_accesses
              → 0 < loops
              → read_seq setup (get_or infos (threads - 1) no_info) mem ≡ none)
      read_seq-bounds = (
        made.0,
        made.1,
        λ i mem hi size. random_read i hi mem size,
        λ i mem hi size few. seq_read i hi mem size few,
        λ mem size e whole more pos.
            read_seq-none setup (info_of (threads - 1)) mem (omega (arith, past_end e whole, size))
              pos more,
      )
