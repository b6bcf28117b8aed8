-- ===== src/Pebs/Draining.antt =====
-- The collector takes the records of each page in their order.
use graph_benchmark.Base.{
  ℕ, zero, suc, ◌+◌, ◌/◌, ◌%◌, ◌≡◌, ◌≢◌, ◌<◌, refl, true, false, some, List, [], ◌∷◌, ◌++◌,
  append_assoc, append-nil, arith, ◌==◌, ltb, if◌then◌else◌, Bool-cases, inl, inr, get_or, length,
  u64,
}
use graph_benchmark.Pebs.{
  Page, record_sample, type_of, size_of, word_at, take_sample, collect_one, collect_pass,
  cache_collect_sample,
}

-- A record that the kernel has written: its header and its address word.
pub record Written : Type 0 where
  pub header : ℕ
  pub addr : ℕ

-- The page holds these records from its tail to its head. Each starts at a word of the ring and ends
-- inside of it, so that none goes on at the ring's start.
abbrev pub Holds : Page → List Written → Type 0
Holds p [] = p.data_head ≡ p.data_tail
Holds p (w ∷ ws) =
    (p.data_head ≢ p.data_tail)
    × (p.data_tail % p.data_size / 8 + 2 < length p.words)
    × (p.data_tail % p.data_size % 8 ≡ 0)
    × (get_or p.words (p.data_tail % p.data_size / 8) 0 ≡ w.header)
    × (get_or p.words (p.data_tail % p.data_size / 8 + 2) 0 ≡ w.addr)
    × Holds (record p { data_tail = u64 (p.data_tail + size_of w.header) }) ws

abbrev pub AllHold : List Page → List (List Written) → Type 0
AllHold [] [] = Unit
AllHold [] (ws ∷ rest) = ⊥
AllHold (p ∷ pages) [] = ⊥
AllHold (p ∷ pages) (ws ∷ rest) = Holds p ws × AllHold pages rest

-- The address of a sample, and nothing of another record.
unfoldable pub address_of : Written → List ℕ
address_of w = if type_of w.header == record_sample then w.addr ∷ [] else []

unfoldable pub first : List Written → List ℕ
first [] = []
first (w ∷ ws) = address_of w

unfoldable pub rest_of : List Written → List Written
rest_of [] = []
rest_of (w ∷ ws) = ws

-- The addresses of the first records of all pages.
unfoldable pub firsts : List (List Written) → List ℕ
firsts [] = []
firsts (ws ∷ rest) = first ws ++ firsts rest

unfoldable pub rests : List (List Written) → List (List Written)
rests [] = []
rests (ws ∷ rest) = rest_of ws ∷ rests rest

-- Round after round, one record of each page.
unfoldable pub addresses : ℕ → List (List Written) → List ℕ
addresses zero pending = []
addresses (suc n) pending = firsts pending ++ addresses n (rests pending)

unfoldable pub pending_after : ℕ → List (List Written) → List (List Written)
pending_after zero pending = pending
pending_after (suc n) pending = pending_after n (rests pending)

module _ (p : Page) (at : ℕ) (fits : at / 8 + 2 < length p.words) where
  head_word : (header : ℕ) → get_or p.words (at / 8) 0 ≡ header → word_at p.words at ≡ some header
  unfolding word_at
  head_word header e =
      let inside : ltb (at / 8) (length p.words) ≡ true = ground arith in rw (inside, e) refl

  address_word :
      (addr : ℕ)
      → at % 8 ≡ 0
      → get_or p.words (at / 8 + 2) 0 ≡ addr
      → word_at p.words (at + 16) ≡ some addr
  unfolding word_at
  address_word addr aligned e =
      let behind : (at + 16) / 8 ≡ at / 8 + 2 = omega arith in
      let inside : ltb (at / 8 + 2) (length p.words) ≡ true = ground arith in
      rw (behind, inside, e) refl

  take_sample-address :
      (w : Written) (sampled : List ℕ)
      → at % 8 ≡ 0
      → get_or p.words (at / 8 + 2) 0 ≡ w.addr
      → take_sample p at w.header sampled ≡ some (sampled ++ address_of w)
  unfolding take_sample address_of
  take_sample-address w sampled aligned e = elim (Bool-cases (type_of w.header == record_sample)) [
    | inl yes_sample ↦ rw (yes_sample, address_word w.addr aligned e) refl
    | inr other ↦ rw (other, append-nil) refl
  ]

collect_one-first :
    (p : Page) (ws : List Written) (sampled : List ℕ)
    → Holds p ws
    → (p' : Page) × (collect_one p sampled ≡ some (p', sampled ++ first ws)) × Holds p' (rest_of ws)
unfolding collect_one first rest_of
collect_one-first p [] sampled h =
    let none_left : (p.data_head == p.data_tail) ≡ true = ground (arith, h) in
    (p, rw (none_left, append-nil) refl, h)
collect_one-first p (w ∷ ws) sampled (more, fits, aligned, header, addr, later) =
    let some_left : (p.data_head == p.data_tail) ≡ false = ground (arith, more) in
    let at = p.data_tail % p.data_size in
    (
      record p { data_tail = u64 (p.data_tail + size_of w.header) },
      rw
          (
            some_left,
            head_word p at fits w.header header,
            take_sample-address p at fits w sampled aligned addr,
          )
          refl,
      later,
    )

collect_pass-firsts :
    (pages : List Page) (pending : List (List Written)) (sampled : List ℕ)
    → AllHold pages pending
    → (pages' : List Page) × (collect_pass pages sampled ≡ some (pages', sampled ++ firsts pending))
      × AllHold pages' (rests pending)
unfolding collect_pass firsts rests
collect_pass-firsts [] [] sampled h = ([], rw append-nil refl, tt)
collect_pass-firsts [] (ws ∷ rest) sampled h = absurd h
collect_pass-firsts (p ∷ pages) [] sampled h = absurd h
collect_pass-firsts (p ∷ pages) (ws ∷ rest) sampled (h, hs) =
    let (p', e, q) = collect_one-first p ws sampled h in
    let (pages', f, qs) = collect_pass-firsts pages rest (sampled ++ first ws) hs in
    (p' ∷ pages', rw (e, f, append_assoc) refl, (q, qs))

-- If the kernel leaves the pages alone, and no record goes on from the end of its ring to the start, `n`
-- rounds of the collector return, take one record of each page after the other, append the addresses of
-- the samples among them in that order, and leave exactly the later records on the pages.
pub cache_collect_sample-addresses :
    (n k : ℕ) (pages : List Page) (pending : List (List Written)) (sampled : List ℕ)
    → AllHold pages pending
    → (pages' : List Page) × (cache_collect_sample (λ _ ps. ps) k n pages sampled
        ≡ some (pages', sampled ++ addresses n pending))
      × AllHold pages' (pending_after n pending)
unfolding cache_collect_sample addresses pending_after
cache_collect_sample-addresses zero k pages pending sampled h = (pages, rw append-nil refl, h)
cache_collect_sample-addresses (suc n) k pages pending sampled h =
    let (pages', e, q) = collect_pass-firsts pages pending sampled h in
    let (pages'', f, r) =
      cache_collect_sample-addresses n (k + 1) pages' (rests pending) (sampled ++ firsts pending)
        q in
    (pages'', rw (e, f, append_assoc) refl, r)
