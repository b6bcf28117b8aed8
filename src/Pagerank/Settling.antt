-- ===== src/Pagerank/Settling.antt =====
-- The second parallel loop of `pr_push`: halves the new ranks and clears them.
use graph_benchmark.Base.{
  range_from, range_from-distinct, range_from-listed, ℕ, zero, suc, ◌+◌, ◌-◌, ◌/◌, ◌≡◌, ◌≢◌, ◌<◌,
  ◌≤◌, refl, sym, ap, ◌∙◌, List, [], ◌∷◌, map, arith, get_or, set, length, length-set,
  get_or-set_self, get_or-set_ne, All,
}
use graph_benchmark.Parallel.{parallel_for}
use graph_benchmark.Parallel.Rule.{parallel_for-Ended, advance_spent}
use graph_benchmark.Parallel.Owner.{Owns, parallel_for-Owned, All-index}
use graph_benchmark.Pagerank.{
  Ranks, Settle, halve, reset, settled, settle_step, settle_budget, settlers,
}

abbrev index : Settle → ℕ
index (halve i) = i
index (reset i) = i
index (settled i) = i

module _ (n : ℕ) (rank0 : List ℕ) where
  record IsSized (m : Ranks) : Type 0 where
    rank_size : length m.rank ≡ n
    prev_size : length m.prev ≡ n

  -- Cell `i` of both arrays, as far as the run for `i` has come.
  abbrev Own : Ranks → Settle → Type 0
  Own m (halve i) = (i < n) × (get_or m.rank i 0 ≡ get_or rank0 i 0)
  Own m (reset i) = (i < n) × (get_or m.prev i 0 ≡ get_or rank0 i 0 / 2)
  Own m (settled i) = (i < n) × (get_or m.prev i 0 ≡ get_or rank0 i 0 / 2) × (get_or m.rank i 0 ≡ 0)

  same : (t : Settle) (m : Ranks) → index (settle_step t m).0 ≡ index t
  unfolding settle_step
  same (halve i) m = refl
  same (reset i) m = refl
  same (settled i) m = refl

  sized : (t : Settle) (m : Ranks) → IsSized m → Own m t → IsSized (settle_step t m).1
  unfolding settle_step
  sized (halve i) m v o = omega (arith, v, length-set m.prev i (get_or m.rank i 0 / 2))
  sized (reset i) m v o = omega (arith, v, length-set m.rank i 0)
  sized (settled i) m v o = v

  own : (t : Settle) (m : Ranks) → IsSized m → Own m t → Own (settle_step t m).1 (settle_step t m).0
  unfolding settle_step
  own (halve i) m v o = (
    o.0,
    get_or-set_self m.prev i (get_or m.rank i 0 / 2) 0 (omega (arith, v.prev_size, o.0))
        ∙ ap (λ k. k / 2) o.1,
  )
  own (reset i) m v o = (o.0, o.1, get_or-set_self m.rank i 0 0 (omega (arith, v.rank_size, o.0)))
  own (settled i) m v o = o

  -- A write to cell `i` leaves the cells of the others.
  rank_other :
      (u : Settle) (m : Ranks) (i v : ℕ)
      → index u ≢ i
      → Own m u
      → Own (record m { rank = set m.rank i v }) u
  rank_other (halve j) m i v ne o = (o.0, get_or-set_ne m.rank i j v 0 (λ e. ne (sym e)) ∙ o.1)
  rank_other (reset j) m i v ne o = o
  rank_other (settled j) m i v ne o =
      (o.0, o.1, get_or-set_ne m.rank i j v 0 (λ e. ne (sym e)) ∙ o.2)

  prev_other :
      (u : Settle) (m : Ranks) (i v : ℕ)
      → index u ≢ i
      → Own m u
      → Own (record m { prev = set m.prev i v }) u
  prev_other (halve j) m i v ne o = o
  prev_other (reset j) m i v ne o = (o.0, get_or-set_ne m.prev i j v 0 (λ e. ne (sym e)) ∙ o.1)
  prev_other (settled j) m i v ne o =
      (o.0, get_or-set_ne m.prev i j v 0 (λ e. ne (sym e)) ∙ o.1, o.2)

  other :
      (t u : Settle) (m : Ranks)
      → IsSized m
      → index u ≢ index t
      → Own m t
      → Own m u
      → Own (settle_step t m).1 u
  unfolding settle_step
  other (halve i) u m v ne o p = prev_other u m i (get_or m.rank i 0 / 2) ne p
  other (reset i) u m v ne o p = rank_other u m i 0 ne p
  other (settled i) u m v ne o p = p

  laws : Owns settle_step index IsSized Own
  laws = record { same = same; valid = sized; own = own; other = other }

  settlers-index : (i k : ℕ) → map index (settlers i k) ≡ range_from i k
  unfolding settlers
  settlers-index i zero = refl
  settlers-index i (suc k) = ap (◌∷◌ i) (settlers-index (i + 1) k)

  settlers-Own : (m : Ranks) → m.rank ≡ rank0 → (i k : ℕ) → i + k ≤ n → All (Own m) (settlers i k)
  unfolding settlers
  settlers-Own m e i zero h = tt
  settlers-Own m e i (suc k) h =
      ((omega arith, ap (λ a. get_or a i 0) e), settlers-Own m e (i + 1) k (omega arith))

  budget-falls : (t : Settle) (m : Ranks) → settle_budget (settle_step t m).0 ≤ settle_budget t - 1
  unfolding settle_step
  budget-falls (halve i) m = omega arith
  budget-falls (reset i) m = omega arith
  budget-falls (settled i) m = omega arith

  abbrev Done : Ranks → ℕ → Type 0
  Done m i = (get_or m.prev i 0 ≡ get_or rank0 i 0 / 2) × (get_or m.rank i 0 ≡ 0)

  Done-of :
      (m : Ranks) (ts : List Settle)
      → All (λ t. settle_budget t ≡ 0) ts
      → All (Own m) ts
      → All (λ t. Done m (index t)) ts
  Done-of m [] e o = tt
  Done-of m (halve i ∷ ts) e o = absurd (omega arith)
  Done-of m (reset i ∷ ts) e o = absurd (omega arith)
  Done-of m (settled i ∷ ts) e o = ((o.0.1, o.0.2), Done-of m ts e.1 o.1)

  -- After the loop every cell of `prev` is half the rank, and every rank is 0.
  pub settling_lem :
      (schedule : List ℕ) (m : Ranks)
      → m.rank ≡ rank0
      → length m.rank ≡ n
      → length m.prev ≡ n
      → let m' = (parallel_for settle_step settle_budget schedule (settlers 0 n) m).1 in
        (length m'.rank ≡ n)
        × (length m'.prev ≡ n)
        × ((x : ℕ) → x < n → (get_or m'.prev x 0 ≡ get_or rank0 x 0 / 2) × (get_or m'.rank x 0 ≡ 0))
  settling_lem schedule m e rank_size prev_size =
      let w =
        parallel_for-Owned laws settle_budget schedule (range_from 0 n) (settlers 0 n) m (record {
          valid = record { rank_size = rank_size; prev_size = prev_size };
          own = settlers-Own m e 0 n (omega arith);
          indexed = settlers-index 0 n;
          distinct = λ x. range_from-distinct x 0 n;
        }) in
      let r = parallel_for settle_step settle_budget schedule (settlers 0 n) m in
      let ended =
        parallel_for-Ended settle_step settle_budget (λ t. settle_budget t ≡ 0)
          (advance_spent settle_step settle_budget budget-falls) schedule (settlers 0 n) m in
      (
        w.valid.rank_size,
        w.valid.prev_size,
        λ x lt.
            All-index index (Done r.1) r.0 (Done-of r.1 r.0 ended w.own) x
              (rw w.indexed (range_from-listed x 0 n (omega arith) (omega arith))),
      )
