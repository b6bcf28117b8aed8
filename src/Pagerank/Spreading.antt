-- ===== src/Pagerank/Spreading.antt =====
-- The first parallel loop of `pr_push`: no `atomicAdd` is lost.
use graph_benchmark.Base.{
  ℕ, zero, suc, ◌+◌, ◌-◌, ◌*◌, ◌/◌, ◌≡◌, ◌<◌, ◌≤◌, ◌^◌, refl, sym, ap, ◌∙◌, inl, inr, List, ◌∷◌,
  ◌++◌, arith, get_or, set, length, length-set, get_or-set_self, get_or-set_ne, get_or-out,
  Bool-cases, ltb, ◌==◌, ==_iff, ==_refl, if◌then◌else◌, ltb→lt, total, total-replace,
  total-eq-zero, All, All-map, All-split, All-append, count, segment, segment-suc, u32, ℕ_discrete,
  dec_lt,
}
use graph_benchmark.Graph.{Graph, row}
use graph_benchmark.Parallel.{Keeps, advance, parallel_for}
use graph_benchmark.Parallel.Rule.{parallel_for_inv, parallel_for-Ended}
use graph_benchmark.Pagerank.{
  Ranks, Cursor, Spread, scan, loaded, spread, spread_step, spread_budget, spreaders,
}

abbrev pub Ended : Spread → Type 0
Ended t = (c : Cursor) × (t ≡ spread c)

module _ (g : Graph) where
  advance-spread :
      (n : ℕ) (c : Cursor) (m : Ranks) → Ended (advance (spread_step g) n (spread c) m).0
  unfolding advance spread_step
  advance-spread zero c m = (c, refl)
  advance-spread (suc n) c m = advance-spread n c m

  -- A load and the compare-and-swap after it take one edge, when no other task comes between.
  scan_alone :
      (k n : ℕ) (c : Cursor) (m : Ranks)
      → c.end - c.beg ≤ k
      → 2 * k + 1 ≤ n
      → Ended (advance (spread_step g) n (scan c) m).0
  unfolding advance spread_step
  scan_alone k zero c m h l = absurd (omega arith)
  scan_alone zero (suc n) c m h l = elim (Bool-cases (ltb c.beg c.end)) [
    | inr stop ↦ rw (stop, advance) (advance-spread n c m)
    | inl go ↦ absurd (omega (arith, ltb→lt _ _ go))
  ]
  scan_alone (suc k) (suc zero) c m h l = absurd (omega arith)
  scan_alone (suc k) (suc (suc n)) c m h l = elim (Bool-cases (ltb c.beg c.end)) [
    | inr stop ↦ rw (stop, advance) (advance-spread n c m)
    | inl go ↦
        rw (go, ==_refl (get_or m.rank (get_or g.out_edges c.beg 0) 0), advance)
          (scan_alone k n (record c { beg = c.beg + 1 }) _ (omega arith) (omega arith))
  ]

  loaded_alone :
      (n : ℕ) (c : Cursor) (old_val : ℕ) (m : Ranks)
      → 2 * (c.end - c.beg) + 2 ≤ n
      → Ended (advance (spread_step g) n (loaded c old_val) m).0
  unfolding advance spread_step
  loaded_alone zero c old_val m h = absurd (omega arith)
  loaded_alone (suc n) c old_val m h =
      elim (Bool-cases (get_or m.rank (get_or g.out_edges c.beg 0) 0 == old_val)) [
        | inl won ↦
            rw (won, advance)
              (scan_alone (c.end - c.beg) n (record c { beg = c.beg + 1 }) _ (omega arith)
                (omega arith))
        | inr lost ↦
            rw (lost, advance) (scan_alone (c.end - c.beg) n c m (omega arith) (omega arith))
      ]

  enough : (t : Spread) (m : Ranks) → Ended (advance (spread_step g) (spread_budget t) t m).0
  enough (scan c) m =
      scan_alone (c.end - c.beg) (2 * (c.end - c.beg) + 1) c m (omega arith) (omega arith)
  enough (loaded c old_val) m = loaded_alone (2 * (c.end - c.beg) + 2) c old_val m (omega arith)
  enough (spread c) m = advance-spread 0 c m

  -- What a task is still to add to the rank of `x`.
  abbrev pub owed : ℕ → Spread → ℕ
  owed x (scan c) = c.delta * count x (segment g.out_edges c.beg (c.end - c.beg))
  owed x (loaded c old_val) = c.delta * count x (segment g.out_edges c.beg (c.end - c.beg))
  owed x (spread c) = 0

  none_owed : (x : ℕ) (c : Cursor) → c.end - c.beg ≡ 0 → owed x (spread c) ≡ owed x (scan c)
  none_owed x c e = rw e (omega arith)

  abbrev cursor_of : Spread → Cursor
  cursor_of (scan c) = c
  cursor_of (loaded c old_val) = c
  cursor_of (spread c) = c

  abbrev pub Within : Spread → Type 0
  Within (scan c) = c.end ≤ length g.out_edges
  Within (loaded c old_val) = (c.end ≤ length g.out_edges) × (c.beg < c.end)
  Within (spread c) = Unit

  -- `goal x` is what the rank of `x` is to become, modulo 2^32.
  pub record Flow (n : ℕ) (prev : List ℕ) (goal : ℕ → ℕ) (ts : List Spread) (m : Ranks)
      : Type 0 where
    pub size : length m.rank ≡ n
    pub before : m.prev ≡ prev
    pub words : (x : ℕ) → get_or m.rank x 0 < 2 ^ 32
    pub within : All Within ts
    pub flow : (x : ℕ) → x < n → u32 (get_or m.rank x 0 + total (owed x) ts) ≡ u32 (goal x)

  module _ (n : ℕ) (prev : List ℕ) (goal : ℕ → ℕ) (pre post : List Spread) (m : Ranks) where
    -- A step that only reads.
    Flow-move :
        (t t' : Spread)
        → Flow n prev goal (pre ++ t ∷ post) m
        → ((x : ℕ) → owed x t' ≡ owed x t)
        → (Within t → Within t')
        → Flow n prev goal (pre ++ t' ∷ post) m
    Flow-move t t' f same ok =
        let (before, rest) = All-split Within pre (t ∷ post) f.within in
        record {
          size = f.size;
          before = f.before;
          words = f.words;
          within = All-append Within pre (t' ∷ post) before (ok rest.0, rest.1);
          flow = λ x lt. omega (arith, f.flow x lt, same x, total-replace (owed x) pre t t' post);
        }

    module _ (c : Cursor) (old_val : ℕ)
        (f : Flow n prev goal (pre ++ loaded c old_val ∷ post) m) where
      abbrev dst : ℕ
      dst = get_or g.out_edges c.beg 0

      abbrev rank' : List ℕ
      rank' = set m.rank dst (u32 (old_val + c.delta))

      abbrev c' : Cursor
      c' = record c { beg = c.beg + 1 }

      here : Within (loaded c old_val)
      here = (All-split Within pre (loaded c old_val ∷ post) f.within).1.0

      owed-next :
          (x : ℕ) → owed x (loaded c old_val) ≡ (if x == dst then c.delta else 0) + owed x (scan c')
      owed-next x =
          let more : c.end - c.beg ≡ suc (c.end - (c.beg + 1)) = omega (arith, here.1) in
          rw (more, segment-suc c.beg (c.end - (c.beg + 1)) g.out_edges 0 (omega (arith, here)))
            (ground arith)

      owed_self : owed dst (loaded c old_val) ≡ c.delta + owed dst (scan c')
      owed_self = rw (==_refl dst) at (owed-next dst)

      swap_flow :
          get_or m.rank dst 0 ≡ old_val
          → (x : ℕ) → x < n
          → u32 (get_or rank' x 0 + total (owed x) (pre ++ scan c' ∷ post)) ≡ u32 (goal x)
      swap_flow e x lt = elim (ℕ_discrete x dst) [
        | yes same ↦ rw same (
            omega (
              arith,
              f.flow dst (rw (← same) lt),
              owed_self,
              e,
              get_or-set_self m.rank dst (u32 (old_val + c.delta)) 0
                  (omega (arith, f.size, lt, same)),
              total-replace (owed dst) pre (loaded c old_val) (scan c') post,
            ))
        | no other ↦ ground (
          arith,
          f.flow x lt,
          owed-next x,
          get_or-set_ne m.rank dst x (u32 (old_val + c.delta)) 0 (λ q. other (sym q)),
          total-replace (owed x) pre (loaded c old_val) (scan c') post,
        )
      ]

      swap_words : (x : ℕ) → get_or rank' x 0 < 2 ^ 32
      swap_words x = elim (ℕ_discrete x dst) [
        | yes same ↦ elim (dec_lt dst n) [
          | yes inside ↦ omega (
            arith,
            ap (λ y. get_or rank' y 0) same,
            get_or-set_self m.rank dst (u32 (old_val + c.delta)) 0 (omega (arith, f.size, inside)),
          )
          | no outside ↦ omega (
            arith,
            get_or-out rank' x 0
                (omega (arith, same, f.size, length-set m.rank dst (u32 (old_val + c.delta)))),
          )
        ]
        | no other ↦ omega (
          arith,
          f.words x,
          get_or-set_ne m.rank dst x (u32 (old_val + c.delta)) 0 (λ q. other (sym q)),
        )
      ]

      -- The compare-and-swap that succeeds adds `delta` to the value that is there.
      swap-Flow :
          get_or m.rank dst 0 ≡ old_val
          → Flow n prev goal (pre ++ scan c' ∷ post) (record m { rank = rank' })
      swap-Flow e =
          let (before, rest) = All-split Within pre (loaded c old_val ∷ post) f.within in
          record {
            size = length-set m.rank dst (u32 (old_val + c.delta)) ∙ f.size;
            before = f.before;
            words = swap_words;
            within = All-append Within pre (scan c' ∷ post) before (here.0, rest.1);
            flow = swap_flow e;
          }

  Flow-keep : (n : ℕ) (prev : List ℕ) (goal : ℕ → ℕ) → Keeps (spread_step g) (Flow n prev goal)
  unfolding spread_step
  Flow-keep n prev goal pre (scan c) post m f = elim (Bool-cases (ltb c.beg c.end)) [
    | inl go ↦ rw go (
        Flow-move n prev goal pre post m (scan c) (loaded c _) f (λ x. refl)
          (λ w. (w, ltb→lt _ _ go)))
    | inr stop ↦ rw stop (
        Flow-move n prev goal pre post m (scan c) (spread c) f (λ x. none_owed x c (ground arith))
          (λ w. tt))
  ]
  Flow-keep n prev goal pre (loaded c old_val) post m f =
      elim (Bool-cases (get_or m.rank (get_or g.out_edges c.beg 0) 0 == old_val)) [
        | inl won ↦ rw won (swap-Flow n prev goal pre post m c old_val f ((==_iff _ _).0 won))
        | inr lost ↦
            rw lost (
              Flow-move n prev goal pre post m (loaded c old_val) (scan c) f (λ x. refl) (λ w. w.0))
      ]
  Flow-keep n prev goal pre (spread c) post m f = f

-- The sum of what the nodes from `i` on, `k` of them, give to `x`, with previous ranks `prev`.
abbrev pub inflow : Graph → (ℕ → ℕ) → ℕ → ℕ → ℕ → ℕ
inflow g prev x i zero = 0
inflow g prev x i (suc k) =
    prev i / 2 * count x (row g.out_edge_offsets g.out_edges i) + inflow g prev x (i + 1) k

-- The rows lie in the array of edges.
abbrev pub HasCells : ℕ → Graph → Type 0
HasCells n g = (v : ℕ) → v < n → get_or g.out_edge_offsets (v + 1) 0 ≤ length g.out_edges

module _ (g : Graph) (n : ℕ) (cells : HasCells n g) (prev : List ℕ) where
  abbrev from_prev : ℕ → ℕ
  from_prev i = get_or prev i 0

  spreaders-owed : (x i k : ℕ) → total (owed g x) (spreaders g prev i k) ≡ inflow g from_prev x i k
  unfolding spreaders row
  spreaders-owed x i zero = refl
  spreaders-owed x i (suc k) =
      ap
        (λ t.
          owed g x (
            scan (record {
              src = i;
              beg = get_or g.out_edge_offsets i 0;
              end = get_or g.out_edge_offsets (i + 1) 0;
              delta = get_or prev i 0 / 2;
            }))
          + t)
        (spreaders-owed x (i + 1) k)

  spreaders-Within : (i k : ℕ) → i + k ≤ n → All (Within g) (spreaders g prev i k)
  unfolding spreaders
  spreaders-Within i zero h = tt
  spreaders-Within i (suc k) h = (cells i (omega arith), spreaders-Within (i + 1) k (omega arith))

  none_left : (x : ℕ) (ts : List Spread) → All Ended ts → total (owed g x) ts ≡ 0
  none_left x ts e =
      total-eq-zero (owed g x) ts (All-map Ended (λ t. owed g x t ≡ 0) (λ t d. rw d.1 refl) ts e)

  -- After the loop each rank is what all edges gave to its node, modulo 2^32, whatever the interleaving
  -- of the loads and compare-and-swaps.
  pub spreading_lem :
      (schedule : List ℕ) (m : Ranks)
      → m.prev ≡ prev
      → length m.rank ≡ n
      → ((x : ℕ) → get_or m.rank x 0 ≡ 0)
      → let m' = (parallel_for (spread_step g) spread_budget schedule (spreaders g prev 0 n) m).1 in
        (length m'.rank ≡ n)
        × (m'.prev ≡ prev)
        × ((x : ℕ) → x < n → get_or m'.rank x 0 ≡ u32 (inflow g from_prev x 0 n))
  spreading_lem schedule m e size clear =
      let f =
        parallel_for_inv (spread_step g) (Flow g n prev (λ x. inflow g from_prev x 0 n))
          (Flow-keep g n prev (λ x. inflow g from_prev x 0 n)) spread_budget schedule
          (spreaders g prev 0 n) m
          (record {
            size = size;
            before = e;
            words = λ x. omega (arith, clear x);
            within = spreaders-Within 0 n (omega arith);
            flow = λ x lt. omega (arith, clear x, spreaders-owed x 0 n);
          }) in
      let ended =
        parallel_for-Ended (spread_step g) spread_budget Ended (enough g) schedule
          (spreaders g prev 0 n) m in
      let r = parallel_for (spread_step g) spread_budget schedule (spreaders g prev 0 n) m in
      (f.size, f.before, λ x lt. omega (arith, f.flow x lt, f.words x, none_left x r.0 ended))
