-- ===== src/Bfs/Pull/Nodes.antt =====
-- The parallel loop of `bfs_pull`: each run of the body decides its own node.
use graph_benchmark.Base.{
  ◌^◌, u32, range_from, range_from-distinct, range_from-listed, ℕ, zero, suc, ◌+◌, ◌-◌, ◌≡◌, ◌≢◌,
  ◌<◌, ◌≤◌, ◌⊎◌, inl, inr, refl, sym, ap, ◌∙◌, List, [], ◌∷◌, map, arith, Bool, true, false, get_or,
  set, length, length-set, get_or-set_self, get_or-set_ne, All, Bool-cases, ltb, ltb→lt, ◌==◌,
  ℕ_discrete,
}
use graph_benchmark.Graph.{Graph}
use graph_benchmark.Parallel.{parallel_for}
use graph_benchmark.Parallel.Rule.{parallel_for-Ended, advance_spent}
use graph_benchmark.Parallel.Owner.{Owns, parallel_for-Owned, All-index}
use graph_benchmark.Bfs.Pull.{
  Cursor, Pull, enter, look, mark, enlist, raise, pulled, PullState, pull_step, pull_budget,
  pullers,
}

abbrev index : Pull → ℕ
index (enter dst) = dst
index (look c) = c.dst
index (mark dst) = dst
index (enlist dst) = dst
index (raise dst) = dst
index (pulled dst) = dst

-- `v0` are the flags and `fr` the frontier at the start of the round.
module _ (g : Graph) (n : ℕ) (v0 : List ℕ) (fr : List Bool) where
  -- Some source of an edge to `x` is in the frontier.
  abbrev pub Hit : ℕ → Type 0
  Hit x =
      (p : ℕ) × (get_or g.in_edge_offsets x 0 ≤ p)
      × (p < get_or g.in_edge_offsets (x + 1) 0)
      × (get_or fr (get_or g.in_edges p 0) false ≡ true)

  -- No cell of the row of `x` before cell `end` holds a node of the frontier.
  abbrev pub Missed : ℕ → ℕ → Type 0
  Missed x end =
      (p : ℕ)
      → get_or g.in_edge_offsets x 0 ≤ p
      → p < end
      → get_or fr (get_or g.in_edges p 0) false ≡ false

  pub record IsPulling (m : PullState) : Type 0 where
    pub flags : length m.visited ≡ n
    pub cells : length m.in_frontier_next ≡ n
    pub frontier : m.in_frontier ≡ fr
    pub cause : m.cont ≡ true → (x : ℕ) × (x < n) × (get_or v0 x 0 ≡ 0) × Hit x

  abbrev pub At : PullState → ℕ → ℕ → Bool → Type 0
  At m i v b = (i < n) × (get_or m.visited i 0 ≡ v) × (get_or m.in_frontier_next i false ≡ b)

  -- What a run leaves: a node that was visited, one without a neighbour in the frontier, or a new one.
  abbrev pub Decided : PullState → ℕ → Type 0
  Decided m i =
      (At m i (get_or v0 i 0) false × (get_or v0 i 0 ≢ 0))
      ⊎ (At m i 0 false × (get_or v0 i 0 ≡ 0) × Missed i (get_or g.in_edge_offsets (i + 1) 0))
      ⊎ (At m i 1 true × (get_or v0 i 0 ≡ 0) × Hit i × (m.cont ≡ true))

  abbrev Own : PullState → Pull → Type 0
  Own m (enter i) = At m i (get_or v0 i 0) false
  Own m (look c) =
      At m c.dst 0 false
      × (get_or v0 c.dst 0 ≡ 0)
      × (get_or g.in_edge_offsets c.dst 0 ≤ c.beg)
      × (c.end ≡ get_or g.in_edge_offsets (c.dst + 1) 0)
      × Missed c.dst c.beg
  Own m (mark i) = At m i 0 false × (get_or v0 i 0 ≡ 0) × Hit i
  Own m (enlist i) = At m i 1 false × (get_or v0 i 0 ≡ 0) × Hit i
  Own m (raise i) = At m i 1 true × (get_or v0 i 0 ≡ 0) × Hit i
  Own m (pulled i) = Decided m i

  same : (t : Pull) (m : PullState) → index (pull_step g t m).0 ≡ index t
  unfolding pull_step
  same (enter i) m = elim (Bool-cases (get_or m.visited i 0 == 0)) [
    | inl new ↦ rw new refl
    | inr old ↦ rw old refl
  ]
  same (look c) m = elim (Bool-cases (ltb c.beg c.end)) [
    | inr stop ↦ rw stop refl
    | inl go ↦ elim (Bool-cases (get_or m.in_frontier (get_or g.in_edges c.beg 0) false)) [
      | inl hit ↦ rw (go, hit) refl
      | inr miss ↦ rw (go, miss) refl
    ]
  ]
  same (mark i) m = refl
  same (enlist i) m = refl
  same (raise i) m = refl
  same (pulled i) m = refl

  pulling : (t : Pull) (m : PullState) → IsPulling m → Own m t → IsPulling (pull_step g t m).1
  unfolding pull_step
  pulling (enter i) m w o = w
  pulling (look c) m w o = w
  pulling (mark i) m w o = record {
    flags = length-set m.visited i 1 ∙ w.flags;
    cells = w.cells;
    frontier = w.frontier;
    cause = w.cause;
  }
  pulling (enlist i) m w o = record {
    flags = w.flags;
    cells = length-set m.in_frontier_next i true ∙ w.cells;
    frontier = w.frontier;
    cause = w.cause;
  }
  pulling (raise i) m w o = record {
    flags = w.flags;
    cells = w.cells;
    frontier = w.frontier;
    cause = λ _. (i, o.0.0, o.1, o.2);
  }
  pulling (pulled i) m w o = w

  look-Own :
      (c : Cursor) (m : PullState)
      → IsPulling m
      → Own m (look c)
      → Own (pull_step g (look c) m).1 (pull_step g (look c) m).0
  unfolding pull_step
  look-Own c m w (a, old, low, high, missed) = elim (Bool-cases (ltb c.beg c.end)) [
    | inr stop ↦ rw stop (inr (inl (a, old, λ p le lt. missed p le (ground (arith, high, stop)))))
    | inl go ↦ elim (Bool-cases (get_or m.in_frontier (get_or g.in_edges c.beg 0) false)) [
      | inl hit ↦
          rw (go, hit)
            (a, old, (c.beg, low, omega (arith, high, ltb→lt _ _ go), rw (← w.frontier) hit))
      | inr miss ↦
          rw (go, miss)
            (
              a,
              old,
              omega arith,
              high,
              λ p le lt. elim (ℕ_discrete p c.beg) [
                | yes e ↦ rw (e, ← w.frontier) miss
                | no ne ↦ missed p le (omega arith)
              ],
            )
    ]
  ]

  own :
      (t : Pull) (m : PullState)
      → IsPulling m
      → Own m t
      → Own (pull_step g t m).1 (pull_step g t m).0
  unfolding pull_step
  own (enter i) m w o = elim (Bool-cases (get_or m.visited i 0 == 0)) [
    | inl new ↦
        let clear : get_or m.visited i 0 ≡ 0 = ground (arith, new) in
        rw new
          ((o.0, clear, o.2), sym o.1 ∙ clear, omega arith, refl, λ p le lt. absurd (omega arith))
    | inr old ↦ rw old (inl (o, λ e. ground (arith, o.1, e, old)))
  ]
  own (look c) m w o = look-Own c m w o
  own (mark i) m w ((lt, flag, entry), old, hit) =
      ((lt, get_or-set_self m.visited i 1 0 (omega (arith, w.flags)), entry), old, hit)
  own (enlist i) m w ((lt, flag, entry), old, hit) = (
    (lt, flag, get_or-set_self m.in_frontier_next i true false (omega (arith, w.cells))),
    old,
    hit,
  )
  own (raise i) m w (a, old, hit) = inr (inr (a, old, hit, refl))
  own (pulled i) m w o = o

  -- What a run is allowed to rely on: the cells of its node, and that `cont` is never taken back.
  carry :
      (u : Pull) (m m' : PullState)
      → get_or m'.visited (index u) 0 ≡ get_or m.visited (index u) 0
      → get_or m'.in_frontier_next (index u) false ≡ get_or m.in_frontier_next (index u) false
      → (m.cont ≡ true → m'.cont ≡ true)
      → Own m u
      → Own m' u
  carry (enter i) m m' v e c (lt, flag, entry) = (lt, v ∙ flag, e ∙ entry)
  carry (look k) m m' v e c ((lt, flag, entry), old, low, high, missed) =
      ((lt, v ∙ flag, e ∙ entry), old, low, high, missed)
  carry (mark i) m m' v e c ((lt, flag, entry), old, hit) = ((lt, v ∙ flag, e ∙ entry), old, hit)
  carry (enlist i) m m' v e c ((lt, flag, entry), old, hit) = ((lt, v ∙ flag, e ∙ entry), old, hit)
  carry (raise i) m m' v e c ((lt, flag, entry), old, hit) = ((lt, v ∙ flag, e ∙ entry), old, hit)
  carry (pulled i) m m' v e c (inl ((lt, flag, entry), o)) = inl ((lt, v ∙ flag, e ∙ entry), o)
  carry (pulled i) m m' v e c (inr (inl ((lt, flag, entry), old, missed))) =
      inr (inl ((lt, v ∙ flag, e ∙ entry), old, missed))
  carry (pulled i) m m' v e c (inr (inr ((lt, flag, entry), old, hit, on))) =
      inr (inr ((lt, v ∙ flag, e ∙ entry), old, hit, c on))

  other :
      (t u : Pull) (m : PullState)
      → IsPulling m
      → index u ≢ index t
      → Own m t
      → Own m u
      → Own (pull_step g t m).1 u
  unfolding pull_step
  other (enter i) u m w ne o p = p
  other (look c) u m w ne o p = p
  other (mark i) u m w ne o p =
      carry u m (record m { visited = set m.visited i 1 })
        (get_or-set_ne m.visited i (index u) 1 0 (λ e. ne (sym e))) refl (λ c. c) p
  other (enlist i) u m w ne o p =
      carry u m (record m { in_frontier_next = set m.in_frontier_next i true }) refl
        (get_or-set_ne m.in_frontier_next i (index u) true false (λ e. ne (sym e))) (λ c. c) p
  other (raise i) u m w ne o p = carry u m (record m { cont = true }) refl refl (λ c. refl) p
  other (pulled i) u m w ne o p = p

  laws : Owns (pull_step g) index IsPulling Own
  laws = record { same = same; valid = pulling; own = own; other = other }

  pullers-index : (i k : ℕ) → i + k ≤ 2 ^ 32 → map index (pullers i k) ≡ range_from i k
  unfolding pullers
  pullers-index i zero h = refl
  pullers-index i (suc k) h =
      let same : u32 i ≡ i = omega arith in
      rw same (ap (◌∷◌ i) (pullers-index (i + 1) k (omega arith)))

  pullers-Own :
      (m : PullState)
      → m.visited ≡ v0
      → ((x : ℕ) → get_or m.in_frontier_next x false ≡ false)
      → n ≤ 2 ^ 32
      → (i k : ℕ) → i + k ≤ n
      → All (Own m) (pullers i k)
  unfolding pullers
  pullers-Own m e clear few i zero h = tt
  pullers-Own m e clear few i (suc k) h =
      let same : u32 i ≡ i = omega arith in
      (
        rw same (omega arith, ap (λ a. get_or a i 0) e, clear i),
        pullers-Own m e clear few (i + 1) k (omega arith),
      )

  budget-falls :
      (t : Pull) (m : PullState) → pull_budget g (pull_step g t m).0 ≤ pull_budget g t - 1
  unfolding pull_step
  budget-falls (enter i) m = elim (Bool-cases (get_or m.visited i 0 == 0)) [
    | inl new ↦ rw new (omega arith)
    | inr old ↦ rw old (omega arith)
  ]
  budget-falls (look c) m = elim (Bool-cases (ltb c.beg c.end)) [
    | inr stop ↦ rw stop (omega arith)
    | inl go ↦ elim (Bool-cases (get_or m.in_frontier (get_or g.in_edges c.beg 0) false)) [
      | inl hit ↦ rw (go, hit) (omega arith)
      | inr miss ↦ rw (go, miss) (omega (arith, ltb→lt _ _ go))
    ]
  ]
  budget-falls (mark i) m = omega arith
  budget-falls (enlist i) m = omega arith
  budget-falls (raise i) m = omega arith
  budget-falls (pulled i) m = omega arith

  Decided-of :
      (m : PullState) (ts : List Pull)
      → All (λ t. pull_budget g t ≡ 0) ts
      → All (Own m) ts
      → All (λ t. Decided m (index t)) ts
  Decided-of m [] e o = tt
  Decided-of m (enter i ∷ ts) e o = absurd (omega arith)
  Decided-of m (look c ∷ ts) e o = absurd (omega arith)
  Decided-of m (mark i ∷ ts) e o = absurd (omega arith)
  Decided-of m (enlist i ∷ ts) e o = absurd (omega arith)
  Decided-of m (raise i ∷ ts) e o = absurd (omega arith)
  Decided-of m (pulled i ∷ ts) e o = (o.0, Decided-of m ts e.1 o.1)

  -- After the loop every node is decided, and `cont` is only raised for a node that is newly visited.
  pub pulling_lem :
      (schedule : List ℕ) (m : PullState)
      → IsPulling m
      → m.visited ≡ v0
      → ((x : ℕ) → get_or m.in_frontier_next x false ≡ false)
      → n ≤ 2 ^ 32
      → let m' = (parallel_for (pull_step g) (pull_budget g) schedule (pullers 0 n) m).1 in
        IsPulling m' × ((x : ℕ) → x < n → Decided m' x)
  pulling_lem schedule m valid e clear few =
      let w =
        parallel_for-Owned laws (pull_budget g) schedule (range_from 0 n) (pullers 0 n) m (record {
          valid = valid;
          own = pullers-Own m e clear few 0 n (omega arith);
          indexed = pullers-index 0 n (omega arith);
          distinct = λ x. range_from-distinct x 0 n;
        }) in
      let r = parallel_for (pull_step g) (pull_budget g) schedule (pullers 0 n) m in
      let ended =
        parallel_for-Ended (pull_step g) (pull_budget g) (λ t. pull_budget g t ≡ 0)
          (advance_spent (pull_step g) (pull_budget g) budget-falls) schedule (pullers 0 n) m in
      (
        w.valid,
        λ x lt.
            All-index index (Decided r.1) r.0 (Decided-of r.1 r.0 ended w.own) x
              (rw w.indexed (range_from-listed x 0 n (omega arith) (omega arith))),
      )
