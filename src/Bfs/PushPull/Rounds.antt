-- ===== src/Bfs/PushPull/Rounds.antt =====
-- The rounds of the push phase keep its invariant, and its loop leaves.
pub mod Loop
use graph_benchmark.Base.{
  ℕ, ◌+◌, ◌-◌, ◌≡◌, ◌<◌, ◌≤◌, ◌↔◌, refl, sym, ap, ◌∙◌, ◌⊎◌, inl, inr, List, [], ◌∷◌, map, arith,
  get_or, length, total, total-eq-zero, All, All-map, count, if◌then◌else◌, ◌==◌, ℕ_discrete, u64,
  ltb, ◌^◌,
}
use graph_benchmark.Graph.{Graph}
use graph_benchmark.Parallel.{parallel_for}
use graph_benchmark.Parallel.Rule.{parallel_for_inv, parallel_for-Ended, advance_spent}
use graph_benchmark.Bfs.{IsEdge, IsInEdge, ReachIn, HasTargets}
use graph_benchmark.Bfs.Push.Level.{IsCovered}
use graph_benchmark.Bfs.Push.Start.{lt_of_visited}
use graph_benchmark.Bfs.PushPull.{
  Cursor, Visit, scan, won, report, account, visited_all, Shared, VisitState, visit_step,
  visit_budget, visitors, visit_round,
}
use graph_benchmark.Bfs.PushPull.Level.{winning, winners, source, Visiting, Level}
use graph_benchmark.Bfs.PushPull.Claims.{Level-keep}

-- The rows of the two directions hold the same edges, between nodes below `n`.
pub record IsMirrored (n : ℕ) (g : Graph) : Type 0 where
  pub targets : HasTargets n g
  pub same : (u x : ℕ) → u < n → x < n → IsEdge g u x ↔ IsInEdge g u x

-- The state between two rounds of the push phase.
pub record HasFront (g : Graph) (n start : ℕ) (s : VisitState) : Type 0 where
  pub size : length s.shared.visited ≡ n
  pub bits : (x : ℕ) → get_or s.shared.visited x 0 ≤ 1
  pub begun : get_or s.shared.visited start 0 ≡ 1
  pub sound : (x : ℕ) → get_or s.shared.visited x 0 ≡ 1 → ReachIn g n start x
  pub listed : (x : ℕ) → 0 < count x s.frontier → get_or s.shared.visited x 0 ≡ 1
  pub closed :
      (u x : ℕ)
      → get_or s.shared.visited u 0 ≡ 1
      → IsEdge g u x
      → (get_or s.shared.visited x 0 ≡ 1) ⊎ (0 < count u s.frontier)

abbrev Ended : Visit → Type 0
Ended t = visit_budget t ≡ 0

visit_budget-falls :
    (g : Graph) (t : Visit) (m : Shared) → visit_budget (visit_step g t m).0 ≤ visit_budget t - 1
unfolding visit_step
visit_budget-falls g (scan c) m = ground arith
visit_budget-falls g (won c dst) m = omega arith
visit_budget-falls g (report c) m = omega arith
visit_budget-falls g (account c) m = omega arith
visit_budget-falls g (visited_all c) m = omega arith

visitors-sources : (g : Graph) (l : List ℕ) → map source (visitors g l) ≡ l
unfolding visitors
visitors-sources g [] = refl
visitors-sources g (x ∷ l) = ap (◌∷◌ x) (visitors-sources g l)

visitors-idle :
    (w : Visit → ℕ)
    → ((c : Cursor) → w (scan c) ≡ 0)
    → (g : Graph) (l : List ℕ) → total w (visitors g l) ≡ 0
unfolding visitors
visitors-idle w z g [] = refl
visitors-idle w z g (x ∷ l) =
    let beg = get_or g.out_edge_offsets x 0 in
    let end = get_or g.out_edge_offsets (x + 1) 0 in
    omega (
      arith,
      z (record {
        src = x;
        beg = beg;
        end = end;
        local_edges = 0;
        local_explored = u64 (end + 2 ^ 64 - beg);
      }),
      visitors-idle w z g l,
    )

-- A task that has ended has covered the row of its node.
IsCovered-of_Ended :
    (g : Graph) (n : ℕ) (v0 frontier visited : List ℕ) (ts : List Visit)
    → All (Visiting g n v0 frontier visited) ts
    → All Ended ts
    → (u : ℕ) → 0 < count u (map source ts)
    → IsCovered g u (get_or g.out_edge_offsets (u + 1) 0) visited
IsCovered-of_Ended g n v0 frontier visited [] b e u h = absurd (omega arith)
IsCovered-of_Ended g n v0 frontier visited (scan c ∷ ts) b e u h = absurd (omega arith)
IsCovered-of_Ended g n v0 frontier visited (won c dst ∷ ts) b e u h = absurd (omega arith)
IsCovered-of_Ended g n v0 frontier visited (report c ∷ ts) b e u h = absurd (omega arith)
IsCovered-of_Ended g n v0 frontier visited (account c ∷ ts) b e u h = absurd (omega arith)
IsCovered-of_Ended g n v0 frontier visited (visited_all c ∷ ts) b e u h =
    elim (ℕ_discrete u c.src) [
      | yes same ↦ λ p le lt.
          b.0.0.covered p (rw (← same) le)
            (omega (arith, b.0.0.high, b.0.1, ap (λ v. get_or g.out_edge_offsets (v + 1) 0) same))
      | no other ↦ IsCovered-of_Ended g n v0 frontier visited ts b.1 e.1 u (ground arith)
    ]

Ended-weightless :
    (w : Visit → ℕ)
    → ((t : Visit) → Ended t → w t ≡ 0)
    → (ts : List Visit) → All Ended ts
    → total w ts ≡ 0
Ended-weightless w z ts e = total-eq-zero w ts (All-map Ended (λ t. w t ≡ 0) z ts e)

winning-Ended : (x : ℕ) (t : Visit) → Ended t → winning x t ≡ 0
winning-Ended x (scan c) e = refl
winning-Ended x (won c dst) e = absurd (omega arith)
winning-Ended x (report c) e = refl
winning-Ended x (account c) e = refl
winning-Ended x (visited_all c) e = refl

winners-Ended : (t : Visit) → Ended t → winners t ≡ 0
winners-Ended (scan c) e = refl
winners-Ended (won c dst) e = absurd (omega arith)
winners-Ended (report c) e = refl
winners-Ended (account c) e = refl
winners-Ended (visited_all c) e = refl

module _ (g : Graph) (n start : ℕ) (schedule : List ℕ) (s : VisitState) (mirrored : IsMirrored n g)
    (ok : HasFront g n start s) where
  open s use {frontier, shared}

  visitors-Visiting :
      (l : List ℕ)
      → ((x : ℕ) → 0 < count x l → 0 < count x frontier)
      → All (Visiting g n shared.visited frontier shared.visited) (visitors g l)
  unfolding visitors
  visitors-Visiting [] within = tt
  visitors-Visiting (u ∷ l) within =
      let here = within u (ground arith) in
      (
        record {
          node = lt_of_visited n shared.visited u ok.size (ok.listed u here);
          low = omega arith;
          high = refl;
          listed = here;
          covered = λ p le lt. absurd (omega arith);
        },
        visitors-Visiting l (λ x h. within x (omega arith)),
      )

  abbrev begin : Shared
  begin = record shared { frontier_next = []; edges_in_frontier = 0 }

  abbrev looped : List Visit × Shared
  looped = parallel_for (visit_step g) visit_budget schedule (visitors g frontier) begin

  abbrev Inv : List Visit → Shared → Type 0
  Inv ts m = Level g n shared.visited frontier ts m.visited m.frontier_next

  Level-start : Inv (visitors g frontier) begin
  Level-start = record {
    size = ok.size;
    bits = λ x. (omega arith, ok.bits x);
    room = omega (arith, visitors-idle winners (λ c. refl) g frontier);
    listed = λ x h. absurd (omega arith);
    fresh = λ x e. inl e;
    sound = λ x e. inl e;
    visiting = visitors-Visiting frontier (λ x h. h);
    sources = visitors-sources g frontier;
  }

  level : Inv looped.0 looped.1
  level =
      parallel_for_inv (visit_step g) Inv (Level-keep g n shared.visited frontier mirrored.targets)
        visit_budget schedule (visitors g frontier) begin Level-start

  ended : All Ended looped.0
  ended =
      parallel_for-Ended (visit_step g) visit_budget Ended
        (advance_spent (visit_step g) visit_budget (visit_budget-falls g)) schedule
        (visitors g frontier) begin

  covered : (u x : ℕ) → 0 < count u frontier → IsEdge g u x → get_or looped.1.visited x 0 ≡ 1
  covered u x listed edge = rw (← edge.3) (
      IsCovered-of_Ended g n shared.visited frontier looped.1.visited _ level.visiting ended u
        (rw level.sources listed) edge.0 edge.1 edge.2)

  round_sound : (x : ℕ) → get_or looped.1.visited x 0 ≡ 1 → ReachIn g n start x
  round_sound x e = elim (level.sound x e) [
    | inl old ↦ ok.sound x old
    | inr (u, listed, lt, edge) ↦
        let x_lt = mirrored.targets u x lt edge in
        ReachIn.step (ok.sound u (ok.listed u listed)) x_lt ((mirrored.same u x lt x_lt).0 edge)
  ]

  round_closed :
      (u x : ℕ)
      → get_or looped.1.visited u 0 ≡ 1
      → IsEdge g u x
      → (get_or looped.1.visited x 0 ≡ 1) ⊎ (0 < count u looped.1.frontier_next)
  round_closed u x e edge = elim (level.fresh u e) [
    | inr new ↦ inr (omega (arith, new, Ended-weightless (winning u) (winning-Ended u) _ ended))
    | inl old ↦ elim (ok.closed u x old edge) [
      | inl seen ↦ inl (omega (arith, seen, level.bits x))
      | inr at_front ↦ inl (covered u x at_front edge)
    ]
  ]

  -- A round of the push phase keeps the invariant, whatever the interleaving, and the nodes of the new
  -- frontier are as many as it has newly visited.
  pub visit_round-HasFront :
      HasFront g n start (visit_round g schedule s)
      × (length (visit_round g schedule s).frontier
            + count 0 (visit_round g schedule s).shared.visited
          ≡ count 0 shared.visited)
  unfolding visit_round
  visit_round-HasFront = (
    record {
      size = level.size;
      bits = λ x. (level.bits x).1;
      begun = omega (arith, ok.begun, level.bits start);
      sound = round_sound;
      listed = level.listed;
      closed = round_closed;
    },
    omega (arith, level.room, Ended-weightless winners winners-Ended _ ended),
  )
