-- ===== src/Bfs/Pull/Rounds.antt =====
-- The rounds of `bfs_pull` keep its invariant, and its loop ends.
use graph_benchmark.Base.{
  ℕ, zero, suc, ◌+◌, ◌≡◌, ◌<◌, ◌≤◌, ◌^◌, ◌⊎◌, inl, inr, refl, sym, ◌∙◌, List, arith, Bool, true,
  false, if◌then◌else◌, get_or, length, get_or-out, get_or-replicate, length-replicate, replicate,
  count, u64, count-zero_lt, dec_lt,
}
use mathlib.Core.Bool.{false≢true}
use graph_benchmark.Graph.{Graph}
use graph_benchmark.Bfs.{IsInEdge, ReachIn}
use graph_benchmark.Bfs.Pull.{PullState, PullOutcome, finished, pull_round, pull_loop}
use graph_benchmark.Bfs.Pull.Nodes.{Hit, IsPulling, Decided, pulling_lem}

module _ (g : Graph) (n start : ℕ) where
  -- The state between two rounds.
  pub record IsReady (s : PullState) : Type 0 where
    pub few : n ≤ 2 ^ 32
    pub flags : length s.visited ≡ n
    pub cells : length s.in_frontier_next ≡ n
    pub clear : (x : ℕ) → get_or s.in_frontier_next x false ≡ false
    pub bits : (x : ℕ) → get_or s.visited x 0 ≤ 1
    pub begun : get_or s.visited start 0 ≡ 1
    pub sound : (x : ℕ) → get_or s.visited x 0 ≡ 1 → ReachIn g n start x
    pub listed : (u : ℕ) → get_or s.in_frontier u false ≡ true → get_or s.visited u 0 ≡ 1
    pub closed :
        (u x : ℕ)
        → get_or s.visited u 0 ≡ 1
        → x < n
        → IsInEdge g u x
        → (get_or s.visited x 0 ≡ 1) ⊎ (get_or s.in_frontier u false ≡ true)

  module _ (s m : PullState) (r : IsReady s) (w : IsPulling g n s.visited s.in_frontier m)
      (d : (x : ℕ) → x < n → Decided g n s.visited s.in_frontier m x) where
    grows : (x : ℕ) → (get_or s.visited x 0 ≤ get_or m.visited x 0) × (get_or m.visited x 0 ≤ 1)
    grows x = elim (dec_lt x n) [
      | no out ↦ omega (
        arith,
        get_or-out s.visited x 0 (omega (arith, r.flags)),
        get_or-out m.visited x 0 (omega (arith, w.flags)),
      )
      | yes lt ↦ elim (d x lt) [
        | inl (a, old) ↦ omega (arith, a.1, r.bits x)
        | inr (inl (a, new, missed)) ↦ omega (arith, a.1, new)
        | inr (inr (a, new, hit, on)) ↦ omega (arith, a.1, new)
      ]
    ]

    Hit-ReachIn : (x : ℕ) → x < n → Hit g n s.visited s.in_frontier x → ReachIn g n start x
    Hit-ReachIn x lt (p, low, high, at_front) =
        ReachIn.step (r.sound (get_or g.in_edges p 0) (r.listed (get_or g.in_edges p 0) at_front))
          lt (p, low, high, refl)

    sound' : (x : ℕ) → get_or m.visited x 0 ≡ 1 → ReachIn g n start x
    sound' x e = elim (dec_lt x n) [
      | no out ↦ absurd (omega (arith, get_or-out m.visited x 0 (omega (arith, w.flags))))
      | yes lt ↦ elim (d x lt) [
        | inl (a, old) ↦ r.sound x (sym a.1 ∙ e)
        | inr (inl (a, new, missed)) ↦ absurd (omega (arith, a.1))
        | inr (inr (a, new, hit, on)) ↦ Hit-ReachIn x lt hit
      ]
    ]

    listed' : (u : ℕ) → get_or m.in_frontier_next u false ≡ true → get_or m.visited u 0 ≡ 1
    listed' u e = elim (dec_lt u n) [
      | no out ↦ absurd (
          false≢true (sym (sym e ∙ get_or-out m.in_frontier_next u false (omega (arith, w.cells)))))
      | yes lt ↦ elim (d u lt) [
        | inl (a, old) ↦ absurd (false≢true (sym (sym e ∙ a.2)))
        | inr (inl (a, new, missed)) ↦ absurd (false≢true (sym (sym e ∙ a.2)))
        | inr (inr (a, new, hit, on)) ↦ a.1
      ]
    ]

    -- A node with an edge from the old frontier is visited.
    reached : (x : ℕ) → x < n → Hit g n s.visited s.in_frontier x → get_or m.visited x 0 ≡ 1
    reached x lt (p, low, high, at_front) = elim (d x lt) [
      | inl (a, old) ↦ omega (arith, a.1, old, r.bits x)
      | inr (inl (a, new, missed)) ↦ absurd (false≢true (sym (sym at_front ∙ missed p low high)))
      | inr (inr (a, new, hit, on)) ↦ a.1
    ]

    closed' :
        (u x : ℕ)
        → get_or m.visited u 0 ≡ 1
        → x < n
        → IsInEdge g u x
        → (get_or m.visited x 0 ≡ 1) ⊎ (get_or m.in_frontier_next u false ≡ true)
    closed' u x e lt edge = elim (dec_lt u n) [
      | no out ↦ absurd (omega (arith, get_or-out m.visited u 0 (omega (arith, w.flags))))
      | yes inside ↦ elim (d u inside) [
        | inl (a, old) ↦ elim (r.closed u x (sym a.1 ∙ e) lt edge) [
          | inl seen ↦ inl (omega (arith, grows x))
          | inr at_front ↦
              let (p, low, high, from) = edge in inl (reached x lt (p, low, high, rw from at_front))
        ]
        | inr (inl (a, new, missed)) ↦ absurd (omega (arith, a.1))
        | inr (inr (a, new, hit, on)) ↦ inr a.2
      ]
    ]

    falls : m.cont ≡ true → count 0 m.visited < count 0 s.visited
    falls on =
        let (x, lt, new, hit) = w.cause on in
        count-zero_lt s.visited m.visited x (r.flags ∙ sym w.flags) (λ y. (grows y).0)
          (omega (arith, r.flags)) new (omega (arith, reached x lt hit))

    stops : m.cont ≡ false → (u : ℕ) → get_or m.in_frontier_next u false ≡ false
    stops off u = elim (dec_lt u n) [
      | no out ↦ get_or-out m.in_frontier_next u false (omega (arith, w.cells))
      | yes lt ↦ elim (d u lt) [
        | inl (a, old) ↦ a.2
        | inr (inl (a, new, missed)) ↦ a.2
        | inr (inr (a, new, hit, on)) ↦ absurd (false≢true (sym off ∙ on))
      ]
    ]

    -- After the frontier is cleared and the arrays are swapped.
    swapped-IsReady :
        IsReady
          (record m { in_frontier = m.in_frontier_next; in_frontier_next = replicate n false })
    swapped-IsReady = record {
      few = r.few;
      flags = w.flags;
      cells = length-replicate n false;
      clear = λ x. get_or-replicate n x false;
      bits = λ x. (grows x).1;
      begun = omega (arith, grows start, r.begun);
      sound = sound';
      listed = listed';
      closed = closed';
    }

  pull_round-IsReady :
      (schedule : List ℕ) (s : PullState)
      → IsReady s
      → IsReady (pull_round g n schedule s)
        × ((pull_round g n schedule s).cont ≡ true
            → count 0 (pull_round g n schedule s).visited < count 0 s.visited)
        × ((pull_round g n schedule s).cont ≡ false
            → (u : ℕ) → get_or (pull_round g n schedule s).in_frontier u false ≡ false)
  unfolding pull_round
  pull_round-IsReady schedule s r =
      let (w, d) =
        pulling_lem g n s.visited s.in_frontier schedule
          (record s { cont = false; iterations = u64 (s.iterations + 1) })
          (record {
            flags = r.flags;
            cells = r.cells;
            frontier = refl;
            cause = λ e. absurd (false≢true e);
          })
          refl r.clear r.few in
      (swapped-IsReady s _ r w d, falls s _ r w d, stops s _ r w d)

  -- What the loop returns: nothing is listed, so that the flags are closed under edges.
  pub record Ends (o : PullOutcome) : Type 0 where
    pub state : PullState
    pub returned : o ≡ finished state
    pub ready : IsReady state
    pub emptied : (u : ℕ) → get_or state.in_frontier u false ≡ false

  branch-Ends :
      (b : Bool) (rest stop : PullOutcome)
      → (b ≡ true → Ends rest)
      → (b ≡ false → Ends stop)
      → Ends (if b then rest else stop)
  branch-Ends true rest stop on off = on refl
  branch-Ends false rest stop on off = off refl

  pub pull_loop-Ends :
      (schedules : ℕ → List ℕ) (fuel k : ℕ) (s : PullState)
      → IsReady s
      → count 0 s.visited < fuel
      → Ends (pull_loop g n schedules fuel k s)
  unfolding pull_loop
  pull_loop-Ends schedules zero k s r h = absurd (omega arith)
  pull_loop-Ends schedules (suc fuel) k s r h =
      let (ready, less, stop) = pull_round-IsReady (schedules k) s r in
      branch-Ends (pull_round g n (schedules k) s).cont
        (pull_loop g n schedules fuel (k + 1) (pull_round g n (schedules k) s))
        (finished (pull_round g n (schedules k) s))
        (λ on.
          pull_loop-Ends schedules fuel (k + 1) (pull_round g n (schedules k) s) ready
            (omega (arith, less on)))
        (λ off. record {
          state = pull_round g n (schedules k) s;
          returned = refl;
          ready = ready;
          emptied = stop off;
        })

  pub complete :
      (s : PullState)
      → IsReady s
      → ((u : ℕ) → get_or s.in_frontier u false ≡ false)
      → (x : ℕ) → ReachIn g n start x
      → get_or s.visited x 0 ≡ 1
  complete s r emptied x ReachIn.here = r.begun
  complete s r emptied x (ReachIn.step {u} w lt edge) =
      elim (r.closed u x (complete s r emptied u w) lt edge) [
        | inl seen ↦ seen
        | inr at_front ↦ absurd (false≢true (sym (emptied u) ∙ at_front))
      ]
