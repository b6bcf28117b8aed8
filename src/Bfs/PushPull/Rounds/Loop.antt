-- ===== src/Bfs/PushPull/Rounds/Loop.antt =====
-- The loop of the push phase leaves, with an empty frontier or to pull, in a state of its invariant.
use graph_benchmark.Base.{
  ℕ, zero, suc, ◌+◌, ◌≡◌, ◌<◌, refl, List, arith, length, count, Bool, true, false, if◌then◌else◌,
  ◌==◌,
}
use graph_benchmark.Graph.{Graph}
use graph_benchmark.Bfs.PushPull.{VisitState, VisitOutcome, left, visit_round, switches, visit_loop}
use graph_benchmark.Bfs.PushPull.Rounds.{IsMirrored, HasFront, visit_round-HasFront}

module _ (g : Graph) (n start : ℕ) where
  pub record Leaves (o : VisitOutcome) : Type 0 where
    pub state : VisitState
    pub returned : o ≡ left state
    pub front : HasFront g n start state

  branch-Leaves :
      (a b : Bool) (stop rest : VisitOutcome)
      → Leaves stop
      → (a ≡ false → Leaves rest)
      → Leaves (if a then stop else if b then stop else rest)
  branch-Leaves true b stop rest now later = now
  branch-Leaves false true stop rest now later = now
  branch-Leaves false false stop rest now later = later refl

  pub visit_loop-Leaves :
      (nb_edges : ℕ) (schedules : ℕ → List ℕ)
      → IsMirrored n g
      → (fuel k : ℕ) (s : VisitState) → HasFront g n start s
      → length s.frontier + count 0 s.shared.visited < fuel
      → Leaves (visit_loop g nb_edges schedules fuel k s)
  unfolding visit_loop
  visit_loop-Leaves nb_edges schedules mirrored zero k s ok h = absurd (omega arith)
  visit_loop-Leaves nb_edges schedules mirrored (suc fuel) k s ok h =
      let (ok', work) = visit_round-HasFront g n start (schedules k) s mirrored ok in
      branch-Leaves (length s.frontier == 0) (switches nb_edges s) (left s)
        (visit_loop g nb_edges schedules fuel (k + 1) (visit_round g (schedules k) s))
        (record { state = s; returned = refl; front = ok })
        (λ some.
          visit_loop-Leaves nb_edges schedules mirrored fuel (k + 1) (visit_round g (schedules k) s)
            ok' (ground (arith, work)))
