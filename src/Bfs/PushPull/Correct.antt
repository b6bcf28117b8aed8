-- ===== src/Bfs/PushPull/Correct.antt =====
-- `bfs_pushpull` returns, and its flags are set exactly at the reachable nodes.
use graph_benchmark.Base.{
  ℕ, ◌+◌, ◌≡◌, ◌≢◌, ◌<◌, inl, inr, sym, ◌∙◌, [], ◌∷◌, List, arith, Bool, true, false, get_or, set,
  length, count, length-set, get_or-set_self, get_or-set_ne, get_or-replicate, length-replicate,
  replicate, count-le-length, ℕ_discrete,
}
use graph_benchmark.Graph.{Graph}
use graph_benchmark.Bfs.{ReachIn}
use graph_benchmark.Bfs.Push.Start.{lt_of_visited}
use graph_benchmark.Bfs.Pull.{PullState, finished}
use graph_benchmark.Bfs.Pull.Rounds.{IsReady, pull_loop-Ends, complete}
use graph_benchmark.Bfs.Pull.Correct.{IsCleared}
use graph_benchmark.Bfs.PushPull.{
  VisitState, Setting, enter_all, pull_phase, then_pull, bfs_pushpull,
}
use graph_benchmark.Bfs.PushPull.Rounds.{IsMirrored, HasFront}
use graph_benchmark.Bfs.PushPull.Rounds.Loop.{visit_loop-Leaves}
use graph_benchmark.Bfs.PushPull.Listing.{enter_all-listed}

module _ (g : Graph) (n start : ℕ) (set_up : Setting) (mirrored : IsMirrored n g)
    (c : IsCleared n set_up.frontier_cells set_up.next_cells) where
  module _ (s : VisitState) (ok : HasFront g n start s) where
    abbrev entered_cells : List Bool
    entered_cells = enter_all set_up.entries s.frontier set_up.frontier_cells

    abbrev switched : PullState
    switched = record {
      visited = s.shared.visited;
      in_frontier = entered_cells;
      in_frontier_next = set_up.next_cells;
      cont = false;
      iterations = 0;
    }

    node_lt : (x : ℕ) → get_or s.shared.visited x 0 ≡ 1 → x < n
    node_lt x e = lt_of_visited n s.shared.visited x ok.size e

    entered_iff :
        (x : ℕ)
        → (get_or entered_cells x false ≡ true → 0 < count x s.frontier)
          × (0 < count x s.frontier → get_or entered_cells x false ≡ true)
    entered_iff =
        enter_all-listed n s.frontier (λ x h. node_lt x (ok.listed x h)) set_up.entries
          set_up.frontier_cells c.frontier_size c.frontier_clear

    -- Where the push phase leaves, the pull phase can start.
    switched-IsReady : IsReady g n start switched
    switched-IsReady = record {
      few = c.few;
      flags = ok.size;
      cells = c.next_size;
      clear = c.next_clear;
      bits = ok.bits;
      begun = ok.begun;
      sound = ok.sound;
      listed = λ u e. ok.listed u ((entered_iff u).0 e);
      closed = λ u x e lt edge.
          elim (ok.closed u x e ((mirrored.same u x (node_lt u e) lt).1 edge)) [
            | inl seen ↦ inl seen
            | inr at_front ↦ inr ((entered_iff u).1 at_front)
          ];
    }

    pull_phase-reaches :
        (p : PullState) × (pull_phase g n set_up s ≡ finished p)
        × ((x : ℕ)
            → (get_or p.visited x 0 ≡ 1 → ReachIn g n start x)
              × (ReachIn g n start x → get_or p.visited x 0 ≡ 1))
    unfolding pull_phase
    pull_phase-reaches =
        let e =
          pull_loop-Ends g n start set_up.pulling (n + 1) 0 switched switched-IsReady
            (omega (arith, count-le-length 0 s.shared.visited, ok.size)) in
        (
          e.state,
          e.returned,
          λ x. (e.ready.sound x, complete g n start e.state e.ready e.emptied x),
        )

  module _ (start_lt : start < n) where
    abbrev first_flags : List ℕ
    first_flags = set (replicate n 0) start 1

    abbrev first : VisitState
    first = record {
      frontier = start ∷ [];
      shared = record {
        visited = first_flags;
        frontier_next = [];
        edges_in_frontier = 0;
        explored = 0;
      };
    }

    flag_here : get_or first_flags start 0 ≡ 1
    flag_here =
        get_or-set_self (replicate n 0) start 1 0 (omega (arith, length-replicate {A = ℕ} n 0))

    flag_other : (x : ℕ) → x ≢ start → get_or first_flags x 0 ≡ 0
    flag_other x ne =
        get_or-set_ne (replicate n 0) start x 1 0 (λ e. ne (sym e)) ∙ get_or-replicate n x 0

    only_start : (x : ℕ) → get_or first_flags x 0 ≡ 1 → x ≡ start
    only_start x e = elim (ℕ_discrete x start) [
      | yes same ↦ same
      | no ne ↦ absurd (omega (arith, flag_other x ne))
    ]

    first_size : length first_flags ≡ n
    first_size = length-set {A = ℕ} (replicate n 0) start 1 ∙ length-replicate n 0

    first-HasFront : HasFront g n start first
    first-HasFront = record {
      size = first_size;
      bits = λ x. elim (ℕ_discrete x start) [
        | yes e ↦ rw e (omega (arith, flag_here))
        | no ne ↦ omega (arith, flag_other x ne)
      ];
      begun = flag_here;
      sound = λ x e. rw (only_start x e) ReachIn.here;
      listed = λ x h. elim (ℕ_discrete x start) [
        | yes same ↦ rw same flag_here
        | no ne ↦ absurd (ground arith)
      ];
      closed = λ u x e edge. inr (ground (arith, only_start u e));
    }

    -- On a graph of at most 2^32 nodes whose two directions agree and on arrays that happen to be clear,
    -- `bfs_pushpull` returns, whatever the interleavings and wherever it switches: the push phase leaves within `NB_NODES + 2`
    -- rounds and the pull phase within `NB_NODES + 1`. Then `visited` is 1 exactly at the nodes that walks
    -- along the incoming rows lead to from `start`.
    pub bfs_pushpull-reaches :
        (nb_edges : ℕ)
        → (p : PullState) × (bfs_pushpull g n nb_edges set_up (replicate n 0) start ≡ finished p)
          × ((x : ℕ)
              → (get_or p.visited x 0 ≡ 1 → ReachIn g n start x)
                × (ReachIn g n start x → get_or p.visited x 0 ≡ 1))
    unfolding bfs_pushpull then_pull
    bfs_pushpull-reaches nb_edges =
        let l =
          visit_loop-Leaves g n start nb_edges set_up.visiting mirrored (n + 2) 0 first
            first-HasFront (omega (arith, count-le-length 0 first_flags, first_size)) in
        rw l.returned (pull_phase-reaches l.state l.front)
