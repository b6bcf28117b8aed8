-- ===== src/Bfs/Push/Correct.antt =====
-- `bfs_push` returns, and its flags are set exactly at the reachable nodes.
use graph_benchmark.Base.{
  ℕ, zero, suc, ◌+◌, ◌≡◌, ◌<◌, ◌≤◌, ◌^◌, refl, ◌∙◌, ◌⊎◌, inl, inr, List, [], ◌∷◌, arith, get_or,
  set, length, replicate, length-set, length-replicate, count, count-le-length, Bool-cases, ◌==◌,
  u64,
}
use native.Mathlib.Numerals.{add-one}
use graph_benchmark.Graph.{Graph}
use graph_benchmark.Buffer.{size}
use graph_benchmark.Bfs.{HasTargets, Reach, Walk}
use graph_benchmark.Bfs.Push.{
  Round, IsSound, PushState, push_round, Outcome, finished, push_loop, bfs_push, visited_sum,
}
use graph_benchmark.Bfs.Push.Start.{IsBetween}
use graph_benchmark.Bfs.Push.Rounds.{push_round-Advances, push_round-IsBetween}
use graph_benchmark.Bfs.Push.Distance.{
  IsListed, IsVisited, Front, Front-round, Front-closed, after, Front-after,
}
use graph_benchmark.Bfs.Push.First.{IsAllocated, first_state, first-IsBetween, first-Front}

Walk-of_Reach : (g : Graph) (start x : ℕ) → Reach g start x → (j : ℕ) × Walk g start j x
Walk-of_Reach g start x Reach.here = (0, Walk.here)
Walk-of_Reach g start x (Reach.step {u} r e) =
    let (j, w) = Walk-of_Reach g start u r in (suc j, Walk.step w e)

Reach-of_Walk : (g : Graph) (start j x : ℕ) → Walk g start j x → Reach g start x
Reach-of_Walk g start zero x Walk.here = Reach.here
Reach-of_Walk g start (suc j) x (Walk.step {u} w e) = Reach.step (Reach-of_Walk g start j u w) e

module _ (g : Graph) (n threads start : ℕ) (rounds : ℕ → Round) (targets : HasTargets n g)
    (safe : (k : ℕ) → IsSound threads (rounds k)) where
  -- What the loop returns: an empty frontier, and flags that are closed under edges.
  record Ends (o : Outcome) : Type 0 where
    state : PushState
    rounds_made : ℕ
    returned : o ≡ finished state
    emptied : state.frontier.next ≡ 0
    between : IsBetween n threads state.frontier state.shared
    front : Front g start rounds_made state

  push_loop-Ends :
      (fuel k : ℕ) (s : PushState)
      → IsBetween n threads s.frontier s.shared
      → Front g start k s
      → (s.frontier.next ≡ 0) ⊎ (count 0 s.shared.visited < fuel)
      → Ends (push_loop g threads rounds fuel k s)
  unfolding push_loop size
  push_loop-Ends zero k s ok f h = record {
    state = s;
    rounds_made = k;
    returned = ground arith;
    emptied = ground arith;
    between = ok;
    front = f;
  }
  push_loop-Ends (suc fuel) k s ok f h = elim (Bool-cases (s.frontier.next == 0)) [
    | inl empty ↦
        rw (empty, push_loop)
          record {
            state = s;
            rounds_made = k;
            returned = refl;
            emptied = ground arith;
            between = ok;
            front = f;
          }
    | inr more ↦
        let moved = push_round-Advances g n threads (rounds k) s targets ok (safe k) in
        rw (more, push_loop)
          (push_loop-Ends fuel (k + 1) (push_round g threads (rounds k) s)
            (push_round-IsBetween g n threads (rounds k) s targets ok (safe k))
            (rw add-one (Front-round g n threads start rounds targets safe k k s ok f))
            (ground (arith, moved.work)))
  ]

-- The printed sum counts the flags, since each is 0 or 1.
visited_sum_lem :
    (n v : ℕ) (visited : List ℕ)
    → length visited ≡ n
    → ((x : ℕ) → get_or visited x 0 ≤ 1)
    → v + n < 2 ^ 64
    → visited_sum n v visited ≡ v + count 1 visited
unfolding visited_sum
visited_sum_lem zero v [] e bits h = omega arith
visited_sum_lem zero v (x ∷ visited) e bits h = absurd (omega arith)
visited_sum_lem (suc n) v [] e bits h = absurd (omega arith)
visited_sum_lem (suc n) v (x ∷ visited) e bits h = ground (
  arith,
  bits 0,
  visited_sum_lem n (u64 (v + x)) visited (omega arith) (λ y. bits (suc y)) (omega (arith, bits 0)),
)

module _ (g : Graph) (n threads start : ℕ) (rounds : ℕ → Round) (frontier_cells : List ℕ)
    (buffer_cells : List (List ℕ)) (targets : HasTargets n g)
    (safe : (k : ℕ) → IsSound threads (rounds k))
    (a : IsAllocated n threads frontier_cells buffer_cells) (start_lt : start < n) where
  abbrev first : PushState
  first = first_state n frontier_cells buffer_cells start

  -- If no two threads that run at once have the same `gettid() % THREADS`, `bfs_push` returns within
  -- `NB_NODES + 1` rounds, whatever the threads' shares of the frontier and the interleavings. Then
  -- `visited` is 1 exactly at the nodes that walks from `start` lead to, 0 at the others, and the printed
  -- number is the number of cells that are 1.
  pub bfs_push-reaches :
      (s : PushState) × (bfs_push g n threads frontier_cells buffer_cells rounds
          (replicate n 0)
          start
        ≡ finished s)
      × ((x : ℕ) → (IsVisited s x → Reach g start x) × (Reach g start x → IsVisited s x))
      × ((x : ℕ) → get_or s.shared.visited x 0 ≤ 1)
      × (visited_sum n 0 s.shared.visited ≡ count 1 s.shared.visited)
  unfolding bfs_push
  bfs_push-reaches =
      let e =
        push_loop-Ends g n threads start rounds targets safe (n + 1) 0 first
          (first-IsBetween a start start_lt) (first-Front a start start_lt g)
          (inr (
            omega (
              arith,
              count-le-length 0 (set (replicate n 0) start 1),
              length-set {A = ℕ} (replicate n 0) start 1,
              length-replicate {A = ℕ} n 0,
            ))) in
      (
        e.state,
        e.returned,
        λ x. (
          λ v. elim (e.front.old x v) [
            | inl listed ↦ Reach-of_Walk g start e.rounds_made x (e.front.far x listed)
            | inr (j, lt, w) ↦ Reach-of_Walk g start j x w
          ],
          λ r.
              let (j, w) = Walk-of_Reach g start x r in
              Front-closed g start e.front e.emptied j x w,
        ),
        e.between.bits,
        visited_sum_lem n 0 e.state.shared.visited e.between.size e.between.bits
              (omega (arith, a.small))
            ∙ omega arith,
      )

  -- Under the same condition on the threads, after `k` rounds of `bfs_push` the frontier holds exactly
  -- the nodes whose shortest walk from `start` has `k` edges, and `visited` is 1 exactly at the nodes that
  -- a walk of at most `k` edges leads to.
  pub push_rounds-distance :
      (k x : ℕ)
      → (IsListed (after g threads rounds 0 k first) x
          → Walk g start k x × ((j : ℕ) → j < k → ¬ Walk g start j x))
        × (Walk g start k x
            → ((j : ℕ) → j < k → ¬ Walk g start j x)
            → IsListed (after g threads rounds 0 k first) x)
        × (IsVisited (after g threads rounds 0 k first) x → (j : ℕ) × (j ≤ k) × Walk g start j x)
        × ((j : ℕ) → j ≤ k → Walk g start j x → IsVisited (after g threads rounds 0 k first) x)
  push_rounds-distance k x =
      let f =
        Front-after g n threads start rounds targets safe 0 0 k k first (omega arith)
          (first-IsBetween a start start_lt) (first-Front a start start_lt g) in
      (
        λ listed. (f.far x listed, f.new x listed),
        λ w none_shorter. elim (f.old x (f.full k x (omega arith) w)) [
          | inl listed ↦ listed
          | inr (j, lt, v) ↦ absurd (none_shorter j lt v)
        ],
        λ v. elim (f.old x v) [
          | inl listed ↦ (k, omega arith, f.far x listed)
          | inr (j, lt, w) ↦ (j, omega arith, w)
        ],
        λ j le w. f.full j x le w,
      )
