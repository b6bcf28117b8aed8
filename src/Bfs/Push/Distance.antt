-- ===== src/Bfs/Push/Distance.antt =====
-- After `k` rounds `bfs_push` has visited the nodes within `k` edges, and its frontier holds those at
-- distance `k`.
use graph_benchmark.Base.{
  ℕ, zero, suc, ◌+◌, ◌≡◌, ◌<◌, ◌≤◌, ap, ◌⊎◌, inl, inr, take, arith, get_or, count, ℕ_discrete,
}
use graph_benchmark.Graph.{Graph}
use graph_benchmark.Buffer.{contents}
use graph_benchmark.Bfs.{IsEdge, HasTargets, Walk}
use graph_benchmark.Bfs.Push.{Round, IsSound, PushState, push_round}
use graph_benchmark.Bfs.Push.Start.{IsBetween}
use graph_benchmark.Bfs.Push.Rounds.{Advances, push_round-Advances, push_round-IsBetween}

abbrev pub IsListed : PushState → ℕ → Type 0
IsListed s x = 0 < count x (contents s.frontier)

abbrev pub IsVisited : PushState → ℕ → Type 0
IsVisited s x = get_or s.shared.visited x 0 ≡ 1

module _ (g : Graph) (start : ℕ) where
  pub record Front (k : ℕ) (s : PushState) : Type 0 where
    pub full : (j x : ℕ) → j ≤ k → Walk g start j x → IsVisited s x
    pub old : (x : ℕ) → IsVisited s x → IsListed s x ⊎ ((j : ℕ) × (j < k) × Walk g start j x)
    pub far : (x : ℕ) → IsListed s x → Walk g start k x
    pub new : (x : ℕ) → IsListed s x → (j : ℕ) → j < k → ¬ Walk g start j x

  module _ {n k : ℕ} {s s' : PushState} (f : Front k s) (a : Advances g n s s')
      (bits : (x : ℕ) → get_or s'.shared.visited x 0 ≤ 1) where
    -- An edge from a visited node leads to a node that is visited after the round.
    full-edge : (u x : ℕ) → IsVisited s u → IsEdge g u x → IsVisited s' x
    full-edge u x e edge = elim (f.old u e) [
      | inl listed ↦ a.full u x listed edge
      | inr (j, lt, w) ↦ a.kept x (f.full (suc j) x lt (Walk.step w edge))
    ]

    full-suc : (j x : ℕ) → j ≤ suc k → Walk g start j x → IsVisited s' x
    full-suc zero x le w = a.kept x (f.full zero x (omega arith) w)
    full-suc (suc j) x le (Walk.step {u} w edge) = full-edge u x (f.full j u (omega arith) w) edge

    Walk-of_IsVisited : (x : ℕ) → IsVisited s x → (j : ℕ) × (j < suc k) × Walk g start j x
    Walk-of_IsVisited x e = elim (f.old x e) [
      | inl listed ↦ (k, omega arith, f.far x listed)
      | inr (j, lt, w) ↦ (j, omega arith, w)
    ]

    old-suc : (x : ℕ) → IsVisited s' x → IsListed s' x ⊎ ((j : ℕ) × (j < suc k) × Walk g start j x)
    old-suc x e = elim (ℕ_discrete (get_or s.shared.visited x 0) 1) [
      | yes before ↦ inr (Walk-of_IsVisited x before)
      | no unseen ↦ inl (omega (arith, a.fresh x, bits x))
    ]

    unseen_of : (x : ℕ) → IsListed s' x → ¬ IsVisited s x
    unseen_of x listed e = omega (arith, a.fresh x, bits x)

    far-suc : (x : ℕ) → IsListed s' x → Walk g start (suc k) x
    far-suc x listed = elim (a.sound x (omega (arith, a.fresh x, bits x))) [
      | inl before ↦ absurd (unseen_of x listed before)
      | inr (u, from, edge) ↦ Walk.step (f.far u from) edge
    ]

    pub Front-suc : Front (suc k) s'
    Front-suc = record {
      full = full-suc;
      old = old-suc;
      far = far-suc;
      new = λ x listed j lt w. unseen_of x listed (f.full j x (omega arith) w);
    }

  -- With an empty frontier the visited nodes are closed under edges.
  pub Front-closed :
      {k : ℕ} {s : PushState}
      → Front k s
      → s.frontier.next ≡ 0
      → (j x : ℕ) → Walk g start j x
      → IsVisited s x
  Front-closed f e zero x w = f.full zero x (omega arith) w
  Front-closed {s} f e (suc j) x (Walk.step {u} w edge) = elim (f.old u (Front-closed f e j u w)) [
    | inl listed ↦ absurd (omega (arith, ap (λ i. count u (take i s.frontier.buffer)) e))
    | inr (i, lt, v) ↦ f.full (suc i) x lt (Walk.step v edge)
  ]

-- The state after `k` rounds, the first of them number `i`.
abbrev pub after : Graph → ℕ → (ℕ → Round) → ℕ → ℕ → PushState → PushState
after g threads rounds i zero s = s
after g threads rounds i (suc k) s =
    after g threads rounds (i + 1) k (push_round g threads (rounds i) s)

module _ (g : Graph) (n threads start : ℕ) (rounds : ℕ → Round) (targets : HasTargets n g)
    (safe : (k : ℕ) → IsSound threads (rounds k)) where
  pub IsBetween-after :
      (i k : ℕ) (s : PushState)
      → IsBetween n threads s.frontier s.shared
      → IsBetween n threads
          (after g threads rounds i k s).frontier
          (after g threads rounds i k s).shared
  IsBetween-after i zero s ok = ok
  IsBetween-after i (suc k) s ok =
      IsBetween-after (i + 1) k (push_round g threads (rounds i) s)
        (push_round-IsBetween g n threads (rounds i) s targets ok (safe i))

  pub Front-round :
      (k i : ℕ) (s : PushState)
      → IsBetween n threads s.frontier s.shared
      → Front g start k s
      → Front g start (suc k) (push_round g threads (rounds i) s)
  Front-round k i s ok f =
      Front-suc g start f (push_round-Advances g n threads (rounds i) s targets ok (safe i))
        (push_round-IsBetween g n threads (rounds i) s targets ok (safe i)).bits

  pub Front-after :
      (i j k d : ℕ) (s : PushState)
      → d ≡ j + k
      → IsBetween n threads s.frontier s.shared
      → Front g start j s
      → Front g start d (after g threads rounds i k s)
  Front-after i j zero d s e ok f = let same : d ≡ j = omega arith in rw same f
  Front-after i j (suc k) d s e ok f =
      Front-after (i + 1) (suc j) k d (push_round g threads (rounds i) s) (omega arith)
        (push_round-IsBetween g n threads (rounds i) s targets ok (safe i)) (Front-round j i s ok f)
