-- ===== src/Bfs/Push/Start.antt =====
-- The tasks of a round of `bfs_push`: its parallel loop starts in the invariant and ends.
use graph_benchmark.Base.{
  ℕ, ◌≡◌, ◌<◌, ◌≤◌, refl, sym, ap, ap₂, ◌∙◌, inl, List, [], ◌∷◌, ◌++◌, map, arith, get_or, take,
  length, get_or-out, dec_lt, total, total-append, total-eq-zero, All, All-map, All-append, count,
  count-le-length, ◌-◌, if◌then◌else◌, ◌==◌,
}
use mathlib.Core.List.{map-append}
use native.Mathlib.Nat.{mod-lt}
use graph_benchmark.Graph.{Graph}
use graph_benchmark.Parallel.{parallel_for}
use graph_benchmark.Parallel.Rule.{parallel_for_inv, parallel_for-Ended, advance_spent}
use graph_benchmark.Buffer.{ThreadBuffer, contents, at, size}
use graph_benchmark.Bfs.{HasTargets}
use graph_benchmark.Bfs.Push.{
  Cursor, Explore, scan, claim, won, stored, explored, Shared, Worker, Share, Round, IsSound,
  explorers, workers, explore_step, move_first, worker_step, explore_budget, worker_budget, slot_of,
  indices_of,
}
use graph_benchmark.Bfs.Push.Level.{winning, winners, held, source, IsRoomy, Exploring, Level}
use graph_benchmark.Bfs.Push.Shares.{starts, mapped-listed, starts-listed}
use graph_benchmark.Bfs.Push.Slots.{
  IsWaiting, waiting, Turn, waiting-InTurn, all_runs, Working, Working-keep,
}
use graph_benchmark.Parallel.Owner.{Owned}

-- The state between two rounds.
pub record IsBetween (n threads : ℕ) (frontier : ThreadBuffer) (m : Shared) : Type 0 where
  pub some_thread : 0 < threads
  pub roomy : IsRoomy n frontier
  pub size : length m.visited ≡ n
  pub bits : (x : ℕ) → get_or m.visited x 0 ≤ 1
  pub valid : All (IsRoomy n) m.buffers
  pub slots : length m.buffers ≡ threads
  pub drained : All (λ (b : ThreadBuffer). b.next ≡ 0) m.buffers
  pub seen : (x : ℕ) → 0 < count x (contents frontier) → get_or m.visited x 0 ≡ 1

-- Flags are set for nodes only.
pub lt_of_visited :
    (n : ℕ) (visited : List ℕ) (x : ℕ) → length visited ≡ n → get_or visited x 0 ≡ 1 → x < n
lt_of_visited n visited x size e = elim (dec_lt x n) [
  | yes lt ↦ lt
  | no ge ↦ absurd (omega (arith, get_or-out visited x 0 (omega arith)))
]

module _ (g : Graph) (n threads : ℕ) (round : Round) (frontier : ThreadBuffer) (m : Shared)
    (ok : IsBetween n threads frontier m) (sound : IsSound threads round) where
  abbrev Busy : Explore → Type 0
  Busy = Exploring g n threads m.visited (starts ok.roomy sound) m.visited

  abbrev all : List ℕ
  all = indices_of (round.assign frontier.next)

  slot_lt : (share : Share) → slot_of threads share < threads
  slot_lt share = mod-lt share.thread ok.some_thread

  explorers-sources :
      (slot : ℕ) (is : List ℕ) → map source (explorers g slot frontier is) ≡ map (at frontier) is
  unfolding explorers
  explorers-sources slot [] = refl
  explorers-sources slot (i ∷ is) = ap (◌∷◌ (at frontier i)) (explorers-sources slot is)

  workers-sources :
      (shares : List Share)
      → map source (all_runs (workers g threads frontier shares))
        ≡ map (at frontier) (indices_of shares)
  unfolding workers
  workers-sources [] = refl
  workers-sources (s ∷ shares) =
      map-append source (explorers g (slot_of threads s) frontier s.indices) _
      ∙ ap₂ (λ a b. a ++ b) (explorers-sources (slot_of threads s) s.indices)
          (workers-sources shares)
      ∙ sym (map-append (at frontier) s.indices (indices_of shares))

  explorers-Busy :
      (slot : ℕ) (is : List ℕ)
      → slot < threads
      → ((i : ℕ) → 0 < count i is → 0 < count i all)
      → All Busy (explorers g slot frontier is)
  unfolding explorers
  explorers-Busy slot [] lt h = tt
  explorers-Busy slot (i ∷ is) lt h =
      let listed = mapped-listed (at frontier) all i (h i (ground arith)) in
      (
        record {
          slot = lt;
          node =
              lt_of_visited n m.visited (at frontier i) ok.size
                (ok.seen (at frontier i) (starts-listed ok.roomy sound (at frontier i) listed));
          listed = listed;
          low = omega arith;
          high = refl;
          covered = λ p le less. absurd (omega arith);
        },
        explorers-Busy slot is lt (λ x l. h x (ground arith)),
      )

  workers-Busy :
      (shares : List Share)
      → ((i : ℕ) → 0 < count i (indices_of shares) → 0 < count i all)
      → All Busy (all_runs (workers g threads frontier shares))
  unfolding workers
  workers-Busy [] h = tt
  workers-Busy (s ∷ shares) h =
      let split =
        λ (i : ℕ). total-append (λ y. if i == y then 1 else 0) s.indices (indices_of shares) in
      All-append Busy (explorers g (slot_of threads s) frontier s.indices) _
        (explorers-Busy (slot_of threads s) s.indices (slot_lt s)
          (λ i l. h i (omega (arith, split i))))
        (workers-Busy shares (λ i l. h i (omega (arith, split i))))

  explorers-IsWaiting :
      (slot : ℕ) (is : List ℕ) → All (IsWaiting slot) (explorers g slot frontier is)
  unfolding explorers
  explorers-IsWaiting slot [] = tt
  explorers-IsWaiting slot (i ∷ is) = (waiting refl, explorers-IsWaiting slot is)

  explorers-idle :
      (w : Explore → ℕ)
      → ((c : Cursor) → w (scan c) ≡ 0)
      → (slot : ℕ) (is : List ℕ) → total w (explorers g slot frontier is) ≡ 0
  explorers-idle w z slot is =
      total-eq-zero w (explorers g slot frontier is)
        (All-map (IsWaiting slot) (λ t. w t ≡ 0) idle _ (explorers-IsWaiting slot is))
    where
      idle : (t : Explore) → IsWaiting slot t → w t ≡ 0
      idle t (waiting {c} e) = z c

  workers-idle :
      (w : Explore → ℕ)
      → ((c : Cursor) → w (scan c) ≡ 0)
      → (shares : List Share) → total w (all_runs (workers g threads frontier shares)) ≡ 0
  unfolding workers
  workers-idle w z [] = refl
  workers-idle w z (s ∷ shares) = omega (
    arith,
    total-append w (explorers g (slot_of threads s) frontier s.indices)
        (all_runs (workers g threads frontier shares)),
    explorers-idle w z (slot_of threads s) s.indices,
    workers-idle w z shares,
  )

  workers-Turn : (shares : List Share) → All (Turn g m) (workers g threads frontier shares)
  unfolding workers
  workers-Turn [] = tt
  workers-Turn (s ∷ shares) = (
    waiting-InTurn (slot_of threads s) m _ (explorers-IsWaiting (slot_of threads s) s.indices),
    workers-Turn shares,
  )

  workers-slots :
      (shares : List Share)
      → map Worker.slot (workers g threads frontier shares) ≡ map (slot_of threads) shares
  unfolding workers
  workers-slots [] = refl
  workers-slots (s ∷ shares) = ap (◌∷◌ (slot_of threads s)) (workers-slots shares)

  none_held : (x : ℕ) → held x m.buffers ≡ 0
  none_held x =
      total-eq-zero _ m.buffers
        (All-map _ _ (λ b e. ap (λ k. count x (take k b.buffer)) e) m.buffers ok.drained)

  abbrev tasks : List Worker
  tasks = workers g threads frontier (round.assign (size frontier))

  Level-start : Level g n threads m.visited (starts ok.roomy sound) (all_runs tasks) m
  unfolding size
  Level-start = record {
    size = ok.size;
    bits = λ x. (omega arith, ok.bits x);
    conserved = λ x.
        omega
          (arith, none_held x, workers-idle (winning x) (λ c. refl) (round.assign frontier.next));
    room = omega (
      arith,
      total-eq-zero (λ (b : ThreadBuffer). b.next) m.buffers ok.drained,
      workers-idle winners (λ c. refl) (round.assign frontier.next),
    );
    valid = ok.valid;
    slots = ok.slots;
    sound = λ x e. inl e;
    exploring = workers-Busy (round.assign frontier.next) (λ i h. h);
    sources = workers-sources (round.assign frontier.next);
  }

  abbrev slots : List ℕ
  slots = map (slot_of threads) (round.assign (size frontier))

  Owned-start : Owned (worker_step g) Worker.slot (λ _. Unit) (Turn g) slots tasks m
  Owned-start = record {
    valid = tt;
    own = workers-Turn (round.assign (size frontier));
    indexed = workers-slots (round.assign (size frontier));
    distinct = λ x. sound.apart (size frontier) x;
  }

abbrev pub Ended : Explore → Type 0
Ended t = explore_budget t ≡ 0

explore_budget-falls :
    (g : Graph) (t : Explore) (m : Shared)
    → explore_budget (explore_step g t m).0 ≤ explore_budget t - 1
unfolding explore_step
explore_budget-falls g (scan c) m = ground arith
explore_budget-falls g (claim c dst) m = ground arith
explore_budget-falls g (won c dst) m = omega arith
explore_budget-falls g (stored c dst) m = omega arith
explore_budget-falls g (explored c) m = omega arith

move_first-falls :
    (g : Graph) (ts : List Explore) (m : Shared)
    → total explore_budget (move_first g ts m).0 ≤ total explore_budget ts - 1
unfolding move_first
move_first-falls g [] m = omega arith
move_first-falls g (explored c ∷ ts) m = omega (arith, move_first-falls g ts m)
move_first-falls g (scan c ∷ ts) m = omega (arith, explore_budget-falls g (scan c) m)
move_first-falls g (claim c dst ∷ ts) m = omega (arith, explore_budget-falls g (claim c dst) m)
move_first-falls g (won c dst ∷ ts) m = omega (arith, explore_budget-falls g (won c dst) m)
move_first-falls g (stored c dst ∷ ts) m = omega (arith, explore_budget-falls g (stored c dst) m)

worker_budget-falls :
    (g : Graph) (w : Worker) (m : Shared)
    → worker_budget (worker_step g w m).0 ≤ worker_budget w - 1
unfolding worker_step
worker_budget-falls g w m = move_first-falls g w.runs m

runs-Ended : (ts : List Explore) → total explore_budget ts ≡ 0 → All Ended ts
runs-Ended [] e = tt
runs-Ended (t ∷ ts) e = (omega arith, runs-Ended ts (omega arith))

all_runs-Ended : (ws : List Worker) → All (λ w. worker_budget w ≡ 0) ws → All Ended (all_runs ws)
all_runs-Ended [] e = tt
all_runs-Ended (w ∷ ws) e =
    All-append Ended w.runs (all_runs ws) (runs-Ended w.runs e.0) (all_runs-Ended ws e.1)

module _ (g : Graph) (n threads : ℕ) (round : Round) (frontier : ThreadBuffer) (m : Shared)
    (targets : HasTargets n g) (ok : IsBetween n threads frontier m)
    (sound : IsSound threads round) where
  -- The parallel loop of the round.
  abbrev pub looped : List Worker × Shared
  looped =
      parallel_for (worker_step g) worker_budget round.schedule
        (workers g threads frontier (round.assign (size frontier))) m

  pub Level-end : Level g n threads m.visited (starts ok.roomy sound) (all_runs looped.0) looped.1
  Level-end =
      let start = starts ok.roomy sound in
      let few : count 0 m.visited ≤ n = omega (arith, ok.size, count-le-length 0 m.visited) in
      let end =
        parallel_for_inv (worker_step g)
          (Working g n threads m.visited start targets few
            (slots g n threads round frontier m ok sound))
          (Working-keep g n threads m.visited start targets few
            (slots g n threads round frontier m ok sound))
          worker_budget round.schedule (workers g threads frontier (round.assign (size frontier))) m
          (record {
            owned = Owned-start g n threads round frontier m ok sound;
            level = Level-start g n threads round frontier m ok sound;
          }) in
      end.level

  pub looped-Ended : All Ended (all_runs looped.0)
  looped-Ended = all_runs-Ended looped.0 (
      parallel_for-Ended (worker_step g) worker_budget (λ w. worker_budget w ≡ 0)
        (advance_spent (worker_step g) worker_budget (worker_budget-falls g)) round.schedule
        (workers g threads frontier (round.assign (size frontier))) m)
