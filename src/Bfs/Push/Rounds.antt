-- ===== src/Bfs/Push/Rounds.antt =====
-- One round of `bfs_push`: it visits the targets of the frontier, and the next frontier is what it has
-- newly visited.
use graph_benchmark.Base.{
  ℕ, suc, ◌+◌, ◌≡◌, ◌<◌, ◌≤◌, refl, ap, ◌∙◌, ◌⊎◌, inl, inr, List, [], ◌∷◌, map, arith, get_or,
  length, total, total-append, total-eq-zero, All, All-map, count, count-le-length, if◌then◌else◌,
  ◌==◌, ℕ_discrete,
}
use graph_benchmark.Graph.{Graph}
use graph_benchmark.Buffer.{ThreadBuffer, contents, transfer, clear}
use graph_benchmark.Buffer.Laws.{transfer-Transfers}
use graph_benchmark.Bfs.{IsEdge, HasTargets}
use graph_benchmark.Bfs.Push.{
  Explore, scan, claim, won, stored, explored, Shared, Round, IsSound, collect, PushState,
  push_round,
}
use graph_benchmark.Bfs.Push.Level.{
  winning, winners, held, pushed, source, IsRoomy, IsCovered, Exploring, Level,
}
use graph_benchmark.Bfs.Push.Shares.{starts, starts-listed, listed-starts}
use graph_benchmark.Bfs.Push.Slots.{all_runs}
use graph_benchmark.Bfs.Push.Start.{IsBetween, Ended, looped, Level-end, looped-Ended}

-- All entries of the buffers end in the frontier, and the buffers are empty again.
record Collects (n : ℕ) (bs : List ThreadBuffer) (f : ThreadBuffer)
    (r : List ThreadBuffer × ThreadBuffer) : Type 0 where
  gathered : (x : ℕ) → count x (contents r.1) ≡ count x (contents f) + held x bs
  grown : r.1.next ≡ f.next + pushed bs
  valid : All (IsRoomy n) r.0
  drained : All (λ (b : ThreadBuffer). b.next ≡ 0) r.0
  roomy : IsRoomy n r.1
  slots : length r.0 ≡ length bs

collect-Collects :
    (n : ℕ) (bs : List ThreadBuffer) (f : ThreadBuffer)
    → All (IsRoomy n) bs
    → IsRoomy n f
    → f.next + pushed bs ≤ n
    → Collects n bs f (collect bs f)
unfolding collect
collect-Collects n [] f v w room = record {
  gathered = λ x. omega arith;
  grown = omega arith;
  valid = tt;
  drained = tt;
  roomy = w;
  slots = refl;
}
collect-Collects n (b ∷ bs) f v w room =
    let t = transfer-Transfers b f v.0.0 w.0 (omega (arith, w.1)) in
    let r = transfer b f in
    let c =
      collect-Collects n bs r.1 v.1 (t.target_valid, t.target_capacity ∙ w.1)
        (omega (arith, t.target_next)) in
    record {
      gathered = λ x. omega (
        arith,
        c.gathered x,
        ap (count x) t.appended,
        total-append (λ y. if x == y then 1 else 0) (contents f) (contents b),
      );
      grown = omega (arith, c.grown, t.target_next);
      valid = ((t.source_valid, t.source_capacity ∙ v.0.1), c.valid);
      drained = (t.source_next, c.drained);
      roomy = c.roomy;
      slots = ap suc c.slots;
    }

-- What a round makes of the flags and the frontier.
pub record Advances (g : Graph) (n : ℕ) (s s' : PushState) : Type 0 where
  pub kept : (x : ℕ) → get_or s.shared.visited x 0 ≡ 1 → get_or s'.shared.visited x 0 ≡ 1
  pub sound :
      (x : ℕ)
      → get_or s'.shared.visited x 0 ≡ 1
      → (get_or s.shared.visited x 0 ≡ 1)
        ⊎ ((u : ℕ) × (0 < count u (contents s.frontier)) × IsEdge g u x)
  pub full :
      (u x : ℕ)
      → 0 < count u (contents s.frontier)
      → IsEdge g u x
      → get_or s'.shared.visited x 0 ≡ 1
  pub fresh :
      (x : ℕ)
      → count x (contents s'.frontier) + get_or s.shared.visited x 0 ≡ get_or s'.shared.visited x 0
  pub work : s'.frontier.next + count 0 s'.shared.visited ≡ count 0 s.shared.visited

-- A task that has ended has covered the row of its node.
IsCovered-of_Ended :
    (g : Graph) (n threads : ℕ) (v0 frontier visited : List ℕ) (ts : List Explore)
    → All (Exploring g n threads v0 frontier visited) ts
    → All Ended ts
    → (u : ℕ) → 0 < count u (map source ts)
    → IsCovered g u (get_or g.out_edge_offsets (u + 1) 0) visited
IsCovered-of_Ended g n threads v0 frontier visited [] b e u h = absurd (omega arith)
IsCovered-of_Ended g n threads v0 frontier visited (scan c ∷ ts) b e u h = absurd (omega arith)
IsCovered-of_Ended g n threads v0 frontier visited (claim c dst ∷ ts) b e u h = absurd (omega arith)
IsCovered-of_Ended g n threads v0 frontier visited (won c dst ∷ ts) b e u h = absurd (omega arith)
IsCovered-of_Ended g n threads v0 frontier visited (stored c dst ∷ ts) b e u h =
    absurd (omega arith)
IsCovered-of_Ended g n threads v0 frontier visited (explored c ∷ ts) b e u h =
    elim (ℕ_discrete u c.src) [
      | yes same ↦ λ p le lt.
          b.0.0.covered p (rw (← same) le)
            (omega (arith, b.0.0.high, b.0.1, ap (λ v. get_or g.out_edge_offsets (v + 1) 0) same))
      | no other ↦ IsCovered-of_Ended g n threads v0 frontier visited ts b.1 e.1 u (ground arith)
    ]

Ended-weightless :
    (w : Explore → ℕ)
    → ((t : Explore) → Ended t → w t ≡ 0)
    → (ts : List Explore) → All Ended ts
    → total w ts ≡ 0
Ended-weightless w z ts e = total-eq-zero w ts (All-map Ended (λ t. w t ≡ 0) z ts e)

winning-Ended : (x : ℕ) (t : Explore) → Ended t → winning x t ≡ 0
winning-Ended x (scan c) e = refl
winning-Ended x (claim c dst) e = refl
winning-Ended x (won c dst) e = absurd (omega arith)
winning-Ended x (stored c dst) e = absurd (omega arith)
winning-Ended x (explored c) e = refl

winners-Ended : (t : Explore) → Ended t → winners t ≡ 0
winners-Ended (scan c) e = refl
winners-Ended (claim c dst) e = refl
winners-Ended (won c dst) e = absurd (omega arith)
winners-Ended (stored c dst) e = absurd (omega arith)
winners-Ended (explored c) e = refl

module _ (g : Graph) (n threads : ℕ) (round : Round) (s : PushState) (targets : HasTargets n g)
    (ok : IsBetween n threads s.frontier s.shared) (sound : IsSound threads round) where
  open s use {frontier, shared}

  abbrev m : Shared
  m = (looped g n threads round frontier shared targets ok sound).1

  level :
      Level g n threads shared.visited
        (starts ok.roomy sound)
        (all_runs (looped g n threads round frontier shared targets ok sound).0)
        m
  level = Level-end g n threads round frontier shared targets ok sound

  ended : All Ended (all_runs (looped g n threads round frontier shared targets ok sound).0)
  ended = looped-Ended g n threads round frontier shared targets ok sound

  no_winning :
      (x : ℕ)
      → total (winning x) (all_runs (looped g n threads round frontier shared targets ok sound).0)
        ≡ 0
  no_winning x = Ended-weightless (winning x) (winning-Ended x) _ ended

  no_winners :
      total winners (all_runs (looped g n threads round frontier shared targets ok sound).0) ≡ 0
  no_winners = Ended-weightless winners winners-Ended _ ended

  collected : Collects n m.buffers (clear frontier) (collect m.buffers (clear frontier))
  unfolding clear
  collected =
      collect-Collects n m.buffers (clear frontier) level.valid
        (omega (arith, ok.roomy.0.cells, ok.roomy.0.small), ok.roomy.1)
        (omega (arith, level.room, no_winners, ok.size, count-le-length 0 shared.visited))

  -- A round visits the targets of the frontier's nodes and no others, each new node once in the next
  -- frontier, whatever the threads' shares and the interleaving.
  pub push_round-Advances : Advances g n s (push_round g threads round s)
  unfolding push_round clear
  push_round-Advances = record {
    kept = λ x e. omega (arith, level.bits x);
    sound = λ x e. elim (level.sound x e) [
      | inl before ↦ inl before
      | inr (u, listed, node, edge) ↦ inr (u, starts-listed ok.roomy sound u listed, edge)
    ];
    full = λ u x listed edge. rw (← edge.3) (
        IsCovered-of_Ended g n threads shared.visited (starts ok.roomy sound) m.visited _
          level.exploring ended u (rw level.sources (listed-starts ok.roomy sound u listed)) edge.0
          edge.1 edge.2);
    fresh = λ x. omega (arith, collected.gathered x, level.conserved x, no_winning x);
    work = omega (arith, collected.grown, level.room, no_winners);
  }

  -- The state after a round is one that the next round can start in.
  pub push_round-IsBetween :
      IsBetween n threads
        (push_round g threads round s).frontier
        (push_round g threads round s).shared
  unfolding push_round clear
  push_round-IsBetween = record {
    some_thread = ok.some_thread;
    roomy = collected.roomy;
    size = level.size;
    bits = λ x. (level.bits x).1;
    valid = collected.valid;
    slots = collected.slots ∙ level.slots;
    drained = collected.drained;
    seen =
        λ x h. omega (arith, collected.gathered x, level.conserved x, no_winning x, level.bits x);
  }
