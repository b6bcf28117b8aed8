-- ===== src/Bfs/Push/Steps.antt =====
-- The test of `visited[dst]` in `bfs_push` keeps the invariant of the parallel loop.
use graph_benchmark.Base.{
  ℕ, ◌≡◌, ◌<◌, refl, sym, inl, inr, List, ◌∷◌, ◌++◌, arith, get_or, Bool-cases, ltb, ltb→lt, ◌==◌,
  ℕ_discrete,
}
use graph_benchmark.Graph.{Graph}
use graph_benchmark.Bfs.{IsEdge}
use graph_benchmark.Bfs.Push.{
  Cursor, Explore, scan, claim, explored, Shared, next_edge, explore_step,
}
use graph_benchmark.Bfs.Push.Level.{IsOn, IsAt, Exploring, Level, Level-move}

module _ (g : Graph) (n threads : ℕ) (v0 frontier : List ℕ) where
  abbrev pub On : List ℕ → Cursor → Type 0
  On = IsOn g n threads v0 frontier

  abbrev pub Busy : List ℕ → Explore → Type 0
  Busy = Exploring g n threads v0 frontier

  abbrev pub Inv : List Explore → Shared → Type 0
  Inv = Level g n threads v0 frontier

  -- A cell whose node is visited is done with.
  pub On-next :
      (visited : List ℕ) (c : Cursor)
      → On visited c
      → c.beg < c.end
      → get_or visited (get_or g.out_edges c.beg 0) 0 ≡ 1
      → On visited (next_edge c)
  On-next visited c on lt seen = record {
    slot = on.slot;
    node = on.node;
    listed = on.listed;
    low = omega (arith, on.low);
    high = on.high;
    covered = λ p le less. elim (ℕ_discrete p c.beg) [
      | yes e ↦ rw e seen
      | no ne ↦ on.covered p le (omega arith)
    ];
  }

  pub On-IsEdge :
      (visited : List ℕ) (c : Cursor) (dst : ℕ) → On visited c → IsAt g c dst → IsEdge g c.src dst
  On-IsEdge visited c dst on here = (c.beg, on.low, omega (arith, on.high, here.0), sym here.1)

  module _ (pre post : List Explore) (m : Shared) where
    pub scan-Level :
        (c : Cursor)
        → Inv (pre ++ scan c ∷ post) m
        → Inv (pre ++ (explore_step g (scan c) m).0 ∷ post) m
    unfolding explore_step
    scan-Level c f = elim (Bool-cases (ltb c.beg c.end)) [
      | inr stop ↦ rw stop (
          Level-move g n threads v0 frontier pre post (scan c) (explored c) refl m f (λ x. refl)
            refl (λ on. (on, ground arith)))
      | inl go ↦ elim (Bool-cases (get_or m.visited dst 0 == 0)) [
        | inl new ↦
            rw (go, new)
              (Level-move g n threads v0 frontier pre post (scan c) (claim c dst) refl m f
                (λ x. refl) refl (λ on. (on, (ltb→lt _ _ go, refl))))
        | inr old ↦
            rw (go, old)
              (Level-move g n threads v0 frontier pre post (scan c) (scan (next_edge c)) refl m f
                (λ x. refl) refl
                (λ on. On-next m.visited c on (ltb→lt _ _ go) (ground (arith, f.bits dst))))
      ]
    ]
      where
        dst : ℕ
        dst = get_or g.out_edges c.beg 0
