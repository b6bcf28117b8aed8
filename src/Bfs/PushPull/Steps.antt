-- ===== src/Bfs/PushPull/Steps.antt =====
-- The steps of the push phase that win no node keep the invariant of its parallel loop.
use graph_benchmark.Base.{
  ℕ, ◌+◌, ◌≡◌, ◌<◌, ◌≤◌, ◌≢◌, inl, inr, refl, sym, List, [], ◌∷◌, ◌++◌, arith, get_or, total-append,
  total-replace, All-append, All-split, count, if◌then◌else◌, ◌==◌, ℕ_discrete, length-append,
}
use graph_benchmark.Graph.{Graph}
use graph_benchmark.Bfs.{IsEdge}
use graph_benchmark.Bfs.PushPull.{
  Cursor, Visit, scan, won, report, account, visited_all, Shared, next_edge,
}
use graph_benchmark.Bfs.PushPull.Level.{
  winning, winners, IsOn, IsAt, Visiting, Level, Level-move, sources-replace,
}

module _ (g : Graph) (n : ℕ) (v0 frontier : List ℕ) where
  abbrev pub On : List ℕ → Cursor → Type 0
  On = IsOn g n v0 frontier

  abbrev pub Busy : List ℕ → Visit → Type 0
  Busy = Visiting g n v0 frontier

  abbrev pub Inv : List Visit → Shared → Type 0
  Inv ts m = Level g n v0 frontier ts m.visited m.frontier_next

  -- A cell whose node is visited is done with, whatever the counters.
  pub On-next :
      (visited : List ℕ) (c : Cursor) (edges : ℕ)
      → On visited c
      → c.beg < c.end
      → get_or visited (get_or g.out_edges c.beg 0) 0 ≡ 1
      → On visited (record (next_edge c) { local_edges = edges })
  On-next visited c edges on lt seen = record {
    node = on.node;
    low = omega (arith, on.low);
    high = on.high;
    listed = on.listed;
    covered = λ p le less. elim (ℕ_discrete p c.beg) [
      | yes e ↦ rw e seen
      | no ne ↦ on.covered p le (omega arith)
    ];
  }

  pub On-IsEdge :
      (visited : List ℕ) (c : Cursor) (dst : ℕ) → On visited c → IsAt g c dst → IsEdge g c.src dst
  On-IsEdge visited c dst on here = (c.beg, on.low, omega (arith, on.high, here.0), sym here.1)

  module _ (pre post : List Visit) (m : Shared) where
    -- At the end of the row.
    pub stop-Level :
        (c : Cursor) → c.end ≤ c.beg → Inv (pre ++ scan c ∷ post) m → Inv (pre ++ report c ∷ post) m
    stop-Level c stop f =
        Level-move g n v0 frontier pre post (scan c) (report c) refl m.visited m.frontier_next f
          (λ x. refl) refl (λ on. (on, stop))

    pub report-Level :
        (c : Cursor) → Inv (pre ++ report c ∷ post) m → Inv (pre ++ account c ∷ post) m
    report-Level c f =
        Level-move g n v0 frontier pre post (report c) (account c) refl m.visited m.frontier_next f
          (λ x. refl) refl (λ on. on)

    pub account-Level :
        (c : Cursor) → Inv (pre ++ account c ∷ post) m → Inv (pre ++ visited_all c ∷ post) m
    account-Level c f =
        Level-move g n v0 frontier pre post (account c) (visited_all c) refl m.visited
          m.frontier_next f (λ x. refl) refl (λ on. on)

    -- The node of the cell is visited already.
    pub seen-Level :
        (c : Cursor)
        → c.beg < c.end
        → get_or m.visited (get_or g.out_edges c.beg 0) 0 ≢ 0
        → Inv (pre ++ scan c ∷ post) m
        → Inv (pre ++ scan (next_edge c) ∷ post) m
    seen-Level c go taken f =
        Level-move g n v0 frontier pre post (scan c) (scan (next_edge c)) refl m.visited
          m.frontier_next f (λ x. refl) refl
          (λ on.
            On-next m.visited c c.local_edges on go
              (omega (arith, taken, f.bits (get_or g.out_edges c.beg 0))))

    module _ (c : Cursor) (dst edges : ℕ) (f : Inv (pre ++ won c dst ∷ post) m) where
      mine : Busy m.visited (won c dst)
      mine = (All-split (Busy m.visited) pre (won c dst ∷ post) f.visiting).1.0

      abbrev next' : List ℕ
      next' = m.frontier_next ++ dst ∷ []

      count-next : (x : ℕ) → count x next' ≡ count x m.frontier_next + count x (dst ∷ [])
      count-next x = total-append (λ y. if x == y then 1 else 0) m.frontier_next (dst ∷ [])

      next_listed : (x : ℕ) → 0 < count x next' → get_or m.visited x 0 ≡ 1
      next_listed x h = elim (ℕ_discrete x dst) [
        | yes same ↦ rw same mine.2
        | no other ↦ f.listed x (ground (arith, count-next x))
      ]

      -- The `push_back` of a won node.
      pub push_back-Level :
          Inv
            (pre ++ scan (record (next_edge c) { local_edges = edges }) ∷ post)
            (record m { frontier_next = next' })
      push_back-Level =
          let (before, rest) = All-split (Busy m.visited) pre (won c dst ∷ post) f.visiting in
          let moved : Visit = scan (record (next_edge c) { local_edges = edges }) in
          record {
            size = f.size;
            bits = f.bits;
            room = omega (
              arith,
              f.room,
              length-append m.frontier_next (dst ∷ []),
              total-replace winners pre (won c dst) moved post,
            );
            listed = next_listed;
            fresh = λ x e. elim (f.fresh x e) [
              | inl o ↦ inl o
              | inr p ↦ inr (
                  ground
                    (arith, p, count-next x, total-replace (winning x) pre (won c dst) moved post))
            ];
            sound = f.sound;
            visiting =
                All-append (Busy m.visited) pre (moved ∷ post) before
                  (On-next m.visited c edges mine.0 mine.1.0 (rw (← mine.1.1) mine.2), rest.1);
            sources = sources-replace g n v0 frontier pre post (won c dst) moved refl f.sources;
          }
