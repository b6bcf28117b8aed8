-- ===== src/Bfs/PushPull/Claims.antt =====
-- The compare-and-swap of the push phase, won or lost, keeps the invariant, and so does every step.
use graph_benchmark.Base.{
  ℕ, ◌+◌, ◌≡◌, ◌≢◌, ◌<◌, ◌≤◌, refl, sym, ◌∙◌, ◌⊎◌, inl, inr, List, ◌∷◌, ◌++◌, arith, get_or, set,
  total, total-replace, length-set, get_or-set_self, get_or-set_ne, All-map, All-append, All-split,
  count, count-set, ℕ_discrete, ltb, ltb→lt, ◌==◌, ==_iff, Bool-cases,
}
use graph_benchmark.Graph.{Graph}
use graph_benchmark.Parallel.{Keeps}
use graph_benchmark.Bfs.{IsEdge, HasTargets}
use graph_benchmark.Bfs.PushPull.{
  Cursor, Visit, scan, won, report, account, visited_all, Shared, visit_step,
}
use graph_benchmark.Bfs.PushPull.Level.{winning, winners, sources-replace}
use graph_benchmark.Bfs.PushPull.Steps.{
  On, Busy, Inv, On-IsEdge, stop-Level, report-Level, account-Level, seen-Level, push_back-Level,
}

module _ (g : Graph) (n : ℕ) (v0 frontier : List ℕ) (pre post : List Visit) (m : Shared)
    (targets : HasTargets n g) (c : Cursor) (go : c.beg < c.end)
    (f : Inv g n v0 frontier (pre ++ scan c ∷ post) m) where
  abbrev dst : ℕ
  dst = get_or g.out_edges c.beg 0

  here : On g n v0 frontier m.visited c
  here = (All-split (Busy g n v0 frontier m.visited) pre (scan c ∷ post) f.visiting).1.0

  edge : IsEdge g c.src dst
  edge = On-IsEdge g n v0 frontier m.visited c dst here (go, refl)

  dst_lt : dst < n
  dst_lt = targets c.src dst here.node edge

  abbrev visited' : List ℕ
  visited' = set m.visited dst 1

  set_self : get_or visited' dst 0 ≡ 1
  set_self = get_or-set_self m.visited dst 1 0 (omega (arith, f.size, dst_lt))

  set_other : (x : ℕ) → x ≢ dst → get_or visited' x 0 ≡ get_or m.visited x 0
  set_other x ne = get_or-set_ne m.visited dst x 1 0 (λ e. ne (sym e))

  -- No flag is cleared.
  grown : (x : ℕ) → get_or m.visited x 0 ≡ 1 → get_or visited' x 0 ≡ 1
  grown x e = elim (ℕ_discrete x dst) [
    | yes same ↦ rw same set_self
    | no other ↦ set_other x other ∙ e
  ]

  On-grown : (d : Cursor) → On g n v0 frontier m.visited d → On g n v0 frontier visited' d
  On-grown d on = record {
    node = on.node;
    low = on.low;
    high = on.high;
    listed = on.listed;
    covered = λ p le lt. grown (get_or g.out_edges p 0) (on.covered p le lt);
  }

  Busy-grown : (t : Visit) → Busy g n v0 frontier m.visited t → Busy g n v0 frontier visited' t
  Busy-grown (scan d) b = On-grown d b
  Busy-grown (won d x) b = (On-grown d b.0, b.1, grown x b.2)
  Busy-grown (report d) b = (On-grown d b.0, b.1)
  Busy-grown (account d) b = (On-grown d b.0, b.1)
  Busy-grown (visited_all d) b = (On-grown d b.0, b.1)

  module _ (free : get_or m.visited dst 0 ≡ 0) where
    claim_bits : (x : ℕ) → (get_or v0 x 0 ≤ get_or visited' x 0) × (get_or visited' x 0 ≤ 1)
    claim_bits x = elim (ℕ_discrete x dst) [
      | yes same ↦ rw same (omega (arith, set_self, f.bits dst))
      | no other ↦ omega (arith, set_other x other, f.bits x)
    ]

    claim_fresh :
        (x : ℕ)
        → get_or visited' x 0 ≡ 1
        → (get_or v0 x 0 ≡ 1)
          ⊎ (0 < count x m.frontier_next + total (winning x) (pre ++ won c dst ∷ post))
    claim_fresh x e = elim (ℕ_discrete x dst) [
      | yes same ↦
          inr (rw same (ground (arith, total-replace (winning dst) pre (scan c) (won c dst) post)))
      | no other ↦ elim (f.fresh x (sym (set_other x other) ∙ e)) [
        | inl o ↦ inl o
        | inr p ↦ inr (ground (arith, p, total-replace (winning x) pre (scan c) (won c dst) post))
      ]
    ]

    claim_sound :
        (x : ℕ)
        → get_or visited' x 0 ≡ 1
        → (get_or v0 x 0 ≡ 1) ⊎ ((u : ℕ) × (0 < count u frontier) × (u < n) × IsEdge g u x)
    claim_sound x e = elim (ℕ_discrete x dst) [
      | yes same ↦ rw same (inr (c.src, here.listed, here.node, edge))
      | no other ↦ f.sound x (sym (set_other x other) ∙ e)
    ]

    -- The successful compare-and-swap.
    pub claim-Level :
        Inv g n v0 frontier (pre ++ won c dst ∷ post) (record m { visited = visited' })
    claim-Level =
        let (before, rest) =
          All-split (Busy g n v0 frontier m.visited) pre (scan c ∷ post) f.visiting in
        record {
          size = length-set m.visited dst 1 ∙ f.size;
          bits = claim_bits;
          room = omega (
            arith,
            f.room,
            count-set 0 1 m.visited dst 0 (omega (arith, f.size, dst_lt)) free (omega arith),
            total-replace winners pre (scan c) (won c dst) post,
          );
          listed = λ x h. grown x (f.listed x h);
          fresh = claim_fresh;
          sound = claim_sound;
          visiting =
              All-append (Busy g n v0 frontier visited') pre (won c dst ∷ post)
                (All-map (Busy g n v0 frontier m.visited) (Busy g n v0 frontier visited') Busy-grown
                  pre before)
                (
                  (On-grown c here, (go, refl), set_self),
                  All-map (Busy g n v0 frontier m.visited) (Busy g n v0 frontier visited')
                      Busy-grown post rest.1,
                );
          sources = sources-replace g n v0 frontier pre post (scan c) (won c dst) refl f.sources;
        }

module _ (g : Graph) (n : ℕ) (v0 frontier : List ℕ) (targets : HasTargets n g) where
  pub Level-keep : Keeps (visit_step g) (Inv g n v0 frontier)
  unfolding visit_step
  Level-keep pre (scan c) post m f = elim (Bool-cases (ltb c.beg c.end)) [
    | inr stop ↦ rw stop (stop-Level g n v0 frontier pre post m c (ground arith) f)
    | inl go ↦ elim (Bool-cases (get_or m.visited (get_or g.out_edges c.beg 0) 0 == 0)) [
      | inl new ↦
          rw (go, new)
            (claim-Level g n v0 frontier pre post m targets c (ltb→lt _ _ go) f
              ((==_iff _ 0).0 new))
      | inr old ↦
          rw (go, old) (seen-Level g n v0 frontier pre post m c (ltb→lt _ _ go) (ground arith) f)
    ]
  ]
  Level-keep pre (won c dst) post m f = push_back-Level g n v0 frontier pre post m c dst _ f
  Level-keep pre (report c) post m f = report-Level g n v0 frontier pre post m c f
  Level-keep pre (account c) post m f = account-Level g n v0 frontier pre post m c f
  Level-keep pre (visited_all c) post m f = f
