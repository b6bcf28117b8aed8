-- ===== src/Bfs/Push/Claims.antt =====
-- The compare-and-swap of `bfs_push`, won or lost, keeps the invariant of the parallel loop.
use graph_benchmark.Base.{
  ℕ, ◌+◌, ◌≡◌, ◌≢◌, ◌<◌, ◌≤◌, refl, sym, ◌∙◌, ◌⊎◌, inr, List, ◌∷◌, ◌++◌, arith, get_or, set, total,
  total-replace, length-set, get_or-set_self, get_or-set_ne, All-map, All-append, All-split, count,
  count-set, ℕ_discrete,
}
use graph_benchmark.Graph.{Graph}
use graph_benchmark.Bfs.{IsEdge, HasTargets}
use graph_benchmark.Bfs.Push.{
  Cursor, Explore, scan, claim, won, stored, explored, Shared, next_edge,
}
use graph_benchmark.Bfs.Push.Level.{winning, winners, held, Level-move, sources-replace}
use graph_benchmark.Bfs.Push.Steps.{On, Busy, Inv, On-next, On-IsEdge}

module _ (g : Graph) (n threads : ℕ) (v0 frontier : List ℕ) (pre post : List Explore) (m : Shared)
    (targets : HasTargets n g) (c : Cursor) (dst : ℕ)
    (f : Inv g n threads v0 frontier (pre ++ claim c dst ∷ post) m) where
  here : Busy g n threads v0 frontier m.visited (claim c dst)
  here =
      (All-split (Busy g n threads v0 frontier m.visited) pre (claim c dst ∷ post) f.exploring).1.0

  dst_lt : dst < n
  dst_lt =
      targets c.src dst here.0.node
        (On-IsEdge g n threads v0 frontier m.visited c dst here.0 here.1)

  abbrev visited' : List ℕ
  visited' = set m.visited dst 1

  set_self : get_or visited' dst 0 ≡ 1
  set_self = get_or-set_self m.visited dst 1 0 (omega (arith, f.size, dst_lt))

  set_other : (x : ℕ) → x ≢ dst → get_or visited' x 0 ≡ get_or m.visited x 0
  set_other x ne = get_or-set_ne m.visited dst x 1 0 (λ e. ne (sym e))

  -- No flag is cleared.
  grown : (x : ℕ) → get_or m.visited x 0 ≡ 1 → get_or visited' x 0 ≡ 1
  grown x e = elim (ℕ_discrete x dst) [
    | yes same ↦ rw same set_self
    | no other ↦ set_other x other ∙ e
  ]

  On-grown :
      (d : Cursor) → On g n threads v0 frontier m.visited d → On g n threads v0 frontier visited' d
  On-grown d on = record {
    slot = on.slot;
    node = on.node;
    listed = on.listed;
    low = on.low;
    high = on.high;
    covered = λ p le lt. grown (get_or g.out_edges p 0) (on.covered p le lt);
  }

  Busy-grown :
      (t : Explore)
      → Busy g n threads v0 frontier m.visited t
      → Busy g n threads v0 frontier visited' t
  Busy-grown (scan d) b = On-grown d b
  Busy-grown (claim d x) b = (On-grown d b.0, b.1)
  Busy-grown (won d x) b = (On-grown d b.0, b.1, grown x b.2)
  Busy-grown (stored d x) b = (On-grown d b.0, b.1, grown x b.2)
  Busy-grown (explored d) b = (On-grown d b.0, b.1)

  module _ (free : get_or m.visited dst 0 ≡ 0) where
    claim_conserved :
        (x : ℕ)
        → held x m.buffers + total (winning x) (pre ++ won c dst ∷ post) + get_or v0 x 0
          ≡ get_or visited' x 0
    claim_conserved x = elim (ℕ_discrete x dst) [
      | yes same ↦ rw same (
          ground (
            arith,
            set_self,
            f.conserved dst,
            free,
            total-replace (winning dst) pre (claim c dst) (won c dst) post,
          ))
      | no other ↦ ground (
        arith,
        set_other x other,
        f.conserved x,
        total-replace (winning x) pre (claim c dst) (won c dst) post,
      )
    ]

    claim_bits : (x : ℕ) → (get_or v0 x 0 ≤ get_or visited' x 0) × (get_or visited' x 0 ≤ 1)
    claim_bits x = elim (ℕ_discrete x dst) [
      | yes same ↦ rw same (omega (arith, set_self, f.bits dst))
      | no other ↦ omega (arith, set_other x other, f.bits x)
    ]

    claim_sound :
        (x : ℕ)
        → get_or visited' x 0 ≡ 1
        → (get_or v0 x 0 ≡ 1) ⊎ ((u : ℕ) × (0 < count u frontier) × (u < n) × IsEdge g u x)
    claim_sound x e = elim (ℕ_discrete x dst) [
      | yes same ↦ rw same (
          inr (
            c.src,
            here.0.listed,
            here.0.node,
            On-IsEdge g n threads v0 frontier m.visited c dst here.0 here.1,
          ))
      | no other ↦ f.sound x (sym (set_other x other) ∙ e)
    ]

    -- The successful compare-and-swap.
    pub claim-Level :
        Inv g n threads v0 frontier (pre ++ won c dst ∷ post) (record m { visited = visited' })
    claim-Level =
        let (before, rest) =
          All-split (Busy g n threads v0 frontier m.visited) pre (claim c dst ∷ post) f.exploring in
        record {
          size = length-set m.visited dst 1 ∙ f.size;
          bits = claim_bits;
          conserved = claim_conserved;
          room = omega (
            arith,
            f.room,
            count-set 0 1 m.visited dst 0 (omega (arith, f.size, dst_lt)) free (omega arith),
            total-replace winners pre (claim c dst) (won c dst) post,
          );
          valid = f.valid;
          slots = f.slots;
          sound = claim_sound;
          exploring =
              All-append (Busy g n threads v0 frontier visited') pre (won c dst ∷ post)
                (All-map (Busy g n threads v0 frontier m.visited)
                  (Busy g n threads v0 frontier visited') Busy-grown pre before)
                (
                  (On-grown c here.0, here.1, set_self),
                  All-map (Busy g n threads v0 frontier m.visited)
                      (Busy g n threads v0 frontier visited') Busy-grown post rest.1,
                );
          sources =
              sources-replace g n threads v0 frontier pre post (claim c dst) (won c dst) refl
                f.sources;
        }

  -- The failed compare-and-swap: another task has won the node.
  pub lost-Level :
      get_or m.visited dst 0 ≢ 0 → Inv g n threads v0 frontier (pre ++ scan (next_edge c) ∷ post) m
  lost-Level taken =
      Level-move g n threads v0 frontier pre post (claim c dst) (scan (next_edge c)) refl m f
        (λ x. refl) refl
        (λ b.
          On-next g n threads v0 frontier m.visited c b.0 b.1.0
            (rw (← b.1.1) (omega (arith, taken, f.bits dst))))
