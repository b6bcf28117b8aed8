-- ===== src/Bfs/Push/Level.antt =====
-- The invariant of the parallel loop of `bfs_push`, and the steps that only read.
use graph_benchmark.Base.{
  ℕ, ◌+◌, ◌≡◌, ◌<◌, ◌≤◌, sym, ap, ◌∙◌, ◌⊎◌, List, ◌∷◌, ◌++◌, map, arith, get_or, length, total,
  total-replace, All, All-append, All-split, count, if◌then◌else◌, ◌==◌,
}
use mathlib.Core.List.{map-append}
use graph_benchmark.Graph.{Graph}
use graph_benchmark.Bfs.{IsEdge}
use graph_benchmark.Buffer.{ThreadBuffer, contents}
use graph_benchmark.Buffer.Laws.{IsBuffer}
use graph_benchmark.Bfs.Push.{Cursor, Explore, scan, claim, won, stored, explored, Shared}

-- A node that a task has won and not pushed yet.
abbrev pub winning : ℕ → Explore → ℕ
winning x (won c dst) = if x == dst then 1 else 0
winning x (stored c dst) = if x == dst then 1 else 0
winning x (scan c) = 0
winning x (claim c dst) = 0
winning x (explored c) = 0

abbrev pub winners : Explore → ℕ
winners (won c dst) = 1
winners (stored c dst) = 1
winners (scan c) = 0
winners (claim c dst) = 0
winners (explored c) = 0

abbrev pub cursor_of : Explore → Cursor
cursor_of (scan c) = c
cursor_of (claim c dst) = c
cursor_of (won c dst) = c
cursor_of (stored c dst) = c
cursor_of (explored c) = c

abbrev pub source : Explore → ℕ
source t = (cursor_of t).src

abbrev pub held : ℕ → List ThreadBuffer → ℕ
held x = total (λ (b : ThreadBuffer). count x (contents b))

abbrev pub pushed : List ThreadBuffer → ℕ
pushed = total (λ (b : ThreadBuffer). b.next)

abbrev pub IsRoomy : ℕ → ThreadBuffer → Type 0
IsRoomy n b = IsBuffer b × (b.capacity ≡ n)

-- All cells of the row of `u` before cell `p` hold visited nodes.
abbrev pub IsCovered : Graph → ℕ → ℕ → List ℕ → Type 0
IsCovered g u end visited =
    (p : ℕ)
    → get_or g.out_edge_offsets u 0 ≤ p
    → p < end
    → get_or visited (get_or g.out_edges p 0) 0 ≡ 1

-- The node at hand is the target of the cell at hand.
abbrev pub IsAt : Graph → Cursor → ℕ → Type 0
IsAt g c dst = (c.beg < c.end) × (dst ≡ get_or g.out_edges c.beg 0)

-- `n` nodes, `v0` the flags at the start of the round, and `frontier` the nodes that its runs start from.
module _ (g : Graph) (n threads : ℕ) (v0 frontier : List ℕ) where
  pub record IsOn (visited : List ℕ) (c : Cursor) : Type 0 where
    pub slot : c.slot < threads
    pub node : c.src < n
    pub listed : 0 < count c.src frontier
    pub low : get_or g.out_edge_offsets c.src 0 ≤ c.beg
    pub high : c.end ≡ get_or g.out_edge_offsets (c.src + 1) 0
    pub covered : IsCovered g c.src c.beg visited

  abbrev pub Exploring : List ℕ → Explore → Type 0
  Exploring visited (scan c) = IsOn visited c
  Exploring visited (claim c dst) = IsOn visited c × IsAt g c dst
  Exploring visited (won c dst) = IsOn visited c × IsAt g c dst × (get_or visited dst 0 ≡ 1)
  Exploring visited (stored c dst) = IsOn visited c × IsAt g c dst × (get_or visited dst 0 ≡ 1)
  Exploring visited (explored c) = IsOn visited c × (c.end ≤ c.beg)

  pub record Level (ts : List Explore) (m : Shared) : Type 0 where
    pub size : length m.visited ≡ n
    pub bits : (x : ℕ) → (get_or v0 x 0 ≤ get_or m.visited x 0) × (get_or m.visited x 0 ≤ 1)
    pub conserved :
        (x : ℕ) → held x m.buffers + total (winning x) ts + get_or v0 x 0 ≡ get_or m.visited x 0
    pub room : pushed m.buffers + total winners ts + count 0 m.visited ≡ count 0 v0
    pub valid : All (IsRoomy n) m.buffers
    pub slots : length m.buffers ≡ threads
    pub sound :
        (x : ℕ)
        → get_or m.visited x 0 ≡ 1
        → (get_or v0 x 0 ≡ 1) ⊎ ((u : ℕ) × (0 < count u frontier) × (u < n) × IsEdge g u x)
    pub exploring : All (Exploring m.visited) ts
    pub sources : map source ts ≡ frontier

  module _ (pre post : List Explore) (t t' : Explore) (same : source t' ≡ source t) where
    pub sources-replace :
        map source (pre ++ t ∷ post) ≡ frontier → map source (pre ++ t' ∷ post) ≡ frontier
    sources-replace e =
        map-append source pre (t' ∷ post)
        ∙ ap (λ s. map source pre ++ s ∷ map source post) same
        ∙ sym (map-append source pre (t ∷ post))
        ∙ e

    -- A step that changes nothing but its task's position.
    pub Level-move :
        (m : Shared)
        → Level (pre ++ t ∷ post) m
        → ((x : ℕ) → winning x t' ≡ winning x t)
        → winners t' ≡ winners t
        → (Exploring m.visited t → Exploring m.visited t')
        → Level (pre ++ t' ∷ post) m
    Level-move m f w k ok =
        let (before, rest) = All-split (Exploring m.visited) pre (t ∷ post) f.exploring in
        record {
          size = f.size;
          bits = f.bits;
          conserved =
              λ x. omega (arith, f.conserved x, w x, total-replace (winning x) pre t t' post);
          room = omega (arith, f.room, k, total-replace winners pre t t' post);
          valid = f.valid;
          slots = f.slots;
          sound = f.sound;
          exploring = All-append (Exploring m.visited) pre (t' ∷ post) before (ok rest.0, rest.1);
          sources = sources-replace f.sources;
        }
