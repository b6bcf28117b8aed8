-- ===== src/Bfs/PushPull/Level.antt =====
-- The invariant of the parallel loop of the push phase, and the steps that change no array.
use graph_benchmark.Base.{
  ℕ, ◌+◌, ◌≡◌, ◌<◌, ◌≤◌, sym, ap, ◌∙◌, ◌⊎◌, inl, inr, List, ◌∷◌, ◌++◌, map, arith, get_or, length,
  total, total-replace, All, All-append, All-split, count, if◌then◌else◌, ◌==◌,
}
use mathlib.Core.List.{map-append}
use graph_benchmark.Graph.{Graph}
use graph_benchmark.Bfs.{IsEdge}
use graph_benchmark.Bfs.Push.Level.{IsCovered}
use graph_benchmark.Bfs.PushPull.{Cursor, Visit, scan, won, report, account, visited_all}

-- A node that a task has won and not listed yet.
abbrev pub winning : ℕ → Visit → ℕ
winning x (won c dst) = if x == dst then 1 else 0
winning x (scan c) = 0
winning x (report c) = 0
winning x (account c) = 0
winning x (visited_all c) = 0

abbrev pub winners : Visit → ℕ
winners (won c dst) = 1
winners (scan c) = 0
winners (report c) = 0
winners (account c) = 0
winners (visited_all c) = 0

abbrev pub cursor_of : Visit → Cursor
cursor_of (scan c) = c
cursor_of (won c dst) = c
cursor_of (report c) = c
cursor_of (account c) = c
cursor_of (visited_all c) = c

abbrev pub source : Visit → ℕ
source t = (cursor_of t).src

-- The node at hand is the target of the cell at hand.
abbrev pub IsAt : Graph → Cursor → ℕ → Type 0
IsAt g c dst = (c.beg < c.end) × (dst ≡ get_or g.out_edges c.beg 0)

-- `n` nodes, `v0` the flags and `frontier` the nodes at the start of the round.
module _ (g : Graph) (n : ℕ) (v0 frontier : List ℕ) where
  pub record IsOn (visited : List ℕ) (c : Cursor) : Type 0 where
    pub node : c.src < n
    pub low : get_or g.out_edge_offsets c.src 0 ≤ c.beg
    pub high : c.end ≡ get_or g.out_edge_offsets (c.src + 1) 0
    pub listed : 0 < count c.src frontier
    pub covered : IsCovered g c.src c.beg visited

  abbrev pub Visiting : List ℕ → Visit → Type 0
  Visiting visited (scan c) = IsOn visited c
  Visiting visited (won c dst) = IsOn visited c × IsAt g c dst × (get_or visited dst 0 ≡ 1)
  Visiting visited (report c) = IsOn visited c × (c.end ≤ c.beg)
  Visiting visited (account c) = IsOn visited c × (c.end ≤ c.beg)
  Visiting visited (visited_all c) = IsOn visited c × (c.end ≤ c.beg)

  pub record Level (ts : List Visit) (visited next : List ℕ) : Type 0 where
    pub size : length visited ≡ n
    pub bits : (x : ℕ) → (get_or v0 x 0 ≤ get_or visited x 0) × (get_or visited x 0 ≤ 1)
    pub room : length next + total winners ts + count 0 visited ≡ count 0 v0
    pub listed : (x : ℕ) → 0 < count x next → get_or visited x 0 ≡ 1
    pub fresh :
        (x : ℕ)
        → get_or visited x 0 ≡ 1
        → (get_or v0 x 0 ≡ 1) ⊎ (0 < count x next + total (winning x) ts)
    pub sound :
        (x : ℕ)
        → get_or visited x 0 ≡ 1
        → (get_or v0 x 0 ≡ 1) ⊎ ((u : ℕ) × (0 < count u frontier) × (u < n) × IsEdge g u x)
    pub visiting : All (Visiting visited) ts
    pub sources : map source ts ≡ frontier

  module _ (pre post : List Visit) (t t' : Visit) (same : source t' ≡ source t) where
    pub sources-replace :
        map source (pre ++ t ∷ post) ≡ frontier → map source (pre ++ t' ∷ post) ≡ frontier
    sources-replace e =
        map-append source pre (t' ∷ post)
        ∙ ap (λ s. map source pre ++ s ∷ map source post) same
        ∙ sym (map-append source pre (t ∷ post))
        ∙ e

    -- A step that changes neither array.
    pub Level-move :
        (visited next : List ℕ)
        → Level (pre ++ t ∷ post) visited next
        → ((x : ℕ) → winning x t' ≡ winning x t)
        → winners t' ≡ winners t
        → (Visiting visited t → Visiting visited t')
        → Level (pre ++ t' ∷ post) visited next
    Level-move visited next f w k keeps =
        let (before, rest) = All-split (Visiting visited) pre (t ∷ post) f.visiting in
        record {
          size = f.size;
          bits = f.bits;
          room = omega (arith, f.room, k, total-replace winners pre t t' post);
          listed = f.listed;
          fresh = λ x e. elim (f.fresh x e) [
            | inl o ↦ inl o
            | inr p ↦ inr (omega (arith, p, w x, total-replace (winning x) pre t t' post))
          ];
          sound = f.sound;
          visiting = All-append (Visiting visited) pre (t' ∷ post) before (keeps rest.0, rest.1);
          sources = sources-replace f.sources;
        }
