-- ===== src/Loader/Filling/Result.antt =====
-- What the filling leaves: each row holds the targets of its node's edges, in some order.
use graph_benchmark.Base.{
  ℕ, ◌+◌, ◌-◌, ◌≡◌, ◌<◌, ◌^◌, refl, ap, sym, ◌∙◌, inl, List, [], ◌∷◌, arith, get_or, map, replicate,
  length-replicate, get_or-replicate, length, total, total-eq-zero, All, All-map, count,
  eq_of_get_or,
}
use graph_benchmark.Graph.{Edge, degree, preceding, copies, row}
use graph_benchmark.Graph.Counting.{AreEdgesOf, preceding-suc}
use graph_benchmark.Parallel.{Keeps}
use graph_benchmark.Loader.Offsets.{AreOffsets}
use graph_benchmark.Loader.Filling.{
  View, todo, storing, over, Half, half_step, claims, claims_for, stores_at, Claimed, Filling,
}
use graph_benchmark.Loader.Filling.Claim.{claim-Filling}
use graph_benchmark.Loader.Filling.Store.{store-Filling}

abbrev pub Filled : ℕ → List Edge → List View → Half → Type 0
Filled n edges ts h = (virt : List ℕ) × Filling n edges virt ts h

-- The conditions on the input under which no counter wraps around.
pub record IsSmall (n : ℕ) (edges : List Edge) : Type 0 where
  pub ends : AreEdgesOf n edges
  pub total : length edges < 2 ^ 64
  pub narrow : (v : ℕ) → v < n → degree edges v < 2 ^ 32

-- There is a cell for each edge, and the row of each node holds each target as often as the input has
-- the edge.
abbrev pub HasRows : ℕ → List Edge → List ℕ → List ℕ → Type 0
HasRows n edges offsets slots =
    (length slots ≡ length edges)
    × ((v x : ℕ) → v < n → count x (row offsets slots v) ≡ copies edges v x)

module _ {n : ℕ} {edges : List Edge} {offsets : List ℕ} (small : IsSmall n edges)
    (off : AreOffsets n edges offsets) where
  pub Filled-keep : Keeps (half_step offsets) (Filled n edges)
  Filled-keep pre (todo e) post h (virt, f) = (_, claim-Filling small.narrow pre post h virt e f)
  Filled-keep pre (storing e o) post h (virt, f) =
      (virt, store-Filling small.total off pre post h virt e o f)
  Filled-keep pre over post h p = p

claims-todo : (edges : List Edge) (v : ℕ) → total (claims v) (map todo edges) ≡ degree edges v
unfolding degree
claims-todo [] v = refl
claims-todo (e ∷ es) v = ap (◌+◌ _) (claims-todo es v)

claims_for-todo :
    (edges : List Edge) (v x : ℕ) → total (claims_for v x) (map todo edges) ≡ copies edges v x
unfolding copies
claims_for-todo [] v x = refl
claims_for-todo (e ∷ es) v x = ap (◌+◌ _) (claims_for-todo es v x)

Claimed-todo :
    (n : ℕ) (all : List Edge) (cursor virt : List ℕ) (edges : List Edge)
    → AreEdgesOf n edges
    → All (Claimed n all cursor virt) (map todo edges)
Claimed-todo n all cursor virt [] h = tt
Claimed-todo n all cursor virt (e ∷ es) h = (h.0.0, Claimed-todo n all cursor virt es h.1)

pub Filled-start :
    {n : ℕ} {edges : List Edge}
    → IsSmall n edges
    → (slots : List ℕ) → length slots ≡ length edges
    → Filled n edges (map todo edges) (record { cursor = replicate n 0; slots = slots })
Filled-start {n} {edges} small slots size = (
  slots,
  record {
    nodes = length-replicate n 0;
    virt_size = size;
    slots_size = size;
    room = λ v lt. omega (arith, get_or-replicate {A = ℕ} n v 0, claims-todo edges v);
    rows = λ v x lt. rw (get_or-replicate {A = ℕ} n v 0) (omega (arith, claims_for-todo edges v x));
    claimed = Claimed-todo n edges (replicate n 0) slots edges small.ends;
    agree = λ p. inl refl;
  },
)

abbrev pub Over : View → Type 0
Over t = t ≡ over

none_left : (ts : List View) (w : View → ℕ) → w over ≡ 0 → All Over ts → total w ts ≡ 0
none_left ts w z ended = total-eq-zero w ts (All-map Over (λ t. w t ≡ 0) (λ t e. rw e z) ts ended)

module _ {n : ℕ} {edges : List Edge} {offsets : List ℕ} {ts : List View} {h : Half}
    (off : AreOffsets n edges offsets) (ended : All Over ts) where
  slots-eq-virt : (virt : List ℕ) → Filling n edges virt ts h → h.slots ≡ virt
  slots-eq-virt virt f =
      eq_of_get_or h.slots virt 0 (f.slots_size ∙ sym f.virt_size)
        (λ p lt. ground (arith, f.agree p, none_left ts (stores_at n edges p) refl ended))

  row_size :
      (virt : List ℕ)
      → Filling n edges virt ts h
      → (v : ℕ) → v < n
      → get_or offsets (v + 1) 0 - preceding edges v ≡ get_or h.cursor v 0
  row_size virt f v lt = omega (
    arith,
    off.cell (v + 1) (omega arith),
    preceding-suc edges v,
    f.room v lt,
    none_left ts (claims v) refl ended,
  )

  -- When all stores are made, the rows hold the edges.
  pub HasRows-of_Filled : Filled n edges ts h → HasRows n edges offsets h.slots
  unfolding row
  HasRows-of_Filled (virt, f) = (
    f.slots_size,
    λ v x lt.
        rw (slots-eq-virt virt f, off.cell v (omega arith), row_size virt f v lt)
          (omega (arith, f.rows v x lt, none_left ts (claims_for v x) refl ended)),
  )
