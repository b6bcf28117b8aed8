-- ===== src/Loader/Filling.antt =====
-- The filling of the rows, for one direction of the edges: claims of slots and stores, interleaved.
pub mod Claim
pub mod Store
pub mod Result
use graph_benchmark.Base.{
  ℕ, zero, suc, ◌+◌, ◌≡◌, ◌<◌, ◌≤◌, ◌^◌, refl, ap, sym, ◌∙◌, ◌⊎◌, inl, inr, List, [], ◌∷◌, ◌++◌,
  arith, get_or, ◌≢◌, set, length, length-set, get_or-set_self, get_or-set_ne, u64, u32, total,
  total-append, total-replace, All, All-append, All-split, All-map, count, segment, segment-set_out,
  segment-set_end, ltb, dec_lt, ◌==◌, if◌then◌else◌, ℕ_discrete,
}
use graph_benchmark.Graph.{Edge, degree, preceding, copies}
use graph_benchmark.Graph.Counting.{
  AreEdgesOf, IsEdgeOf, preceding-suc, preceding_mono, preceding-le-length,
}
use graph_benchmark.Loader.Offsets.{AreOffsets}

-- One direction of a run of the body: not yet at its claim, between claim and store, or past both.
pub data View : Type 0 where
  todo : Edge → View
  storing : Edge → (o : ℕ) → View
  over : View

-- The counters and the rows of one direction.
pub record Half : Type 0 where
  pub cursor : List ℕ
  pub slots : List ℕ

abbrev pub half_step : List ℕ → View → Half → View × Half
half_step offsets (todo e) h =
    let o = get_or h.cursor e.src 0 in
    (storing e o, record h { cursor = set h.cursor e.src (u32 (o + 1)) })
half_step offsets (storing e o) h =
    (over, record h { slots = set h.slots (u64 (get_or offsets e.src 0 + o)) e.dst })
half_step offsets over h = (over, h)

-- A claim of node `v` that is still to come.
abbrev pub claims : ℕ → View → ℕ
claims v (todo e) = if v == e.src then 1 else 0
claims v (storing e o) = 0
claims v over = 0

-- A claim of node `v` for the value `x` that is still to come.
abbrev pub claims_for : ℕ → ℕ → View → ℕ
claims_for v x (todo e) = if v == e.src then (if x == e.dst then 1 else 0) else 0
claims_for v x (storing e o) = 0
claims_for v x over = 0

module _ (n : ℕ) (edges : List Edge) where
  abbrev pub place : Edge → ℕ → ℕ
  place e o = preceding edges e.src + o

  -- A store to cell `p` that is still to come.
  abbrev pub stores_at : ℕ → View → ℕ
  stores_at p (todo e) = 0
  stores_at p (storing e o) = if p == place e o then 1 else 0
  stores_at p over = 0

  -- `virt` is the array with all stores made that are claimed.
  abbrev pub Claimed : List ℕ → List ℕ → View → Type 0
  Claimed cursor virt (todo e) = e.src < n
  Claimed cursor virt (storing e o) =
      (e.src < n) × (o < get_or cursor e.src 0) × (get_or virt (place e o) 0 ≡ e.dst)
  Claimed cursor virt over = Unit

  pub record Filling (virt : List ℕ) (ts : List View) (h : Half) : Type 0 where
    pub nodes : length h.cursor ≡ n
    pub virt_size : length virt ≡ length edges
    pub slots_size : length h.slots ≡ length edges
    pub room : (v : ℕ) → v < n → get_or h.cursor v 0 + total (claims v) ts ≡ degree edges v
    pub rows :
        (v x : ℕ)
        → v < n
        → count x (segment virt (preceding edges v) (get_or h.cursor v 0))
            + total (claims_for v x) ts
          ≡ copies edges v x
    pub claimed : All (Claimed h.cursor virt) ts
    pub agree : (p : ℕ) → (get_or h.slots p 0 ≡ get_or virt p 0) ⊎ (0 < total (stores_at p) ts)

-- Slots lie inside the array, and those of different rows are different.
module _ (edges : List Edge) where
  pub row_end : (v i : ℕ) → i < degree edges v → preceding edges v + i < length edges
  row_end v i h = omega (arith, preceding-suc edges v, preceding-le-length edges (v + 1))

  pub row_before :
      (v w i j : ℕ) → v < w → i < degree edges v → preceding edges v + i < preceding edges w + j
  row_before v w i j lt h = omega (arith, preceding-suc edges v, preceding_mono edges (v + 1) w)

  pub rows_apart :
      (v w i j : ℕ)
      → v ≢ w
      → i < degree edges v
      → j < degree edges w
      → preceding edges v + i ≢ preceding edges w + j
  rows_apart v w i j ne hi hj e = elim (dec_lt v w) [
    | yes lt ↦ omega (arith, row_before v w i j lt hi)
    | no ge ↦ omega (arith, row_before w v j i (omega arith) hj)
  ]
