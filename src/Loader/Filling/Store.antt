-- ===== src/Loader/Filling/Store.antt =====
-- A store into a row of `create_edges` keeps the invariant of the filling.
use graph_benchmark.Base.{
  ℕ, ◌+◌, ◌≡◌, ◌<◌, ◌^◌, sym, ◌∙◌, ◌⊎◌, inl, List, ◌∷◌, ◌++◌, arith, get_or, set, length,
  length-set, get_or-set_self, get_or-set_ne, u64, total, total-replace, All-append, All-split,
  ℕ_discrete,
}
use graph_benchmark.Graph.{Edge, degree}
use graph_benchmark.Loader.Offsets.{AreOffsets}
use graph_benchmark.Loader.Filling.{
  View, storing, over, Half, claims, claims_for, place, stores_at, Claimed, Filling, row_end,
}

module _ {n : ℕ} {edges : List Edge} {offsets : List ℕ} (small : length edges < 2 ^ 64)
    (off : AreOffsets n edges offsets) (pre post : List View) (h : Half) (virt : List ℕ) (e : Edge)
    (o : ℕ) (f : Filling n edges virt (pre ++ storing e o ∷ post) h) where
  here : Claimed n edges h.cursor virt (storing e o)
  here = (All-split (Claimed n edges h.cursor virt) pre (storing e o ∷ post) f.claimed).1.0

  o_lt : o < degree edges e.src
  o_lt = omega (arith, here.1, f.room e.src here.0)

  abbrev slot : ℕ
  slot = u64 (get_or offsets e.src 0 + o)

  -- The address that the code computes is the claimed place, and lies in the array.
  pub slot-eq-place : (slot ≡ place n edges e o) × (slot < length h.slots)
  slot-eq-place = omega (
    arith,
    off.cell e.src (omega (arith, here.0)),
    row_end edges e.src o o_lt,
    small,
    f.slots_size,
  )

  store_agree :
      (p : ℕ)
      → (get_or (set h.slots slot e.dst) p 0 ≡ get_or virt p 0)
        ⊎ (0 < total (stores_at n edges p) (pre ++ over ∷ post))
  store_agree p = elim (ℕ_discrete p (place n edges e o)) [
    | yes q ↦ inl (
        rw (slot-eq-place.0, q)
          (get_or-set_self h.slots (place n edges e o) e.dst 0 (omega (arith, slot-eq-place))
            ∙ sym here.2))
    | no ne ↦ ground (
      arith,
      f.agree p,
      slot-eq-place.0,
      get_or-set_ne h.slots slot p e.dst 0,
      total-replace (stores_at n edges p) pre (storing e o) over post,
    )
  ]

  -- A store makes one of the claimed stores in the array.
  pub store-Filling :
      Filling n edges virt (pre ++ over ∷ post) (record h { slots = set h.slots slot e.dst })
  store-Filling = record {
    nodes = f.nodes;
    virt_size = f.virt_size;
    slots_size = length-set h.slots slot e.dst ∙ f.slots_size;
    room = λ v lt. omega (arith, f.room v lt, total-replace (claims v) pre (storing e o) over post);
    rows = λ v x lt.
        omega (arith, f.rows v x lt, total-replace (claims_for v x) pre (storing e o) over post);
    claimed =
        let (before, rest) =
          All-split (Claimed n edges h.cursor virt) pre (storing e o ∷ post) f.claimed in
        All-append (Claimed n edges h.cursor virt) pre (over ∷ post) before (tt, rest.1);
    agree = store_agree;
  }
