-- ===== src/Reorder/Distinct.antt =====
-- The new numbers are a renaming of the nodes.
use graph_benchmark.Base.{
  IsOrder, ℕ, ◌+◌, ◌≡◌, ◌≢◌, ◌<◌, ◌≤◌, ◌^◌, refl, sym, ap, ◌∙◌, inl, inr, List, arith, Bool, true,
  false, if◌then◌else◌, get_or, length, index_of, Bool-cases,
}
use graph_benchmark.Reorder.{stays, assign_numbers}
use graph_benchmark.Reorder.Numbers.{IsRest, numbers, no_clash, zero_stays, stays-zero}

module _ (maintain : Bool) (n : ℕ) (ordered cells : List ℕ) (o : IsOrder n ordered)
    (size : length cells ≡ n) (small : n + 1 < 2 ^ 32) where
  abbrev mapping : List ℕ
  mapping = assign_numbers maintain ordered cells

  pub first-IsRest : IsRest maintain n ordered (if maintain then 1 else 0) cells
  first-IsRest = record {
    size = size;
    narrow = ground (arith, o.size);
    once = o.once;
    low = λ x h.
        let (i, inside, e) = index_of x ordered h in
        omega (arith, o.low i (omega (arith, o.size)), e);
  }

  moved :
      (x : ℕ)
      → x < n
      → stays maintain x ≡ false
      → ((if maintain then 1 else 0) ≤ get_or mapping x 0) × (get_or mapping x 0 < n)
  unfolding assign_numbers stays
  moved x lt move =
      let b = numbers maintain n ordered _ cells first-IsRest x (o.all x lt) move in
      (b.0, ground (arith, b.1, o.size, o.all 0))

  fixed : (x : ℕ) → x < n → stays maintain x ≡ true → get_or mapping x 0 ≡ 0
  unfolding assign_numbers
  fixed x lt stay =
      let zero_here = stays-zero maintain x stay in
      ap (λ y. get_or mapping y 0) zero_here
      ∙ zero_stays maintain n ordered _ cells first-IsRest (rw zero_here at stay)
          (o.all 0 (omega arith))

  zero-stays : maintain ≡ true → stays maintain 0 ≡ true
  unfolding stays
  zero-stays on = rw on refl

  apart :
      (x y : ℕ)
      → x < n
      → y < n
      → stays maintain x ≡ true
      → stays maintain y ≡ false
      → get_or mapping x 0 ≢ get_or mapping y 0
  unfolding stays
  apart x y hx hy stay move e = ground (arith, fixed x hx stay, moved y hy move, e)

  -- From an order of all nodes, fewer than 2^32 - 1, `sort_by_degree` makes a renaming: each node gets a
  -- number below `NB_NODES`, no two nodes the same one, and with `maintain` node 0 keeps number 0.
  pub assign_numbers-renames :
      ((x : ℕ) → x < n → get_or mapping x 0 < n)
      × ((x y : ℕ) → x < n → y < n → get_or mapping x 0 ≡ get_or mapping y 0 → x ≡ y)
      × (maintain ≡ true → 0 < n → get_or mapping 0 0 ≡ 0)
  unfolding assign_numbers
  assign_numbers-renames = (
    λ x lt. elim (Bool-cases (stays maintain x)) [
      | inl stay ↦ omega (arith, fixed x lt stay)
      | inr move ↦ (moved x lt move).1
    ],
    λ x y hx hy e. elim (Bool-cases (stays maintain x)) [
      | inl stay ↦ elim (Bool-cases (stays maintain y)) [
        | inl stay' ↦ stays-zero maintain x stay ∙ sym (stays-zero maintain y stay')
        | inr move ↦ absurd (apart x y hx hy stay move e)
      ]
      | inr move ↦ elim (Bool-cases (stays maintain y)) [
        | inl stay ↦ absurd (apart y x hy hx stay move (sym e))
        | inr move' ↦
            no_clash maintain n ordered _ cells first-IsRest x y (o.all x hx) (o.all y hy) move
              move' e
      ]
    ],
    λ on pos. fixed 0 pos (zero-stays on),
  )
