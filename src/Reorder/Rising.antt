-- ===== src/Reorder/Rising.antt =====
-- The numbers of the nodes rise along the sorted array.
use graph_benchmark.Base.{
  ℕ, ◌+◌, ◌≡◌, ◌≢◌, ◌<◌, sym, ap, ◌∙◌, inl, inr, List, [], ◌∷◌, arith, Bool, false, get_or, set,
  length, length-set, count, count-get_or, u32, u64, Bool-cases, ℕ_discrete, All, IsOrder,
  range_from, length-range_from, range_from-distinct, range_from-listed, get_or-range_from,
  index_of,
}
use mathlib.Core.Bool.{false≢true}
use graph_benchmark.Reorder.{stays, assign_loop}
use graph_benchmark.Reorder.Numbers.{IsRest, IsRest-tail, number_here, numbers}

module _ (less : ℕ → ℕ → Bool) where
  -- No later element precedes an earlier one.
  abbrev pub Rising : List ℕ → Type 0
  Rising [] = Unit
  Rising (x ∷ xs) = All (λ y. less y x ≡ false) xs × Rising xs

  -- What `std::sort` makes of an array.
  pub record Sorts (xs ys : List ℕ) : Type 0 where
    pub size : length ys ≡ length xs
    pub same : (x : ℕ) → count x ys ≡ count x xs
    pub rising : Rising ys

  member :
      (x z : ℕ) (xs : List ℕ) → All (λ y. less y z ≡ false) xs → 0 < count x xs → less x z ≡ false
  member x z [] h here = absurd (omega arith)
  member x z (y ∷ ys) h here = elim (ℕ_discrete x y) [
    | yes e ↦ rw e h.0
    | no ne ↦ member x z ys h.1 (ground arith)
  ]

  module _ (maintain : Bool) where
    -- A node with a smaller number is not preceded by one with a larger number.
    pub numbers_rise :
        (n : ℕ) (xs : List ℕ) (cnt : ℕ) (m : List ℕ)
        → IsRest maintain n xs cnt m
        → Rising xs
        → (x y : ℕ) → 0 < count x xs
        → 0 < count y xs
        → stays maintain x ≡ false
        → stays maintain y ≡ false
        → get_or (assign_loop maintain xs cnt m) x 0 < get_or (assign_loop maintain xs cnt m) y 0
        → less y x ≡ false
    unfolding assign_loop
    numbers_rise n [] cnt m r up x y hx hy mx my lt = absurd (omega arith)
    numbers_rise n (z ∷ xs) cnt m r up x y hx hy mx my lt = elim (Bool-cases (stays maintain z)) [
      | inl stay ↦
          let x_apart : x ≢ z = λ q. false≢true (sym mx ∙ ap (stays maintain) q ∙ stay) in
          let y_apart : y ≢ z = λ q. false≢true (sym my ∙ ap (stays maintain) q ∙ stay) in
          numbers_rise n xs cnt (set m 0 0)
            (IsRest-tail maintain n z xs cnt m r cnt (omega arith) (set m 0 0) (length-set m 0 0))
            up.1 x y (ground arith) (ground arith) mx my (rw stay at lt)
      | inr go ↦
          let m' = set m z (u32 cnt) in
          let tail =
            IsRest-tail maintain n z xs cnt m r (u64 (cnt + 1)) (omega arith) m'
              (length-set m z (u32 cnt)) in
          let lt' = rw go at lt in
          let value = number_here maintain n z xs cnt m r in
          elim (ℕ_discrete y z) [
            | yes yz ↦ elim (ℕ_discrete x z) [
              | yes xz ↦ absurd (omega (arith, rw (xz, yz) at lt'))
              | no nx ↦
                  let above = numbers maintain n xs (u64 (cnt + 1)) m' tail x (ground arith) mx in
                  absurd (omega (arith, above.0, r.narrow, value, rw yz at lt'))
            ]
            | no ny ↦ elim (ℕ_discrete x z) [
              | yes xz ↦ rw xz (member y z xs up.0 (ground arith))
              | no nx ↦
                  numbers_rise n xs (u64 (cnt + 1)) m' tail up.1 x y (ground arith) (ground arith)
                    mx my lt'
            ]
          ]
    ]

  -- A sorted array of all nodes is an order of them.
  pub Sorts-IsOrder : (n : ℕ) (ys : List ℕ) → Sorts (range_from 0 n) ys → IsOrder n ys
  Sorts-IsOrder n ys s = record {
    size = s.size ∙ length-range_from 0 n;
    once = λ x. omega (arith, s.same x, range_from-distinct x 0 n);
    low = λ i lt.
        let here = count-get_or ys i 0 (omega (arith, s.size, length-range_from 0 n)) in
        let (j, inside, e) =
          index_of (get_or ys i 0) (range_from 0 n) (omega (arith, here, s.same (get_or ys i 0))) in
        let bound : j < n = omega (arith, inside, length-range_from 0 n) in
        omega (arith, e, get_or-range_from 0 n j bound);
    all = λ x lt. omega (arith, s.same x, range_from-listed x 0 n (omega arith) (omega arith));
  }
