-- ===== src/Reorder/Numbers.antt =====
-- The loop that numbers the nodes gives distinct numbers that suffice.
use graph_benchmark.Base.{
  ℕ, ◌+◌, ◌≡◌, ◌≢◌, ◌<◌, ◌≤◌, ◌^◌, refl, sym, ap, ◌∙◌, inl, inr, List, [], ◌∷◌, arith, Bool, true,
  false, if◌then◌else◌, get_or, set, length, length-set, count-le-length, get_or-set_self,
  get_or-set_ne, count, Bool-cases, ℕ_discrete, u32, u64,
}
use mathlib.Core.Bool.{false≢true}
use graph_benchmark.Reorder.{stays, assign_loop}

module _ (maintain : Bool) where
  pub stays-zero : (x : ℕ) → stays maintain x ≡ true → x ≡ 0
  unfolding stays
  stays-zero x e = ground arith

  -- A node that is not in the rest of the order keeps its cell.
  assign_loop-kept :
      (xs : List ℕ) (cnt : ℕ) (m : List ℕ) (x : ℕ)
      → count x xs ≡ 0
      → get_or (assign_loop maintain xs cnt m) x 0 ≡ get_or m x 0
  unfolding assign_loop
  assign_loop-kept [] cnt m x none = refl
  assign_loop-kept (y ∷ xs) cnt m x none = elim (ℕ_discrete x y) [
    | yes e ↦ absurd (ground arith)
    | no ne ↦ elim (Bool-cases (stays maintain y)) [
      | inl stay ↦ rw stay (
          assign_loop-kept xs cnt (set m 0 0) x (ground arith)
          ∙ get_or-set_ne m 0 x 0 0 (λ z. ne (sym z ∙ sym (stays-zero y stay))))
      | inr move ↦ rw move (
          assign_loop-kept xs (u64 (cnt + 1)) (set m y (u32 cnt)) x (ground arith)
          ∙ get_or-set_ne m y x (u32 cnt) 0 (λ z. ne (sym z)))
    ]
  ]

  length-assign_loop :
      (xs : List ℕ) (cnt : ℕ) (m : List ℕ) → length (assign_loop maintain xs cnt m) ≡ length m
  unfolding assign_loop
  length-assign_loop [] cnt m = refl
  length-assign_loop (y ∷ xs) cnt m = elim (Bool-cases (stays maintain y)) [
    | inl stay ↦ rw stay (length-assign_loop xs cnt (set m 0 0) ∙ length-set m 0 0)
    | inr move ↦
        rw move
          (length-assign_loop xs (u64 (cnt + 1)) (set m y (u32 cnt)) ∙ length-set m y (u32 cnt))
  ]

  -- What holds of a list of nodes that are still to be numbered.
  pub record IsRest (n : ℕ) (xs : List ℕ) (cnt : ℕ) (m : List ℕ) : Type 0 where
    pub size : length m ≡ n
    pub narrow : cnt + length xs < 2 ^ 32
    pub once : (x : ℕ) → count x xs ≤ 1
    pub low : (x : ℕ) → 0 < count x xs → x < n

  pub IsRest-tail :
      (n y : ℕ) (xs : List ℕ) (cnt : ℕ) (m : List ℕ)
      → IsRest n (y ∷ xs) cnt m
      → (cnt' : ℕ) → cnt' ≤ cnt + 1
      → (m' : List ℕ) → length m' ≡ length m
      → IsRest n xs cnt' m'
  IsRest-tail n y xs cnt m r cnt' le m' e = record {
    size = e ∙ r.size;
    narrow = omega (arith, r.narrow);
    once = λ x. omega (arith, r.once x);
    low = λ x h. r.low x (omega arith);
  }

  -- The nodes that the loop keeps at their own number.
  abbrev pub stayers : List ℕ → ℕ
  stayers xs = if maintain then count 0 xs else 0

  stayers-cons :
      (y : ℕ) (xs : List ℕ) → stayers (y ∷ xs) ≡ (if stays maintain y then 1 else 0) + stayers xs
  unfolding stays
  stayers-cons y xs = ground arith

  stayers-le-length : (xs : List ℕ) → stayers xs ≤ length xs
  stayers-le-length xs = ground (arith, count-le-length 0 xs)

  -- The node at hand gets the number at hand.
  pub number_here :
      (n y : ℕ) (xs : List ℕ) (cnt : ℕ) (m : List ℕ)
      → IsRest n (y ∷ xs) cnt m
      → get_or (assign_loop maintain xs (u64 (cnt + 1)) (set m y (u32 cnt))) y 0 ≡ cnt
  number_here n y xs cnt m r =
      let inside : y < n = r.low y (ground arith) in
      let kept =
        assign_loop-kept xs (u64 (cnt + 1)) (set m y (u32 cnt)) y (ground (arith, r.once y)) in
      omega (arith, kept, r.narrow, get_or-set_self m y (u32 cnt) 0 (omega (arith, r.size, inside)))

  -- A numbered node gets a number from `cnt` on, and the numbers suffice.
  pub numbers :
      (n : ℕ) (xs : List ℕ) (cnt : ℕ) (m : List ℕ)
      → IsRest n xs cnt m
      → (x : ℕ) → 0 < count x xs
      → stays maintain x ≡ false
      → (cnt ≤ get_or (assign_loop maintain xs cnt m) x 0)
        × (get_or (assign_loop maintain xs cnt m) x 0 + stayers xs < cnt + length xs)
  unfolding assign_loop
  numbers n [] cnt m r x here move = absurd (omega arith)
  numbers n (y ∷ xs) cnt m r x here move = elim (Bool-cases (stays maintain y)) [
    | inl stay ↦
        let apart : x ≢ y = λ e. false≢true (sym move ∙ ap (stays maintain) e ∙ stay) in
        let rest =
          numbers n xs cnt (set m 0 0)
            (IsRest-tail n y xs cnt m r cnt (omega arith) (set m 0 0) (length-set m 0 0)) x
            (ground arith) move in
        let more : stayers (y ∷ xs) ≡ 1 + stayers xs = rw stay at (stayers-cons y xs) in
        rw (stay, more) (rest.0, omega (arith, rest.1))
    | inr go ↦
        let more : stayers (y ∷ xs) ≡ 0 + stayers xs = rw go at (stayers-cons y xs) in
        rw (go, more)
          (elim (ℕ_discrete x y) [
            | yes e ↦
                let value = number_here n y xs cnt m r in
                rw e (omega (arith, value), omega (arith, value, stayers-le-length xs))
            | no ne ↦
                let rest =
                  numbers n xs (u64 (cnt + 1)) (set m y (u32 cnt))
                    (IsRest-tail n y xs cnt m r (u64 (cnt + 1)) (omega arith) (set m y (u32 cnt))
                      (length-set m y (u32 cnt)))
                    x (ground arith) move in
                (omega (arith, rest.0, r.narrow), omega (arith, rest.1, r.narrow))
          ])
  ]

  -- No number is given twice.
  pub no_clash :
      (n : ℕ) (xs : List ℕ) (cnt : ℕ) (m : List ℕ)
      → IsRest n xs cnt m
      → (x y : ℕ) → 0 < count x xs
      → 0 < count y xs
      → stays maintain x ≡ false
      → stays maintain y ≡ false
      → get_or (assign_loop maintain xs cnt m) x 0 ≡ get_or (assign_loop maintain xs cnt m) y 0
      → x ≡ y
  unfolding assign_loop
  no_clash n [] cnt m r x y hx hy mx my e = absurd (omega arith)
  no_clash n (z ∷ xs) cnt m r x y hx hy mx my e = elim (Bool-cases (stays maintain z)) [
    | inl stay ↦
        let x_apart : x ≢ z = λ q. false≢true (sym mx ∙ ap (stays maintain) q ∙ stay) in
        let y_apart : y ≢ z = λ q. false≢true (sym my ∙ ap (stays maintain) q ∙ stay) in
        no_clash n xs cnt (set m 0 0)
          (IsRest-tail n z xs cnt m r cnt (omega arith) (set m 0 0) (length-set m 0 0)) x y
          (ground arith) (ground arith) mx my (rw stay at e)
    | inr go ↦
        let m' = set m z (u32 cnt) in
        let tail =
          IsRest-tail n z xs cnt m r (u64 (cnt + 1)) (omega arith) m' (length-set m z (u32 cnt)) in
        let e' = rw go at e in
        let value = number_here n z xs cnt m r in
        elim (ℕ_discrete x z) [
          | yes xz ↦ elim (ℕ_discrete y z) [
            | yes yz ↦ omega arith
            | no ny ↦
                let above = numbers n xs (u64 (cnt + 1)) m' tail y (ground arith) my in
                absurd (omega (arith, above.0, r.narrow, value, rw xz at e'))
          ]
          | no nx ↦ elim (ℕ_discrete y z) [
            | yes yz ↦
                let above = numbers n xs (u64 (cnt + 1)) m' tail x (ground arith) mx in
                absurd (omega (arith, above.0, r.narrow, value, rw yz at e'))
            | no ny ↦
                no_clash n xs (u64 (cnt + 1)) m' tail x y (ground arith) (ground arith) mx my e'
          ]
        ]
  ]

  -- A node that stays is node 0, and keeps its number.
  pub zero_stays :
      (n : ℕ) (xs : List ℕ) (cnt : ℕ) (m : List ℕ)
      → IsRest n xs cnt m
      → stays maintain 0 ≡ true
      → 0 < count 0 xs
      → get_or (assign_loop maintain xs cnt m) 0 0 ≡ 0
  unfolding assign_loop
  zero_stays n [] cnt m r stay here = absurd (omega arith)
  zero_stays n (z ∷ xs) cnt m r stay here = elim (ℕ_discrete z 0) [
    | yes e ↦
        let inside = r.low 0 here in
        rw (e, stay)
          (assign_loop-kept xs cnt (set m 0 0) 0 (ground (arith, r.once 0))
            ∙ get_or-set_self m 0 0 0 (omega (arith, r.size, inside)))
    | no ne ↦ elim (Bool-cases (stays maintain z)) [
      | inl other ↦ absurd (ne (stays-zero z other))
      | inr go ↦ rw go (
          zero_stays n xs (u64 (cnt + 1)) (set m z (u32 cnt))
            (IsRest-tail n z xs cnt m r (u64 (cnt + 1)) (omega arith) (set m z (u32 cnt))
              (length-set m z (u32 cnt)))
            stay (ground arith))
    ]
  ]
