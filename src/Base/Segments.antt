-- ===== src/Base/Segments.antt =====
-- Parts of an array, and writes inside and outside of them.
use Prim.Native.Nat.{ℕ, zero, suc, ◌+◌, ◌-◌, ◌<◌, ◌≤◌}
use mathlib.Core.Path.{◌≡◌, refl, ap, ◌∙◌}
use mathlib.Core.Logic.{◌⊎◌, inl, inr}
use mathlib.Core.List.{List, [], ◌∷◌, ◌++◌}
use native.Mathlib.Omega.{arith}
use graph_benchmark.Base.Lists.{length, get_or, set, take, drop}

module _ {ℓ} {A : Type ℓ} where
  -- The `n` cells from cell `from` on.
  abbrev pub segment : List A → ℕ → ℕ → List A
  segment xs from n = take n (drop from xs)

  pub length-drop : (n : ℕ) (xs : List A) → length (drop n xs) ≡ length xs - n
  length-drop zero xs = omega arith
  length-drop (suc n) [] = omega arith
  length-drop (suc n) (x ∷ xs) = omega (arith, length-drop n xs)

  pub length-take_le : (n : ℕ) (xs : List A) → n ≤ length xs → length (take n xs) ≡ n
  length-take_le zero xs h = refl
  length-take_le (suc n) [] h = absurd (omega arith)
  length-take_le (suc n) (x ∷ xs) h = ap suc (length-take_le n xs (omega arith))

  pub get_or-take : (n i : ℕ) (xs : List A) (d : A) → i < n → get_or (take n xs) i d ≡ get_or xs i d
  get_or-take zero i xs d h = absurd (omega arith)
  get_or-take (suc n) i [] d h = refl
  get_or-take (suc n) zero (x ∷ xs) d h = refl
  get_or-take (suc n) (suc i) (x ∷ xs) d h = get_or-take n i xs d (omega arith)

  pub get_or-drop :
      (n i j : ℕ) (xs : List A) (d : A) → j ≡ n + i → get_or (drop n xs) i d ≡ get_or xs j d
  get_or-drop zero i j xs d e = let same : j ≡ i = omega arith in rw same
  get_or-drop (suc n) i j [] d e = refl
  get_or-drop (suc n) i zero (x ∷ xs) d e = absurd (omega arith)
  get_or-drop (suc n) i (suc j) (x ∷ xs) d e = get_or-drop n i j xs d (omega arith)

  take-set_out : (n p : ℕ) (xs : List A) (d : A) → n ≤ p → take n (set xs p d) ≡ take n xs
  take-set_out zero p xs d h = refl
  take-set_out (suc n) p [] d h = refl
  take-set_out (suc n) zero (x ∷ xs) d h = absurd (omega arith)
  take-set_out (suc n) (suc p) (x ∷ xs) d h = ap (◌∷◌ x) (take-set_out n p xs d (omega arith))

  drop-set_before : (n p : ℕ) (xs : List A) (d : A) → p < n → drop n (set xs p d) ≡ drop n xs
  drop-set_before zero p xs d h = absurd (omega arith)
  drop-set_before (suc n) p [] d h = refl
  drop-set_before (suc n) zero (x ∷ xs) d h = refl
  drop-set_before (suc n) (suc p) (x ∷ xs) d h = drop-set_before n p xs d (omega arith)

  drop-set_from :
      (n p j : ℕ) (xs : List A) (d : A) → p ≡ n + j → drop n (set xs p d) ≡ set (drop n xs) j d
  drop-set_from zero p j xs d e = let same : p ≡ j = omega arith in rw same
  drop-set_from (suc n) p j [] d e = refl
  drop-set_from (suc n) zero j (x ∷ xs) d e = absurd (omega arith)
  drop-set_from (suc n) (suc p) j (x ∷ xs) d e = drop-set_from n p j xs d (omega arith)

  take-set_end :
      (n : ℕ) (xs : List A) (d : A)
      → n < length xs
      → take (suc n) (set xs n d) ≡ take n xs ++ d ∷ []
  take-set_end n [] d h = absurd (omega arith)
  take-set_end zero (x ∷ xs) d h = refl
  take-set_end (suc n) (x ∷ xs) d h = ap (◌∷◌ x) (take-set_end n xs d (omega arith))

  -- A write outside of a segment leaves it alone.
  pub segment-set_out :
      (from n p : ℕ) (xs : List A) (d : A)
      → (p < from) ⊎ (from + n ≤ p)
      → segment (set xs p d) from n ≡ segment xs from n
  segment-set_out from n p xs d (inl h) = ap (take n) (drop-set_before from p xs d h)
  segment-set_out from n p xs d (inr h) =
      ap (take n) (drop-set_from from p (p - from) xs d (omega arith))
      ∙ take-set_out n (p - from) (drop from xs) d (omega arith)

  -- A write just behind a segment extends it.
  pub segment-set_end :
      (from n : ℕ) (xs : List A) (d : A)
      → from + n < length xs
      → segment (set xs (from + n) d) from (suc n) ≡ segment xs from n ++ d ∷ []
  segment-set_end from n xs d h =
      ap (take (suc n)) (drop-set_from from (from + n) n xs d refl)
      ∙ take-set_end n (drop from xs) d (omega (arith, length-drop from xs))

  pub segment-suc :
      (from n : ℕ) (xs : List A) (d : A)
      → from < length xs
      → segment xs from (suc n) ≡ get_or xs from d ∷ segment xs (from + 1) n
  segment-suc from n [] d h = absurd (omega arith)
  segment-suc zero n (x ∷ xs) d h = refl
  segment-suc (suc from) n (x ∷ xs) d h =
      let after : suc from + 1 ≡ suc (from + 1) = omega arith in
      rw after (segment-suc from n xs d (omega arith))
