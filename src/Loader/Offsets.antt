-- ===== src/Loader/Offsets.antt =====
-- `sum_degree` turns degrees into the offsets of the rows.
use graph_benchmark.Base.{
  ℕ, zero, suc, ◌+◌, ◌≡◌, ◌<◌, ◌≤◌, ◌^◌, refl, ap, List, [], ◌∷◌, some, arith, get_or, set, length,
  sym, ◌∙◌, ℕ_discrete, length-set, get_or-set_self, get_or-set_ne, u64,
}
use graph_benchmark.Graph.{Edge, degree, preceding}
use graph_benchmark.Graph.Counting.{
  AreEdgesOf, preceding-zero, preceding-suc, preceding-all, preceding-le-length,
}
use graph_benchmark.Loader.{sum_loop, sum_offsets}

-- Cell `v` holds the number of edges before the row of `v`, the cell behind the last row included.
pub record AreOffsets (nb_nodes : ℕ) (edges : List Edge) (offsets : List ℕ) : Type 0 where
  pub size : length offsets ≡ nb_nodes + 1
  pub cell : (v : ℕ) → v ≤ nb_nodes → get_or offsets v 0 ≡ preceding edges v

-- What the loop leaves when `n` rounds are left, at cell `k`.
record Sums (edges : List Edge) (n k : ℕ) (a : List ℕ) (r : List ℕ × ℕ) : Type 0 where
  last : (j : ℕ) → j ≡ k + n → r.1 ≡ preceding edges j
  size : length r.0 ≡ length a
  cell : (i j : ℕ) → i < n → j ≡ k + i → get_or r.0 i 0 ≡ preceding edges j

cells-cons :
    (edges : List Edge) (n k prev : ℕ) (rest : List ℕ)
    → prev ≡ preceding edges k
    → ((i j : ℕ) → i < n → j ≡ k + 1 + i → get_or rest i 0 ≡ preceding edges j)
    → (i j : ℕ) → i < suc n
    → j ≡ k + i
    → get_or (prev ∷ rest) i 0 ≡ preceding edges j
cells-cons edges n k prev rest e h zero j lt f = let same : j ≡ k = omega arith in rw same e
cells-cons edges n k prev rest e h (suc i) j lt f = h i j (omega arith) (omega arith)

Sums-cons :
    {edges : List Edge} {n k prev : ℕ} {a : List ℕ} {r : List ℕ × ℕ} (tmp : ℕ)
    → prev ≡ preceding edges k
    → Sums edges n (k + 1) a r
    → Sums edges (suc n) k (tmp ∷ a) (prev ∷ r.0, r.1)
Sums-cons {edges} {n} {k} {prev} {r} tmp e s = record {
  last = λ j f. s.last j (omega arith);
  size = ap suc s.size;
  cell = cells-cons edges n k prev r.0 e s.cell;
}

module _ (edges : List Edge) (small : length edges < 2 ^ 64) where
  prev-suc :
      (k prev tmp : ℕ)
      → prev ≡ preceding edges k
      → tmp ≡ degree edges k
      → u64 (prev + tmp) ≡ preceding edges (k + 1)
  prev-suc k prev tmp e d = omega (arith, preceding-suc edges k, preceding-le-length edges (k + 1))

  sum_loop-Sums :
      (n k prev : ℕ) (a : List ℕ)
      → n ≤ length a
      → ((i j : ℕ) → i < n → j ≡ k + i → get_or a i 0 ≡ degree edges j)
      → prev ≡ preceding edges k
      → Sums edges n k a (sum_loop n prev a)
  unfolding sum_loop
  sum_loop-Sums zero k prev a fits h e = record {
    last = λ j f. let same : j ≡ k = omega arith in rw same e;
    size = refl;
    cell = λ i j lt f. absurd (omega arith);
  }
  sum_loop-Sums (suc n) k prev [] fits h e = absurd (omega arith)
  sum_loop-Sums (suc n) k prev (tmp ∷ a) fits h e = Sums-cons tmp e (
      sum_loop-Sums n (k + 1) (u64 (prev + tmp)) a (omega arith)
        (λ i j lt f. h (suc i) j (omega arith) (omega arith))
        (prev-suc k prev tmp e (h 0 k (omega arith) (omega arith))))

  -- From the degrees, the block of `sum_degree` passes its assertion and leaves the offsets.
  pub sum_offsets-AreOffsets :
      (n : ℕ) (a : List ℕ)
      → length a ≡ n + 1
      → AreEdgesOf n edges
      → ((v : ℕ) → v < n → get_or a v 0 ≡ degree edges v)
      → (offsets : List ℕ) × (sum_offsets n (length edges) a ≡ some offsets)
        × AreOffsets n edges offsets
  unfolding sum_offsets
  sum_offsets-AreOffsets n a size ends degrees =
      let s =
        sum_loop-Sums n 0 0 a (omega arith)
          (λ i j lt f. let same : j ≡ i = omega arith in rw same (degrees i lt))
          (sym (preceding-zero edges)) in
      let r = sum_loop n 0 a in
      let total = s.last n (omega arith) ∙ preceding-all n edges ends in
      (
        set r.0 n r.1,
        ground arith,
        record {
          size = length-set r.0 n r.1 ∙ s.size ∙ size;
          cell = λ v le. elim (ℕ_discrete v n) [
            | yes e ↦
                rw e (get_or-set_self r.0 n r.1 0 (omega (arith, s.size)) ∙ s.last n (omega arith))
            | no ne ↦
                get_or-set_ne r.0 n v r.1 0 (λ e. ne (sym e))
                ∙ s.cell v v (omega arith) (omega arith)
          ];
        },
      )
