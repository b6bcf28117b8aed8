-- ===== src/Pagerank/Iterations.antt =====
-- `pr_push` computes its recurrence, whatever the interleavings.
use graph_benchmark.Base.{
  ℕ, zero, suc, ◌+◌, ◌*◌, ◌/◌, ◌≡◌, ◌<◌, ◌≤◌, refl, ap, ap₂, ◌∙◌, arith, get_or, length, replicate,
  length-replicate, get_or-replicate, get_or-out, dec_lt, count, u32, some,
}
use graph_benchmark.Graph.{Graph, row}
use graph_benchmark.Pagerank.{Ranks, Schedules, pr_iteration, pr_push, pr_hub}
use graph_benchmark.Pagerank.Spreading.{inflow, HasCells, spreading_lem}
use graph_benchmark.Pagerank.Settling.{settling_lem}

-- One step of the recurrence: half of what comes in, in words of 32 bits.
abbrev pub next_prev : Graph → ℕ → (ℕ → ℕ) → ℕ → ℕ
next_prev g n prev x = u32 (inflow g prev x 0 n) / 2

pub prev_after : Graph → ℕ → ℕ → (ℕ → ℕ) → ℕ → ℕ
prev_after g n zero prev = prev
prev_after g n (suc k) prev = prev_after g n k (next_prev g n prev)

-- The state between two iterations: the ranks are 0, and the previous ranks are given.
pub record IsReady (n : ℕ) (prev : ℕ → ℕ) (m : Ranks) : Type 0 where
  pub rank_size : length m.rank ≡ n
  pub prev_size : length m.prev ≡ n
  pub clear : (x : ℕ) → x < n → get_or m.rank x 0 ≡ 0
  pub ranked : (x : ℕ) → x < n → get_or m.prev x 0 ≡ prev x

inflow_congr :
    (g : Graph) (f h : ℕ → ℕ) (x i k n : ℕ)
    → i + k ≤ n
    → ((j : ℕ) → j < n → f j ≡ h j)
    → inflow g f x i k ≡ inflow g h x i k
inflow_congr g f h x i zero n le e = refl
inflow_congr g f h x i (suc k) n le e =
    ap₂ (λ a b. a / 2 * count x (row g.out_edge_offsets g.out_edges i) + b) (e i (omega arith))
      (inflow_congr g f h x (i + 1) k n (omega arith) e)

four : (n x : ℕ) → x < n → ◌≡◌ {A = ℕ} (get_or (replicate n 4) x 0) 4
four zero x lt = absurd (omega arith)
four (suc n) zero lt = refl
four (suc n) (suc x) lt = four n x (omega arith)

module _ (g : Graph) (n : ℕ) (cells : HasCells n g) where
  pr_iteration-IsReady :
      (s : Schedules) (prev : ℕ → ℕ) (m : Ranks)
      → IsReady n prev m
      → IsReady n (next_prev g n prev) (pr_iteration g n s m)
  unfolding pr_iteration
  pr_iteration-IsReady s prev m r =
      let spread = spreading_lem g n cells m.prev s.spreading m refl r.rank_size (λ x.
        elim (dec_lt x n) [
          | yes lt ↦ r.clear x lt
          | no ge ↦ get_or-out m.rank x 0 (omega (arith, r.rank_size))
        ]) in
      let settled =
        settling_lem n _ s.settling _ refl spread.0 (ap length spread.1 ∙ r.prev_size) in
      record {
        rank_size = settled.0;
        prev_size = settled.1;
        clear = λ x lt. (settled.2 x lt).1;
        ranked = λ x lt.
            (settled.2 x lt).0
            ∙ ap (λ v. v / 2) (spread.2 x lt)
            ∙ ap (λ v. u32 v / 2)
                (inflow_congr g (λ i. get_or m.prev i 0) prev x 0 n n (omega arith) r.ranked);
      }

  pr_push-IsReady :
      (scheds : ℕ → Schedules) (it k : ℕ) (prev : ℕ → ℕ) (m : Ranks)
      → IsReady n prev m
      → IsReady n (prev_after g n k prev) (pr_push g n scheds it k m)
  unfolding pr_push prev_after
  pr_push-IsReady scheds it zero prev m r = r
  pr_push-IsReady scheds it (suc k) prev m r =
      pr_push-IsReady scheds (it + 1) k (next_prev g n prev) (pr_iteration g n (scheds it) m)
        (pr_iteration-IsReady (scheds it) prev m r)

  -- `pr_hub` in push mode returns for a positive number of iterations, and `prev` then holds that many
  -- steps of the recurrence from 4 at every node, with the ranks cleared: no `atomicAdd` is lost and no
  -- order of the threads matters.
  pub pr_hub-push :
      (scheds : ℕ → Schedules) (k : ℕ)
      → (m : Ranks) × (pr_hub g n scheds (suc k) 0 ≡ some m)
        × ((x : ℕ)
            → x < n
            → (get_or m.prev x 0 ≡ prev_after g n (suc k) (λ _. 4) x) × (get_or m.rank x 0 ≡ 0))
  unfolding pr_hub
  pr_hub-push scheds k =
      let r =
        pr_push-IsReady scheds 0 (suc k) (λ _. 4)
          (record { rank = replicate n 0; prev = replicate n 4 })
          (record {
            rank_size = length-replicate n 0;
            prev_size = length-replicate n 4;
            clear = λ x lt. get_or-replicate n x 0;
            ranked = λ x lt. four n x lt;
          }) in
      (_, refl, λ x lt. (r.ranked x lt, r.clear x lt))
