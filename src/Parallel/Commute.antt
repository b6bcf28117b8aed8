-- ===== src/Parallel/Commute.antt =====
-- Tasks whose accesses commute: their parallel run leaves the memory of the sequential loop.
use graph_benchmark.Base.{ℕ, List, [], ◌∷◌, ◌++◌, ◌≡◌, refl, sym, ap, ap₂, ◌∙◌, All}
use graph_benchmark.Parallel.{advance, parallel_for}
use graph_benchmark.Parallel.Rule.{parallel_for_inv, parallel_for-Ended}

module _ {M T : Type 0} (settle : T → M → M) where
  -- All that the tasks have left to do, one task after the other.
  unfoldable pub settle_all : List T → M → M
  settle_all [] m = m
  settle_all (t ∷ ts) m = settle_all ts (settle t m)

  settle_all_ended :
      {Ended : T → Type 0}
      → ((t : T) (m : M) → Ended t → settle t m ≡ m)
      → (ts : List T) (m : M) → All Ended ts
      → settle_all ts m ≡ m
  unfolding settle_all
  settle_all_ended idle [] m e = refl
  settle_all_ended idle (t ∷ ts) m e = rw (idle t m e.0) (settle_all_ended idle ts m e.1)

  -- `settle` says what a task has left to do: a step does the first part of it, an ended task has
  -- nothing left, and a step gives the same wherever another task's rest is done before it.
  pub record Commutes (step : T → M → T × M) (Ended : T → Type 0) : Type 0 where
    pub first : (t : T) (m : M) → settle (step t m).0 (step t m).1 ≡ settle t m
    pub ended : (t : T) (m : M) → Ended t → settle t m ≡ m
    pub task : (t u : T) (m : M) → (step t (settle u m)).0 ≡ (step t m).0
    pub memory : (t u : T) (m : M) → (step t (settle u m)).1 ≡ settle u (step t m).1

module _ {M T : Type 0} {settle : T → M → M} {step : T → M → T × M} {Ended : T → Type 0}
    (laws : Commutes settle step Ended) where
  settle_all-step :
      (pre : List T) (t : T) (post : List T) (m : M)
      → settle_all settle (pre ++ (step t m).0 ∷ post) (step t m).1
        ≡ settle_all settle (pre ++ t ∷ post) m
  unfolding settle_all
  settle_all-step [] t post m = ap (settle_all settle post) (laws.first t m)
  settle_all-step (u ∷ pre) t post m =
      ap₂ (λ t' m'. settle_all settle (pre ++ t' ∷ post) m') (sym (laws.task t u m))
        (sym (laws.memory t u m))
      ∙ settle_all-step pre t post (settle u m)

  -- The memory after the parallel loop is that of the tasks run one after the other.
  pub parallel_for-eq-settle_all :
      (budget : T → ℕ)
      → ((t : T) (m : M) → Ended (advance step (budget t) t m).0)
      → (schedule : List ℕ) (ts : List T) (m : M)
      → (parallel_for step budget schedule ts m).1 ≡ settle_all settle ts m
  parallel_for-eq-settle_all budget enough schedule ts m =
      let ended = parallel_for-Ended step budget Ended enough schedule ts m in
      let kept =
        parallel_for_inv step (λ us n. settle_all settle us n ≡ settle_all settle ts m)
          (λ pre t post n e. settle_all-step pre t post n ∙ e) budget schedule ts m refl in
      let done = parallel_for step budget schedule ts m in
      sym (settle_all_ended settle laws.ended done.0 done.1 ended) ∙ kept
