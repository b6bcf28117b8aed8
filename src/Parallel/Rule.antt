-- ===== src/Parallel/Rule.antt =====
-- The proof rules of `parallel_for`: an invariant of the single steps holds when it returns, and all
-- tasks have ended.
use graph_benchmark.Base.{
  ℕ, zero, suc, ◌-◌, ◌≤◌, arith, List, [], ◌∷◌, ◌++◌, All, append_assoc, map, ◌≡◌, ◌⊎◌, inl, inr,
  sym, subst,
}
use mathlib.Core.List.{map-append}
use graph_benchmark.Parallel.{pick, run, advance, drain, parallel_for, Keeps}

module _ {κ} {M T : Type 0} (step : T → M → T × M) (P : List T → M → Type κ)
    (keep : Keeps step P) where
  pick_inv :
      (pre : List T) (i : ℕ) (ts : List T) (m : M)
      → P (pre ++ ts) m
      → P (pre ++ (pick step i ts m).0) (pick step i ts m).1
  pick_inv pre i [] m p = p
  pick_inv pre zero (t ∷ ts) m p = keep pre t ts m p
  pick_inv pre (suc i) (t ∷ ts) m p =
      let q = pick_inv (pre ++ t ∷ []) i ts m (rw append_assoc p) in rw append_assoc at q

  run_inv :
      (is : List ℕ) (ts : List T) (m : M) → P ts m → P (run step is ts m).0 (run step is ts m).1
  unfolding run
  run_inv [] ts m p = p
  run_inv (i ∷ is) ts m p =
      run_inv is (pick step i ts m).0 (pick step i ts m).1 (pick_inv [] i ts m p)

  advance_inv :
      (n : ℕ) (pre : List T) (t : T) (post : List T) (m : M)
      → P (pre ++ t ∷ post) m
      → P (pre ++ (advance step n t m).0 ∷ post) (advance step n t m).1
  unfolding advance
  advance_inv zero pre t post m p = p
  advance_inv (suc n) pre t post m p =
      advance_inv n pre (step t m).0 post (step t m).1 (keep pre t post m p)

  drain_inv :
      (budget : T → ℕ) (pre ts : List T) (m : M)
      → P (pre ++ ts) m
      → P (pre ++ (drain step budget ts m).0) (drain step budget ts m).1
  unfolding drain
  drain_inv budget pre [] m p = p
  drain_inv budget pre (t ∷ ts) m p =
      let t' = (advance step (budget t) t m).0 in
      let m' = (advance step (budget t) t m).1 in
      let q = advance_inv (budget t) pre t ts m p in
      let r = drain_inv budget (pre ++ t' ∷ []) ts m' (rw append_assoc q) in rw append_assoc at r

  -- What every step keeps holds when the loop returns, whatever the schedule.
  pub parallel_for_inv :
      (budget : T → ℕ) (schedule : List ℕ) (ts : List T) (m : M)
      → P ts m
      → P (parallel_for step budget schedule ts m).0 (parallel_for step budget schedule ts m).1
  unfolding parallel_for
  parallel_for_inv budget schedule ts m p =
      let done = run step schedule ts m in
      drain_inv budget [] done.0 done.1 (run_inv schedule ts m p)

module _ {κ} {M T : Type 0} (step : T → M → T × M) (budget : T → ℕ) (Ended : T → Type κ)
    (enough : (t : T) (m : M) → Ended (advance step (budget t) t m).0) where
  drain-Ended : (ts : List T) (m : M) → All Ended (drain step budget ts m).0
  unfolding drain
  drain-Ended [] m = tt
  drain-Ended (t ∷ ts) m = (enough t m, drain-Ended ts (advance step (budget t) t m).1)

  -- If the budget of a task is enough for it alone, all tasks have ended when the loop returns.
  pub parallel_for-Ended :
      (schedule : List ℕ) (ts : List T) (m : M)
      → All Ended (parallel_for step budget schedule ts m).0
  unfolding parallel_for
  parallel_for-Ended schedule ts m = let done = run step schedule ts m in drain-Ended done.0 done.1

-- A part of the tasks' state and of the memory moves as tasks of its own, or stands still.
module _ {M T M' T' : Type 0} (step : T → M → T × M) (step' : T' → M' → T' × M') (view : T → T')
    (part : M → M') where
  abbrev seen : T × M → T' × M'
  seen (t, m) = (view t, part m)

  abbrev pub Simulates : T → M → Type 0
  Simulates t m = (seen (step t m) ≡ step' (view t) (part m)) ⊎ (seen (step t m) ≡ (view t, part m))

  -- An invariant of the part is one of the whole.
  pub Keeps-map {κ} :
      (Q : List T' → M' → Type κ)
      → ((t : T) (m : M) → Simulates t m)
      → Keeps step' Q
      → Keeps step (λ ts m. Q (map view ts) (part m))
  Keeps-map Q sim keep pre t post m q = rw map-append (elim (sim t m) [
    | inl moved ↦
        subst After (sym moved)
          (keep (map view pre) (view t) (map view post) (part m) (rw map-append at q))
    | inr same ↦ subst After (sym same) (rw map-append at q)
  ])
    where
      After : T' × M' → Type κ
      After (t', m') = Q (map view pre ++ t' ∷ map view post) m'

-- If every step uses up some of the budget, the budget is enough.
module _ {M T : Type 0} (step : T → M → T × M) (budget : T → ℕ)
    (falls : (t : T) (m : M) → budget (step t m).0 ≤ budget t - 1) where
  advance_spent_within : (n : ℕ) (t : T) (m : M) → budget t ≤ n → budget (advance step n t m).0 ≡ 0
  unfolding advance
  advance_spent_within zero t m h = omega arith
  advance_spent_within (suc n) t m h =
      advance_spent_within n (step t m).0 (step t m).1 (omega (arith, falls t m))

  pub advance_spent : (t : T) (m : M) → budget (advance step (budget t) t m).0 ≡ 0
  advance_spent t m = advance_spent_within (budget t) t m (omega arith)
