-- ===== src/Bandwidth/Barrier/Uncounted.antt =====
-- The barrier of the program: a global that nothing sets up, so that its count is 0.
use graph_benchmark.Base.{
  ℕ, zero, suc, ◌+◌, ◌≡◌, ◌⊎◌, inl, inr, refl, List, [], ◌∷◌, map, replicate, arith, get_or, modify,
  ltb, false,
}
use graph_benchmark.Bandwidth.Barrier.{
  Phase, outside, waiting, awake, passed, Hall, wake, barrier_init, barrier_cross, barrier_leave,
  Step, cross, leave, Reach, here, next,
}

-- No thread waits, and none has been woken.
record Flows (h : Hall) : Type 0 where
  uncounted : h.barrier.count ≡ 0
  each : (i : ℕ) → (get_or h.phases i passed ≡ outside) ⊎ (get_or h.phases i passed ≡ passed)

each-replicate :
    (n i : ℕ)
    → (get_or (replicate n outside) i passed ≡ outside)
      ⊎ (get_or (replicate n outside) i passed ≡ passed)
each-replicate zero i = inr refl
each-replicate (suc n) zero = inl refl
each-replicate (suc n) (suc i) = each-replicate n i

each-wake :
    (ps : List Phase) (i : ℕ)
    → (get_or ps i passed ≡ outside) ⊎ (get_or ps i passed ≡ passed)
    → (get_or (map wake ps) i passed ≡ outside) ⊎ (get_or (map wake ps) i passed ≡ passed)
unfolding wake
each-wake [] i e = e
each-wake (outside ∷ ps) zero e = inl refl
each-wake (passed ∷ ps) zero e = inr refl
each-wake (waiting ∷ ps) zero (inl e) = inl cc
each-wake (waiting ∷ ps) zero (inr e) = inr cc
each-wake (awake ∷ ps) zero (inl e) = inl cc
each-wake (awake ∷ ps) zero (inr e) = inr cc
each-wake (p ∷ ps) (suc i) e = each-wake ps i e

each-modify :
    (ps : List Phase) (k i : ℕ)
    → (get_or ps i passed ≡ outside) ⊎ (get_or ps i passed ≡ passed)
    → (get_or (modify ps k (λ _. passed)) i passed ≡ outside)
      ⊎ (get_or (modify ps k (λ _. passed)) i passed ≡ passed)
each-modify [] k i e = e
each-modify (p ∷ ps) zero zero e = inr refl
each-modify (p ∷ ps) zero (suc i) e = e
each-modify (p ∷ ps) (suc k) zero e = e
each-modify (p ∷ ps) (suc k) (suc i) e = each-modify ps k i e

Step-Flows : {h t : Hall} → Flows h → Step h t → Flows t
unfolding barrier_cross barrier_leave
Step-Flows {h} f (cross k lt e) =
    let at_once : ltb (h.barrier.crossed + 1) h.barrier.count ≡ false =
      ground (arith, f.uncounted) in
    rw at_once (record {
      uncounted = f.uncounted;
      each = λ i. each-modify (map wake h.phases) k i (each-wake h.phases i (f.each i));
    })
Step-Flows {h} f (leave k lt e) = record {
  uncounted = f.uncounted;
  each = λ i. each-modify h.phases k i (f.each i);
}

Reach-Flows : (n : ℕ) {h : Hall} → Reach (barrier_init 0 n) h → Flows h
unfolding barrier_init
Reach-Flows n here = record { uncounted = refl; each = each-replicate n }
Reach-Flows n (next r s) = Step-Flows (Reach-Flows n r) s

-- A barrier with count 0 stops nobody: in every run each thread is before it or has passed, and none
-- waits.
pub barrier_cross_uncounted :
    (n : ℕ) {h : Hall}
    → Reach (barrier_init 0 n) h
    → (i : ℕ) → (get_or h.phases i passed ≡ outside) ⊎ (get_or h.phases i passed ≡ passed)
barrier_cross_uncounted n r = (Reach-Flows n r).each
