-- ===== src/Parallel/Owner.antt =====
-- Parallel loops in which each run of the body writes the cells of its own index only.
use graph_benchmark.Base.{
  ℕ, ◌≡◌, ◌≢◌, ◌≤◌, ◌<◌, ℕ_discrete, subst, sym, ap, ◌∙◌, List, [], ◌∷◌, ◌++◌, map, arith, All,
  All-append, All-split, count, total-append, if◌then◌else◌, ◌==◌,
}
use mathlib.Core.List.{map-append}
use graph_benchmark.Parallel.{Keeps, parallel_for}
use graph_benchmark.Parallel.Rule.{parallel_for_inv}

module _ {M T : Type 0} (step : T → M → T × M) (index : T → ℕ) (Valid : M → Type 0)
    (Own : M → T → Type 0) where
  -- What a step of one task means for the memory, for its own task, and for a task of another index.
  pub record Owns : Type 0 where
    pub same : (t : T) (m : M) → index (step t m).0 ≡ index t
    pub valid : (t : T) (m : M) → Valid m → Own m t → Valid (step t m).1
    pub own : (t : T) (m : M) → Valid m → Own m t → Own (step t m).1 (step t m).0
    pub other :
        (t u : T) (m : M) → Valid m → index u ≢ index t → Own m t → Own m u → Own (step t m).1 u

  -- No index has two tasks.
  pub record Owned (indices : List ℕ) (ts : List T) (m : M) : Type 0 where
    pub valid : Valid m
    pub own : All (Own m) ts
    pub indexed : map index ts ≡ indices
    pub distinct : (x : ℕ) → count x indices ≤ 1

module _ {M T : Type 0} {step : T → M → T × M} {index : T → ℕ} {Valid : M → Type 0}
    {Own : M → T → Type 0} (laws : Owns step index Valid Own) where
  others_keep :
      (t : T) (m : M)
      → Valid m
      → Own m t
      → (us : List T) → count (index t) (map index us) ≡ 0
      → All (Own m) us
      → All (Own (step t m).1) us
  others_keep t m v o [] none us_own = tt
  others_keep t m v o (u ∷ us) none us_own =
      (laws.other t u m v (ground arith) o us_own.0, others_keep t m v o us (ground arith) us_own.1)

  pub Owned-keep : (indices : List ℕ) → Keeps step (Owned step index Valid Own indices)
  Owned-keep indices pre t post m w =
      let (before, rest) = All-split (Own m) pre (t ∷ post) w.own in
      let here : count (index t) (map index pre ++ index t ∷ map index post) ≤ 1 =
        rw (← map-append index pre (t ∷ post), w.indexed) (w.distinct (index t)) in
      let split =
        total-append (λ y. if index t == y then 1 else 0) (map index pre)
          (index t ∷ map index post) in
      record {
        valid = laws.valid t m w.valid rest.0;
        own =
            All-append (Own (step t m).1) pre ((step t m).0 ∷ post)
              (others_keep t m w.valid rest.0 pre (ground (arith, split, here)) before)
              (
                laws.own t m w.valid rest.0,
                others_keep t m w.valid rest.0 post (ground (arith, split, here)) rest.1,
              );
        indexed =
            map-append index pre ((step t m).0 ∷ post)
            ∙ ap (λ i. map index pre ++ i ∷ map index post) (laws.same t m)
            ∙ sym (map-append index pre (t ∷ post))
            ∙ w.indexed;
        distinct = w.distinct;
      }

  -- Every task's own condition holds when the loop returns, for the same indices.
  pub parallel_for-Owned :
      (budget : T → ℕ) (schedule indices : List ℕ) (ts : List T) (m : M)
      → Owned step index Valid Own indices ts m
      → Owned step index Valid Own indices
          (parallel_for step budget schedule ts m).0
          (parallel_for step budget schedule ts m).1
  parallel_for-Owned budget schedule indices ts m w =
      parallel_for_inv step (Owned step index Valid Own indices) (Owned-keep indices) budget
        schedule ts m w

-- A condition on all tasks holds at each index that has a task.
pub All-index :
    {T : Type 0} (index : T → ℕ) (P : ℕ → Type 0) (ts : List T)
    → All (λ t. P (index t)) ts
    → (x : ℕ) → 0 < count x (map index ts)
    → P x
All-index index P [] a x h = absurd (omega arith)
All-index index P (t ∷ ts) a x h = elim (ℕ_discrete x (index t)) [
  | yes e ↦ subst P (sym e) a.0
  | no ne ↦ All-index index P ts a.1 x (ground arith)
]
