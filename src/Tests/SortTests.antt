-- ===== src/Tests/SortTests.antt =====
-- `sort_by_degree` and `main` of reorder.cpp on a small input, with an insertion sort for `std::sort`.
use graph_benchmark.Base.{
  ◌++◌, ℕ, suc, ◌≡◌, refl, ap, inl, inr, arith, Bool, true, false, List, [], ◌∷◌, ◌++◌, none, some,
  length, count, replicate, get_or-replicate, if◌then◌else◌, Bool-cases, All, All-map,
}
use graph_benchmark.File.{edges_of, bytes_of, after_read, read_all, read_loop, overwrite}
use graph_benchmark.Parallel.{parallel_for, run, drain, advance}
use graph_benchmark.Reorder.{assign_numbers, assign_loop, stays, relabel, relabelers, relabel_step}
use graph_benchmark.Reorder.Sort.{
  Sorting, Cells, Schedules, Output, precedes, sort_by_degree, reorder, tally, tally_step,
  increment, place_all, place_step, placers,
}
use graph_benchmark.Reorder.Rising.{Rising, Sorts}
use graph_benchmark.Reorder.Degrees.{IsReordered, IsClear, sort_by_degree-IsReordered}
use graph_benchmark.Reorder.Program.{
  Flag, flag_i, flag_o, flag_v, flag_a, flag_unknown, usage, died, reorder_main, reorder_main-usage,
  reorder_main-died,
}
use graph_benchmark.Tests.Data.{edges, schedule}
use graph_benchmark.Tests.FileTests.{file, cells, file-IsReadable, cells-size}

abbrev insert : (ℕ → ℕ → Bool) → ℕ → List ℕ → List ℕ
insert less x [] = x ∷ []
insert less x (y ∷ ys) = let rest = insert less x ys in if less x y then x ∷ y ∷ ys else y ∷ rest

abbrev insertion_sort : Sorting
insertion_sort less [] = []
insertion_sort less (x ∷ xs) = insert less x (insertion_sort less xs)

module _ (ascending : Bool) (degrees : List ℕ) where
  abbrev less : ℕ → ℕ → Bool
  less = precedes ascending degrees

  asymmetric : (x y : ℕ) → less x y ≡ true → less y x ≡ false
  unfolding precedes
  asymmetric x y e = ground arith

  between : (x y z : ℕ) → less x y ≡ true → less z y ≡ false → less z x ≡ false
  unfolding precedes
  between x y z e f = ground arith

  insert-All : (P : ℕ → Type 0) (x : ℕ) (ys : List ℕ) → P x → All P ys → All P (insert less x ys)
  insert-All P x [] p h = (p, tt)
  insert-All P x (y ∷ ys) p h = elim (Bool-cases (less x y)) [
    | inl e ↦ rw e (p, h)
    | inr e ↦ rw e (h.0, insert-All P x ys p h.1)
  ]

  insert-Rising : (x : ℕ) (ys : List ℕ) → Rising less ys → Rising less (insert less x ys)
  insert-Rising x [] up = (tt, tt)
  insert-Rising x (y ∷ ys) up = elim (Bool-cases (less x y)) [
    | inl e ↦ rw e (
      (
        asymmetric x y e,
        All-map (λ z. less z y ≡ false) (λ z. less z x ≡ false) (λ z f. between x y z e f) ys up.0,
      ),
      up,
    )
    | inr e ↦ rw e (insert-All (λ z. less z y ≡ false) x ys e up.0, insert-Rising x ys up.1)
  ]

  count-insert : (v x : ℕ) (ys : List ℕ) → count v (insert less x ys) ≡ count v (x ∷ ys)
  count-insert v x [] = refl
  count-insert v x (y ∷ ys) = elim (Bool-cases (less x y)) [
    | inl e ↦ rw e refl
    | inr e ↦ rw e (omega (arith, count-insert v x ys))
  ]

  length-insert : (x : ℕ) (ys : List ℕ) → length (insert less x ys) ≡ length (x ∷ ys)
  length-insert x [] = refl
  length-insert x (y ∷ ys) = elim (Bool-cases (less x y)) [
    | inl e ↦ rw e refl
    | inr e ↦ rw e (ap suc (length-insert x ys))
  ]

  insertion_sort-Sorts : (xs : List ℕ) → Sorts less xs (insertion_sort less xs)
  insertion_sort-Sorts [] = record { size = refl; same = λ x. refl; rising = tt }
  insertion_sort-Sorts (x ∷ xs) =
      let s = insertion_sort-Sorts xs in
      record {
        size = omega (arith, length-insert x (insertion_sort less xs), s.size);
        same = λ v. omega (arith, count-insert v x (insertion_sort less xs), s.same v);
        rising = insert-Rising x (insertion_sort less xs) s.rising;
      }

abbrev arrays : Cells
arrays = record {
  edges = cells;
  degrees = replicate 4 0;
  ordered = replicate 4 9;
  mapping = replicate 4 9;
}

abbrev schedules : Schedules
schedules = record { tallying = schedule; placing = schedule; relabelling = schedule }

-- The degrees are 3, 1, 0 and 0.
sort_by_degree-runs :
    sort_by_degree insertion_sort file arrays schedules true false 4
    ≡ some record {
      mapping = 3 ∷ 2 ∷ 1 ∷ 0 ∷ [];
      bytes = bytes_of (
          record { src = 3; dst = 2 }
          ∷ record { src = 2; dst = 1 }
          ∷ record { src = 3; dst = 1 }
          ∷ record { src = 3; dst = 1 }
          ∷ []);
      nodes = 4;
      edges = 4;
    }
unfolding sort_by_degree reorder after_read read_all read_loop overwrite edges_of bytes_of tally
    tally_step increment place_all place_step placers precedes assign_numbers assign_loop stays
    relabel relabelers relabel_step parallel_for run drain advance
sort_by_degree-runs = refl

arrays-IsClear : IsClear 4 file arrays
arrays-IsClear = record {
  buffer = cells-size;
  counters = refl;
  cleared = λ x. get_or-replicate 4 x 0;
  order = refl;
  names = refl;
}

sort_by_degree-IsReordered_example :
    (o : Output) × (sort_by_degree insertion_sort file arrays schedules true true 4 ≡ some o)
    × IsReordered true true 4 edges o
sort_by_degree-IsReordered_example =
    sort_by_degree-IsReordered insertion_sort file arrays schedules true true 4 edges
      (insertion_sort-Sorts true) arrays-IsClear (omega arith) (omega arith) (omega arith)
      file-IsReadable refl

reorder_main-usage_example :
    reorder_main insertion_sort length
      (λ path. file)
      arrays
      schedules
      []
      []
      none
      none
      (flag_a ∷ [] ++ flag_unknown ∷ flag_i [] ∷ [])
    ≡ usage
reorder_main-usage_example =
    reorder_main-usage insertion_sort length (λ path. file) arrays schedules [] [] none none
      (flag_a ∷ []) (flag_i [] ∷ [])

-- `-i x -v '' -o y -a`
abbrev bare_flags : List Flag
bare_flags = flag_i (120 ∷ []) ∷ flag_v [] ∷ flag_o (121 ∷ []) ∷ flag_a ∷ []

reorder_main-died_example :
    reorder_main insertion_sort length (λ path. file) arrays schedules [] [] none none bare_flags
    ≡ died
reorder_main-died_example =
    reorder_main-died insertion_sort length (λ path. file) arrays schedules [] [] none none
      bare_flags (tt, (refl, (tt, (tt, tt))))
