-- ===== src/Reorder/Loops.antt =====
-- The two parallel loops before the sort, whatever their interleavings: the counters are the degrees, and
-- `ordered` holds the nodes in their order.
use graph_benchmark.Base.{
  ℕ, zero, suc, ◌+◌, ◌≡◌, ◌<◌, ◌≤◌, ◌^◌, refl, sym, ap, ◌∙◌, List, [], ◌∷◌, map, arith, length,
  length-set, get_or, set, get_or-set_self, get_or-set_ne, u32, eq_of_get_or, range_from,
  length-range_from, get_or-range_from, ℕ_discrete,
}
use graph_benchmark.Graph.{Edge, degree}
use graph_benchmark.Parallel.{advance}
use graph_benchmark.Parallel.Commute.{Commutes, settle_all, parallel_for-eq-settle_all}
use graph_benchmark.Reorder.Sort.{
  increment, Tally, tallying, tallied, tally_step, tally_budget, tally, Place, placing, placed,
  place_step, place_budget, placers, place_all,
}

increment_comm : (a : List ℕ) (i j : ℕ) → increment (increment a i) j ≡ increment (increment a j) i
unfolding increment
increment_comm [] i j = refl
increment_comm (x ∷ a) zero zero = refl
increment_comm (x ∷ a) zero (suc j) = refl
increment_comm (x ∷ a) (suc i) zero = refl
increment_comm (x ∷ a) (suc i) (suc j) = ap (◌∷◌ x) (increment_comm a i j)

settle_tally : Tally → List ℕ → List ℕ
settle_tally (tallying e) a = increment a e.src
settle_tally tallied a = a

tally-Commutes : Commutes settle_tally tally_step (λ t. t ≡ tallied)
unfolding settle_tally tally_step
tally-Commutes = record { first = first; ended = λ t a e. rw e refl; task = task; memory = memory }
  where
    first :
        (t : Tally) (a : List ℕ)
        → settle_tally (tally_step t a).0 (tally_step t a).1 ≡ settle_tally t a
    first (tallying e) a = refl
    first tallied a = refl

    task : (t u : Tally) (a : List ℕ) → (tally_step t (settle_tally u a)).0 ≡ (tally_step t a).0
    task (tallying e) u a = refl
    task tallied u a = refl

    memory :
        (t u : Tally) (a : List ℕ)
        → (tally_step t (settle_tally u a)).1 ≡ settle_tally u (tally_step t a).1
    memory (tallying e) (tallying f) a = increment_comm a f.src e.src
    memory (tallying e) tallied a = refl
    memory tallied u a = refl

tally_enough : (t : Tally) (a : List ℕ) → (advance tally_step (tally_budget t) t a).0 ≡ tallied
unfolding advance tally_step
tally_enough (tallying e) a = refl
tally_enough tallied a = refl

abbrev tallies : List Edge → List ℕ → List ℕ
tallies [] a = a
tallies (e ∷ es) a = tallies es (increment a e.src)

tally-eq-tallies :
    (schedule : List ℕ) (edges : List Edge) (a : List ℕ) → tally schedule edges a ≡ tallies edges a
unfolding tally settle_all settle_tally increment
tally-eq-tallies schedule edges a =
    parallel_for-eq-settle_all tally-Commutes tally_budget tally_enough schedule
      (map tallying edges) a
    ∙ each edges a
  where
    each :
        (es : List Edge) (a : List ℕ) → settle_all settle_tally (map tallying es) a ≡ tallies es a
    each [] a = refl
    each (e ∷ es) a = each es (increment a e.src)

get_or-tallies :
    (edges : List Edge) (a : List ℕ) (v : ℕ)
    → v < length a
    → get_or a v 0 + degree edges v < 2 ^ 32
    → get_or (tallies edges a) v 0 ≡ get_or a v 0 + degree edges v
unfolding increment degree
get_or-tallies [] a v lt h = omega arith
get_or-tallies (e ∷ es) a v lt h = ground (
  arith,
  get_or-tallies es (increment a e.src) v,
  length-set a e.src (u32 (get_or a e.src 0 + 1)),
  get_or-set_self a v (u32 (get_or a e.src 0 + 1)) 0,
  get_or-set_ne a e.src v (u32 (get_or a e.src 0 + 1)) 0,
)

-- From cleared counters, a counter ends as the degree of its node.
pub get_or-tally :
    (schedule : List ℕ) (edges : List Edge) (a : List ℕ) (v : ℕ)
    → v < length a
    → get_or a v 0 ≡ 0
    → degree edges v < 2 ^ 32
    → get_or (tally schedule edges a) v 0 ≡ degree edges v
get_or-tally schedule edges a v lt clear small =
    ap (λ b. get_or b v 0) (tally-eq-tallies schedule edges a)
    ∙ (omega (arith, get_or-tallies edges a v lt, clear, small))

set_comm : (a : List ℕ) (i j v w : ℕ) → (i ≡ j → v ≡ w) → set (set a i v) j w ≡ set (set a j w) i v
set_comm [] i j v w h = refl
set_comm (x ∷ a) zero zero v w h = ap (λ z. z ∷ a) (sym (h refl))
set_comm (x ∷ a) zero (suc j) v w h = refl
set_comm (x ∷ a) (suc i) zero v w h = refl
set_comm (x ∷ a) (suc i) (suc j) v w h = ap (◌∷◌ x) (set_comm a i j v w (λ e. h (ap suc e)))

settle_place : Place → List ℕ → List ℕ
settle_place (placing i) a = set a i (u32 i)
settle_place placed a = a

place-Commutes : Commutes settle_place place_step (λ t. t ≡ placed)
unfolding settle_place place_step
place-Commutes = record { first = first; ended = λ t a e. rw e refl; task = task; memory = memory }
  where
    first :
        (t : Place) (a : List ℕ)
        → settle_place (place_step t a).0 (place_step t a).1 ≡ settle_place t a
    first (placing i) a = refl
    first placed a = refl

    task : (t u : Place) (a : List ℕ) → (place_step t (settle_place u a)).0 ≡ (place_step t a).0
    task (placing i) u a = refl
    task placed u a = refl

    memory :
        (t u : Place) (a : List ℕ)
        → (place_step t (settle_place u a)).1 ≡ settle_place u (place_step t a).1
    memory (placing i) (placing j) a = set_comm a j i (u32 j) (u32 i) (ap u32)
    memory (placing i) placed a = refl
    memory placed u a = refl

place_enough : (t : Place) (a : List ℕ) → (advance place_step (place_budget t) t a).0 ≡ placed
unfolding advance place_step
place_enough (placing i) a = refl
place_enough placed a = refl

placings : ℕ → ℕ → List ℕ → List ℕ
placings i zero a = a
placings i (suc n) a = placings (i + 1) n (set a i (u32 i))

place_all-eq-placings :
    (schedule : List ℕ) (n : ℕ) (a : List ℕ) → place_all schedule n a ≡ placings 0 n a
unfolding place_all settle_all settle_place placers placings
place_all-eq-placings schedule n a =
    parallel_for-eq-settle_all place-Commutes place_budget place_enough schedule (placers 0 n) a
    ∙ each 0 n a
  where
    each : (i k : ℕ) (a : List ℕ) → settle_all settle_place (placers i k) a ≡ placings i k a
    each i zero a = refl
    each i (suc k) a = each (i + 1) k (set a i (u32 i))

length-placings : (i n : ℕ) (a : List ℕ) → length (placings i n a) ≡ length a
unfolding placings
length-placings i zero a = refl
length-placings i (suc n) a = length-placings (i + 1) n (set a i (u32 i)) ∙ length-set a i (u32 i)

placings-before :
    (i n : ℕ) (a : List ℕ) (x : ℕ) → x < i → get_or (placings i n a) x 0 ≡ get_or a x 0
unfolding placings
placings-before i zero a x h = refl
placings-before i (suc n) a x h =
    placings-before (i + 1) n (set a i (u32 i)) x (omega arith)
    ∙ get_or-set_ne a i x (u32 i) 0 (λ e. omega arith)

get_or-placings :
    (i n : ℕ) (a : List ℕ) (x : ℕ)
    → i + n ≤ length a
    → i ≤ x
    → x < i + n
    → get_or (placings i n a) x 0 ≡ u32 x
unfolding placings
get_or-placings i zero a x h low high = absurd (omega arith)
get_or-placings i (suc n) a x h low high = elim (ℕ_discrete x i) [
  | yes e ↦ rw e (
      placings-before (i + 1) n (set a i (u32 i)) i (omega arith)
      ∙ get_or-set_self a i (u32 i) 0 (omega arith))
  | no ne ↦
      get_or-placings (i + 1) n (set a i (u32 i)) x (omega (arith, length-set a i (u32 i)))
        (omega arith) (omega arith)
]

-- The array ends with every node at its own index.
pub place_all-range :
    (schedule : List ℕ) (n : ℕ) (a : List ℕ)
    → length a ≡ n
    → n < 2 ^ 32
    → place_all schedule n a ≡ range_from 0 n
place_all-range schedule n a size small =
    place_all-eq-placings schedule n a
    ∙ eq_of_get_or (placings 0 n a) (range_from 0 n) 0
        (length-placings 0 n a ∙ size ∙ sym (length-range_from 0 n))
        (λ x lt.
          let inside : x < n = omega (arith, length-placings 0 n a) in
          omega (
            arith,
            get_or-placings 0 n a x (omega arith) (omega arith) (omega arith),
            get_or-range_from 0 n x inside,
          ))
