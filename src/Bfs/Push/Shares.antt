-- ===== src/Bfs/Push/Shares.antt =====
-- The nodes that the threads of a round of `bfs_push` start from are those of its frontier.
use graph_benchmark.Base.{
  ℕ, zero, suc, ◌+◌, ◌≡◌, ◌<◌, ◌≤◌, refl, sym, ap, ◌∙◌, List, [], ◌∷◌, map, arith, get_or, segment,
  segment-suc, count, range_from, dec_lt, ℕ_discrete,
}
use graph_benchmark.Buffer.{ThreadBuffer, contents, at}
use graph_benchmark.Bfs.Push.{Round, IsSound, indices_of}
use graph_benchmark.Bfs.Push.Level.{IsRoomy}

pub mapped-listed : (f : ℕ → ℕ) (xs : List ℕ) (x : ℕ) → 0 < count x xs → 0 < count (f x) (map f xs)
mapped-listed f [] x h = absurd (omega arith)
mapped-listed f (y ∷ ys) x h = elim (ℕ_discrete x y) [
  | yes e ↦ rw e (ground arith)
  | no ne ↦ ground (arith, mapped-listed f ys x)
]

listed-of_mapped :
    (f : ℕ → ℕ) (xs : List ℕ) (y : ℕ)
    → 0 < count y (map f xs)
    → (x : ℕ) × (0 < count x xs) × (f x ≡ y)
listed-of_mapped f [] y h = absurd (omega arith)
listed-of_mapped f (x ∷ xs) y h = elim (ℕ_discrete y (f x)) [
  | yes e ↦ (x, ground arith, sym e)
  | no ne ↦ let (z, listed, e) = listed-of_mapped f xs y (ground arith) in (z, ground arith, e)
]

range_from-high : (x i n : ℕ) → i + n ≤ x → count x (range_from i n) ≡ 0
range_from-high x i zero h = refl
range_from-high x i (suc n) h = ground (arith, range_from-high x (i + 1) n)

module _ {n : ℕ} {frontier : ThreadBuffer} (roomy : IsRoomy n frontier) where
  at-segment :
      (i k : ℕ)
      → i + k ≡ frontier.next
      → map (at frontier) (range_from i k) ≡ segment frontier.buffer i k
  unfolding at
  at-segment i zero e = refl
  at-segment i (suc k) e =
      ap (◌∷◌ (get_or frontier.buffer i 0)) (at-segment (i + 1) k (omega arith))
      ∙ sym (segment-suc i k frontier.buffer 0 (omega (arith, roomy.0.cells, roomy.0.within)))

  at-contents : map (at frontier) (range_from 0 frontier.next) ≡ contents frontier
  at-contents = at-segment 0 frontier.next (omega arith)

  module _ {threads : ℕ} {round : Round} (sound : IsSound threads round) where
    -- The nodes at the indices of all shares.
    abbrev pub starts : List ℕ
    starts = map (at frontier) (indices_of (round.assign frontier.next))

    pub share_lt :
        (i : ℕ) → 0 < count i (indices_of (round.assign frontier.next)) → i < frontier.next
    share_lt i h = elim (dec_lt i frontier.next) [
      | yes lt ↦ lt
      | no ge ↦ absurd (
          omega
            (arith, sound.covers frontier.next i, range_from-high i 0 frontier.next (omega arith)))
    ]

    pub starts-listed : (u : ℕ) → 0 < count u starts → 0 < count u (contents frontier)
    starts-listed u h =
        let (i, listed, e) = listed-of_mapped (at frontier) _ u h in
        rw (← at-contents, ← e)
          (mapped-listed (at frontier) (range_from 0 frontier.next) i
            (omega (arith, sound.covers frontier.next i)))

    pub listed-starts : (u : ℕ) → 0 < count u (contents frontier) → 0 < count u starts
    listed-starts u h =
        let (i, listed, e) =
          listed-of_mapped (at frontier) (range_from 0 frontier.next) u (rw at-contents h) in
        rw (← e) (mapped-listed (at frontier) _ i (omega (arith, sound.covers frontier.next i)))
