-- ===== src/Bfs/Push/First.antt =====
-- The state in which the `while` loop of `bfs_push` starts.
use graph_benchmark.Base.{
  ℕ, zero, suc, ◌≡◌, ◌≢◌, ◌<◌, ◌≤◌, ◌^◌, ◌↔◌, refl, sym, ap, ◌∙◌, inl, List, [], ◌∷◌, map, arith,
  get_or, set, length, replicate, length-set, length-map, length-replicate, get_or-set_self,
  get_or-set_ne, get_or-replicate, All, map-All, count, ℕ_discrete,
}
use graph_benchmark.Graph.{Graph}
use graph_benchmark.Buffer.{ThreadBuffer, contents, init, push}
use graph_benchmark.Buffer.Laws.{IsBuffer, contents-push, push-IsBuffer}
use graph_benchmark.Bfs.{Walk}
use graph_benchmark.Bfs.Push.{PushState}
use graph_benchmark.Bfs.Push.Level.{IsRoomy}
use graph_benchmark.Bfs.Push.Start.{IsBetween}
use graph_benchmark.Bfs.Push.Distance.{IsListed, Front}

-- The arrays of `bfs_push`: right sizes, and a cleared `visited`.
pub record IsAllocated (n threads : ℕ) (frontier_cells : List ℕ) (buffer_cells : List (List ℕ))
    : Type 0 where
  pub some_thread : 0 < threads
  pub small : n < 2 ^ 64
  pub frontier : length frontier_cells ≡ n
  pub buffers : length buffer_cells ≡ threads
  pub cells : All (λ (c : List ℕ). length c ≡ n) buffer_cells

abbrev pub first_state : ℕ → List ℕ → List (List ℕ) → ℕ → PushState
first_state n frontier_cells buffer_cells start = record {
  frontier = push (init n frontier_cells) start;
  shared = record { visited = set (replicate n 0) start 1; buffers = map (init n) buffer_cells };
  iterations = 0;
}

module _ {n threads : ℕ} {frontier_cells : List ℕ} {buffer_cells : List (List ℕ)}
    (a : IsAllocated n threads frontier_cells buffer_cells) (start : ℕ) (start_lt : start < n) where
  init-valid : (cells : List ℕ) → length cells ≡ n → IsBuffer (init n cells)
  unfolding init
  init-valid cells e = omega (arith, a.small)

  abbrev first : PushState
  first = first_state n frontier_cells buffer_cells start

  first-contents : contents first.frontier ≡ start ∷ []
  unfolding init
  first-contents =
      contents-push (init n frontier_cells) start (init-valid frontier_cells a.frontier)
        (omega arith)

  first-IsRoomy : IsRoomy n first.frontier
  unfolding init push
  first-IsRoomy = (
    push-IsBuffer (init n frontier_cells) start (init-valid frontier_cells a.frontier)
        (omega arith),
    refl,
  )

  first-marked : get_or first.shared.visited start 0 ≡ 1
  first-marked =
      get_or-set_self (replicate n 0) start 1 0 (omega (arith, length-replicate {A = ℕ} n 0))

  first-clear : (x : ℕ) → x ≢ start → get_or first.shared.visited x 0 ≡ 0
  first-clear x ne =
      get_or-set_ne (replicate n 0) start x 1 0 (λ e. ne (sym e)) ∙ get_or-replicate n x 0

  first-flag : (x : ℕ) → (get_or first.shared.visited x 0 ≡ 1) ↔ (x ≡ start)
  first-flag x = elim (ℕ_discrete x start) [
    | yes e ↦ (λ _. e, λ _. rw e first-marked)
    | no ne ↦ (λ e. absurd (omega (arith, first-clear x ne)), λ e. absurd (ne e))
  ]

  first-bits : (x : ℕ) → get_or first.shared.visited x 0 ≤ 1
  first-bits x = elim (ℕ_discrete x start) [
    | yes e ↦ omega (arith, (first-flag x).1 e)
    | no ne ↦ omega (arith, first-clear x ne)
  ]

  pub first-IsBetween : IsBetween n threads first.frontier first.shared
  unfolding init
  first-IsBetween = record {
    some_thread = a.some_thread;
    roomy = first-IsRoomy;
    size = length-set (replicate n 0) start 1 ∙ length-replicate n 0;
    bits = first-bits;
    valid =
        map-All (λ (c : List ℕ). length c ≡ n) (IsRoomy n) (init n) (λ c e. (init-valid c e, refl))
          buffer_cells a.cells;
    slots = length-map (init n) buffer_cells ∙ a.buffers;
    drained =
        map-All (λ (c : List ℕ). length c ≡ n) (λ (b : ThreadBuffer). b.next ≡ 0) (init n)
          (λ c e. refl) buffer_cells a.cells;
    seen = λ x h. (first-flag x).1 (ground (arith, ap (count x) first-contents));
  }

  first-listed : (x : ℕ) → IsListed first x → x ≡ start
  first-listed x h = ground (arith, ap (count x) first-contents)

  pub first-Front : (g : Graph) → Front g start 0 first
  first-Front g = record {
    full = λ j x le w. (first-flag x).1 (start_of j x (omega arith) w);
    old = λ x e. inl (rw ((first-flag x).0 e) (ground (arith, ap (count start) first-contents)));
    far = λ x h. rw (first-listed x h) Walk.here;
    new = λ x h j lt w. absurd (omega arith);
  }
    where
      start_of : (j x : ℕ) → j ≡ 0 → Walk g start j x → x ≡ start
      start_of zero x e Walk.here = refl
      start_of (suc j) x e w = absurd (omega arith)
