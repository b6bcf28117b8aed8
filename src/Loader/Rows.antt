-- ===== src/Loader/Rows.antt =====
-- `create_edges` fills the rows of both directions.
use graph_benchmark.Base.{
  Bool-cases, ℕ, ◌≡◌, refl, sym, ◌∙◌, inl, inr, List, [], ◌∷◌, map, true, All, map-All, arith,
  length, length-map, ap,
}
use graph_benchmark.Graph.{Edge, Graph, reverse_edge}
use graph_benchmark.Parallel.{advance, parallel_for}
use graph_benchmark.Parallel.Rule.{parallel_for_inv, parallel_for-Ended, Keeps-map, Simulates}
use graph_benchmark.Loader.{
  Fresh, Slots, Fill, claim_out, store_out, claim_in, store_in, filled, fill_step, fill_budget,
  blank_slots, create_edges,
}
use graph_benchmark.Loader.Offsets.{AreOffsets}
use graph_benchmark.Loader.Filling.{View, todo, storing, over, Half, half_step}
use graph_benchmark.Loader.Filling.Result.{
  Filled, IsSmall, HasRows, Filled-keep, Filled-start, Over, HasRows-of_Filled,
}

abbrev Ended : Fill → Type 0
Ended t = t ≡ filled

enough : (g : Graph) (t : Fill) (s : Slots) → Ended (advance (fill_step g) (fill_budget t) t s).0
unfolding advance fill_step
enough g (claim_out e) s = ground arith
enough g (store_out e o) s = ground arith
enough g t s = refl

-- The outgoing direction.
abbrev out_view : Fill → View
out_view (claim_out e) = todo e
out_view (store_out e o) = storing e o
out_view t = over

abbrev out_half : Slots → Half
out_half s = record { cursor = s.out_offsets; slots = s.out_edges }

out-Simulates :
    (g : Graph) (t : Fill) (s : Slots)
    → Simulates (fill_step g) (half_step g.out_edge_offsets) out_view out_half t s
unfolding fill_step
out-Simulates g (claim_out e) s = inl refl
out-Simulates g (store_out e o) s = inl (ground arith)
out-Simulates g t s = inr refl

-- The incoming direction: the edges reversed.
abbrev in_view : Fill → View
in_view (claim_out e) = todo (reverse_edge e)
in_view (store_out e o) = todo (reverse_edge e)
in_view (claim_in e) = todo (reverse_edge e)
in_view (store_in e o) = storing (reverse_edge e) o
in_view filled = over

abbrev in_half : Slots → Half
in_half s = record { cursor = s.in_offsets; slots = s.in_edges }

in-Simulates :
    (g : Graph)
    → g.symmetric ≡ true
    → (t : Fill) (s : Slots)
    → Simulates (fill_step g) (half_step g.in_edge_offsets) in_view in_half t s
unfolding fill_step
in-Simulates g sy (claim_out e) s = inr refl
in-Simulates g sy (store_out e o) s = inr (ground arith)
in-Simulates g sy (claim_in e) s = inl refl
in-Simulates g sy (store_in e o) s = inl refl
in-Simulates g sy filled s = inr refl

out_view-start : (edges : List Edge) → map out_view (map claim_out edges) ≡ map todo edges
out_view-start [] = refl
out_view-start (e ∷ es) = ap (◌∷◌ (todo e)) (out_view-start es)

in_view-start :
    (edges : List Edge) → map in_view (map claim_out edges) ≡ map todo (map reverse_edge edges)
in_view-start [] = refl
in_view-start (e ∷ es) = ap (◌∷◌ (todo (reverse_edge e))) (in_view-start es)

module _ (n : ℕ) (fresh : Fresh) (schedule : List ℕ) (g : Graph) (edges : List Edge) where
  abbrev stored : List Fill × Slots
  stored =
      parallel_for (fill_step g) fill_budget schedule (map claim_out edges) (blank_slots n fresh g)

  ended : All Ended stored.0
  ended =
      parallel_for-Ended (fill_step g) fill_budget Ended (enough g) schedule (map claim_out edges)
        (blank_slots n fresh g)

  out_rows :
      IsSmall n edges
      → AreOffsets n edges g.out_edge_offsets
      → length fresh.out_edges ≡ length edges
      → HasRows n edges g.out_edge_offsets stored.1.out_edges
  out_rows small off size =
      HasRows-of_Filled off (map-All Ended Over out_view (λ t e. rw e refl) stored.0 ended) (
        parallel_for_inv (fill_step g) (λ ts s. Filled n edges (map out_view ts) (out_half s))
          (Keeps-map (fill_step g) (half_step g.out_edge_offsets) out_view out_half (Filled n edges)
            (out-Simulates g) (Filled-keep small off))
          fill_budget schedule (map claim_out edges) (blank_slots n fresh g)
          (rw (out_view-start edges) (Filled-start small fresh.out_edges size)))

  in_rows :
      g.symmetric ≡ true
      → IsSmall n (map reverse_edge edges)
      → AreOffsets n (map reverse_edge edges) g.in_edge_offsets
      → length fresh.in_edges ≡ length edges
      → HasRows n (map reverse_edge edges) g.in_edge_offsets stored.1.in_edges
  in_rows sy small off size =
      HasRows-of_Filled off (map-All Ended Over in_view (λ t e. rw e refl) stored.0 ended) (
        parallel_for_inv (fill_step g)
          (λ ts s. Filled n (map reverse_edge edges) (map in_view ts) (in_half s))
          (Keeps-map (fill_step g) (half_step g.in_edge_offsets) in_view in_half
            (Filled n (map reverse_edge edges)) (in-Simulates g sy) (Filled-keep small off))
          fill_budget schedule (map claim_out edges) (blank_slots n fresh g)
          (rw (in_view-start edges)
            (Filled-start small fresh.in_edges (size ∙ sym (length-map reverse_edge edges)))))

  -- `create_edges` fills the outgoing rows, and the incoming ones of a symmetric graph.
  pub create_edges-out :
      IsSmall n edges
      → AreOffsets n edges g.out_edge_offsets
      → length fresh.out_edges ≡ length edges
      → HasRows n edges g.out_edge_offsets (create_edges n fresh schedule g edges).out_edges
  unfolding create_edges
  create_edges-out small off size = elim (Bool-cases g.symmetric) [
    | inl sy ↦ simp sy (out_rows small off size)
    | inr sy ↦ simp sy (out_rows small off size)
  ]

  pub create_edges-in :
      g.symmetric ≡ true
      → IsSmall n (map reverse_edge edges)
      → AreOffsets n (map reverse_edge edges) g.in_edge_offsets
      → length fresh.in_edges ≡ length edges
      → HasRows n
          (map reverse_edge edges)
          g.in_edge_offsets
          (create_edges n fresh schedule g edges).in_edges
  unfolding create_edges
  create_edges-in sy small off size = simp sy (in_rows sy small off size)

  -- All else is left alone.
  pub create_edges-offsets :
      ((create_edges n fresh schedule g edges).out_edge_offsets ≡ g.out_edge_offsets)
      × ((create_edges n fresh schedule g edges).in_edge_offsets ≡ g.in_edge_offsets)
      × ((create_edges n fresh schedule g edges).symmetric ≡ g.symmetric)
      × ((create_edges n fresh schedule g edges).nb_nodes ≡ g.nb_nodes)
      × ((create_edges n fresh schedule g edges).nb_edges ≡ g.nb_edges)
  unfolding create_edges
  create_edges-offsets = ground arith
