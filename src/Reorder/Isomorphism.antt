-- ===== src/Reorder/Isomorphism.antt =====
-- `sort_by_degree` writes the same graph under new names.
use graph_benchmark.Base.{
  IsOrder, ℕ, ◌+◌, ◌≡◌, ◌≢◌, ◌<◌, ◌^◌, refl, ap, ◌∙◌, List, [], ◌∷◌, map, arith, Bool, get_or,
  length, ℕ_discrete,
}
use graph_benchmark.Graph.{Edge, copies}
use graph_benchmark.Graph.Counting.{AreEdgesOf}
use graph_benchmark.Reorder.{assign_numbers, relabel}
use graph_benchmark.Reorder.Distinct.{assign_numbers-renames}
use graph_benchmark.Reorder.Renaming.{renamed, relabel_lem}

-- Renaming by a map that is injective on the nodes keeps the number of copies of each edge.
copies-renamed :
    (n : ℕ) (mapping : List ℕ) (edges : List Edge) (u v : ℕ)
    → ((x y : ℕ) → x < n → y < n → get_or mapping x 0 ≡ get_or mapping y 0 → x ≡ y)
    → AreEdgesOf n edges
    → u < n
    → v < n
    → copies (map (renamed mapping) edges) (get_or mapping u 0) (get_or mapping v 0)
      ≡ copies edges u v
unfolding copies
copies-renamed n mapping [] u v inj h hu hv = refl
copies-renamed n mapping (e ∷ es) u v inj h hu hv =
    let rest = copies-renamed n mapping es u v inj h.1 hu hv in
    elim (ℕ_discrete u e.src) [
      | no ne ↦
          let far : get_or mapping u 0 ≢ get_or mapping e.src 0 =
            λ q. ne (inj u e.src hu h.0.0 q) in
          ground (arith, rest, far)
      | yes s ↦ elim (ℕ_discrete v e.dst) [
        | no ne ↦
            let far : get_or mapping v 0 ≢ get_or mapping e.dst 0 =
              λ q. ne (inj v e.dst hv h.0.1 q) in
            ground (arith, rest, far)
        | yes d ↦
            let src : get_or mapping u 0 ≡ get_or mapping e.src 0 =
              ap (λ x. get_or mapping x 0) s in
            let dst : get_or mapping v 0 ≡ get_or mapping e.dst 0 =
              ap (λ x. get_or mapping x 0) d in
            ground (arith, rest, src, dst)
      ]
    ]

-- With the numbers that `sort_by_degree` gives, from any order of all nodes, fewer than 2^32 - 1, and for
-- edges between these nodes, the edges it writes are the
-- same graph: each edge is there under its new names as often as it was in the input, for every
-- interleaving of the renaming loop.
pub relabel-copies :
    (maintain : Bool) (n : ℕ) (ordered cells schedule : List ℕ) (edges : List Edge)
    → IsOrder n ordered
    → length cells ≡ n
    → n + 1 < 2 ^ 32
    → AreEdgesOf n edges
    → (u v : ℕ) → u < n
    → v < n
    → let mapping = assign_numbers maintain ordered cells in
      copies (relabel mapping schedule edges) (get_or mapping u 0) (get_or mapping v 0)
      ≡ copies edges u v
relabel-copies maintain n ordered cells schedule edges o size small h u v hu hv =
    let mapping = assign_numbers maintain ordered cells in
    ap (λ es. copies es (get_or mapping u 0) (get_or mapping v 0))
      (relabel_lem mapping schedule edges)
    ∙ copies-renamed n mapping edges u v
        (assign_numbers-renames maintain n ordered cells o size small).1 h hu hv
