-- ===== src/Graph/Counting.antt =====
-- How the edges of the input are numbered by their sources.
use graph_benchmark.Base.{ℕ, ◌+◌, ◌≡◌, ◌<◌, ◌≤◌, refl, List, [], ◌∷◌, arith, All, length}
use graph_benchmark.Graph.{Edge, degree, preceding}

-- The ends of an edge are nodes of the graph.
abbrev pub IsEdgeOf : ℕ → Edge → Type 0
IsEdgeOf n e = (e.src < n) × (e.dst < n)

abbrev pub AreEdgesOf : ℕ → List Edge → Type 0
AreEdgesOf n edges = All (IsEdgeOf n) edges

pub preceding-zero : (edges : List Edge) → preceding edges 0 ≡ 0
unfolding preceding
preceding-zero [] = refl
preceding-zero (e ∷ es) = ground (arith, preceding-zero es)

pub preceding-suc :
    (edges : List Edge) (v : ℕ) → preceding edges (v + 1) ≡ preceding edges v + degree edges v
unfolding preceding degree
preceding-suc [] v = refl
preceding-suc (e ∷ es) v = ground (arith, preceding-suc es v)

pub preceding-all :
    (n : ℕ) (edges : List Edge) → AreEdgesOf n edges → preceding edges n ≡ length edges
unfolding preceding
preceding-all n [] h = refl
preceding-all n (e ∷ es) h = ground (arith, preceding-all n es h.1)

pub preceding_mono : (edges : List Edge) (v w : ℕ) → v ≤ w → preceding edges v ≤ preceding edges w
unfolding preceding
preceding_mono [] v w h = omega arith
preceding_mono (e ∷ es) v w h = ground (arith, preceding_mono es v w h)

pub preceding-le-length : (edges : List Edge) (v : ℕ) → preceding edges v ≤ length edges
unfolding preceding
preceding-le-length [] v = omega arith
preceding-le-length (e ∷ es) v = ground (arith, preceding-le-length es v)

pub degree-le-length : (edges : List Edge) (v : ℕ) → degree edges v ≤ length edges
unfolding degree
degree-le-length [] v = omega arith
degree-le-length (e ∷ es) v = ground (arith, degree-le-length es v)
