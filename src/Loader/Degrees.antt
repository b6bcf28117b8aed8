-- ===== src/Loader/Degrees.antt =====
-- The two ways to count degrees agree, whatever the interleaving.
use graph_benchmark.Base.{
  ℕ, zero, suc, ◌+◌, ◌≡◌, refl, ap, ◌∙◌, List, [], ◌∷◌, map, arith, get_or, u64, if◌then◌else◌, ◌<◌,
  ◌^◌, length, length-set, get_or-set_self, get_or-set_ne,
}
use graph_benchmark.Graph.{Edge, Graph, reverse_edge, degree}
use graph_benchmark.Parallel.{advance}
use graph_benchmark.Parallel.Commute.{Commutes, settle_all, parallel_for-eq-settle_all}
use graph_benchmark.Loader.{
  increment, count_edge, count_degree_0_sequential, Count, count_out, count_in, counted, count_step,
  count_budget, count_degree_1_atomic,
}

-- Two increments of one array commute.
increment_comm : (a : List ℕ) (i j : ℕ) → increment (increment a i) j ≡ increment (increment a j) i
unfolding increment
increment_comm [] i j = refl
increment_comm (x ∷ a) zero zero = refl
increment_comm (x ∷ a) zero (suc j) = refl
increment_comm (x ∷ a) (suc i) zero = refl
increment_comm (x ∷ a) (suc i) (suc j) = ap (◌∷◌ x) (increment_comm a i j)

-- What a run of the body has left to do.
settle : Count → Graph → Graph
settle (count_out e) g = count_edge g e
settle (count_in e) g = record g { in_edge_offsets = increment g.in_edge_offsets e.dst }
settle counted g = g

abbrev Ended : Count → Type 0
Ended t = t ≡ counted

settle-first : (t : Count) (g : Graph) → settle (count_step t g).0 (count_step t g).1 ≡ settle t g
unfolding settle count_step count_edge
settle-first (count_out e) g = ground arith
settle-first (count_in e) g = refl
settle-first counted g = refl

settle-Ended : (t : Count) (g : Graph) → Ended t → settle t g ≡ g
unfolding settle
settle-Ended t g e = rw e refl

settle-symmetric : (u : Count) (g : Graph) → (settle u g).symmetric ≡ g.symmetric
unfolding settle count_edge
settle-symmetric (count_out e) g = ground arith
settle-symmetric u g = refl

settle-task : (t u : Count) (g : Graph) → (count_step t (settle u g)).0 ≡ (count_step t g).0
unfolding count_step
settle-task (count_out e) u g = rw (settle-symmetric u g)
settle-task t u g = refl

settle-memory :
    (t u : Count) (g : Graph) → (count_step t (settle u g)).1 ≡ settle u (count_step t g).1
unfolding settle count_step count_edge
settle-memory (count_out e) (count_out f) g =
    ground (arith, increment_comm g.out_edge_offsets e.src f.src)
settle-memory (count_in e) (count_out f) g =
    ground (arith, increment_comm g.in_edge_offsets e.dst f.dst)
settle-memory (count_in e) (count_in f) g =
    ground (arith, increment_comm g.in_edge_offsets e.dst f.dst)
settle-memory _ _ g = refl

laws : Commutes settle count_step Ended
laws = record {
  first = settle-first;
  ended = settle-Ended;
  task = settle-task;
  memory = settle-memory;
}

enough : (t : Count) (g : Graph) → Ended (advance count_step (count_budget t) t g).0
unfolding advance count_step
enough (count_out e) g = ground arith
enough t g = refl

settle_all-count :
    (edges : List Edge) (g : Graph)
    → settle_all settle (map count_out edges) g ≡ count_degree_0_sequential g edges
unfolding settle_all settle count_degree_0_sequential
settle_all-count [] g = refl
settle_all-count (e ∷ es) g = settle_all-count es (count_edge g e)

-- Whatever the interleaving of its atomic increments, `count_degree_1_atomic` leaves the graph that
-- `count_degree_0_sequential` leaves.
pub count_degree_1_atomic-eq-sequential :
    (schedule : List ℕ) (g : Graph) (edges : List Edge)
    → count_degree_1_atomic schedule g edges ≡ count_degree_0_sequential g edges
unfolding count_degree_1_atomic
count_degree_1_atomic-eq-sequential schedule g edges =
    parallel_for-eq-settle_all laws count_budget enough schedule (map count_out edges) g
    ∙ settle_all-count edges g

-- The counters of the edges' sources, from any contents.
abbrev pub increments : List ℕ → List Edge → List ℕ
increments a [] = a
increments a (e ∷ es) = increments (increment a e.src) es

abbrev pub counts_of : Graph → List Edge → Graph
counts_of g edges =
    let g' = record g { out_edge_offsets = increments g.out_edge_offsets edges } in
    if g.symmetric
    then record g' { in_edge_offsets = increments g.in_edge_offsets (map reverse_edge edges) }
    else g'

pub sequential-eq-counts_of :
    (edges : List Edge) (g : Graph) → count_degree_0_sequential g edges ≡ counts_of g edges
unfolding count_degree_0_sequential count_edge
sequential-eq-counts_of [] g = ground arith
sequential-eq-counts_of (e ∷ es) g = ground (arith, sequential-eq-counts_of es (count_edge g e))

pub length-increments : (a : List ℕ) (edges : List Edge) → length (increments a edges) ≡ length a
unfolding increment
length-increments a [] = refl
length-increments a (e ∷ es) =
    length-increments (increment a e.src) es ∙ length-set a e.src (u64 (get_or a e.src 0 + 1))

-- A counter grows by the degree of its node.
pub get_or-increments :
    (edges : List Edge) (a : List ℕ) (v : ℕ)
    → v < length a
    → get_or a v 0 + degree edges v < 2 ^ 64
    → get_or (increments a edges) v 0 ≡ get_or a v 0 + degree edges v
unfolding increment degree
get_or-increments [] a v lt h = omega arith
get_or-increments (e ∷ es) a v lt h = ground (
  arith,
  get_or-increments es (increment a e.src) v,
  length-set a e.src (u64 (get_or a e.src 0 + 1)),
  get_or-set_self a v (u64 (get_or a e.src 0 + 1)) 0,
  get_or-set_ne a e.src v (u64 (get_or a e.src 0 + 1)) 0,
)
