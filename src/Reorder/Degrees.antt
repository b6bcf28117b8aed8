-- ===== src/Reorder/Degrees.antt =====
-- What `sort_by_degree` writes: the same graph, with the nodes numbered by their degrees.
use graph_benchmark.Base.{
  ℕ, ◌+◌, ◌*◌, ◌/◌, ◌≡◌, ◌<◌, ◌≤◌, ◌^◌, refl, sym, ap, ◌∙◌, subst, List, [], ◌∷◌, map, arith, Bool,
  true, false, some, get_or, length, length-map, range_from, IsOrder,
}
use graph_benchmark.Graph.{Edge, copies, degree}
use graph_benchmark.Graph.Counting.{AreEdgesOf, degree-le-length}
use graph_benchmark.File.{Input, after_read, edges_of, bytes_of}
use graph_benchmark.File.Bytes.{AreWords, length-bytes_of, edges_of-bytes_of}
use graph_benchmark.File.Reading.{IsReadable, read_all-loaded}
use graph_benchmark.Reorder.{stays, assign_numbers, relabel}
use graph_benchmark.Reorder.Distinct.{assign_numbers-renames, first-IsRest}
use graph_benchmark.Reorder.Renaming.{renamed, relabel_lem}
use graph_benchmark.Reorder.Isomorphism.{relabel-copies}
use graph_benchmark.Reorder.Sort.{
  Sorting, Cells, Schedules, Output, precedes, tally, place_all, reorder, sort_by_degree,
}
use graph_benchmark.Reorder.Loops.{get_or-tally, place_all-range}
use graph_benchmark.Reorder.Rising.{Sorts, Sorts-IsOrder, numbers_rise}

abbrev pub InOrder : Bool → ℕ → ℕ → Type 0
InOrder true a b = a ≤ b
InOrder false a b = b ≤ a

-- The output describes the input's graph under a renaming of its nodes by degree; node 0 has a place of
-- its own where `maintain` is set.
pub record IsReordered (ascending maintain : Bool) (n : ℕ) (edges : List Edge) (o : Output)
    : Type 0 where
  pub nodes : o.nodes ≡ n
  pub count : o.edges ≡ length edges
  pub names : (x : ℕ) → x < n → get_or o.mapping x 0 < n
  pub apart : (x y : ℕ) → x < n → y < n → get_or o.mapping x 0 ≡ get_or o.mapping y 0 → x ≡ y
  pub zero : maintain ≡ true → 0 < n → get_or o.mapping 0 0 ≡ 0
  pub copied :
      (u v : ℕ)
      → u < n
      → v < n
      → copies (edges_of (length edges) o.bytes) (get_or o.mapping u 0) (get_or o.mapping v 0)
        ≡ copies edges u v
  pub by_degree :
      (x y : ℕ)
      → x < n
      → y < n
      → stays maintain x ≡ false
      → stays maintain y ≡ false
      → get_or o.mapping x 0 < get_or o.mapping y 0
      → InOrder ascending (degree edges x) (degree edges y)

-- What `malloc` finds: arrays of the right lengths, and counters that happen to be 0.
pub record IsClear (n : ℕ) (file : Input) (cells : Cells) : Type 0 where
  pub buffer : length cells.edges ≡ length file.bytes
  pub counters : length cells.degrees ≡ n
  pub cleared : (x : ℕ) → get_or cells.degrees x 0 ≡ 0
  pub order : length cells.ordered ≡ n
  pub names : length cells.mapping ≡ n

module _ (sort : Sorting) (file : Input) (cells : Cells) (run : Schedules)
    (ascending maintain : Bool) (n : ℕ) (edges : List Edge)
    (sorts : (degrees xs : List ℕ)
      → Sorts (precedes ascending degrees) xs (sort (precedes ascending degrees) xs))
    (clear : IsClear n file cells) (small : n + 1 < 2 ^ 32) (few : length edges < 2 ^ 32)
    (ends : AreEdgesOf n edges) where
  abbrev degrees : List ℕ
  degrees = tally run.tallying edges cells.degrees

  abbrev less : ℕ → ℕ → Bool
  less = precedes ascending degrees

  abbrev ordered : List ℕ
  ordered = sort less (place_all run.placing n cells.ordered)

  sorted : Sorts less (range_from 0 n) ordered
  sorted =
      let all_nodes = place_all-range run.placing n cells.ordered clear.order (omega arith) in
      subst (λ xs. Sorts less xs ordered) all_nodes
        (sorts degrees (place_all run.placing n cells.ordered))

  ordered-IsOrder : IsOrder n ordered
  ordered-IsOrder = Sorts-IsOrder less n ordered sorted

  abbrev mapping : List ℕ
  mapping = assign_numbers maintain ordered cells.mapping

  degree_of : (x : ℕ) → x < n → get_or degrees x 0 ≡ degree edges x
  degree_of x lt =
      get_or-tally run.tallying edges cells.degrees x (omega (arith, clear.counters))
        (clear.cleared x) (omega (arith, few, degree-le-length edges x))

  precedes-InOrder :
      (b : Bool) (x y : ℕ)
      → x < n
      → y < n
      → precedes b degrees y x ≡ false
      → InOrder b (degree edges x) (degree edges y)
  unfolding precedes
  precedes-InOrder true x y hx hy e = ground (arith, degree_of x hx, degree_of y hy)
  precedes-InOrder false x y hx hy e = ground (arith, degree_of x hx, degree_of y hy)

  renames :
      ((x : ℕ) → x < n → get_or mapping x 0 < n)
      × ((x y : ℕ) → x < n → y < n → get_or mapping x 0 ≡ get_or mapping y 0 → x ≡ y)
      × (maintain ≡ true → 0 < n → get_or mapping 0 0 ≡ 0)
  renames =
      assign_numbers-renames maintain n ordered cells.mapping ordered-IsOrder clear.names small

  renamed-AreWords : (es : List Edge) → AreEdgesOf n es → AreWords (map (renamed mapping) es)
  renamed-AreWords [] h = tt
  renamed-AreWords (e ∷ es) (h, hs) = (
    (omega (arith, renames.0 e.src h.0, small), omega (arith, renames.0 e.dst h.1, small)),
    renamed-AreWords es hs,
  )

  written :
      edges_of (length edges) (bytes_of (relabel mapping run.relabelling edges))
      ≡ relabel mapping run.relabelling edges
  written =
      let same = relabel_lem mapping run.relabelling edges in
      rw same (
        ap (λ k. edges_of k (bytes_of (map (renamed mapping) edges)))
          (sym (length-map (renamed mapping) edges))
        ∙ edges_of-bytes_of (map (renamed mapping) edges) (renamed-AreWords edges ends))

  reorder-IsReordered :
      IsReordered ascending maintain n edges (reorder sort cells run ascending maintain n edges)
  unfolding reorder assign_numbers
  reorder-IsReordered = record {
    nodes = refl;
    count = refl;
    names = renames.0;
    apart = renames.1;
    zero = renames.2;
    copied = λ u v hu hv.
        ap (λ es. copies es (get_or mapping u 0) (get_or mapping v 0)) written
        ∙ relabel-copies maintain n ordered cells.mapping run.relabelling edges ordered-IsOrder
            clear.names small ends u v hu hv;
    by_degree = λ x y hx hy mx my lt. precedes-InOrder ascending x y hx hy (
        numbers_rise less maintain n ordered _ cells.mapping
          (first-IsRest maintain n ordered cells.mapping ordered-IsOrder clear.names small)
          sorted.rising x y (ordered-IsOrder.all x hx) (ordered-IsOrder.all y hy) mx my lt);
  }

  AreWords-of_AreEdgesOf : (es : List Edge) → AreEdgesOf n es → AreWords es
  AreWords-of_AreEdgesOf [] h = tt
  AreWords-of_AreEdgesOf (e ∷ es) (h, hs) =
      ((omega (arith, h, small), omega (arith, h, small)), AreWords-of_AreEdgesOf es hs)

  -- If `std::sort` sorts, the file holds edges between fewer than 2^32 - 1 nodes, fewer than 2^32 of
  -- them, and the counters happen to be cleared, `sort_by_degree` returns for every interleaving and
  -- every sequence of reads. The file that it writes, read back as edges, is the same graph under new
  -- names, which no two nodes share, and which rise with the degree if `ascending` is set and fall
  -- otherwise; with `maintain` node 0 keeps its name and the order is that of the others.
  pub sort_by_degree-IsReordered :
      IsReadable file
      → file.bytes ≡ bytes_of edges
      → (o : Output) × (sort_by_degree sort file cells run ascending maintain n ≡ some o)
        × IsReordered ascending maintain n edges o
  unfolding sort_by_degree after_read
  sort_by_degree-IsReordered ok holds =
      let size : length file.bytes ≡ 8 * length edges = ap length holds ∙ length-bytes_of edges in
      let number : length file.bytes / 8 ≡ length edges = omega (arith, size) in
      let back : edges_of (length edges) file.bytes ≡ edges =
        ap (edges_of (length edges)) holds
        ∙ edges_of-bytes_of edges (AreWords-of_AreEdgesOf edges ends) in
      (
        reorder sort cells run ascending maintain n edges,
        simp (
          ok.opens.0,
          ok.opens.1,
          read_all-loaded file ok cells.edges clear.buffer,
          number,
          back,
        ),
        reorder-IsReordered,
      )
