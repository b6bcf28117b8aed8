-- ===== src/Loader/Input.antt =====
-- `create_graph` of src/loader.cpp with the reading of its file, and `write_to_file`.
use graph_benchmark.Base.{
  ℕ, ◌*◌, ◌/◌, ◌%◌, ◌≡◌, ◌<◌, ◌⊎◌, inl, inr, refl, ap, ◌∙◌, Bool, true, false, Option, none, some,
  ◌>>=◌, >>=-eq-none, check, List, arith, length, ◌==◌, map,
}
use graph_benchmark.Graph.{Edge, Graph, reverse_edge}
use graph_benchmark.File.{Input, read_all, after_read, edges_of, bytes_of}
use graph_benchmark.File.Bytes.{AreWords, length-bytes_of, edges_of-bytes_of}
use graph_benchmark.File.Reading.{IsReadable, read_all-loaded, read_all-failed}
use graph_benchmark.Loader.{Fresh, build_graph}
use graph_benchmark.Loader.Filling.Result.{IsSmall}
use graph_benchmark.Loader.Correct.{IsGraphOf, IsBlank, build_graph-IsGraphOf}

-- `buffer` is what `graph_malloc` finds; `raw`, `fresh` and the schedules are those of `build_graph`.
unfoldable pub create_graph :
    Input → List ℕ → Bool → ℕ → Graph → Fresh → List ℕ → List ℕ → Option Graph
create_graph file buffer symmetric nb_nodes raw fresh schedule schedule' = do
  _ ← check file.open_ok
  _ ← check file.advise_ok
  let size = length file.bytes
  _ ← check (size % 8 == 0)
  after_read (read_all file buffer)
      (λ bs. build_graph symmetric nb_nodes raw fresh schedule schedule' (edges_of (size / 8) bs))

-- On a file that holds edges, and that is read in any number of pieces, the loader returns the rows of
-- those edges, under the conditions on the input and on fresh memory.
pub create_graph-IsGraphOf :
    (file : Input) (buffer : List ℕ) (symmetric : Bool) (n : ℕ) (raw : Graph) (fresh : Fresh)
    (schedule schedule' : List ℕ) (edges : List Edge)
    → IsReadable file
    → length buffer ≡ length file.bytes
    → file.bytes ≡ bytes_of edges
    → AreWords edges
    → IsBlank n (length edges) fresh
    → IsSmall n edges
    → (symmetric ≡ true → IsSmall n (map reverse_edge edges))
    → (g : Graph) × (create_graph file buffer symmetric n raw fresh schedule schedule' ≡ some g)
      × IsGraphOf symmetric n edges g
unfolding create_graph after_read
create_graph-IsGraphOf file buffer symmetric n raw fresh schedule schedule' edges ok sized holds
      words blank small small' =
    let (g, built, r) =
      build_graph-IsGraphOf symmetric n raw fresh schedule schedule' edges blank small small' in
    let size : length file.bytes ≡ 8 * length edges = ap length holds ∙ length-bytes_of edges in
    let aligned : (length file.bytes % 8 == 0) ≡ true = ground (arith, size) in
    let number : length file.bytes / 8 ≡ length edges = omega (arith, size) in
    let back : edges_of (length edges) file.bytes ≡ edges =
      ap (edges_of (length edges)) holds ∙ edges_of-bytes_of edges words in
    (
      g,
      simp (
        ok.opens.0,
        ok.opens.1,
        aligned,
        read_all-loaded file ok buffer sized,
        number,
        back,
        built,
      ),
      r,
    )

-- `create_graph` dies if the file cannot be opened or advised on, if its size is no multiple of an
-- edge's, or if the first `read` fails.
pub create_graph-none :
    (file : Input) (buffer : List ℕ) (symmetric : Bool) (n : ℕ) (raw : Graph) (fresh : Fresh)
    (schedule schedule' : List ℕ)
    → (file.open_ok ≡ false)
      ⊎ (file.advise_ok ≡ false)
      ⊎ (0 < length file.bytes % 8)
      ⊎ (file.fails 0 (length file.bytes) ≡ true)
    → create_graph file buffer symmetric n raw fresh schedule schedule' ≡ none
unfolding create_graph after_read
create_graph-none file buffer symmetric n raw fresh schedule schedule' (inl e) = rw e refl
create_graph-none file buffer symmetric n raw fresh schedule schedule' (inr (inl e)) =
    >>=-eq-none (check file.open_ok) _ (λ _. rw e refl)
create_graph-none file buffer symmetric n raw fresh schedule schedule' (inr (inr (inl odd))) =
    let refused : (length file.bytes % 8 == 0) ≡ false = ground arith in
    >>=-eq-none (check file.open_ok) _
      (λ _. >>=-eq-none (check file.advise_ok) _ (λ _. rw refused refl))
create_graph-none file buffer symmetric n raw fresh schedule schedule' (inr (inr (inr e))) =
    >>=-eq-none (check file.open_ok) _ (λ _. >>=-eq-none (check file.advise_ok) _ (λ _.
      >>=-eq-none (check (length file.bytes % 8 == 0)) _
        (λ _. rw (read_all-failed file buffer e) refl)))
