-- ===== src/Tests/FileTests.antt =====
-- Reading and writing of files by src/loader.cpp on a small input, and its theorems there.
use graph_benchmark.Base.{
  ℕ, zero, suc, ◌≡◌, ◌≢◌, refl, inr, inl, true, false, some, none, List, [], ◌∷◌, ◌++◌, arith,
  length, replicate, length-replicate, map, take, if◌then◌else◌, ltb, All,
}
use graph_benchmark.Graph.{Graph}
use graph_benchmark.File.{Input, read_loop, read_all, overwrite, loaded, edges_of, bytes_of}
use graph_benchmark.File.Bytes.{AreWords}
use graph_benchmark.File.Reading.{IsReadable}
use graph_benchmark.Loader.Correct.{IsGraphOf}
use graph_benchmark.Loader.Input.{create_graph, create_graph-IsGraphOf, create_graph-none}
use graph_benchmark.Loader.Output.{
  title, newline, write_to_file, lines, IsPrinter, write_to_file-reads,
}
use graph_benchmark.Tests.Data.{
  raw, fresh, edges, schedule, fresh-IsBlank, edges-IsSmall, reversed-IsSmall, sample,
}

-- The input of 32 bytes, which `read` gives five at a time.
abbrev pub file : Input
file = record {
  bytes = bytes_of edges;
  open_ok = true;
  advise_ok = true;
  fails = λ k count. false;
  sizes = λ k count. if ltb count 5 then count else 5;
}

abbrev pub cells : List ℕ
cells = replicate 32 99

read_all-runs : read_all file cells ≡ loaded (bytes_of edges)
unfolding read_all read_loop overwrite bytes_of
read_all-runs = refl

edges_of-runs : edges_of 4 (bytes_of edges) ≡ edges
unfolding edges_of bytes_of
edges_of-runs = refl

pub file-IsReadable : IsReadable file
unfolding bytes_of
file-IsReadable = record {
  opens = (refl, refl);
  whole = λ k count. refl;
  within = λ k count. ground arith;
  proceeds = λ k count h. ground arith;
  small = omega arith;
}

pub edges-AreWords : AreWords edges
edges-AreWords = omega arith

pub cells-size : length cells ≡ length file.bytes
unfolding bytes_of
cells-size = refl

create_graph-IsGraphOf_example :
    (g : Graph) × (create_graph file cells true 4 raw fresh schedule schedule ≡ some g)
    × IsGraphOf true 4 edges g
create_graph-IsGraphOf_example =
    create_graph-IsGraphOf file cells true 4 raw fresh schedule schedule edges file-IsReadable
      cells-size refl edges-AreWords fresh-IsBlank edges-IsSmall (λ _. reversed-IsSmall)

-- One byte too many.
abbrev odd_file : Input
odd_file = record file { bytes = 7 ∷ [] }

create_graph-none_example : create_graph odd_file cells true 4 raw fresh schedule schedule ≡ none
create_graph-none_example =
    create_graph-none odd_file cells true 4 raw fresh schedule schedule
      (inr (inr (inl (omega arith))))

-- A printer in unary digits.
abbrev pub ones : ℕ → List ℕ
ones n = replicate n 49

ones-IsPrinter : IsPrinter ones length
ones-IsPrinter = record { one_line = each; reads = λ n. length-replicate n 49 }
  where
    each : (n : ℕ) → All (λ c. c ≢ newline) (ones n)
    each zero = tt
    each (suc n) = (omega arith, each n)

write_to_file-reads_example :
    (text : List ℕ) × (numbers : List (List ℕ)) × (write_to_file true ones sample ≡ some text)
    × (lines text ≡ title ∷ numbers)
    × (map length numbers
        ≡ 4 ∷ 4 ∷ (take 4 (0 ∷ 3 ∷ 4 ∷ 4 ∷ 4 ∷ []) ++ take 4 (2 ∷ 1 ∷ 2 ∷ 2 ∷ [])))
write_to_file-reads_example =
    write_to_file-reads ones length ones-IsPrinter sample (omega arith) (omega arith)
