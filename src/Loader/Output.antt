-- ===== src/Loader/Output.antt =====
-- `write_to_file` of src/loader.cpp. A character is its code, and `show` prints a number as
-- `operator<<` does.
use graph_benchmark.Base.{
  ℕ, zero, suc, ◌+◌, ◌≡◌, ◌≢◌, ◌≤◌, refl, ap, ◌∙◌, Bool, true, false, Option, some, ◌>>=◌, check,
  List, [], ◌∷◌, ◌++◌, append_assoc, append-nil, arith, length, get_or, ◌==◌, if◌then◌else◌, map,
  take, segment, segment-suc, All,
}
use graph_benchmark.Graph.{Graph}

-- "AdjacencyGraph"
abbrev pub title : List ℕ
title = 65 ∷ 100 ∷ 106 ∷ 97 ∷ 99 ∷ 101 ∷ 110 ∷ 99 ∷ 121 ∷ 71 ∷ 114 ∷ 97 ∷ 112 ∷ 104 ∷ []

abbrev pub newline : ℕ
newline = 10

-- The loop that prints the cells of an array from `i` on, `n` of them.
unfoldable pub write_cells : (ℕ → List ℕ) → List ℕ → ℕ → ℕ → List ℕ
write_cells show cells i zero = []
write_cells show cells i (suc n) =
    show (get_or cells i 0) ++ newline ∷ write_cells show cells (i + 1) n

-- The text in the file, or `none` if it cannot be opened.
unfoldable pub write_to_file : Bool → (ℕ → List ℕ) → Graph → Option (List ℕ)
write_to_file open_ok show g = do
  _ ← check open_ok
  some (
      title
      ++ newline
        ∷ (show g.nb_nodes
            ++ newline
              ∷ (show g.nb_edges
                  ++ newline
                    ∷ (write_cells show g.out_edge_offsets 0 g.nb_nodes
                        ++ write_cells show g.out_edges 0 g.nb_edges))))

abbrev longer : ℕ → List (List ℕ) → List (List ℕ)
longer c [] = (c ∷ []) ∷ []
longer c (l ∷ ls) = (c ∷ l) ∷ ls

-- The lines of a text, each ended by a newline.
unfoldable pub lines : List ℕ → List (List ℕ)
lines [] = []
lines (c ∷ text) = let rest = lines text in if c == newline then [] ∷ rest else longer c rest

lines-line :
    (l rest : List ℕ) → All (λ c. c ≢ newline) l → lines (l ++ newline ∷ rest) ≡ l ∷ lines rest
unfolding lines
lines-line [] rest h = refl
lines-line (c ∷ l) rest (h, hs) =
    let other : (c == newline) ≡ false = ground (arith, h) in rw (other, lines-line l rest hs) refl

-- A printed number has no newline, and a reader gets the number back.
pub record IsPrinter (show : ℕ → List ℕ) (read : List ℕ → ℕ) : Type 0 where
  pub one_line : (n : ℕ) → All (λ c. c ≢ newline) (show n)
  pub reads : (n : ℕ) → read (show n) ≡ n

module _ (show : ℕ → List ℕ) (read : List ℕ → ℕ) (p : IsPrinter show read) where
  read_line :
      (n : ℕ) (rest : List ℕ)
      → map read (lines (show n ++ newline ∷ rest)) ≡ n ∷ map read (lines rest)
  read_line n rest =
      rw (lines-line (show n) rest (p.one_line n)) (ap (λ k. k ∷ map read (lines rest)) (p.reads n))

  read_cells :
      (cells : List ℕ) (i n : ℕ) (rest : List ℕ)
      → i + n ≤ length cells
      → map read (lines (write_cells show cells i n ++ rest))
        ≡ segment cells i n ++ map read (lines rest)
  unfolding write_cells
  read_cells cells i zero rest h = refl
  read_cells cells i (suc n) rest h =
      let again = write_cells show cells (i + 1) n in
      rw (append_assoc, segment-suc i n cells 0 (omega arith))
        (read_line (get_or cells i 0) (again ++ rest)
          ∙ ap (◌∷◌ (get_or cells i 0)) (read_cells cells (i + 1) n rest (omega arith)))

  read_all_cells :
      (cells : List ℕ) (n : ℕ)
      → n ≤ length cells
      → map read (lines (write_cells show cells 0 n)) ≡ take n cells
  unfolding lines
  read_all_cells cells n h =
      let all = read_cells cells 0 n [] (omega arith) in rw (append-nil, append-nil) at all

  -- If the arrays are as long as the counts say, the file has the title in its first line, and the
  -- numbers of its other lines, read back, are the counts, the offsets of the nodes and the edges.
  pub write_to_file-reads :
      (g : Graph)
      → g.nb_nodes ≤ length g.out_edge_offsets
      → g.nb_edges ≤ length g.out_edges
      → (text : List ℕ) × (numbers : List (List ℕ)) × (write_to_file true show g ≡ some text)
        × (lines text ≡ title ∷ numbers)
        × (map read numbers
            ≡ g.nb_nodes
              ∷ g.nb_edges
              ∷ (take g.nb_nodes g.out_edge_offsets ++ take g.nb_edges g.out_edges))
  unfolding write_to_file
  write_to_file-reads g nodes edges =
      let rows =
        write_cells show g.out_edge_offsets 0 g.nb_nodes
        ++ write_cells show g.out_edges 0 g.nb_edges in
      let counts = show g.nb_nodes ++ newline ∷ (show g.nb_edges ++ newline ∷ rows) in
      (
        title ++ newline ∷ counts,
        lines counts,
        refl,
        lines-line title counts (omega arith),
        read_line g.nb_nodes (show g.nb_edges ++ newline ∷ rows)
            ∙ ap (◌∷◌ g.nb_nodes) (
                read_line g.nb_edges rows
                ∙ ap (◌∷◌ g.nb_edges) (
                    read_cells g.out_edge_offsets 0 g.nb_nodes
                      (write_cells show g.out_edges 0 g.nb_edges) (omega arith)
                    ∙ ap (◌++◌ (take g.nb_nodes g.out_edge_offsets))
                        (read_all_cells g.out_edges g.nb_edges edges))),
      )
