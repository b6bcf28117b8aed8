-- ===== src/File/Bytes.antt =====
-- Edges that are written as bytes are read back.
use graph_benchmark.Base.{
  ℕ, ◌+◌, ◌*◌, ◌/◌, ◌%◌, ◌^◌, ◌≡◌, ◌<◌, refl, List, [], ◌∷◌, arith, length, All,
}
use graph_benchmark.Graph.{Edge}
use graph_benchmark.File.{edges_of, bytes_of}

-- The members of an edge are words of 32 bits.
abbrev pub AreWords : List Edge → Type 0
AreWords = All (λ (e : Edge). (e.src < 2 ^ 32) × (e.dst < 2 ^ 32))

word_of_bytes :
    (w : ℕ)
    → w < 2 ^ 32
    → w % 2 ^ 8
        + 2 ^ 8 * (w / 2 ^ 8 % 2 ^ 8)
        + 2 ^ 16 * (w / 2 ^ 16 % 2 ^ 8)
        + 2 ^ 24 * (w / 2 ^ 24 % 2 ^ 8)
      ≡ w
word_of_bytes w h = omega arith

pub length-bytes_of : (edges : List Edge) → length (bytes_of edges) ≡ 8 * length edges
unfolding bytes_of
length-bytes_of [] = omega arith
length-bytes_of (e ∷ edges) = omega (arith, length-bytes_of edges)

-- The round trip, with as many edges as were written.
pub edges_of-bytes_of :
    (edges : List Edge) → AreWords edges → edges_of (length edges) (bytes_of edges) ≡ edges
unfolding edges_of bytes_of
edges_of-bytes_of [] words = refl
edges_of-bytes_of (e ∷ edges) ((src, dst), words) =
    rw (word_of_bytes e.src src, word_of_bytes e.dst dst, edges_of-bytes_of edges words) refl
