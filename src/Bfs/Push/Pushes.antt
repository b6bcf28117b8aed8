-- ===== src/Bfs/Push/Pushes.antt =====
-- The two accesses of the push of a won node keep the invariant of the runs of `bfs_push`, and so does
-- every step, as long as a cell that was written is still there when it is counted.
use graph_benchmark.Base.{
  ℕ, ◌+◌, ◌≡◌, ◌<◌, ◌≤◌, refl, ap, ◌∙◌, inl, inr, List, [], ◌∷◌, ◌++◌, arith, get_or, length,
  modify, Bool-cases, total-append, total-replace, total-get_or, length-modify, All-append,
  All-split, All-get_or, All-modify, count, total-modify, if◌then◌else◌, ◌==◌, ==_iff,
}
use graph_benchmark.Graph.{Graph}
use graph_benchmark.Bfs.{HasTargets}
use graph_benchmark.Buffer.{ThreadBuffer, contents, store_entry, count_entry, init}
use graph_benchmark.Buffer.Laws.{
  contents-store_entry, contents-count_entry, store_entry-IsBuffer, count_entry-IsBuffer,
}
use graph_benchmark.Bfs.Push.{
  Cursor, Explore, scan, claim, won, stored, explored, Shared, next_edge, explore_step,
}
use graph_benchmark.Bfs.Push.Level.{
  winning, winners, held, pushed, IsRoomy, Level-move, sources-replace,
}
use graph_benchmark.Bfs.Push.Steps.{Busy, Inv, On-next, scan-Level}
use graph_benchmark.Bfs.Push.Claims.{claim-Level, lost-Level}

-- The buffer of a slot, and one that there is no slot for.
abbrev pub blank : ThreadBuffer
blank = init 0 []

abbrev pub own : ℕ → Shared → ThreadBuffer
own s m = get_or m.buffers s blank

-- The cell behind the entries of the slot's buffer holds `dst`.
abbrev pub Holds : Shared → ℕ → ℕ → Type 0
Holds m s dst =
    s < length m.buffers
    → (own s m).next < length (own s m).buffer
    → get_or (own s m).buffer (own s m).next 0 ≡ dst

module _ (g : Graph) (n threads : ℕ) (v0 frontier : List ℕ) (few : count 0 v0 ≤ n)
    (pre post : List Explore) (m : Shared) (c : Cursor) (dst : ℕ) where
  abbrev Here : Explore → Type 0
  Here t = Inv g n threads v0 frontier (pre ++ t ∷ post) m

  module _ (t : Explore) (one : winners t ≡ 1) (f : Here t) (lt : c.slot < threads) where
    slot_lt : c.slot < length m.buffers
    slot_lt = omega (arith, f.slots)

    own_valid : IsRoomy n (own c.slot m)
    own_valid = All-get_or (IsRoomy n) m.buffers c.slot blank slot_lt f.valid

    -- The pushes of a round never outnumber the nodes that were unseen at its start.
    own_room : (own c.slot m).next < (own c.slot m).capacity
    own_room = omega (
      arith,
      own_valid.1,
      f.room,
      few,
      one,
      total-get_or (λ (b : ThreadBuffer). b.next) m.buffers c.slot blank slot_lt,
      total-append winners pre (t ∷ post),
    )

  module _ (f : Here (won c dst)) where
    mine : Busy g n threads v0 frontier m.visited (won c dst)
    mine =
        (All-split (Busy g n threads v0 frontier m.visited) pre (won c dst ∷ post) f.exploring).1.0

    abbrev stored_buffers : List ThreadBuffer
    stored_buffers = modify m.buffers c.slot (λ b. store_entry b dst)

    held-store_entry : (x : ℕ) → held x stored_buffers ≡ held x m.buffers
    held-store_entry x = omega (
      arith,
      total-modify (λ (b : ThreadBuffer). count x (contents b)) m.buffers c.slot
          (λ b. store_entry b dst) blank (slot_lt (won c dst) refl f mine.0.slot),
      ap (count x) (contents-store_entry (own c.slot m) dst),
    )

    pushed-store_entry : pushed stored_buffers ≡ pushed m.buffers
    unfolding store_entry
    pushed-store_entry = omega (
      arith,
      total-modify (λ (b : ThreadBuffer). b.next) m.buffers c.slot (λ b. store_entry b dst) blank
          (slot_lt (won c dst) refl f mine.0.slot),
    )

    stored-IsRoomy : IsRoomy n (store_entry (own c.slot m) dst)
    unfolding store_entry
    stored-IsRoomy =
        let v = own_valid (won c dst) refl f mine.0.slot in
        (store_entry-IsBuffer (own c.slot m) dst v.0, v.1)

    pub store-Level :
        Inv g n threads v0 frontier
          (pre ++ stored c dst ∷ post)
          (record m { buffers = stored_buffers })
    store-Level =
        let moved =
          Level-move g n threads v0 frontier pre post (won c dst) (stored c dst) refl m f
            (λ x. refl) refl (λ b. b) in
        record {
          size = moved.size;
          bits = moved.bits;
          conserved = λ x. omega (arith, moved.conserved x, held-store_entry x);
          room = omega (arith, moved.room, pushed-store_entry);
          valid =
              All-modify (IsRoomy n) m.buffers c.slot (λ b. store_entry b dst) blank stored-IsRoomy
                moved.valid;
          slots = length-modify m.buffers c.slot (λ b. store_entry b dst) ∙ moved.slots;
          sound = moved.sound;
          exploring = moved.exploring;
          sources = moved.sources;
        }

  module _ (f : Here (stored c dst)) (written : Holds m c.slot dst) where
    done : Busy g n threads v0 frontier m.visited (stored c dst)
    done =
        (All-split (Busy g n threads v0 frontier m.visited) pre (stored c dst ∷ post)
          f.exploring).1.0

    inside : c.slot < length m.buffers
    inside = slot_lt (stored c dst) refl f done.0.slot

    roomy : IsRoomy n (own c.slot m)
    roomy = own_valid (stored c dst) refl f done.0.slot

    room : (own c.slot m).next < (own c.slot m).capacity
    room = own_room (stored c dst) refl f done.0.slot

    abbrev counted : List ThreadBuffer
    counted = modify m.buffers c.slot count_entry

    held-count_entry : (x : ℕ) → held x counted ≡ held x m.buffers + count x (dst ∷ [])
    held-count_entry x = omega (
      arith,
      total-modify (λ (b : ThreadBuffer). count x (contents b)) m.buffers c.slot count_entry blank
          inside,
      ap (count x) (
          contents-count_entry (own c.slot m) dst roomy.0 room
            (written inside (omega (arith, roomy.0.cells, room)))),
      total-append (λ y. if x == y then 1 else 0) (contents (own c.slot m)) (dst ∷ []),
    )

    pushed-count_entry : pushed counted ≡ pushed m.buffers + 1
    unfolding count_entry
    pushed-count_entry = omega (
      arith,
      roomy.0.small,
      room,
      total-modify (λ (b : ThreadBuffer). b.next) m.buffers c.slot count_entry blank inside,
    )

    counted-IsRoomy : IsRoomy n (count_entry (own c.slot m))
    unfolding count_entry
    counted-IsRoomy = (count_entry-IsBuffer (own c.slot m) roomy.0 room, roomy.1)

    pub count-Level :
        Inv g n threads v0 frontier
          (pre ++ scan (next_edge c) ∷ post)
          (record m { buffers = counted })
    count-Level =
        let (before, rest) =
          All-split (Busy g n threads v0 frontier m.visited) pre (stored c dst ∷ post)
            f.exploring in
        record {
          size = f.size;
          bits = f.bits;
          conserved = λ x. ground (
            arith,
            f.conserved x,
            held-count_entry x,
            total-replace (winning x) pre (stored c dst) (scan (next_edge c)) post,
          );
          room = omega (
            arith,
            f.room,
            pushed-count_entry,
            total-replace winners pre (stored c dst) (scan (next_edge c)) post,
          );
          valid = All-modify (IsRoomy n) m.buffers c.slot count_entry blank counted-IsRoomy f.valid;
          slots = length-modify m.buffers c.slot count_entry ∙ f.slots;
          sound = f.sound;
          exploring =
              All-append (Busy g n threads v0 frontier m.visited) pre (scan (next_edge c) ∷ post)
                before
                (
                  On-next g n threads v0 frontier m.visited c done.0 done.1.0
                      (rw (← done.1.1) done.2),
                  rest.1,
                );
          sources =
              sources-replace g n threads v0 frontier pre post (stored c dst) (scan (next_edge c))
                refl f.sources;
        }

-- What a step needs of the buffers: a run that is about to count its entry finds it there.
abbrev pub IsWritten : Shared → Explore → Type 0
IsWritten m (stored c dst) = Holds m c.slot dst
IsWritten m (scan c) = Unit
IsWritten m (claim c dst) = Unit
IsWritten m (won c dst) = Unit
IsWritten m (explored c) = Unit

module _ (g : Graph) (n threads : ℕ) (v0 frontier : List ℕ) (targets : HasTargets n g)
    (few : count 0 v0 ≤ n) where
  pub Level-keep :
      (pre : List Explore) (t : Explore) (post : List Explore) (m : Shared)
      → IsWritten m t
      → Inv g n threads v0 frontier (pre ++ t ∷ post) m
      → Inv g n threads v0 frontier (pre ++ (explore_step g t m).0 ∷ post) (explore_step g t m).1
  unfolding explore_step
  Level-keep pre (scan c) post m w f = scan-Level g n threads v0 frontier pre post m c f
  Level-keep pre (claim c dst) post m w f = elim (Bool-cases (get_or m.visited dst 0 == 0)) [
    | inl new ↦
        rw new (claim-Level g n threads v0 frontier pre post m targets c dst f ((==_iff _ 0).0 new))
    | inr old ↦
        rw old (lost-Level g n threads v0 frontier pre post m targets c dst f (ground arith))
  ]
  Level-keep pre (won c dst) post m w f = store-Level g n threads v0 frontier few pre post m c dst f
  Level-keep pre (stored c dst) post m w f =
      count-Level g n threads v0 frontier few pre post m c dst f w
  Level-keep pre (explored c) post m w f = f
