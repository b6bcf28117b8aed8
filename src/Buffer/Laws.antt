-- ===== src/Buffer/Laws.antt =====
-- A thread buffer with room is a list that grows at its end.
use graph_benchmark.Base.{
  ℕ, zero, suc, ◌+◌, ◌≡◌, ◌<◌, ◌≤◌, ◌^◌, ◌%◌, refl, ap, sym, ◌∙◌, List, [], ◌∷◌, ◌++◌, arith,
  Bool-cases, inl, inr, append-nil, append_assoc, set, take, length, length-set, segment-set_end,
  segment-set_out, set-get_or, get_or, ◌==◌, ==_iff, u64,
}
use graph_benchmark.Buffer.{
  ThreadBuffer, init, clear, push, store_entry, count_entry, copy_entries, transfer, contents,
}

-- The cells are those asked for, the entries lie in them, and counting does not wrap around.
pub record IsBuffer (b : ThreadBuffer) : Type 0 where
  pub cells : length b.buffer ≡ b.capacity
  pub within : b.next ≤ b.capacity
  pub small : b.capacity < 2 ^ 64

pub contents-init : (c : ℕ) (cells : List ℕ) → contents (init c cells) ≡ []
unfolding init
contents-init c cells = refl

pub contents-clear : (b : ThreadBuffer) → contents (clear b) ≡ []
unfolding clear
contents-clear b = refl

pub contents-push :
    (b : ThreadBuffer) (id : ℕ)
    → IsBuffer b
    → b.next < b.capacity
    → contents (push b id) ≡ contents b ++ id ∷ []
unfolding push
contents-push b id v room =
    let next : (b.next + 1) % 2 ^ 64 ≡ suc b.next = omega (arith, v.small) in
    let at_end : 0 + b.next ≡ b.next = omega arith in
    rw next (rw at_end at (segment-set_end 0 b.next b.buffer id (omega (arith, v.cells))))

pub push-IsBuffer :
    (b : ThreadBuffer) (id : ℕ) → IsBuffer b → b.next < b.capacity → IsBuffer (push b id)
unfolding push
push-IsBuffer b id v room = ground (arith, length-set b.buffer b.next id)

-- The write of the cell changes no entry, and counting it appends it.
pub contents-store_entry : (b : ThreadBuffer) (id : ℕ) → contents (store_entry b id) ≡ contents b
unfolding store_entry
contents-store_entry b id = segment-set_out 0 b.next b.next b.buffer id (inr (omega arith))

pub contents-count_entry :
    (b : ThreadBuffer) (id : ℕ)
    → IsBuffer b
    → b.next < b.capacity
    → get_or b.buffer b.next 0 ≡ id
    → contents (count_entry b) ≡ contents b ++ id ∷ []
unfolding count_entry
contents-count_entry b id v room e =
    let next : (b.next + 1) % 2 ^ 64 ≡ suc b.next = omega (arith, v.small) in
    let at_end : 0 + b.next ≡ b.next = omega arith in
    let same : set b.buffer b.next id ≡ b.buffer =
      set-get_or b.buffer b.next id 0 (omega (arith, v.cells)) e in
    rw next (
      ap (take (suc b.next)) (sym same)
      ∙ (rw at_end at (segment-set_end 0 b.next b.buffer id (omega (arith, v.cells)))))

pub store_entry-IsBuffer : (b : ThreadBuffer) (id : ℕ) → IsBuffer b → IsBuffer (store_entry b id)
unfolding store_entry
store_entry-IsBuffer b id v =
    omega (arith, length-set b.buffer b.next id, v.cells, v.within, v.small)

pub count_entry-IsBuffer :
    (b : ThreadBuffer) → IsBuffer b → b.next < b.capacity → IsBuffer (count_entry b)
unfolding count_entry
count_entry-IsBuffer b v room = ground arith

length-copy_entries :
    (to : List ℕ) (offset : ℕ) (from : List ℕ) (n : ℕ)
    → length (copy_entries to offset from n) ≡ length to
unfolding copy_entries
length-copy_entries to offset from zero = refl
length-copy_entries to offset [] (suc n) = refl
length-copy_entries to offset (x ∷ from) (suc n) =
    length-copy_entries (set to offset x) (offset + 1) from n ∙ length-set to offset x

-- What stands before the offset stays, and the copied entries follow it.
take-copy_entries :
    (to : List ℕ) (offset end : ℕ) (from : List ℕ) (n : ℕ)
    → end ≡ offset + n
    → n ≤ length from
    → end ≤ length to
    → take end (copy_entries to offset from n) ≡ take offset to ++ take n from
unfolding copy_entries
take-copy_entries to offset end from zero e h k =
    let same : end ≡ offset = omega arith in rw same (sym (append-nil _))
take-copy_entries to offset end [] (suc n) e h k = absurd (omega arith)
take-copy_entries to offset end (x ∷ from) (suc n) e h k =
    let at_end : 0 + offset ≡ offset = omega arith in
    let after : offset + 1 ≡ suc offset = omega arith in
    let grown : take (offset + 1) (set to offset x) ≡ take offset to ++ x ∷ [] =
      rw after (rw at_end at (segment-set_end 0 offset to x (omega arith))) in
    take-copy_entries (set to offset x) (offset + 1) end from n (omega arith) (omega arith)
      (omega (arith, length-set to offset x))
    ∙ ap (λ l. l ++ take n from) grown
    ∙ append_assoc (take offset to) (x ∷ []) (take n from)

-- A transfer appends the entries to the destination, empties the buffer, and keeps both well formed.
pub record Transfers (b dst : ThreadBuffer) (r : ThreadBuffer × ThreadBuffer) : Type 0 where
  pub emptied : contents r.0 ≡ []
  pub appended : contents r.1 ≡ contents dst ++ contents b
  pub source_next : r.0.next ≡ 0
  pub target_next : r.1.next ≡ dst.next + b.next
  pub source_capacity : r.0.capacity ≡ b.capacity
  pub target_capacity : r.1.capacity ≡ dst.capacity
  pub source_valid : IsBuffer r.0
  pub target_valid : IsBuffer r.1

module _ (b dst : ThreadBuffer) (v : IsBuffer b) (w : IsBuffer dst) where
  none_moved : b.next ≡ 0 → Transfers b dst (b, dst)
  none_moved e =
      let none_held : contents b ≡ [] = ap (λ n. take n b.buffer) e in
      record {
        emptied = none_held;
        appended = sym (append-nil (contents dst)) ∙ ap (λ l. contents dst ++ l) (sym none_held);
        source_next = e;
        target_next = omega arith;
        source_capacity = refl;
        target_capacity = refl;
        source_valid = v;
        target_valid = w;
      }

  pub transfer-Transfers : dst.next + b.next ≤ dst.capacity → Transfers b dst (transfer b dst)
  unfolding transfer
  transfer-Transfers room = elim (Bool-cases (b.next == 0)) [
    | inl none_left ↦ rw none_left (none_moved ((==_iff b.next 0).0 none_left))
    | inr some_left ↦ rw some_left record {
      emptied = refl;
      appended =
          take-copy_entries dst.buffer dst.next (u64 (dst.next + b.next)) b.buffer b.next
            (omega (arith, w.small)) (omega (arith, v.cells, v.within))
            (omega (arith, w.cells, w.small));
      source_next = refl;
      target_next = omega (arith, w.small);
      source_capacity = refl;
      target_capacity = refl;
      source_valid = omega (arith, v.cells, v.small);
      target_valid =
          omega (arith, w.cells, w.small, length-copy_entries dst.buffer dst.next b.buffer b.next);
    }
  ]
