-- ===== src/Bfs/Push/Slots.antt =====
-- The threads of a round of `bfs_push`: each has a buffer of its own, and runs the body for one index
-- after the other. So what a thread writes behind its entries is there when it counts it.
use graph_benchmark.Base.{
  ℕ, ◌≡◌, ◌≢◌, ◌<◌, ◌≤◌, refl, sym, ap, ◌∙◌, inl, inr, List, [], ◌∷◌, ◌++◌, arith, get_or, length,
  length-set, length-modify, get_or-set_self, get_or-modify_self, get_or-modify_ne, Bool-cases, ltb,
  ◌==◌, All, All-split, append_assoc, count, modify,
}
use graph_benchmark.Graph.{Graph}
use graph_benchmark.Parallel.{Keeps}
use graph_benchmark.Parallel.Owner.{Owns, Owned, Owned-keep}
use graph_benchmark.Bfs.{HasTargets}
use graph_benchmark.Buffer.{store_entry}
use graph_benchmark.Bfs.Push.{
  Cursor, Explore, scan, claim, won, stored, explored, Shared, explore_step, Worker, move_first,
  worker_step,
}
use graph_benchmark.Bfs.Push.Steps.{Inv}
use graph_benchmark.Bfs.Push.Pushes.{blank, own, Holds, Level-keep}

-- A run that has not begun.
pub data IsWaiting (s : ℕ) : Explore → Type 0 where
  waiting : {c : Cursor} → c.slot ≡ s → IsWaiting s (scan c)

-- The runs of a thread with slot `s`: ended ones, the one at hand, and waiting ones.
abbrev pub InTurn : ℕ → Shared → List Explore → Type 0
InTurn s m [] = Unit
InTurn s m (explored c ∷ ts) = InTurn s m ts
InTurn s m (scan c ∷ ts) = (c.slot ≡ s) × All (IsWaiting s) ts
InTurn s m (claim c dst ∷ ts) = (c.slot ≡ s) × All (IsWaiting s) ts
InTurn s m (won c dst ∷ ts) = (c.slot ≡ s) × All (IsWaiting s) ts
InTurn s m (stored c dst ∷ ts) = (c.slot ≡ s) × All (IsWaiting s) ts × Holds m s dst

pub waiting-InTurn : (s : ℕ) (m : Shared) (ts : List Explore) → All (IsWaiting s) ts → InTurn s m ts
waiting-InTurn s m [] a = tt
waiting-InTurn s m (scan c ∷ ts) (waiting e, a) = (e, a)
waiting-InTurn s m (claim c dst ∷ ts) (i, a) = elim i [ ]
waiting-InTurn s m (won c dst ∷ ts) (i, a) = elim i [ ]
waiting-InTurn s m (stored c dst ∷ ts) (i, a) = elim i [ ]
waiting-InTurn s m (explored c ∷ ts) (i, a) = elim i [ ]

-- The buffer of slot `s` is as it was.
record SameAt (s : ℕ) (m m' : Shared) : Type 0 where
  many : length m'.buffers ≡ length m.buffers
  same : own s m' ≡ own s m

InTurn-SameAt :
    (s : ℕ) (m m' : Shared) (ts : List Explore) → SameAt s m m' → InTurn s m ts → InTurn s m' ts
InTurn-SameAt s m m' [] e a = tt
InTurn-SameAt s m m' (explored c ∷ ts) e a = InTurn-SameAt s m m' ts e a
InTurn-SameAt s m m' (scan c ∷ ts) e a = a
InTurn-SameAt s m m' (claim c dst ∷ ts) e a = a
InTurn-SameAt s m m' (won c dst ∷ ts) e a = a
InTurn-SameAt s m m' (stored c dst ∷ ts) e a =
    (a.0, a.1, rw e.same (λ lt room. a.2 (omega (arith, e.many)) room))

refl-SameAt : (s : ℕ) (m : Shared) → SameAt s m m
refl-SameAt s m = record { many = refl; same = refl }

module _ (g : Graph) where
  -- A step leaves the buffers of the other slots alone.
  move_first-SameAt :
      (s s' : ℕ) (ts : List Explore) (m : Shared)
      → s' ≢ s
      → InTurn s m ts
      → SameAt s' m (move_first g ts m).1
  unfolding move_first explore_step
  move_first-SameAt s s' [] m ne a = refl-SameAt s' m
  move_first-SameAt s s' (explored c ∷ ts) m ne a = move_first-SameAt s s' ts m ne a
  move_first-SameAt s s' (scan c ∷ ts) m ne a = refl-SameAt s' m
  move_first-SameAt s s' (claim c dst ∷ ts) m ne a =
      elim (Bool-cases (get_or m.visited dst 0 == 0)) [
        | inl new ↦ rw new record { many = refl; same = refl }
        | inr old ↦ rw old (refl-SameAt s' m)
      ]
  move_first-SameAt s s' (won c dst ∷ ts) m ne a = record {
    many = length-modify m.buffers c.slot (λ b. store_entry b dst);
    same =
        get_or-modify_ne m.buffers c.slot s' (λ b. store_entry b dst) blank (λ e. ne (sym e ∙ a.0));
  }
  move_first-SameAt s s' (stored c dst ∷ ts) m ne a = record {
    many = length-modify m.buffers c.slot _;
    same = get_or-modify_ne m.buffers c.slot s' _ blank (λ e. ne (sym e ∙ a.0));
  }

  Holds-store :
      (m : Shared) (s dst : ℕ)
      → Holds (record m { buffers = modify m.buffers s (λ b. store_entry b dst) }) s dst
  unfolding store_entry
  Holds-store m s dst lt =
      let inside : s < length m.buffers =
        omega (arith, length-modify m.buffers s (λ b. store_entry b dst)) in
      rw (get_or-modify_self m.buffers s (λ b. store_entry b dst) blank inside) (λ room.
        get_or-set_self (own s m).buffer (own s m).next dst 0
          (omega (arith, length-set (own s m).buffer (own s m).next dst)))

  -- A thread's runs stay in turn, and its write is behind its entries when it counts it.
  move_first-InTurn :
      (s : ℕ) (ts : List Explore) (m : Shared)
      → InTurn s m ts
      → InTurn s (move_first g ts m).1 (move_first g ts m).0
  unfolding move_first explore_step
  move_first-InTurn s [] m a = tt
  move_first-InTurn s (explored c ∷ ts) m a = move_first-InTurn s ts m a
  move_first-InTurn s (scan c ∷ ts) m a = elim (Bool-cases (ltb c.beg c.end)) [
    | inr stop ↦ rw stop (waiting-InTurn s m ts a.1)
    | inl go ↦ elim (Bool-cases (get_or m.visited (get_or g.out_edges c.beg 0) 0 == 0)) [
      | inl new ↦ rw (go, new) a
      | inr old ↦ rw (go, old) a
    ]
  ]
  move_first-InTurn s (claim c dst ∷ ts) m a = elim (Bool-cases (get_or m.visited dst 0 == 0)) [
    | inl new ↦ rw new a
    | inr old ↦ rw old a
  ]
  move_first-InTurn s (won c dst ∷ ts) m a = (a.0, a.1, rw a.0 (Holds-store m s dst))
  move_first-InTurn s (stored c dst ∷ ts) m a = (a.0, a.1)

  abbrev pub Turn : Shared → Worker → Type 0
  Turn m w = InTurn w.slot m w.runs

  pub turns : Owns (worker_step g) Worker.slot (λ _. Unit) Turn
  unfolding worker_step
  turns = record {
    same = λ w m. refl;
    valid = λ w m v o. tt;
    own = λ w m v o. move_first-InTurn w.slot w.runs m o;
    other = λ w u m v ne o p.
        InTurn-SameAt u.slot m (move_first g w.runs m).1 u.runs
          (move_first-SameAt w.slot u.slot w.runs m ne o) p;
  }

abbrev pub all_runs : List Worker → List Explore
all_runs [] = []
all_runs (w ∷ ws) = w.runs ++ all_runs ws

pub all_runs-append : (vs ws : List Worker) → all_runs (vs ++ ws) ≡ all_runs vs ++ all_runs ws
all_runs-append [] ws = refl
all_runs-append (v ∷ vs) ws =
    ap (λ l. v.runs ++ l) (all_runs-append vs ws)
    ∙ sym (append_assoc v.runs (all_runs vs) (all_runs ws))

module _ (g : Graph) (n threads : ℕ) (v0 frontier : List ℕ) (targets : HasTargets n g)
    (few : count 0 v0 ≤ n) where
  abbrev At : List Explore → Shared → Type 0
  At = Inv g n threads v0 frontier

  move_first-Level :
      (s : ℕ) (pre ts post : List Explore) (m : Shared)
      → InTurn s m ts
      → At (pre ++ (ts ++ post)) m
      → At (pre ++ ((move_first g ts m).0 ++ post)) (move_first g ts m).1
  unfolding move_first
  move_first-Level s pre [] post m a f = f
  move_first-Level s pre (explored c ∷ ts) post m a f =
      let q = move_first-Level s (pre ++ explored c ∷ []) ts post m a (rw append_assoc f) in
      rw append_assoc at q
  move_first-Level s pre (scan c ∷ ts) post m a f =
      Level-keep g n threads v0 frontier targets few pre (scan c) (ts ++ post) m tt f
  move_first-Level s pre (claim c dst ∷ ts) post m a f =
      Level-keep g n threads v0 frontier targets few pre (claim c dst) (ts ++ post) m tt f
  move_first-Level s pre (won c dst ∷ ts) post m a f =
      Level-keep g n threads v0 frontier targets few pre (won c dst) (ts ++ post) m tt f
  move_first-Level s pre (stored c dst ∷ ts) post m a f =
      Level-keep g n threads v0 frontier targets few pre (stored c dst) (ts ++ post) m (rw a.0 a.2)
        f

  -- No two threads share a slot, each is in turn, and the runs together keep the invariant.
  pub record Working (slots : List ℕ) (ws : List Worker) (m : Shared) : Type 0 where
    pub owned : Owned (worker_step g) Worker.slot (λ _. Unit) (Turn g) slots ws m
    pub level : At (all_runs ws) m

  pub Working-keep : (slots : List ℕ) → Keeps (worker_step g) (Working slots)
  unfolding worker_step
  Working-keep slots pre w post m k =
      let (before, rest) = All-split (Turn g m) pre (w ∷ post) k.owned.own in
      record {
        owned = Owned-keep (turns g) slots pre w post m k.owned;
        level = rw (all_runs-append pre _) (
            move_first-Level w.slot (all_runs pre) w.runs (all_runs post) m rest.0
              (rw (← all_runs-append pre (w ∷ post)) k.level));
      }
