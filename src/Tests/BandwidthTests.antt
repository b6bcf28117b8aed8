-- ===== src/Tests/BandwidthTests.antt =====
-- Runs of bw/, and its theorems at them: 16 bytes, two threads, and accesses of two bytes.
use graph_benchmark.Base.{
  ℕ, ◌+◌, ◌*◌, ◌/◌, ◌≡◌, ◌≢◌, ◌<◌, ◌≤◌, ◌⊎◌, ◌++◌, refl, arith, Bool, true, false, List, [], ◌∷◌,
  none, some, get_or, length, replicate, All, parse_flags,
}
use graph_benchmark.Bandwidth.{
  ThreadInfo, write, read, random, grouped, interleaved, create_buffer, page_aligned,
  create_thread_info, thread_infos, thread_info,
}
use graph_benchmark.Bandwidth.Access.{
  Setup, Func, read_random_func, read_random, write_random, read_seq, write_seq, memcpy, read_hub,
  launch, seq_place, write_seq_loop, unroll,
}
use graph_benchmark.Bandwidth.Places.{place, AreApart}
use graph_benchmark.Bandwidth.Parts.{
  no_info, create_thread_info-AreApart, write_random-KeepsTheirs, read_seq-bounds,
}
use graph_benchmark.Bandwidth.Random.{write_random-first_block}
use graph_benchmark.Bandwidth.Times.{IsStart, IsStop, find_start, find_stop, find_start-find_stop}
use graph_benchmark.Bandwidth.Program.{
  Machine, Settings, flag_w, flag_s, flag_unknown, Report, printed, usage, Reads, bw_main,
  run_settings, bench, exit_of, set_option, rw_mode, bw_main-Reads, bw_main-usage,
}

abbrev all_ok : ℕ → Bool
all_ok i = true

create_thread_info-AreApart_example :
    (infos : List ThreadInfo) × (create_thread_info all_ok 16 2 2 interleaved
      ≡ some (infos, 16 / 2 / 2))
    × ((i k : ℕ) → i < 2 → k < 16 / 2 / 2 → place (get_or infos i no_info) k + 2 ≤ 16)
    × ((i k j l : ℕ)
        → i < 2
        → j < 2
        → k < 16 / 2 / 2
        → l < 16 / 2 / 2
        → (i ≢ j) ⊎ (k ≢ l)
        → AreApart 2 (place (get_or infos i no_info) k) (place (get_or infos j no_info) l))
create_thread_info-AreApart_example =
    create_thread_info-AreApart all_ok interleaved 16 2 2 (λ i. refl) (omega arith) (omega arith)
      (omega arith) (omega arith)

abbrev three : Setup
three = record { access_size = 2; nb_accesses = 3; access_count = 16 / 2 / 2; loops = 2 }

abbrev Theirs : List ThreadInfo → ℕ → List ℕ → List ℕ → Type 0
Theirs infos i mem mem' =
    (j l y : ℕ)
    → j < 2
    → j ≢ i
    → l < 16 / 2 / 2
    → y < 2
    → get_or mem' (place (get_or infos j no_info) l + y) 0
      ≡ get_or mem (place (get_or infos j no_info) l + y) 0

write_random-KeepsTheirs_example :
    (infos : List ThreadInfo) × (create_thread_info all_ok 16 2 2 grouped
      ≡ some (infos, 16 / 2 / 2))
    × ((i : ℕ) (mem : List ℕ)
        → i < 2
        → length mem ≡ 16
        → (s : List ℕ × ℕ) × (write_random three (get_or infos i no_info) mem ≡ some s)
          × Theirs infos i mem s.0)
    × ((i : ℕ) (mem : List ℕ)
        → i < 2
        → length mem ≡ 16
        → 3 ≤ 16 / 2 / 2
        → (mem' : List ℕ) × (write_seq three (get_or infos i no_info) mem ≡ some mem')
          × Theirs infos i mem mem')
write_random-KeepsTheirs_example =
    write_random-KeepsTheirs all_ok grouped 16 2 2 (λ i. refl) (omega arith) (omega arith)
      (omega arith) (omega arith) 3 2

abbrev nine : Setup
nine = record { access_size = 2; nb_accesses = 9; access_count = 16 / 2 / 2; loops = 2 }

read_seq-bounds_example :
    (infos : List ThreadInfo) × (create_thread_info all_ok 16 2 2 grouped
      ≡ some (infos, 16 / 2 / 2))
    × ((i : ℕ) (mem : List ℕ)
        → i < 2
        → length mem ≡ 16
        → (s : List ℕ × ℕ) × (read_random nine (get_or infos i no_info) mem ≡ some s))
    × ((i : ℕ) (mem : List ℕ)
        → i < 2
        → length mem ≡ 16
        → 9 ≤ 16 / 2 / 2
        → (b : List ℕ) × (read_seq nine (get_or infos i no_info) mem ≡ some b))
    × ((mem : List ℕ)
        → length mem ≡ 16
        → grouped ≡ grouped
        → 2 * (16 / 2) ≡ 16
        → 16 / 2 / 2 < 9
        → 0 < 2
        → read_seq nine (get_or infos 1 no_info) mem ≡ none)
read_seq-bounds_example =
    read_seq-bounds all_ok grouped 16 2 2 (λ i. refl) (omega arith) (omega arith) (omega arith)
      (omega arith) 9 2

abbrev first_info : ThreadInfo
first_info = thread_info grouped 16 2 2 0

write_random-first_block_example :
    (s : List ℕ × ℕ) × (write_random nine first_info (replicate 16 0) ≡ some s)
    × (s.1 ≡ 0)
    × ((x : ℕ)
        → (x < first_info.start) ⊎ (first_info.start + 2 ≤ x)
        → get_or s.0 x 0 ≡ get_or (replicate 16 0) x 0)
unfolding thread_info
write_random-first_block_example =
    write_random-first_block nine first_info (replicate 16 0) (omega arith) refl (omega arith)

-- Three rounds of the second thread of the grouped division.
write_seq-runs :
    write_seq three (thread_info grouped 16 2 2 1) (replicate 16 0)
    ≡ some (replicate 8 0 ++ (replicate 2 42 ++ replicate 6 0))
unfolding write_seq write_seq_loop unroll seq_place memcpy thread_info
write_seq-runs = refl

abbrev timed : ℕ → ℕ → ThreadInfo
timed a b = record no_info { start_cycle = a; stop_cycle = b }

find_start-find_stop_example :
    IsStart (timed 7 9 ∷ timed 5 8 ∷ []) (find_start (timed 7 9 ∷ timed 5 8 ∷ []))
    × IsStop (timed 7 9 ∷ timed 5 8 ∷ []) (find_stop (timed 7 9 ∷ timed 5 8 ∷ []))
find_start-find_stop_example = find_start-find_stop (timed 7 9) (timed 5 8 ∷ []) (omega arith)

-- A machine on which every call succeeds, and the texts of numbers are their lengths.
abbrev machine : Machine
machine = record {
  atoi = length;
  atol = length;
  files = record {
    exists = false;
    open_ok = true;
    lseek_ok = true;
    write_ok = true;
    mmap_ok = true;
  };
  attr_ok = all_ok;
  create_ok = all_ok;
  remove_ok = true;
  join = λ launched infos. infos;
}

abbrev settings : Settings
settings = record {
  path = none;
  size = 16;
  threads = 2;
  rwmode = read;
  srmode = random;
  accessmode = grouped;
  access_size = 2;
  nb_accesses = 9;
}

-- `-w1`
abbrev report : Report
report = record {
  launched = (0, read_random_func) ∷ (1, read_random_func) ∷ [];
  pattern = random;
  label = write;
  cycles = 0;
  total_bytes = 0;
  removed = true;
}

bw_main-runs : bw_main machine settings (flag_w (0 ∷ []) ∷ []) ≡ printed report
unfolding bw_main run_settings bench exit_of set_option rw_mode create_buffer page_aligned
    create_thread_info thread_infos thread_info read_hub launch find_start find_stop parse_flags
bw_main-runs = refl

bw_main-Reads_example : All (λ (t : ℕ × Func). Reads t.1) report.launched
bw_main-Reads_example = bw_main-Reads machine settings (flag_w (0 ∷ []) ∷ []) report bw_main-runs

bw_main-usage_example :
    bw_main machine settings (flag_w (0 ∷ []) ∷ [] ++ flag_unknown ∷ flag_s [] ∷ []) ≡ usage
bw_main-usage_example = bw_main-usage machine settings (flag_w (0 ∷ []) ∷ []) (flag_s [] ∷ [])
