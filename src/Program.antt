-- ===== src/Program.antt =====
-- `main` of main.cpp. The texts of numbers are read by `atoi` and `atol`, and the locals that no option
-- sets are what the stack holds. The arena, the pinning of its threads and the time stamps are left out.
pub mod Search
use graph_benchmark.Base.{
  ℕ, zero, suc, ℤ, pos, negsuc, ◌≡◌, refl, Bool, true, false, Option, none, some, ◌>>=◌, check,
  List, [], ◌∷◌, ◌++◌, ◌==◌, if◌then◌else◌, parse_flags, parse_flags-none, not,
}
use graph_benchmark.Graph.{Graph}
use graph_benchmark.File.{Input}
use graph_benchmark.Loader.{Fresh}
use graph_benchmark.Loader.Input.{create_graph}
use graph_benchmark.Loader.Output.{write_to_file}
use graph_benchmark.Pebs.{Kernel, cache_event_setup}
use graph_benchmark.Bfs.Hub.{Execution, Searched, visited_flags, out_of_fuel, bfs_hub}

-- The globals and locals that the options set.
pub record Settings : Type 0 where
  pub threads : ℤ
  pub nb_nodes : ℕ
  pub binary : List ℕ
  pub debug : Bool
  pub symmetric : Bool
  pub mode : ℤ
  pub iterations : ℤ
  pub output : Option (List ℕ)

-- What `getopt` returns, with the argument's text.
pub data Flag : Type 0 where
  flag_t flag_v flag_f flag_m flag_i flag_o : List ℕ → Flag
  flag_d flag_s flag_unknown : Flag

-- What lies outside of the program: the readers of numbers, the files, the printer of numbers, whether
-- the output file opens, the kernel's performance events, the path that `-d` sets, and, for the loader
-- and the search, what memory holds and how the loops run.
pub record Machine : Type 0 where
  pub atoi : List ℕ → ℤ
  pub atol : List ℕ → ℕ
  pub files : List ℕ → Input
  pub show : ℕ → List ℕ
  pub output_ok : Bool
  pub events : Kernel
  pub debug_path : List ℕ
  pub buffer : List ℕ
  pub raw : Graph
  pub fresh : Fresh
  pub counting : List ℕ
  pub filling : List ℕ
  pub searching : Execution

unfoldable pub set_option : Machine → Settings → Flag → Option Settings
set_option os s (flag_t arg) = some (record s { threads = os.atoi arg })
set_option os s (flag_v arg) = some (record s { nb_nodes = os.atol arg })
set_option os s (flag_f arg) = some (record s { binary = arg })
set_option os s flag_d = some (record s { debug = true })
set_option os s flag_s = some (record s { symmetric = true })
set_option os s (flag_m arg) = some (record s { mode = os.atoi arg })
set_option os s (flag_i arg) = some (record s { iterations = os.atoi arg })
set_option os s (flag_o arg) = some (record s { output = some arg })
set_option os s flag_unknown = none

-- A run with a negative number of threads, which `arena.initialize` and `malloc` take as it is, is not
-- followed: it is `beyond` the model.
pub data Exit : Type 0 where
  usage : Exit
  died : Exit
  beyond : Exit
  wrote : (path text : List ℕ) → Exit
  searched : Searched → Exit

-- The defaults of `-d`; otherwise `NB_NODES` must be set.
unfoldable pub with_debug : Machine → Settings → Option Settings
with_debug os s =
    if s.debug
    then some
        (record s { threads = pos 4; nb_nodes = 65536; binary = os.debug_path; symmetric = true })
    else if s.nb_nodes == 0
    then none
    else some s

-- `if(THREADS == 0) THREADS = 1;`
unfoldable pub thread_count : ℤ → ℤ
thread_count (pos zero) = pos 1
thread_count (pos (suc t)) = pos (suc t)
thread_count (negsuc t) = negsuc t

unfoldable pub exit_of_text : List ℕ → Option (List ℕ) → Exit
exit_of_text path none = died
exit_of_text path (some text) = wrote path text

-- `cache_event_setup` dies, or the search runs.
unfoldable pub after_events : Searched → Option (List ℤ) → Exit
after_events o none = died
after_events o (some fds) = searched o

-- Behind `create_graph`: the output, or the search from node 0.
unfoldable pub with_graph : Machine → Settings → ℕ → Option (List ℕ) → Graph → Exit
with_graph os s threads (some path) g = exit_of_text path (write_to_file os.output_ok os.show g)
with_graph os s threads none g =
    after_events
      (bfs_hub g s.nb_nodes g.nb_edges (record os.searching { threads = threads }) 0 s.mode)
      (cache_event_setup os.events threads)

unfoldable pub after_load : Machine → Settings → ℕ → Option Graph → Exit
after_load os s threads none = died
after_load os s threads (some g) = with_graph os s threads s.output g

unfoldable pub with_threads : Machine → Settings → ℤ → Exit
with_threads os s (pos threads) = after_load os s threads (
    create_graph (os.files s.binary) os.buffer s.symmetric s.nb_nodes os.raw os.fresh os.counting
      os.filling)
with_threads os s (negsuc k) = beyond

unfoldable pub benchmark : Machine → Settings → Exit
benchmark os s = with_threads os s (thread_count s.threads)

unfoldable pub after_flags : Machine → Option Settings → Exit
after_flags os none = usage
after_flags os (some s) = benchmark os s

-- `binary`, `mode` and `iterations` are what the stack holds.
abbrev pub start_settings : List ℕ → ℤ → ℤ → Settings
start_settings binary mode iterations = record {
  threads = pos 0;
  nb_nodes = 0;
  binary = binary;
  debug = false;
  symmetric = false;
  mode = mode;
  iterations = iterations;
  output = none;
}

unfoldable pub benchmark_main : Machine → List ℕ → ℤ → ℤ → List Flag → Exit
benchmark_main os binary mode iterations flags = after_flags os (do
  s ← parse_flags (set_option os) (start_settings binary mode iterations) flags
  with_debug os s)
