-- ===== src/Tests/ProgramTests.antt =====
-- main.cpp on a small input, and its theorems there. The text of a number is as long as the number.
use graph_benchmark.Base.{
  pos, ◌≡◌, refl, arith, true, false, none, some, List, [], ◌∷◌, ◌++◌, length, replicate,
  parse_flags,
}
use graph_benchmark.Bfs.Hub.{Searched}
use graph_benchmark.Bfs.Hub.Loaded.{Finds}
use graph_benchmark.Program.{
  Machine, Settings, Flag, flag_t, flag_v, flag_f, flag_m, flag_s, flag_unknown, usage, searched,
  set_option, start_settings, thread_count, benchmark_main,
}
use graph_benchmark.Program.Search.{
  IsFit, benchmark_main-usage, benchmark_main-no_nodes, benchmark_main-Finds,
}
use graph_benchmark.Pebs.Setup.{cache_event_setup-opens}
use graph_benchmark.Tests.PebsTests.{kernel, descriptor}
use graph_benchmark.Tests.Data.{
  raw, fresh, edges, schedule, fresh-IsBlank, edges-IsSmall, reversed-IsSmall, cells-IsAllocated,
  rounds-IsSound,
}
use graph_benchmark.Tests.PullTests.{off-IsCleared}
use graph_benchmark.Tests.HubTests.{execution, execution-IsStarted}
use graph_benchmark.Tests.FileTests.{file, cells, file-IsReadable, cells-size, edges-AreWords, ones}

abbrev machine : Machine
machine = record {
  atoi = λ text. pos (length text);
  atol = length;
  files = λ path. file;
  show = ones;
  output_ok = true;
  events = kernel;
  debug_path = [];
  buffer = cells;
  raw = raw;
  fresh = fresh;
  counting = schedule;
  filling = schedule;
  searching = execution;
}

-- `-t 2 -v 4 -f x -s -m 2`
abbrev flags : List Flag
flags =
    flag_t (replicate 2 49)
    ∷ flag_v (replicate 4 49)
    ∷ flag_f (120 ∷ [])
    ∷ flag_s
    ∷ flag_m (replicate 2 49)
    ∷ []

abbrev settings : Settings
settings = record {
  threads = pos 2;
  nb_nodes = 4;
  binary = 120 ∷ [];
  debug = false;
  symmetric = true;
  mode = pos 2;
  iterations = pos 7;
  output = none;
}

flags-read :
    parse_flags (set_option machine) (start_settings [] (pos 9) (pos 7)) flags ≡ some settings
unfolding parse_flags set_option
flags-read = refl

machine-IsFit : IsFit machine edges 4 2 (120 ∷ [])
machine-IsFit = record {
  readable = file-IsReadable;
  holds = refl;
  buffer = cells-size;
  words = edges-AreWords;
  blank = fresh-IsBlank;
  small = edges-IsSmall;
  small_in = reversed-IsSmall;
  allocated = cells-IsAllocated;
  cleared = off-IsCleared;
  shares = rounds-IsSound;
  collector = execution-IsStarted;
  events = (_, cache_event_setup-opens kernel descriptor 2 (λ k. refl) (λ k. refl));
  some_node = omega arith;
}

benchmark_main-Finds_example :
    (o : Searched) × (benchmark_main machine [] (pos 9) (pos 7) flags ≡ searched o)
    × Finds edges 0 o
unfolding thread_count
benchmark_main-Finds_example =
    benchmark_main-Finds machine edges 4 2 [] (pos 9) (pos 7) flags settings 2 machine-IsFit
      flags-read refl refl refl refl refl (omega arith) refl

benchmark_main-usage_example :
    benchmark_main machine [] (pos 9) (pos 7) (flags ++ flag_unknown ∷ flags) ≡ usage
benchmark_main-usage_example = benchmark_main-usage machine [] (pos 9) (pos 7) flags flags

-- `-t 2 -v '' -s`
benchmark_main-no_nodes_example :
    benchmark_main machine [] (pos 9) (pos 7) (flag_t (replicate 2 49) ∷ flag_v [] ∷ flag_s ∷ [])
    ≡ usage
benchmark_main-no_nodes_example =
    benchmark_main-no_nodes machine [] (pos 9) (pos 7)
      (flag_t (replicate 2 49) ∷ flag_v [] ∷ flag_s ∷ []) (tt, (refl, (tt, tt)))
