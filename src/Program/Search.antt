-- ===== src/Program/Search.antt =====
-- From the command line to the visited nodes.
use graph_benchmark.Base.{
  ℕ, ℤ, pos, ◌≡◌, ◌<◌, refl, true, false, none, some, List, ◌∷◌, ◌++◌, map, arith, length, ◌==◌,
  parse_flags, parse_flags-none, All, [], ◌>>=◌,
}
use graph_benchmark.Graph.{Edge, reverse_edge}
use graph_benchmark.File.{bytes_of}
use graph_benchmark.File.Bytes.{AreWords}
use graph_benchmark.File.Reading.{IsReadable}
use graph_benchmark.Loader.Filling.Result.{IsSmall}
use graph_benchmark.Loader.Correct.{IsBlank}
use graph_benchmark.Loader.Input.{create_graph-IsGraphOf}
use graph_benchmark.Bfs.Push.{IsSound}
use graph_benchmark.Bfs.Push.First.{IsAllocated}
use graph_benchmark.Bfs.Pull.Correct.{IsCleared}
use graph_benchmark.Bfs.Hub.{Searched, bfs_hub}
use graph_benchmark.Bfs.Hub.Loaded.{Finds, IsStarted, bfs_hub-Finds}
use graph_benchmark.Pebs.{cache_event_setup}
use graph_benchmark.Program.{
  Machine, Settings, Flag, flag_t, flag_v, flag_f, flag_m, flag_i, flag_o, flag_d, flag_s,
  flag_unknown, usage, searched, set_option, with_debug, thread_count, with_graph, after_events,
  after_load, with_threads, benchmark, after_flags, start_settings, benchmark_main,
}

-- An option that the program does not know ends it with the usage text, wherever it stands.
pub benchmark_main-usage :
    (os : Machine) (binary : List ℕ) (mode iterations : ℤ) (before after : List Flag)
    → benchmark_main os binary mode iterations (before ++ flag_unknown ∷ after) ≡ usage
unfolding benchmark_main set_option after_flags
benchmark_main-usage os binary mode iterations before after =
    rw
      (parse_flags-none (set_option os) flag_unknown before after (λ s. refl)
        (start_settings binary mode iterations))
      refl

-- No `-d`, and no `-v` with a number other than 0.
abbrev pub IsBare : Machine → Flag → Type 0
IsBare os (flag_v arg) = os.atol arg ≡ 0
IsBare os flag_d = ⊥
IsBare os (flag_t arg) = Unit
IsBare os (flag_f arg) = Unit
IsBare os (flag_m arg) = Unit
IsBare os (flag_i arg) = Unit
IsBare os (flag_o arg) = Unit
IsBare os flag_s = Unit
IsBare os flag_unknown = Unit

module _ (os : Machine) where
  bare-none :
      (flags : List Flag) (s : Settings)
      → All (IsBare os) flags
      → s.debug ≡ false
      → s.nb_nodes ≡ 0
      → (parse_flags (set_option os) s flags >>= with_debug os) ≡ none
  unfolding parse_flags set_option with_debug
  bare-none [] s a e z = rw (e, z) refl
  bare-none (flag_t arg ∷ fs) s a e z = bare-none fs _ a.1 e z
  bare-none (flag_v arg ∷ fs) s a e z = bare-none fs _ a.1 e a.0
  bare-none (flag_f arg ∷ fs) s a e z = bare-none fs _ a.1 e z
  bare-none (flag_d ∷ fs) s a e z = absurd a.0
  bare-none (flag_s ∷ fs) s a e z = bare-none fs _ a.1 e z
  bare-none (flag_m arg ∷ fs) s a e z = bare-none fs _ a.1 e z
  bare-none (flag_i arg ∷ fs) s a e z = bare-none fs _ a.1 e z
  bare-none (flag_o arg ∷ fs) s a e z = bare-none fs _ a.1 e z
  bare-none (flag_unknown ∷ fs) s a e z = refl

  -- A command line without `-d`, in which every `-v` gives the number 0, ends with the usage text,
  -- whatever its other options are and in whatever order.
  pub benchmark_main-no_nodes :
      (binary : List ℕ) (mode iterations : ℤ) (flags : List Flag)
      → All (IsBare os) flags
      → benchmark_main os binary mode iterations flags ≡ usage
  unfolding benchmark_main after_flags
  benchmark_main-no_nodes binary mode iterations flags a =
      rw (bare-none flags (start_settings binary mode iterations) a refl refl) refl

module _ (os : Machine) (edges : List Edge) (n t : ℕ) where
  -- The machine's files, memory and words are fit for a run on `edges` with `n` nodes and `t` threads.
  pub record IsFit (path : List ℕ) : Type 0 where
    pub readable : IsReadable (os.files path)
    pub holds : (os.files path).bytes ≡ bytes_of edges
    pub buffer : length os.buffer ≡ length (os.files path).bytes
    pub words : AreWords edges
    pub blank : IsBlank n (length edges) os.fresh
    pub small : IsSmall n edges
    pub small_in : IsSmall n (map reverse_edge edges)
    pub allocated : IsAllocated n t os.searching.cells os.searching.buffer_cells
    pub cleared : IsCleared n os.searching.set_up.frontier_cells os.searching.set_up.next_cells
    pub shares : (k : ℕ) → IsSound t (os.searching.rounds k)
    pub collector : IsStarted (record os.searching { threads = t })
    pub events : (fds : List ℤ) × (cache_event_setup os.events t ≡ some fds)
    pub some_node : 0 < n

  benchmark-Finds :
      (path : List ℕ) (k : ℕ) (s : Settings)
      → IsFit path
      → k < 3
      → s.binary ≡ path
      → s.symmetric ≡ true
      → s.nb_nodes ≡ n
      → s.output ≡ none
      → s.mode ≡ pos k
      → thread_count s.threads ≡ pos t
      → (o : Searched) × (benchmark os s ≡ searched o) × Finds edges 0 o
  unfolding benchmark with_threads after_load with_graph after_events
  benchmark-Finds path k s fit hk file both nodes quiet mode threads =
      let (g, built, r) =
        create_graph-IsGraphOf (os.files path) os.buffer true n os.raw os.fresh os.counting
          os.filling edges fit.readable fit.buffer fit.holds fit.words fit.blank fit.small
          (λ _. fit.small_in) in
      let run = record os.searching { threads = t } in
      (
        bfs_hub g n g.nb_edges run 0 (pos k),
        simp (file, both, nodes, quiet, mode, threads, built, fit.events.1),
        bfs_hub-Finds r fit.small fit.small_in run 0 fit.some_node fit.allocated fit.shares
            fit.cleared fit.collector g.nb_edges k hk,
      )

  -- On a machine that is fit for it, where the collecting thread starts and is joined and the worker
  -- threads that run at once differ in `gettid() % THREADS`, a command line that names the file with
  -- `-f`, both directions with `-s`, the nodes with `-v`, a number of threads that is not negative with
  -- `-t` and one of the three searches with `-m`, and neither debugs nor asks for output, runs that
  -- search, which returns with flags exactly at the nodes that the file's edges connect to node 0.
  pub benchmark_main-Finds :
      (binary : List ℕ) (mode iterations : ℤ) (flags : List Flag) (s : Settings) (k : ℕ)
      → IsFit s.binary
      → parse_flags (set_option os) (start_settings binary mode iterations) flags ≡ some s
      → s.debug ≡ false
      → s.symmetric ≡ true
      → s.nb_nodes ≡ n
      → s.output ≡ none
      → s.mode ≡ pos k
      → k < 3
      → thread_count s.threads ≡ pos t
      → (o : Searched) × (benchmark_main os binary mode iterations flags ≡ searched o)
        × Finds edges 0 o
  unfolding benchmark_main after_flags with_debug
  benchmark_main-Finds binary mode iterations flags s k fit e quiet both nodes no_output wanted hk
        threads =
      let (o, ran, found) =
        benchmark-Finds s.binary k s fit hk refl both nodes no_output wanted threads in
      let some_nodes : (s.nb_nodes == 0) ≡ false = ground (arith, nodes, fit.some_node) in
      (o, simp (e, quiet, some_nodes, ran), found)
