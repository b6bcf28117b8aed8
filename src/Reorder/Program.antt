-- ===== src/Reorder/Program.antt =====
-- `main` of reorder.cpp. The texts of numbers are read by `atol`; a path names an input file.
use graph_benchmark.Base.{
  ℕ, ◌≡◌, refl, Bool, true, false, Option, none, some, ◌>>=◌, check, List, [], ◌∷◌, ◌++◌, not, ◌==◌,
  parse_flags, parse_flags-none, >>=-eq-none, All, if◌then◌else◌,
}
use graph_benchmark.File.{Input}
use graph_benchmark.Reorder.Sort.{Sorting, Cells, Schedules, Output, sort_by_degree}

-- The locals of `main` and the globals that it sets. A path that no option has set is what the stack
-- holds.
pub record Settings : Type 0 where
  pub input : Option (List ℕ)
  pub output : Option (List ℕ)
  pub ascending : Bool
  pub maintain : Bool
  pub debug : Bool
  pub nb_nodes : ℕ

-- What `getopt` returns, with the argument's text.
pub data Flag : Type 0 where
  flag_i flag_o flag_v : List ℕ → Flag
  flag_a flag_d flag_m flag_unknown : Flag

unfoldable pub set_option : (List ℕ → ℕ) → Settings → Flag → Option Settings
set_option atol s (flag_i arg) = some (record s { input = some arg })
set_option atol s (flag_o arg) = some (record s { output = some arg })
set_option atol s flag_a = some (record s { ascending = true })
set_option atol s (flag_v arg) = some (record s { nb_nodes = atol arg })
set_option atol s flag_d = some (record s { debug = true })
set_option atol s flag_m = some (record s { maintain = true })
set_option atol s flag_unknown = none

-- "/home/lsw/graph_data/small_directed_graph_binary" and "output", as the two paths `small` and `out`.
unfoldable pub with_debug : List ℕ → List ℕ → Settings → Settings
with_debug small out s =
    if s.debug then record s { input = some small; output = some out; nb_nodes = 16 } else s

-- The file that is written, with its name.
pub record Written : Type 0 where
  pub path : List ℕ
  pub result : Output

-- The assertion and the call; `files` is the file behind a path.
unfoldable pub run_settings :
    Sorting → (List ℕ → Input) → Cells → Schedules → Settings → Option Written
run_settings sort files cells run s = do
  input ← s.input
  output ← s.output
  _ ← check (not (s.nb_nodes == 0))
  result ← sort_by_degree sort (files input) cells run s.ascending s.maintain s.nb_nodes
  some (record { path = output; result = result })

pub data Exit : Type 0 where
  usage : Exit
  died : Exit
  wrote : Written → Exit

unfoldable pub exit_of : Option Written → Exit
exit_of none = died
exit_of (some w) = wrote w

unfoldable pub after_flags :
    Sorting → (List ℕ → Input) → Cells → Schedules → List ℕ → List ℕ → Option Settings → Exit
after_flags sort files cells run small out none = usage
after_flags sort files cells run small out (some s) =
    exit_of (run_settings sort files cells run (with_debug small out s))

-- `input` and `output` are what the stack holds, and `NB_NODES` starts at 0.
abbrev pub start_settings : Option (List ℕ) → Option (List ℕ) → Settings
start_settings input output = record {
  input = input;
  output = output;
  ascending = false;
  maintain = false;
  debug = false;
  nb_nodes = 0;
}

unfoldable pub reorder_main :
    Sorting
    → (List ℕ → ℕ)
    → (List ℕ → Input)
    → Cells
    → Schedules
    → List ℕ
    → List ℕ
    → Option (List ℕ)
    → Option (List ℕ)
    → List Flag
    → Exit
reorder_main sort atol files cells run small out input output flags =
    after_flags sort files cells run small out
      (parse_flags (set_option atol) (start_settings input output) flags)

-- An option of the program other than `-d`, and `-v` with the number 0 only.
abbrev pub IsBare : (List ℕ → ℕ) → Flag → Type 0
IsBare atol (flag_v arg) = atol arg ≡ 0
IsBare atol flag_d = ⊥
IsBare atol flag_unknown = ⊥
IsBare atol (flag_i arg) = Unit
IsBare atol (flag_o arg) = Unit
IsBare atol flag_a = Unit
IsBare atol flag_m = Unit

module _ (sort : Sorting) (atol : List ℕ → ℕ) (files : List ℕ → Input) (cells : Cells)
    (run : Schedules) (small out : List ℕ) (input output : Option (List ℕ)) where
  -- An option that the program does not know ends it with the usage text, wherever it stands.
  pub reorder_main-usage :
      (before after : List Flag)
      → reorder_main sort atol files cells run small out input output
          (before ++ flag_unknown ∷ after)
        ≡ usage
  unfolding reorder_main after_flags set_option
  reorder_main-usage before after =
      rw
        (parse_flags-none (set_option atol) flag_unknown before after (λ s. refl)
          (start_settings input output))
        refl

  -- The assertion fails, if the paths are there at all.
  run_settings-none : (s : Settings) → s.nb_nodes ≡ 0 → run_settings sort files cells run s ≡ none
  unfolding run_settings
  run_settings-none s z = >>=-eq-none s.input _ (λ i. >>=-eq-none s.output _ (λ o. rw z refl))

  bare-died :
      (flags : List Flag) (s : Settings)
      → All (IsBare atol) flags
      → s.debug ≡ false
      → s.nb_nodes ≡ 0
      → after_flags sort files cells run small out (parse_flags (set_option atol) s flags) ≡ died
  unfolding after_flags parse_flags set_option with_debug exit_of run_settings
  bare-died [] s a e z = rw (e, run_settings-none s z) refl
  bare-died (flag_i arg ∷ fs) s a e z = bare-died fs _ a.1 e z
  bare-died (flag_o arg ∷ fs) s a e z = bare-died fs _ a.1 e z
  bare-died (flag_v arg ∷ fs) s a e z = bare-died fs _ a.1 e a.0
  bare-died (flag_a ∷ fs) s a e z = bare-died fs _ a.1 e z
  bare-died (flag_d ∷ fs) s a e z = absurd a.0
  bare-died (flag_m ∷ fs) s a e z = bare-died fs _ a.1 e z
  bare-died (flag_unknown ∷ fs) s a e z = absurd a.0

  -- A command line of known options without `-d`, in which every `-v` gives the number 0, ends by the
  -- assertion on `NB_NODES` or before it, whatever its other options are and in whatever order.
  pub reorder_main-died :
      (flags : List Flag)
      → All (IsBare atol) flags
      → reorder_main sort atol files cells run small out input output flags ≡ died
  unfolding reorder_main
  reorder_main-died flags a = bare-died flags (start_settings input output) a refl refl
