-- ===== src/Bandwidth/Program.antt =====
-- bw/main.cpp: the options, and the run. The texts of arguments are read by `atol` and `atoi`; the locals
-- that no option sets are what the stack holds.
use graph_benchmark.Base.{
  ℕ, zero, suc, ◌+◌, ◌-◌, ◌*◌, ◌/◌, ◌^◌, ◌≡◌, refl, Bool, Option, none, some, ◌>>=◌, check,
  >>=-eq-some, List, [], ◌∷◌, ◌++◌, u64, parse_flags, parse_flags-none, All, subst, sym, ap, ◌∙◌,
}
use graph_benchmark.Bandwidth.{
  RwMode, read, write, SrMode, seq, random, AccessMode, grouped, interleaved, ThreadInfo, FileCalls,
  create_buffer, create_thread_info,
}
use graph_benchmark.Bandwidth.Access.{
  Func, read_seq_func, read_random_func, write_seq_func, write_random_func, launch, read_hub,
}
use graph_benchmark.Bandwidth.Times.{find_start, find_stop}

-- The locals of `main` and the globals that the options set.
pub record Settings : Type 0 where
  pub path : Option (List ℕ)
  pub size : ℕ
  pub threads : ℕ
  pub rwmode : RwMode
  pub srmode : SrMode
  pub accessmode : AccessMode
  pub access_size : ℕ
  pub nb_accesses : ℕ

-- What `getopt` returns, with the argument's text.
pub data Flag : Type 0 where
  flag_p flag_s flag_t flag_w flag_r flag_a flag_i flag_n : List ℕ → Flag
  flag_unknown : Flag

-- The casts to the modes, which are compared with `READ`, `SEQ` and `GROUPED` only.
unfoldable pub rw_mode : ℕ → RwMode
rw_mode zero = read
rw_mode (suc n) = write

unfoldable pub sr_mode : ℕ → SrMode
sr_mode zero = seq
sr_mode (suc n) = random

unfoldable pub access_mode : ℕ → AccessMode
access_mode zero = grouped
access_mode (suc n) = interleaved

-- The operating system and the hardware: the calls, and the times that the threads take.
pub record Machine : Type 0 where
  pub atoi : List ℕ → ℕ
  pub atol : List ℕ → ℕ
  pub files : FileCalls
  pub attr_ok : ℕ → Bool
  pub create_ok : ℕ → Bool
  pub remove_ok : Bool
  pub join : List (ℕ × Func) → List ThreadInfo → List ThreadInfo

-- The `switch`.
unfoldable pub set_option : Machine → Settings → Flag → Option Settings
set_option os s (flag_p arg) = some (record s { path = some arg })
set_option os s (flag_s arg) = some (record s { size = os.atol arg })
set_option os s (flag_t arg) = some (record s { threads = os.atoi arg })
set_option os s (flag_w arg) = some (record s { rwmode = rw_mode (os.atoi arg) })
set_option os s (flag_r arg) = some (record s { srmode = sr_mode (os.atoi arg) })
set_option os s (flag_a arg) = some (record s { access_size = os.atol arg })
set_option os s (flag_i arg) = some (record s { accessmode = access_mode (os.atoi arg) })
set_option os s (flag_n arg) = some (record s { nb_accesses = os.atol arg })
set_option os s flag_unknown = none

-- What the program prints, without the time in seconds, the threads that it has started, and whether
-- `remove` then succeeds: otherwise the process dies behind its output.
pub record Report : Type 0 where
  pub launched : List (ℕ × Func)
  pub pattern : SrMode
  pub label : RwMode
  pub cycles : ℕ
  pub total_bytes : ℕ
  pub removed : Bool

-- `main` behind the options.
unfoldable pub bench : Machine → Settings → Option Report
bench os s = do
  created ← create_buffer os.files s.size
  parts ← create_thread_info os.attr_ok created.0 s.threads s.access_size s.accessmode
  launched ← read_hub os.create_ok s.threads s.srmode
  let infos = os.join launched parts.0
  let start = find_start infos
  let stop = find_stop infos
  some (record {
    launched = launched;
    pattern = s.srmode;
    label = s.rwmode;
    cycles = u64 (stop + 2 ^ 64 - start);
    total_bytes = u64 (s.threads * s.nb_accesses * s.access_size) / 1024 / 1024;
    removed = os.remove_ok;
  })

pub data Exit : Type 0 where
  usage : Exit
  died : Exit
  printed : Report → Exit

unfoldable pub exit_of : Option Report → Exit
exit_of none = died
exit_of (some r) = printed r

-- `main` once the options are read.
unfoldable pub run_settings : Machine → Option Settings → Exit
run_settings os none = usage
run_settings os (some s) = exit_of (bench os s)

unfoldable pub bw_main : Machine → Settings → List Flag → Exit
bw_main os fresh flags = run_settings os (parse_flags (set_option os) fresh flags)

-- The functions that read.
abbrev pub Reads : Func → Type 0
Reads read_seq_func = Unit
Reads read_random_func = Unit
Reads write_seq_func = ⊥
Reads write_random_func = ⊥

launch-Reads :
    (create_ok : ℕ → Bool) (func : Func) (i n : ℕ)
    → Reads func
    → (l : List (ℕ × Func)) → launch create_ok func i n ≡ some l
    → All (λ (t : ℕ × Func). Reads t.1) l
unfolding launch
launch-Reads create_ok func i zero ok l e =
    let same : [] ≡ l = cc in subst (λ l. All (λ (t : ℕ × Func). Reads t.1) l) same tt
launch-Reads create_ok func i (suc n) ok l e =
    let (_, _, e') = >>=-eq-some (check (create_ok i)) _ e in
    let (rest, made, e'') = >>=-eq-some (launch create_ok func (i + 1) n) _ e' in
    let same : (i, func) ∷ rest ≡ l = cc in
    subst (λ l. All (λ (t : ℕ × Func). Reads t.1) l) same
      (ok, launch-Reads create_ok func (i + 1) n ok rest made)

read_hub-Reads :
    (create_ok : ℕ → Bool) (threads : ℕ) (m : SrMode) (l : List (ℕ × Func))
    → read_hub create_ok threads m ≡ some l
    → All (λ (t : ℕ × Func). Reads t.1) l
unfolding read_hub
read_hub-Reads create_ok threads seq l e = launch-Reads create_ok read_seq_func 0 threads tt l e
read_hub-Reads create_ok threads random l e =
    launch-Reads create_ok read_random_func 0 threads tt l e

bench-Reads :
    (os : Machine) (s : Settings) (r : Report)
    → bench os s ≡ some r
    → All (λ (t : ℕ × Func). Reads t.1) r.launched
unfolding bench
bench-Reads os s r e =
    let (created, _, e1) = >>=-eq-some (create_buffer os.files s.size) _ e in
    let (parts, _, e2) =
      >>=-eq-some (create_thread_info os.attr_ok created.0 s.threads s.access_size s.accessmode) _
        e1 in
    let (launched, made, e3) = >>=-eq-some (read_hub os.create_ok s.threads s.srmode) _ e2 in
    let same : launched ≡ r.launched = cc in
    subst (λ l. All (λ (t : ℕ × Func). Reads t.1) l) same
      (read_hub-Reads os.create_ok s.threads s.srmode launched made)

report_of : Exit → Option Report
report_of usage = none
report_of died = none
report_of (printed r) = some r

report_of-exit_of : (o : Option Report) → report_of (exit_of o) ≡ o
unfolding report_of exit_of
report_of-exit_of none = refl
report_of-exit_of (some r) = refl

run_settings-Reads :
    (os : Machine) (o : Option Settings) (r : Report)
    → run_settings os o ≡ printed r
    → All (λ (t : ℕ × Func). Reads t.1) r.launched
unfolding run_settings report_of
run_settings-Reads os none r e = absurd (no_report (ap report_of e))
  where
    no_report : none ≡ some r → ⊥
    no_report q = cc
run_settings-Reads os (some s) r e =
    bench-Reads os s r (sym (report_of-exit_of (bench os s)) ∙ ap report_of e)

-- Whatever the options say, a run that prints has started its threads on reading functions only, also
-- where `-w1` asks for writes and the report says so.
pub bw_main-Reads :
    (os : Machine) (fresh : Settings) (flags : List Flag) (r : Report)
    → bw_main os fresh flags ≡ printed r
    → All (λ (t : ℕ × Func). Reads t.1) r.launched
unfolding bw_main
bw_main-Reads os fresh flags r e =
    run_settings-Reads os (parse_flags (set_option os) fresh flags) r e

-- An option that the program does not know ends it with the usage text, wherever it stands.
pub bw_main-usage :
    (os : Machine) (fresh : Settings) (before after : List Flag)
    → bw_main os fresh (before ++ flag_unknown ∷ after) ≡ usage
unfolding bw_main set_option run_settings
bw_main-usage os fresh before after =
    rw (parse_flags-none (set_option os) flag_unknown before after (λ s. refl) fresh) refl
