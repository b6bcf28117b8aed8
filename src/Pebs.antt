-- ===== src/Pebs.antt =====
-- src/pebs.cpp and include/pebs.h: the events that the program opens, and the thread that collects the
-- sampled addresses. Memory is a list of words of eight bytes. `none` is a process that `die` or an access
-- outside of a buffer has ended.
pub mod Draining
pub mod Setup
use graph_benchmark.Base.{
  ℕ, zero, suc, ℤ, pos, negsuc, ◌+◌, ◌*◌, ◌/◌, ◌%◌, ◌^◌, Bool, true, false, Option, none, some,
  ◌>>=◌, check, List, [], ◌∷◌, ◌++◌, ◌==◌, ltb, if◌then◌else◌, get_or, length, u64,
}

-- The fields of `struct perf_event_attr` that are set; `memset` clears the others.
pub record Attr : Type 0 where
  pub kind : ℕ
  pub config : ℕ
  pub config1 : ℕ
  pub sample_period : ℕ
  pub sample_type : ℕ
  pub disabled : Bool
  pub exclude_kernel : Bool
  pub exclude_hv : Bool
  pub exclude_callchain_kernel : Bool
  pub exclude_callchain_user : Bool
  pub precise_ip : ℕ
  pub read_format : ℕ

-- `PERF_FORMAT_GROUP`, `PERF_SAMPLE_IP | PERF_SAMPLE_ADDR`, `PERF_TYPE_RAW` and `PERF_RECORD_SAMPLE` of
-- <linux/perf_event.h>, and the `#define`s and the event of src/pebs.cpp.
abbrev pub format_group : ℕ
format_group = 8

abbrev pub sample_ip_addr : ℕ
sample_ip_addr = 1 + 8

abbrev pub type_raw : ℕ
type_raw = 4

abbrev pub record_sample : ℕ
record_sample = 9

abbrev pub period : ℕ
period = 99

abbrev pub local_dram : ℕ
local_dram = 0x20d1

-- The kernel's answers: the descriptor of `perf_event_open` for an event on a processor, -1 for all, and
-- whether `mmap` gives something else than a null pointer.
pub record Kernel : Type 0 where
  pub open_event : Attr → (pid cpu group_fd : ℤ) → ℤ
  pub map_ok : ℤ → Bool

-- `perf_event_open` returned -1.
unfoldable pub opened : ℤ → Option ℤ
opened (pos fd) = some (pos fd)
opened (negsuc zero) = none
opened (negsuc (suc k)) = some (negsuc (suc k))

unfoldable pub perf_count_setup : Kernel → (kind config config1 : ℕ) → (group_fd : ℤ) → Option ℤ
perf_count_setup os kind config config1 group_fd = opened (
    os.open_event
      (record {
        kind = kind;
        config = config;
        config1 = config1;
        sample_period = 0;
        sample_type = 0;
        disabled = false;
        exclude_kernel = true;
        exclude_hv = true;
        exclude_callchain_kernel = true;
        exclude_callchain_user = true;
        precise_ip = 0;
        read_format = format_group;
      })
      (pos 0) (negsuc 0) group_fd)

abbrev pub sample_attr : (kind config config1 : ℕ) → Attr
sample_attr kind config config1 = record {
  kind = kind;
  config = config;
  config1 = config1;
  sample_period = period;
  sample_type = sample_ip_addr;
  disabled = false;
  exclude_kernel = true;
  exclude_hv = false;
  exclude_callchain_kernel = true;
  exclude_callchain_user = true;
  precise_ip = 1;
  read_format = 0;
}

-- The descriptor; the mapping of its page is the array of pages below.
unfoldable pub perf_sample_setup :
    Kernel → (kind config config1 cpu : ℕ) → (group_fd : ℤ) → Option ℤ
perf_sample_setup os kind config config1 cpu group_fd = do
  fd ← opened (os.open_event (sample_attr kind config config1) (negsuc 0) (pos cpu) group_fd)
  _ ← check (os.map_ok fd)
  some fd

-- The loop from processor `i` on, `n` of them; there is one event for each.
unfoldable pub setup_loop : Kernel → ℕ → ℕ → Option (List ℤ)
setup_loop os i zero = some []
setup_loop os i (suc n) = do
  fd ← perf_sample_setup os type_raw local_dram 0 i (negsuc 0)
  fds ← setup_loop os (i + 1) n
  some (fd ∷ fds)

-- `cache_event_fd` at the end.
unfoldable pub cache_event_setup : Kernel → ℕ → Option (List ℤ)
cache_event_setup os threads = setup_loop os 0 threads

-- `struct perf_event_mmap_page`, with the ring of `data_size` bytes that follows at `data_offset`.
pub record Page : Type 0 where
  pub data_head : ℕ
  pub data_tail : ℕ
  pub data_size : ℕ
  pub words : List ℕ

-- The word at a byte offset of the ring.
unfoldable pub word_at : List ℕ → ℕ → Option ℕ
word_at words at = if ltb (at / 8) (length words) then some (get_or words (at / 8) 0) else none

-- `type` and `size` of `struct perf_event_header`, which fills one word.
abbrev pub type_of : ℕ → ℕ
type_of header = header % 2 ^ 32

abbrev pub size_of : ℕ → ℕ
size_of header = header / 2 ^ 48

-- The `switch`: the address of a sample stands 16 bytes behind the start of its record.
unfoldable pub take_sample : Page → ℕ → ℕ → List ℕ → Option (List ℕ)
take_sample p at header sampled =
    if type_of header == record_sample
    then (do addr ← word_at p.words (at + 16); some (sampled ++ addr ∷ []))
    else some sampled

-- The body of the loops: one record of one page.
unfoldable pub collect_one : Page → List ℕ → Option (Page × List ℕ)
collect_one p sampled = if p.data_head == p.data_tail then some (p, sampled) else (do
  let at = p.data_tail % p.data_size
  header ← word_at p.words at
  sampled' ← take_sample p at header sampled
  some (record p { data_tail = u64 (p.data_tail + size_of header) }, sampled'))

-- One round of the `while` loop: all pages, in their order.
unfoldable pub collect_pass : List Page → List ℕ → Option (List Page × List ℕ)
collect_pass [] sampled = some ([], sampled)
collect_pass (p ∷ pages) sampled = do
  (p', sampled') ← collect_one p sampled
  (pages', sampled'') ← collect_pass pages sampled'
  some (p' ∷ pages', sampled'')

-- The loop until `should_terminate` is seen, which is after `n` rounds. `kernel k` is what the kernel does
-- to the pages before round `k`.
unfoldable pub cache_collect_sample :
    (ℕ → List Page → List Page) → ℕ → ℕ → List Page → List ℕ → Option (List Page × List ℕ)
cache_collect_sample kernel k zero pages sampled = some (pages, sampled)
cache_collect_sample kernel k (suc n) pages sampled = do
  (pages', sampled') ← collect_pass (kernel k pages) sampled
  cache_collect_sample kernel (k + 1) n pages' sampled'

-- The answers of the calls that start and join the collecting thread: whether `pthread_attr_init`,
-- `pthread_attr_setaffinity_np` for a core, `pthread_create` and `pthread_join` succeed.
pub record Starting : Type 0 where
  pub init_ok : Bool
  pub affinity_ok : ℕ → Bool
  pub create_ok : Bool
  pub join_ok : Bool

-- The thread is `cache_collect_sample`; it shares no variable with the code that runs beside it.
unfoldable pub launch_cache_collect : Starting → (core : ℕ) → Option (Unit {0})
launch_cache_collect os core = do
  _ ← check os.init_ok
  _ ← check (os.affinity_ok core)
  check os.create_ok

unfoldable pub terminate_cache_collect : Starting → Option (Unit {0})
terminate_cache_collect os = check os.join_ok
