-- ===== src/Tests/PebsTests.antt =====
-- A ring of eight words and its collector, and the theorems of src/pebs.cpp at them.
use graph_benchmark.Base.{
  ℕ, ℤ, pos, negsuc, ◌*◌, ◌+◌, ◌^◌, ◌≡◌, refl, arith, true, none, some, List, [], ◌∷◌, ◌++◌, map,
  range_from,
}
use graph_benchmark.Pebs.{
  Page, Kernel, word_at, take_sample, collect_one, collect_pass, cache_collect_sample,
  cache_event_setup,
}
use graph_benchmark.Pebs.Draining.{
  Written, AllHold, addresses, pending_after, cache_collect_sample-addresses,
}
use graph_benchmark.Pebs.Setup.{cache_event_setup-none, cache_event_setup-opens}

-- The header of a sample of 24 bytes, and of a record of 16 bytes of another kind.
abbrev sample_header : ℕ
sample_header = 24 * 2 ^ 48 + 9

abbrev other_header : ℕ
other_header = 16 * 2 ^ 48 + 3

abbrev ring : Page
ring = record {
  data_head = 40;
  data_tail = 0;
  data_size = 64;
  words = sample_header ∷ 5 ∷ 700 ∷ other_header ∷ 6 ∷ 0 ∷ 0 ∷ 0 ∷ [];
}

abbrev written : List Written
written =
    record { header = sample_header; addr = 700 } ∷ record { header = other_header; addr = 0 } ∷ []

collects :
    cache_collect_sample (λ _ ps. ps) 0 3 (ring ∷ []) []
    ≡ some (record ring { data_tail = 40 } ∷ [], 700 ∷ [])
unfolding cache_collect_sample collect_pass collect_one take_sample word_at
collects = refl

cache_collect_sample-addresses_example :
    (pages' : List Page) × (cache_collect_sample (λ _ ps. ps) 0 3 (ring ∷ []) []
      ≡ some (pages', [] ++ addresses 3 (written ∷ [])))
    × AllHold pages' (pending_after 3 (written ∷ []))
cache_collect_sample-addresses_example =
    cache_collect_sample-addresses 3 0 (ring ∷ []) (written ∷ []) [] (omega arith)

-- A kernel that refuses all events.
abbrev refusing : Kernel
refusing = record { open_event = λ attr pid cpu group_fd. negsuc 0; map_ok = λ fd. true }

cache_event_setup-none_example : cache_event_setup refusing 4 ≡ none
cache_event_setup-none_example = cache_event_setup-none refusing 4 2 (omega arith) refl

-- A kernel that opens event 3 on processor 0, event 4 on processor 1, and so on.
abbrev pub descriptor : ℕ → ℕ
descriptor k = k + 3

abbrev open_for : ℤ → ℤ
open_for (pos k) = pos (descriptor k)
open_for (negsuc k) = negsuc 0

abbrev pub kernel : Kernel
kernel = record { open_event = λ attr pid cpu group_fd. open_for cpu; map_ok = λ fd. true }

cache_event_setup-opens_example :
    cache_event_setup kernel 2 ≡ some (map (λ k. pos (descriptor k)) (range_from 0 2))
cache_event_setup-opens_example =
    cache_event_setup-opens kernel descriptor 2 (λ k. refl) (λ k. refl)
