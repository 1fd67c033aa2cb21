-- ===== src/Record/Tests.antt =====
-- lib/parse_record.c on small buffers: a ring whose only new record wraps round its end, and a
-- sample with an instruction pointer and a thread.
use perf_event_tests.Base.{
  ℕ, zero, suc, ◌+◌, ◌%◌, ◌<◌, ◌≡◌, ◌≢◌, subst, refl, true, false, Option, none, some, List, [],
  ◌∷◌, ◌++◌, arith, length, get_elem?,
}
use native.Mathlib.Decide.{dec_lt}
use perf_event_tests.Base.Bytes.{le_bytes}
use perf_event_tests.Record.Sample.{Settings}
use perf_event_tests.Record.SampleLayout.{SampleData, SampleFits}
use perf_event_tests.Record.SampleSpec.{loud, IsPlain}
use perf_event_tests.Record.Mmap
use perf_event_tests.Record.Mmap.{Parse, finished, out_of_fuel, parse_loop}
use perf_event_tests.Record.Event.{
  Event, itrace_start, sample, EventFits, all_bytes, all_lines, AllEventsFit,
}
use perf_event_tests.Record.Reads.{Reads}
use perf_event_tests.Record.Ring.{Mapping, parsed, copy_ring, perf_mmap_read}
use perf_event_tests.Record.Ring.Copy.{copy_ring_total, copy_ring-get_elem?}
use perf_event_tests.Record.Hushed.{errors}
use perf_event_tests.Record.Quiet.{with_quiet, parse_loop_quiet}
use perf_event_tests.Record.Endless.{raw_only, back_to_itself, parse_loop_stays}
use perf_event_tests.Record.Termination.{parse_loop-ends}
use perf_event_tests.Record.EventRoundTrip.{loop-Reads}
use perf_event_tests.Record.Ring.Whole.{Holds, perf_mmap_read-Holds}

abbrev ip_and_thread : Settings
ip_and_thread = record {
  sample_type = 3;
  read_format = 0;
  reg_mask = 0;
  raw_type = 0;
  validate = none;
  quiet = false;
}

abbrev start : Event
start = record { misc = 0; sample_id_all = false; body = itrace_start 7 9 }

abbrev ring : List ℕ
ring =
    7 ∷ 0 ∷ 0 ∷ 0 ∷ 9 ∷ 0 ∷ 0 ∷ 0 ∷ 1 ∷ 2 ∷ 3 ∷ 4 ∷ 5 ∷ 6 ∷ 7 ∷ 8 ∷ 12 ∷ 0 ∷ 0 ∷ 0 ∷ 0 ∷ 0 ∷ 16 ∷ 0
    ∷ []

abbrev wrapped : Mapping
wrapped = record {
  ring = ring;
  pages = 3;
  page_size = 8;
  data_head = 80;
  is_null = false;
  malloc_succeeds = true;
}

abbrev AgreeBelow : ℕ → (ℕ → Option ℕ) → (ℕ → Option ℕ) → Type 0
AgreeBelow zero f g = Unit
AgreeBelow (suc n) f g = AgreeBelow n f g × (f n ≡ g n)

agree : (n : ℕ) (f g : ℕ → Option ℕ) → AgreeBelow n f g → (k : ℕ) → k < n → f k ≡ g k
agree zero f g h k lt = absurd (omega arith)
agree (suc n) f g h k lt = elim (dec_lt k n) [
  | yes below ↦ agree n f g h.0 k below
  | no last ↦ subst (λ (i : ℕ). f i ≡ g i) (let e : n ≡ k = omega arith in e) h.1
]

start-fits : EventFits ip_and_thread start
unfolding le_bytes
start-fits = record {
  sample_id = refl;
  misc = omega arith;
  size = omega arith;
  body = (omega arith, (omega arith, tt));
}

wrapped-Holds : Holds ip_and_thread wrapped 64 (start ∷ [])
unfolding le_bytes
wrapped-Holds = record {
  mapped = refl;
  allocated = refl;
  whole = refl;
  not_empty = omega arith;
  small = omega arith;
  old = omega arith;
  head = refl;
  fits = omega arith;
  events = (start-fits, tt);
  written =
      agree 16 (λ k. get_elem? ring ((64 + k) % 24))
        (get_elem? (all_bytes ip_and_thread (start ∷ [])))
        (
          (
            (
              (
                (
                  (
                    (
                      (((((((((tt, refl), refl), refl), refl), refl), refl), refl), refl), refl),
                      refl,
                    ),
                    refl,
                  ),
                  refl,
                ),
                refl,
              ),
              refl,
            ),
            refl,
          ),
          refl,
        );
}

abbrev sampled : SampleData
sampled = record {
  ip = 4096;
  pid = 7;
  thread = 9;
  time = 0;
  addr = 0;
  id = 0;
  stream_id = 0;
  cpu = 0;
  reserved = 0;
  period = 0;
  values = record {
    enabled = 0;
    running = 0;
    counters = [];
    single = record { value = 0; id = 0 };
  };
  ips = [];
  raw = [];
  branches = [];
  weight = 0;
  source = 0;
  transaction = 0;
}

sampled-fits : SampleFits sampled
sampled-fits = record {
  ip = omega arith;
  pid = omega arith;
  thread = omega arith;
  time = omega arith;
  addr = omega arith;
  id = omega arith;
  stream_id = omega arith;
  cpu = omega arith;
  reserved = omega arith;
  period = omega arith;
  values = record {
    enabled = omega arith;
    running = omega arith;
    number = omega arith;
    counters = tt;
    single = (omega arith, omega arith);
  };
  ips = tt;
  ips_length = omega arith;
  raw = tt;
  raw_length = omega arith;
  branches = tt;
  branches_length = omega arith;
  weight = omega arith;
  source = omega arith;
  transaction = omega arith;
}

ip_and_thread-IsPlain : IsPlain ip_and_thread
ip_and_thread-IsPlain = record {
  known = omega arith;
  no_lost = refl;
  regs_user = refl;
  stack_user = refl;
  identifier = refl;
  regs_intr = refl;
}

perf_mmap_read-Holds_example :
    perf_mmap_read (loud ip_and_thread) wrapped 64
    ≡ parsed 80 1 (all_lines ip_and_thread (start ∷ []))
perf_mmap_read-Holds_example =
    perf_mmap_read-Holds ip_and_thread wrapped 64 (start ∷ []) wrapped-Holds

abbrev both : List Event
both = start ∷ record { misc = 2; sample_id_all = false; body = sample sampled } ∷ []

both-fit : AllEventsFit ip_and_thread both
unfolding le_bytes
both-fit = (
  start-fits,
  (
    record {
      sample_id = tt;
      misc = omega arith;
      size = omega arith;
      body = (sampled-fits, ip_and_thread-IsPlain);
    },
    tt,
  ),
)

loop-Reads_example :
    parse_loop (loud ip_and_thread) 40 3 (all_bytes ip_and_thread both ++ (0 ∷ [])) 0
    ≡ finished 2 (all_lines ip_and_thread both)
unfolding le_bytes
loop-Reads_example =
    loop-Reads ip_and_thread 40 both 3 0 (all_bytes ip_and_thread both ++ (0 ∷ [])) (0 ∷ [])
      both-fit refl refl (omega arith)

parse_loop-ends_example : parse_loop ip_and_thread 9 10 (1 ∷ 2 ∷ []) 0 ≢ out_of_fuel
parse_loop-ends_example = parse_loop-ends ip_and_thread refl 9 10 0 (1 ∷ 2 ∷ []) (omega arith)

copy_ring_total_example :
    (buf : List ℕ) × (copy_ring (1 ∷ 2 ∷ 3 ∷ []) 3 2 ≡ some buf) × (length buf ≡ 3)
copy_ring_total_example = copy_ring_total (1 ∷ 2 ∷ 3 ∷ []) 3 2 refl (omega arith)

copied : copy_ring (1 ∷ 2 ∷ 3 ∷ []) 3 (5 % 3) ≡ some (3 ∷ 1 ∷ 2 ∷ [])
unfolding copy_ring
copied = refl

copy_ring-get_elem?_example :
    get_elem? (let l : List ℕ = 3 ∷ 1 ∷ 2 ∷ [] in l) 1 ≡ get_elem? (1 ∷ 2 ∷ 3 ∷ []) ((5 + 1) % 3)
copy_ring-get_elem?_example =
    copy_ring-get_elem? (1 ∷ 2 ∷ 3 ∷ []) 3 5 1 (3 ∷ 1 ∷ 2 ∷ []) copied (omega arith)

parse_loop_quiet_example :
    parse_loop (with_quiet true ip_and_thread) 40 3 (all_bytes ip_and_thread both ++ (0 ∷ [])) 0
    ≡ finished 2 (errors (all_lines ip_and_thread both))
parse_loop_quiet_example =
    parse_loop_quiet ip_and_thread 40 3 0 (all_bytes ip_and_thread both ++ (0 ∷ [])) 2
      (all_lines ip_and_thread both) loop-Reads_example

abbrev negative_raw : List ℕ
negative_raw = 9 ∷ 0 ∷ 0 ∷ 0 ∷ 1 ∷ 0 ∷ 12 ∷ 0 ∷ 244 ∷ 255 ∷ 255 ∷ 255 ∷ []

starts_back : negative_raw ≡ back_to_itself 1 12 ++ []
unfolding le_bytes
starts_back = refl

parse_loop_stays_example : parse_loop (raw_only 0 0 none 0) 12 100 negative_raw 0 ≡ out_of_fuel
parse_loop_stays_example =
    parse_loop_stays 0 0 none 0 12 1 12 0 100 negative_raw [] (omega arith) (omega arith)
      (omega arith) starts_back
