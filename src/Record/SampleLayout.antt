-- ===== src/Record/SampleLayout.antt =====
-- The layout of PERF_RECORD_SAMPLE as include/perf_event.h gives it, and what the parser shows.
use perf_event_tests.Base.{
  ℕ, ◌+◌, ◌^◌, ◌<◌, ◌&&◌, Bool, not, Option, none, some, List, [], ◌∷◌, ◌++◌, ltb, ◌==◌,
  if◌then◌else◌, has_bit, length,
}
use perf_event_tests.Base.Bytes.{le_bytes}
use perf_event_tests.Record.Reader.{Line, printed, error}
use perf_event_tests.Record.ReadFormat.{Validate, widen}

abbrev pub Fits : ℕ → Type 0
Fits v = v < 256 ^ 8

-- A member that is there if its bit is set.
abbrev pub optional {ℓ} : {A : Type ℓ} → Bool → List A → List A
optional b xs = if b then xs else []

abbrev pub words : List ℕ → List ℕ
words [] = []
words (x ∷ xs) = le_bytes 8 x ++ words xs

abbrev pub AllFit : List ℕ → Type 0
AllFit [] = Unit
AllFit (x ∷ xs) = Fits x × AllFit xs

-- `struct read_format`: the counters with their ids, and the two times.
pub record Counter : Type 0 where
  pub value : ℕ
  pub id : ℕ

pub record ReadData : Type 0 where
  pub enabled : ℕ
  pub running : ℕ
  pub counters : List Counter
  pub single : Counter

abbrev pub times_bytes : ℕ → ReadData → List ℕ
times_bytes f r =
    optional (has_bit f 0) (le_bytes 8 r.enabled) ++ optional (has_bit f 1) (le_bytes 8 r.running)

abbrev pub times_lines : ℕ → ReadData → List Line
times_lines f r =
    optional (has_bit f 0) (printed "enabled: %lld " (r.enabled ∷ []) ∷ [])
    ++ optional (has_bit f 1) (printed "running: %lld " (r.running ∷ []) ∷ [])

abbrev pub counters_bytes : Bool → List Counter → List ℕ
counters_bytes ids [] = []
counters_bytes ids (c ∷ cs) =
    le_bytes 8 c.value ++ (optional ids (le_bytes 8 c.id) ++ counters_bytes ids cs)

abbrev pub counters_lines : Bool → List Counter → List Line
counters_lines ids [] = []
counters_lines ids (c ∷ cs) =
    printed "\t\t\tValue: %lld " (c.value ∷ [])
    ∷ (optional ids (printed "id: %lld " (c.id ∷ []) ∷ [])
        ++ (printed "\n" [] ∷ counters_lines ids cs))

abbrev pub events_lines : Option Validate → ℕ → List Line
events_lines none nr = []
events_lines (some v) nr =
    optional (not (widen v.events == nr))
      (error "Error!  Wrong number of events %d != %lld\n" (v.events ∷ nr ∷ []) ∷ [])

abbrev pub group_bytes : ℕ → ReadData → List ℕ
group_bytes f r =
    le_bytes 8 (length r.counters) ++ (times_bytes f r ++ counters_bytes (has_bit f 2) r.counters)

abbrev pub group_lines : ℕ → Option Validate → ReadData → List Line
group_lines f v r =
    printed "\t\tNumber: %lld " (length r.counters ∷ [])
    ∷ (events_lines v (length r.counters)
        ++ (times_lines f r ++ (printed "\n" [] ∷ counters_lines (has_bit f 2) r.counters)))

abbrev pub CountersFit : List Counter → Type 0
CountersFit [] = Unit
CountersFit (c ∷ cs) = Fits c.value × Fits c.id × CountersFit cs

pub record GroupFits (r : ReadData) : Type 0 where
  pub enabled : Fits r.enabled
  pub running : Fits r.running
  pub number : length r.counters < 2 ^ 63
  pub counters : CountersFit r.counters
  pub single : Fits r.single.value × Fits r.single.id

abbrev pub single_bytes : ℕ → ReadData → List ℕ
single_bytes f r =
    le_bytes 8 r.single.value
    ++ (times_bytes f r ++ optional (has_bit f 2) (le_bytes 8 r.single.id))

abbrev pub single_lines : ℕ → ReadData → List Line
single_lines f r =
    printed "\t\tValue: %lld " (r.single.value ∷ [])
    ∷ (times_lines f r
        ++ (optional (has_bit f 2) (printed "id: %lld " (r.single.id ∷ []) ∷ [])
            ++ (printed "\n" [] ∷ [])))

abbrev pub read_bytes : ℕ → ReadData → List ℕ
read_bytes f r = if has_bit f 3 then group_bytes f r else single_bytes f r

abbrev pub read_lines : ℕ → Option Validate → ReadData → List Line
read_lines f v r = if has_bit f 3 then group_lines f v r else single_lines f r

-- The callchain.
abbrev pub chain_lines : ℕ → List ℕ → List Line
chain_lines i [] = []
chain_lines i (ip ∷ ips) = printed "\t\t ip[%d]: %llx\n" (i ∷ ip ∷ []) ∷ chain_lines (i + 1) ips

-- Raw bytes that are no IBS data.
abbrev pub raw_lines : List ℕ → List Line
raw_lines [] = []
raw_lines (b ∷ bs) = printed "%d " (b ∷ []) ∷ raw_lines bs

abbrev pub pid_lines : Option Validate → ℕ → List Line
pid_lines none pid = []
pid_lines (some v) pid =
    optional (not (v.pid == pid)) (error "Error, pid %d != %d\n" (v.pid ∷ pid ∷ []) ∷ [])

-- The branch stack.
pub record Branch : Type 0 where
  pub from : ℕ
  pub to : ℕ
  pub flags : ℕ

abbrev pub branches_bytes : List Branch → List ℕ
branches_bytes [] = []
branches_bytes (b ∷ bs) =
    le_bytes 8 b.from ++ (le_bytes 8 b.to ++ (le_bytes 8 b.flags ++ branches_bytes bs))

-- A branch is shown as mispredicted or else as predicted, by its first two bits.
abbrev pub flags_lines : ℕ → List Line
flags_lines f =
    optional (f == 0) (printed "0" [] ∷ [])
    ++ (optional (has_bit f 0) (printed "MISPREDICTED " [] ∷ [])
        ++ (optional (not (has_bit f 0) && has_bit f 1) (printed "PREDICTED " [] ∷ [])
            ++ (optional (has_bit f 2) (printed "IN_TRANSACTION " [] ∷ [])
                ++ (optional (has_bit f 3) (printed "TRANSACTION_ABORT " [] ∷ [])
                    ++ (printed "\n" [] ∷ [])))))

abbrev pub low_lines : Option Validate → ℕ → List Line
low_lines none from = []
low_lines (some v) from =
    optional (ltb from v.branch_low) (error "Error! branch out of bounds!\n" [] ∷ [])

abbrev pub branches_lines : Option Validate → ℕ → List Branch → List Line
branches_lines v i [] = []
branches_lines v i (b ∷ bs) =
    low_lines v b.from
    ++ (printed "\t\t lbr[%d]: %llx %llx " (i ∷ b.from ∷ b.to ∷ [])
        ∷ (flags_lines b.flags ++ branches_lines v (i + 1) bs))

abbrev pub BranchesFit : List Branch → Type 0
BranchesFit [] = Unit
BranchesFit (b ∷ bs) = Fits b.from × Fits b.to × Fits b.flags × BranchesFit bs

-- A sample. What a bit of `sample_type` does not ask for is not there.
pub record SampleData : Type 0 where
  pub ip : ℕ
  pub pid : ℕ
  pub thread : ℕ
  pub time : ℕ
  pub addr : ℕ
  pub id : ℕ
  pub stream_id : ℕ
  pub cpu : ℕ
  pub reserved : ℕ
  pub period : ℕ
  pub values : ReadData
  pub ips : List ℕ
  pub raw : List ℕ
  pub branches : List Branch
  pub weight : ℕ
  pub source : ℕ
  pub transaction : ℕ

abbrev pub AreBytes : List ℕ → Type 0
AreBytes [] = Unit
AreBytes (b ∷ bs) = (b < 256) × AreBytes bs

pub record SampleFits (d : SampleData) : Type 0 where
  pub ip : Fits d.ip
  pub pid : d.pid < 256 ^ 4
  pub thread : d.thread < 256 ^ 4
  pub time : Fits d.time
  pub addr : Fits d.addr
  pub id : Fits d.id
  pub stream_id : Fits d.stream_id
  pub cpu : d.cpu < 256 ^ 4
  pub reserved : d.reserved < 256 ^ 4
  pub period : Fits d.period
  pub values : GroupFits d.values
  pub ips : AllFit d.ips
  pub ips_length : length d.ips < 2 ^ 63
  pub raw : AreBytes d.raw
  pub raw_length : length d.raw < 2 ^ 31
  pub branches : BranchesFit d.branches
  pub branches_length : length d.branches < 2 ^ 63
  pub weight : Fits d.weight
  pub source : Fits d.source
  pub transaction : Fits d.transaction
