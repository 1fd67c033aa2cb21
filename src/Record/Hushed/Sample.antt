-- ===== src/Record/Hushed/Sample.antt =====
-- The members of a sample, quiet and printed. What only prints is left out by a quiet parser.
use perf_event_tests.Base.{
  ℕ, zero, suc, ◌+◌, String, Bool, true, false, List, [], ◌∷◌, Option, none, some,
}
use perf_event_tests.Record.Hushed.{
  Hushed, hushed, Hushed-bind, Hushed-Prints, Prints, Prints-bind, Prints-pure, prints,
}
use perf_event_tests.Record.ReadFormat
use perf_event_tests.Record.ReadFormat.{Validate}
use perf_event_tests.Record.Ibs
use perf_event_tests.Record.Sample
use perf_event_tests.Record.Sample.{Settings}
use perf_event_tests.Record.Sample.DataSource
use perf_event_tests.Record.Sample.Stack

check_events-Hushed :
    (v : Option Validate) (n : ℕ)
    → Hushed (ReadFormat.check_events v n) (ReadFormat.check_events v n)
unfolding ReadFormat.check_events
check_events-Hushed none n = search hushed
check_events-Hushed (some v) n = search hushed

group_values-Hushed :
    (ids : Bool) (n : ℕ)
    → Hushed (ReadFormat.group_values true ids n) (ReadFormat.group_values false ids n)
unfolding ReadFormat.group_values
group_values-Hushed ids zero = search hushed
group_values-Hushed ids (suc n) =
    let ih = group_values-Hushed ids n in
    Hushed-bind _ _ (search hushed depth 9) λ _. search hushed depth 12

pub read_format-Hushed :
    (r : ℕ) (v : Option Validate)
    → Hushed
        (ReadFormat.handle_struct_read_format true r v)
        (ReadFormat.handle_struct_read_format false r v)
unfolding ReadFormat.handle_struct_read_format
read_format-Hushed r v = search (hushed, check_events-Hushed, group_values-Hushed) depth 20

print_reg-Hushed : (i : ℕ) → Hushed (ReadFormat.print_reg true i) (ReadFormat.print_reg false i)
unfolding ReadFormat.print_reg
print_reg-Hushed i = Hushed-Prints (search prints depth 12)

reg_loop-Hushed :
    (m left i : ℕ) → Hushed (ReadFormat.reg_loop true m left i) (ReadFormat.reg_loop false m left i)
unfolding ReadFormat.reg_loop
reg_loop-Hushed m zero i = search hushed
reg_loop-Hushed m (suc left) i =
    let ih = reg_loop-Hushed m left (i + 1) in
    Hushed-bind _ _ (search (hushed, print_reg-Hushed) depth 9) λ _. search hushed

print_regs-Hushed : (m : ℕ) → Hushed (ReadFormat.print_regs true m) (ReadFormat.print_regs false m)
unfolding ReadFormat.print_regs
print_regs-Hushed m = search (hushed, reg_loop-Hushed) depth 9

check_pid-Hushed :
    (v : Option Validate) (n : ℕ) → Hushed (Sample.check_pid v n) (Sample.check_pid v n)
unfolding Sample.check_pid
check_pid-Hushed none n = search hushed
check_pid-Hushed (some v) n = search hushed

pub tid-Hushed : (v : Option Validate) → Hushed (Sample.tid true v) (Sample.tid false v)
unfolding Sample.tid
tid-Hushed v = search (hushed, check_pid-Hushed) depth 12

pub cpu-Hushed : Hushed (Sample.cpu true) (Sample.cpu false)
unfolding Sample.cpu
cpu-Hushed = search hushed depth 12

pub read_values-Hushed :
    (r : ℕ) (v : Option Validate)
    → Hushed (Sample.read_values true r v) (Sample.read_values false r v)
unfolding Sample.read_values
read_values-Hushed r v = search (hushed, read_format-Hushed) depth 9

chain_loop-Hushed :
    (left i : ℕ) → Hushed (Sample.chain_loop true left i) (Sample.chain_loop false left i)
unfolding Sample.chain_loop
chain_loop-Hushed zero i = search hushed
chain_loop-Hushed (suc left) i =
    let ih = chain_loop-Hushed left (i + 1) in
    Hushed-bind _ _ (search hushed) λ ip. Hushed-bind _ _ (search hushed) λ _. ih

pub callchain-Hushed : Hushed (Sample.callchain true) (Sample.callchain false)
unfolding Sample.callchain
callchain-Hushed = search (hushed, chain_loop-Hushed) depth 9

raw_bytes-Prints : (left i : ℕ) → Prints (Sample.raw_bytes left i)
unfolding Sample.raw_bytes
raw_bytes-Prints zero i = Prints-pure _
raw_bytes-Prints (suc left) i =
    let ih = raw_bytes-Prints left (i + 1) in
    Prints-bind _ (search prints) λ b. Prints-bind _ (search prints) λ _. ih

fetch-Prints : (n : ℕ) → Prints (Ibs.dump_raw_ibs_fetch n)
unfolding Ibs.dump_raw_ibs_fetch Ibs.fetch_control
fetch-Prints n = search prints depth 60

op_control-Prints : (n : ℕ) → Prints (Ibs.op_control n)
unfolding Ibs.op_control
op_control-Prints n = search prints depth 40

op_data-Prints : (n : ℕ) → Prints (Ibs.op_data n)
unfolding Ibs.op_data
op_data-Prints n = search prints depth 40

op_data2-Prints : (n : ℕ) → Prints (Ibs.op_data2 n)
unfolding Ibs.op_data2
op_data2-Prints n = search prints depth 40

op_data3-Prints : (n : ℕ) → Prints (Ibs.op_data3 n)
unfolding Ibs.op_data3
op_data3-Prints n = search prints depth 80

op-Prints : (n : ℕ) → Prints (Ibs.dump_raw_ibs_op n)
unfolding Ibs.dump_raw_ibs_op
op-Prints n =
    search (prints, op_control-Prints, op_data-Prints, op_data2-Prints, op_data3-Prints) depth 40

dump_raw-Prints : (t n : ℕ) → Prints (Sample.dump_raw t n)
unfolding Sample.dump_raw Sample.raw_plain
dump_raw-Prints t n = search (prints, fetch-Prints, op-Prints, raw_bytes-Prints) depth 20

pub raw-Hushed : (t : ℕ) → Hushed (Sample.raw true t) (Sample.raw false t)
unfolding Sample.raw
raw-Hushed t =
    Hushed-bind _ _ (search hushed)
      λ n. Hushed-bind _ _ (Hushed-Prints (dump_raw-Prints t n)) λ _. search hushed

check_branch-Hushed :
    (v : Option Validate) (n : ℕ) → Hushed (Sample.check_branch v n) (Sample.check_branch v n)
unfolding Sample.check_branch
check_branch-Hushed none n = search hushed
check_branch-Hushed (some v) n = search hushed

branch_flags-Hushed : (n : ℕ) → Hushed (Sample.branch_flags true n) (Sample.branch_flags false n)
unfolding Sample.branch_flags
branch_flags-Hushed n = Hushed-Prints (search prints depth 30)

branch_loop-Hushed :
    (v : Option Validate) (left i : ℕ)
    → Hushed (Sample.branch_loop true v left i) (Sample.branch_loop false v left i)
unfolding Sample.branch_loop
branch_loop-Hushed v zero i = search hushed
branch_loop-Hushed v (suc left) i =
    let ih = branch_loop-Hushed v left (i + 1) in
    Hushed-bind _ _ (search hushed) λ from. Hushed-bind _ _ (check_branch-Hushed v from) λ _.
      Hushed-bind _ _ (search hushed) λ to. Hushed-bind _ _ (search hushed) λ _.
        Hushed-bind _ _ (search hushed) λ flags. Hushed-bind _ _ (branch_flags-Hushed flags) λ _. ih

pub branch_stack-Hushed :
    (v : Option Validate) → Hushed (Sample.branch_stack true v) (Sample.branch_stack false v)
unfolding Sample.branch_stack
branch_stack-Hushed v = search (hushed, branch_loop-Hushed) depth 9

print_abi-Hushed :
    (fmt : String) (n : ℕ) → Hushed (Sample.print_abi true fmt n) (Sample.print_abi false fmt n)
unfolding Sample.print_abi
print_abi-Hushed fmt n = search hushed depth 20

pub regs_user-Hushed : (m : ℕ) → Hushed (Sample.regs_user true m) (Sample.regs_user false m)
unfolding Sample.regs_user
regs_user-Hushed m = search (hushed, print_abi-Hushed, print_regs-Hushed) depth 12

pub regs_intr-Hushed : (m : ℕ) → Hushed (Sample.regs_intr true m) (Sample.regs_intr false m)
unfolding Sample.regs_intr
regs_intr-Hushed m = search (hushed, print_abi-Hushed, print_regs-Hushed) depth 12

matches-Prints : (l : List (ℕ × String)) (n : ℕ) → Prints (DataSource.print_matches l n)
unfolding DataSource.print_matches
matches-Prints [] n = search prints
matches-Prints ((mask, word) ∷ l) n =
    let ih = matches-Prints l n in Prints-bind _ (search prints depth 6) λ _. ih

pub data_source-Hushed :
    (n : ℕ) → Hushed (DataSource.data_source true n) (DataSource.data_source false n)
unfolding DataSource.data_source
data_source-Hushed n = Hushed-Prints (search (prints, matches-Prints) depth 9)

stack_words-Prints : (stack : List ℕ) (left i : ℕ) → Prints (Stack.stack_words stack left i)
unfolding Stack.stack_words
stack_words-Prints stack zero i = search prints
stack_words-Prints stack (suc left) i =
    let ih = stack_words-Prints stack left (i + 1) in
    Prints-bind _ (search prints) λ w. Prints-bind _ (search prints) λ _. ih

stack_loop-Hushed :
    (stack : List ℕ) (n : ℕ)
    → Hushed (Stack.stack_loop true stack n) (Stack.stack_loop false stack n)
unfolding Stack.stack_loop
stack_loop-Hushed stack n = search (Hushed-Prints, stack_words-Prints, hushed)

pub stack_user-Hushed : Hushed (Stack.stack_user true) (Stack.stack_user false)
unfolding Stack.stack_user
stack_user-Hushed = search (hushed, stack_loop-Hushed) depth 20
