-- ===== src/Record/Forward/Sample.antt =====
-- The parts of a sample never move the offset back, but for the raw data, whose size is signed.
use perf_event_tests.Base.{
  ℕ, zero, suc, ◌+◌, String, Bool, true, false, List, [], ◌∷◌, Option, none, some,
}
use perf_event_tests.Record.Forward.{Forward, forward, Forward-bind}
use perf_event_tests.Record.ReadFormat
use perf_event_tests.Record.ReadFormat.{Validate}
use perf_event_tests.Record.Sample
use perf_event_tests.Record.Sample.{Settings}
use perf_event_tests.Record.Sample.DataSource
use perf_event_tests.Record.Sample.Stack

check_events-Forward : (v : Option Validate) (n : ℕ) → Forward (ReadFormat.check_events v n)
unfolding ReadFormat.check_events
check_events-Forward none n = search forward
check_events-Forward (some v) n = search forward

group_values-Forward : (q ids : Bool) (n : ℕ) → Forward (ReadFormat.group_values q ids n)
unfolding ReadFormat.group_values
group_values-Forward q ids zero = search forward
group_values-Forward q ids (suc n) =
    let ih = group_values-Forward q ids n in
    Forward-bind (search forward depth 9) λ _. search forward depth 12

pub read_format-Forward :
    (q : Bool) (r : ℕ) (v : Option Validate) → Forward (ReadFormat.handle_struct_read_format q r v)
unfolding ReadFormat.handle_struct_read_format
read_format-Forward q r v = search (forward, check_events-Forward, group_values-Forward) depth 20

print_reg-Forward : (q : Bool) (i : ℕ) → Forward (ReadFormat.print_reg q i)
unfolding ReadFormat.print_reg
print_reg-Forward true i = search forward
print_reg-Forward false i = search forward depth 9

reg_loop-Forward : (q : Bool) (m left i : ℕ) → Forward (ReadFormat.reg_loop q m left i)
unfolding ReadFormat.reg_loop
reg_loop-Forward q m zero i = search forward
reg_loop-Forward q m (suc left) i =
    let ih = reg_loop-Forward q m left (i + 1) in
    Forward-bind (search (forward, print_reg-Forward) depth 9) λ _. search forward

print_regs-Forward : (q : Bool) (m : ℕ) → Forward (ReadFormat.print_regs q m)
unfolding ReadFormat.print_regs
print_regs-Forward q m = search (forward, reg_loop-Forward) depth 9

check_pid-Forward : (v : Option Validate) (n : ℕ) → Forward (Sample.check_pid v n)
unfolding Sample.check_pid
check_pid-Forward none n = search forward
check_pid-Forward (some v) n = search forward

pub tid-Forward : (q : Bool) (v : Option Validate) → Forward (Sample.tid q v)
unfolding Sample.tid
tid-Forward q v = search (forward, check_pid-Forward) depth 12

pub cpu-Forward : (q : Bool) → Forward (Sample.cpu q)
unfolding Sample.cpu
cpu-Forward q = search forward depth 12

pub read_values-Forward :
    (q : Bool) (r : ℕ) (v : Option Validate) → Forward (Sample.read_values q r v)
unfolding Sample.read_values
read_values-Forward q r v = search (forward, read_format-Forward)

chain_loop-Forward : (q : Bool) (left i : ℕ) → Forward (Sample.chain_loop q left i)
unfolding Sample.chain_loop
chain_loop-Forward q zero i = search forward
chain_loop-Forward q (suc left) i =
    let ih = chain_loop-Forward q left (i + 1) in
    Forward-bind (search forward depth 9) λ _. search forward depth 9

pub callchain-Forward : (q : Bool) → Forward (Sample.callchain q)
unfolding Sample.callchain
callchain-Forward q = search (forward, chain_loop-Forward) depth 9

check_branch-Forward : (v : Option Validate) (n : ℕ) → Forward (Sample.check_branch v n)
unfolding Sample.check_branch
check_branch-Forward none n = search forward
check_branch-Forward (some v) n = search forward

branch_flags-Forward : (q : Bool) (n : ℕ) → Forward (Sample.branch_flags q n)
unfolding Sample.branch_flags
branch_flags-Forward true n = search forward
branch_flags-Forward false n = search forward depth 20

branch_loop-Forward :
    (q : Bool) (v : Option Validate) (left i : ℕ) → Forward (Sample.branch_loop q v left i)
unfolding Sample.branch_loop
branch_loop-Forward q v zero i = search forward
branch_loop-Forward q v (suc left) i =
    let ih = branch_loop-Forward q v left (i + 1) in
    Forward-bind (search forward)
      λ _. search (forward, check_branch-Forward, branch_flags-Forward) depth 20

pub branch_stack-Forward : (q : Bool) (v : Option Validate) → Forward (Sample.branch_stack q v)
unfolding Sample.branch_stack
branch_stack-Forward q v = search (forward, branch_loop-Forward) depth 9

pub regs_user-Forward : (q : Bool) (m : ℕ) → Forward (Sample.regs_user q m)
unfolding Sample.regs_user
regs_user-Forward q m = search (forward, print_regs-Forward) depth 20

pub regs_intr-Forward : (q : Bool) (m : ℕ) → Forward (Sample.regs_intr q m)
unfolding Sample.regs_intr
regs_intr-Forward q m = search (forward, print_regs-Forward) depth 20

stack_words-Forward : (s : List ℕ) (left i : ℕ) → Forward (Stack.stack_words s left i)
unfolding Stack.stack_words
stack_words-Forward s zero i = search forward
stack_words-Forward s (suc left) i =
    let ih = stack_words-Forward s left (i + 1) in
    Forward-bind (search forward depth 9) λ _. search forward depth 9

pub stack_user-Forward : (q : Bool) → Forward (Stack.stack_user q)
unfolding Stack.stack_user
stack_user-Forward q = search (forward, stack_words-Forward) depth 20

print_matches-Forward : (l : List (ℕ × String)) (n : ℕ) → Forward (DataSource.print_matches l n)
unfolding DataSource.print_matches
print_matches-Forward [] n = search forward
print_matches-Forward ((m, t) ∷ l) n =
    let ih = print_matches-Forward l n in
    Forward-bind (search forward depth 9) λ _. search forward depth 9

pub data_source-Forward : (q : Bool) (n : ℕ) → Forward (DataSource.data_source q n)
unfolding DataSource.data_source
data_source-Forward true n = search forward
data_source-Forward false n = search (forward, print_matches-Forward) depth 9
