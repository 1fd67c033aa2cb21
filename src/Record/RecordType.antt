-- ===== src/Record/RecordType.antt =====
-- include/perf_event.h: the values of `enum perf_event_type`.
use Prim.Native.Nat.{ℕ}

abbrev pub mmap : ℕ
mmap = 1

abbrev pub lost : ℕ
lost = 2

abbrev pub comm : ℕ
comm = 3

abbrev pub exit : ℕ
exit = 4

abbrev pub throttle : ℕ
throttle = 5

abbrev pub unthrottle : ℕ
unthrottle = 6

abbrev pub fork : ℕ
fork = 7

abbrev pub read : ℕ
read = 8

abbrev pub sample : ℕ
sample = 9

abbrev pub mmap2 : ℕ
mmap2 = 10

abbrev pub aux : ℕ
aux = 11

abbrev pub itrace_start : ℕ
itrace_start = 12

abbrev pub lost_samples : ℕ
lost_samples = 13

abbrev pub switch : ℕ
switch = 14

abbrev pub switch_cpu_wide : ℕ
switch_cpu_wide = 15
