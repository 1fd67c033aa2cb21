-- ===== src/Fuzzer/Open.antt =====
-- fuzzer/fuzz_open.c, `open_random_event`.
use perf_event_tests.Base.{
  ℕ, zero, suc, ◌+◌, ◌-◌, ◌*◌, ◌%◌, ◌^◌, Bool, true, not, ◌&&◌, ◌||◌, [], ◌∷◌, leb, ltb, ◌==◌,
  if◌then◌else◌, has_bit,
}
use perf_event_tests.Fuzzer.State.{
  Event, World, Config, Sanitised, Fuzz, Done, logged, printed, pretty, OpenCount, type_success,
  trinity_type_success, errno_count, type_fail, trinity_type_fail, pure, ◌>>=◌, when, change,
  event_at, change_event, call, random, count_stat, put, plus_one, if_found,
}
use perf_event_tests.Fuzzer.Find.{find_empty_event, find_random_active_event, lookup_event}
use perf_event_tests.Fuzzer.Setup.{to_int, setup_mmap}

abbrev one_if_bit : (x k : ℕ) → ℕ
one_if_bit x k = if has_bit x k then 1 else 0

-- The size of a read in bytes, on the pattern of an `int`.
abbrev pub update_read_size : Event → ℕ
update_read_size e =
    let times = one_if_bit e.read_format 0 + one_if_bit e.read_format 1 in
    let ids = one_if_bit e.read_format 2 + one_if_bit e.read_format 4 in
    if has_bit e.read_format 3
    then (1 + times + (1 + ids * e.number_in_group)) * 8 % 2 ^ 32
    else (1 + times + ids) * 8 % 2 ^ 32

-- EPERM ENOENT E2BIG EBADF EINVAL EOPNOTSUPP ENODEV ENOSPC EMFILE EACCES EBUSY EAGAIN EOVERFLOW EFAULT.
abbrev pub known_errno : ℕ → Bool
known_errno e =
    (e == 1)
    || ((e == 2)
        || ((e == 7)
            || ((e == 9)
                || ((e == 22)
                    || ((e == 95)
                        || ((e == 19)
                            || ((e == 28)
                                || ((e == 24)
                                    || ((e == 13)
                                        || ((e == 16)
                                            || ((e == 11) || ((e == 75) || (e == 14)))))))))))))

-- The attributes and arguments that trinity made up.
unfoldable pub take_over : (i : ℕ) → Sanitised → (cpu : ℕ) → Fuzz Done
take_over i a cpu = change_event i (λ e. record e {
  type = a.type;
  config = a.config;
  sample_period = a.sample_period;
  read_format = a.read_format;
  pid = a.pid;
  cpu = cpu;
  group_fd = a.group_fd;
  flags = a.flags;
})

-- A member of a group, one time in four.
unfoldable pub join_group : World → (i : ℕ) → Fuzz Done
join_group w i = do
  r ← random w 4
  when (r == 2) (do
    j ← find_random_active_event w
    leader ← event_at (to_int j)
    change_event i (λ e. record e { group_fd = leader.fd }))

-- PERF_TYPE_TRACEPOINT is 2.
unfoldable pub try_kprobe : World → (i : ℕ) → Fuzz Done
try_kprobe w i = do
  e ← event_at i
  when (e.type == 2)
      (do r ← random w 10; when (r == 5) (change_event i (λ x. record x { config = w.kprobe_id })))

-- MAX_OPEN_TYPE is 20.
abbrev pub which_type : ℕ → ℕ
which_type type = if leb 20 type then 19 else type

abbrev count_open : OpenCount → Fuzz Done
count_open k = count_stat (λ x. record x { open_counts = k ∷ x.open_counts })

unfoldable pub print_failure : (i : ℕ) → Fuzz Done
print_failure i = do
  e ← event_at i
  _ ← put (printed "# O -1 %d %d %d %lx " (e.pid ∷ (e.cpu ∷ (e.group_fd ∷ (e.flags ∷ [])))))
  put (pretty "perf_log_attr" (i ∷ []))

-- How the loop is left: with a file descriptor, by `return`, or by `exit`.
pub data Attempt : Type 0 where
  opened : (fd : ℕ) → Attempt
  gave_up exited again : Attempt

-- What follows a call that failed. MAX_ERRNOS is 1023, and EMFILE is 24.
unfoldable pub count_failure : World → (i type trinity_type : ℕ) → Fuzz Attempt
unfolding print_failure
count_failure w i type trinity_type = do
  errno ← call w.errno
  _ ← when (ltb errno 1023) (do
    _ ← count_open (errno_count errno)
    _ ← count_open (type_fail type)
    count_open (trinity_type_fail trinity_type))
  if not (known_errno errno)
      then (do
        _ ← put (printed "UNKNOWN ERROR %d\n" (errno ∷ []))
        _ ← print_failure i
        pure exited)
      else pure (if errno == 24 then gave_up else again)

-- The system call and its result, a pattern of an `int`.
unfoldable pub try_open : World → (i : ℕ) → Sanitised → Fuzz Attempt
unfolding count_failure
try_open w i a = do
  e ← event_at i
  fd ← call (λ t. w.perf_event_open t a e.config e.pid e.cpu e.group_fd e.flags)
  _ ← count_stat (λ x. record x { open_attempts = suc x.open_attempts })
  _ ← count_stat (λ x. record x { total_syscalls = suc x.total_syscalls })
  let type = which_type e.type
  if ltb 2 fd && ltb fd (2 ^ 31)
      then (do
        _ ← count_open (type_success type)
        _ ← count_open (trinity_type_success a.trinity_type)
        pure (opened fd))
      else if leb fd 2
      then (do
        _ ← put (printed "PERF_EVENT_BAD_RETURN fd=%d\n" (fd ∷ []))
        _ ← print_failure i
        pure exited)
      else count_failure w i type a.trinity_type

-- One round of the loop.
unfoldable pub attempt : World → Config → (i : ℕ) → Fuzz Attempt
unfolding take_over join_group try_kprobe try_open
attempt w c i = do
  a ← call w.sanitise
  cpu ← call w.get_cpu
  _ ← take_over i a cpu
  _ ← join_group w i
  _ ← try_kprobe w i
  if c.ignore_open then pure gave_up else try_open w i a

-- `again` is what is left when the fuel has run out.
unfoldable pub open_loop : (fuel : ℕ) → World → Config → (i : ℕ) → Fuzz Attempt
unfolding attempt
open_loop zero w c i = pure again
open_loop (suc fuel) w c i = do
  r ← attempt w c i
  elim r [
    | again ↦ open_loop fuel w c i
    | opened fd ↦ pure (opened fd)
    | gave_up ↦ pure gave_up
    | exited ↦ pure exited
  ]

-- `current_open++` on the pattern of a `long long`.
abbrev pub one_more : ℕ → ℕ
one_more n = (n + 1) % 2 ^ 64

-- The event is open: it is logged, marked and counted.
unfoldable pub log_open : Config → (i fd : ℕ) → Fuzz Done
log_open c i fd = do
  e ← event_at i
  when c.log_open (do
    _ ← put (logged "O %d %d %d %d %lx " (fd ∷ (e.pid ∷ (e.cpu ∷ (e.group_fd ∷ (e.flags ∷ []))))))
    put (pretty "perf_log_attr" (i ∷ [])))

-- The leader of the group has one member more.
unfoldable pub update_group : (i : ℕ) → Fuzz Done
update_group i = do
  e ← event_at i
  when (not (e.group_fd == 2 ^ 32 - 1)) (do
    found ← lookup_event e.group_fd
    let j = to_int found
    _ ← change_event j (λ x. record x { number_in_group = plus_one x.number_in_group })
    change_event j (λ x. record x { read_size = update_read_size x }))

unfoldable pub control : World → (fd : ℕ) → Fuzz Done
control w fd = do
  success ← call (λ t. w.fcntl t fd)
  when (not success) (put (printed "F1 error!\n" []))

-- A signal on each overflow, one time in two. `sigaction` is not seen to fail.
unfoldable pub setup_overflow : World → Config → (i : ℕ) → Fuzz Done
unfolding control
setup_overflow w c i = do
  r ← random w 2
  when (not (r == 0) && not c.ignore_overflow) (do
    e ← event_at i
    _ ← when c.log_overflow (put (logged "o %d\n" (e.fd ∷ [])))
    _ ← control w e.fd
    _ ← control w e.fd
    control w e.fd)

unfoldable pub activate_event : (i fd : ℕ) → Fuzz Done
activate_event i fd = do
  _ ← change_event i (λ e. record e { fd = fd })
  _ ← change_event i (λ e. record e { active = true })
  change (λ s. record s { active_events = plus_one s.active_events })

-- What follows the loop.
unfoldable pub after_open :
    World → Config → (mmap_enabled overflow_enabled : Bool) → (i fd : ℕ) → Fuzz Done
unfolding log_open update_group setup_overflow activate_event
after_open w c mmap_enabled overflow_enabled i fd = do
  _ ← count_stat (λ x. record x { open_successful = suc x.open_successful })
  _ ← count_stat (λ x. record x { current_open = one_more x.current_open })
  _ ← log_open c i fd
  _ ← activate_event i fd
  _ ← update_group i
  _ ← when mmap_enabled (do _ ← setup_mmap w c i; pure tt)
  _ ← when overflow_enabled (setup_overflow w c i)
  _ ← change_event i (λ x. record x { number_in_group = 1 })
  change_event i (λ x. record x { read_size = update_read_size x })

-- How the whole ends. `running` is a loop that has used up its fuel.
pub data Ended : Type 0 where
  returned stopped running : Ended

unfoldable pub open_random_event :
    (fuel : ℕ) → World → Config → (mmap_enabled overflow_enabled : Bool) → Fuzz Ended
unfolding open_loop after_open
open_random_event fuel w c mmap_enabled overflow_enabled = do
  found ← find_empty_event
  if_found found (pure returned) λ i. do
    _ ← change_event i (λ e. record e { overflows = 0 })
    _ ← change_event i (λ e. record e { throttles = 0 })
    r ← open_loop fuel w c i
    elim r [
      | opened fd ↦ (do _ ← after_open w c mmap_enabled overflow_enabled i fd; pure returned)
      | gave_up ↦ pure returned
      | exited ↦ pure stopped
      | again ↦ pure running
    ]
