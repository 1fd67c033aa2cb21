-- ===== src/Replay/Handlers.antt =====
-- fuzzer/replay_log.c: the handler of each kind of line. An index outside of its table, and a number that
-- is used and was not read, are `none`.
use perf_event_tests.Base.{
  ℕ, Bool, false, not, ◌&&◌, ◌||◌, ◌^◌, ◌-◌, ◌%◌, Option, none, some, List, [], ◌∷◌, leb, ltb, ◌==◌,
  if◌then◌else◌, get_elem?, set,
}
use perf_event_tests.Report.Sscanf.{decimal, hex, sscanf}
use perf_event_tests.Report.Scan.{Attr, Opened, parse_open_event}
use perf_event_tests.Replay.State.{
  Argument, number, pointer_to, written_back, opened, closed, mapped, unmapped, controlled,
  read_from, signals_on, wrote, forked, killed, enabled_all, disabled_all, printed, error, State,
  World, fd_remap_size, map_failed, minus_one, say, fail, set_event, made, ◌>>=◌,
}

unfoldable pub mmap_event : World → List ℕ → State → Option State
mmap_event w line s = do
  let v = sscanf (decimal 32 ∷ (decimal 32 ∷ (hex 64 ∷ []))) line
  fd ← get_elem? v 1
  e ← get_elem? s.event fd
  if e.fd_remap == minus_one
      then some
          (say (error "Line %lld Skipping mmap as fd %d not valid\n" (s.line_num ∷ (fd ∷ []))) s)
      else (do
        size ← get_elem? v 0
        let address = w.mmap s.calls size e.fd_remap
        let after = made (mapped e.fd_remap size address) s
        if address == map_failed
            then some (
                fail
                  (error "Line %lld: Error with mmap of size %d of %d/%d\n"
                    (s.line_num ∷ (size ∷ (fd ∷ (e.fd_remap ∷ [])))))
                  (set_event fd (record e { mmap_remap = map_failed; size = 0 }) after))
            else some (
                say (error "VMW MAP fd=%d addr=%p size=%d\n" (fd ∷ (address ∷ (size ∷ []))))
                  (set_event fd (record e { mmap_remap = address; size = size }) after)))

unfoldable pub trash_mmap_event : List ℕ → State → Option State
trash_mmap_event line s = do
  let v = sscanf (decimal 32 ∷ (decimal 32 ∷ (decimal 32 ∷ []))) line
  fd ← get_elem? v 2
  value ← get_elem? v 0
  size ← get_elem? v 1
  e ← get_elem? s.event fd
  if (e.fd_remap == minus_one) || ((e.mmap_remap == map_failed) || (e.mmap_remap == 0))
      then some (
          say (error "Line %lld Skipping trash mmap as fd %d not valid\n" (s.line_num ∷ (fd ∷ [])))
            s)
      else some (made (wrote e.mmap_remap (value % 256) size) s)

-- The mapping is marked as unmapped before its size is compared.
unfoldable pub munmap_event : World → List ℕ → State → Option State
munmap_event w line s = do
  let v = sscanf (decimal 32 ∷ (decimal 32 ∷ [])) line
  fd ← get_elem? v 0
  e ← get_elem? s.event fd
  if e.fd_remap == minus_one
      then some (
          if e.mmap_remap == map_failed
          then say
              (error "Line: %lld Skipping munmap as fd %d fd and mmap not valid\n"
                (s.line_num ∷ (fd ∷ [])))
              s
          else s)
      else (do
        size ← get_elem? v 1
        let marked = set_event fd (record e { mmap_remap = map_failed }) s
        let after = made (unmapped e.mmap_remap size) marked
        some (
            if not (e.size == size)
            then say
                (error "Line %lld size didn't match (%d!=%d)\n"
                  (s.line_num ∷ (size ∷ (e.size ∷ []))))
                marked
            else if e.mmap_remap == map_failed
            then say (error "Line: %lld Skipping munmap as data is invalid\n" (s.line_num ∷ []))
                marked
            else if not (w.munmap s.calls e.mmap_remap size)
            then fail
                (error "Line: %lld Error with munmap of %p size %d of %d\n"
                  (s.line_num ∷ (e.mmap_remap ∷ (size ∷ (fd ∷ [])))))
                after
            else say (error "VMW UNMAP %d %p %d\n" (fd ∷ (e.mmap_remap ∷ (size ∷ [])))) after))

-- The leader of a group is looked up in the table.
abbrev pub remapped_group : ℕ → State → Option ℕ
remapped_group group_fd s =
    if group_fd == minus_one
    then some minus_one
    else (do leader ← get_elem? s.event group_fd; some leader.fd_remap)

-- The open has failed. The line and the printed attributes are left out.
abbrev pub refused : World → Attr → State → State
refused w pe s =
    let told = fail (error "Line %lld Error opening %s : %s\n" (s.line_num ∷ [])) s in
    if w.is_too_big s.calls
    then say
        (printed "Too big!  Kernel returns %d we were %d\n"
          (w.kernel_size s.calls ∷ (pe.size ∷ [])))
        told
    else told

-- The two counts of the new fd are cleared.
abbrev pub cleared : (fd : ℕ) → State → Option State
cleared fd s =
    if ltb fd_remap_size fd then some (fail (error "overflow fd out of range\n" []) s) else (do
      m ← get_elem? s.fd_overflows fd
      n ← get_elem? s.fd_throttles fd
      some (record s {
        fd_overflows = set s.fd_overflows fd 0;
        fd_throttles = set s.fd_throttles fd 0;
      }))

-- An `int` that is above FD_REMAP_SIZE: a negative one is not.
abbrev pub out_of_range : ℕ → Bool
out_of_range fd = if leb (2 ^ 31) fd then false else ltb fd_remap_size fd

abbrev pub remap : (orig_fd fd : ℕ) → State → Option State
remap orig_fd fd s =
    if out_of_range orig_fd then some (fail (error "fd out of range\n" []) s) else (do
      e ← get_elem? s.event orig_fd
      cleared fd (
          set_event orig_fd (record e { fd_remap = fd; mmap_remap = map_failed })
            (say (error "VMW OPEN %d (remapped %d)\n" (orig_fd ∷ (fd ∷ []))) s)))

-- The event is opened with the attributes and arguments of the line.
unfoldable pub open_parsed : World → Opened → State → Option State
open_parsed w o s = do
  group ← remapped_group o.group_fd s
  let pid = if o.pid == s.original_pid then w.getpid else o.pid
  let fd = w.perf_event_open s.calls o.attr pid o.cpu group o.flags
  let after = made (opened o.attr pid o.cpu group o.flags fd) s
  if leb (2 ^ 31) fd then some (refused w o.attr after) else remap o.orig_fd fd after

unfoldable pub open_event : World → List ℕ → State → Option State
unfolding open_parsed
open_event w line s = do o ← parse_open_event line; open_parsed w o s

-- The entry is given up also where `close` fails.
unfoldable pub close_fd : World → (fd : ℕ) → State → Option State
close_fd w fd s = do
  e ← get_elem? s.event fd
  if e.fd_remap == minus_one
      then some
          (say (error "Line %lld Skipping close as fd %d not valid\n" (s.line_num ∷ (fd ∷ []))) s)
      else (do
        let tried = made (closed e.fd_remap) s
        let told =
            if w.close s.calls e.fd_remap
            then tried
            else say
                (error "Line %lld Error closing %d/%d\n" (s.line_num ∷ (fd ∷ (e.fd_remap ∷ []))))
                tried
        some (
            set_event fd (record e { fd_remap = minus_one })
              (say (error "VMW CLOSE %d (%d)\n" (fd ∷ (e.fd_remap ∷ []))) told)))

abbrev pub close_read : World → Option ℕ → State → Option State
close_read w none s = some (say (error "Line %lld invalid Close\n" (s.line_num ∷ [])) s)
close_read w (some fd) s = close_fd w fd s

unfoldable pub close_event : World → List ℕ → State → Option State
unfolding close_fd
close_event w line s = close_read w (get_elem? (sscanf (decimal 32 ∷ []) line) 0) s

-- PERF_EVENT_IOC_SET_OUTPUT is 0x2405, PERF_EVENT_IOC_ID 0x80082407 and PERF_EVENT_IOC_PERIOD 0x40082404.
abbrev ioctl_argument : (arg : ℕ) → (arg2 : Option ℕ) → State → Option Argument
ioctl_argument arg arg2 s = if arg == 0x80082407 then some written_back else (do
  n ← arg2
  if (arg == 0x2405) && not (n == 2 ^ 64 - 1)
      then (do other ← get_elem? s.event n; some (number other.fd_remap))
      else if arg == 0x40082404
      then some (pointer_to n)
      else some (number n))

unfoldable pub ioctl_event : World → List ℕ → State → Option State
ioctl_event w line s = do
  let v = sscanf (decimal 32 ∷ (decimal 32 ∷ (decimal 64 ∷ []))) line
  fd ← get_elem? v 0
  arg ← get_elem? v 1
  e ← get_elem? s.event fd
  given ← ioctl_argument arg (get_elem? v 2) s
  let after = made (controlled e.fd_remap arg given) s
  if w.ioctl s.calls e.fd_remap arg given then some after else (do
    arg2 ← get_elem? v 2
    some (
        fail
          (error "Line %lld Error with ioctl %d %lld on %d/%d : %s\n"
            (s.line_num ∷ (arg ∷ (arg2 ∷ (fd ∷ (e.fd_remap ∷ []))))))
          after))

-- MAX_READ_SIZE is 65536 words. A negative size is compared as a number without a sign.
unfoldable pub read_event : World → List ℕ → State → Option State
read_event w line s = do
  let v = sscanf (decimal 32 ∷ (decimal 32 ∷ [])) line
  size ← get_elem? v 1
  if ltb 524288 size
      then some (
          fail
            (error "Line %lld Read size of %d exceeds max of %zd\n"
              (s.line_num ∷ (size ∷ (524288 ∷ []))))
            s)
      else (do
        fd ← get_elem? v 0
        e ← get_elem? s.event fd
        let after = made (read_from e.fd_remap size) s
        some (
            if w.read s.calls e.fd_remap size
            then after
            else fail
                (error "Line %lld Error reading %d bytes from %d/%d\n"
                  (s.line_num ∷ (size ∷ (fd ∷ (e.fd_remap ∷ [])))))
                after))

abbrev or_zero : Option ℕ → ℕ
or_zero none = 0
or_zero (some n) = n

unfoldable pub prctl_event : List ℕ → State → State
prctl_event line s =
    if or_zero (get_elem? (sscanf (decimal 32 ∷ []) line) 0) == 0
    then made disabled_all s
    else made enabled_all s

-- The child runs on in an endless loop until it is killed.
unfoldable pub fork_event : World → List ℕ → State → State
fork_event w line s =
    if or_zero (get_elem? (sscanf (decimal 32 ∷ []) line) 0) == 0
    then made (killed s.forked_pid) s
    else record (made (forked (w.fork s.calls)) s) { forked_pid = w.fork s.calls }

-- Three calls of `fcntl`. `sigaction` is not seen to fail.
unfoldable pub setup_overflow : List ℕ → State → Option State
setup_overflow line s = do
  fd ← get_elem? (sscanf (decimal 32 ∷ []) line) 0
  e ← get_elem? s.event fd
  some
      (made (signals_on e.fd_remap) (made (signals_on e.fd_remap) (made (signals_on e.fd_remap) s)))
