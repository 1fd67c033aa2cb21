-- ===== src/Replay/Live/Opens.antt =====
-- `open_event` and `close_event` leave the table so, where the kernel gives no fd out twice.
use perf_event_tests.Base.{
  ℕ, ◌^◌, ◌<◌, ◌≡◌, sym, subst, Bool, true, false, Option, none, some, List, [], ◌∷◌, arith, ◌==◌,
  leb, ltb, if◌then◌else◌, get_elem?, set,
}
use perf_event_tests.Report.Scan.{Attr, Opened}
use perf_event_tests.Report.Sscanf.{decimal, sscanf}
use perf_event_tests.Replay.State.{
  Call, opened, closed, State, World, fd_remap_size, minus_one, map_failed, set_event, made, say,
  error,
}
use perf_event_tests.Replay.Handlers.{
  open_event, open_parsed, close_event, close_fd, close_read, remap, cleared, refused, out_of_range,
}
use perf_event_tests.Replay.Live.{is_open, Live, Live-refused, Live-opened, Live-closed}
use perf_event_tests.Replay.Live.Events.{
  fds, fds-set, get_elem?-fds, Good, Safe, Safe-some, Safe-bind, Safe-if, Safe-either,
}

-- A new fd is none that is open.
pub record Fresh (w : World) : Type 0 where
  pub fresh :
      (cs : List Call) (pe : Attr) (pid cpu group flags : ℕ)
      → w.perf_event_open cs pe pid cpu group flags < 2 ^ 31
      → is_open (w.perf_event_open cs pe pid cpu group flags) cs ≡ false

Safe-inside :
    (b : Bool) (f : State → State) {s t : State}
    → Safe (some (f s))
    → Safe (some (f t))
    → Safe (some (f (if b then s else t)))
Safe-inside true f hs ht = hs
Safe-inside false f hs ht = ht

cleared-Good : (fd : ℕ) (s : State) → Good s → Safe (cleared fd s)
cleared-Good fd s h =
    Safe-if (ltb fd_remap_size fd) (λ _. Safe-some _ h)
      λ _. Safe-bind _ λ m _. Safe-bind _ λ n _. Safe-some _ h

module _ (w : World) (s : State) (h : Good s) where
  close_fd-Good : (fd : ℕ) → Safe (close_fd w fd s)
  unfolding close_fd
  close_fd-Good fd = Safe-bind _ λ e here.
      Safe-if (e.fd_remap == minus_one) (λ _. Safe-some _ h)
        λ valid.
          let tried = made (closed e.fd_remap) s in
          let after : State → State = λ u.
            set_event fd (record e { fd_remap = minus_one })
              (say (error "VMW CLOSE %d (%d)\n" (fd ∷ (e.fd_remap ∷ []))) u) in
          let given_up : Live (fds (set s.event fd (record e { fd_remap = minus_one })))
              (closed e.fd_remap ∷ s.calls) =
            subst (λ l. Live l (closed e.fd_remap ∷ s.calls))
              (sym (fds-set s.event fd (record e { fd_remap = minus_one })))
              (Live-closed (fds s.event) s.calls fd e.fd_remap (get_elem?-fds s.event fd e here)
                (λ same. absurd (ground (arith, same, valid))) h) in
          Safe-inside (w.close s.calls e.fd_remap) after (Safe-some _ given_up)
            (Safe-some _ given_up)

  pub close_event-Good : (line : List ℕ) → Safe (close_event w line s)
  unfolding close_event
  close_event-Good line = go (get_elem? (sscanf (decimal 32 ∷ []) line) 0)
    where
      go : (o : Option ℕ) → Safe (close_read w o s)
      go none = Safe-some _ h
      go (some fd) = close_fd-Good fd

  module _ (o : Opened) (pid group : ℕ) where
    abbrev result : ℕ
    result = w.perf_event_open s.calls o.attr pid o.cpu group o.flags

    abbrev call : Call
    call = opened o.attr pid o.cpu group o.flags result

    refused-Good : Safe (some (refused w o.attr (made call s)))
    refused-Good =
        let told = Live-refused o.attr pid o.cpu group o.flags result (fds s.event) s.calls h in
        Safe-either (w.is_too_big (call ∷ s.calls)) (Safe-some _ told) (Safe-some _ told)

    remap-Good : is_open result s.calls ≡ false → Safe (remap o.orig_fd result (made call s))
    remap-Good fresh =
        Safe-if (out_of_range o.orig_fd)
          (λ _.
            Safe-some _
              (Live-refused o.attr pid o.cpu group o.flags result (fds s.event) s.calls h))
          λ _. Safe-bind _ λ e here. cleared-Good result _ (
            subst (λ l. Live l (call ∷ s.calls))
              (sym (
                fds-set s.event o.orig_fd
                  (record e { fd_remap = result; mmap_remap = map_failed })))
              (Live-opened o.attr pid o.cpu group o.flags result (fds s.event) s.calls o.orig_fd
                fresh h))

  open_parsed-Good : Fresh w → (o : Opened) → Safe (open_parsed w o s)
  unfolding open_parsed
  open_parsed-Good kernel o = Safe-bind _ λ group _.
      let pid = if o.pid == s.original_pid then w.getpid else o.pid in
      let fd = w.perf_event_open s.calls o.attr pid o.cpu group o.flags in
      Safe-if (leb (2 ^ 31) fd) (λ _. refused-Good o pid group)
        λ low.
          remap-Good o pid group
            (kernel.fresh s.calls o.attr pid o.cpu group o.flags (ground (arith, low)))

  pub open_event-Good : Fresh w → (line : List ℕ) → Safe (open_event w line s)
  unfolding open_event
  open_event-Good kernel line = Safe-bind _ λ o _. open_parsed-Good kernel o
