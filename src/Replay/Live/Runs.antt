-- ===== src/Replay/Live/Runs.antt =====
-- The states that a replay reaches by the handlers.
use perf_event_tests.Base.{
  ℕ, zero, suc, ◌≡◌, refl, sym, ap, subst, none, some, List, [], ◌∷◌, arith, get_elem?,
}
use perf_event_tests.Replay.State.{State, World, fd_remap_size, minus_one}
use perf_event_tests.Replay.Handlers.{
  mmap_event, trash_mmap_event, munmap_event, open_event, close_event, ioctl_event, read_event,
  setup_overflow, prctl_event, fork_event,
}
use perf_event_tests.Replay.Live.{Live}
use perf_event_tests.Replay.Live.Events.{
  fds, Good, mmap_event-Good, trash_mmap_event-Good, munmap_event-Good, ioctl_event-Good,
  read_event-Good, setup_overflow-Good, prctl_event-Good, fork_event-Good,
}
use perf_event_tests.Replay.Live.Opens.{Fresh, open_event-Good, close_event-Good}

abbrev pub none_open : ℕ → List ℕ
none_open zero = []
none_open (suc n) = minus_one ∷ none_open n

-- `main` fills the table, and each line is handled. `other` is any step that leaves the fds of the table
-- alone and makes no call.
pub data Replayed (w : World) : State → Type 0 where
  start : (s : State) → fds s.event ≡ none_open fd_remap_size → s.calls ≡ [] → Replayed w s
  opens : (s t : State) (line : List ℕ) → Replayed w s → open_event w line s ≡ some t → Replayed w t
  closes :
      (s t : State) (line : List ℕ) → Replayed w s → close_event w line s ≡ some t → Replayed w t
  maps : (s t : State) (line : List ℕ) → Replayed w s → mmap_event w line s ≡ some t → Replayed w t
  trashes :
      (s t : State) (line : List ℕ) → Replayed w s → trash_mmap_event line s ≡ some t → Replayed w t
  unmaps :
      (s t : State) (line : List ℕ) → Replayed w s → munmap_event w line s ≡ some t → Replayed w t
  controls :
      (s t : State) (line : List ℕ) → Replayed w s → ioctl_event w line s ≡ some t → Replayed w t
  reads : (s t : State) (line : List ℕ) → Replayed w s → read_event w line s ≡ some t → Replayed w t
  signals :
      (s t : State) (line : List ℕ) → Replayed w s → setup_overflow line s ≡ some t → Replayed w t
  switches : (s : State) (line : List ℕ) → Replayed w s → Replayed w (prctl_event line s)
  forks : (s : State) (line : List ℕ) → Replayed w s → Replayed w (fork_event w line s)
  other :
      (s t : State) → Replayed w s → fds t.event ≡ fds s.event → t.calls ≡ s.calls → Replayed w t

none_open_lem : (n i fd : ℕ) → get_elem? (none_open n) i ≡ some fd → fd ≡ minus_one
none_open_lem zero i fd h = absurd (ground (arith, h))
none_open_lem (suc n) zero fd h = ap (λ o. elim o [ none ↦ fd | some k ↦ k ]) (sym h)
none_open_lem (suc n) (suc i) fd h = none_open_lem n i fd h

-- If the kernel never gives out an fd that is open, then after any lines of the log each fd in the table
-- that is not -1 is open and stands there once, and no fd was ever closed that was not open. The signal
-- handler is not among the steps.
pub Replayed-Good : (w : World) (s : State) → Fresh w → Replayed w s → Good s
Replayed-Good w s kernel (start _ e none_called) =
    subst (λ cs. Live (fds s.event) cs) (sym none_called)
      (subst (λ l. Live l []) (sym e)
        (record {
          are_open = λ i fd at valid. absurd (valid (none_open_lem fd_remap_size i fd at));
          are_distinct =
              λ i j fd first second valid. absurd (valid (none_open_lem fd_remap_size i fd first));
          clean = tt;
        }))
Replayed-Good w s kernel (opens t _ line r e) =
    (open_event-Good w t (Replayed-Good w t kernel r) kernel line).lands s e
Replayed-Good w s kernel (closes t _ line r e) =
    (close_event-Good w t (Replayed-Good w t kernel r) line).lands s e
Replayed-Good w s kernel (maps t _ line r e) =
    (mmap_event-Good w line t (Replayed-Good w t kernel r)).lands s e
Replayed-Good w s kernel (trashes t _ line r e) =
    (trash_mmap_event-Good w line t (Replayed-Good w t kernel r)).lands s e
Replayed-Good w s kernel (unmaps t _ line r e) =
    (munmap_event-Good w line t (Replayed-Good w t kernel r)).lands s e
Replayed-Good w s kernel (controls t _ line r e) =
    (ioctl_event-Good w line t (Replayed-Good w t kernel r)).lands s e
Replayed-Good w s kernel (reads t _ line r e) =
    (read_event-Good w line t (Replayed-Good w t kernel r)).lands s e
Replayed-Good w s kernel (signals t _ line r e) =
    (setup_overflow-Good w line t (Replayed-Good w t kernel r)).lands s e
Replayed-Good w s kernel (switches t line r) =
    (prctl_event-Good w line t (Replayed-Good w t kernel r)).lands s refl
Replayed-Good w s kernel (forks t line r) =
    (fork_event-Good w line t (Replayed-Good w t kernel r)).lands s refl
Replayed-Good w s kernel (other t _ r e c) =
    subst (λ l. Live l s.calls) (sym e)
      (subst (λ cs. Live (fds t.event) cs) (sym c) (Replayed-Good w t kernel r))
