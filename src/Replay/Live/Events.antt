-- ===== src/Replay/Live/Events.antt =====
-- Each handler of the replay leaves the table so.
use perf_event_tests.Base.{
  ℕ, zero, suc, ◌≡◌, refl, sym, ap, ◌%◌, ◌∙◌, subst, Bool, true, false, not, ◌||◌, Option, none,
  some, List, [], ◌∷◌, arith, ◌==◌, ltb, if◌then◌else◌, get_elem?, set,
}
use perf_event_tests.Replay.State.{
  EventType, Call, mapped, unmapped, controlled, read_from, signals_on, wrote, forked, killed,
  enabled_all, disabled_all, State, World, minus_one, map_failed, set_event, made, ◌>>=◌,
}
use perf_event_tests.Replay.Handlers
use perf_event_tests.Replay.Live.{is_open, Clean, Live, Live-quiet}

abbrev pub fds : List EventType → List ℕ
fds [] = []
fds (e ∷ es) = e.fd_remap ∷ fds es

pub fds-set :
    (es : List EventType) (i : ℕ) (e : EventType) → fds (set es i e) ≡ set (fds es) i e.fd_remap
fds-set [] i e = refl
fds-set (x ∷ es) zero e = refl
fds-set (x ∷ es) (suc i) e = ap (λ l. x.fd_remap ∷ l) (fds-set es i e)

pub get_elem?-fds :
    (es : List EventType) (i : ℕ) (e : EventType)
    → get_elem? es i ≡ some e
    → get_elem? (fds es) i ≡ some e.fd_remap
get_elem?-fds [] i e h = absurd (ground (arith, h))
get_elem?-fds (x ∷ es) zero e h = ap (λ o. elim o [ none ↦ none | some y ↦ some y.fd_remap ]) h
get_elem?-fds (x ∷ es) (suc i) e h = get_elem?-fds es i e h

fds-same :
    (es : List EventType) (i : ℕ) (e e' : EventType)
    → get_elem? es i ≡ some e
    → e'.fd_remap ≡ e.fd_remap
    → fds (set es i e') ≡ fds es
fds-same [] i e e' h same = refl
fds-same (x ∷ es) zero e e' h same =
    ap (λ k. k ∷ fds es)
      (same ∙ ap (λ o. elim o [ none ↦ e.fd_remap | some y ↦ y.fd_remap ]) (sym h))
fds-same (x ∷ es) (suc i) e e' h same = ap (λ l. x.fd_remap ∷ l) (fds-same es i e e' h same)

abbrev pub Good : State → Type 0
Good s = Live (fds s.event) s.calls

-- If the handler gets through, the table is good.
pub record Safe (o : Option State) : Type 0 where
  pub lands : (t : State) → o ≡ some t → Good t

pub Safe-some : (s : State) → Good s → Safe (some s)
Safe-some s h = record {
  lands = λ t e. subst Good (ap (λ o. elim o [ none ↦ s | some u ↦ u ]) e) h;
}

pub Safe-bind :
    {A : Type 0} (o : Option A) {f : A → Option State}
    → ((a : A) → o ≡ some a → Safe (f a))
    → Safe (o >>= f)
unfolding ◌>>=◌
Safe-bind none h = record { lands = λ t e. absurd (ground (arith, e)) }
Safe-bind (some a) h = h a refl

pub Safe-if :
    (b : Bool) {p q : Option State}
    → (b ≡ true → Safe p)
    → (b ≡ false → Safe q)
    → Safe (if b then p else q)
Safe-if true hp hq = hp refl
Safe-if false hp hq = hq refl

-- Either way.
pub Safe-either :
    (b : Bool) {s t : State} → Safe (some s) → Safe (some t) → Safe (some (if b then s else t))
Safe-either true hs ht = hs
Safe-either false hs ht = ht

Good-made :
    (c : Call) (s : State)
    → ((fd : ℕ) → is_open fd (c ∷ s.calls) ≡ is_open fd s.calls)
    → Clean (c ∷ s.calls) ≡ Clean s.calls
    → Good s
    → Good (made c s)
Good-made c s same clean h = Live-quiet c (fds s.event) s.calls same clean h

Good-set :
    (i : ℕ) (e e' : EventType) (s : State)
    → get_elem? s.event i ≡ some e
    → e'.fd_remap ≡ e.fd_remap
    → Good s
    → Good (set_event i e' s)
Good-set i e e' s here same h =
    subst (λ l. Live l s.calls) (sym (fds-same s.event i e e' here same)) h

module _ (w : World) (line : List ℕ) (s : State) (h : Good s) where
  pub mmap_event-Good : Safe (Handlers.mmap_event w line s)
  unfolding Handlers.mmap_event
  mmap_event-Good = Safe-bind _ λ fd _. Safe-bind _ λ e here.
      Safe-if (e.fd_remap == minus_one) (λ _. Safe-some _ h)
        λ _. Safe-bind _ λ size _.
          Safe-if (w.mmap s.calls size e.fd_remap == map_failed)
            (λ _. Safe-some _ (
              Good-set fd e _ (made (call size e) s) here refl
                (Good-made (call size e) s (λ k. refl) refl h)))
            λ _. Safe-some _ (
              Good-set fd e _ (made (call size e) s) here refl
                (Good-made (call size e) s (λ k. refl) refl h))
    where
      call : ℕ → EventType → Call
      call size e = mapped e.fd_remap size (w.mmap s.calls size e.fd_remap)

  pub trash_mmap_event-Good : Safe (Handlers.trash_mmap_event line s)
  unfolding Handlers.trash_mmap_event
  trash_mmap_event-Good = Safe-bind _ λ fd _. Safe-bind _ λ value _. Safe-bind _ λ size _.
      Safe-bind _ λ e here.
        Safe-if ((e.fd_remap == minus_one) || ((e.mmap_remap == map_failed) || (e.mmap_remap == 0)))
          (λ _. Safe-some _ h)
          λ _. Safe-some _ (Good-made (wrote e.mmap_remap (value % 256) size) s (λ k. refl) refl h)

  pub munmap_event-Good : Safe (Handlers.munmap_event w line s)
  unfolding Handlers.munmap_event
  munmap_event-Good = Safe-bind _ λ fd _. Safe-bind _ λ e here.
      Safe-if (e.fd_remap == minus_one)
        (λ _. Safe-either (e.mmap_remap == map_failed) (Safe-some _ h) (Safe-some _ h))
        λ _. Safe-bind _ λ size _.
          let t = set_event fd (record e { mmap_remap = map_failed }) s in
          let marked : Good t =
            Good-set fd e (record e { mmap_remap = map_failed }) s here refl h in
          let call = unmapped e.mmap_remap size in
          let after : Good (made call t) = Good-made call t (λ k. refl) refl marked in
          Safe-either (not (e.size == size)) (Safe-some _ marked) (
            Safe-either (e.mmap_remap == map_failed) (Safe-some _ marked) (
              Safe-either (not (w.munmap s.calls e.mmap_remap size)) (Safe-some _ after)
                (Safe-some _ after)))

  pub ioctl_event-Good : Safe (Handlers.ioctl_event w line s)
  unfolding Handlers.ioctl_event
  ioctl_event-Good = Safe-bind _ λ fd _. Safe-bind _ λ arg _. Safe-bind _ λ e _.
      Safe-bind _ λ given _.
        let after = Good-made (controlled e.fd_remap arg given) s (λ k. refl) refl h in
        Safe-if (w.ioctl s.calls e.fd_remap arg given) (λ _. Safe-some _ after)
          λ _. Safe-bind _ λ arg2 _. Safe-some _ after

  pub read_event-Good : Safe (Handlers.read_event w line s)
  unfolding Handlers.read_event
  read_event-Good = Safe-bind _ λ size _.
      Safe-if (ltb 524288 size) (λ _. Safe-some _ h)
        λ _. Safe-bind _ λ fd _. Safe-bind _ λ e _.
          let after = Good-made (read_from e.fd_remap size) s (λ k. refl) refl h in
          Safe-either (w.read s.calls e.fd_remap size) (Safe-some _ after) (Safe-some _ after)

  pub setup_overflow-Good : Safe (Handlers.setup_overflow line s)
  unfolding Handlers.setup_overflow
  setup_overflow-Good = Safe-bind _ λ fd _. Safe-bind _ λ e _.
      let call = signals_on e.fd_remap in
      Safe-some (made call (made call (made call s))) (
        Good-made call (made call (made call s)) (λ k. refl) refl
          (Good-made call (made call s) (λ k. refl) refl (Good-made call s (λ k. refl) refl h)))

  pub prctl_event-Good : Safe (some (Handlers.prctl_event line s))
  unfolding Handlers.prctl_event
  prctl_event-Good =
      Safe-either _ (Safe-some _ (Good-made disabled_all s (λ k. refl) refl h))
        (Safe-some _ (Good-made enabled_all s (λ k. refl) refl h))

  pub fork_event-Good : Safe (some (Handlers.fork_event w line s))
  unfolding Handlers.fork_event
  fork_event-Good =
      Safe-either _ (Safe-some _ (Good-made (killed s.forked_pid) s (λ k. refl) refl h))
        (Safe-some _ (Good-made (forked (w.fork s.calls)) s (λ k. refl) refl h))
