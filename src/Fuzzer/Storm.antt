-- ===== src/Fuzzer/Storm.antt =====
-- fuzzer/fuzz_overflow.c, `our_handler`: the counts of overflows and throttles of an event.
pub mod Throttle
pub mod Handler
mod Tests
use perf_event_tests.Base.{
  ℕ, zero, suc, ◌+◌, ◌/◌, ◌%◌, ◌^◌, ◌≤◌, ◌<◌, ◌≡◌, refl, sym, ap, ◌∙◌, inl, inr, Bool, Bool-cases,
  true, false, not, ◌&&◌, none, some, Option, List, [], ◌∷◌, ◌++◌, arith, ◌==◌, if◌then◌else◌,
  get_elem?, set,
}
use perf_event_tests.Fuzzer.State.{
  Call, made, Event, OurMmap, State, World, Config, Fuzz, Done, pure, ◌>>=◌, ask, call, change,
  change_event, change_mmap, event_at, mmap_at, plus_one, if_found,
}
use perf_event_tests.Fuzzer.Find.{first_where, less_than_one, lookup_event}
use perf_event_tests.Fuzzer.Table.{get_elem?-set}
use perf_event_tests.Fuzzer.Mmap.{perf_mmap_read}
use perf_event_tests.Fuzzer.Overflow.{exceeds, throttle, read_and_refresh, overflowed, our_handler}
use perf_event_tests.Fuzzer.Takes.{
  Takes, Keeps, Takes-bind, Keeps-bind, Takes-if, Keeps-if, Keeps-pure, Takes-weaken, Takes-given,
  Takes-ask, Takes-call, Takes-change,
}

-- A signal behind another.
unfoldable pub signals : World → Config → (n fd : ℕ) → Fuzz Done
unfolding our_handler
signals w c zero fd = pure tt
signals w c (suc n) fd = do _ ← signals w c n fd; our_handler w c fd

abbrev has_fd : ℕ → Event → Bool
has_fd fd e = e.active && (e.fd == fd)

-- Event `i` is the one that signals of `fd` are for. Its mapping is slot `which`, which has no aux area.
pub record Signalled (i fd which : ℕ) (calls : List Call) (overflows throttles : ℕ) (busy : Bool)
    (s : State) : Type 0 where
  pub event : Event
  pub here : get_elem? s.events i ≡ some event
  pub found : first_where (has_fd fd) 0 s.events ≡ some i
  pub some_open : less_than_one s.active_events ≡ false
  pub event_overflows : event.overflows ≡ overflows
  pub event_throttles : event.throttles ≡ throttles
  pub event_mmap : event.mmap ≡ which
  pub event_fd : event.fd ≡ fd
  pub since : s.calls ≡ calls
  pub handling : s.already_handling ≡ busy
  pub mapping : OurMmap
  pub slot : get_elem? s.mmaps which ≡ some mapping
  pub no_aux : mapping.aux ≡ false

-- A changed entry that passes the test as before is found as before.
first_where-set :
    {A : Type 0} (p : A → Bool) (l : List A) (i k : ℕ) (a b : A)
    → get_elem? l i ≡ some a
    → p b ≡ p a
    → first_where p k (set l i b) ≡ first_where p k l
first_where-set p [] i k a b h e = refl
first_where-set p (x ∷ l) zero k a b h e = ground (arith, h, e)
first_where-set p (x ∷ l) (suc i) k a b h e = ground (arith, first_where-set p l i (k + 1) a b h e)

module _ (i fd which : ℕ) (cs : List Call) where
  pub change_event-Takes :
      (a b a' b' : ℕ) (busy : Bool) (f : Event → Event)
      → ((e : Event) → ((f e).active ≡ e.active) × ((f e).fd ≡ e.fd) × ((f e).mmap ≡ e.mmap))
      → ((e : Event) → e.overflows ≡ a → (f e).overflows ≡ a')
      → ((e : Event) → e.throttles ≡ b → (f e).throttles ≡ b')
      → Takes
          (Signalled i fd which cs a b busy)
          (change_event i f)
          (λ _. Signalled i fd which cs a' b' busy)
  unfolding change_event
  change_event-Takes a b a' b' busy f keeps over thro = record {
    run = λ s h. record {
      result = tt;
      after = record s { events = set s.events i (f h.event) };
      run = ground (arith, h.here);
      holds = record {
        event = f h.event;
        here = get_elem?-set s.events i h.event (f h.event) h.here;
        found =
            first_where-set (has_fd fd) s.events i 0 h.event (f h.event) h.here
              (ground (arith, keeps h.event))
            ∙ h.found;
        some_open = h.some_open;
        event_overflows = over h.event h.event_overflows;
        event_throttles = thro h.event h.event_throttles;
        event_mmap = (keeps h.event).2 ∙ h.event_mmap;
        event_fd = (keeps h.event).1 ∙ h.event_fd;
        since = h.since;
        handling = h.handling;
        mapping = h.mapping;
        slot = h.slot;
        no_aux = h.no_aux;
      };
    };
  }

  moved :
      (cs' : List Call) (a b : ℕ) (busy busy' : Bool) (s t : State)
      → t.events ≡ s.events
      → t.mmaps ≡ s.mmaps
      → t.active_events ≡ s.active_events
      → (s.already_handling ≡ busy → t.already_handling ≡ busy')
      → (s.calls ≡ cs → t.calls ≡ cs')
      → Signalled i fd which cs a b busy s
      → Signalled i fd which cs' a b busy' t
  moved cs' a b busy busy' s t events mmaps number handling calls h = record {
    event = h.event;
    here = ap (λ l. get_elem? l i) events ∙ h.here;
    found = ap (first_where (has_fd fd) 0) events ∙ h.found;
    some_open = ap less_than_one number ∙ h.some_open;
    event_overflows = h.event_overflows;
    event_throttles = h.event_throttles;
    event_mmap = h.event_mmap;
    event_fd = h.event_fd;
    since = calls h.since;
    handling = handling h.handling;
    mapping = h.mapping;
    slot = ap (λ l. get_elem? l which) mmaps ∙ h.slot;
    no_aux = h.no_aux;
  }

  pub change-Takes :
      (a b : ℕ) (busy busy' : Bool) (f : State → State)
      → ((s : State) → (f s).events ≡ s.events)
      → ((s : State) → (f s).mmaps ≡ s.mmaps)
      → ((s : State) → (f s).active_events ≡ s.active_events)
      → ((s : State) → s.already_handling ≡ busy → (f s).already_handling ≡ busy')
      → ((s : State) → (f s).calls ≡ s.calls)
      → Takes (Signalled i fd which cs a b busy) (change f) (λ _. Signalled i fd which cs a b busy')
  change-Takes a b busy busy' f events mmaps number handling calls =
      Takes-change f (Signalled i fd which cs a b busy') λ s h.
        moved cs a b busy busy' s (f s) (events s) (mmaps s) (number s) (handling s)
          (λ e. calls s ∙ e) h

  module _ (a b : ℕ) (busy : Bool) where
    pub change-Keeps :
        (f : State → State)
        → ((s : State) → (f s).events ≡ s.events)
        → ((s : State) → (f s).mmaps ≡ s.mmaps)
        → ((s : State) → (f s).active_events ≡ s.active_events)
        → ((s : State) → (f s).already_handling ≡ s.already_handling)
        → ((s : State) → (f s).calls ≡ s.calls)
        → Keeps (Signalled i fd which cs a b busy) (change f)
    change-Keeps f events mmaps number handling calls =
        change-Takes a b busy busy f events mmaps number (λ s h. handling s ∙ h) calls

    pub call-Keeps : {A : Type 0} (f : ℕ → A) → Keeps (Signalled i fd which cs a b busy) (call f)
    call-Keeps f =
        Takes-call f (λ _. Signalled i fd which cs a b busy)
          λ s h.
            moved cs a b busy busy s (record s { clock = suc s.clock }) refl refl refl (λ x. x)
              (λ x. x) h

    -- A call that is kept.
    pub made-Takes :
        {A : Type 0} (k : Call) (f : ℕ → A)
        → Takes
            (Signalled i fd which cs a b busy)
            (made k f)
            (λ _. Signalled i fd which (cs ++ (k ∷ [])) a b busy)
    unfolding made
    made-Takes k f = record {
      run = λ s h.
          let t = record s { clock = suc s.clock; calls = s.calls ++ (k ∷ []) } in
          record {
            result = f s.clock;
            after = t;
            run = refl;
            holds =
                moved (cs ++ (k ∷ [])) a b busy busy s t refl refl refl (λ x. x)
                  (λ e. ap (λ l. l ++ (k ∷ [])) e) h;
          };
    }

    pub call-Takes :
        {A : Type 0} (f : ℕ → A) (F : A → Type 0)
        → ((t : ℕ) → F (f t))
        → Takes
            (Signalled i fd which cs a b busy)
            (call f)
            (λ x s. Signalled i fd which cs a b busy s × F x)
    call-Takes f F known =
        Takes-call f (λ x s. Signalled i fd which cs a b busy s × F x)
          λ s h. (
            moved cs a b busy busy s (record s { clock = suc s.clock }) refl refl refl (λ x. x)
                (λ x. x) h,
            known s.clock,
          )

    pub event_at-Takes : Takes (Signalled i fd which cs a b busy) (event_at i) (λ e s.
        Signalled i fd which cs a b busy s
        × ((e.overflows ≡ a) × (e.mmap ≡ which) × (e.fd ≡ fd) × (e.throttles ≡ b)))
    unfolding event_at
    event_at-Takes = record {
      run = λ s h. record {
        result = h.event;
        after = s;
        run = ground (arith, h.here);
        holds = (h, (h.event_overflows, h.event_mmap, h.event_fd, h.event_throttles));
      };
    }

    pub event_at-Keeps : Keeps (Signalled i fd which cs a b busy) (event_at i)
    unfolding event_at
    event_at-Keeps = record {
      run = λ s h. record { result = h.event; after = s; run = ground (arith, h.here); holds = h };
    }

    pub mmap_at-Takes :
        Takes
          (Signalled i fd which cs a b busy)
          (mmap_at which)
          (λ m s. Signalled i fd which cs a b busy s × (m.aux ≡ false))
    unfolding mmap_at
    mmap_at-Takes = record {
      run = λ s h. record {
        result = h.mapping;
        after = s;
        run = ground (arith, h.slot);
        holds = (h, h.no_aux);
      };
    }

    pub change_mmap-Keeps :
        (f : OurMmap → OurMmap)
        → ((m : OurMmap) → (f m).aux ≡ m.aux)
        → Keeps (Signalled i fd which cs a b busy) (change_mmap which f)
    unfolding change_mmap
    change_mmap-Keeps f aux = record {
      run = λ s h. record {
        result = tt;
        after = record s { mmaps = set s.mmaps which (f h.mapping) };
        run = ground (arith, h.slot);
        holds = record {
          event = h.event;
          here = h.here;
          found = h.found;
          some_open = h.some_open;
          event_overflows = h.event_overflows;
          event_throttles = h.event_throttles;
          event_mmap = h.event_mmap;
          event_fd = h.event_fd;
          since = h.since;
          handling = h.handling;
          mapping = f h.mapping;
          slot = get_elem?-set s.mmaps which h.mapping (f h.mapping) h.slot;
          no_aux = aux h.mapping ∙ h.no_aux;
        };
      };
    }

    pub lookup_event-Takes :
        Takes
          (Signalled i fd which cs a b busy)
          (lookup_event fd)
          (λ o s. Signalled i fd which cs a b busy s × (o ≡ some i))
    unfolding lookup_event ask pure ◌>>=◌
    lookup_event-Takes = record {
      run = λ s h. record {
        result = some i;
        after = s;
        run = ground (arith, h.some_open, h.found);
        holds = (h, refl);
      };
    }
