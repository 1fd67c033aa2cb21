-- ===== src/Record/Sample/Stack.antt =====
-- lib/parse_record.c: PERF_SAMPLE_STACK_USER.
use perf_event_tests.Base.{
  ℕ, zero, suc, ◌+◌, ◌-◌, ◌*◌, ◌/◌, ◌^◌, ◌&&◌, Bool, false, List, [], ◌∷◌, ltb, if◌then◌else◌,
}
use perf_event_tests.Record.Reader.{
  Reader, Done, pure, fail, ◌>>=◌, peek_in, peek_bytes, skip, say, field,
}

-- `stack_data` points to words of four bytes, and `k` goes up by four: round `i` reads word 4*i of the copy,
-- which is byte 16*i. Past the end of the copy it is a fault.
unfoldable pub stack_words : List ℕ → (left i : ℕ) → Reader Done
stack_words stack zero i = pure tt
stack_words stack (suc left) i = do
  w ← peek_in stack (16 * i) 4
  _ ← say false "0x%x " (w ∷ [])
  stack_words stack left (i + 1)

-- `for(k=0;k<dyn_size;k+=4)`: no round for a negative size, and `k` overflows beyond 2^31-4.
-- A quiet loop reads nothing.
unfoldable pub stack_loop : Bool → List ℕ → ℕ → Reader Done
unfolding stack_words
stack_loop quiet stack dyn_size =
    if ltb (2 ^ 31 - 4) dyn_size && ltb dyn_size (2 ^ 63)
    then fail
    else if quiet
    then pure tt
    else stack_words stack (if ltb dyn_size (2 ^ 63) then (dyn_size + 3) / 4 else 0) 0

-- The block of `size` bytes is copied; a size past the end of the buffer is a fault of `memcpy`.
unfoldable pub stack_user : Bool → Reader Done
unfolding stack_loop
stack_user quiet = do
  size ← field quiet 8 "\tPERF_SAMPLE_STACK_USER, Requested size: %lld\n"
  stack ← peek_bytes size
  _ ← skip size
  dyn_size ← field quiet 8 "\t\tDynamic (used) size: %lld\n"
  _ ← say quiet "\t\t" []
  _ ← stack_loop quiet stack dyn_size
  say quiet "\n" []
