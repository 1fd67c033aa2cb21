-- ===== src/Filters.antt =====
-- fuzzer/filter_address.c: address filters that are made up.
pub mod Bounds
mod Tests
use perf_event_tests.Base.{
  ℕ, zero, suc, ◌+◌, ◌-◌, ◌*◌, ◌%◌, ◌^◌, Bool, not, ◌||◌, List, [], ◌∷◌, ◌++◌, leb, ◌==◌,
  if◌then◌else◌,
}
use Prim.Native.Nat.{bit_or}
use perf_event_tests.Base.Digits.{digit_chars, digits_of, hex_text, decimal_text, signed_text}
use perf_event_tests.Sysfs.Chars.{codes}

-- What is made up, and the number of calls of `rand` before and after.
abbrev pub Made : Type 0 → Type 0
Made A = ℕ → A × ℕ

infixl 5 ◌>>=◌
unfoldable pub ◌>>=◌ : {A B : Type 0} → Made A → (A → Made B) → Made B
(m >>= f) t = let r = m t in f r.0 r.1

abbrev pub pure : {A : Type 0} → A → Made A
pure a t = (a, t)

-- "%llo".
abbrev pub octal_text : ℕ → List ℕ
octal_text v = digit_chars (digits_of 8 64 v)

-- "/vmlinuz".
abbrev pub get_path : List ℕ
get_path = codes "/vmlinuz"

module _ (rand : ℕ → ℕ) where
  abbrev pub draw : Made ℕ
  draw t = (rand t, suc t)

  abbrev pub random : ℕ → Made ℕ
  random n t = (rand t % n, suc t)

  -- One character, drawn from 50.
  abbrev pub whitespace_char : ℕ → ℕ
  whitespace_char r =
      if leb r 30
      then b' '
      else if r == 31
      then b'\r'
      else if r == 32
      then b'\n'
      else if r == 33
      then b','
      else b'\t'

  unfoldable pub whitespace : (amount : ℕ) → Made (List ℕ)
  whitespace zero = pure []
  whitespace (suc n) = do r ← random 50; rest ← whitespace n; pure (whitespace_char r ∷ rest)

  unfoldable pub print_whitespace : (max_amount : ℕ) → Made (List ℕ)
  unfolding whitespace
  print_whitespace max_amount = do
    amount ← random (if max_amount == 0 then 1 else max_amount)
    whitespace amount

  -- `((long long)rand()<<32)|rand()`.
  unfoldable pub wide : Made ℕ
  wide = do high ← draw; low ← draw; pure (bit_or (high * 2 ^ 32 % 2 ^ 64) low)

  -- Case 4 goes on into the default, but calls `rand`.
  unfoldable pub get_kernel_address : Made ℕ
  unfolding wide
  get_kernel_address = do
    r ← random 6
    if r == 0
        then wide
        else if (r == 1) || ((r == 2) || (r == 3))
        then (do low ← draw; pure (bit_or 0xffffffff00000000 low))
        else if r == 4
        then (do low ← draw; pure 0)
        else pure 0

  unfoldable pub get_size : Made ℕ
  unfolding wide
  get_size = do
    r ← random 5
    if r == 0
        then wide
        else if r == 1
        then draw
        else if r == 2
        then (do low ← draw; pure (low - low % 2 ^ 16))
        else if r == 3
        then (do low ← draw; pure (bit_or 0xffffffff00000000 low))
        else pure 0

  unfoldable pub address_text : Made (List ℕ)
  unfolding get_kernel_address
  address_text = do
    r ← random 10
    v ← get_kernel_address
    if r == 0
        then pure (decimal_text v)
        else if r == 1
        then pure (signed_text 64 v)
        else if r == 2
        then pure (hex_text v)
        else if r == 3
        then pure (octal_text v)
        else pure (b'0' ∷ (b'x' ∷ hex_text v))

  unfoldable pub size_text : Made (List ℕ)
  unfolding get_size
  size_text = do
    r ← random 5
    v ← get_size
    if r == 0
        then pure (b'/' ∷ hex_text v)
        else if r == 1
        then pure (b'/' ∷ signed_text 64 v)
        else if r == 2
        then pure (b'/' ∷ (b'0' ∷ (b'x' ∷ hex_text v)))
        else pure (b'/' ∷ decimal_text v)

  unfoldable pub range_text : (range_type : ℕ) → Made (List ℕ)
  unfolding address_text size_text
  range_text range_type = do
    address ← address_text
    sized ← random 2
    size ← if not (sized == 0) then size_text else pure []
    pure (address ++ (size ++ (if range_type == 2 then b'@' ∷ get_path else [])))

  unfoldable pub action_text : (max_whitespace : ℕ) → Made (List ℕ)
  unfolding print_whitespace
  action_text max_whitespace = do
    action ← random 5
    if action == 0
        then pure (codes "filter")
        else if action == 1
        then pure (codes "start")
        else if action == 2
        then pure (codes "stop")
        else print_whitespace max_whitespace

  -- The string in `filter`, without the terminator.
  unfoldable pub make_address_filter : (max_whitespace : ℕ) → Made (List ℕ)
  unfolding action_text range_text
  make_address_filter max_whitespace = do
    action ← action_text max_whitespace
    space ← print_whitespace max_whitespace
    range_type ← random 3
    range ← if range_type == 0 then print_whitespace max_whitespace else range_text range_type
    pure (action ++ (space ++ range))
