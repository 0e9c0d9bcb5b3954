-- ===== src/Duckdb/Times/Clock.antt =====
-- The text of a time of day is read back as its microseconds.
use duckdb_wasm2go_poc.Base.{
  ℕ, ◌+◌, ◌-◌, ◌*◌, ◌/◌, ◌%◌, ◌<◌, ◌≡◌, ◌≢◌, true, false, ◌&&◌, [], ◌∷◌, ◌++◌, ltb, ◌==◌,
  if◌then◌else◌, Bytes, All, arith, refl, ap, sym, ◌∙◌, Bool-cases, inl, inr,
}
use duckdb_wasm2go_poc.Base.Int.{ℤ, pos}
use duckdb_wasm2go_poc.Base.Text.{itoa}
use duckdb_wasm2go_poc.Duckdb.Values.{magnitude, is_negative, signed}
use duckdb_wasm2go_poc.Duckdb.Values.Digits.{read_number, IsDigit, itoa-IsDigit, read_number-itoa}
use duckdb_wasm2go_poc.Duckdb.Times.{
  micros_per_sec, micros_per_minute, micros_per_hour, two_digits, is_nothing, trim_zeros,
  micros_trimmed, fraction, time_string_micros, append_component, interval_string,
}

-- Digits behind a point, the first of which counts `weight`.
unfoldable pub read_fraction : ℕ → Bytes → ℕ
read_fraction weight [] = 0
read_fraction weight (c ∷ cs) = (c - 48) * weight + read_fraction (weight / 10) cs

-- The microseconds of H:M:S.F, with the minutes before the present number, and that number.
unfoldable pub read_clock : ℕ → ℕ → Bytes → ℕ
unfolding read_fraction
read_clock total current [] = (total * 60 + current) * 1000000
read_clock total current (c ∷ cs) =
    let next = read_clock (total * 60 + current) 0 cs in
    let digit = read_clock total (current * 10 + (c - 48)) cs in
    if c == b':'
    then next
    else if c == b'.'
    then (total * 60 + current) * 1000000 + read_fraction 100000 cs
    else digit

fraction_nothing : (weight : ℕ) (cs : Bytes) → is_nothing cs ≡ true → read_fraction weight cs ≡ 0
unfolding read_fraction
fraction_nothing weight [] h = refl
fraction_nothing weight (c ∷ cs) h = cc

read_fraction-trim_zeros :
    (weight : ℕ) (cs : Bytes) → read_fraction weight (trim_zeros cs) ≡ read_fraction weight cs
unfolding read_fraction trim_zeros
read_fraction-trim_zeros weight [] = refl
read_fraction-trim_zeros weight (c ∷ cs) =
    elim (Bool-cases (is_nothing (trim_zeros cs) && c == b'0')) [
      | inl zeros ↦
          let rest = read_fraction-trim_zeros (weight / 10) cs in
          let gone : is_nothing (trim_zeros cs) ≡ true = ground arith in
          let zero : c - 48 ≡ 0 = ground arith in
          let empty : read_fraction (weight / 10) cs ≡ 0 =
            sym rest ∙ fraction_nothing (weight / 10) (trim_zeros cs) gone in
          rw zeros (rw zero (rw empty (omega arith)))
      | inr digit ↦
          rw digit
            (ap (λ (k : ℕ). (c - 48) * weight + k) (read_fraction-trim_zeros (weight / 10) cs))
    ]

fraction_head :
    (weight c : ℕ) (cs : Bytes)
    → read_fraction weight (c ∷ cs) ≡ (c - 48) * weight + read_fraction (weight / 10) cs
unfolding read_fraction
fraction_head weight c cs = refl

five_digits :
    (m : ℕ)
    → read_fraction 10000 (
        (48 + (m / 10000) % 10)
        ∷ (48 + (m / 1000) % 10)
        ∷ (48 + (m / 100) % 10)
        ∷ (48 + (m / 10) % 10)
        ∷ (48 + m % 10)
        ∷ [])
      ≡ m % 100000
unfolding read_fraction
five_digits m = omega arith

read_fraction-micros_trimmed : (m : ℕ) → m < 1000000 → read_fraction 100000 (micros_trimmed m) ≡ m
unfolding micros_trimmed
read_fraction-micros_trimmed m h =
    fraction_head 100000 (48 + (m / 100000) % 10) _
    ∙ ap (λ (k : ℕ). (48 + (m / 100000) % 10 - 48) * 100000 + k)
        (read_fraction-trim_zeros 10000 _ ∙ five_digits m)
    ∙ omega arith

read_clock-digits :
    (ds rest : Bytes) (total current : ℕ)
    → All IsDigit ds
    → read_clock total current (ds ++ rest) ≡ read_clock total (read_number current ds) rest
unfolding read_clock read_number
read_clock-digits [] rest total current h = refl
read_clock-digits (c ∷ cs) rest total current (d, h) =
    let colon : (c == b':') ≡ false = ground arith in
    let point : (c == b'.') ≡ false = ground arith in
    rw colon (rw point (read_clock-digits cs rest total (current * 10 + (c - 48)) h))

read_clock-two_digits :
    (v total : ℕ) (rest : Bytes)
    → read_clock total 0 (two_digits v ++ rest) ≡ read_clock total v rest
unfolding two_digits
read_clock-two_digits v total rest = elim (Bool-cases (ltb v 10)) [
  | inl short ↦ rw short (
      read_clock-digits (b'0' ∷ itoa v) rest total 0 ((omega arith, omega arith), itoa-IsDigit v)
      ∙ ap (λ (k : ℕ). read_clock total k rest) (unfold read_number in read_number-itoa v))
  | inr long ↦ rw long (
      read_clock-digits (itoa v) rest total 0 (itoa-IsDigit v)
      ∙ ap (λ (k : ℕ). read_clock total k rest) (read_number-itoa v))
]

read_colon :
    (total current : ℕ) (rest : Bytes)
    → read_clock total current (b':' ∷ rest) ≡ read_clock (total * 60 + current) 0 rest
unfolding read_clock
read_colon total current rest = refl

read_clock-fraction :
    (total current m : ℕ)
    → m < 1000000
    → read_clock total current (fraction m) ≡ (total * 60 + current) * 1000000 + m
read_clock-fraction total current m h = elim (Bool-cases (m == 0)) [
  | inl none_left ↦ rw none_left (unfold read_clock in ground arith)
  | inr some_left ↦ rw some_left (
      unfold read_clock in
      ap (λ (k : ℕ). (total * 60 + current) * 1000000 + k) (read_fraction-micros_trimmed m h))
]

-- The text of a time of day, with hours, minutes, seconds and the fraction that is left, is read back
-- as its microseconds, also past 24 hours.
pub time_string_micros_read_back :
    (micros : ℕ) → read_clock 0 0 (time_string_micros micros) ≡ micros
unfolding time_string_micros
time_string_micros_read_back micros =
    let hour = micros / micros_per_hour in
    let after_hours = micros - hour * micros_per_hour in
    let minute = after_hours / micros_per_minute in
    let after_minutes = after_hours - minute * micros_per_minute in
    let second = after_minutes / micros_per_sec in
    let left = after_minutes - second * micros_per_sec in
    read_clock-two_digits hour 0 _
    ∙ read_colon 0 hour _
    ∙ read_clock-two_digits minute (0 * 60 + hour) _
    ∙ read_colon (0 * 60 + hour) minute _
    ∙ read_clock-two_digits second ((0 * 60 + hour) * 60 + minute) _
    ∙ read_clock-fraction ((0 * 60 + hour) * 60 + minute) second left (omega arith)
    ∙ omega arith

-- An interval of a time alone is its sign before a clock text that is read back as its magnitude.
interval_string_time :
    (micros : ℤ)
    → magnitude micros ≢ 0
    → (body : Bytes) × (interval_string (pos 0) (pos 0) micros ≡ signed (is_negative micros) body)
      × (read_clock 0 0 body ≡ magnitude micros)
unfolding interval_string append_component
interval_string_time micros ne =
    let some_time : (magnitude micros == 0) ≡ false = ground arith in
    (
      time_string_micros (magnitude micros),
      rw some_time refl,
      time_string_micros_read_back (magnitude micros),
    )
