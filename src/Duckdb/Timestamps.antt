-- ===== src/Duckdb/Timestamps.antt =====
-- Dates and timestamps as text, of converge/duckdb/exotic.go and result.go. Int32 and int64
-- values are integers; the calendar of package time is a parameter.
use duckdb_wasm2go_poc.Base.{
  ℕ, zero, suc, ◌+◌, ◌-◌, ◌*◌, ◌/◌, ◌%◌, ◌^◌, Bool, true, false, not, ◌&&◌, ◌||◌, List, [], ◌∷◌,
  ◌++◌, ltb, leb, ◌==◌, if◌then◌else◌, Bytes, length,
}
use duckdb_wasm2go_poc.Base.Int.{ℤ, pos, negsuc}
use duckdb_wasm2go_poc.Base.Text.{codes, itoa}
use duckdb_wasm2go_poc.Duckdb.Values.{magnitude, is_negative, negated, pad_zeros}
use duckdb_wasm2go_poc.Duckdb.Times.{two_digits, micros_per_sec, trim_zeros, time_string_micros}
pub mod Split
mod Tests

-- the padding to four digits
abbrev pub four_digits : ℕ → Bytes
four_digits y = let ys = itoa y in pad_zeros (4 - length ys) ys

-- `ymdString`, of a year, month and day; the year 0 is 1 BC
unfoldable pub ymd_string : ℤ × ℕ × ℕ → Bytes
ymd_string (pos zero, m, d) =
    four_digits 1 ++ (b'-' ∷ (two_digits m ++ (b'-' ∷ (two_digits d ++ codes " (BC)"))))
ymd_string (pos (suc y), m, d) =
    four_digits (suc y) ++ (b'-' ∷ (two_digits m ++ (b'-' ∷ two_digits d)))
ymd_string (negsuc y, m, d) =
    four_digits (y + 2) ++ (b'-' ∷ (two_digits m ++ (b'-' ∷ (two_digits d ++ codes " (BC)"))))

-- `dateStringFromDays`; `calendar` is the date so many days behind the epoch
unfoldable pub date_string : (ℤ → ℤ × ℕ × ℕ) → ℤ → Bytes
unfolding ymd_string
date_string calendar days =
    let date = ymd_string (calendar days) in
    if magnitude days == 2147483647
    then if is_negative days then codes "-infinity" else codes "infinity"
    else date

-- the nine digits of a number of nanoseconds
abbrev pub nine_digits : ℕ → Bytes
nine_digits f =
    (48 + (f / 100000000) % 10)
    ∷ trim_zeros (
        (48 + (f / 10000000) % 10)
        ∷ (48 + (f / 1000000) % 10)
        ∷ (48 + (f / 100000) % 10)
        ∷ (48 + (f / 10000) % 10)
        ∷ (48 + (f / 1000) % 10)
        ∷ (48 + (f / 100) % 10)
        ∷ (48 + (f / 10) % 10)
        ∷ (48 + f % 10)
        ∷ [])

-- `timeStringNanos`, of a number that is not negative
unfoldable pub time_string_nanos : ℕ → Bytes
time_string_nanos nanos =
    let whole = time_string_micros (nanos / 1000000000 * micros_per_sec) in
    let left = nanos % 1000000000 in if left == 0 then whole else whole ++ (b'.' ∷ nine_digits left)

-- the days of a number of ticks, rounded down, and the ticks that are left
unfoldable pub split_days : ℕ → ℤ → ℤ × ℕ
split_days per_day (pos n) = (pos (n / per_day), n % per_day)
split_days per_day (negsuc n) =
    let m = suc n in
    if m % per_day == 0
    then (negated true (m / per_day), 0)
    else (negsuc (m / per_day), per_day - m % per_day)

-- `timestampString`, of so many ticks a second, and whether the ticks are nanoseconds
unfoldable pub timestamp_string : (ℤ → ℤ × ℕ × ℕ) → ℕ → Bool → Bytes → ℤ → Bytes
timestamp_string calendar per_sec is_nanos tz_suffix raw =
    let (days, left) = split_days (per_sec * 86400) raw in
    let time =
      if is_nanos
      then time_string_nanos left
      else time_string_micros (left * (micros_per_sec / per_sec)) in
    let text = date_string calendar days ++ (b' ' ∷ (time ++ tz_suffix)) in
    if magnitude raw == 9223372036854775807
    then if is_negative raw then codes "-infinity" else codes "infinity"
    else if ltb 2147483647 (magnitude days)
        && not (is_negative days && magnitude days == 2147483648)
    then []
    else text

-- `timeTZString`, of the bits of a TIMETZ: the upper 40 are the time, the lower 24 the offset, stored as
-- what 57599 is more than it; the time is written as `timeStringMicros` writes it
unfoldable pub time_tz_string : ℕ → Bytes
time_tz_string bits =
    let stored = bits % 2 ^ 24 in
    let behind = ltb 57599 stored in
    let offset = if behind then stored - 57599 else 57599 - stored in
    let minutes = offset % 3600 / 60 in
    let seconds = offset % 60 in
    let sign = if behind then b'-' else b'+' in
    time_string_micros (bits / 2 ^ 24)
    ++ (sign
        ∷ (two_digits (offset / 3600)
            ++ ((if minutes == 0 then [] else b':' ∷ two_digits minutes)
                ++ (if seconds == 0 then [] else b':' ∷ two_digits seconds))))

-- the bits of a byte from one on, the highest first
unfoldable pub bits_from : ℕ → ℕ → Bytes
bits_from zero v = []
bits_from (suc n) v = (48 + v / 2 ^ n % 2) ∷ bits_from n v

abbrev pub all_bits : Bytes → Bytes
all_bits [] = []
all_bits (v ∷ vs) = bits_from 8 v ++ all_bits vs

-- `bitString`: the first byte is the count of the bits that pad the second
unfoldable pub bit_string : Bytes → Bytes
unfolding bits_from
bit_string (padding ∷ v ∷ vs) =
    if ltb 8 padding then [] else bits_from (8 - padding) v ++ all_bits vs
bit_string _ = []
