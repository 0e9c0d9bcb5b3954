-- ===== src/Duckdb/Times.antt =====
-- Times of day and intervals as text: `timeStringMicros` of converge/duckdb/exotic.go, `Interval` and
-- its helpers in converge/duckdb/result.go. Int32 and int64 values are integers.
pub mod Clock
mod Tests
use duckdb_wasm2go_poc.Base.{
  ℕ, ◌+◌, ◌-◌, ◌*◌, ◌/◌, ◌%◌, Bool, true, false, not, ◌&&◌, List, [], ◌∷◌, ◌++◌, ltb, ◌==◌,
  if◌then◌else◌, Bytes,
}
use duckdb_wasm2go_poc.Base.Int.{ℤ}
use duckdb_wasm2go_poc.Base.Text.{codes, itoa}
use duckdb_wasm2go_poc.Duckdb.Values.{magnitude, is_negative, negated, int_text, signed}

-- `microsPerSec`, `microsPerMinute` and `microsPerHour`
abbrev pub micros_per_sec : ℕ
micros_per_sec = 1000000

abbrev pub micros_per_minute : ℕ
micros_per_minute = 60000000

abbrev pub micros_per_hour : ℕ
micros_per_hour = 3600000000

-- `appendTwoDigits`, of a number that is not negative
unfoldable pub two_digits : ℕ → Bytes
two_digits v = if ltb v 10 then b'0' ∷ itoa v else itoa v

abbrev pub is_nothing : Bytes → Bool
is_nothing [] = true
is_nothing (c ∷ cs) = false

-- digits without the zeros at their end
unfoldable pub trim_zeros : Bytes → Bytes
trim_zeros [] = []
trim_zeros (c ∷ cs) =
    let rest = trim_zeros cs in if is_nothing rest && c == b'0' then [] else c ∷ rest

-- `appendMicrosTrimmed`: six digits, of which the first stays
unfoldable pub micros_trimmed : ℕ → Bytes
micros_trimmed m =
    (48 + (m / 100000) % 10)
    ∷ trim_zeros (
        (48 + (m / 10000) % 10)
        ∷ (48 + (m / 1000) % 10)
        ∷ (48 + (m / 100) % 10)
        ∷ (48 + (m / 10) % 10)
        ∷ (48 + m % 10)
        ∷ [])

-- the point and the digits behind it
abbrev pub fraction : ℕ → Bytes
fraction m = if m == 0 then [] else b'.' ∷ micros_trimmed m

-- `timeStringMicros`, of a number that is not negative
unfoldable pub time_string_micros : ℕ → Bytes
time_string_micros micros =
    let after_hours = micros - micros / micros_per_hour * micros_per_hour in
    let after_minutes = after_hours - after_hours / micros_per_minute * micros_per_minute in
    let left = after_minutes - after_minutes / micros_per_sec * micros_per_sec in
    two_digits (micros / micros_per_hour)
    ++ (b':'
        ∷ (two_digits (after_hours / micros_per_minute)
            ++ (b':' ∷ (two_digits (after_minutes / micros_per_sec) ++ fraction left))))

-- `appendComponent`: what is appended to the text so far
unfoldable pub append_component : ℤ → Bytes → Bytes → Bytes
append_component value name b =
    let spaced = if is_nothing b then b else b ++ (b' ' ∷ []) in
    let plural = if magnitude value == 1 then [] else b's' ∷ [] in
    if magnitude value == 0 then b else spaced ++ (int_text value ++ (name ++ plural))

-- `String` of an `Interval`: the time is written from its magnitude, behind its sign
unfoldable pub interval_string : ℤ → ℤ → ℤ → Bytes
interval_string months days micros =
    let years = negated (is_negative months) (magnitude months / 12) in
    let rest = negated (is_negative months) (magnitude months % 12) in
    let b =
      append_component days (codes " day")
        (append_component rest (codes " month") (append_component years (codes " year") [])) in
    let spaced = if is_nothing b then b else b ++ (b' ' ∷ []) in
    if not (magnitude micros == 0)
    then spaced ++ signed (is_negative micros) (time_string_micros (magnitude micros))
    else if is_nothing b
    then codes "00:00:00"
    else b
