-- ===== src/Duckdb/Timestamps/Split.antt =====
-- The days of a timestamp, and the time of day that is left: `timestampString` of
-- converge/duckdb/exotic.go.
use native.Mathlib.Numerals.{unary_clauses}
use native.Mathlib.Nat.{mod-lt, div-add-mod}
use duckdb_wasm2go_poc.Base.{
  ℕ, zero, suc, ◌+◌, ◌*◌, ◌/◌, ◌%◌, ◌<◌, ◌≡◌, ◌≢◌, true, false, not, ◌&&◌, ltb, ◌==◌, ◌∷◌, ◌++◌,
  Bytes, arith, refl, Bool-cases, inl, inr,
}
use duckdb_wasm2go_poc.Base.Int.{ℤ, pos, negsuc, pos_part, neg_part}
use duckdb_wasm2go_poc.Duckdb.Values.{magnitude, is_negative, negated}
use duckdb_wasm2go_poc.Duckdb.Times.{micros_per_sec, time_string_micros}
use duckdb_wasm2go_poc.Duckdb.Times.Clock.{read_clock, time_string_micros_read_back}
use duckdb_wasm2go_poc.Duckdb.Timestamps.{split_days, date_string, timestamp_string}

-- `days` days of so many ticks, and `left` ticks of the next, make `raw` ticks.
abbrev pub Splits : ℕ → ℤ → ℤ → ℕ → Type 0
Splits per_day raw days left =
    (left < per_day)
    × (pos_part raw + per_day * neg_part days ≡ neg_part raw + (per_day * pos_part days + left))

neg_part-negated : (q : ℕ) → neg_part (negated true q) ≡ q
neg_part-negated zero = refl
neg_part-negated (suc q) = refl

pos_part-negated : (q : ℕ) → pos_part (negated true q) ≡ 0
pos_part-negated zero = refl
pos_part-negated (suc q) = refl

split_days_lem :
    (per_day : ℕ) (raw : ℤ)
    → 0 < per_day
    → Splits per_day raw (split_days per_day raw).0 (split_days per_day raw).1
unfolding split_days
split_days_lem per_day (pos n) h =
    let whole = div-add-mod n per_day in (mod-lt n h, simp unary_clauses (omega (arith, whole)))
split_days_lem per_day (negsuc n) h =
    let m = suc n in
    let whole = div-add-mod m per_day in
    let below = mod-lt m h in
    elim (Bool-cases (m % per_day == 0)) [
      | inl even ↦
          let none_left : m % per_day ≡ 0 = ground arith in
          rw even (
            rw (neg_part-negated (m / per_day)) (
              rw (pos_part-negated (m / per_day)) ((h, simp unary_clauses (omega (arith, whole))))))
      | inr odd ↦
          let some_left : 0 < m % per_day = ground arith in
          rw odd (omega arith, simp unary_clauses (omega (arith, whole)))
    ]

-- A timestamp of less than 2 ^ 31 days, and not infinite, is the text of its date, a space, and a clock
-- text that is read back as the ticks since midnight in microseconds; a timestamp before the epoch is on
-- the day that it falls in.
pub timestamp_string-Splits :
    (calendar : ℤ → ℤ × ℕ × ℕ) (per_sec : ℕ) (tz_suffix : Bytes) (raw : ℤ)
    → 0 < per_sec
    → magnitude raw ≢ 9223372036854775807
    → magnitude (split_days (per_sec * 86400) raw).0 < 2147483648
    → (days : ℤ) × (left : ℕ) × (clock : Bytes) × Splits (per_sec * 86400) raw days left
      × (timestamp_string calendar per_sec false tz_suffix raw
          ≡ date_string calendar days ++ (b' ' ∷ (clock ++ tz_suffix)))
      × (read_clock 0 0 clock ≡ left * (micros_per_sec / per_sec))
unfolding timestamp_string
timestamp_string-Splits calendar per_sec tz_suffix raw ticks finite range =
    let parts = split_days (per_sec * 86400) raw in
    let clock = time_string_micros (parts.1 * (micros_per_sec / per_sec)) in
    let not_infinite : (magnitude raw == 9223372036854775807) ≡ false = ground arith in
    let in_range : (ltb 2147483647 (magnitude parts.0)
          && not (is_negative parts.0 && magnitude parts.0 == 2147483648))
        ≡ false =
      ground arith in
    (
      parts.0,
      parts.1,
      clock,
      split_days_lem (per_sec * 86400) raw (omega arith),
      rw not_infinite (rw in_range refl),
      time_string_micros_read_back _,
    )
