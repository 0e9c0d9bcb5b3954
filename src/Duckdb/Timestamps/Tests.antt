-- ===== src/Duckdb/Timestamps/Tests.antt =====
-- The last second before the epoch, and the witness for converge/duckdb/exotic.go.
use duckdb_wasm2go_poc.Base.{ℕ, ◌*◌, ◌/◌, ◌≡◌, ◌∷◌, ◌++◌, false, refl, arith, Bytes}
use duckdb_wasm2go_poc.Base.Int.{ℤ, pos, negsuc}
use duckdb_wasm2go_poc.Base.Text.{codes}
use duckdb_wasm2go_poc.Duckdb.Times.{micros_per_sec}
use duckdb_wasm2go_poc.Duckdb.Times.Clock.{read_clock}
use duckdb_wasm2go_poc.Duckdb.Timestamps.{split_days, date_string, timestamp_string}
use duckdb_wasm2go_poc.Duckdb.Timestamps.Split.{Splits, timestamp_string-Splits}

split_days_before : split_days 86400 (negsuc 0) ≡ (negsuc 0, 86399)
unfolding split_days
split_days_before = refl

-- a calendar that knows one day
abbrev last_day : ℤ → ℤ × ℕ × ℕ
last_day days = (pos 1969, 12, 31)

timestamp_string-Splits_example :
    (days : ℤ) × (left : ℕ) × (clock : Bytes) × Splits (1 * 86400) (negsuc 0) days left
    × (timestamp_string last_day 1 false (codes "+00") (negsuc 0)
        ≡ date_string last_day days ++ (b' ' ∷ (clock ++ codes "+00")))
    × (read_clock 0 0 clock ≡ left * (micros_per_sec / 1))
unfolding split_days
timestamp_string-Splits_example =
    timestamp_string-Splits last_day 1 (codes "+00") (negsuc 0) (omega arith) (omega arith)
      (omega arith)
