-- ===== src/Duckdb/Times/Tests.antt =====
-- Texts of times, and the witnesses for converge/duckdb/exotic.go and result.go.
use duckdb_wasm2go_poc.Base.{◌≡◌, refl}
use duckdb_wasm2go_poc.Base.Int.{pos, negsuc}
use duckdb_wasm2go_poc.Base.Text.{codes, itoa}
use duckdb_wasm2go_poc.Duckdb.Times.{interval_string, micros_trimmed, trim_zeros, append_component}

trimmed_half : micros_trimmed 500000 ≡ codes "5"
unfolding micros_trimmed trim_zeros
trimmed_half = refl

trimmed_small : micros_trimmed 100 ≡ codes "0001"
unfolding micros_trimmed trim_zeros
trimmed_small = refl

two_years : interval_string (pos 25) (negsuc 0) (pos 0) ≡ codes "2 years 1 month -1 day"
unfolding interval_string append_component itoa
two_years = refl
