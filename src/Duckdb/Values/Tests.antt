-- ===== src/Duckdb/Values/Tests.antt =====
-- Texts that the comments of converge/duckdb/decimal.go give, and the witnesses.
use duckdb_wasm2go_poc.Base.{
  ◌∷◌, ◌++◌, ◌<◌, length, All, ◌+◌, ◌*◌, ◌%◌, ◌^◌, ◌≡◌, true, some, Bytes, arith, refl,
}
use duckdb_wasm2go_poc.Base.Int.{negsuc}
use duckdb_wasm2go_poc.Base.Text.{codes, itoa}
use duckdb_wasm2go_poc.Duckdb.Values.{signed, padded, decimal_string, uuid_from_words}
use duckdb_wasm2go_poc.Duckdb.Values.Digits.{IsDigit, read_number}
use duckdb_wasm2go_poc.Duckdb.Values.Decimals.{decimal_string_exact}
use duckdb_wasm2go_poc.Duckdb.Values.Uuids.{read_hex, uuid_from_words_read_back}

small_negative : decimal_string 3 (some (negsuc 4)) ≡ codes "-0.005"
unfolding decimal_string padded itoa
small_negative = refl

decimal_string_exact_example :
    (whole fraction : Bytes) × (decimal_string 3 (some (negsuc 4))
      ≡ signed true (whole ++ (b'.' ∷ fraction)))
    × (0 < length whole)
    × (length fraction ≡ 3)
    × All IsDigit whole
    × All IsDigit fraction
    × (read_number 0 (whole ++ fraction) ≡ 5)
decimal_string_exact_example = decimal_string_exact 3 (negsuc 4)

uuid_from_words_read_back_example :
    read_hex 0 (uuid_from_words 1 2) ≡ (2 + 2 ^ 63) % 2 ^ 64 * 2 ^ 64 + 1
uuid_from_words_read_back_example = uuid_from_words_read_back 1 2 (omega arith) (omega arith)
