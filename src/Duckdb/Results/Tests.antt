-- ===== src/Duckdb/Results/Tests.antt =====
-- Runs of `decode`, and the witnesses for the cells of converge/duckdb/result.go.
use duckdb_wasm2go_poc.Base.{◌≡◌, true, [], ◌∷◌, ◌++◌, inl, arith, refl}
use duckdb_wasm2go_poc.Base.Int.{pos, negsuc}
use duckdb_wasm2go_poc.Base.Text.{codes}
use duckdb_wasm2go_poc.Wasi.State.{le_bytes}
use duckdb_wasm2go_poc.Duckdb.Driver.{done, panicked}
use duckdb_wasm2go_poc.Duckdb.Geometry.{FloatText}
use duckdb_wasm2go_poc.Wasi.Iovecs.{le_value}
use duckdb_wasm2go_poc.Duckdb.Variants.{read_string_t}
use duckdb_wasm2go_poc.Duckdb.Results.{
  ColumnMeta, json_cell, exact_int, timestamp_value, decode_number, decode, unix_cell,
}
use duckdb_wasm2go_poc.Duckdb.Results.Integers.{two_bytes, column_bytes, decode-column_bytes}
use duckdb_wasm2go_poc.Duckdb.Results.Strings.{varchar, decode-Stored}

abbrev floats : FloatText
floats = record { fixed_form = λ f. []; exp_form = λ f. []; atoi = λ s. pos 0 }

abbrev meta : ColumnMeta
meta = record {
  type_id = 0;
  is_json = true;
  width = 0;
  scale = 0;
  decimal_internal = 0;
  enum_internal = 0;
  dict = [];
}

decode-column_bytes_example :
    decode floats
      (record meta { type_id = 3 })
      4
      1
      (codes "head" ++ (column_bytes two_bytes (pos 7 ∷ negsuc 299 ∷ []) ++ codes "tail"))
    ≡ done (exact_int (negsuc 299))
unfolding le_bytes
decode-column_bytes_example =
    decode-column_bytes floats meta two_bytes true (pos 7 ∷ negsuc 299 ∷ []) 1 (negsuc 299)
      (codes "head") (codes "tail") refl (omega arith) (omega arith) (omega arith)

decode-Stored_example :
    decode floats
      (record meta { type_id = 17 })
      4
      1
      (codes "headabcdefghijklmnop" ++ (le_bytes 4 4 ++ (codes "null" ++ codes "\0\0\0\0\0\0\0\0")))
    ≡ done (json_cell (codes "null"))
unfolding le_bytes
decode-Stored_example =
    decode-Stored floats meta varchar 4 1
      (codes "headabcdefghijklmnop" ++ (le_bytes 4 4 ++ (codes "null" ++ codes "\0\0\0\0\0\0\0\0")))
      (codes "null")
      (inl (record {
        front = codes "headabcdefghijklmnop";
        rest = codes "\0\0\0\0\0\0\0\0";
        place = refl;
        holds = refl;
        short = omega arith;
      }))
      (omega arith)

-- a tick before the epoch, in microseconds
before_epoch : timestamp_value 1000000 (negsuc 0) ≡ unix_cell (pos 0) (negsuc 999)
unfolding timestamp_value
before_epoch = refl

-- A comment says that `decode` never panics; a text outside memory does.
text_outside_panics :
    decode floats (record meta { type_id = 17 }) 0 0 (codes "\0\0\0\u{1}") ≡ panicked
unfolding decode decode_number read_string_t le_value
text_outside_panics = refl
