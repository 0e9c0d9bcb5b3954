-- ===== src/Duckdb/Nested/Tests.antt =====
-- A text that holds both quotes and backslashes, and the witness for converge/duckdb/variant.go.
use duckdb_wasm2go_poc.Base.{◌≡◌, ◌++◌, some, refl}
use duckdb_wasm2go_poc.Base.Text.{codes}
use duckdb_wasm2go_poc.Duckdb.Nested.{quote_nested}
use duckdb_wasm2go_poc.Duckdb.Nested.Quoting.{read_nested, quote_nested_read_back}

quote_nested_read_back_example :
    read_nested (quote_nested (codes "it's a \\, {x}") ++ codes ", 5]")
    ≡ some (some (codes "it's a \\, {x}"), codes ", 5]")
quote_nested_read_back_example = quote_nested_read_back (codes "it's a \\, {x}") (codes ", 5]") refl
