-- ===== src/Duckdb/TypeDecode/Tests.antt =====
-- Blobs that the decoder of converge/duckdb/typedecode.go reads, and the witnesses.
use duckdb_wasm2go_poc.Base.{Bool, Bytes, ◌≡◌, ◌≢◌, [], ◌∷◌, ◌++◌, some, none, refl, arith}
use duckdb_wasm2go_poc.Base.Text.{codes, join, itoa, text_eq}
use duckdb_wasm2go_poc.Duckdb.TypeDecode.Reader.{
  exhausted, expect_field, varint, peek_u16, object_end,
}
use duckdb_wasm2go_poc.Duckdb.TypeDecode.Types.{
  type_text, sql_identifier, unnamed, is_plain, double_quotes,
}
use duckdb_wasm2go_poc.Duckdb.TypeDecode.Decode.{read_logical_type, start, type_blob_string}
use duckdb_wasm2go_poc.Duckdb.TypeDecode.Encode.{
  LogicalType, plain, with_info, decimal, list, struct, array, end, field, to_ptr,
}
use duckdb_wasm2go_poc.Duckdb.TypeDecode.Fuel.{read_logical_type_ends}
use duckdb_wasm2go_poc.Duckdb.TypeDecode.Quoting.{read_identifier, sql_identifier_read_back}

-- STRUCT(a INTEGER, "b c" DECIMAL(18,3)[2])[]
abbrev nested : LogicalType
nested = with_info 101 [] (
    list (
      with_info 100 [] (
        struct (
          field (codes "a") (plain 13) (
            field (codes "b c") (with_info 108 [] (array (with_info 21 [] (decimal 18 3)) 2))
              end)))))

nested_text : type_text (to_ptr nested) ≡ codes "STRUCT(a INTEGER, \"b c\" DECIMAL(18,3)[2])[]"
unfolding type_text to_ptr join unnamed sql_identifier is_plain double_quotes itoa
nested_text = refl

truncated_blob : type_blob_string (100 ∷ 0 ∷ 13 ∷ []) ≡ none
unfolding type_blob_string expect_field varint peek_u16 object_end
truncated_blob = refl

read_logical_type_ends_example :
    read_logical_type 6 (start (100 ∷ 0 ∷ 101 ∷ 255 ∷ 255 ∷ [])) ≢ exhausted
read_logical_type_ends_example =
    read_logical_type_ends 6 (start (100 ∷ 0 ∷ 101 ∷ 255 ∷ 255 ∷ [])) (omega arith)

-- `select` is a keyword, which the name is not
abbrev is_select : Bytes → Bool
is_select s = text_eq s (codes "select")

sql_identifier_read_back_example :
    read_identifier is_select (sql_identifier (codes "selected_1") ++ codes " INTEGER")
    ≡ some (codes "selected_1", codes " INTEGER")
sql_identifier_read_back_example =
    sql_identifier_read_back is_select (codes "selected_1") (codes "INTEGER") (λ _. refl)
