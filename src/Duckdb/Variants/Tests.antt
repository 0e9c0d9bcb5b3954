-- ===== src/Duckdb/Variants/Tests.antt =====
-- A row with an array, and the witnesses for converge/duckdb/variant.go.
use duckdb_wasm2go_poc.Base.{◌≡◌, false, [], ◌∷◌, ◌++◌, Bytes, refl, arith}
use duckdb_wasm2go_poc.Base.Int.{pos}
use duckdb_wasm2go_poc.Base.Text.{codes, digits_fuel, itoa, join}
use duckdb_wasm2go_poc.Wasi.Iovecs.{le_value}
use duckdb_wasm2go_poc.Duckdb.Geometry.{FloatText}
use duckdb_wasm2go_poc.Duckdb.TypeDecode.Encode.{enc_varint}
use duckdb_wasm2go_poc.Duckdb.Driver.{done}
use duckdb_wasm2go_poc.Duckdb.Variants.Varints.{varint_bytes_read_back}
use duckdb_wasm2go_poc.Duckdb.Variants.{
  VariantDec, Texts, list_entry, read_string_t, le_bytes, uvarint_from, uvarint, varint_bytes,
}
use duckdb_wasm2go_poc.Duckdb.Variants.Render.{
  number_text, scalar_text, Row, child_index, container, render,
}
use duckdb_wasm2go_poc.Duckdb.Variants.Trees.{
  scalar, array, Tree, Payload, scalar_at, array_at, Holds, RowAt, render-tree,
}

-- The lists of a row start at 0: those of keys, children and values, then the payload, which says
-- that an array has two children from 0 on, and the numbers 5 and 7; the ids of types, the offsets
-- in the payload, and the children.
abbrev memory : Bytes
memory =
    (0 ∷ 0 ∷ 0 ∷ 0 ∷ 0 ∷ 0 ∷ 0 ∷ 0 ∷ 0 ∷ 0 ∷ 0 ∷ 0 ∷ 0 ∷ 0 ∷ 0 ∷ 0 ∷ [])
    ++ ((0 ∷ 0 ∷ 0 ∷ 0 ∷ 0 ∷ 0 ∷ 0 ∷ 0 ∷ 3 ∷ 0 ∷ 0 ∷ 0 ∷ 0 ∷ 0 ∷ 0 ∷ 0 ∷ [])
        ++ ((4 ∷ 0 ∷ 0 ∷ 0 ∷ 2 ∷ 0 ∷ 5 ∷ 7 ∷ 0 ∷ 0 ∷ 0 ∷ 0 ∷ 0 ∷ 0 ∷ 0 ∷ 0 ∷ [])
            ++ ((30 ∷ 3 ∷ 3 ∷ 0 ∷ 0 ∷ 0 ∷ 0 ∷ 0 ∷ 2 ∷ 0 ∷ 0 ∷ 0 ∷ 3 ∷ 0 ∷ 0 ∷ 0 ∷ [])
                ++ (1 ∷ 0 ∷ 0 ∷ 0 ∷ 2 ∷ 0 ∷ 0 ∷ 0 ∷ []))))

abbrev vectors : VariantDec
vectors = record {
  mem = memory;
  keys_data = 0;
  children_data = 0;
  values_data = 16;
  keys_entry_data = 0;
  keys_idx_data = 0;
  values_idx_data = 64;
  type_id_data = 48;
  byte_off_data = 52;
  blob_data = 32;
}

abbrev no_floats : FloatText
no_floats = record { exp_form = λ b. []; fixed_form = λ b. []; atoi = λ s. pos 0 }

abbrev texts : Texts
texts = record { calendar = λ days. (days, 1, 1); doubles = no_floats; floats = no_floats }

abbrev row : Row
row = record { k_off = 0; c_off = 0; v_off = 0; blob = 2 ∷ 0 ∷ 5 ∷ 7 ∷ [] }

abbrev numbers : Tree 2
numbers = array (scalar (codes "5") false ∷ scalar (codes "7") false ∷ [])

five-Payload : Payload vectors texts row 1 3 (5 ∷ 7 ∷ [])
unfolding child_index le_value
five-Payload = record { at = 2; type_id = refl; offset = refl; inside = refl; payload = refl }

seven-Payload : Payload vectors texts row 2 3 (7 ∷ [])
unfolding child_index le_value
seven-Payload = record { at = 3; type_id = refl; offset = refl; inside = refl; payload = refl }

root-Payload : Payload vectors texts row 0 30 (2 ∷ 0 ∷ 5 ∷ 7 ∷ [])
unfolding child_index le_value
root-Payload = record { at = 0; type_id = refl; offset = refl; inside = refl; payload = refl }

numbers-Holds : Holds vectors texts row 2 0 numbers
unfolding child_index le_value container uvarint uvarint_from scalar_text number_text le_bytes itoa
    digits_fuel
numbers-Holds =
    array_at (2 ∷ 0 ∷ 5 ∷ 7 ∷ []) 0 (scalar (codes "5") false ∷ scalar (codes "7") false ∷ [])
      root-Payload refl
      (
        (1, refl, scalar_at 3 (5 ∷ 7 ∷ []) (codes "5") false five-Payload refl refl refl),
        ((2, refl, scalar_at 3 (7 ∷ []) (codes "7") false seven-Payload refl refl refl), tt),
      )

row-RowAt : RowAt vectors texts row 0
unfolding list_entry read_string_t le_value
row-RowAt = record {
  keys_length = 0;
  children_length = 0;
  values_length = 3;
  keys = refl;
  children = refl;
  values = refl;
  not_empty = refl;
  blob = refl;
}

render-tree_example : render vectors texts 2 0 ≡ done (codes "[5, 7]")
unfolding join
render-tree_example =
    render-tree vectors texts row 2 2 0 numbers (omega arith) row-RowAt numbers-Holds

varint_bytes_read_back_example :
    varint_bytes (enc_varint 4 3 (codes "abc" ++ (9 ∷ []))) ≡ codes "abc"
varint_bytes_read_back_example = varint_bytes_read_back (codes "abc") (9 ∷ []) (omega arith)
