-- ===== src/Duckdb/Variants/Render.antt =====
-- `renderValue` and `render` of converge/duckdb/variant.go. The recursion has fuel: the tree of a row
-- may hold itself, and then the code does not return. Times of day are not negative.
use duckdb_wasm2go_poc.Base.{
  ℕ, zero, suc, ◌+◌, ◌*◌, ◌^◌, Bool, true, false, List, [], ◌∷◌, ◌++◌, Option, none, some, ltb,
  ◌==◌, if◌then◌else◌, Bytes, length, drop,
}
use duckdb_wasm2go_poc.Base.Text.{codes, itoa, join}
use duckdb_wasm2go_poc.HostFs.Memory.{negative32}
use duckdb_wasm2go_poc.Duckdb.Interrupt.{byte_at, read_u32}
use duckdb_wasm2go_poc.Duckdb.Values.{int_text, bignum_string, blob_literal}
use duckdb_wasm2go_poc.Duckdb.Times.{time_string_micros}
use duckdb_wasm2go_poc.Duckdb.Timestamps.{
  date_string, time_string_nanos, timestamp_string, time_tz_string, bit_string,
}
use duckdb_wasm2go_poc.Duckdb.Geometry.{format_double, geometry_string}
use duckdb_wasm2go_poc.Duckdb.Nested.{quote_nested}
use duckdb_wasm2go_poc.Duckdb.Driver.{Reply, done, exhausted}
use duckdb_wasm2go_poc.Duckdb.Variants.{
  VariantDec, Texts, ◌>>=◌, or_panic, int32, list_entry, read_string_t, le_bytes, signed_word,
  big_from_128, uvarint, varint_bytes, format_float, decimal_text, big_text, interval_text,
  uuid_text,
}

-- `mem()[at]`, at an int32
abbrev pub byte_in : ℕ → Bytes → Option ℕ
byte_in at mem = if negative32 at then none else byte_at at mem

abbrev pub small_int : ℕ → ℕ → Bytes → Option Bytes
small_int n half p = some (int_text (signed_word half (le_bytes n p)))

-- the cases of integers and of floats, by their type ids; none where the id is another one
unfoldable pub number_text : Texts → ℕ → Bytes → Option (Option Bytes)
number_text texts tid p =
    if tid == 3
    then some (small_int 1 (2 ^ 7) p)
    else if tid == 4
    then some (small_int 2 (2 ^ 15) p)
    else if tid == 5
    then some (small_int 4 (2 ^ 31) p)
    else if tid == 6
    then some (small_int 8 (2 ^ 63) p)
    else if tid == 7
    then some (big_text (big_from_128 p true))
    else if tid == 8
    then some (some (itoa (le_bytes 1 p)))
    else if tid == 9
    then some (some (itoa (le_bytes 2 p)))
    else if tid == 10
    then some (some (itoa (le_bytes 4 p)))
    else if tid == 11
    then some (some (itoa (le_bytes 8 p)))
    else if tid == 12
    then some (big_text (big_from_128 p false))
    else if tid == 13
    then some (some (format_float texts.floats (le_bytes 4 p)))
    else if tid == 14
    then some (some (format_double texts.doubles (le_bytes 8 p)))
    else if tid == 15
    then some (decimal_text p)
    else none

-- `timestampString` of a variant's ticks
abbrev pub stamp : Texts → ℕ → Bool → Bytes → Bytes → Option Bytes
stamp texts per_sec is_nanos suffix p =
    some (
      timestamp_string texts.calendar per_sec is_nanos suffix (signed_word (2 ^ 63) (le_bytes 8 p)))

-- the cases of times
unfoldable pub time_text : Texts → ℕ → Bytes → Option (Option Bytes)
time_text texts tid p =
    if tid == 19
    then some (some (date_string texts.calendar (signed_word (2 ^ 31) (le_bytes 4 p))))
    else if tid == 20
    then some (some (time_string_micros (le_bytes 8 p)))
    else if tid == 21
    then some (some (time_string_nanos (le_bytes 8 p)))
    else if tid == 22
    then some (stamp texts 1 false [] p)
    else if tid == 23
    then some (stamp texts 1000 false [] p)
    else if tid == 24
    then some (stamp texts 1000000 false [] p)
    else if tid == 25
    then some (stamp texts 1000000000 true [] p)
    else if tid == 26
    then some (some (time_tz_string (le_bytes 8 p)))
    else if tid == 27
    then some (stamp texts 1000000 false (codes "+00") p)
    else if tid == 28
    then some (interval_text p)
    else none

-- the cases of byte runs
unfoldable pub run_text : Texts → ℕ → Bytes → Option (Option Bytes)
run_text texts tid p =
    if tid == 16
    then some (some (varint_bytes p))
    else if tid == 17
    then some (some (blob_literal (varint_bytes p)))
    else if tid == 18
    then some (uuid_text p)
    else if tid == 31
    then some (some (bignum_string (varint_bytes p)))
    else if tid == 32
    then some (some (bit_string (varint_bytes p)))
    else if tid == 33
    then some (some (geometry_string texts.doubles (varint_bytes p)))
    else none

abbrev pub or_else : {A : Type 0} → Option A → Option A → Option A
or_else (some a) b = some a
or_else none b = b

-- the text of a scalar, with whether it is raw; unknown ids are NULL
unfoldable pub scalar_text : Texts → ℕ → Bytes → Option (Bytes × Bool)
scalar_text texts tid p =
    if tid == 1
    then some (codes "true", false)
    else if tid == 2
    then some (codes "false", false)
    else elim (or_else (number_text texts tid p)
        (or_else (time_text texts tid p) (run_text texts tid p))) [
          | some (some t) ↦ some (t, false)
          | some none ↦ none
          | none ↦ some (codes "NULL", true)
        ]

-- the offsets of a row, and its payload
pub record Row : Type 0 where
  pub k_off : ℕ
  pub c_off : ℕ
  pub v_off : ℕ
  pub blob : Bytes

-- an index that the engine stores for a child
unfoldable pub child_index : VariantDec → ℕ → ℕ → Reply ℕ
child_index d data_ptr at = or_panic (read_u32 (int32 (data_ptr + int32 (4 * at))) d.mem)

-- an item of an array: its text, raw
unfoldable pub array_item : VariantDec → (ℕ → Reply (Bytes × Bool)) → ℕ → Reply Bytes
array_item d rec at = do v ← child_index d d.values_idx_data at; item ← rec v; done item.0

-- a field of an object: its key, and its text, quoted unless it is raw
unfoldable pub object_field : VariantDec → Row → (ℕ → Reply (Bytes × Bool)) → ℕ → Reply Bytes
object_field d row rec at = do
  k ← child_index d d.keys_idx_data at
  v ← child_index d d.values_idx_data at
  key ← read_string_t (int32 (d.keys_entry_data + int32 (16 * (row.k_off + k)))) d.mem
  value ← rec v
  let text = if value.1 then value.0 else quote_nested value.0
  done (b'\'' ∷ (key ++ (codes "': " ++ text)))

-- the loops over the children
unfoldable pub children : (ℕ → Reply Bytes) → ℕ → ℕ → Reply (List Bytes)
children child zero at = done []
children child (suc n) at = do t ← child at; rest ← children child n (at + 1); done (t ∷ rest)

-- the count of a container and the place of its first child
unfoldable pub container : Row → Bytes → ℕ × ℕ
container row p = let (count, n) = uvarint p in (count, row.c_off + (uvarint (drop n p)).0)

unfoldable pub array_text :
    VariantDec → Row → (ℕ → Reply (Bytes × Bool)) → Bytes → Reply (Bytes × Bool)
array_text d row rec p =
    let (count, first) = container row p in
    let items =
      children (array_item d rec) count first
      >>= (λ parts. done (b'[' ∷ (join (codes ", ") parts ++ codes "]"), true)) in
    if count == 0 then done (codes "[]", true) else items

unfoldable pub object_text :
    VariantDec → Row → (ℕ → Reply (Bytes × Bool)) → Bytes → Reply (Bytes × Bool)
object_text d row rec p =
    let (count, first) = container row p in
    let fields =
      children (object_field d row rec) count first
      >>= (λ parts. done (b'{' ∷ (join (codes ", ") parts ++ codes "}"), true)) in
    if count == 0 then done (codes "{}", true) else fields

-- the switch of `renderValue`
unfoldable pub render_payload :
    VariantDec → Texts → Row → (ℕ → Reply (Bytes × Bool)) → ℕ → Bytes → Reply (Bytes × Bool)
render_payload d texts row rec tid p =
    if tid == 29
    then object_text d row rec p
    else if tid == 30
    then array_text d row rec p
    else or_panic (scalar_text texts tid p)

-- `renderValue`
unfoldable pub render_value : VariantDec → Texts → ℕ → Row → ℕ → Reply (Bytes × Bool)
render_value d texts zero row idx = exhausted
render_value d texts (suc f) row idx = do
  tid ← or_panic (byte_in (int32 (d.type_id_data + int32 (row.v_off + idx))) d.mem)
  off ← child_index d d.byte_off_data (row.v_off + idx)
  if ltb (length row.blob) off
      then done (codes "NULL", true)
      else render_payload d texts row (render_value d texts f row) tid (drop off row.blob)

-- `render`
unfoldable pub render : VariantDec → Texts → ℕ → ℕ → Reply Bytes
render d texts fuel row = do
  k ← list_entry d d.keys_data row
  c ← list_entry d d.children_data row
  v ← list_entry d d.values_data row
  if v.1 == 0 then done (codes "NULL") else (do
    blob ← read_string_t (int32 (d.blob_data + int32 (row * 16))) d.mem
    r ← render_value d texts fuel (record { k_off = k.0; c_off = c.0; v_off = v.0; blob = blob }) 0
    done r.0)
