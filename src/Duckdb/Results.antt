-- ===== src/Duckdb/Results.antt =====
-- The cells of a result, converge/duckdb/result.go: `decode` reads a cell of the flat vector of a
-- column out of the engine's memory. Memory is a list of bytes, and an int32 is taken modulo 2 ^ 32.
mod Memory
pub mod Integers
pub mod Strings
mod Tests
use duckdb_wasm2go_poc.Base.{
  ℕ, zero, suc, ◌+◌, ◌-◌, ◌*◌, ◌/◌, ◌%◌, ◌^◌, Bool, true, false, ◌&&◌, List, [], ◌∷◌, Option, none,
  some, ltb, ◌==◌, if◌then◌else◌, Bytes,
}
use duckdb_wasm2go_poc.Base.Int.{ℤ, pos, negsuc}
use duckdb_wasm2go_poc.Base.Text.{codes}
use duckdb_wasm2go_poc.HostFs.Memory.{negative32}
use duckdb_wasm2go_poc.Wasi.State.{no_bytes}
use duckdb_wasm2go_poc.Duckdb.Driver.{Reply, done, panicked, exhausted}
use duckdb_wasm2go_poc.Duckdb.Geometry.{FloatText, geometry_string}
use duckdb_wasm2go_poc.Duckdb.Interrupt.{byte_at, read_u32}
use duckdb_wasm2go_poc.Duckdb.Timestamps.{time_tz_string, bit_string}
use duckdb_wasm2go_poc.Duckdb.TypeDecode.Decode.{type_blob_string}
use duckdb_wasm2go_poc.Duckdb.Values.{
  magnitude, is_negative, negated, int_text, bignum_string, uuid_from_words,
}
use duckdb_wasm2go_poc.Duckdb.Variants.{
  ◌>>=◌, or_panic, int32, read_u64, read_string_t, signed_word,
}

-- A `driver.Value`. The floats are the bits they are read from; `date_cell` is `epoch.AddDate` of so
-- many days, `unix_cell` is `time.Unix` of its arguments, and `clock_cell` is `epoch.Add` of so many
-- nanoseconds.
pub data Value : Type 0 where
  null_cell : Value
  bool_cell : Bool → Value
  int_cell date_cell clock_cell : ℤ → Value
  float32_cell float64_cell : ℕ → Value
  text_cell json_cell blob_cell : Bytes → Value
  unix_cell : ℤ → ℤ → Value
  interval_cell : ℤ → ℤ → ℤ → Value
  decimal_cell : ℕ → ℕ → ℤ → Value

-- What `rows` keeps of a column: `typeIDs`, `colJSON`, `decimalMeta` and `enumMeta`.
pub record ColumnMeta : Type 0 where
  pub type_id : ℕ
  pub is_json : Bool
  pub width : ℕ
  pub scale : ℕ
  pub decimal_internal : ℕ
  pub enum_internal : ℕ
  pub dict : List Bytes

-- the address of the cell `row` of cells of `n` bytes
abbrev pub cell_at : ℕ → ℕ → ℕ → ℕ
cell_at n data_ptr row = int32 (data_ptr + int32 (row * n))

-- `mem[at]`
abbrev pub read_byte : ℕ → Bytes → Reply ℕ
read_byte at mem = if negative32 at then panicked else or_panic (byte_at at mem)

-- `uint16` of `readU32`
abbrev pub read_u16 : ℕ → Bytes → Reply ℕ
read_u16 at mem = or_panic (read_u32 at mem) >>= (λ w. done (w % 2 ^ 16))

-- `big.Int`'s `IsInt64`
abbrev pub is_int64 : ℤ → Bool
is_int64 (pos n) = ltb n (2 ^ 63)
is_int64 (negsuc n) = ltb n (2 ^ 63)

-- an int64 where the number fits, and else its text
unfoldable pub exact_int : ℤ → Value
exact_int v = if is_int64 v then int_cell v else text_cell (int_text v)

-- `hugeintValue`
unfoldable pub hugeint_value : Bool → ℕ → Bytes → Reply ℤ
hugeint_value is_signed base mem = do
  lower ← or_panic (read_u64 base mem)
  upper ← or_panic (read_u64 (int32 (base + 8)) mem)
  let n = lower + 2 ^ 64 * upper
  done (if is_signed then signed_word (2 ^ 127) n else pos n)

abbrev decimal_of : ColumnMeta → ℤ → Value
decimal_of m v = decimal_cell m.width m.scale v

-- `decimalValue`
unfoldable pub decimal_value : ColumnMeta → ℕ → ℕ → Bytes → Reply Value
decimal_value m data_ptr row mem =
    let id = m.decimal_internal in
    if id == 3
    then read_u16 (cell_at 2 data_ptr row) mem
      >>= (λ w. done (decimal_of m (signed_word (2 ^ 15) w)))
    else if id == 4
    then or_panic (read_u32 (cell_at 4 data_ptr row) mem)
      >>= (λ w. done (decimal_of m (signed_word (2 ^ 31) w)))
    else if id == 5
    then or_panic (read_u64 (cell_at 8 data_ptr row) mem)
      >>= (λ w. done (decimal_of m (signed_word (2 ^ 63) w)))
    else if id == 16
    then hugeint_value true (cell_at 16 data_ptr row) mem >>= (λ v. done (decimal_of m v))
    else done null_cell

-- `info.dict[idx]`, nil out of range
abbrev dict_text : ℕ → List Bytes → Value
dict_text n [] = null_cell
dict_text zero (s ∷ dict) = text_cell s
dict_text (suc n) (s ∷ dict) = dict_text n dict

-- `value` of `enumInfo`
unfoldable pub enum_value : ColumnMeta → ℕ → ℕ → Bytes → Reply Value
enum_value m data_ptr row mem =
    let id = m.enum_internal in
    if id == 6
    then read_byte (cell_at 1 data_ptr row) mem >>= (λ n. done (dict_text n m.dict))
    else if id == 7
    then read_u16 (cell_at 2 data_ptr row) mem >>= (λ n. done (dict_text n m.dict))
    else if id == 8
    then or_panic (read_u32 (cell_at 4 data_ptr row) mem) >>= (λ n. done (dict_text n m.dict))
    else done null_cell

-- `timestampValue`, of so many ticks a second
unfoldable pub timestamp_value : ℕ → ℤ → Value
timestamp_value per_sec raw =
    let neg = is_negative raw in
    let n = magnitude raw in
    if n == 2 ^ 63 - 1
    then text_cell (if neg then codes "-infinity" else codes "infinity")
    else unix_cell (negated neg (n / per_sec)) (negated neg (n % per_sec * (1000000000 / per_sec)))

-- `dateValue`
unfoldable pub date_value : ℤ → Value
date_value days =
    if magnitude days == 2 ^ 31 - 1
    then text_cell (if is_negative days then codes "-infinity" else codes "infinity")
    else date_cell days

-- `readInterval`
unfoldable pub read_interval : ℕ → Bytes → Reply Value
read_interval base mem = do
  months ← or_panic (read_u32 base mem)
  days ← or_panic (read_u32 (int32 (base + 4)) mem)
  micros ← or_panic (read_u64 (int32 (base + 8)) mem)
  done (
      interval_cell (signed_word (2 ^ 31) months) (signed_word (2 ^ 31) days)
        (signed_word (2 ^ 63) micros))

abbrev type_cell : Option Bytes → Value
type_cell none = null_cell
type_cell (some s) = text_cell s

-- the case of `dtInvalid`, with `readTypeCell`, which recovers from a panic
unfoldable pub read_type_cell : Reply Bytes → Value
read_type_cell (done blob) = if no_bytes blob then null_cell else type_cell (type_blob_string blob)
read_type_cell panicked = null_cell
read_type_cell exhausted = null_cell

-- `uuidString`
unfoldable pub uuid_string : ℕ → Bytes → Reply Value
uuid_string base mem = do
  lower ← or_panic (read_u64 base mem)
  upper ← or_panic (read_u64 (int32 (base + 8)) mem)
  done (text_cell (uuid_from_words lower upper))

-- the numbers of `decode`; `other` are its other cases
unfoldable pub decode_number : ℕ → ℕ → ℕ → Bytes → Reply Value → Reply Value
decode_number tid data_ptr row mem other =
    if tid == 1
    then read_byte (cell_at 1 data_ptr row) mem
      >>= (λ b. done (bool_cell (if b == 0 then false else true)))
    else if tid == 2
    then read_byte (cell_at 1 data_ptr row) mem >>= (λ b. done (int_cell (signed_word (2 ^ 7) b)))
    else if tid == 3
    then read_u16 (cell_at 2 data_ptr row) mem >>= (λ w. done (int_cell (signed_word (2 ^ 15) w)))
    else if tid == 4
    then or_panic (read_u32 (cell_at 4 data_ptr row) mem)
      >>= (λ w. done (int_cell (signed_word (2 ^ 31) w)))
    else if tid == 5
    then or_panic (read_u64 (cell_at 8 data_ptr row) mem)
      >>= (λ w. done (int_cell (signed_word (2 ^ 63) w)))
    else if tid == 6
    then read_byte (cell_at 1 data_ptr row) mem >>= (λ b. done (int_cell (pos b)))
    else if tid == 7
    then read_u16 (cell_at 2 data_ptr row) mem >>= (λ w. done (int_cell (pos w)))
    else if tid == 8
    then or_panic (read_u32 (cell_at 4 data_ptr row) mem) >>= (λ w. done (int_cell (pos w)))
    else if tid == 9
    then or_panic (read_u64 (cell_at 8 data_ptr row) mem) >>= (λ w. done (exact_int (pos w)))
    else if tid == 16
    then hugeint_value true (cell_at 16 data_ptr row) mem >>= (λ v. done (exact_int v))
    else if tid == 32
    then hugeint_value false (cell_at 16 data_ptr row) mem >>= (λ v. done (exact_int v))
    else if tid == 10
    then or_panic (read_u32 (cell_at 4 data_ptr row) mem) >>= (λ w. done (float32_cell w))
    else if tid == 11
    then or_panic (read_u64 (cell_at 8 data_ptr row) mem) >>= (λ w. done (float64_cell w))
    else other

-- the dates and times of `decode`
unfoldable pub decode_time : ℕ → ℕ → ℕ → Bytes → Reply Value → Reply Value
decode_time tid data_ptr row mem other =
    let word = or_panic (read_u64 (cell_at 8 data_ptr row) mem) in
    let ticks =
      λ (per_sec : ℕ). word >>= (λ w. done (timestamp_value per_sec (signed_word (2 ^ 63) w))) in
    if tid == 13
    then or_panic (read_u32 (cell_at 4 data_ptr row) mem)
      >>= (λ w. done (date_value (signed_word (2 ^ 31) w)))
    else if tid == 12
    then ticks 1000000
    else if tid == 31
    then ticks 1000000
    else if tid == 20
    then ticks 1
    else if tid == 21
    then ticks 1000
    else if tid == 22
    then ticks 1000000000
    else if tid == 14
    then word >>= (λ w. done (clock_cell (signed_word (2 ^ 63) (w * 1000 % 2 ^ 64))))
    else if tid == 39
    then word >>= (λ w. done (clock_cell (signed_word (2 ^ 63) w)))
    else if tid == 30
    then word >>= (λ w. done (text_cell (time_tz_string w)))
    else if tid == 15
    then read_interval (cell_at 16 data_ptr row) mem
    else other

-- `decode`
unfoldable pub decode : FloatText → ColumnMeta → ℕ → ℕ → Bytes → Reply Value
decode ft m data_ptr row mem =
    let tid = m.type_id in
    let text = read_string_t (cell_at 16 data_ptr row) mem in
    decode_number tid data_ptr row mem (
      if tid == 17
      then text >>= (λ s. done (if m.is_json then json_cell s else text_cell s))
      else if tid == 0
      then done (read_type_cell text)
      else if tid == 23
      then enum_value m data_ptr row mem
      else if tid == 18
      then text >>= (λ b. done (blob_cell b))
      else decode_time tid data_ptr row mem (
          if tid == 29
          then text >>= (λ b. done (text_cell (bit_string b)))
          else if tid == 19
          then decimal_value m data_ptr row mem
          else if tid == 27
          then uuid_string (cell_at 16 data_ptr row) mem
          else if tid == 35
          then text >>= (λ b. done (text_cell (bignum_string b)))
          else if tid == 40
          then text >>= (λ b. done (text_cell (geometry_string ft b)))
          else done null_cell))
