-- ===== src/Duckdb/Variants.antt =====
-- The decoder of variants, converge/duckdb/variant.go: a row's tree of values, which the engine keeps
-- in the vectors of a chunk, as text. Memory is a list of bytes, and an int32 is taken modulo 2 ^ 32.
pub mod Render
pub mod Trees
pub mod Varints
mod Tests
use duckdb_wasm2go_poc.Base.{
  ℕ, zero, suc, ◌+◌, ◌-◌, ◌*◌, ◌/◌, ◌%◌, ◌^◌, Bool, true, false, ◌&&◌, ◌||◌, List, [], ◌∷◌, ◌++◌,
  Option, none, some, ltb, leb, ◌==◌, if◌then◌else◌, Bytes, length, take, drop,
}
use duckdb_wasm2go_poc.Base.Int.{ℤ, pos, negsuc}
use duckdb_wasm2go_poc.Base.Text.{codes, itoa, join}
use duckdb_wasm2go_poc.HostFs.Memory.{negative32}
use duckdb_wasm2go_poc.Wasi.Iovecs.{le_value}
use duckdb_wasm2go_poc.Duckdb.Interrupt.{byte_at, read_u32}
use duckdb_wasm2go_poc.Duckdb.Values.{
  int_text, decimal_string, bignum_string, uuid_from_words, blob_literal,
}
use duckdb_wasm2go_poc.Duckdb.Times.{time_string_micros, interval_string}
use duckdb_wasm2go_poc.Duckdb.Timestamps.{
  date_string, time_string_nanos, timestamp_string, time_tz_string, bit_string,
}
use duckdb_wasm2go_poc.Duckdb.Geometry.{
  FloatText, contains, behind_e, is_fixed, format_double, geometry_string,
}
use duckdb_wasm2go_poc.Duckdb.Nested.{quote_nested}
use duckdb_wasm2go_poc.Duckdb.Driver.{Reply, done, panicked, exhausted}

-- `variantDec`
pub record VariantDec : Type 0 where
  pub mem : Bytes
  pub keys_data : ℕ
  pub children_data : ℕ
  pub values_data : ℕ
  pub keys_entry_data : ℕ
  pub keys_idx_data : ℕ
  pub values_idx_data : ℕ
  pub type_id_data : ℕ
  pub byte_off_data : ℕ
  pub blob_data : ℕ

-- Package time's calendar, and the texts of float64 and of float32 by strconv.
pub record Texts : Type 0 where
  pub calendar : ℤ → ℤ × ℕ × ℕ
  pub doubles : FloatText
  pub floats : FloatText

infixl 5 ◌>>=◌
abbrev pub ◌>>=◌ : {A B : Type 0} → Reply A → (A → Reply B) → Reply B
◌>>=◌ (done a) f = f a
◌>>=◌ panicked f = panicked
◌>>=◌ exhausted f = exhausted

-- none is a Go panic
abbrev pub or_panic : {A : Type 0} → Option A → Reply A
or_panic (some a) = done a
or_panic none = panicked

abbrev pub int32 : ℕ → ℕ
int32 n = n % 2 ^ 32

-- `readU64`
abbrev pub read_u64 : ℕ → Bytes → Option ℕ
read_u64 at mem =
    if negative32 at || ltb (length mem) (at + 8) then none else some (le_value 8 (drop at mem))

-- the offset of `listEntry`, and its length
unfoldable pub list_entry : VariantDec → ℕ → ℕ → Reply (ℕ × ℕ)
list_entry d data_ptr row = do
  let base = int32 (data_ptr + int32 (row * 16))
  off ← or_panic (read_u64 base d.mem)
  len ← or_panic (read_u64 (int32 (base + 8)) d.mem)
  done (off, len)

-- the bytes from one address to another
abbrev pub slice_at : ℕ → ℕ → Bytes → Option Bytes
slice_at at n mem =
    if negative32 at || negative32 (int32 (at + n)) || ltb (length mem) (at + n)
    then none
    else some (take n (drop at mem))

-- `readStringT`
unfoldable pub read_string_t : ℕ → Bytes → Reply Bytes
read_string_t ptr mem = do
  n ← or_panic (read_u32 ptr mem)
  at ← (if leb n 12 then done (int32 (ptr + 4)) else or_panic (read_u32 (int32 (ptr + 8)) mem))
  or_panic (slice_at at n mem)

-- `leU8` to `leU64`: 0 where the bytes run out
unfoldable pub le_bytes : ℕ → Bytes → ℕ
le_bytes n p = if ltb (length p) n then 0 else le_value n p

-- `p[n:]`
abbrev pub behind : ℕ → Bytes → Option Bytes
behind n p = if ltb (length p) n then none else some (drop n p)

-- a word of `bits` bits as an integer, of which half is `half`
abbrev pub signed_word : ℕ → ℕ → ℤ
signed_word half n = if ltb n half then pos n else negsuc (half + half - n - 1)

-- `bigFrom128`
unfoldable pub big_from_128 : Bytes → Bool → Option ℤ
big_from_128 p is_signed = elim (behind 8 p) [
  | none ↦ none
  | some upper ↦
      let n = le_bytes 8 p + 2 ^ 64 * le_bytes 8 upper in
      some (if is_signed then signed_word (2 ^ 127) n else pos n)
]

-- The loop of `uvarint`: the value and how many bytes it took. `v` holds the groups below bit `shift`,
-- so that the or of the source adds; where the loop breaks, all bytes count as taken.
unfoldable pub uvarint_from : ℕ → ℕ → ℕ → ℕ → Bytes → ℕ × ℕ
uvarint_from total i shift v [] = (v, total)
uvarint_from total i shift v (b ∷ bs) =
    let v' = v + (b % 128 * 2 ^ shift) % 2 ^ 32 in
    let rest = uvarint_from total (i + 1) (shift + 7) v' bs in
    if b / 128 % 2 == 0 then (v', i + 1) else if ltb 32 (shift + 7) then (v', total) else rest

-- `uvarint`
unfoldable pub uvarint : Bytes → ℕ × ℕ
unfolding uvarint_from
uvarint p = uvarint_from (length p) 0 0 0 p

-- `varintBytes`
unfoldable pub varint_bytes : Bytes → Bytes
varint_bytes p = let (n, off) = uvarint p in take n (drop off p)

-- `formatFloatDuckDB`, on the bits of a float32
unfoldable pub format_float : FloatText → ℕ → Bytes
format_float ft bits =
    let e = ft.exp_form bits in
    let f = ft.fixed_form bits in
    if ltb 2139095040 (bits % 2 ^ 31)
    then codes "nan"
    else if bits == 2139095040
    then codes "inf"
    else if bits == 4286578688
    then codes "-inf"
    else if is_fixed (ft.atoi (behind_e e))
    then if contains b'.' f then f else f ++ codes ".0"
    else e

-- the unscaled value of a decimal, by its width
unfoldable pub unscaled : ℕ → Bytes → Option ℤ
unscaled width v =
    if ltb 18 width
    then big_from_128 v true
    else if ltb 9 width
    then some (signed_word (2 ^ 63) (le_bytes 8 v))
    else if ltb 4 width
    then some (signed_word (2 ^ 31) (le_bytes 4 v))
    else some (signed_word (2 ^ 15) (le_bytes 2 v))

-- the case of decimals
unfoldable pub decimal_text : Bytes → Option Bytes
decimal_text p =
    let (width, n1) = uvarint p in
    let (scale, n2) = uvarint (drop n1 p) in
    elim (unscaled width (drop (n1 + n2) p)) [
      | none ↦ none
      | some v ↦ some (decimal_string (scale % 256) (some v))
    ]

abbrev pub big_text : Option ℤ → Option Bytes
big_text none = none
big_text (some v) = some (int_text v)

-- the case of intervals
unfoldable pub interval_text : Bytes → Option Bytes
interval_text p =
    if ltb (length p) 8
    then none
    else some (
        interval_string (signed_word (2 ^ 31) (le_bytes 4 p))
          (signed_word (2 ^ 31) (le_bytes 4 (drop 4 p)))
          (signed_word (2 ^ 63) (le_bytes 8 (drop 8 p))))

-- the case of uuids
unfoldable pub uuid_text : Bytes → Option Bytes
uuid_text p =
    if ltb (length p) 8 then none else some (uuid_from_words (le_bytes 8 p) (le_bytes 8 (drop 8 p)))
