-- ===== src/Duckdb/Values.antt =====
-- Values as text: converge/duckdb/decimal.go, and the bignums, uuids and blobs of
-- converge/duckdb/exotic.go. A big.Int is an integer; bytes are numbers below 256, uint64 and int64
-- words are bit patterns below 2 ^ 64.
pub mod Digits
pub mod Decimals
pub mod Bignums
pub mod Uuids
pub mod Blobs
mod Tests
use duckdb_wasm2go_poc.Base.{
  ℕ, zero, suc, ◌+◌, ◌-◌, ◌*◌, ◌/◌, ◌%◌, ◌^◌, Bool, true, false, not, ◌&&◌, List, [], ◌∷◌, ◌++◌,
  Option, none, some, ltb, leb, ◌==◌, if◌then◌else◌, Bytes, length, take, drop, map,
}
use duckdb_wasm2go_poc.Base.Int.{ℤ, pos, negsuc, pos_part, neg_part}
use duckdb_wasm2go_poc.Base.Text.{codes, itoa}

-- the magnitude of an integer, and whether it is negative
abbrev pub magnitude : ℤ → ℕ
magnitude (pos n) = n
magnitude (negsuc n) = suc n

abbrev pub is_negative : ℤ → Bool
is_negative (pos n) = false
is_negative (negsuc n) = true

abbrev pub signed : Bool → Bytes → Bytes
signed true text = b'-' ∷ text
signed false text = text

-- `(*big.Int).String`
abbrev pub int_text : ℤ → Bytes
int_text v = signed (is_negative v) (itoa (magnitude v))

-- `digits = "0" + digits`, so many times
unfoldable pub pad_zeros : ℕ → Bytes → Bytes
pad_zeros zero digits = digits
pad_zeros (suc k) digits = b'0' ∷ pad_zeros k digits

-- the digits, padded until they are more than the scale
unfoldable pub padded : ℕ → ℕ → Bytes
unfolding pad_zeros
padded scale n = let digits = itoa n in pad_zeros (suc scale - length digits) digits

-- `String` of a `Decimal`: the value is none for a nil pointer
unfoldable pub decimal_string : ℕ → Option ℤ → Bytes
unfolding padded
decimal_string scale none = codes "0"
decimal_string zero (some v) = int_text v
decimal_string (suc s) (some v) =
    let digits = padded (suc s) (magnitude v) in
    let cut = length digits - suc s in
    signed (is_negative v) (take cut digits ++ (b'.' ∷ drop cut digits))

-- a number from bytes, highest first
unfoldable pub big_endian : ℕ → Bytes → ℕ
big_endian acc [] = acc
big_endian acc (c ∷ cs) = big_endian (acc * 256 + c) cs

abbrev pub complement : ℕ → ℕ
complement c = 255 - c

-- the sign and the magnitude of a `v` that may be negated
abbrev pub negated : Bool → ℕ → ℤ
negated false n = pos n
negated true zero = pos 0
negated true (suc n) = negsuc n

-- `bignumString`
unfoldable pub bignum_string : Bytes → Bytes
unfolding big_endian
bignum_string (c0 ∷ c1 ∷ c2 ∷ d ∷ data_bytes) =
    let negative = ltb c0 128 in
    let mag = if negative then map complement (d ∷ data_bytes) else d ∷ data_bytes in
    int_text (negated negative (big_endian 0 mag))
bignum_string _ = codes "0"

-- a lower-case hexadecimal digit
abbrev pub hex_lower : ℕ → ℕ
hex_lower d = if ltb d 10 then 48 + d else 87 + d

-- `put` of `uuidFromWords`: the low `n` bytes of a word
unfoldable pub put_bytes : ℕ → ℕ → Bytes → Bytes
put_bytes v zero rest = rest
put_bytes v (suc i) rest =
    let by = (v / 2 ^ (8 * i)) % 256 in
    hex_lower (by / 16) ∷ hex_lower (by % 16) ∷ put_bytes v i rest

-- `uuidFromWords`
unfoldable pub uuid_from_words : ℕ → ℕ → Bytes
unfolding put_bytes
uuid_from_words lower upper_raw =
    let upper = (upper_raw + 2 ^ 63) % 2 ^ 64 in
    put_bytes (upper / 2 ^ 32) 4 (
      b'-'
      ∷ put_bytes (upper / 2 ^ 16) 2 (
          b'-'
          ∷ put_bytes upper 2 (b'-' ∷ put_bytes (lower / 2 ^ 48) 2 (b'-' ∷ put_bytes lower 6 []))))

-- an upper-case hexadecimal digit
abbrev pub hex_upper : ℕ → ℕ
hex_upper d = if ltb d 10 then 48 + d else 55 + d

-- printable, and neither a backslash nor a quote
abbrev pub is_literal : ℕ → Bool
is_literal c = leb 32 c && leb c 126 && not (c == b'\\') && not (c == b'\'') && not (c == b'"')

-- `blobLiteral`
unfoldable pub blob_literal : Bytes → Bytes
blob_literal [] = []
blob_literal (c ∷ cs) =
    let rest = blob_literal cs in
    if is_literal c then c ∷ rest else b'\\' ∷ b'x' ∷ hex_upper (c / 16) ∷ hex_upper (c % 16) ∷ rest
