-- ===== src/Duckdb/Values/Blobs.antt =====
-- The text of a blob, `blobLiteral` of converge/duckdb/exotic.go, is read back.
use duckdb_wasm2go_poc.Base.{
  ℕ, ◌+◌, ◌-◌, ◌*◌, ◌/◌, ◌%◌, ◌<◌, ◌≡◌, false, [], ◌∷◌, Option, none, some, leb, ◌==◌,
  if◌then◌else◌, Bytes, All, arith, refl, ap, Bool-cases, inl, inr,
}
use duckdb_wasm2go_poc.Duckdb.Values.{hex_upper, is_literal, blob_literal}

-- Where a reader of blob texts stands: between bytes, behind a backslash, or at a digit.
pub data BlobState : Type 0 where
  between behind_slash high_digit : BlobState
  low_digit : ℕ → BlobState

abbrev digit_value : ℕ → ℕ
digit_value c = if leb c b'9' then c - 48 else c - 55

abbrev add_byte : ℕ → Option Bytes → Option Bytes
add_byte c none = none
add_byte c (some s) = some (c ∷ s)

-- SQL reads `\xNN` as a byte, and any other character as itself.
unfoldable pub read_blob : BlobState → Bytes → Option Bytes
read_blob between [] = some []
read_blob _ [] = none
read_blob between (c ∷ cs) =
    let escape = read_blob behind_slash cs in
    let more = add_byte c (read_blob between cs) in if c == b'\\' then escape else more
read_blob behind_slash (c ∷ cs) =
    let digits = read_blob high_digit cs in if c == b'x' then digits else none
read_blob high_digit (c ∷ cs) = read_blob (low_digit (digit_value c)) cs
read_blob (low_digit h) (c ∷ cs) = add_byte (h * 16 + digit_value c) (read_blob between cs)

digit_value-hex_upper : (d : ℕ) → d < 16 → digit_value (hex_upper d) ≡ d
digit_value-hex_upper d h = ground arith

-- The text of a blob is read back as the blob, whatever bytes it has.
blob_literal_read_back :
    (bytes : Bytes) → All (λ c. c < 256) bytes → read_blob between (blob_literal bytes) ≡ some bytes
unfolding read_blob blob_literal
blob_literal_read_back [] h = refl
blob_literal_read_back (c ∷ cs) (hc, h) = elim (Bool-cases (is_literal c)) [
  | inl plain ↦
      let other : (c == b'\\') ≡ false = ground arith in
      rw plain (rw other (rw (blob_literal_read_back cs h) refl))
  | inr odd ↦
      let high = digit_value-hex_upper (c / 16) (omega arith) in
      let low = digit_value-hex_upper (c % 16) (omega arith) in
      rw odd (
        rw (blob_literal_read_back cs h)
          (rw high (rw low (ap (λ (k : ℕ). some (k ∷ cs)) (omega arith)))))
]
