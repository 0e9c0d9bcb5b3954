-- ===== src/Duckdb/Values/Decimals.antt =====
-- The text of a decimal, `String` of converge/duckdb/decimal.go, is exact.
use mathlib.Core.List.{append-nil}
use duckdb_wasm2go_poc.Base.{
  ℕ, zero, suc, ◌+◌, ◌-◌, ◌/◌, ◌%◌, ◌<◌, ◌≡◌, [], ◌∷◌, ◌++◌, some, Bytes, All, length,
  length-append, length-take, Bool-cases, inl, inr, ltb, take, drop, arith, refl, ap, sym, ◌∙◌,
}
use duckdb_wasm2go_poc.Base.Int.{ℤ}
use duckdb_wasm2go_poc.Base.Text.{digits_fuel, itoa}
use duckdb_wasm2go_poc.Duckdb.Values.{magnitude, is_negative, signed, padded, decimal_string}
use duckdb_wasm2go_poc.Duckdb.Values.Digits.{
  read_number, IsDigit, itoa-IsDigit, read_number-itoa, pad_zeros-IsDigit, read_number-pad_zeros,
  length-pad_zeros, take-drop, length-drop, take-IsDigit,
}

-- what stands behind the digits of the whole part: a point, where the scale is not 0
abbrev pub behind_whole : ℕ → Bytes → Bytes
behind_whole zero fraction = fraction
behind_whole (suc s) fraction = b'.' ∷ fraction

padded-IsDigit : (s n : ℕ) → All IsDigit (padded s n)
unfolding padded
padded-IsDigit s n = pad_zeros-IsDigit (suc s - length (itoa n)) (itoa n) (itoa-IsDigit n)

read_number-padded : (s n : ℕ) → read_number 0 (padded s n) ≡ n
unfolding padded
read_number-padded s n =
    read_number-pad_zeros (suc s - length (itoa n)) (itoa n) ∙ read_number-itoa n

length-padded : (s n : ℕ) → s < length (padded s n)
unfolding padded
length-padded s n = omega (arith, length-pad_zeros (suc s - length (itoa n)) (itoa n))

drop-IsDigit : (n : ℕ) (xs : Bytes) → All IsDigit xs → All IsDigit (drop n xs)
drop-IsDigit zero xs h = h
drop-IsDigit (suc n) [] h = tt
drop-IsDigit (suc n) (x ∷ xs) (d, h) = drop-IsDigit n xs h

itoa-length : (n : ℕ) → 0 < length (itoa n)
unfolding itoa digits_fuel
itoa-length n = elim (Bool-cases (ltb n 10)) [
  | inl last ↦ rw last (omega arith)
  | inr more ↦ rw more (omega (arith, length-append (digits_fuel n (n / 10)) ((48 + n % 10) ∷ [])))
]

-- The text of a decimal is its sign, one decimal digit or more, and, unless its scale is 0, a point
-- with as many decimal digits behind it as its scale; together the digits write its magnitude.
pub decimal_string_exact :
    (scale : ℕ) (v : ℤ)
    → (whole fraction : Bytes) × (decimal_string scale (some v)
        ≡ signed (is_negative v) (whole ++ behind_whole scale fraction))
      × (0 < length whole)
      × (length fraction ≡ scale)
      × All IsDigit whole
      × All IsDigit fraction
      × (read_number 0 (whole ++ fraction) ≡ magnitude v)
unfolding decimal_string
decimal_string_exact zero v =
    let digits = itoa (magnitude v) in
    (
      digits,
      [],
      ap (signed (is_negative v)) (sym (append-nil digits)),
      itoa-length (magnitude v),
      refl,
      itoa-IsDigit (magnitude v),
      tt,
      ap (read_number 0) (append-nil digits) ∙ read_number-itoa (magnitude v),
    )
decimal_string_exact (suc s) v =
    let digits = padded (suc s) (magnitude v) in
    let cut = length digits - suc s in
    let long = length-padded (suc s) (magnitude v) in
    let all = padded-IsDigit (suc s) (magnitude v) in
    (
      take cut digits,
      drop cut digits,
      refl,
      omega (arith, length-take cut digits (omega arith), long),
      length-drop cut digits ∙ omega (arith, long),
      take-IsDigit cut digits all,
      drop-IsDigit cut digits all,
      ap (read_number 0) (take-drop cut digits) ∙ read_number-padded (suc s) (magnitude v),
    )
