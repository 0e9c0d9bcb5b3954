-- ===== src/Duckdb/Values/Digits.antt =====
-- Decimal digits, as strconv writes them, are read back as the number.
use duckdb_wasm2go_poc.Base.{
  ℕ, zero, suc, ◌+◌, ◌-◌, ◌*◌, ◌/◌, ◌%◌, ◌<◌, ◌≤◌, ◌≡◌, true, false, [], ◌∷◌, ◌++◌, ltb, ◌==◌,
  if◌then◌else◌, Bytes, All, length, take, drop, arith, refl, ap, ◌∙◌, Bool-cases, inl, inr,
}
use duckdb_wasm2go_poc.Base.Text.{digits_fuel, itoa}
use duckdb_wasm2go_poc.Duckdb.Values.{pad_zeros}

-- The number that digits write, a point skipped.
unfoldable pub read_number : ℕ → Bytes → ℕ
read_number acc [] = acc
read_number acc (c ∷ cs) =
    let skipped = read_number acc cs in
    let more = read_number (acc * 10 + (c - 48)) cs in if c == b'.' then skipped else more

abbrev pub IsDigit : ℕ → Type 0
IsDigit c = (48 ≤ c) × (c ≤ 57)

All-append : (xs ys : Bytes) → All IsDigit xs → All IsDigit ys → All IsDigit (xs ++ ys)
All-append [] ys hx hy = hy
All-append (x ∷ xs) ys (h, hx) hy = (h, All-append xs ys hx hy)

pub read_number-append :
    (xs ys : Bytes) (acc : ℕ) → read_number acc (xs ++ ys) ≡ read_number (read_number acc xs) ys
unfolding read_number
read_number-append [] ys acc = refl
read_number-append (c ∷ cs) ys acc = elim (Bool-cases (c == b'.')) [
  | inl point ↦ rw point (read_number-append cs ys acc)
  | inr digit ↦ rw digit (read_number-append cs ys (acc * 10 + (c - 48)))
]

digits_fuel-IsDigit : (f n : ℕ) → All IsDigit (digits_fuel f n)
unfolding digits_fuel
digits_fuel-IsDigit zero n = tt
digits_fuel-IsDigit (suc f) n = elim (Bool-cases (ltb n 10)) [
  | inl last ↦ rw last ((omega arith, ground arith), tt)
  | inr more ↦
      rw more (All-append _ _ (digits_fuel-IsDigit f (n / 10)) ((omega arith, omega arith), tt))
]

-- the last digit, behind the others
read_last : (high d : ℕ) → d < 10 → read_number high ((48 + d) ∷ []) ≡ high * 10 + d
unfolding read_number
read_last high d h = let point : (48 + d == b'.') ≡ false = ground arith in rw point (omega arith)

read_number-digits_fuel : (f n : ℕ) → n < suc f → read_number 0 (digits_fuel (suc f) n) ≡ n
unfolding digits_fuel
read_number-digits_fuel zero n h =
    let last : ltb n 10 ≡ true = ground arith in rw last (read_last 0 n (omega arith) ∙ omega arith)
read_number-digits_fuel (suc g) n h = elim (Bool-cases (ltb n 10)) [
  | inl last ↦ rw last (read_last 0 n (ground arith) ∙ omega arith)
  | inr more ↦
      let big : 10 ≤ n = ground arith in
      rw more (
        read_number-append (digits_fuel (suc g) (n / 10)) ((48 + n % 10) ∷ []) 0
        ∙ read_last (read_number 0 (digits_fuel (suc g) (n / 10))) (n % 10) (omega arith)
        ∙ omega (arith, read_number-digits_fuel g (n / 10) (omega arith)))
]

pub itoa-IsDigit : (n : ℕ) → All IsDigit (itoa n)
unfolding itoa
itoa-IsDigit n = digits_fuel-IsDigit (suc n) n

pub read_number-itoa : (n : ℕ) → read_number 0 (itoa n) ≡ n
unfolding itoa
read_number-itoa n = read_number-digits_fuel n n (omega arith)

pub pad_zeros-IsDigit : (k : ℕ) (ds : Bytes) → All IsDigit ds → All IsDigit (pad_zeros k ds)
unfolding pad_zeros
pad_zeros-IsDigit zero ds h = h
pad_zeros-IsDigit (suc k) ds h = ((omega arith, omega arith), pad_zeros-IsDigit k ds h)

pub read_number-pad_zeros : (k : ℕ) (ds : Bytes) → read_number 0 (pad_zeros k ds) ≡ read_number 0 ds
unfolding pad_zeros read_number
read_number-pad_zeros zero ds = refl
read_number-pad_zeros (suc k) ds = read_number-pad_zeros k ds

pub length-pad_zeros : (k : ℕ) (ds : Bytes) → length (pad_zeros k ds) ≡ k + length ds
unfolding pad_zeros
length-pad_zeros zero ds = omega arith
length-pad_zeros (suc k) ds = omega (arith, length-pad_zeros k ds)

pub take-drop : (k : ℕ) (xs : Bytes) → take k xs ++ drop k xs ≡ xs
take-drop zero xs = refl
take-drop (suc k) [] = refl
take-drop (suc k) (x ∷ xs) = ap (◌∷◌ x) (take-drop k xs)

pub length-drop : (k : ℕ) (xs : Bytes) → length (drop k xs) ≡ length xs - k
length-drop zero xs = omega arith
length-drop (suc k) [] = omega arith
length-drop (suc k) (x ∷ xs) = omega (arith, length-drop k xs)

pub take-IsDigit : (k : ℕ) (xs : Bytes) → All IsDigit xs → All IsDigit (take k xs)
take-IsDigit zero xs h = tt
take-IsDigit (suc k) [] h = tt
take-IsDigit (suc k) (x ∷ xs) (d, h) = (d, take-IsDigit k xs h)
