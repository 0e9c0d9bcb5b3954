-- ===== src/Duckdb/Variants/Varints.antt =====
-- The numbers and the byte runs in a payload of converge/duckdb/variant.go are read back.
use native.Mathlib.Numerals.{towards_suc}
use native.Mathlib.Nat.{pow-succ'}
use duckdb_wasm2go_poc.Base.{
  ℕ, zero, suc, ◌+◌, ◌*◌, ◌/◌, ◌%◌, ◌^◌, ◌<◌, ◌≤◌, ◌≡◌, true, false, ◌∷◌, ◌++◌, ltb, ◌==◌,
  if◌then◌else◌, Bytes, length, drop, take-append, arith, refl, ap, ◌∙◌, Bool-cases, inl, inr,
}
use duckdb_wasm2go_poc.Duckdb.TypeDecode.Encode.{enc_varint}
use duckdb_wasm2go_poc.Duckdb.Variants.{uvarint_from, uvarint, varint_bytes}

-- how many bytes a number takes
abbrev taken : ℕ → ℕ → ℕ
taken zero n = 1
taken (suc f) n = if ltb n 128 then 1 else suc (taken f (n / 128))

drop-enc_varint : (f n : ℕ) (rest : Bytes) → drop (taken f n) (enc_varint f n rest) ≡ rest
drop-enc_varint zero n rest = refl
drop-enc_varint (suc f) n rest = elim (Bool-cases (ltb n 128)) [
  | inl last ↦ rw last refl
  | inr more ↦ rw more (drop-enc_varint f (n / 128) rest)
]

pow_seven : (s : ℕ) → 2 ^ (s + 7) ≡ 128 * 2 ^ s
pow_seven s = simp towards_suc (omega arith)

last_group :
    (total i shift n v : ℕ) (rest : Bytes)
    → n < 128
    → n * 2 ^ shift < 2 ^ 32
    → uvarint_from total i shift v (n ∷ rest) ≡ (v + n * 2 ^ shift, i + 1)
unfolding uvarint_from
last_group total i shift n v rest small fits =
    let ends : ((n / 128) % 2 == 0) ≡ true = ground arith in
    let same : n % 128 ≡ n = omega arith in
    rw ends (rw same (ap (λ (k : ℕ). (v + k, i + 1)) (omega arith)))

next_group :
    (total i shift n v : ℕ) (rest : Bytes)
    → shift ≤ 21
    → (n % 128) * 2 ^ shift < 2 ^ 32
    → uvarint_from total i shift v ((n % 128 + 128) ∷ rest)
      ≡ uvarint_from total (i + 1) (shift + 7) (v + n % 128 * 2 ^ shift) rest
unfolding uvarint_from
next_group total i shift n v rest s fits =
    let goes_on : (((n % 128 + 128) / 128) % 2 == 0) ≡ false = ground arith in
    let under : ltb 32 (shift + 7) ≡ false = ground arith in
    let same : (n % 128 + 128) % 128 ≡ n % 128 = omega arith in
    rw goes_on (
      rw under (
        rw same
          (ap (λ (k : ℕ). uvarint_from total (i + 1) (shift + 7) (v + k) rest) (omega arith))))

-- The loop on the groups of a number: `f` groups may follow this one.
uvarint_groups :
    (f total i shift n v : ℕ) (rest : Bytes)
    → shift + 7 * f ≡ 28
    → n * 2 ^ shift < 2 ^ 32
    → n < 128 * 128 ^ f
    → uvarint_from total i shift v (enc_varint f n rest) ≡ (v + n * 2 ^ shift, i + taken f n)
uvarint_groups zero total i shift n v rest s fits small =
    last_group total i shift n v rest small fits
uvarint_groups (suc f) total i shift n v rest s fits small = elim (Bool-cases (ltb n 128)) [
  | inl last ↦ rw last (last_group total i shift n v rest (ground arith) fits)
  | inr more ↦
      let split : (128 * (n / 128) + n % 128) * 2 ^ shift ≡ n * 2 ^ shift =
        ap (λ (k : ℕ). k * 2 ^ shift) (omega arith) in
      let grown : (n / 128) * 2 ^ (shift + 7) ≡ (n / 128) * (128 * 2 ^ shift) =
        ap (λ (k : ℕ). (n / 128) * k) (pow_seven shift) in
      let deep : n < 128 * (128 * 128 ^ f) = omega (arith, pow-succ' 128 f) in
      let sum : v + n % 128 * 2 ^ shift + (n / 128) * 2 ^ (shift + 7) ≡ v + n * 2 ^ shift =
        omega arith in
      let count : i + 1 + taken f (n / 128) ≡ i + suc (taken f (n / 128)) = omega arith in
      rw more (
        next_group total i shift n v (enc_varint f (n / 128) rest) (omega arith) (omega arith)
        ∙ uvarint_groups f total (i + 1) (shift + 7) (n / 128) (v + n % 128 * 2 ^ shift) rest
            (omega arith) (omega arith) (omega arith)
        ∙ ap (λ (k : ℕ). (k, i + 1 + taken f (n / 128))) sum
        ∙ ap (λ (k : ℕ). (v + n * 2 ^ shift, k)) count)
]

-- A run of bytes that is written behind its length is read back, whatever follows; its length is a
-- uint32, in groups of seven bits.
pub varint_bytes_read_back :
    (s rest : Bytes) → length s < 2 ^ 32 → varint_bytes (enc_varint 4 (length s) (s ++ rest)) ≡ s
unfolding varint_bytes uvarint
varint_bytes_read_back s rest h =
    let p = enc_varint 4 (length s) (s ++ rest) in
    let read =
      uvarint_groups 4 (length p) 0 0 (length s) 0 (s ++ rest) refl (omega arith) (omega arith) in
    let n : 0 + length s * 2 ^ 0 ≡ length s = omega arith in
    let off : 0 + taken 4 (length s) ≡ taken 4 (length s) = omega arith in
    rw read (rw n (rw off (rw (drop-enc_varint 4 (length s) (s ++ rest)) (take-append s rest))))
