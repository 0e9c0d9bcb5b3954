-- ===== src/Duckdb/TypeDecode/RoundTrip/Tokens.antt =====
-- Each token of the wire format is read back.
use native.Mathlib.Numerals.{towards_suc}
use native.Mathlib.Nat.{pow-succ'}
use duckdb_wasm2go_poc.Base.{
  ℕ, zero, suc, ◌+◌, ◌-◌, ◌*◌, ◌/◌, ◌%◌, ◌^◌, ◌<◌, ◌≤◌, ◌≡◌, true, false, [], ◌∷◌, ◌++◌, ltb, leb,
  ◌==◌, Bytes, length, take-append, drop-append, length-append, arith, refl, ap, ◌∙◌, Bool-cases,
  inl, inr,
}
use duckdb_wasm2go_poc.Duckdb.TypeDecode.Reader.{
  TypeDec, done, Decoder, ◌>>=◌, u16, peek_u16, varint_from, varint, slice, str,
}
use duckdb_wasm2go_poc.Duckdb.TypeDecode.Encode.{
  enc_varint, varint_bytes, enc_str, opt_num, opt_str, fid,
}
use duckdb_wasm2go_poc.Duckdb.TypeDecode.Decode.{optional}

-- A reader with no error, over a blob of `total` bytes.
abbrev pub at : ℕ → Bytes → TypeDec
at total rest = record { rest = rest; total = total; bad = false }

pow_seven : (s : ℕ) → 2 ^ (s + 7) ≡ 128 * 2 ^ s
pow_seven s = simp towards_suc (omega arith)

last_group :
    (shift n v total : ℕ) (rest old : Bytes)
    → shift ≤ 63
    → n < 128
    → n * 2 ^ shift < 2 ^ 64
    → varint_from (n ∷ rest) shift v (at total old) ≡ done (v + n * 2 ^ shift) (at total rest)
unfolding varint_from
last_group shift n v total rest old s small fits =
    let under : ltb 63 shift ≡ false = ground arith in
    let ends : ((n / 128) % 2 == 0) ≡ true = ground arith in
    let same : n % 128 ≡ n = omega arith in
    rw under (rw ends (rw same (ap (λ (k : ℕ). done (v + k) (at total rest)) (omega arith))))

next_group :
    (shift n v total : ℕ) (rest old : Bytes)
    → shift ≤ 63
    → (n % 128) * 2 ^ shift < 2 ^ 64
    → varint_from ((n % 128 + 128) ∷ rest) shift v (at total old)
      ≡ varint_from rest (shift + 7) (v + n % 128 * 2 ^ shift) (at total old)
unfolding varint_from
next_group shift n v total rest old s fits =
    let under : ltb 63 shift ≡ false = ground arith in
    let goes_on : (((n % 128 + 128) / 128) % 2 == 0) ≡ false = ground arith in
    let same : (n % 128 + 128) % 128 ≡ n % 128 = omega arith in
    rw under (
      rw goes_on (
        rw same
          (ap (λ (k : ℕ). varint_from rest (shift + 7) (v + k) (at total old)) (omega arith))))

-- The loop on the groups of a number: `f` groups may follow this one.
varint_groups :
    (f shift n v total : ℕ) (rest old : Bytes)
    → shift + 7 * f ≡ 63
    → n * 2 ^ shift < 2 ^ 64
    → n < 128 * 128 ^ f
    → varint_from (enc_varint f n rest) shift v (at total old)
      ≡ done (v + n * 2 ^ shift) (at total rest)
varint_groups zero shift n v total rest old s fits small =
    last_group shift n v total rest old (omega arith) small fits
varint_groups (suc f) shift n v total rest old s fits small = elim (Bool-cases (ltb n 128)) [
  | inl last ↦ rw last (last_group shift n v total rest old (omega arith) (ground arith) fits)
  | inr more ↦
      let split : (128 * (n / 128) + n % 128) * 2 ^ shift ≡ n * 2 ^ shift =
        ap (λ (k : ℕ). k * 2 ^ shift) (omega arith) in
      let grown : (n / 128) * 2 ^ (shift + 7) ≡ (n / 128) * (128 * 2 ^ shift) =
        ap (λ (k : ℕ). (n / 128) * k) (pow_seven shift) in
      let deep : n < 128 * (128 * 128 ^ f) = omega (arith, pow-succ' 128 f) in
      rw more (
        next_group shift n v total (enc_varint f (n / 128) rest) old (omega arith) (omega arith)
        ∙ varint_groups f (shift + 7) (n / 128) (v + n % 128 * 2 ^ shift) total rest old
            (omega arith) (omega arith) (omega arith)
        ∙ ap (λ (k : ℕ). done k (at total rest)) (omega arith))
]

-- A uint64 in LEB128, whatever follows it.
pub varint-varint_bytes :
    (n total : ℕ) (rest : Bytes)
    → n < 2 ^ 64
    → varint (at total (varint_bytes n rest)) ≡ done n (at total rest)
unfolding varint varint_bytes
varint-varint_bytes n total rest h =
    varint_groups 9 0 n 0 total rest (varint_bytes n rest) refl (omega arith) (omega arith)
    ∙ ap (λ (k : ℕ). done k (at total rest)) (omega arith)

slice-append :
    (s : Bytes) (total : ℕ) (rest : Bytes)
    → length s < 2 ^ 62
    → total < 2 ^ 62
    → slice (length s) (at total (s ++ rest)) ≡ done s (at total rest)
unfolding slice
slice-append s total rest hs ht =
    let room : leb (2 ^ 63) (total - length (s ++ rest) + length s) ≡ false = ground arith in
    let enough : ltb (length (s ++ rest)) (length s) ≡ false =
      ground (arith, length-append s rest) in
    rw room (rw enough (rw (take-append s rest) (rw (drop-append s rest) refl)))

-- A read that is done, and what comes behind it.
pub bind_done :
    {A B : Type 0} (m : Decoder A) (k : A → Decoder B) (d : TypeDec) {a : A} {d' : TypeDec}
    → m d ≡ done a d'
    → (m >>= k) d ≡ k a d'
bind_done m k d e = rw (e, ◌>>=◌) refl

-- A text behind its length.
pub str-enc_str :
    (s : Bytes) (total : ℕ) (rest : Bytes)
    → length s < 2 ^ 62
    → total < 2 ^ 62
    → str (at total (enc_str s rest)) ≡ done s (at total rest)
unfolding str
str-enc_str s total rest hs ht =
    bind_done varint slice (at total (enc_str s rest))
      (varint-varint_bytes (length s) total (s ++ rest) (omega arith))
    ∙ slice-append s total rest hs ht

module _ (total : ℕ) where
  -- An optional property that is left out.
  pub optional_absent :
      {A : Type 0} (id : ℕ) (default : A) (read : Decoder A) (rest : Bytes)
      → (peek_u16 rest == id) ≡ false
      → optional id default read (at total rest) ≡ done default (at total rest)
  unfolding optional
  optional_absent id default read rest e = rw e refl

  -- An optional property that is there.
  pub optional_present :
      {A : Type 0} (id : ℕ) (default : A) (read : Decoder A) (rest : Bytes)
      → optional id default read (at total (fid id rest)) ≡ read (at total rest)
  unfolding optional u16 peek_u16
  optional_present id default read rest =
      let e : (id + 256 * 0 == id) ≡ true = ground arith in rw e refl

  pub optional-opt_num :
      (id n : ℕ) (rest : Bytes)
      → n < 2 ^ 64
      → (peek_u16 rest == id) ≡ false
      → optional id 0 varint (at total (opt_num id n rest)) ≡ done n (at total rest)
  optional-opt_num id zero rest h e = optional_absent id 0 varint rest e
  optional-opt_num id (suc n) rest h e =
      optional_present id 0 varint (varint_bytes (suc n) rest)
      ∙ varint-varint_bytes (suc n) total rest h

  pub optional-opt_str :
      (id : ℕ) (s rest : Bytes)
      → length s < 2 ^ 62
      → total < 2 ^ 62
      → (peek_u16 rest == id) ≡ false
      → optional id [] str (at total (opt_str id s rest)) ≡ done s (at total rest)
  optional-opt_str id [] rest h ht e = optional_absent id [] str rest e
  optional-opt_str id (c ∷ cs) rest h ht e =
      optional_present id [] str (enc_str (c ∷ cs) rest) ∙ str-enc_str (c ∷ cs) total rest h ht
