-- ===== src/Duckdb/TypeDecode/Fuel/Reads.antt =====
-- The reads of converge/duckdb/typedecode.go by the bytes that they leave: each ends with fewer, or
-- with the error flag set.
use duckdb_wasm2go_poc.Base.{
  ℕ, zero, suc, ◌^◌, ◌<◌, ◌≤◌, ◌≡◌, ◌⊎◌, inl, inr, Bool, true, false, [], ◌∷◌, ltb, leb, ◌==◌,
  if◌then◌else◌, Bytes, length, drop, arith, refl, sym, ◌∙◌, ap, ◌+◌, ◌/◌, ◌%◌, Bool-cases,
}
use duckdb_wasm2go_poc.Duckdb.TypeDecode.Reader.{
  TypeDec, position, Run, done, panicked, exhausted, Decoder, ◌>>=◌, pure, fail, u16, peek_u16,
  varint_from, varint, slice, str, bool_byte, expect_field, object_end,
}
use duckdb_wasm2go_poc.Duckdb.TypeDecode.Decode.{optional, start}

-- Fewer than `n` bytes are left, or the error flag is set.
abbrev Near : ℕ → TypeDec → Type 0
Near n d = (length d.rest < n) ⊎ (d.bad ≡ true)

abbrev pub After : {A : Type 0} → ℕ → Run A → Type 0
After n (done a d) = Near n d
After n panicked = Unit
After n exhausted = ⊥

-- From such a state the decoder does not run out of fuel, and ends in such a state.
pub record Good {A : Type 0} (n : ℕ) (m : Decoder A) : Type 0 where
  pub at : (d : TypeDec) → Near n d → After n (m d)

pub After-bind :
    {A B : Type 0} {n : ℕ} (r : Run A) (f : A → Decoder B)
    → After n r
    → ((a : A) → Good n (f a))
    → After n (let m : Decoder A = λ _. r in (m >>= f) (start []))
After-bind (done a d) f h g = (g a).at d h
After-bind panicked f h g = tt
After-bind exhausted f h g = elim h [ ]

module _ {A B : Type 0} {n : ℕ} where
  pub Good-bind :
      (m : Decoder A) (f : A → Decoder B) → Good n m → ((a : A) → Good n (f a)) → Good n (m >>= f)
  Good-bind m f gm gf = record { at = λ d h. After-bind (m d) f (gm.at d h) gf }

module _ {A : Type 0} {n : ℕ} where
  pub Good-pure : (a : A) → Good n (pure a)
  Good-pure a = record { at = λ d h. h }

  pub Good-fail : (a : A) → Good n (fail a)
  Good-fail a = record { at = λ d h. inr refl }

  pub Good-if : (b : Bool) (m k : Decoder A) → Good n m → Good n k → Good n (if b then m else k)
  Good-if true m k gm gk = gm
  Good-if false m k gm gk = gk

-- Two bytes less, or the flag.
u16_after :
    (rest : Bytes) (d : TypeDec) (n : ℕ)
    → d.rest ≡ rest
    → (length rest < n + 2) ⊎ (d.bad ≡ true)
    → After n (u16 d)
unfolding u16
u16_after [] d n e h = rw (e, u16) (inr refl)
u16_after (a ∷ []) d n e h = rw (e, u16) (inr refl)
u16_after (a ∷ b ∷ r) d n e h = rw (e, u16) (elim h [ inl k ↦ inl (omega arith) | inr k ↦ inr k ])

pub expect_after :
    (id n : ℕ) (d : TypeDec)
    → (length d.rest < n + 2) ⊎ (d.bad ≡ true)
    → After n (expect_field id d)
unfolding expect_field
expect_after id n d h =
    After-bind (u16 d) (λ got. if got == id then pure tt else fail tt) (u16_after d.rest d n refl h)
      λ got. Good-if (got == id) (pure tt) (fail tt) (Good-pure tt) (Good-fail tt)

weaken : (n : ℕ) (d : TypeDec) → Near n d → (length d.rest < n + 2) ⊎ (d.bad ≡ true)
weaken n d (inl h) = inl (omega arith)
weaken n d (inr h) = inr h

varint_after :
    (rest : Bytes) (shift v n : ℕ) (d : TypeDec)
    → (length rest < n) ⊎ (d.bad ≡ true)
    → After n (varint_from rest shift v d)
unfolding varint_from
varint_after [] shift v n d h = inr refl
varint_after (c ∷ r) shift v n d h = elim (Bool-cases (ltb 63 shift)) [
  | inl over ↦ rw over (inr refl)
  | inr under ↦ rw under (elim (Bool-cases ((c / 128) % 2 == 0)) [
    | inl last ↦ rw last (elim h [ inl k ↦ inl (omega arith) | inr k ↦ inr k ])
    | inr more ↦
        rw more
          (varint_after r (shift + 7) _ n _ (elim h [ inl k ↦ inl (omega arith) | inr k ↦ inr k ]))
  ])
]

length-drop-le : (k : ℕ) (xs : Bytes) → length (drop k xs) ≤ length xs
length-drop-le zero xs = omega arith
length-drop-le (suc k) [] = omega arith
length-drop-le (suc k) (x ∷ xs) = omega (arith, length-drop-le k xs)

bool_after : (rest : Bytes) (d : TypeDec) (n : ℕ) → d.rest ≡ rest → Near n d → After n (bool_byte d)
unfolding bool_byte
bool_after [] d n e h = rw (e, bool_byte) (inr refl)
bool_after (c ∷ r) d n e h =
    rw (e, bool_byte) (elim h [ inl k ↦ inl (omega (arith, ap length e)) | inr k ↦ inr k ])

slice_after : (k n : ℕ) (d : TypeDec) → Near n d → After n (slice k d)
unfolding slice
slice_after k n d h = elim (Bool-cases d.bad) [
  | inl flagged ↦ rw flagged (inr refl)
  | inr clear ↦ rw clear (elim (Bool-cases (leb (2 ^ 63) (position d + k))) [
    | inl over ↦ rw over tt
    | inr fits ↦ rw fits (elim (Bool-cases (ltb (length d.rest) k)) [
      | inl short ↦ rw short (inr refl)
      | inr enough ↦ rw enough (elim h [
        | inl m ↦ inl (omega (arith, length-drop-le k d.rest))
        | inr m ↦ inr (sym clear ∙ m)
      ])
    ])
  ])
]

module _ {n : ℕ} where
  pub Good-u16 : Good n u16
  Good-u16 = record { at = λ d h. u16_after d.rest d n refl (weaken n d h) }

  pub Good-expect_field : (id : ℕ) → Good n (expect_field id)
  Good-expect_field id = record { at = λ d h. expect_after id n d (weaken n d h) }

  pub Good-object_end : Good n object_end
  unfolding object_end
  Good-object_end = search (Good-bind, Good-u16, Good-if, Good-pure, Good-fail)

  pub Good-varint : Good n varint
  unfolding varint
  Good-varint = record { at = λ d h. varint_after d.rest 0 0 n d h }

  Good-slice : (k : ℕ) → Good n (slice k)
  Good-slice k = record { at = slice_after k n }

  pub Good-bool_byte : Good n bool_byte
  Good-bool_byte = record { at = λ d h. bool_after d.rest d n refl h }

  pub Good-str : Good n str
  unfolding str
  Good-str = Good-bind varint slice Good-varint Good-slice

  pub Good-optional :
      {A : Type 0} (id : ℕ) (default : A) (read : Decoder A)
      → Good n read
      → Good n (optional id default read)
  unfolding optional
  Good-optional id default read g = record {
    at = λ d h. elim (Bool-cases (peek_u16 d.rest == id)) [
      | inl there ↦ rw there ((Good-bind u16 (λ _. read) Good-u16 (λ _. g)).at d h)
      | inr absent ↦ rw absent h
    ];
  }

pub ruleset good_rules = (
  Good-bind, Good-pure, Good-fail, Good-if, Good-u16, Good-varint, Good-str, Good-bool_byte,
  Good-expect_field, Good-object_end, Good-optional,
)

pub After-if :
    {A : Type 0} (n : ℕ) (b : Bool) (r s : Run A)
    → After n r
    → After n s
    → After n (if b then r else s)
After-if n true r s hr hs = hr
After-if n false r s hr hs = hs
