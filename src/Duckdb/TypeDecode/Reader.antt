-- ===== src/Duckdb/TypeDecode/Reader.antt =====
-- `typeDec` of converge/duckdb/typedecode.go: a reader with a sticky error flag. `rest` is what is
-- left of the blob and `total` the blob's length, so that `pos` is their difference. Uint64 values
-- wrap at 2 ^ 64.
use duckdb_wasm2go_poc.Base.{
  ℕ, ◌+◌, ◌-◌, ◌*◌, ◌/◌, ◌%◌, ◌^◌, Bool, true, false, not, [], ◌∷◌, ltb, leb, ◌==◌, if◌then◌else◌,
  Bytes, length, take, drop,
}

pub record TypeDec : Type 0 where
  pub rest : Bytes
  pub total : ℕ
  pub bad : Bool

-- `pos`
abbrev pub position : TypeDec → ℕ
position d = d.total - length d.rest

-- How a read ends: with a value, with a Go panic, or out of fuel, which only the model has.
pub data Run {ℓ} (A : Type ℓ) : Type ℓ where
  done : A → TypeDec → Run A
  panicked : Run A
  exhausted : Run A

abbrev pub Decoder : Type 0 → Type 0
Decoder A = TypeDec → Run A

infixl 5 ◌>>=◌ ◌>>◌
abbrev pub ◌>>=◌ : {A B : Type 0} → Decoder A → (A → Decoder B) → Decoder B
◌>>=◌ m f d = elim (m d) [ done a d' ↦ f a d' | panicked ↦ panicked | exhausted ↦ exhausted ]

abbrev pub ◌>>◌ : {A B : Type 0} → Decoder A → Decoder B → Decoder B
m >> k = m >>= λ _. k

abbrev pub pure : {A : Type 0} → A → Decoder A
pure a d = done a d

-- `terminatorFID`
abbrev pub terminator : ℕ
terminator = 65535

-- `fail`
abbrev pub fail : {A : Type 0} → A → Decoder A
fail a d = done a (record d { bad = true })

u16_from : Bytes → Decoder ℕ
u16_from (a ∷ b ∷ r) d = done (a + 256 * b) (record d { rest = r })
u16_from _ d = fail terminator d

-- `u16`
unfoldable pub u16 : Decoder ℕ
unfolding u16_from
u16 d = u16_from d.rest d

-- `peekU16`
unfoldable pub peek_u16 : Bytes → ℕ
peek_u16 (a ∷ b ∷ r) = a + 256 * b
peek_u16 _ = terminator

-- The loop of `varint`: `v` holds the groups read so far, below bit `shift`, so that the or of the
-- source adds.
unfoldable pub varint_from : Bytes → ℕ → ℕ → Decoder ℕ
varint_from [] shift v d = fail 0 (record d { rest = [] })
varint_from (c ∷ r) shift v d =
    let v' = v + (c % 128 * 2 ^ shift) % 2 ^ 64 in
    let more = varint_from r (shift + 7) v' d in
    if ltb 63 shift
    then fail 0 (record d { rest = c ∷ r })
    else if (c / 128) % 2 == 0
    then done v' (record d { rest = r })
    else more

-- `varint`
unfoldable pub varint : Decoder ℕ
unfolding varint_from
varint d = varint_from d.rest 0 0 d

-- The slice of `str`: `n` is a uint64, and `d.pos + int(n)` an int64 that overflows from 2 ^ 63.
unfoldable pub slice : ℕ → Decoder Bytes
slice n d =
    if d.bad
    then fail [] d
    else if leb (2 ^ 63) (position d + n)
    then panicked
    else if ltb (length d.rest) n
    then fail [] d
    else done (take n d.rest) (record d { rest = drop n d.rest })

-- `str`
unfoldable pub str : Decoder Bytes
unfolding varint slice
str = do n ← varint; slice n

bool_from : Bytes → Decoder Bool
bool_from [] d = fail false d
bool_from (c ∷ r) d = done (not (c == 0)) (record d { rest = r })

-- `boolByte`
unfoldable pub bool_byte : Decoder Bool
unfolding bool_from
bool_byte d = bool_from d.rest d

-- `expectField`
unfoldable pub expect_field : ℕ → Decoder (Unit {0})
unfolding u16
expect_field id = do got ← u16; if got == id then pure tt else fail tt

-- `objectEnd`
unfoldable pub object_end : Decoder (Unit {0})
unfolding u16
object_end = do got ← u16; if got == terminator then pure tt else fail tt
