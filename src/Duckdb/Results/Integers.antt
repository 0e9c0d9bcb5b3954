-- ===== src/Duckdb/Results/Integers.antt =====
-- Integers in a flat vector, read back by `decode` of converge/duckdb/result.go.
use mathlib.Core.List.{append_assoc}
use mathlib.Core.Path.{subst}
use duckdb_wasm2go_poc.Base.{
  ℕ, zero, suc, ◌+◌, ◌-◌, ◌*◌, ◌/◌, ◌%◌, ◌^◌, ◌≤◌, ◌<◌, ◌≡◌, Bool, true, false, List, [], ◌∷◌, ◌++◌,
  Option, some, ltb, if◌then◌else◌, Bytes, length, nth, length-append, arith, refl, ap, ◌∙◌, sym,
}
use duckdb_wasm2go_poc.Base.Int.{ℤ, pos, negsuc}
use duckdb_wasm2go_poc.Wasi.State.{le_bytes}
use duckdb_wasm2go_poc.Duckdb.Driver.{Reply, done}
use duckdb_wasm2go_poc.Duckdb.Geometry.{FloatText}
use duckdb_wasm2go_poc.Duckdb.Interrupt.{read_u32}
use duckdb_wasm2go_poc.Duckdb.Values.{int_text}
use duckdb_wasm2go_poc.Duckdb.Variants.{◌>>=◌, or_panic, int32, read_u64, signed_word}
use duckdb_wasm2go_poc.Duckdb.Results.Memory.{
  read_u32-behind, read_u64-behind, read_byte-behind, read_u16-behind, size-le_bytes,
}
use duckdb_wasm2go_poc.Duckdb.Results.{
  Value, int_cell, text_cell, ColumnMeta, cell_at, read_byte, read_u16, is_int64, exact_int,
  hugeint_value, decode_number, decode,
}

-- The integer types of duckdb.h, by their width: TINYINT to HUGEINT, and the same unsigned.
pub data Width : Type 0 where
  one_byte two_bytes four_bytes eight_bytes sixteen_bytes : Width

abbrev pub type_id : Width → Bool → ℕ
type_id one_byte true = 2
type_id two_bytes true = 3
type_id four_bytes true = 4
type_id eight_bytes true = 5
type_id sixteen_bytes true = 16
type_id one_byte false = 6
type_id two_bytes false = 7
type_id four_bytes false = 8
type_id eight_bytes false = 9
type_id sixteen_bytes false = 32

abbrev pub size : Width → ℕ
size one_byte = 1
size two_bytes = 2
size four_bytes = 4
size eight_bytes = 8
size sixteen_bytes = 16

-- the numbers that a signed type has on either side of 0
abbrev pub half : Width → ℕ
half one_byte = 2 ^ 7
half two_bytes = 2 ^ 15
half four_bytes = 2 ^ 31
half eight_bytes = 2 ^ 63
half sixteen_bytes = 2 ^ 127

abbrev pub Fits : Width → Bool → ℤ → Type 0
Fits w true (pos n) = n < half w
Fits w true (negsuc n) = n < half w
Fits w false (pos n) = n < half w + half w
Fits w false (negsuc n) = half w < 0

-- two's complement
abbrev pub pattern_of : Width → ℤ → ℕ
pattern_of w (pos n) = n
pattern_of w (negsuc n) = half w + half w - n - 1

-- how a vector stores a number: in little-endian order, of sixteen bytes the lower word first
abbrev pub stored_bytes : Width → ℕ → Bytes
stored_bytes sixteen_bytes n = le_bytes 8 (n % 2 ^ 64) ++ le_bytes 8 (n / 2 ^ 64)
stored_bytes one_byte n = le_bytes 1 n
stored_bytes two_bytes n = le_bytes 2 n
stored_bytes four_bytes n = le_bytes 4 n
stored_bytes eight_bytes n = le_bytes 8 n

abbrev pub column_bytes : Width → List ℤ → Bytes
column_bytes w [] = []
column_bytes w (x ∷ xs) = stored_bytes w (pattern_of w x) ++ column_bytes w xs

abbrev number : Width → Bool → ℕ → ℤ
number w s n = if s then signed_word (half w) n else pos n

word-complement : (h n : ℕ) → n < h → signed_word h (h + h - n - 1) ≡ negsuc n
word-complement h n f =
    let up : ltb (h + h - n - 1) h ≡ false = ground arith in rw up (ap negsuc (omega arith))

number-pattern_of : (w : Width) (s : Bool) (x : ℤ) → Fits w s x → number w s (pattern_of w x) ≡ x
number-pattern_of w true (pos n) f = let low : ltb n (half w) ≡ true = ground arith in rw low refl
number-pattern_of w true (negsuc n) f = word-complement (half w) n f
number-pattern_of w false (pos n) f = refl
number-pattern_of w false (negsuc n) f = absurd (omega arith)

pattern_of-bound : (w : Width) (s : Bool) (x : ℤ) → Fits w s x → pattern_of w x < half w + half w
pattern_of-bound w true (pos n) f = omega arith
pattern_of-bound w true (negsuc n) f = omega arith
pattern_of-bound w false (pos n) f = f
pattern_of-bound w false (negsuc n) f = absurd (omega arith)

abbrev words : Bool → Option ℕ → Option ℕ → Reply ℤ
words is_signed a b = or_panic a >>= (λ lower.
    or_panic b >>= (λ upper. done (number sixteen_bytes is_signed (lower + 2 ^ 64 * upper))))

read_words-behind :
    (front : Bytes) (is_signed : Bool) (v : ℕ) (rest : Bytes)
    → v < 2 ^ 128
    → length front + 16 < 2 ^ 31
    → hugeint_value is_signed
        (length front)
        (front ++ ((le_bytes 8 (v % 2 ^ 64) ++ le_bytes 8 (v / 2 ^ 64)) ++ rest))
      ≡ done (number sixteen_bytes is_signed v)
unfolding hugeint_value
read_words-behind front is_signed v rest f h =
    let lo = v % 2 ^ 64 in
    let hi = v / 2 ^ 64 in
    let mem = front ++ ((le_bytes 8 lo ++ le_bytes 8 hi) ++ rest) in
    let first : mem ≡ front ++ (le_bytes 8 lo ++ (le_bytes 8 hi ++ rest)) =
      ap (λ xs. front ++ xs) (append_assoc (le_bytes 8 lo) (le_bytes 8 hi) rest) in
    let second : mem ≡ (front ++ le_bytes 8 lo) ++ (le_bytes 8 hi ++ rest) =
      first ∙ sym (append_assoc front (le_bytes 8 lo) (le_bytes 8 hi ++ rest)) in
    let next : length (front ++ le_bytes 8 lo) ≡ length front + 8 =
      omega (arith, length-append front (le_bytes 8 lo), size-le_bytes 8 lo) in
    let at : int32 (length front + 8) ≡ length (front ++ le_bytes 8 lo) = omega arith in
    let e1 : read_u64 (length front) mem ≡ some lo =
      ap (read_u64 (length front)) first
      ∙ read_u64-behind front lo (le_bytes 8 hi ++ rest) (omega arith) (omega arith) in
    let e2 : read_u64 (int32 (length front + 8)) mem ≡ some hi =
      ap (λ a. read_u64 a mem) at
      ∙ (ap (read_u64 (length (front ++ le_bytes 8 lo))) second
          ∙ read_u64-behind (front ++ le_bytes 8 lo) hi rest (omega arith) (omega arith)) in
    let whole : lo + 2 ^ 64 * hi ≡ v = omega arith in
    ap (λ o. words is_signed o (read_u64 (int32 (length front + 8)) mem)) e1
    ∙ (ap (words is_signed (some lo)) e2 ∙ ap (λ n. done (number sixteen_bytes is_signed n)) whole)

-- `decode`, by the width
abbrev decoded : Width → Bool → ℕ → Bytes → Reply Value
decoded sixteen_bytes s at mem = hugeint_value s at mem >>= (λ v. done (exact_int v))
decoded eight_bytes true at mem =
    or_panic (read_u64 at mem) >>= (λ n. done (int_cell (number eight_bytes true n)))
decoded eight_bytes false at mem =
    or_panic (read_u64 at mem) >>= (λ n. done (exact_int (number eight_bytes false n)))
decoded one_byte s at mem = read_byte at mem >>= (λ n. done (int_cell (number one_byte s n)))
decoded two_bytes s at mem = read_u16 at mem >>= (λ n. done (int_cell (number two_bytes s n)))
decoded four_bytes s at mem =
    or_panic (read_u32 at mem) >>= (λ n. done (int_cell (number four_bytes s n)))

decode-decoded :
    (ft : FloatText) (m : ColumnMeta) (w : Width) (s : Bool) (p i : ℕ) (mem : Bytes)
    → decode ft (record m { type_id = type_id w s }) p i mem
      ≡ decoded w s (cell_at (size w) p i) mem
unfolding decode decode_number
decode-decoded ft m one_byte true p i mem = refl
decode-decoded ft m two_bytes true p i mem = refl
decode-decoded ft m four_bytes true p i mem = refl
decode-decoded ft m eight_bytes true p i mem = refl
decode-decoded ft m sixteen_bytes true p i mem = refl
decode-decoded ft m one_byte false p i mem = refl
decode-decoded ft m two_bytes false p i mem = refl
decode-decoded ft m four_bytes false p i mem = refl
decode-decoded ft m eight_bytes false p i mem = refl
decode-decoded ft m sixteen_bytes false p i mem = refl

size-stored_bytes : (w : Width) (n : ℕ) → length (stored_bytes w n) ≡ size w
size-stored_bytes one_byte n = size-le_bytes 1 n
size-stored_bytes two_bytes n = size-le_bytes 2 n
size-stored_bytes four_bytes n = size-le_bytes 4 n
size-stored_bytes eight_bytes n = size-le_bytes 8 n
size-stored_bytes sixteen_bytes n = omega (
  arith,
  length-append (le_bytes 8 (n % 2 ^ 64)) (le_bytes 8 (n / 2 ^ 64)),
  size-le_bytes 8 (n % 2 ^ 64),
  size-le_bytes 8 (n / 2 ^ 64),
)

small-is_int64 :
    (w : Width) (s : Bool) (x : ℤ) → Fits w s x → half w + half w ≤ 2 ^ 63 → is_int64 x ≡ true
small-is_int64 w true (pos n) f h = ground arith
small-is_int64 w true (negsuc n) f h = ground arith
small-is_int64 w false (pos n) f h = ground arith
small-is_int64 w false (negsuc n) f h = absurd (omega arith)

bigint-is_int64 : (x : ℤ) → Fits eight_bytes true x → is_int64 x ≡ true
bigint-is_int64 (pos n) f = ground arith
bigint-is_int64 (negsuc n) f = ground arith

int_cell-exact : (x y : ℤ) → x ≡ y → is_int64 y ≡ true → done (int_cell x) ≡ done (exact_int y)
unfolding exact_int
int_cell-exact x y e h =
    ap (λ z. done (int_cell z)) e
    ∙ sym (ap (λ b. done (if b then int_cell y else text_cell (int_text y))) h)

-- the bytes of an element, between those before it and those behind
column_split :
    (w : Width) (xs : List ℤ) (i : ℕ) (x : ℤ)
    → nth i xs ≡ some x
    → (before after : Bytes) × (column_bytes w xs
        ≡ before ++ (stored_bytes w (pattern_of w x) ++ after))
      × (length before ≡ i * size w)
column_split w [] i x h = absurd cc
column_split w (y ∷ ys) zero x h =
    let same : y ≡ x = cc in
    (
      [],
      column_bytes w ys,
      ap (λ z. stored_bytes w (pattern_of w z) ++ column_bytes w ys) same,
      omega arith,
    )
column_split w (y ∷ ys) (suc i) x h =
    let (before, after, eq, len) = column_split w ys i x h in
    let first = stored_bytes w (pattern_of w y) in
    (
      first ++ before,
      after,
      ap (λ zs. first ++ zs) eq
          ∙ sym (append_assoc first before (stored_bytes w (pattern_of w x) ++ after)),
      omega (arith, length-append first before, size-stored_bytes w (pattern_of w y), len),
    )

stored-exact :
    (w : Width) (s : Bool) (x : ℤ) (front rest : Bytes)
    → Fits w s x
    → length front + size w < 2 ^ 31
    → 2 ≤ length rest
    → decoded w s (length front) (front ++ (stored_bytes w (pattern_of w x) ++ rest))
      ≡ done (exact_int x)
stored-exact one_byte s x front rest f h room =
    let n = pattern_of one_byte x in
    ap (λ r. r >>= (λ k. done (int_cell (number one_byte s k))))
      (read_byte-behind front n rest (pattern_of-bound one_byte s x f) (omega arith))
    ∙ int_cell-exact _ x (number-pattern_of one_byte s x f)
        (small-is_int64 one_byte s x f (omega arith))
stored-exact two_bytes s x front rest f h room =
    let n = pattern_of two_bytes x in
    ap (λ r. r >>= (λ k. done (int_cell (number two_bytes s k))))
      (read_u16-behind front n rest (pattern_of-bound two_bytes s x f) (omega arith) room)
    ∙ int_cell-exact _ x (number-pattern_of two_bytes s x f)
        (small-is_int64 two_bytes s x f (omega arith))
stored-exact four_bytes s x front rest f h room =
    let n = pattern_of four_bytes x in
    ap (λ r. r >>= (λ k. done (int_cell (number four_bytes s k))))
      (ap or_panic (read_u32-behind front n rest (pattern_of-bound four_bytes s x f) (omega arith)))
    ∙ int_cell-exact _ x (number-pattern_of four_bytes s x f)
        (small-is_int64 four_bytes s x f (omega arith))
stored-exact eight_bytes true x front rest f h room =
    let n = pattern_of eight_bytes x in
    ap (λ r. r >>= (λ k. done (int_cell (number eight_bytes true k))))
      (ap or_panic
        (read_u64-behind front n rest (pattern_of-bound eight_bytes true x f) (omega arith)))
    ∙ int_cell-exact _ x (number-pattern_of eight_bytes true x f) (bigint-is_int64 x f)
stored-exact eight_bytes false x front rest f h room =
    let n = pattern_of eight_bytes x in
    ap (λ r. r >>= (λ k. done (exact_int (number eight_bytes false k))))
      (ap or_panic
        (read_u64-behind front n rest (pattern_of-bound eight_bytes false x f) (omega arith)))
    ∙ ap (λ z. done (exact_int z)) (number-pattern_of eight_bytes false x f)
stored-exact sixteen_bytes s x front rest f h room =
    let n = pattern_of sixteen_bytes x in
    ap (λ r. r >>= (λ v. done (exact_int v)))
      (read_words-behind front s n rest (pattern_of-bound sixteen_bytes s x f) h)
    ∙ ap (λ z. done (exact_int z)) (number-pattern_of sixteen_bytes s x f)

-- Any element of a column of integers, of each integer type of DuckDB, is read back from the bytes
-- that the vector stores the column in: as an int64 where it fits, and else as its text. The number
-- is within its type, memory is shorter than 2 ^ 31 bytes, and two bytes or more follow the column.
pub decode-column_bytes :
    (ft : FloatText) (m : ColumnMeta) (w : Width) (s : Bool) (xs : List ℤ) (i : ℕ) (x : ℤ)
    (front back : Bytes)
    → nth i xs ≡ some x
    → Fits w s x
    → length (front ++ (column_bytes w xs ++ back)) < 2 ^ 31
    → 2 ≤ length back
    → decode ft
        (record m { type_id = type_id w s })
        (length front)
        i
        (front ++ (column_bytes w xs ++ back))
      ≡ done (exact_int x)
decode-column_bytes ft m w s xs i x front back h f short room =
    let (before, after, eq, len) = column_split w xs i x h in
    let cell = stored_bytes w (pattern_of w x) in
    let rest = after ++ back in
    let mem = front ++ (column_bytes w xs ++ back) in
    let inner : column_bytes w xs ++ back ≡ before ++ (cell ++ rest) =
      ap (λ zs. zs ++ back) eq
      ∙ (append_assoc before (cell ++ after) back
          ∙ ap (λ zs. before ++ zs) (append_assoc cell after back)) in
    let split : mem ≡ (front ++ before) ++ (cell ++ rest) =
      ap (λ zs. front ++ zs) inner ∙ sym (append_assoc front before (cell ++ rest)) in
    let total : length ((front ++ before) ++ (cell ++ rest)) < 2 ^ 31 =
      subst (λ zs. length zs < 2 ^ 31) split short in
    let sizes : length ((front ++ before) ++ (cell ++ rest))
        ≡ length (front ++ before) + (size w + length rest) =
      omega (
        arith,
        length-append (front ++ before) (cell ++ rest),
        length-append cell rest,
        size-stored_bytes w (pattern_of w x),
      ) in
    let place : length (front ++ before) ≡ length front + i * size w =
      omega (arith, length-append front before, len) in
    let at : cell_at (size w) (length front) i ≡ length (front ++ before) = omega arith in
    let tail : 2 ≤ length rest = omega (arith, length-append after back) in
    decode-decoded ft m w s (length front) i mem
    ∙ (ap (decoded w s (cell_at (size w) (length front) i)) split
        ∙ (ap (λ a. decoded w s a ((front ++ before) ++ (cell ++ rest))) at
            ∙ stored-exact w s x (front ++ before) rest f (omega arith) tail))
