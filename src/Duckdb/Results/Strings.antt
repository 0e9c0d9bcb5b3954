-- ===== src/Duckdb/Results/Strings.antt =====
-- Texts in a flat vector, read back by `decode` of converge/duckdb/result.go.
use mathlib.Core.Path.{subst}
use mathlib.Core.List.{append_assoc}
use duckdb_wasm2go_poc.Base.{
  ℕ, ◌+◌, ◌*◌, ◌^◌, ◌≤◌, ◌<◌, ◌≡◌, ◌⊎◌, inl, inr, Bool, true, false, ◌++◌, some, leb, if◌then◌else◌,
  Bytes, length, length-append, arith, refl, ap, ◌∙◌, sym,
}
use duckdb_wasm2go_poc.Wasi.State.{le_bytes}
use duckdb_wasm2go_poc.Duckdb.Driver.{Reply, done}
use duckdb_wasm2go_poc.Duckdb.Geometry.{FloatText, geometry_string}
use duckdb_wasm2go_poc.Duckdb.Interrupt.{read_u32}
use duckdb_wasm2go_poc.Duckdb.Timestamps.{bit_string}
use duckdb_wasm2go_poc.Duckdb.Values.{bignum_string}
use duckdb_wasm2go_poc.Duckdb.Variants.{◌>>=◌, or_panic, int32, slice_at, read_string_t}
use duckdb_wasm2go_poc.Duckdb.Results.Memory.{read_u32-behind, size-le_bytes, slice_at-behind}
use duckdb_wasm2go_poc.Duckdb.Results.{
  Value, text_cell, json_cell, blob_cell, ColumnMeta, cell_at, decode_number, decode_time, decode,
}

-- a text of at most twelve bytes stands in its cell, behind its length
pub record Inlined (mem : Bytes) (at : ℕ) (s : Bytes) : Type 0 where
  pub front : Bytes
  pub rest : Bytes
  pub place : length front ≡ at
  pub holds : mem ≡ front ++ (le_bytes 4 (length s) ++ (s ++ rest))
  pub short : length s ≤ 12

-- a longer one stands elsewhere: its cell has the length, a prefix, and the address
pub record Pointed (mem : Bytes) (at : ℕ) (s : Bytes) : Type 0 where
  pub front : Bytes
  pub prefix : Bytes
  pub rest : Bytes
  pub place : length front ≡ at
  pub four : length prefix ≡ 4
  pub far_front : Bytes
  pub far_rest : Bytes
  pub holds :
      mem ≡ front ++ (le_bytes 4 (length s) ++ (prefix ++ (le_bytes 4 (length far_front) ++ rest)))
  pub far : mem ≡ far_front ++ (s ++ far_rest)
  pub long : 12 < length s

abbrev picked : Bool → ℕ → Bytes → Reply ℕ
picked b at mem = if b then done (int32 (at + 4)) else or_panic (read_u32 (int32 (at + 8)) mem)

-- `readStringT` by what its cell says
read_string_t-at :
    (mem : Bytes) (at n text_at : ℕ) (b : Bool) (s : Bytes)
    → read_u32 at mem ≡ some n
    → leb n 12 ≡ b
    → picked b at mem ≡ done text_at
    → slice_at text_at n mem ≡ some s
    → read_string_t at mem ≡ done s
unfolding read_string_t
read_string_t-at mem at n text_at b s e1 e2 e3 e4 =
    ap (λ o. or_panic o >>= (λ k. picked (leb k 12) at mem >>= (λ a. or_panic (slice_at a k mem))))
      e1
    ∙ (ap (λ c. picked c at mem >>= (λ a. or_panic (slice_at a n mem))) e2
        ∙ (ap (λ r. r >>= (λ a. or_panic (slice_at a n mem))) e3 ∙ ap or_panic e4))

read_string_t-Inlined :
    (mem : Bytes) (at : ℕ) (s : Bytes)
    → length mem < 2 ^ 31
    → Inlined mem at s
    → read_string_t at mem ≡ done s
read_string_t-Inlined mem at s h x =
    let n = length s in
    let word = le_bytes 4 n in
    let tail = s ++ x.rest in
    let split : mem ≡ (x.front ++ word) ++ tail = x.holds ∙ sym (append_assoc x.front word tail) in
    let total : length ((x.front ++ word) ++ tail) < 2 ^ 31 =
      subst (λ m. length m < 2 ^ 31) split h in
    let sizes : length ((x.front ++ word) ++ tail)
        ≡ length (x.front ++ word) + (n + length x.rest) =
      omega (arith, length-append (x.front ++ word) tail, length-append s x.rest) in
    let behind : length (x.front ++ word) ≡ length x.front + 4 =
      omega (arith, length-append x.front word, size-le_bytes 4 n) in
    let inside : length x.front < 2 ^ 31 = omega arith in
    let low : n < 256 ^ 4 = omega (arith, x.short) in
    let e1 : read_u32 at mem ≡ some n =
      ap (λ a. read_u32 a mem) (sym x.place)
      ∙ (ap (read_u32 (length x.front)) x.holds ∙ read_u32-behind x.front n tail low inside) in
    let e2 : leb n 12 ≡ true = ground (arith, x.short) in
    let e3 : int32 (at + 4) ≡ length (x.front ++ word) = omega (arith, x.place) in
    read_string_t-at mem at n (length (x.front ++ word)) true s e1 e2 (ap done e3) (
      ap (slice_at (length (x.front ++ word)) n) split
      ∙ slice_at-behind (x.front ++ word) s x.rest total)

read_string_t-Pointed :
    (mem : Bytes) (at : ℕ) (s : Bytes)
    → length mem < 2 ^ 31
    → Pointed mem at s
    → read_string_t at mem ≡ done s
read_string_t-Pointed mem at s h x =
    let n = length s in
    let word = le_bytes 4 n in
    let head = x.front ++ (word ++ x.prefix) in
    let link = le_bytes 4 (length x.far_front) ++ x.rest in
    let split : mem ≡ head ++ link =
      x.holds
      ∙ (ap (λ zs. x.front ++ zs) (sym (append_assoc word x.prefix link))
          ∙ sym (append_assoc x.front (word ++ x.prefix) link)) in
    let total : length (head ++ link) < 2 ^ 31 = subst (λ m. length m < 2 ^ 31) split h in
    let far_total : length (x.far_front ++ (s ++ x.far_rest)) < 2 ^ 31 =
      subst (λ m. length m < 2 ^ 31) x.far h in
    let sizes : length (head ++ link) ≡ length head + length link = length-append head link in
    let far_sizes : length (x.far_front ++ (s ++ x.far_rest))
        ≡ length x.far_front + (n + length x.far_rest) =
      omega (arith, length-append x.far_front (s ++ x.far_rest), length-append s x.far_rest) in
    let behind : length head ≡ length x.front + 8 = omega (
      arith,
      length-append x.front (word ++ x.prefix),
      length-append word x.prefix,
      size-le_bytes 4 n,
      x.four,
    ) in
    let inside : length x.front < 2 ^ 31 = omega arith in
    let low : n < 256 ^ 4 = omega arith in
    let far_low : length x.far_front < 256 ^ 4 = omega arith in
    let e1 : read_u32 at mem ≡ some n =
      ap (λ a. read_u32 a mem) (sym x.place)
      ∙ (ap (read_u32 (length x.front)) x.holds
          ∙ read_u32-behind x.front n (x.prefix ++ link) low inside) in
    let e2 : leb n 12 ≡ false = ground (arith, x.long) in
    let at_link : int32 (at + 8) ≡ length head = omega (arith, x.place) in
    let e3 : read_u32 (int32 (at + 8)) mem ≡ some (length x.far_front) =
      ap (λ a. read_u32 a mem) at_link
      ∙ (ap (read_u32 (length head)) split
          ∙ read_u32-behind head (length x.far_front) x.rest far_low (omega arith)) in
    read_string_t-at mem at n (length x.far_front) false s e1 e2 (ap or_panic e3) (
      ap (slice_at (length x.far_front) n) x.far
      ∙ slice_at-behind x.far_front s x.far_rest far_total)

abbrev pub Stored : Bytes → ℕ → Bytes → Type 0
Stored mem at s = Inlined mem at s ⊎ Pointed mem at s

read_string_t-Stored :
    (mem : Bytes) (at : ℕ) (s : Bytes)
    → length mem < 2 ^ 31
    → Stored mem at s
    → read_string_t at mem ≡ done s
read_string_t-Stored mem at s h (inl x) = read_string_t-Inlined mem at s h x
read_string_t-Stored mem at s h (inr x) = read_string_t-Pointed mem at s h x

Stored-bound : (mem : Bytes) (at : ℕ) (s : Bytes) → Stored mem at s → at ≤ length mem
Stored-bound mem at s (inl x) =
    let tail = le_bytes 4 (length s) ++ (s ++ x.rest) in
    omega (arith, x.place, ap length x.holds, length-append x.front tail)
Stored-bound mem at s (inr x) =
    let link = le_bytes 4 (length x.far_front) ++ x.rest in
    let tail = le_bytes 4 (length s) ++ (x.prefix ++ link) in
    omega (arith, x.place, ap length x.holds, length-append x.front tail)

-- the types whose cells are texts or bytes
pub data TextType : Type 0 where
  varchar blob bit bignum geometry : TextType

abbrev pub text_type_id : TextType → ℕ
text_type_id varchar = 17
text_type_id blob = 18
text_type_id bit = 29
text_type_id bignum = 35
text_type_id geometry = 40

-- what a cell with these bytes is
abbrev pub text_value : FloatText → Bool → TextType → Bytes → Value
text_value ft is_json varchar s = if is_json then json_cell s else text_cell s
text_value ft is_json blob s = blob_cell s
text_value ft is_json bit s = text_cell (bit_string s)
text_value ft is_json bignum s = text_cell (bignum_string s)
text_value ft is_json geometry s = text_cell (geometry_string ft s)

decode-text_value :
    (ft : FloatText) (m : ColumnMeta) (t : TextType) (p i : ℕ) (mem : Bytes)
    → decode ft (record m { type_id = text_type_id t }) p i mem
      ≡ read_string_t (cell_at 16 p i) mem >>= (λ s. done (text_value ft m.is_json t s))
unfolding decode decode_number decode_time
decode-text_value ft m varchar p i mem = refl
decode-text_value ft m blob p i mem = refl
decode-text_value ft m bit p i mem = refl
decode-text_value ft m bignum p i mem = refl
decode-text_value ft m geometry p i mem = refl

-- A cell of a column of texts, of bytes, of bits, of big numbers or of geometries is decoded from the
-- bytes that the engine stored for it, whether they stand in the cell, being twelve at most, or
-- elsewhere in memory; a text of a JSON column is marked as such. Memory is shorter than 2 ^ 31 bytes.
pub decode-Stored :
    (ft : FloatText) (m : ColumnMeta) (t : TextType) (p i : ℕ) (mem s : Bytes)
    → Stored mem (p + i * 16) s
    → length mem < 2 ^ 31
    → decode ft (record m { type_id = text_type_id t }) p i mem ≡ done (text_value ft m.is_json t s)
decode-Stored ft m t p i mem s x h =
    let at : cell_at 16 p i ≡ p + i * 16 = omega (arith, Stored-bound mem (p + i * 16) s x) in
    decode-text_value ft m t p i mem
    ∙ (ap (λ a. read_string_t a mem >>= (λ z. done (text_value ft m.is_json t z))) at
        ∙ ap (λ r. r >>= (λ z. done (text_value ft m.is_json t z)))
            (read_string_t-Stored mem (p + i * 16) s h x))
