-- ===== src/Duckdb/TypeDecode/Encode.antt =====
-- The wire format that the head of converge/duckdb/typedecode.go states, as an encoder of the types
-- in its scope, and what the decoder makes of each type.
use duckdb_wasm2go_poc.Base.{
  ℕ, zero, suc, ◌+◌, ◌/◌, ◌%◌, ◌^◌, ◌<◌, ◌≤◌, true, false, [], ◌∷◌, ◌++◌, ltb, if◌then◌else◌, Bytes,
  length,
}
use duckdb_wasm2go_poc.Duckdb.TypeDecode.Types.{TypePtr, decoded, Children, no_child, child}

-- A logical type: an id alone, or with the info of its kind. LIST and MAP share a kind.
mutual
  pub data LogicalType : Type 0 where
    plain : ℕ → LogicalType
    with_info : ℕ → Bytes → Shape → LogicalType

  pub data Shape : Type 0 where
    decimal : ℕ → ℕ → Shape
    list : LogicalType → Shape
    struct : Fields → Shape
    array : LogicalType → ℕ → Shape

  pub data Fields : Type 0 where
    end : Fields
    field : Bytes → LogicalType → Fields → Fields

abbrev pub count : Fields → ℕ
count end = 0
count (field name t fs) = suc (count fs)

-- unsigned LEB128, at most `fuel` more bytes behind the first
abbrev pub enc_varint : ℕ → ℕ → Bytes → Bytes
enc_varint zero n rest = n ∷ rest
enc_varint (suc fuel) n rest =
    if ltb n 128 then n ∷ rest else (n % 128 + 128) ∷ enc_varint fuel (n / 128) rest

-- a uint64 takes ten bytes at most
unfoldable pub varint_bytes : ℕ → Bytes → Bytes
varint_bytes n rest = enc_varint 9 n rest

abbrev pub enc_str : Bytes → Bytes → Bytes
enc_str s rest = varint_bytes (length s) (s ++ rest)

-- field ids, little endian
abbrev pub fid : ℕ → Bytes → Bytes
fid id rest = id ∷ 0 ∷ rest

abbrev pub terminated : Bytes → Bytes
terminated rest = 255 ∷ 255 ∷ rest

-- an optional property is left out at its default
abbrev pub opt_str : ℕ → Bytes → Bytes → Bytes
opt_str id [] rest = rest
opt_str id (c ∷ cs) rest = fid id (enc_str (c ∷ cs) rest)

abbrev pub opt_num : ℕ → ℕ → Bytes → Bytes
opt_num id zero rest = rest
opt_num id (suc n) rest = fid id (varint_bytes (suc n) rest)

abbrev pub kind : Shape → ℕ
kind (decimal w s) = 2
kind (list t) = 4
kind (struct fs) = 5
kind (array t n) = 9

unfoldable mutual
  pub encode : LogicalType → Bytes → Bytes
  encode (plain id) rest = fid 100 (varint_bytes id (terminated rest))
  encode (with_info id alias sh) rest = fid 100 (
      varint_bytes id (
        fid 101 (
          1
          ∷ fid 100 (
              varint_bytes (kind sh)
                (opt_str 101 alias (encode_shape sh (terminated (terminated rest))))))))

  pub encode_shape : Shape → Bytes → Bytes
  encode_shape (decimal w s) rest = opt_num 200 w (opt_num 201 s rest)
  encode_shape (list t) rest = fid 200 (encode t rest)
  encode_shape (struct fs) rest = fid 200 (varint_bytes (count fs) (encode_fields fs rest))
  encode_shape (array t n) rest = fid 200 (encode t (opt_num 201 n rest))

  pub encode_fields : Fields → Bytes → Bytes
  encode_fields end rest = rest
  encode_fields (field name t fs) rest =
      fid 0 (enc_str name (fid 1 (encode t (terminated (encode_fields fs rest)))))

-- The type that the decoder is to return.
unfoldable mutual
  pub to_ptr : LogicalType → TypePtr
  to_ptr (plain id) = decoded id [] no_child 0 0 0 false
  to_ptr (with_info id alias sh) = shape_ptr id alias sh

  pub shape_ptr : ℕ → Bytes → Shape → TypePtr
  shape_ptr id alias (decimal w s) = decoded id alias no_child w s 0 true
  shape_ptr id alias (list t) = decoded id alias (child [] (to_ptr t) no_child) 0 0 0 true
  shape_ptr id alias (struct fs) = decoded id alias (to_children fs) 0 0 0 true
  shape_ptr id alias (array t n) = decoded id alias (child [] (to_ptr t) no_child) 0 0 n true

  pub to_children : Fields → Children
  to_children end = no_child
  to_children (field name t fs) = child name (to_ptr t) (to_children fs)

-- The nesting of a type, and whether its numbers fit uint64 and its texts and counts are in range.
abbrev mutual
  pub depth : LogicalType → ℕ
  depth (plain id) = 1
  depth (with_info id alias sh) = suc (depth_shape sh)

  pub depth_shape : Shape → ℕ
  depth_shape (decimal w s) = 0
  depth_shape (list t) = depth t
  depth_shape (struct fs) = depth_fields fs
  depth_shape (array t n) = depth t

  pub depth_fields : Fields → ℕ
  depth_fields end = 0
  depth_fields (field name t fs) = depth t + depth_fields fs

abbrev mutual
  pub Fits : LogicalType → Type 0
  Fits (plain id) = id < 2 ^ 64
  Fits (with_info id alias sh) = (id < 2 ^ 64) × (length alias < 2 ^ 62) × FitsShape sh

  pub FitsShape : Shape → Type 0
  FitsShape (decimal w s) = (w < 2 ^ 64) × (s < 2 ^ 64)
  FitsShape (list t) = Fits t
  FitsShape (struct fs) = (count fs ≤ 2 ^ 20) × FitsFields fs
  FitsShape (array t n) = Fits t × (n < 2 ^ 64)

  pub FitsFields : Fields → Type 0
  FitsFields end = Unit
  FitsFields (field name t fs) = (length name < 2 ^ 62) × Fits t × FitsFields fs
