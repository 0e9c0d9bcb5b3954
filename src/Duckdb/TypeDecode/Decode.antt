-- ===== src/Duckdb/TypeDecode/Decode.antt =====
-- `readLogicalType` and `readTypeInfo` of converge/duckdb/typedecode.go.
use duckdb_wasm2go_poc.Base.{
  ℕ, zero, suc, ◌^◌, Bool, true, false, ◌||◌, [], Option, none, some, ltb, ◌==◌, if◌then◌else◌,
  Bytes, length,
}
use duckdb_wasm2go_poc.Duckdb.TypeDecode.Reader.{
  TypeDec, Run, done, panicked, exhausted, Decoder, ◌>>=◌, ◌>>◌, pure, fail, u16, peek_u16, varint,
  str, bool_byte, expect_field, object_end,
}
use duckdb_wasm2go_poc.Duckdb.TypeDecode.Types.{
  TypePtr, nil_type, decoded, Children, no_child, child, type_text,
}

-- What `readTypeInfo` writes into the type.
pub record Info : Type 0 where
  pub alias : Bytes
  pub children : Children
  pub width : ℕ
  pub scale : ℕ
  pub size : ℕ

abbrev pub with_alias : Bytes → Info
with_alias alias = record { alias = alias; children = no_child; width = 0; scale = 0; size = 0 }

-- `if d.peekU16() == id { d.u16(); … }`, with the value that stays if the field is absent
unfoldable pub optional : {A : Type 0} → ℕ → A → Decoder A → Decoder A
optional id default read d =
    let present = u16 >>= λ _. read in if peek_u16 d.rest == id then present d else done default d

-- one field of a STRUCT, and those behind it: `rec` reads a nested type
unfoldable pub read_field : Decoder TypePtr → Decoder Children → Decoder Children
read_field rec others = do
  expect_field 0
  name ← str
  expect_field 1
  ct ← rec
  object_end
  more ← others
  pure (child name ct more)

-- the loop over the fields of a STRUCT
unfoldable pub read_fields : Decoder TypePtr → ℕ → Decoder Children
unfolding read_field
read_fields rec zero d = done no_child d
read_fields rec (suc n) d =
    let field = read_field rec (read_fields rec n) d in if d.bad then done no_child d else field

-- the loop behind the check of the count; the flag says that the object goes on
unfoldable pub counted_fields : Decoder TypePtr → ℕ → Decoder (Bool × Children)
unfolding read_fields
counted_fields rec n d =
    let fields = (read_fields rec n >>= λ cs. pure (true, cs)) d in
    if d.bad || ltb (2 ^ 20) n then fail (false, no_child) d else fields

-- the fields of a STRUCT behind their count
unfoldable pub read_struct : Decoder TypePtr → Decoder (Bool × Children)
unfolding counted_fields
read_struct rec = do n ← varint; counted_fields rec n

-- a list of one child
unfoldable pub read_child : Decoder TypePtr → Decoder Children
read_child rec = do ct ← rec; pure (child [] ct no_child)

-- the cases of `switch infoType`, each with the end of its object: DECIMAL
unfoldable pub read_decimal : Info → Decoder Info
unfolding optional
read_decimal info = do
  w ← optional 200 0 varint
  s ← optional 201 0 varint
  object_end
  pure (record info { width = w; scale = s })

-- LIST
unfoldable pub read_list : Decoder TypePtr → Info → Decoder Info
unfolding optional read_child
read_list rec info = do
  cs ← optional 200 no_child (read_child rec)
  object_end
  pure (record info { children = cs })

-- STRUCT: a bad count returns before the end of the object
unfoldable pub read_struct_info : Decoder TypePtr → Info → Decoder Info
unfolding optional read_struct
read_struct_info rec info = do
  r ← optional 200 (true, no_child) (read_struct rec)
  if r.0 then object_end else pure tt
  pure (record info { children = r.1 })

-- ARRAY
unfoldable pub read_array : Decoder TypePtr → Info → Decoder Info
unfolding optional read_child
read_array rec info = do
  cs ← optional 200 no_child (read_child rec)
  n ← optional 201 0 varint
  object_end
  pure (record info { children = cs; size = n })

-- `switch infoType`
unfoldable pub read_kind : Decoder TypePtr → ℕ → Info → Decoder Info
unfolding read_decimal read_list read_struct_info read_array
read_kind rec kind info =
    if kind == 2
    then read_decimal info
    else if kind == 4
    then read_list rec info
    else if kind == 5
    then read_struct_info rec info
    else if kind == 9
    then read_array rec info
    else fail info

-- `readTypeInfo`
unfoldable pub read_type_info : Decoder TypePtr → Decoder Info
read_type_info rec = do
  expect_field 100
  kind ← varint
  alias ← optional 101 [] str
  blocked ← optional 103 false bool_byte
  if blocked then fail (with_alias alias) else read_kind rec kind (with_alias alias)

-- the end of `readLogicalType`: nil if anything failed
unfoldable pub finish : TypePtr → Decoder TypePtr
finish t d = if d.bad then done nil_type d else done t d

abbrev pub plain_type : ℕ → TypePtr
plain_type id = decoded id [] no_child 0 0 0 false

abbrev pub info_type : ℕ → Info → TypePtr
info_type id i = decoded id i.alias i.children i.width i.scale i.size true

-- `if d.boolByte() { d.readTypeInfo(t) }`
unfoldable pub read_nullable : ℕ → Decoder Info → Decoder TypePtr
read_nullable id read = do
  present ← bool_byte
  if present then (read >>= λ i. pure (info_type id i)) else pure (plain_type id)

-- the body of `readLogicalType` behind its first field id
unfoldable pub logical_rest : Decoder Info → Decoder TypePtr
unfolding optional read_nullable finish
logical_rest read = do
  id ← varint
  t ← optional 101 (plain_type id) (read_nullable id read)
  object_end
  finish t

-- `readLogicalType`; the fuel bounds the nesting
unfoldable pub read_logical_type : ℕ → Decoder TypePtr
unfolding logical_rest read_type_info
read_logical_type zero d = if d.bad then done nil_type d else exhausted
read_logical_type (suc f) d =
    let body = (expect_field 100 >> logical_rest (read_type_info (read_logical_type f))) d in
    if d.bad then done nil_type d else body

abbrev pub outcome : Run TypePtr → Option Bytes
outcome (done nil_type d) = none
outcome (done t d) = if d.bad then none else some (type_text t)
outcome panicked = none
outcome exhausted = none

abbrev pub start : Bytes → TypeDec
start b = record { rest = b; total = length b; bad = false }

-- `typeBlobString`: a panic is recovered
unfoldable pub type_blob_string : Bytes → Option Bytes
unfolding read_logical_type
type_blob_string b = outcome (read_logical_type (suc (length b)) (start b))
