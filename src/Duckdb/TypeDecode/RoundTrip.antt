-- ===== src/Duckdb/TypeDecode/RoundTrip.antt =====
-- The decoder of converge/duckdb/typedecode.go reads back every type that the wire format writes.
mod Tokens
mod Kinds
mod Depth
use duckdb_wasm2go_poc.Base.{
  ℕ, zero, suc, ◌+◌, ◌^◌, ◌<◌, ◌≤◌, ◌≡◌, Bool, true, false, List, [], ◌∷◌, ◌==◌, if◌then◌else◌,
  Bytes, Option, arith, refl, ap, ◌++◌, ◌/◌, length-append, ◌∙◌,
}
use duckdb_wasm2go_poc.Duckdb.TypeDecode.Reader.{
  Run, done, Decoder, ◌>>=◌, ◌>>◌, pure, u16, peek_u16, varint, bool_byte, expect_field, object_end,
}
use duckdb_wasm2go_poc.Duckdb.TypeDecode.Types.{TypePtr, no_child}
use duckdb_wasm2go_poc.Duckdb.TypeDecode.Decode.{
  Info, optional, read_fields, read_type_info, finish, plain_type, info_type, read_nullable,
  logical_rest, read_logical_type,
}
use duckdb_wasm2go_poc.Duckdb.TypeDecode.Encode.{
  LogicalType, plain, with_info, Shape, Fields, decimal, list, struct, array, end, field,
  varint_bytes, fid, terminated, opt_str, kind, encode, encode_shape, to_ptr, shape_ptr,
  to_children, encode_fields, count, enc_varint, enc_str, opt_num, depth, depth_shape, depth_fields,
  Fits, FitsShape, FitsFields,
}
use duckdb_wasm2go_poc.Duckdb.TypeDecode.RoundTrip.Tokens.{
  at, varint-varint_bytes, optional_absent, optional_present,
}
use duckdb_wasm2go_poc.Duckdb.TypeDecode.RoundTrip.Kinds.{
  Reads, ReadsFields, ReadsNested, shape_info, read_type_info-encode, read_field-encode,
}

info_type-shape_info :
    (id : ℕ) (alias : Bytes) (sh : Shape)
    → info_type id (shape_info alias sh) ≡ shape_ptr id alias sh
unfolding shape_ptr
info_type-shape_info id alias (decimal w s) = refl
info_type-shape_info id alias (list t) = refl
info_type-shape_info id alias (struct fs) = refl
info_type-shape_info id alias (array t n) = refl

module _ (total : ℕ) where
  logical_first :
      (f : ℕ) (rest : Bytes)
      → read_logical_type (suc f) (at total (fid 100 rest))
        ≡ logical_rest (read_type_info (read_logical_type f)) (at total rest)
  unfolding read_logical_type expect_field u16
  logical_first f rest = refl

  logical_end :
      (t : TypePtr) (rest : Bytes)
      → (object_end >> finish t) (at total (terminated rest)) ≡ done t (at total rest)
  unfolding object_end u16 finish
  logical_end t rest = refl

  logical_plain :
      (read : Decoder Info) (id : ℕ) (rest : Bytes)
      → id < 2 ^ 64
      → logical_rest read (at total (varint_bytes id (terminated rest)))
        ≡ done (plain_type id) (at total rest)
  unfolding logical_rest
  logical_plain read id rest h =
      let q : (peek_u16 (terminated rest) == 101) ≡ false = unfold peek_u16 in refl in
      rw (varint-varint_bytes id total _ h, ◌>>=◌)
        (rw (optional_absent total 101 (plain_type id) (read_nullable id read) _ q, ◌>>=◌)
          (logical_end (plain_type id) rest))

  nullable_present :
      (read : Decoder Info) (id : ℕ) (i : Info) (rest after : Bytes)
      → read (at total rest) ≡ done i (at total after)
      → read_nullable id read (at total (1 ∷ rest)) ≡ done (info_type id i) (at total after)
  unfolding read_nullable bool_byte
  nullable_present read id i rest after e = rw (e, ◌>>=◌) refl

  logical_info :
      (read : Decoder Info) (id : ℕ) (i : Info) (body rest : Bytes)
      → id < 2 ^ 64
      → read (at total body) ≡ done i (at total (terminated rest))
      → logical_rest read (at total (varint_bytes id (fid 101 (1 ∷ body))))
        ≡ done (info_type id i) (at total rest)
  unfolding logical_rest
  logical_info read id i body rest h e =
      let present =
        optional_present total 101 (plain_type id) (read_nullable id read) (1 ∷ body)
        ∙ nullable_present read id i body (terminated rest) e in
      rw (varint-varint_bytes id total _ h, ◌>>=◌)
        (rw (present, ◌>>=◌) (logical_end (info_type id i) rest))

module _ (total : ℕ) (short : total < 2 ^ 62) where
  read_plain : (f id : ℕ) → id < 2 ^ 64 → Reads total (read_logical_type (suc f)) (plain id)
  unfolding encode to_ptr
  read_plain f id h rest =
      logical_first total f (varint_bytes id (terminated rest))
      ∙ logical_plain total (read_type_info (read_logical_type f)) id rest h

  -- A type with info, whose nested types the reader reads back.
  read_with_info :
      (f id : ℕ) (alias : Bytes) (sh : Shape)
      → Fits (with_info id alias sh)
      → ReadsNested total (read_logical_type f) sh
      → Reads total (read_logical_type (suc f)) (with_info id alias sh)
  unfolding encode to_ptr
  read_with_info f id alias sh (h, ha, fits) r rest =
      let info =
        read_type_info-encode total (read_logical_type f) alias sh (terminated rest) short ha fits
          r in
      logical_first total f _
      ∙ logical_info total (read_type_info (read_logical_type f)) id (shape_info alias sh) _ rest h
          info
      ∙ ap (λ (t : TypePtr). done t (at total rest)) (info_type-shape_info id alias sh)

  read_no_fields : (f : ℕ) → ReadsFields total (read_logical_type f) end
  unfolding read_fields encode_fields to_children
  read_no_fields f rest = refl

  mutual
    -- A reader with fuel for the nesting of a type reads it back, whatever follows it.
    pub read_logical_type-encode :
        (t : LogicalType) (f : ℕ) → depth t ≤ f → Fits t → Reads total (read_logical_type f) t
    read_logical_type-encode (plain id) (suc f) d h = read_plain f id h
    read_logical_type-encode (plain id) zero d h = absurd (omega arith)
    read_logical_type-encode (with_info id alias sh) (suc f) d h =
        read_with_info f id alias sh h (read_shape sh f (omega arith) h.2)
    read_logical_type-encode (with_info id alias sh) zero d h = absurd (omega arith)

    read_shape :
        (sh : Shape) (f : ℕ)
        → depth_shape sh ≤ f
        → FitsShape sh
        → ReadsNested total (read_logical_type f) sh
    read_shape (decimal w s) f d h = tt
    read_shape (list t) f d h = read_logical_type-encode t f d h
    read_shape (struct fs) f d h = read_encoded_fields fs f d h.1
    read_shape (array t n) f d h = read_logical_type-encode t f d h.0

    read_encoded_fields :
        (fs : Fields) (f : ℕ)
        → depth_fields fs ≤ f
        → FitsFields fs
        → ReadsFields total (read_logical_type f) fs
    read_encoded_fields end f d h = read_no_fields f
    read_encoded_fields (field name t fs) f d h =
        read_field-encode total (read_logical_type f) name t fs short h.0
          (read_logical_type-encode t f (omega arith) h.1)
          (read_encoded_fields fs f (omega arith) h.2)
