-- ===== src/Duckdb/TypeDecode/RoundTrip/Depth.antt =====
-- The nesting of a type is bounded by the length of its blob.
use duckdb_wasm2go_poc.Base.{
  ℕ, zero, suc, ◌+◌, ◌<◌, ◌≤◌, [], ◌∷◌, Bytes, length, arith, ◌++◌, ◌/◌, length-append,
}
use duckdb_wasm2go_poc.Duckdb.TypeDecode.Encode.{
  LogicalType, plain, with_info, Shape, Fields, decimal, list, struct, array, end, field,
  varint_bytes, fid, terminated, opt_str, kind, encode, encode_shape, encode_fields, count,
  enc_varint, enc_str, opt_num, depth, depth_shape, depth_fields,
}

-- What an encoder adds in front of its argument has at least a byte for each level of nesting.
length-varint : (f n : ℕ) (rest : Bytes) → length rest < length (enc_varint f n rest)
length-varint zero n rest = omega arith
length-varint (suc f) n rest = ground (arith, length-varint f (n / 128) rest)

length-varint_bytes : (n : ℕ) (rest : Bytes) → length rest < length (varint_bytes n rest)
unfolding varint_bytes
length-varint_bytes n rest = length-varint 9 n rest

length-enc_str : (s rest : Bytes) → length rest < length (enc_str s rest)
length-enc_str s rest =
    omega (arith, length-varint_bytes (length s) (s ++ rest), length-append s rest)

length-opt_num : (id n : ℕ) (rest : Bytes) → length rest ≤ length (opt_num id n rest)
length-opt_num id zero rest = omega arith
length-opt_num id (suc n) rest = omega (arith, length-varint_bytes (suc n) rest)

length-opt_str : (id : ℕ) (s rest : Bytes) → length rest ≤ length (opt_str id s rest)
length-opt_str id [] rest = omega arith
length-opt_str id (c ∷ cs) rest = omega (arith, length-enc_str (c ∷ cs) rest)

mutual
  unfolding encode encode_shape encode_fields

  pub depth-encode :
      (t : LogicalType) (rest : Bytes) → depth t + length rest ≤ length (encode t rest)
  depth-encode (plain id) rest = omega (arith, length-varint_bytes id (terminated rest))
  depth-encode (with_info id alias sh) rest =
      let inner = encode_shape sh (terminated (terminated rest)) in
      let named = opt_str 101 alias inner in
      omega (
        arith,
        depth-encode_shape sh (terminated (terminated rest)),
        length-opt_str 101 alias inner,
        length-varint_bytes (kind sh) named,
        length-varint_bytes id (fid 101 (1 ∷ fid 100 (varint_bytes (kind sh) named))),
      )

  depth-encode_shape :
      (sh : Shape) (rest : Bytes) → depth_shape sh + length rest ≤ length (encode_shape sh rest)
  depth-encode_shape (decimal w s) rest =
      omega (arith, length-opt_num 201 s rest, length-opt_num 200 w (opt_num 201 s rest))
  depth-encode_shape (list t) rest = omega (arith, depth-encode t rest)
  depth-encode_shape (struct fs) rest =
      omega
        (arith, depth-encode_fields fs rest, length-varint_bytes (count fs) (encode_fields fs rest))
  depth-encode_shape (array t n) rest =
      omega (arith, length-opt_num 201 n rest, depth-encode t (opt_num 201 n rest))

  depth-encode_fields :
      (fs : Fields) (rest : Bytes) → depth_fields fs + length rest ≤ length (encode_fields fs rest)
  depth-encode_fields end rest = omega arith
  depth-encode_fields (field name t fs) rest = omega (
    arith,
    depth-encode_fields fs rest,
    depth-encode t (terminated (encode_fields fs rest)),
    length-enc_str name (fid 1 (encode t (terminated (encode_fields fs rest)))),
  )
