-- ===== src/Duckdb/TypeDecode/RoundTrip/Kinds.antt =====
-- The info of each kind of type is read back, given that the nested types are.
use duckdb_wasm2go_poc.Base.{
  ℕ, zero, suc, ◌^◌, ◌<◌, ◌≤◌, ◌≡◌, true, false, [], ltb, ◌==◌, Bytes, length, arith, refl, ◌∙◌,
}
use duckdb_wasm2go_poc.Duckdb.TypeDecode.Reader.{
  done, Decoder, ◌>>=◌, ◌>>◌, u16, peek_u16, bool_byte, expect_field, object_end,
}
use duckdb_wasm2go_poc.Duckdb.TypeDecode.Types.{TypePtr, no_child, child}
use duckdb_wasm2go_poc.Duckdb.TypeDecode.Decode.{
  Info, with_alias, optional, read_field, read_fields, counted_fields, read_struct, read_child,
  read_decimal, read_list, read_struct_info, read_array, read_kind, read_type_info,
}
use duckdb_wasm2go_poc.Duckdb.TypeDecode.Encode.{
  LogicalType, Shape, Fields, decimal, list, struct, array, field, count, varint_bytes, enc_str,
  fid, terminated, opt_num, opt_str, kind, encode, encode_shape, encode_fields, to_ptr, to_children,
  FitsShape,
}
use duckdb_wasm2go_poc.Duckdb.TypeDecode.RoundTrip.Tokens.{
  at, varint-varint_bytes, str-enc_str, optional_absent, optional_present, optional-opt_num,
  optional-opt_str,
}

peek-opt_num :
    (id n : ℕ) (rest : Bytes) (other : ℕ)
    → (peek_u16 rest == other) ≡ false
    → (id == other) ≡ false
    → (peek_u16 (opt_num id n rest) == other) ≡ false
unfolding peek_u16
peek-opt_num id zero rest other e ne = e
peek-opt_num id (suc n) rest other e ne = ground arith

-- what `readTypeInfo` makes of a shape
abbrev pub shape_info : Bytes → Shape → Info
shape_info alias (decimal w s) = record (with_alias alias) { width = w; scale = s }
shape_info alias (list t) = record (with_alias alias) { children = child [] (to_ptr t) no_child }
shape_info alias (struct fs) = record (with_alias alias) { children = to_children fs }
shape_info alias (array t n) = record (with_alias alias) {
  children = child [] (to_ptr t) no_child;
  size = n;
}

module _ (total : ℕ) where
  read_decimal-encode :
      (info : Info) (w s : ℕ) (rest : Bytes)
      → w < 2 ^ 64
      → s < 2 ^ 64
      → read_decimal info (at total (opt_num 200 w (opt_num 201 s (terminated rest))))
        ≡ done (record info { width = w; scale = s }) (at total rest)
  unfolding read_decimal
  read_decimal-encode info w s rest hw hs =
      let p : (peek_u16 (opt_num 201 s (terminated rest)) == 200) ≡ false =
        peek-opt_num 201 s (terminated rest) 200 (unfold peek_u16 in refl) refl in
      let q : (peek_u16 (terminated rest) == 201) ≡ false = unfold peek_u16 in refl in
      rw (optional-opt_num total 200 w _ hw p, ◌>>=◌)
        (rw (optional-opt_num total 201 s _ hs q, ◌>>=◌) (unfold object_end in unfold u16 in refl))

  -- Whether a reader of types reads `t` back, whatever follows it.
  abbrev pub Reads : Decoder TypePtr → LogicalType → Type 0
  Reads rec t = (rest : Bytes) → rec (at total (encode t rest)) ≡ done (to_ptr t) (at total rest)

  -- Whether the loop over fields reads `fs` back.
  abbrev pub ReadsFields : Decoder TypePtr → Fields → Type 0
  ReadsFields rec fs =
      (rest : Bytes)
      → read_fields rec (count fs) (at total (encode_fields fs rest))
        ≡ done (to_children fs) (at total rest)

  abbrev pub ReadsNested : Decoder TypePtr → Shape → Type 0
  ReadsNested rec (decimal w s) = Unit
  ReadsNested rec (list t) = Reads rec t
  ReadsNested rec (struct fs) = ReadsFields rec fs
  ReadsNested rec (array t n) = Reads rec t

  read_child-encode :
      (rec : Decoder TypePtr) (t : LogicalType) (rest : Bytes)
      → Reads rec t
      → optional 200 no_child (read_child rec) (at total (fid 200 (encode t rest)))
        ≡ done (child [] (to_ptr t) no_child) (at total rest)
  unfolding read_child
  read_child-encode rec t rest r =
      optional_present total 200 no_child (read_child rec) (encode t rest) ∙ rw (r rest, ◌>>=◌) refl

  read_struct-encode :
      (rec : Decoder TypePtr) (fs : Fields) (rest : Bytes)
      → ReadsFields rec fs
      → count fs ≤ 2 ^ 20
      → optional 200
          (true, no_child)
          (read_struct rec)
          (at total (fid 200 (varint_bytes (count fs) (encode_fields fs rest))))
        ≡ done (true, to_children fs) (at total rest)
  unfolding read_struct counted_fields
  read_struct-encode rec fs rest r small =
      let few : ltb (2 ^ 20) (count fs) ≡ false = ground arith in
      optional_present total 200 (true, no_child) (read_struct rec) _
      ∙ rw (varint-varint_bytes (count fs) total _ (omega arith), ◌>>=◌)
          (rw few (rw (r rest, ◌>>=◌) refl))

  read_kind-encode :
      (rec : Decoder TypePtr) (alias : Bytes) (sh : Shape) (rest : Bytes)
      → FitsShape sh
      → ReadsNested rec sh
      → read_kind rec (kind sh) (with_alias alias) (at total (encode_shape sh (terminated rest)))
        ≡ done (shape_info alias sh) (at total rest)
  unfolding read_kind encode_shape
  read_kind-encode rec alias (decimal w s) rest (hw, hs) r =
      read_decimal-encode (with_alias alias) w s rest hw hs
  read_kind-encode rec alias (list t) rest fits r =
      unfold read_list in
      rw (read_child-encode rec t (terminated rest) r, ◌>>=◌)
        (unfold object_end in unfold u16 in refl)
  read_kind-encode rec alias (struct fs) rest (small, fits) r =
      unfold read_struct_info in
      rw (read_struct-encode rec fs (terminated rest) r small, ◌>>=◌)
        (unfold object_end in unfold u16 in refl)
  read_kind-encode rec alias (array t n) rest (fits, hn) r =
      unfold read_array in
      let q : (peek_u16 (terminated rest) == 201) ≡ false = unfold peek_u16 in refl in
      rw (read_child-encode rec t _ r, ◌>>=◌)
        (rw (optional-opt_num total 201 n _ hn q, ◌>>=◌) (unfold object_end in unfold u16 in refl))

  -- No shape begins with the id of an alias or of extension info.
  peek-encode_shape :
      (sh : Shape) (rest : Bytes)
      → ((peek_u16 (encode_shape sh (terminated rest)) == 101) ≡ false)
        × ((peek_u16 (encode_shape sh (terminated rest)) == 103) ≡ false)
  unfolding peek_u16 encode_shape
  peek-encode_shape (decimal zero zero) rest = (refl, refl)
  peek-encode_shape (decimal zero (suc s)) rest = (refl, refl)
  peek-encode_shape (decimal (suc w) s) rest = (refl, refl)
  peek-encode_shape (list t) rest = (refl, refl)
  peek-encode_shape (struct fs) rest = (refl, refl)
  peek-encode_shape (array t n) rest = (refl, refl)

  kind-small : (sh : Shape) → kind sh < 10
  kind-small (decimal w s) = omega arith
  kind-small (list t) = omega arith
  kind-small (struct fs) = omega arith
  kind-small (array t n) = omega arith

  pub read_type_info-encode :
      (rec : Decoder TypePtr) (alias : Bytes) (sh : Shape) (rest : Bytes)
      → total < 2 ^ 62
      → length alias < 2 ^ 62
      → FitsShape sh
      → ReadsNested rec sh
      → read_type_info rec (
          at total (
            fid 100
              (varint_bytes (kind sh) (opt_str 101 alias (encode_shape sh (terminated rest))))))
        ≡ done (shape_info alias sh) (at total rest)
  unfolding read_type_info
  read_type_info-encode rec alias sh rest ht ha fits r =
      let (p, q) = peek-encode_shape sh rest in
      let k : kind sh < 2 ^ 64 = omega (arith, kind-small sh) in
      let first : expect_field 100 (
            at total (
              fid 100
                (varint_bytes (kind sh) (opt_str 101 alias (encode_shape sh (terminated rest))))))
          ≡ done tt (
              at total
                (varint_bytes (kind sh) (opt_str 101 alias (encode_shape sh (terminated rest))))) =
        unfold expect_field in unfold u16 in refl in
      rw (first, ◌>>=◌, ◌>>◌)
        (rw (varint-varint_bytes (kind sh) total _ k, ◌>>=◌)
          (rw (optional-opt_str total 101 alias _ ha ht p, ◌>>=◌)
            (rw (optional_absent total 103 false bool_byte _ q, ◌>>=◌)
              (read_kind-encode rec alias sh rest fits r))))

  -- A field, and those behind it.
  pub read_field-encode :
      (rec : Decoder TypePtr) (name : Bytes) (t : LogicalType) (fs : Fields)
      → total < 2 ^ 62
      → length name < 2 ^ 62
      → Reads rec t
      → ReadsFields rec fs
      → ReadsFields rec (field name t fs)
  unfolding read_fields encode_fields read_field to_children
  read_field-encode rec name t fs ht hn r rs rest =
      let first : expect_field 0 (
            at total (fid 0 (enc_str name (fid 1 (encode t (terminated (encode_fields fs rest)))))))
          ≡ done tt
              (at total (enc_str name (fid 1 (encode t (terminated (encode_fields fs rest)))))) =
        unfold expect_field in unfold u16 in refl in
      let second : expect_field 1 (at total (fid 1 (encode t (terminated (encode_fields fs rest)))))
          ≡ done tt (at total (encode t (terminated (encode_fields fs rest)))) =
        unfold expect_field in unfold u16 in refl in
      let last : object_end (at total (terminated (encode_fields fs rest)))
          ≡ done tt (at total (encode_fields fs rest)) =
        unfold object_end in unfold u16 in refl in
      rw (first, ◌>>=◌, ◌>>◌)
        (rw (str-enc_str name total _ hn ht, ◌>>=◌)
          (rw (second, ◌>>=◌) (rw (r _, ◌>>=◌) (rw (last, ◌>>=◌) (rw (rs rest, ◌>>=◌) refl)))))
