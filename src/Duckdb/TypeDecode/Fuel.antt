-- ===== src/Duckdb/TypeDecode/Fuel.antt =====
-- The decoder of converge/duckdb/typedecode.go ends on every input: its nesting is bounded by the
-- bytes left, since each nested type takes bytes or finds the error flag set.
mod Reads
use duckdb_wasm2go_poc.Base.{ℕ, zero, suc, ◌^◌, ◌<◌, ◌≢◌, inl, inr, ◌||◌, ltb, length, arith, refl}
use duckdb_wasm2go_poc.Duckdb.TypeDecode.Reader.{
  TypeDec, Run, done, panicked, exhausted, Decoder, varint, expect_field,
}
use duckdb_wasm2go_poc.Duckdb.TypeDecode.Types.{TypePtr, Children}
use duckdb_wasm2go_poc.Duckdb.TypeDecode.Decode.{
  Info, read_fields, read_struct, read_field, counted_fields, logical_rest, read_child,
  read_decimal, read_list, read_struct_info, read_array, read_kind, read_type_info, finish,
  read_nullable, read_logical_type,
}
use duckdb_wasm2go_poc.Duckdb.TypeDecode.Fuel.Reads.{
  After, Good, After-bind, Good-bind, Good-pure, expect_after, Good-varint, After-if, good_rules,
}

module _ {n : ℕ} (rec : Decoder TypePtr) (good : Good n rec) where
  Good-read_field : (others : Decoder Children) → Good n others → Good n (read_field rec others)
  unfolding read_field
  Good-read_field others g = search good_rules depth 12

  Good-read_fields : (k : ℕ) → Good n (read_fields rec k)
  unfolding read_fields
  Good-read_fields zero = Good-pure _
  Good-read_fields (suc k) = record {
    at = λ d h.
        After-if n d.bad _ _ h ((Good-read_field (read_fields rec k) (Good-read_fields k)).at d h);
  }

  Good-counted_fields : (k : ℕ) → Good n (counted_fields rec k)
  unfolding counted_fields
  Good-counted_fields k = record {
    at = λ d h.
        After-if n (d.bad || ltb (2 ^ 20) k) _ _ (inr refl)
          ((Good-bind (read_fields rec k) _ (Good-read_fields k) (λ cs. Good-pure _)).at d h);
  }

  Good-read_struct : Good n (read_struct rec)
  unfolding read_struct
  Good-read_struct = Good-bind varint _ Good-varint Good-counted_fields

  Good-read_child : Good n (read_child rec)
  unfolding read_child
  Good-read_child = search good_rules

  Good-read_list : (info : Info) → Good n (read_list rec info)
  unfolding read_list
  Good-read_list info = search (good_rules, Good-read_child) depth 8

  Good-read_array : (info : Info) → Good n (read_array rec info)
  unfolding read_array
  Good-read_array info = search (good_rules, Good-read_child) depth 8

  Good-read_struct_info : (info : Info) → Good n (read_struct_info rec info)
  unfolding read_struct_info
  Good-read_struct_info info = search (good_rules, Good-read_struct) depth 8

  Good-read_decimal : (info : Info) → Good n (read_decimal info)
  unfolding read_decimal
  Good-read_decimal info = search good_rules depth 8

  Good-read_kind : (kind : ℕ) (info : Info) → Good n (read_kind rec kind info)
  Good-read_kind kind info =
      unfold read_kind in
      search (good_rules, Good-read_list, Good-read_array, Good-read_struct_info, Good-read_decimal)
        depth 8

  Good-read_type_info : Good n (read_type_info rec)
  unfolding read_type_info
  Good-read_type_info = search (good_rules, Good-read_kind) depth 10

module _ {n : ℕ} (read : Decoder Info) (good : Good n read) where
  Good-read_nullable : (id : ℕ) → Good n (read_nullable id read)
  unfolding read_nullable
  Good-read_nullable id = search good_rules depth 8

  Good-finish : (t : TypePtr) → Good n (finish t)
  unfolding finish
  Good-finish t = record { at = λ d h. After-if n d.bad _ _ h h }

  Good-logical_rest : Good n (logical_rest read)
  unfolding logical_rest
  Good-logical_rest = search (good_rules, Good-read_nullable, Good-finish) depth 10

After-suc : {A : Type 0} (n : ℕ) (r : Run A) → After n r → After (suc n) r
After-suc n (done a d) (inl h) = inl (omega arith)
After-suc n (done a d) (inr h) = inr h
After-suc n panicked h = tt
After-suc n exhausted h = h

Good-read_logical_type : (f : ℕ) → Good f (read_logical_type f)
unfolding read_logical_type
Good-read_logical_type zero = record {
  at = λ d h. elim h [ inl k ↦ absurd (omega arith) | inr flagged ↦ rw flagged (inr refl) ];
}
Good-read_logical_type (suc f) =
    let inner = Good-read_type_info (read_logical_type f) (Good-read_logical_type f) in
    let rest = logical_rest (read_type_info (read_logical_type f)) in
    record {
      at = λ d h. After-if (suc f) d.bad _ _ h (
          After-suc f _ (
            After-bind (expect_field 100 d) (λ _. rest)
              (expect_after 100 f d (elim h [ inl k ↦ inl (omega arith) | inr k ↦ inr k ]))
              (λ _. Good-logical_rest _ inner)));
    }

-- With one more unit of fuel than there are bytes left, the decoder ends on every input, well formed
-- or not: it returns a type, or nil, or panics.
pub read_logical_type_ends :
    (f : ℕ) (d : TypeDec) → length d.rest < f → read_logical_type f d ≢ exhausted
read_logical_type_ends f d h e = rw e at ((Good-read_logical_type f).at d (inl h))
