-- ===== src/Duckdb/Driver/TypeNames.antt =====
-- `typeName` of converge/duckdb/typename.go: the name of a logical type, read through the engine. The
-- recursion has fuel; a type of the engine is a finite tree.
use duckdb_wasm2go_poc.Base.{ℕ, zero, suc, ◌+◌, List, [], ◌∷◌, ◌++◌, ◌==◌, if◌then◌else◌, Bytes}
use duckdb_wasm2go_poc.Base.Text.{codes, itoa, join}
use duckdb_wasm2go_poc.Wasi.State.{no_bytes}
use duckdb_wasm2go_poc.Duckdb.Driver.{
  Call, Engine, engine_text, logical_type, acquire, release, Prog, pure, out_of_fuel, ◌>>=◌, ◌>>◌,
  call, note,
}
use duckdb_wasm2go_poc.Duckdb.Driver.Module.{give_back}

-- What `typeName` asks of a logical type; a text is a pointer, which is null for none.
pub record TypeReader (e : Engine) : Type 0 where
  pub decimal_width : ℕ → Call e.World ℕ
  pub decimal_scale : ℕ → Call e.World ℕ
  pub get_alias : ℕ → Call e.World ℕ
  pub list_child : ℕ → Call e.World ℕ
  pub array_child : ℕ → Call e.World ℕ
  pub array_size : ℕ → Call e.World ℕ
  pub map_key : ℕ → Call e.World ℕ
  pub map_value : ℕ → Call e.World ℕ
  pub struct_count : ℕ → Call e.World ℕ
  pub struct_name : ℕ → ℕ → Call e.World ℕ
  pub struct_child : ℕ → ℕ → Call e.World ℕ
  pub union_count : ℕ → Call e.World ℕ
  pub union_name : ℕ → ℕ → Call e.World ℕ
  pub union_child : ℕ → ℕ → Call e.World ℕ
  pub free_text : ℕ → Call e.World (Unit {0})

-- `strings.ReplaceAll` of a double quote by two
unfoldable pub doubled_idents : Bytes → Bytes
doubled_idents [] = []
doubled_idents (c ∷ cs) =
    let rest = doubled_idents cs in if c == b'"' then b'"' ∷ b'"' ∷ rest else c ∷ rest

-- `quoteTypeIdent`
unfoldable pub quote_type_ident : Bytes → Bytes
quote_type_ident name = b'"' ∷ (doubled_idents name ++ (b'"' ∷ []))

-- `scalarTypeNames`; the empty text is an id that it does not have
unfoldable pub scalar_type_name : ℕ → Bytes
scalar_type_name tid =
    if tid == 1
    then codes "BOOLEAN"
    else if tid == 2
    then codes "TINYINT"
    else if tid == 3
    then codes "SMALLINT"
    else if tid == 4
    then codes "INTEGER"
    else if tid == 5
    then codes "BIGINT"
    else if tid == 6
    then codes "UTINYINT"
    else if tid == 7
    then codes "USMALLINT"
    else if tid == 8
    then codes "UINTEGER"
    else if tid == 9
    then codes "UBIGINT"
    else if tid == 10
    then codes "FLOAT"
    else if tid == 11
    then codes "DOUBLE"
    else if tid == 12
    then codes "TIMESTAMP"
    else if tid == 13
    then codes "DATE"
    else if tid == 14
    then codes "TIME"
    else if tid == 15
    then codes "INTERVAL"
    else if tid == 16
    then codes "HUGEINT"
    else if tid == 32
    then codes "UHUGEINT"
    else if tid == 18
    then codes "BLOB"
    else if tid == 20
    then codes "TIMESTAMP_S"
    else if tid == 21
    then codes "TIMESTAMP_MS"
    else if tid == 22
    then codes "TIMESTAMP_NS"
    else if tid == 27
    then codes "UUID"
    else if tid == 29
    then codes "BIT"
    else if tid == 30
    then codes "TIME WITH TIME ZONE"
    else if tid == 31
    then codes "TIMESTAMP WITH TIME ZONE"
    else if tid == 39
    then codes "TIME_NS"
    else if tid == 35
    then codes "BIGNUM"
    else if tid == 40
    then codes "GEOMETRY"
    else if tid == 41
    then codes "VARIANT"
    else []

module _ (e : Engine) (t : TypeReader e) where
  abbrev Code : Type 0 → Type 0
  Code A = Prog e.World A

  -- a text of the engine, which is freed
  unfoldable pub take_text : ℕ → Code Bytes
  take_text at = do
    note (acquire engine_text at)
    s ← call (e.go_string at)
    note (release engine_text at)
    call (t.free_text at)
    pure s

  -- a logical type that the engine gives; a null one is none
  unfoldable pub take_type : ℕ → Code (Unit {0})
  take_type lt = if lt == 0 then pure tt else note (acquire logical_type lt)

  -- `destroyLogicalType`
  unfoldable pub destroy_type : ℕ → Code (Unit {0})
  destroy_type lt = if lt == 0 then pure tt else give_back e logical_type e.destroy_logical_type lt

  -- a logical type that is read and destroyed
  unfoldable pub with_child : {A : Type 0} → (ℕ → Code A) → ℕ → Code A
  with_child read lt = do a ← read lt; destroy_type lt; pure a

  -- the case of VARCHAR: the alias, if it has one
  unfoldable pub varchar_name : ℕ → Code Bytes
  varchar_name lt = do
    at ← call (t.get_alias lt)
    if at == 0
        then pure (codes "VARCHAR")
        else (do alias ← take_text at; pure (if no_bytes alias then codes "VARCHAR" else alias))

  -- the loop over the fields of a STRUCT or the members of a UNION, from one on
  unfoldable pub field_names :
      (ℕ → Code Bytes)
      → (ℕ → ℕ → Call e.World ℕ)
      → (ℕ → ℕ → Call e.World ℕ)
      → ℕ
      → ℕ
      → ℕ
      → Code (List Bytes)
  field_names rec name_of child_of lt zero i = pure []
  field_names rec name_of child_of lt (suc n) i = do
    at ← call (name_of lt i)
    name ← take_text at
    child ← call (child_of lt i)
    take_type child
    s ← with_child rec child
    rest ← field_names rec name_of child_of lt n (i + 1)
    pure ((quote_type_ident name ++ (b' ' ∷ s)) ∷ rest)

  -- the cases of STRUCT and UNION
  unfoldable pub fields_name :
      Bytes
      → (ℕ → Code Bytes)
      → (ℕ → Call e.World ℕ)
      → (ℕ → ℕ → Call e.World ℕ)
      → (ℕ → ℕ → Call e.World ℕ)
      → ℕ
      → Code Bytes
  fields_name word rec count_of name_of child_of lt = do
    n ← call (count_of lt)
    parts ← field_names rec name_of child_of lt n 0
    pure (word ++ (join (codes ", ") parts ++ codes ")"))

  -- the case of LIST
  unfoldable pub list_name : (ℕ → Code Bytes) → ℕ → Code Bytes
  list_name rec lt = do
    child ← call (t.list_child lt)
    take_type child
    s ← with_child rec child
    pure (s ++ codes "[]")

  -- the case of ARRAY: the size is read before the child is destroyed
  unfoldable pub array_name : (ℕ → Code Bytes) → ℕ → Code Bytes
  array_name rec lt = do
    child ← call (t.array_child lt)
    take_type child
    with_child
        (λ (c : ℕ).
          rec c >>= λ s. call (t.array_size lt) >>= λ n. pure (s ++ (b'[' ∷ (itoa n ++ codes "]"))))
        child

  -- the case of MAP
  unfoldable pub map_name : (ℕ → Code Bytes) → ℕ → Code Bytes
  map_name rec lt = do
    kt ← call (t.map_key lt)
    take_type kt
    vt ← call (t.map_value lt)
    take_type vt
    k ← rec kt
    v ← rec vt
    destroy_type kt
    destroy_type vt
    pure (codes "MAP(" ++ (k ++ (codes ", " ++ (v ++ codes ")"))))

  -- the case of DECIMAL
  unfoldable pub decimal_name : ℕ → Code Bytes
  decimal_name lt = do
    w ← call (t.decimal_width lt)
    s ← call (t.decimal_scale lt)
    pure (codes "DECIMAL(" ++ (itoa w ++ (b',' ∷ (itoa s ++ codes ")"))))

  -- the switch of `typeName`
  unfoldable pub name_of_kind : (ℕ → Code Bytes) → ℕ → ℕ → Code Bytes
  name_of_kind rec tid lt =
      if tid == 19
      then decimal_name lt
      else if tid == 17
      then varchar_name lt
      else if tid == 23
      then pure (codes "ENUM")
      else if tid == 24
      then list_name rec lt
      else if tid == 33
      then array_name rec lt
      else if tid == 26
      then map_name rec lt
      else if tid == 25
      then fields_name (codes "STRUCT(") rec t.struct_count t.struct_name t.struct_child lt
      else if tid == 28
      then fields_name (codes "UNION(") rec t.union_count t.union_name t.union_child lt
      else pure (scalar_type_name tid)

  -- `typeName`
  unfoldable pub type_name : ℕ → ℕ → Code Bytes
  type_name zero lt = out_of_fuel
  type_name (suc f) lt = do tid ← call (e.get_type_id lt); name_of_kind (type_name f) tid lt
