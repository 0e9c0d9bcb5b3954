-- ===== src/Duckdb/TypeDecode/Types.antt =====
-- `decodedType` of converge/duckdb/typedecode.go, its text, and the quoting of field names.
use duckdb_wasm2go_poc.Base.{
  ℕ, Bool, true, false, not, ◌&&◌, ◌||◌, List, [], ◌∷◌, ◌++◌, leb, ◌==◌, if◌then◌else◌, Bytes,
  Option, none, some,
}
use duckdb_wasm2go_poc.Base.Text.{codes, itoa, join}

-- A `*decodedType`: nil, or the id and what `readTypeInfo` fills in (alias, children, width, scale,
-- size, hasInfo).
mutual
  pub data TypePtr : Type 0 where
    nil_type : TypePtr
    decoded : ℕ → Bytes → Children → ℕ → ℕ → ℕ → Bool → TypePtr

  -- `[]decodedChild`
  pub data Children : Type 0 where
    no_child : Children
    child : Bytes → TypePtr → Children → Children

-- `logicalTypeIdNames`
abbrev id_names : List (ℕ × Bytes)
id_names =
    (1, codes "\"NULL\"")
    ∷ (2, codes "UNKNOWN")
    ∷ (3, codes "ANY")
    ∷ (4, codes "UNBOUND")
    ∷ (5, codes "TEMPLATE")
    ∷ (6, codes "TYPE")
    ∷ (10, codes "BOOLEAN")
    ∷ (11, codes "TINYINT")
    ∷ (12, codes "SMALLINT")
    ∷ (13, codes "INTEGER")
    ∷ (14, codes "BIGINT")
    ∷ (15, codes "DATE")
    ∷ (16, codes "TIME")
    ∷ (17, codes "TIMESTAMP_S")
    ∷ (18, codes "TIMESTAMP_MS")
    ∷ (19, codes "TIMESTAMP")
    ∷ (20, codes "TIMESTAMP_NS")
    ∷ (21, codes "DECIMAL")
    ∷ (22, codes "FLOAT")
    ∷ (23, codes "DOUBLE")
    ∷ (24, codes "CHAR")
    ∷ (25, codes "VARCHAR")
    ∷ (26, codes "BLOB")
    ∷ (27, codes "INTERVAL")
    ∷ (28, codes "UTINYINT")
    ∷ (29, codes "USMALLINT")
    ∷ (30, codes "UINTEGER")
    ∷ (31, codes "UBIGINT")
    ∷ (32, codes "TIMESTAMP WITH TIME ZONE")
    ∷ (34, codes "TIME WITH TIME ZONE")
    ∷ (35, codes "TIME_NS")
    ∷ (36, codes "BIT")
    ∷ (39, codes "BIGNUM")
    ∷ (49, codes "UHUGEINT")
    ∷ (50, codes "HUGEINT")
    ∷ (54, codes "UUID")
    ∷ (60, codes "GEOMETRY")
    ∷ (100, codes "STRUCT")
    ∷ (101, codes "LIST")
    ∷ (102, codes "MAP")
    ∷ (104, codes "ENUM")
    ∷ (107, codes "UNION")
    ∷ (108, codes "ARRAY")
    ∷ (109, codes "VARIANT")
    ∷ []

lookup_name : ℕ → List (ℕ × Bytes) → Bytes
lookup_name id [] = []
lookup_name id ((i, name) ∷ rest) = if i == id then name else lookup_name id rest

-- `strings.ReplaceAll(name, "\"", "\"\"")`
unfoldable pub double_quotes : Bytes → Bytes
double_quotes [] = []
double_quotes (c ∷ cs) =
    let rest = double_quotes cs in if c == b'"' then b'"' ∷ b'"' ∷ rest else c ∷ rest

-- the loop of `sqlIdentifier`; the flag is `i == 0`
unfoldable pub is_plain : Bool → Bytes → Bool
is_plain first [] = true
is_plain first (c ∷ cs) =
    ((leb b'a' c && leb c b'z') || c == b'_' || (not first && leb b'0' c && leb c b'9'))
    && is_plain false cs

abbrev pub is_empty : Bytes → Bool
is_empty [] = true
is_empty (c ∷ cs) = false

-- `sqlIdentifier`
unfoldable pub sql_identifier : Bytes → Bytes
sql_identifier name =
    if not (is_empty name) && is_plain true name
    then name
    else b'"' ∷ (double_quotes name ++ (b'"' ∷ []))

-- whether every field is unnamed
unfoldable pub unnamed : Children → Bool
unnamed no_child = true
unnamed (child name t cs) = is_empty name && unnamed cs

abbrev names_parts : Bool → Bytes → Bytes → Bytes
names_parts bare name text = if bare then text else sql_identifier name ++ (b' ' ∷ text)

abbrev list_text : Bool → List Bytes → Bytes
list_text false parts = codes "LIST"
list_text true [] = codes "LIST"
list_text true (x ∷ xs) = x ++ codes "[]"

abbrev array_text : Bool → ℕ → List Bytes → Bytes
array_text false size parts = codes "ARRAY"
array_text true size [] = codes "ARRAY"
array_text true size (x ∷ xs) =
    if size == 0 then x ++ codes "[ANY]" else x ++ (b'[' ∷ (itoa size ++ codes "]"))

-- the key and value texts of the one child of a MAP, if that is a STRUCT of two
abbrev map_text : Bool → List (Option (Bytes × Bytes)) → Bytes
map_text false kvs = codes "MAP"
map_text true [] = codes "MAP"
map_text true (none ∷ kvs) = codes "MAP"
map_text true (some (k, v) ∷ kvs) = codes "MAP(" ++ (k ++ (codes ", " ++ (v ++ codes ")")))

abbrev pair_of : List Bytes → Option (Bytes × Bytes)
pair_of (k ∷ v ∷ []) = some (k, v)
pair_of _ = none

abbrev decimal_text : Bool → ℕ → ℕ → Bytes
decimal_text info width scale =
    if not info || width == 0
    then codes "DECIMAL"
    else codes "DECIMAL(" ++ (itoa width ++ (b',' ∷ (itoa scale ++ codes ")")))

-- `String`; a nil pointer has no text
unfoldable mutual
  unfolding lookup_name

  pub type_text : TypePtr → Bytes
  type_text nil_type = []
  type_text (decoded id alias cs width scale size info) =
      let fields = field_texts (unnamed cs) cs in
      let texts = child_texts cs in
      let pairs = child_pairs cs in
      if not (is_empty alias)
      then alias
      else if id == 100
      then if info
        then codes "STRUCT(" ++ (join (codes ", ") fields ++ codes ")")
        else codes "STRUCT"
      else if id == 101
      then list_text info texts
      else if id == 102
      then map_text info pairs
      else if id == 108
      then array_text info size texts
      else if id == 21
      then decimal_text info width scale
      else lookup_name id id_names

  pub field_texts : Bool → Children → List Bytes
  field_texts bare no_child = []
  field_texts bare (child name t cs) = names_parts bare name (type_text t) ∷ field_texts bare cs

  pub child_texts : Children → List Bytes
  child_texts no_child = []
  child_texts (child name t cs) = type_text t ∷ child_texts cs

  -- for each child that is a STRUCT of two fields, their texts
  pub child_pairs : Children → List (Option (Bytes × Bytes))
  child_pairs no_child = []
  child_pairs (child name t cs) = struct_pair t ∷ child_pairs cs

  pub struct_pair : TypePtr → Option (Bytes × Bytes)
  struct_pair nil_type = none
  struct_pair (decoded id alias cs width scale size info) =
      let texts = child_texts cs in if id == 100 then pair_of texts else none
