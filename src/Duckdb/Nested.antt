-- ===== src/Duckdb/Nested.antt =====
-- Values inside others as text: `quoteNestedDuckDB` of converge/duckdb/variant.go, and `Struct` and
-- `MapValue` of converge/duckdb/nested.go. The text of a value is that of package fmt, a parameter.
use duckdb_wasm2go_poc.Base.{
  ℕ, zero, suc, ◌+◌, Bool, true, false, not, ◌&&◌, ◌||◌, List, [], ◌∷◌, ◌++◌, Option, none, some,
  ltb, leb, ◌==◌, if◌then◌else◌, Bytes,
}
use duckdb_wasm2go_poc.Base.Text.{codes, text_eq}
pub mod Quoting
mod Tests

-- `isSpaceByteDD`
abbrev pub is_space_byte : ℕ → Bool
is_space_byte c = c == b' ' || c == 9 || c == 10 || c == 13

-- the bytes that make `strings.ContainsAny` true
abbrev pub is_delimiter : ℕ → Bool
is_delimiter c =
    c == b'"'
    || c == b'\''
    || c == b'('
    || c == b')'
    || c == b','
    || c == b':'
    || c == b'='
    || c == b'['
    || c == b']'
    || c == b'{'
    || c == b'}'

abbrev pub has_delimiter : Bytes → Bool
has_delimiter [] = false
has_delimiter (c ∷ cs) = is_delimiter c || has_delimiter cs

-- the test of the last byte, of a text of two or more
abbrev pub ends_in_space : Bytes → Bool
ends_in_space [] = false
ends_in_space (c ∷ []) = false
ends_in_space (c ∷ d ∷ []) = is_space_byte d
ends_in_space (c ∷ d ∷ e ∷ cs) = ends_in_space (d ∷ e ∷ cs)

abbrev pub lower : ℕ → ℕ
lower c = if leb b'A' c && leb c b'Z' then c + 32 else c

-- `strings.EqualFold(s, "null")`: no other letter folds to one of these
abbrev pub is_null_word : Bytes → Bool
is_null_word (n ∷ u ∷ l ∷ l' ∷ []) =
    text_eq (lower n ∷ lower u ∷ lower l ∷ lower l' ∷ []) (codes "null")
is_null_word _ = false

abbrev pub starts_in_space : Bytes → Bool
starts_in_space [] = false
starts_in_space (c ∷ cs) = is_space_byte c

abbrev pub is_empty_text : Bytes → Bool
is_empty_text [] = true
is_empty_text (c ∷ cs) = false

-- whether a text needs quotes
unfoldable pub needs_quotes : Bytes → Bool
needs_quotes s =
    is_empty_text s || starts_in_space s || ends_in_space s || is_null_word s || has_delimiter s

-- the loop that escapes, with the quote behind it
unfoldable pub escape_quoted : Bytes → Bytes
escape_quoted [] = codes "'"
escape_quoted (c ∷ cs) =
    let rest = escape_quoted cs in if c == b'\'' || c == b'\\' then b'\\' ∷ c ∷ rest else c ∷ rest

-- `quoteNestedDuckDB`
unfoldable pub quote_nested : Bytes → Bytes
quote_nested s = let quoted = escape_quoted s in if needs_quotes s then b'\'' ∷ quoted else s

module _ {V : Type 0} (sprint : V → Bytes) where
  -- `nestedDebugString`; a nil value is none
  abbrev pub nested_debug_string : Option V → Bytes
  nested_debug_string none = codes "NULL"
  nested_debug_string (some v) = sprint v

  abbrev pub separated : Bool → Bytes → Bytes
  separated is_first text = if is_first then text else codes ", " ++ text

  -- the fields of `Struct.String`; fewer values than names are a Go panic
  unfoldable pub struct_fields : Bool → List Bytes → List (Option V) → Option Bytes
  struct_fields is_first [] vs = some (codes "}")
  struct_fields is_first (n ∷ ns) [] = none
  struct_fields is_first (n ∷ ns) (v ∷ vs) = elim (struct_fields false ns vs) [
    | none ↦ none
    | some rest ↦
        some (separated is_first (b'\'' ∷ (n ++ (codes "': " ++ nested_debug_string v))) ++ rest)
  ]

  -- `String` of a `Struct`
  unfoldable pub struct_string : List Bytes → List (Option V) → Option Bytes
  unfolding struct_fields
  struct_string names vs = elim (struct_fields true names vs) [
    | none ↦ none
    | some fields ↦ some (b'{' ∷ fields)
  ]

  -- the entries of `MapValue.String`
  unfoldable pub map_entries : Bool → List (Option V) → List (Option V) → Option Bytes
  map_entries is_first [] vs = some (codes "}")
  map_entries is_first (k ∷ ks) [] = none
  map_entries is_first (k ∷ ks) (v ∷ vs) = elim (map_entries false ks vs) [
    | none ↦ none
    | some rest ↦
        some (separated is_first (nested_debug_string k ++ (b'=' ∷ nested_debug_string v)) ++ rest)
  ]

  -- `String` of a `MapValue`
  unfoldable pub map_string : List (Option V) → List (Option V) → Option Bytes
  unfolding map_entries
  map_string keys vs = elim (map_entries true keys vs) [
    | none ↦ none
    | some entries ↦ some (b'{' ∷ entries)
  ]
