-- ===== src/Duckdb/TypeDecode/Quoting.antt =====
-- The quoting of identifiers in converge/duckdb/typedecode.go, read back the way SQL reads it: an
-- identifier is quoted, with quotes doubled inside, or a run of lower-case letters, digits and `_`.
use duckdb_wasm2go_poc.Base.{
  ℕ, ◌≡◌, Bool, true, false, not, ◌&&◌, ◌||◌, [], ◌∷◌, ◌++◌, Option, none, some, leb, ◌==◌,
  if◌then◌else◌, Bytes, arith, refl, ap, sym, ◌∙◌, Bool-cases, inl, inr,
}
use duckdb_wasm2go_poc.Duckdb.TypeDecode.Types.{double_quotes, is_plain, is_empty, sql_identifier}

abbrev add_front : ℕ → Option (Bytes × Bytes) → Option (Bytes × Bytes)
add_front c none = none
add_front c (some (s, rest)) = some (c ∷ s, rest)

-- behind the opening quote; the flag says that a quote was just read
unfoldable pub read_quoted : Bool → Bytes → Option (Bytes × Bytes)
read_quoted true [] = some ([], [])
read_quoted false [] = none
read_quoted true (c ∷ cs) =
    let more = add_front c (read_quoted false cs) in if c == b'"' then more else some ([], c ∷ cs)
read_quoted false (c ∷ cs) =
    let ended = read_quoted true cs in
    let more = add_front c (read_quoted false cs) in if c == b'"' then ended else more

abbrev identifier_byte : ℕ → Bool
identifier_byte c = (leb b'a' c && leb c b'z') || c == b'_' || (leb b'0' c && leb c b'9')

unfoldable pub bare_run : Bytes → Bytes × Bytes
bare_run [] = ([], [])
bare_run (c ∷ cs) =
    let (s, rest) = bare_run cs in if identifier_byte c then (c ∷ s, rest) else ([], c ∷ cs)

abbrev is_decimal_digit : ℕ → Bool
is_decimal_digit c = leb b'0' c && leb c b'9'

-- A bare name is not empty, starts with no digit, and is no keyword.
abbrev bare_value : (Bytes → Bool) → Bytes × Bytes → Option (Bytes × Bytes)
bare_value keyword ([], rest) = none
bare_value keyword (c ∷ s, rest) =
    if is_decimal_digit c || keyword (c ∷ s) then none else some (c ∷ s, rest)

unfoldable pub read_identifier : (Bytes → Bool) → Bytes → Option (Bytes × Bytes)
unfolding read_quoted bare_run
read_identifier keyword [] = none
read_identifier keyword (c ∷ cs) =
    let quoted = read_quoted false cs in
    let bare = bare_value keyword (bare_run (c ∷ cs)) in if c == b'"' then quoted else bare

quoted_name :
    (name rest : Bytes)
    → read_quoted false ((double_quotes name ++ (b'"' ∷ [])) ++ (b' ' ∷ rest))
      ≡ some (name, b' ' ∷ rest)
unfolding read_quoted double_quotes
quoted_name [] rest = refl
quoted_name (c ∷ cs) rest = elim (Bool-cases (c == b'"')) [
  | inl q ↦
      let same : c ≡ b'"' = ground arith in
      rw q (rw (quoted_name cs rest) (ap (λ (k : ℕ). some (k ∷ cs, b' ' ∷ rest)) (sym same)))
  | inr nq ↦ rw nq (rw nq (rw (quoted_name cs rest) refl))
]

plain_parts :
    (first : Bool) (c : ℕ) (cs : Bytes)
    → is_plain first (c ∷ cs) ≡ true
    → (identifier_byte c ≡ true) × (is_plain false cs ≡ true) × ((c == b'"') ≡ false)
unfolding is_plain
plain_parts first c cs e = ground arith

bare_name :
    (first : Bool) (name rest : Bytes)
    → is_plain first name ≡ true
    → bare_run (name ++ (b' ' ∷ rest)) ≡ (name, b' ' ∷ rest)
unfolding bare_run
bare_name first [] rest e = refl
bare_name first (c ∷ cs) rest e =
    let (here, there, _) = plain_parts first c cs e in
    rw here (rw (bare_name false cs rest there) refl)

-- A bare name that is not empty.
plain_name :
    (keyword : Bytes → Bool) (name rest : Bytes)
    → (not (is_empty name) && is_plain true name) ≡ true
    → keyword name ≡ false
    → read_identifier keyword (name ++ (b' ' ∷ rest)) ≡ some (name, b' ' ∷ rest)
unfolding read_identifier
plain_name keyword [] rest e k = cc
plain_name keyword (c ∷ cs) rest e k =
    let (_, _, plain) = plain_parts true c cs e in
    let first : is_decimal_digit c ≡ false = unfold is_plain in ground arith in
    let accepted : bare_value keyword (c ∷ cs, b' ' ∷ rest) ≡ some (c ∷ cs, b' ' ∷ rest) =
      rw first (rw k refl) in
    rw plain (ap (bare_value keyword) (bare_name true (c ∷ cs) rest e) ∙ accepted)

-- The name of a STRUCT field is read back from the text in front of the space that ends it, whatever
-- bytes the name has and whatever follows, by a reader that takes a quoted name, or a bare one that
-- starts with no digit and is no keyword; a name that is written bare is no keyword, which the code
-- does not test.
pub sql_identifier_read_back :
    (keyword : Bytes → Bool) (name rest : Bytes)
    → ((not (is_empty name) && is_plain true name) ≡ true → keyword name ≡ false)
    → read_identifier keyword (sql_identifier name ++ (b' ' ∷ rest)) ≡ some (name, b' ' ∷ rest)
unfolding sql_identifier
sql_identifier_read_back keyword name rest k =
    elim (Bool-cases (not (is_empty name) && is_plain true name)) [
      | inl bare ↦ rw bare (plain_name keyword name rest bare (k bare))
      | inr odd ↦ rw odd (unfold read_identifier in quoted_name name rest)
    ]
