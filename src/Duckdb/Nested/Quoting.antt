-- ===== src/Duckdb/Nested/Quoting.antt =====
-- A text that `quoteNestedDuckDB` of converge/duckdb/variant.go writes is read back.
use duckdb_wasm2go_poc.Base.{
  ℕ, ◌≡◌, Bool, true, false, ◌||◌, [], ◌∷◌, ◌++◌, Option, none, some, ◌==◌, if◌then◌else◌, Bytes,
  refl, ap, ◌∙◌, map, arith, Bool-cases, inl, inr,
}
use duckdb_wasm2go_poc.Base.Text.{codes, text_eq}
use duckdb_wasm2go_poc.Duckdb.Nested.{
  is_delimiter, has_delimiter, lower, is_null_word, starts_in_space, ends_in_space, needs_quotes,
  escape_quoted, quote_nested,
}

-- One byte in front of what was read.
abbrev put : ℕ → Option (Bytes × Bytes) → Option (Bytes × Bytes)
put c none = none
put c (some (text, rest)) = some (c ∷ text, rest)

-- The reader of a nested value, at its quote: a backslash takes the byte behind it, a quote ends the
-- text. It gives the text and what follows. `escaped` is a byte to take as it is.
unfoldable pub read_quoted : Bool → Bytes → Option (Bytes × Bytes)
read_quoted escaped [] = none
read_quoted true (c ∷ cs) = put c (read_quoted false cs)
read_quoted false (c ∷ cs) =
    let taken = read_quoted true cs in
    let plain = put c (read_quoted false cs) in
    if c == b'\\' then taken else if c == b'\'' then some ([], cs) else plain

-- a value up to a delimiter
unfoldable pub read_plain : Bytes → Bytes × Bytes
read_plain [] = ([], [])
read_plain (c ∷ cs) =
    let (text, rest) = read_plain cs in if is_delimiter c then ([], c ∷ cs) else (c ∷ text, rest)

-- a blank of a cast
abbrev is_blank : ℕ → Bool
is_blank c = c == 32 || c == 9 || c == 10 || c == 13

-- a byte in front of a text, left out where it is a blank at the end
abbrev put_byte : ℕ → Bytes → Bytes
put_byte c [] = if is_blank c then [] else c ∷ []
put_byte c (d ∷ ds) = c ∷ d ∷ ds

-- without the blanks in front, and without those at the end
unfoldable pub skip_blanks : Bytes → Bytes
skip_blanks [] = []
skip_blanks (c ∷ cs) = let rest = skip_blanks cs in if is_blank c then rest else c ∷ cs

unfoldable pub trim_end : Bytes → Bytes
trim_end [] = []
trim_end (c ∷ cs) = put_byte c (trim_end cs)

-- What a value without quotes is: none without a byte, NULL by its name in any case, or a text.
unfoldable pub plain_value : Bytes × Bytes → Option (Option Bytes × Bytes)
plain_value ([], rest) = none
plain_value (c ∷ cs, rest) =
    if text_eq (map lower (c ∷ cs)) (codes "null")
    then some (none, rest)
    else some (some (c ∷ cs), rest)

abbrev quoted_value : Option (Bytes × Bytes) → Option (Option Bytes × Bytes)
quoted_value none = none
quoted_value (some (text, rest)) = some (some text, rest)

abbrev trimmed : Bytes × Bytes → Bytes × Bytes
trimmed (text, rest) = (trim_end text, rest)

-- The reader of a nested value, behind the blanks in front of it: none within is NULL.
unfoldable pub read_value : Bytes → Option (Option Bytes × Bytes)
unfolding plain_value
read_value [] = none
read_value (c ∷ cs) =
    let quoted = quoted_value (read_quoted false cs) in
    let plain = plain_value (trimmed (read_plain (c ∷ cs))) in if c == b'\'' then quoted else plain

unfoldable pub read_nested : Bytes → Option (Option Bytes × Bytes)
unfolding read_value skip_blanks
read_nested cs = read_value (skip_blanks cs)

read_quoted-escape_quoted :
    (s rest : Bytes) → read_quoted false (escape_quoted s ++ rest) ≡ some (s, rest)
unfolding read_quoted escape_quoted
read_quoted-escape_quoted [] rest = refl
read_quoted-escape_quoted (c ∷ cs) rest =
    let more = read_quoted-escape_quoted cs rest in
    elim (Bool-cases (c == b'\'' || c == b'\\')) [
      | inl special ↦ rw special (rw more refl)
      | inr plain ↦
          let no_slash : (c == b'\\') ≡ false = ground arith in
          let no_quote : (c == b'\'') ≡ false = ground arith in
          rw plain (rw no_slash (rw no_quote (rw more refl)))
    ]

-- `rest` begins with a delimiter, or is empty
abbrev pub starts_delimited : Bytes → Bool
starts_delimited [] = true
starts_delimited (c ∷ cs) = is_delimiter c

read_plain_lem :
    (s rest : Bytes)
    → has_delimiter s ≡ false
    → starts_delimited rest ≡ true
    → read_plain (s ++ rest) ≡ (s, rest)
unfolding read_plain
read_plain_lem [] [] h d = refl
read_plain_lem [] (c ∷ cs) h d = rw d refl
read_plain_lem (c ∷ cs) rest h d =
    let no_delimiter : is_delimiter c ≡ false = ground arith in
    let none_behind : has_delimiter cs ≡ false = ground arith in
    rw no_delimiter (rw (read_plain_lem cs rest none_behind d) refl)

-- a text of two bytes or more that does not end in a blank
trim_end_two :
    (c d : ℕ) (cs : Bytes) → ends_in_space (c ∷ d ∷ cs) ≡ false → trim_end (d ∷ cs) ≡ d ∷ cs
unfolding trim_end
trim_end_two c d [] h = rw h refl
trim_end_two c d (x ∷ xs) h = ap (put_byte d) (trim_end_two d x xs h)

trim_end_lem : (s : Bytes) → starts_in_space s ≡ false → ends_in_space s ≡ false → trim_end s ≡ s
unfolding trim_end
trim_end_lem [] a h = refl
trim_end_lem (c ∷ []) a h = rw a refl
trim_end_lem (c ∷ d ∷ cs) a h = ap (put_byte c) (trim_end_two c d cs h)

null_word : (s : Bytes) → is_null_word s ≡ false → text_eq (map lower s) (codes "null") ≡ false
null_word [] h = refl
null_word (a ∷ []) h = ground arith
null_word (a ∷ b ∷ []) h = ground arith
null_word (a ∷ b ∷ c ∷ []) h = ground arith
null_word (a ∷ b ∷ c ∷ d ∷ []) h = h
null_word (a ∷ b ∷ c ∷ d ∷ f ∷ s) h = ground arith

plain_read_back :
    (s rest : Bytes)
    → needs_quotes s ≡ false
    → starts_delimited rest ≡ true
    → read_nested (s ++ rest) ≡ some (some s, rest)
unfolding read_nested read_value skip_blanks plain_value needs_quotes
plain_read_back [] rest h d = absurd cc
plain_read_back (c ∷ cs) rest h d =
    let solid : is_blank c ≡ false = ground arith in
    let no_delimiter : has_delimiter (c ∷ cs) ≡ false = ground arith in
    let no_end : ends_in_space (c ∷ cs) ≡ false = ground arith in
    let no_word : is_null_word (c ∷ cs) ≡ false = ground arith in
    let no_quote : (c == b'\'') ≡ false = ground arith in
    let shown : plain_value (c ∷ cs, rest) ≡ some (some (c ∷ cs), rest) =
      rw (null_word (c ∷ cs) no_word) refl in
    let whole : trimmed (read_plain ((c ∷ cs) ++ rest)) ≡ (c ∷ cs, rest) =
      ap trimmed (read_plain_lem (c ∷ cs) rest no_delimiter d)
      ∙ ap (λ t. (t, rest)) (trim_end_lem (c ∷ cs) solid no_end) in
    rw solid (rw no_quote (ap plain_value whole ∙ shown))

-- A text that was written with its quotes, where it needs them, is read back, whatever bytes it has, and
-- whatever value follows behind a delimiter: by a reader that leaves out the blanks around a value,
-- takes the word NULL, in any case, for no value, and refuses a value without a byte.
pub quote_nested_read_back :
    (s rest : Bytes)
    → starts_delimited rest ≡ true
    → read_nested (quote_nested s ++ rest) ≡ some (some s, rest)
unfolding read_nested read_value skip_blanks quote_nested
quote_nested_read_back s rest d = elim (Bool-cases (needs_quotes s)) [
  | inl quoted ↦ rw quoted (ap quoted_value (read_quoted-escape_quoted s rest))
  | inr plain ↦ rw plain (plain_read_back s rest plain d)
]
