-- ===== src/Duckdb/Values/Uuids.antt =====
-- The text of a uuid, `uuidFromWords` of converge/duckdb/exotic.go, has the digits of its number.
use duckdb_wasm2go_poc.Base.{
  ℕ, zero, suc, ◌+◌, ◌-◌, ◌*◌, ◌/◌, ◌%◌, ◌^◌, ◌<◌, ◌≡◌, false, [], ◌∷◌, leb, ◌==◌, if◌then◌else◌,
  Bytes, arith, refl, ap, ◌∙◌,
}
use duckdb_wasm2go_poc.Duckdb.Values.{hex_lower, put_bytes, uuid_from_words}

abbrev hex_value : ℕ → ℕ
hex_value c = if leb c b'9' then c - 48 else c - 87

-- The number that hexadecimal digits write, dashes skipped.
unfoldable pub read_hex : ℕ → Bytes → ℕ
read_hex acc [] = acc
read_hex acc (c ∷ cs) =
    let skipped = read_hex acc cs in
    let more = read_hex (acc * 16 + hex_value c) cs in if c == b'-' then skipped else more

-- The number behind the low `n` bytes of a word.
unfoldable append_bytes : ℕ → ℕ → ℕ → ℕ
append_bytes acc v zero = acc
append_bytes acc v (suc i) = append_bytes (acc * 256 + (v / 2 ^ (8 * i)) % 256) v i

read_digit :
    (d acc : ℕ) (rest : Bytes)
    → d < 16
    → read_hex acc (hex_lower d ∷ rest) ≡ read_hex (acc * 16 + d) rest
unfolding read_hex
read_digit d acc rest h =
    let digit : (hex_lower d == b'-') ≡ false = ground arith in
    let value : hex_value (hex_lower d) ≡ d = ground arith in rw digit (rw value refl)

read_hex-put_bytes :
    (v n acc : ℕ) (rest : Bytes)
    → read_hex acc (put_bytes v n rest) ≡ read_hex (append_bytes acc v n) rest
unfolding put_bytes append_bytes
read_hex-put_bytes v zero acc rest = refl
read_hex-put_bytes v (suc i) acc rest =
    let by = (v / 2 ^ (8 * i)) % 256 in
    read_digit (by / 16) acc _ (omega arith)
    ∙ read_digit (by % 16) (acc * 16 + by / 16) _ (omega arith)
    ∙ read_hex-put_bytes v i ((acc * 16 + by / 16) * 16 + by % 16) rest
    ∙ ap (λ (k : ℕ). read_hex (append_bytes k v i) rest) (omega arith)

read_dash : (acc : ℕ) (rest : Bytes) → read_hex acc (b'-' ∷ rest) ≡ read_hex acc rest
unfolding read_hex
read_dash acc rest = refl

two_bytes : (acc v : ℕ) → append_bytes acc v 2 ≡ acc * 65536 + v % 65536
unfolding append_bytes
two_bytes acc v = omega arith

four_bytes : (acc v : ℕ) → append_bytes acc v 4 ≡ acc * 2 ^ 32 + v % 2 ^ 32
unfolding append_bytes
four_bytes acc v = omega arith

six_bytes : (acc v : ℕ) → append_bytes acc v 6 ≡ acc * 2 ^ 48 + v % 2 ^ 48
unfolding append_bytes
six_bytes acc v = omega arith

-- one group of a uuid, and the dash behind it
group :
    (v n acc : ℕ) (rest : Bytes)
    → read_hex acc (put_bytes v n (b'-' ∷ rest)) ≡ read_hex (append_bytes acc v n) rest
group v n acc rest =
    read_hex-put_bytes v n acc (b'-' ∷ rest) ∙ read_dash (append_bytes acc v n) rest

words_read_back :
    (lower upper : ℕ)
    → lower < 2 ^ 64
    → upper < 2 ^ 64
    → append_bytes
        (append_bytes
          (append_bytes
            (append_bytes (append_bytes 0 (upper / 2 ^ 32) 4) (upper / 2 ^ 16) 2)
            upper
            2)
          (lower / 2 ^ 48)
          2)
        lower
        6
      ≡ upper * 2 ^ 64 + lower
words_read_back lower upper hl hu =
    let a1 = append_bytes 0 (upper / 2 ^ 32) 4 in
    let a2 = append_bytes a1 (upper / 2 ^ 16) 2 in
    let a3 = append_bytes a2 upper 2 in
    let a4 = append_bytes a3 (lower / 2 ^ 48) 2 in
    omega (
      arith,
      four_bytes 0 (upper / 2 ^ 32),
      two_bytes a1 (upper / 2 ^ 16),
      two_bytes a2 upper,
      two_bytes a3 (lower / 2 ^ 48),
      six_bytes a4 lower,
    )

read_end : (acc : ℕ) → read_hex acc [] ≡ acc
unfolding read_hex
read_end acc = refl

-- The text of a uuid writes, in hexadecimal, the 128-bit number of its words, with the top bit of the
-- upper word flipped back.
pub uuid_from_words_read_back :
    (lower upper_raw : ℕ)
    → lower < 2 ^ 64
    → upper_raw < 2 ^ 64
    → read_hex 0 (uuid_from_words lower upper_raw) ≡ (upper_raw + 2 ^ 63) % 2 ^ 64 * 2 ^ 64 + lower
unfolding uuid_from_words
uuid_from_words_read_back lower upper_raw hl hu =
    let upper = (upper_raw + 2 ^ 63) % 2 ^ 64 in
    let a1 = append_bytes 0 (upper / 2 ^ 32) 4 in
    let a2 = append_bytes a1 (upper / 2 ^ 16) 2 in
    let a3 = append_bytes a2 upper 2 in
    let a4 = append_bytes a3 (lower / 2 ^ 48) 2 in
    group (upper / 2 ^ 32) 4 0 _
    ∙ group (upper / 2 ^ 16) 2 a1 _
    ∙ group upper 2 a2 _
    ∙ group (lower / 2 ^ 48) 2 a3 _
    ∙ read_hex-put_bytes lower 6 a4 []
    ∙ read_end (append_bytes a4 lower 6)
    ∙ words_read_back lower upper hl (omega arith)
