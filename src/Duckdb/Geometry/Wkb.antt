-- ===== src/Duckdb/Geometry/Wkb.antt =====
-- Geometries, their WKB and their WKT, and the parts of `wktRecursive` of converge/duckdb/exotic.go
-- on that.
use mathlib.Core.List.{append_assoc}
use native.Mathlib.Nat.{pow-succ'}
use duckdb_wasm2go_poc.Base.{
  All, ℕ, zero, suc, ◌+◌, ◌/◌, ◌^◌, ◌<◌, ◌≡◌, Bool, true, false, List, [], ◌∷◌, ◌++◌, some, ltb,
  ◌==◌, Bytes, length, drop, refl, arith,
}
use duckdb_wasm2go_poc.Base.Text.{codes}
use duckdb_wasm2go_poc.Wasi.State.{le_bytes}
use duckdb_wasm2go_poc.Wasi.Iovecs.{le_value}
use duckdb_wasm2go_poc.Duckdb.Geometry.{
  FloatText, WkbReader, Part, word, between, coords, members, counted_part, in_parens, coord_texts,
  values,
}

abbrev pub reader : Bytes → WkbReader
reader rest = record { rest = rest; bad = false }

pub length-le_bytes : (n v : ℕ) (xs : Bytes) → length (le_bytes n v ++ xs) ≡ n + length xs
unfolding le_bytes
length-le_bytes zero v xs = omega arith
length-le_bytes (suc n) v xs = omega (arith, length-le_bytes n (v / 256) xs)

drop-le_bytes : (n v : ℕ) (xs : Bytes) → drop n (le_bytes n v ++ xs) ≡ xs
unfolding le_bytes
drop-le_bytes zero v xs = refl
drop-le_bytes (suc n) v xs = drop-le_bytes n (v / 256) xs

pub le_value-le_bytes : (n v : ℕ) (xs : Bytes) → v < 256 ^ n → le_value n (le_bytes n v ++ xs) ≡ v
unfolding le_bytes le_value
le_value-le_bytes zero v xs h = omega arith
le_value-le_bytes (suc n) v xs h =
    let below : v / 256 < 256 ^ n = omega (arith, pow-succ' 256 n) in
    rw (le_value-le_bytes n (v / 256) xs below) (omega arith)

-- a number is read back
pub word-le_bytes :
    (n v : ℕ) (xs : Bytes) → v < 256 ^ n → word n (reader (le_bytes n v ++ xs)) ≡ (v, reader xs)
unfolding word
word-le_bytes n v xs h =
    let enough : ltb (length (le_bytes n v ++ xs)) n ≡ false =
      ground (arith, length-le_bytes n v xs) in
    rw enough (rw (le_value-le_bytes n v xs h) (rw (drop-le_bytes n v xs) refl))

-- A vertex is the bits of its coordinates.
abbrev pub IsVertex : ℕ → List ℕ → Type 0
IsVertex d ws = (length ws ≡ d) × All (λ w. w < 256 ^ 8) ws

abbrev pub vertex_bytes : List ℕ → Bytes
vertex_bytes [] = []
vertex_bytes (w ∷ ws) = le_bytes 8 w ++ vertex_bytes ws

-- A step that reads these bytes as this text, whatever follows.
abbrev pub Reads : (WkbReader → Part) → Bytes → Bytes → Type 0
Reads step bytes text = (xs : Bytes) → step (reader (bytes ++ xs)) ≡ some (text, reader xs)

-- a list as WKB, and as WKT, by those of its members
abbrev pub all_bytes : {A : Type 0} → (A → Bytes) → List A → Bytes
all_bytes f [] = []
all_bytes f (a ∷ rest) = f a ++ all_bytes f rest

abbrev pub all_texts : {A : Type 0} → (A → Bytes) → Bool → List A → Bytes
all_texts f is_first [] = []
all_texts f is_first (a ∷ rest) = between is_first (codes ", ") (f a) ++ all_texts f false rest

module _ (ft : FloatText) where
  pub coords-vertex :
      (is_first : Bool) (ws : List ℕ) (xs : Bytes)
      → All (λ w. w < 256 ^ 8) ws
      → coords ft is_first (length ws) (reader (vertex_bytes ws ++ xs))
        ≡ (coord_texts ft is_first ws, reader xs)
  unfolding coords
  coords-vertex is_first [] xs h = refl
  coords-vertex is_first (w ∷ ws) xs (h, hs) =
      rw (append_assoc (le_bytes 8 w) (vertex_bytes ws) xs)
        (rw (word-le_bytes 8 w (vertex_bytes ws ++ xs) h) (rw (coords-vertex false ws xs hs) refl))

  pub values-vertex :
      (ws : List ℕ) (xs : Bytes)
      → All (λ w. w < 256 ^ 8) ws
      → values ft (length ws) (reader (vertex_bytes ws ++ xs)) ≡ (ws, reader xs)
  unfolding values
  values-vertex [] xs h = refl
  values-vertex (w ∷ ws) xs (h, hs) =
      rw (append_assoc (le_bytes 8 w) (vertex_bytes ws) xs)
        (rw (word-le_bytes 8 w (vertex_bytes ws ++ xs) h) (rw (values-vertex ws xs hs) refl))

members-Reads :
    {A : Type 0} (f g : A → Bytes) (step : WkbReader → Part) (is_first : Bool) (l : List A)
    → All (λ a. Reads step (f a) (g a)) l
    → (xs : Bytes)
    → members step is_first (length l) (reader (all_bytes f l ++ xs))
      ≡ some (all_texts g is_first l, reader xs)
unfolding members
members-Reads f g step is_first [] h xs = refl
members-Reads f g step is_first (a ∷ l) (h, hs) xs =
    rw (append_assoc (f a) (all_bytes f l) xs)
      (rw (h (all_bytes f l ++ xs)) (rw (members-Reads f g step false l hs xs) refl))

-- a list in parentheses behind its count, `EMPTY` if it has no members
abbrev pub counted_bytes : {A : Type 0} → (A → Bytes) → List A → Bytes
counted_bytes f l = le_bytes 4 (length l) ++ all_bytes f l

abbrev pub counted_text : {A : Type 0} → (A → Bytes) → List A → Bytes
counted_text g [] = codes "EMPTY"
counted_text g (a ∷ l) = b'(' ∷ (all_texts g true (a ∷ l) ++ codes ")")

pub counted_part-Reads :
    {A : Type 0} (f g : A → Bytes) (step : WkbReader → Part) (l : List A)
    → length l < 256 ^ 4
    → All (λ a. Reads step (f a) (g a)) l
    → Reads
        (counted_part (λ n r. in_parens (members step true n r)))
        (counted_bytes f l)
        (counted_text g l)
unfolding word le_bytes
counted_part-Reads f g step [] short h xs = rw (word-le_bytes 4 0 xs short) refl
counted_part-Reads f g step (a ∷ l) short h xs =
    let some_there : (suc (length l) == 0) ≡ false = ground arith in
    rw (append_assoc (le_bytes 4 (suc (length l))) (all_bytes f (a ∷ l)) xs) (
      rw (word-le_bytes 4 (suc (length l)) (all_bytes f (a ∷ l) ++ xs) short)
        (rw some_there (rw (members-Reads f g step true (a ∷ l) h xs) refl)))
