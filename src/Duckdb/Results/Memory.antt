-- ===== src/Duckdb/Results/Memory.antt =====
-- Numbers and texts in memory, read back by converge/duckdb/result.go.
use duckdb_wasm2go_poc.Base.{
  ℕ, zero, suc, ◌+◌, ◌*◌, ◌/◌, ◌%◌, ◌^◌, ◌≤◌, ◌<◌, ◌≡◌, false, [], ◌∷◌, ◌++◌, some, ltb, Bytes,
  length, length-append, drop-append, take-append, arith, refl, ap, ◌∙◌,
}
use duckdb_wasm2go_poc.HostFs.Memory.{negative32}
use duckdb_wasm2go_poc.Wasi.Iovecs.{le_value}
use duckdb_wasm2go_poc.Wasi.State.{le_bytes}
use duckdb_wasm2go_poc.Duckdb.Driver.{done}
use duckdb_wasm2go_poc.Duckdb.Geometry.Wkb.{length-le_bytes, le_value-le_bytes}
use duckdb_wasm2go_poc.Duckdb.Interrupt.{byte_at, read_u32}
use duckdb_wasm2go_poc.Duckdb.Variants.{or_panic, int32, read_u64, slice_at}
use duckdb_wasm2go_poc.Duckdb.Results.{read_byte, read_u16}

byte_at-behind :
    (front : Bytes) (b : ℕ) (rest : Bytes) → byte_at (length front) (front ++ (b ∷ rest)) ≡ some b
byte_at-behind [] b rest = refl
byte_at-behind (x ∷ front) b rest = byte_at-behind front b rest

-- memory with a number behind `front`
module _ (front : Bytes) where
  pub read_u32-behind :
      (v : ℕ) (rest : Bytes)
      → v < 256 ^ 4
      → length front < 2 ^ 31
      → read_u32 (length front) (front ++ (le_bytes 4 v ++ rest)) ≡ some v
  read_u32-behind v rest f h =
      let near : negative32 (length front) ≡ false = ground arith in
      let inside : ltb (length (front ++ (le_bytes 4 v ++ rest))) (length front + 4) ≡ false =
        ground (arith, length-append front (le_bytes 4 v ++ rest), length-le_bytes 4 v rest) in
      rw near (
        rw inside
          (rw (drop-append front (le_bytes 4 v ++ rest)) (ap some (le_value-le_bytes 4 v rest f))))

  pub read_u64-behind :
      (v : ℕ) (rest : Bytes)
      → v < 256 ^ 8
      → length front < 2 ^ 31
      → read_u64 (length front) (front ++ (le_bytes 8 v ++ rest)) ≡ some v
  read_u64-behind v rest f h =
      let near : negative32 (length front) ≡ false = ground arith in
      let inside : ltb (length (front ++ (le_bytes 8 v ++ rest))) (length front + 8) ≡ false =
        ground (arith, length-append front (le_bytes 8 v ++ rest), length-le_bytes 8 v rest) in
      rw near (
        rw inside
          (rw (drop-append front (le_bytes 8 v ++ rest)) (ap some (le_value-le_bytes 8 v rest f))))

  pub read_byte-behind :
      (v : ℕ) (rest : Bytes)
      → v < 256
      → length front < 2 ^ 31
      → read_byte (length front) (front ++ (le_bytes 1 v ++ rest)) ≡ done v
  unfolding le_bytes
  read_byte-behind v rest f h =
      let near : negative32 (length front) ≡ false = ground arith in
      let same : v % 256 ≡ v = omega arith in
      rw near (ap or_panic (byte_at-behind front (v % 256) rest) ∙ ap done same)

  pub read_u16-behind :
      (v : ℕ) (rest : Bytes)
      → v < 2 ^ 16
      → length front < 2 ^ 31
      → 2 ≤ length rest
      → read_u16 (length front) (front ++ (le_bytes 2 v ++ rest)) ≡ done v
  unfolding le_bytes le_value
  read_u16-behind v rest f h room =
      let near : negative32 (length front) ≡ false = ground arith in
      let mem = le_bytes 2 v ++ rest in
      let inside : ltb (length (front ++ mem)) (length front + 4) ≡ false =
        ground (arith, length-append front mem) in
      let low : (v % 256 + 256 * (v / 256 % 256 + 256 * le_value 2 rest)) % 2 ^ 16 ≡ v =
        omega arith in
      rw near (rw inside (rw (drop-append front mem) (ap done low)))

pub size-le_bytes : (n v : ℕ) → length (le_bytes n v) ≡ n
unfolding le_bytes
size-le_bytes zero v = refl
size-le_bytes (suc n) v = ap suc (size-le_bytes n (v / 256))

pub slice_at-behind :
    (front s rest : Bytes)
    → length (front ++ (s ++ rest)) < 2 ^ 31
    → slice_at (length front) (length s) (front ++ (s ++ rest)) ≡ some s
slice_at-behind front s rest h =
    let sizes : length (front ++ (s ++ rest)) ≡ length front + (length s + length rest) =
      omega (arith, length-append front (s ++ rest), length-append s rest) in
    let near : negative32 (length front) ≡ false = ground arith in
    let end : negative32 (int32 (length front + length s)) ≡ false = ground arith in
    let inside : ltb (length (front ++ (s ++ rest))) (length front + length s) ≡ false =
      ground arith in
    rw near (rw end (rw inside (rw (drop-append front (s ++ rest)) (ap some (take-append s rest)))))
