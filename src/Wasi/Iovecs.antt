-- ===== src/Wasi/Iovecs.antt =====
-- Scatter and gather over the buffers that the module lists in memory: `readInto`, `writeFrom` and the
-- gathering of `Xfd_pwrite` in converge/wasishim/fs.go.
use duckdb_wasm2go_poc.Base.{
  ℕ, zero, suc, ◌+◌, ◌*◌, ◌^◌, Bool, true, false, ◌&&◌, ◌||◌, not, [], ◌∷◌, ◌++◌, Option, none,
  some, ltb, ◌==◌, if◌then◌else◌, Bytes, length, take, drop,
}
use duckdb_wasm2go_poc.Exhost.Abi.{plus32}
use duckdb_wasm2go_poc.HostFs.Os.{GoError, err_eof}
use duckdb_wasm2go_poc.HostFs.Memory.{negative32, overwrite}
use duckdb_wasm2go_poc.Wasi.State.{wasi_success, wasi_einval}

-- a little-endian number in memory
unfoldable pub le_value : ℕ → Bytes → ℕ
le_value zero bytes = 0
le_value (suc n) [] = 0
le_value (suc n) (c ∷ cs) = c + 256 * le_value n cs

-- What one iovec is: outside memory, a panic of Go's, empty, or a buffer with its address and length.
pub data Iovec : Type 0 where
  outside broken skipped : Iovec
  buffer : ℕ → ℕ → Iovec

unfoldable pub buffer_at : Bytes → ℕ → ℕ → Iovec
buffer_at mem ptr ln =
    if ln == 0 || negative32 ln
    then skipped
    else if ltb (length mem + (if negative32 ptr then 2 ^ 32 else 0)) (ptr + ln)
    then outside
    else if negative32 ptr || negative32 (plus32 ptr ln)
    then broken
    else buffer ptr ln

unfoldable pub iovec_at : Bytes → ℕ → Iovec
unfolding buffer_at le_value
iovec_at mem base =
    if not (negative32 base) && ltb (length mem) (base + 8)
    then outside
    else if negative32 base
    then broken
    else buffer_at mem (le_value 4 (drop base mem)) (le_value 4 (drop (base + 4) mem))

-- the rounds of `i < iovsLen` on an int32
abbrev pub rounds : ℕ → ℕ
rounds n = if negative32 n then 0 else n

abbrev pub is_eof : Option GoError → Bool
is_eof none = false
is_eof (some err_eof) = true
is_eof (some e) = false

abbrev pub has_error : Option GoError → Bool
has_error none = false
has_error (some e) = true

-- The end of a transfer: the bytes moved, the error number, memory and the reader's state.
pub record Moved (R : Type 0) : Type 0 where
  pub total : ℕ
  pub code : ℕ
  pub mem : Bytes
  pub state : R

module _ {R : Type 0} (to_errno : Option GoError → ℕ) where
  -- `readInto`, with the reader as a function on its state
  unfoldable pub read_into :
      (ℕ → R → (Bytes × Option GoError) × R) → ℕ → ℕ → ℕ → Bytes → R → Option (Moved R)
  read_into read zero base total mem r =
      some (record { total = total; code = wasi_success; mem = mem; state = r })
  read_into read (suc n) base total mem r = elim (iovec_at mem base) [
    | outside ↦ some (record { total = total; code = wasi_einval; mem = mem; state = r })
    | broken ↦ none
    | skipped ↦ read_into read n (plus32 base 8) total mem r
    | buffer ptr ln ↦
        let ((got, err), r') = read ln r in
        let total' = plus32 total (length got) in
        let mem' = overwrite ptr got mem in
        let more = read_into read n (plus32 base 8) total' mem' r' in
        let stop = if is_eof err || not (has_error err) then wasi_success else to_errno err in
        if has_error err || ltb (length got) ln
        then some (record { total = total'; code = stop; mem = mem'; state = r' })
        else more
  ]

  -- `writeFrom`, with the writer as a function on its state
  unfoldable pub write_from :
      (Bytes → R → (ℕ × Option GoError) × R) → ℕ → ℕ → ℕ → Bytes → R → Option (Moved R)
  write_from write zero base total mem r =
      some (record { total = total; code = wasi_success; mem = mem; state = r })
  write_from write (suc n) base total mem r = elim (iovec_at mem base) [
    | outside ↦ some (record { total = total; code = wasi_einval; mem = mem; state = r })
    | broken ↦ none
    | skipped ↦ write_from write n (plus32 base 8) total mem r
    | buffer ptr ln ↦
        let ((put, err), r') = write (take ln (drop ptr mem)) r in
        let total' = plus32 total put in
        let more = write_from write n (plus32 base 8) total' mem r' in
        if has_error err
        then some (record { total = total'; code = to_errno err; mem = mem; state = r' })
        else more
  ]

-- The buffers gathered for `Xfd_pwrite`: a Go panic, an iovec outside memory, or the bytes.
pub data Gathered : Type 0 where
  gather_panics gather_fails : Gathered
  gathered : Bytes → Gathered

unfoldable pub gather : ℕ → ℕ → Bytes → Bytes → Gathered
gather zero base buf mem = gathered buf
gather (suc n) base buf mem = elim (iovec_at mem base) [
  | outside ↦ gather_fails
  | broken ↦ gather_panics
  | skipped ↦ gather n (plus32 base 8) buf mem
  | buffer ptr ln ↦ gather n (plus32 base 8) (buf ++ take ln (drop ptr mem)) mem
]
