-- ===== src/Duckdb/Driver/Module.antt =====
-- The marshalling of converge/duckdb/module.go, `queryRaw` and `connect`. A release is noted before
-- its call, so that a call that panics has still been made.
use duckdb_wasm2go_poc.Base.{ℕ, zero, suc, ◌+◌, [], ◌∷◌, ◌++◌, ◌==◌, if◌then◌else◌, Bytes, length}
use duckdb_wasm2go_poc.Base.Text.{codes}
use duckdb_wasm2go_poc.Wasi.State.{no_bytes}
use duckdb_wasm2go_poc.Duckdb.Driver.{
  Call, Engine, Kind, buffer, connection, result_set, acquire, release, Error, engine_error, Result,
  ok, fail, Prog, pure, panic, ◌>>=◌, ◌>>◌, deferred, call, note,
}

-- `sizeofDuckdbResult`
abbrev pub sizeof_duckdb_result : ℕ
sizeof_duckdb_result = 256

-- `engineErr`, with the texts of fmt left out
unfoldable pub engine_err : Bytes → Error
engine_err msg = if no_bytes msg then engine_error (codes "unknown error") else engine_error msg

abbrev pub zeros : ℕ → Bytes
zeros zero = []
zeros (suc n) = 0 ∷ zeros n

module _ (e : Engine) where
  abbrev Code : Type 0 → Type 0
  Code A = Prog e.World A

  -- memory of the engine, its owner the driver; malloc's null panics
  unfoldable pub allocate : ℕ → Code ℕ
  allocate n = do p ← call (e.malloc n); if p == 0 then panic else note (acquire buffer p) >> pure p

  -- `free`
  unfoldable pub free : ℕ → Code (Unit {0})
  free p = note (release buffer p) >> call (e.free p)

  -- `cstring`
  unfoldable pub cstring : Bytes → Code ℕ
  cstring s = do p ← allocate (length s + 1); call (e.store p (s ++ (0 ∷ []))); pure p

  -- `allocOut`: malloc, and zeroes
  unfoldable pub alloc_out : ℕ → Code ℕ
  alloc_out n = do p ← allocate n; call (e.store p (zeros n)); pure p

  -- `allocOut(sizeofDuckdbResult)`: a zeroed result is one that `duckdb_destroy_result` takes.
  unfoldable pub alloc_result : Code ℕ
  alloc_result = do p ← alloc_out sizeof_duckdb_result; note (acquire result_set p); pure p

  -- `duckdb_destroy_result`, then `free`
  unfoldable pub destroy_result : ℕ → Code (Unit {0})
  destroy_result p = note (release result_set p) >> call (e.destroy_result p) >> free p

  -- a handle that goes back to the engine in a memory slot
  unfoldable pub give_back : Kind → (ℕ → Call e.World (Unit {0})) → ℕ → Code (Unit {0})
  give_back k destroy handle = do
    slot ← alloc_out 4
    call (e.write_u32 slot handle)
    note (release k handle)
    call (destroy slot)
    free slot

  -- `resultError`
  unfoldable pub result_error : ℕ → Code Bytes
  result_error p = do
    at ← call (e.result_error p)
    msg ← call (e.go_string at)
    if no_bytes msg then call e.last_error else pure msg

  -- the error of a query or of an execute
  unfoldable pub failed_result : {A : Type 0} → ℕ → Code (Result A)
  failed_result p = do msg ← result_error p; pure (fail (engine_err msg))

  -- `queryRaw`
  unfoldable pub query_raw : ℕ → Bytes → Code (Result ℕ)
  query_raw con sql = do
    text ← cstring sql
    deferred (free text) (do
      p ← alloc_result
      deferred (destroy_result p) (do
        rc ← call (e.query con text p)
        if rc == 0 then call (e.rows_changed p) >>= (λ n. pure (ok n)) else failed_result p))

  -- `connect`
  unfoldable pub connect : ℕ → Code (Result ℕ)
  connect db = do
    slot ← alloc_out 4
    deferred (free slot) (do
      rc ← call (e.connect db slot)
      if rc == 0
          then (do con ← call (e.read_ptr slot); note (acquire connection con); pure (ok con))
          else call e.last_error >>= (λ msg. pure (fail (engine_err msg))))
