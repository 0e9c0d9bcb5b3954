-- ===== src/Duckdb/Driver/Balance.antt =====
-- The marshalling of converge/duckdb/module.go leaves the accounts of handles in order.
pub mod Statements
pub mod Rowsets
pub mod Conns
pub mod Types
mod Metas
use duckdb_wasm2go_poc.Base.{ℕ, ◌+◌, ◌≡◌, Bool, ◌==◌, Bytes, length, arith}
use duckdb_wasm2go_poc.Base.Text.{codes}
use duckdb_wasm2go_poc.Wasi.State.{no_bytes}
use duckdb_wasm2go_poc.Duckdb.Driver.{
  Call, Engine, Kind, buffer, connection, result_set, acquire, release, Result, ok, fail, Prog,
  pure, panic, ◌>>=◌, deferred, call, note,
}
use duckdb_wasm2go_poc.Duckdb.Driver.Module.{
  sizeof_duckdb_result, engine_err, zeros, allocate, free, cstring, alloc_out, alloc_result,
  destroy_result, give_back, result_error, failed_result, query_raw, connect,
}
use duckdb_wasm2go_poc.Duckdb.Driver.Nets.{
  Handle, one, Nets, pure-Nets, panic-Nets, call-Nets, acquire-Nets, release-Nets, bind-Nets,
  frame-Nets, count-Nets, if-Nets, deferred-Nets,
}

-- what the end of a call keeps if it has no error
abbrev pub if_ok : {A : Type 0} → ℕ → (A → ℕ) → Result A → ℕ
if_ok own gain (ok a) = own + gain a
if_ok own gain (fail err) = own

module _ {W : Type 0} {h : Handle} {c : Bool} where
  -- the rules beside something else that is owned
  pub call_beside : {A : Type 0} (own : ℕ) (f : Call W A) → Nets h c own (λ _. own) (call f)
  call_beside own f = count-Nets (omega arith) (λ _. omega arith) (frame-Nets own (call-Nets f))

  pub acquire_beside :
      (own : ℕ) (k : Kind) (n : ℕ)
      → Nets {W = W} h c own (λ _. own + one h k n) (note (acquire k n))
  acquire_beside own k n =
      count-Nets (omega arith) (λ _. omega arith) (frame-Nets own (acquire-Nets k n))

  pub release_beside :
      (own : ℕ) (k : Kind) (n : ℕ)
      → Nets {W = W} h c (own + one h k n) (λ _. own) (note (release k n))
  release_beside own k n =
      count-Nets (omega arith) (λ _. omega arith) (frame-Nets own (release-Nets k n))

  pub call_then :
      {A B : Type 0} {own : ℕ} {gain : B → ℕ} {p : A → Prog W B} (f : Call W A)
      → ((a : A) → Nets h c own gain (p a))
      → Nets h c own gain (call f >>= p)
  call_then {own = own} f np = bind-Nets (call_beside own f) np

module _ (e : Engine) {h : Handle} {c : Bool} where
  pub allocate-Nets : (own n : ℕ) → Nets h c own (λ p. own + one h buffer p) (allocate e n)
  unfolding allocate
  allocate-Nets own n = call_then (e.malloc n) (λ p.
      if-Nets (p == 0) panic-Nets (bind-Nets (acquire_beside own buffer p) (λ _. pure-Nets p)))

  pub free-Nets : (own p : ℕ) → Nets h c (own + one h buffer p) (λ _. own) (free e p)
  unfolding free
  free-Nets own p = bind-Nets (release_beside own buffer p) (λ _. call_beside own (e.free p))

  pub cstring-Nets : (own : ℕ) (s : Bytes) → Nets h c own (λ p. own + one h buffer p) (cstring e s)
  unfolding cstring
  cstring-Nets own s =
      bind-Nets (allocate-Nets own (length s + 1)) (λ p. call_then (e.store p _) (λ _. pure-Nets p))

  pub alloc_out-Nets : (own n : ℕ) → Nets h c own (λ p. own + one h buffer p) (alloc_out e n)
  unfolding alloc_out
  alloc_out-Nets own n =
      bind-Nets (allocate-Nets own n) (λ p. call_then (e.store p _) (λ _. pure-Nets p))

  pub alloc_result-Nets :
      (own : ℕ) → Nets h c own (λ p. own + one h buffer p + one h result_set p) (alloc_result e)
  unfolding alloc_result
  alloc_result-Nets own =
      bind-Nets (alloc_out-Nets own sizeof_duckdb_result)
        (λ p. bind-Nets (acquire_beside (own + one h buffer p) result_set p) (λ _. pure-Nets p))

  pub destroy_result-Nets :
      (own p : ℕ)
      → Nets h c (own + one h buffer p + one h result_set p) (λ _. own) (destroy_result e p)
  unfolding destroy_result
  destroy_result-Nets own p =
      bind-Nets
        (bind-Nets (release_beside (own + one h buffer p) result_set p)
          (λ _. call_beside (own + one h buffer p) (e.destroy_result p)))
        (λ _. free-Nets own p)

  pub give_back-Nets :
      (own : ℕ) (k : Kind) (destroy : ℕ → Call e.World (Unit {0})) (n : ℕ)
      → Nets h c (own + one h k n) (λ _. own) (give_back e k destroy n)
  unfolding give_back
  give_back-Nets own k destroy n = bind-Nets (alloc_out-Nets (own + one h k n) 4) (λ slot.
      call_then (e.write_u32 slot n) (λ _.
        bind-Nets
          (count-Nets (omega arith) (λ _. omega arith)
            (release_beside (own + one h buffer slot) k n))
          (λ _. call_then (destroy slot) (λ _. free-Nets own slot))))

  pub result_error-Nets : (own p : ℕ) → Nets h c own (λ _. own) (result_error e p)
  unfolding result_error
  result_error-Nets own p = call_then (e.result_error p) (λ at.
      call_then (e.go_string at)
        (λ msg. if-Nets (no_bytes msg) (call_beside own e.last_error) (pure-Nets msg)))

  pub failed_result-Nets :
      {A : Type 0} (own p : ℕ) → Nets {A = Result A} h c own (λ _. own) (failed_result e p)
  unfolding failed_result
  failed_result-Nets own p =
      bind-Nets (result_error-Nets own p) (λ msg. pure-Nets (fail (engine_err msg)))

  -- the deferred release of a buffer
  pub deferred_free-Nets :
      {A : Type 0} {gain : A → ℕ} {m : Prog e.World A} (own p : ℕ)
      → Nets h c own gain m
      → Nets h c (own + one h buffer p) gain (deferred (free e p) m)
  deferred_free-Nets own p nm =
      deferred-Nets (count-Nets (omega arith) (λ _. omega arith) (free-Nets 0 p)) nm

  -- `queryRaw` keeps nothing, whatever the engine answers.
  pub query_raw-Nets : (own con : ℕ) (sql : Bytes) → Nets h c own (λ _. own) (query_raw e con sql)
  unfolding query_raw
  query_raw-Nets own con sql = bind-Nets (cstring-Nets own sql) (λ text.
      deferred_free-Nets own text (
        bind-Nets (alloc_result-Nets own) (λ p.
          count-Nets (omega arith) (λ _. omega arith)
            (deferred-Nets (destroy_result-Nets 0 p) (
              call_then (e.query con text p) (λ rc.
                if-Nets (rc == 0) (call_then (e.rows_changed p) (λ n. pure-Nets (ok n)))
                  (failed_result-Nets own p)))))))

  -- `connect` keeps the connection that it gives.
  pub connect-Nets :
      (own db : ℕ) → Nets h c own (if_ok own (λ con. one h connection con)) (connect e db)
  unfolding connect
  connect-Nets own db = bind-Nets (alloc_out-Nets own 4) (λ slot. deferred_free-Nets own slot (
      call_then (e.connect db slot) (λ rc.
        if-Nets (rc == 0)
          (call_then (e.read_ptr slot)
            (λ con. bind-Nets (acquire_beside own connection con) (λ _. pure-Nets (ok con))))
          (call_then e.last_error (λ msg. pure-Nets (fail (engine_err msg)))))))
