-- ===== src/Duckdb/Driver/Conn.antt =====
-- The connections of converge/duckdb/driver.go: the entry points that database/sql calls, each one
-- step under the lock. The watcher of `armInterrupt` only writes a byte of memory, which the calls of
-- the engine stand for.
use duckdb_wasm2go_poc.Base.{
  ℕ, Bool, true, false, List, [], ◌∷◌, Option, none, some, ◌==◌, if◌then◌else◌, Bytes,
}
use duckdb_wasm2go_poc.Base.Text.{codes}
use duckdb_wasm2go_poc.Duckdb.Transactions.{Words}
use duckdb_wasm2go_poc.Duckdb.Driver.{
  Engine, connection, database, bad_conn, engine_panic, read_only_tx, isolation_level, context,
  both, Result, ok, fail, Session, Reply, done, panicked, exhausted, Prog, pure, ◌>>=◌, ◌>>◌,
  deferred, call, unless_poisoned, unless_bad, and_then,
}
use duckdb_wasm2go_poc.Duckdb.Driver.Module.{free, cstring, alloc_result, give_back, query_raw}
use duckdb_wasm2go_poc.Duckdb.Driver.Rows.{Cells, Rows, new_rows, close_rows}
use duckdb_wasm2go_poc.Duckdb.Driver.Stmt.{
  NamedValue, Stmt, close_locked, prepare_locked, note_success, note_failure, drop_failed,
  exec_stmt, query_stmt,
}

-- `conn`, what does not change of it
pub record Conn : Type 0 where
  pub con : ℕ
  pub db : ℕ
  pub owns_db : Bool

-- `ctx.Err()` before the lock, under it, and behind the engine's call
pub record Context : Type 0 where
  pub before : Option ℕ
  pub locked : Option ℕ
  pub after : Option ℕ

-- `stmtRows`; rows of text without arguments own no statement
pub record StmtRows {e : Engine} (d : Cells e) : Type 0 where
  pub rows : Rows d
  pub st : Option Stmt

-- `poisonAfterPanic`
unfoldable pub poison : {W : Type 0} → Session W → Session W
poison s = record s {
  poisoned = true;
  closed = true;
  owner = elim s.owner [
    | none ↦ none
    | some o ↦ some (record { init = false; has_mod = false; db = 0; poisoned = true })
  ];
}

-- `guardEnginePanic` of a connection. The source lets go of the lock between the panic and
-- `poisonAfterPanic`, which takes it again; the model makes them one step.
unfoldable pub guarded :
    {W A : Type 0} → Reply (Result A) × Session W → Reply (Result A) × Session W
unfolding poison
guarded (done r, s) = (done r, s)
guarded (panicked, s) = (done (fail engine_panic), poison s)
guarded (exhausted, s) = (exhausted, s)

-- The guard of `Ping`: the error that it makes of a panic is set in a variable that is not the
-- result, so that nil is returned.
unfoldable pub ping_guard :
    {W : Type 0} → Reply (Result (Unit {0})) × Session W → Reply (Result (Unit {0})) × Session W
unfolding poison
ping_guard (done r, s) = (done r, s)
ping_guard (panicked, s) = (done (ok tt), poison s)
ping_guard (exhausted, s) = (exhausted, s)

-- `ctxErr`
unfoldable pub with_context : {A : Type 0} → Option ℕ → Result A → Result A
with_context after (ok a) = ok a
with_context none (fail err) = fail err
with_context (some c) (fail err) = fail (both (context c) err)

-- A context that is done before the lock, or under it, stops a call.
unfoldable pub unless_done : {W A : Type 0} → Option ℕ → Prog W (Result A) → Prog W (Result A)
unless_done (some c) p = pure (fail (context c))
unless_done none p = p

-- how the entry points begin and end
unfoldable pub entry : {W A : Type 0} → Context → Prog W (Result A) → Prog W (Result A)
entry ctx p = unless_done ctx.before (
    unless_done ctx.locked
      (unless_bad (pure (fail bad_conn)) (p >>= λ r. pure (with_context ctx.after r))))

abbrev lone : {e : Engine} {d : Cells e} → Rows d → StmtRows d
lone r = record { rows = r; st = none }

unfoldable pub lone_rows : {e : Engine} {d : Cells e} → Result (Rows d) → Result (StmtRows d)
lone_rows (ok r) = ok (lone r)
lone_rows (fail err) = fail err

unfoldable pub unit_result : {A : Type 0} → Result A → Result (Unit {0})
unit_result (ok a) = ok tt
unit_result (fail err) = fail err

module _ (e : Engine) (words : Words) where
  -- the end of `execRawLocked`
  unfoldable pub noted : ℕ → Bytes → Result ℕ → Prog e.World (Result ℕ)
  noted con query (ok n) = note_success e words query >> pure (ok n)
  noted con query (fail err) = note_failure e words con query >> pure (fail err)

  -- `execRawLocked`
  unfoldable pub exec_raw_locked : ℕ → Bytes → Prog e.World (Result ℕ)
  exec_raw_locked con query = do r ← query_raw e con query; noted con query r

  -- `execLocked` of a connection
  unfoldable pub exec_locked : ℕ → Bytes → List NamedValue → Prog e.World (Result ℕ)
  exec_locked con query [] = exec_raw_locked con query
  exec_locked con query (a ∷ args) =
      prepare_locked e words con query
      >>= and_then (λ st. do r ← exec_stmt e words con st (a ∷ args); close_locked e st; pure r)

  -- `ExecContext` of a connection, and of a statement
  unfoldable pub exec_context : Conn → Context → Bytes → List NamedValue → Prog e.World (Result ℕ)
  exec_context c ctx query args s = guarded (entry ctx (exec_locked c.con query args) s)

  unfoldable pub exec_context_stmt :
      Conn → Context → Stmt → List NamedValue → Prog e.World (Result ℕ)
  exec_context_stmt c ctx st args s = guarded (entry ctx (exec_stmt e words c.con st args) s)

  -- `PrepareContext`
  unfoldable pub prepare_context : Conn → Context → Bytes → Prog e.World (Result Stmt)
  prepare_context c ctx query s = guarded (entry ctx (prepare_locked e words c.con query) s)

  -- `Ping`
  unfoldable pub ping : Conn → Context → Prog e.World (Result (Unit {0}))
  ping c ctx s =
      ping_guard (entry ctx (query_raw e c.con (codes "SELECT 1") >>= λ r. pure (unit_result r)) s)

  -- `simpleExec`, of Commit and Rollback; a panic is not caught
  unfoldable pub simple_exec : Conn → Bytes → Prog e.World (Result ℕ)
  simple_exec c query = unless_bad (pure (fail bad_conn)) (exec_locked c.con query [])

  -- `BeginTx`, whose panic is not caught either
  unfoldable pub begin_tx : Conn → Context → Bool → ℕ → Prog e.World (Result ℕ)
  begin_tx c ctx read_only isolation = unless_done ctx.before (
      if read_only
      then pure (fail read_only_tx)
      else if isolation == 0
      then unless_done ctx.locked (simple_exec c (codes "BEGIN TRANSACTION"))
      else pure (fail (isolation_level isolation)))

  -- the calls of `Close` on a connection that was open
  unfoldable pub disconnect : Conn → Prog e.World (Unit {0})
  disconnect c = unless_poisoned (pure tt) (
      give_back e connection e.disconnect c.con
      >> (if c.owns_db then give_back e database e.close_database c.db else pure tt))

  -- `Close`
  unfoldable pub close_conn : Conn → Prog e.World (Unit {0})
  close_conn c s = if s.closed then (done tt, s) else disconnect c (record s { closed = true })

  module _ (d : Cells e) where
    -- `queryRawRowsLocked`
    unfoldable pub query_raw_rows : ℕ → Bytes → Prog e.World (Result (StmtRows d))
    query_raw_rows con query = do
      text ← cstring e query
      deferred (free e text) (do
        p ← alloc_result e
        rc ← call (e.query con text p)
        if rc == 0
            then (do note_success e words query; r ← new_rows e d p; pure (lone_rows r))
            else drop_failed e words con p query)

    -- Rows own the one-shot statement; an error closes it.
    unfoldable pub owned : Stmt → Result (Rows d) → Prog e.World (Result (StmtRows d))
    owned st (ok r) = pure (ok (record { rows = r; st = some st }))
    owned st (fail err) = close_locked e st >> pure (fail err)

    -- the locked part of `QueryContext`
    unfoldable pub query_locked : ℕ → Bytes → List NamedValue → Prog e.World (Result (StmtRows d))
    query_locked con query [] = query_raw_rows con query
    query_locked con query (a ∷ args) =
        prepare_locked e words con query
        >>= and_then (λ st. do r ← query_stmt e words d con st (a ∷ args); owned st r)

    -- `QueryContext` of a connection, and of a statement
    unfoldable pub query_context :
        Conn → Context → Bytes → List NamedValue → Prog e.World (Result (StmtRows d))
    query_context c ctx query args s = guarded (entry ctx (query_locked c.con query args) s)

    unfoldable pub query_context_stmt :
        Conn → Context → Stmt → List NamedValue → Prog e.World (Result (StmtRows d))
    query_context_stmt c ctx st args s =
        guarded (entry ctx (query_stmt e words d c.con st args >>= λ r. pure (lone_rows r)) s)

    -- `Close` of a `stmtRows`, and of rows that own no statement
    unfoldable pub close_stmt_rows : StmtRows d → Prog e.World (Unit {0})
    close_stmt_rows x = do
      close_rows e d x.rows
      elim x.st [ none ↦ pure tt | some st ↦ close_locked e st ]
