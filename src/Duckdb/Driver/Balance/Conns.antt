-- ===== src/Duckdb/Driver/Balance/Conns.antt =====
-- The connections of converge/duckdb/driver.go leave the accounts of handles in order.
use duckdb_wasm2go_poc.Base.{
  ℕ, ◌+◌, ◌≡◌, Bool, true, false, List, [], ◌∷◌, Option, some, none, ◌==◌, if◌then◌else◌, Bytes,
  refl, arith,
}
use duckdb_wasm2go_poc.Duckdb.Transactions.{Words}
use duckdb_wasm2go_poc.Duckdb.Driver.{
  Engine, context, both, connection, database, Result, ok, fail, Prog, pure, ◌>>◌,
}
use duckdb_wasm2go_poc.Duckdb.Driver.Module.{give_back}
use duckdb_wasm2go_poc.Duckdb.Driver.Nets.{
  Handle, one, Nets, pure-Nets, bind-Nets, count-Nets, if-Nets,
}
use duckdb_wasm2go_poc.Duckdb.Driver.Rows.{Cells, Rows}
use duckdb_wasm2go_poc.Duckdb.Driver.Stmt.{NamedValue, Stmt}
use duckdb_wasm2go_poc.Duckdb.Driver.Conn.{
  Conn, StmtRows, lone_rows, with_context, noted, exec_raw_locked, exec_locked, query_raw_rows,
  owned, query_locked,
}
use duckdb_wasm2go_poc.Duckdb.Driver.Balance.{
  if_ok, call_then, cstring-Nets, alloc_result-Nets, give_back-Nets, query_raw-Nets,
  deferred_free-Nets,
}
use duckdb_wasm2go_poc.Duckdb.Driver.Balance.Statements.{
  stmt_held, and_then-Nets, note_success-Nets, note_failure-Nets, drop_failed-Nets, exec_stmt-Nets,
  prepare_locked-Nets, close_locked-Nets,
}
use duckdb_wasm2go_poc.Duckdb.Driver.Balance.Rowsets.{rows_held, new_rows-Nets, query_stmt-Nets}

-- what the rows of a query hold, with the statement that they own
abbrev pub owned_held : Handle → Option Stmt → ℕ
owned_held h none = 0
owned_held h (some st) = stmt_held h st

unfoldable pub query_held : {e : Engine} {d : Cells e} → Handle → StmtRows d → ℕ
query_held h x = rows_held h x.rows + owned_held h x.st

zero_if : {A : Type 0} (r : Result A) → 0 ≡ if_ok 0 (λ _. 0) r
zero_if (ok a) = omega arith
zero_if (fail err) = refl

module _ {W : Type 0} {h : Handle} {c : Bool} where
  pub zero-Nets :
      {A : Type 0} {p : Prog W (Result A)} → Nets h c 0 (λ _. 0) p → Nets h c 0 (if_ok 0 (λ _. 0)) p
  zero-Nets np = count-Nets refl zero_if np

  -- a value that keeps nothing with an error
  pub with_context-Nets :
      {A : Type 0} (gain : A → ℕ) (after : Option ℕ) (r : Result A)
      → Nets {W = W} h c (if_ok 0 gain r) (if_ok 0 gain) (pure (with_context after r))
  unfolding with_context
  with_context-Nets gain none (ok a) = pure-Nets (ok a)
  with_context-Nets gain (some n) (ok a) = pure-Nets (ok a)
  with_context-Nets gain none (fail err) = pure-Nets (fail err)
  with_context-Nets gain (some n) (fail err) = pure-Nets (fail (both (context n) err))

module _ (e : Engine) (words : Words) {h : Handle} where
  noted-Nets :
      {c : Bool} (own con : ℕ) (query : Bytes) (r : Result ℕ)
      → Nets h c own (λ _. own) (noted e words con query r)
  unfolding noted
  noted-Nets own con query (ok n) =
      bind-Nets (note_success-Nets e words own query) (λ _. pure-Nets (ok n))
  noted-Nets own con query (fail err) =
      bind-Nets (note_failure-Nets e words own con query) (λ _. pure-Nets (fail err))

  exec_raw_locked-Nets :
      {c : Bool} (own con : ℕ) (query : Bytes)
      → Nets h c own (λ _. own) (exec_raw_locked e words con query)
  unfolding exec_raw_locked
  exec_raw_locked-Nets own con query =
      bind-Nets (query_raw-Nets e own con query) (λ r. noted-Nets own con query r)

  -- Executing a query keeps nothing, also of a statement that it prepares.
  pub exec_locked-Nets :
      (own con : ℕ) (query : Bytes) (args : List NamedValue)
      → Nets h false own (λ _. own) (exec_locked e words con query args)
  unfolding exec_locked
  exec_locked-Nets own con query [] = exec_raw_locked-Nets own con query
  exec_locked-Nets own con query (a ∷ args) =
      bind-Nets (prepare_locked-Nets e words own con query) (
        and_then-Nets e (if_ok own (stmt_held h)) (λ _. own) (λ _. refl)
          (λ st.
            bind-Nets (exec_stmt-Nets e words (own + stmt_held h st) con st (a ∷ args))
              (λ r. bind-Nets (close_locked-Nets e own st) (λ _. pure-Nets r))))

  module _ (d : Cells e) where
    pub lone-Nets :
        {c : Bool} (own : ℕ) (r : Result (Rows d))
        → Nets {W = e.World} h c
            (if_ok own (rows_held h) r)
            (if_ok own (query_held h))
            (pure (lone_rows r))
    unfolding lone_rows query_held
    lone-Nets own (ok r) = count-Nets (omega arith) (λ _. refl) (pure-Nets _)
    lone-Nets own (fail err) = pure-Nets (fail err)

    query_raw_rows-Nets :
        {c : Bool} (own con : ℕ) (query : Bytes)
        → Nets h c own (if_ok own (query_held h)) (query_raw_rows e words d con query)
    unfolding query_raw_rows
    query_raw_rows-Nets own con query = bind-Nets (cstring-Nets e own query) (λ text.
        deferred_free-Nets e own text (
          bind-Nets (alloc_result-Nets e own) (λ p. call_then (e.query con text p) (λ rc.
            if-Nets (rc == 0)
              (bind-Nets (note_success-Nets e words _ query)
                (λ _. bind-Nets (new_rows-Nets e d own p) (λ r. lone-Nets own r)))
              (drop_failed-Nets e words (if_ok own (query_held h)) (λ _. refl) con p query)))))

    owned-Nets :
        (own : ℕ) (st : Stmt) (r : Result (Rows d))
        → Nets h false
            (if_ok (own + stmt_held h st) (rows_held h) r)
            (if_ok own (query_held h))
            (owned e words d st r)
    unfolding query_held owned
    owned-Nets own st (ok r) = count-Nets (omega arith) (λ _. refl) (pure-Nets _)
    owned-Nets own st (fail err) =
        bind-Nets (close_locked-Nets e own st) (λ _. pure-Nets (fail err))

    -- A query keeps its result and the statement that it prepares, unless it fails.
    pub query_locked-Nets :
        (own con : ℕ) (query : Bytes) (args : List NamedValue)
        → Nets h false own (if_ok own (query_held h)) (query_locked e words d con query args)
    unfolding query_locked
    query_locked-Nets own con query [] = query_raw_rows-Nets own con query
    query_locked-Nets own con query (a ∷ args) =
        bind-Nets (prepare_locked-Nets e words own con query) (
          and_then-Nets e (if_ok own (stmt_held h)) (if_ok own (query_held h)) (λ _. refl)
            (λ st.
              bind-Nets (query_stmt-Nets e d words (own + stmt_held h st) con st (a ∷ args))
                (λ r. owned-Nets own st r)))

  close_owned-Nets :
      {c : Bool} (own db : ℕ) (b : Bool)
      → Nets h c
          (own + (if b then one h database db else 0))
          (λ _. own)
          (if b then give_back e database e.close_database db else pure tt)
  close_owned-Nets own db true = give_back-Nets e own database e.close_database db
  close_owned-Nets own db false = count-Nets (omega arith) (λ _. refl) (pure-Nets tt)

  -- Closing a connection gives it back, and the database that it owns.
  pub disconnect-Nets :
      {c : Bool} (x : Conn)
      → Nets h c
          (one h connection x.con + (if x.owns_db then one h database x.db else 0))
          (λ _. 0)
          (give_back e connection e.disconnect x.con
            >> (if x.owns_db then give_back e database e.close_database x.db else pure tt))
  disconnect-Nets x =
      bind-Nets
        (count-Nets (omega arith) (λ _. refl)
          (give_back-Nets e (0 + (if x.owns_db then one h database x.db else 0)) connection
            e.disconnect x.con))
        (λ _. close_owned-Nets 0 x.db x.owns_db)
