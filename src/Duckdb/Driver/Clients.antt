-- ===== src/Duckdb/Driver/Clients.antt =====
-- What a program does with one connection of converge/duckdb/driver.go, in any order.
use duckdb_wasm2go_poc.Base.{
  ℕ, ◌≡◌, Bool, true, false, List, [], ◌∷◌, ◌++◌, Option, none, some, Bytes,
}
use duckdb_wasm2go_poc.Duckdb.Transactions.{Words}
use duckdb_wasm2go_poc.Duckdb.Driver.{
  Engine, connection, database, acquire, Owner, Result, ok, fail, Session, Reply, done, panicked,
  exhausted,
}
use duckdb_wasm2go_poc.Duckdb.Driver.Rows.{Cells, Rows, close_rows, closed_rows, next}
use duckdb_wasm2go_poc.Duckdb.Driver.Stmt.{NamedValue, Stmt, closed_stmt, close_locked, num_input}
use duckdb_wasm2go_poc.Duckdb.Driver.Conn.{
  Conn, Context, StmtRows, exec_context, exec_context_stmt, prepare_context, ping, simple_exec,
  begin_tx, close_conn, query_context, query_context_stmt,
}

-- A session, with the statements and the rows that it has given.
pub record Client {e : Engine} (d : Cells e) : Type 0 where
  pub session : Session e.World
  pub stmts : List Stmt
  pub rows : List (Rows d)

-- the client behind a call that may give a statement
unfoldable pub with_stmt :
    {e : Engine} {d : Cells e} → Client d → Reply (Result Stmt) × Session e.World → Client d
with_stmt x (done (ok st), s) = record x { session = s; stmts = st ∷ x.stmts }
with_stmt x (done (fail err), s) = record x { session = s }
with_stmt x (panicked, s) = record x { session = s }
with_stmt x (exhausted, s) = record x { session = s }

abbrev pub owned_stmts : Option Stmt → List Stmt → List Stmt
owned_stmts none l = l
owned_stmts (some st) l = st ∷ l

-- the client behind a call that may give rows
unfoldable pub with_rows :
    {e : Engine} {d : Cells e} → Client d → Reply (Result (StmtRows d)) × Session e.World → Client d
with_rows x (done (ok r), s) = record {
  session = s;
  stmts = owned_stmts r.st x.stmts;
  rows = r.rows ∷ x.rows;
}
with_rows x (done (fail err), s) = record x { session = s }
with_rows x (panicked, s) = record x { session = s }
with_rows x (exhausted, s) = record x { session = s }

-- the client behind the close of a statement, and of rows
unfoldable pub stmt_closed :
    {e : Engine} {d : Cells e}
    → Client d
    → List Stmt
    → List Stmt
    → Stmt
    → Reply (Unit {0}) × Session e.World
    → Client d
stmt_closed x before after st (res, s) = record x {
  session = s;
  stmts = before ++ (closed_stmt res st ∷ after);
}

unfoldable pub rows_closed :
    {e : Engine} {d : Cells e}
    → Client d
    → List (Rows d)
    → List (Rows d)
    → Rows d
    → Reply (Unit {0}) × Session e.World
    → Client d
rows_closed {e} {d} x before after r (res, s) = record x {
  session = s;
  rows = before ++ (closed_rows e d x.session.poisoned res r ∷ after);
}

-- the session of a connection that has just been opened
abbrev pub opened : {W : Type 0} → W → Conn → Option Owner → Session W
opened w c owner = record {
  world = w;
  trace = acquire connection c.con ∷ acquire database c.db ∷ [];
  poisoned = false;
  closed = false;
  in_tx = false;
  owner = owner;
}

module _ {e : Engine} (words : Words) (d : Cells e) (c : Conn) where
  -- The calls. `Close` of the rows of a query is the close of the rows, and then that of their
  -- statement. Rows are closed any number of times, and read while they are open.
  pub data Step : Client d → Client d → Type 0 where
    prepare :
        (x : Client d) (ctx : Context) (query : Bytes)
        → Step x (with_stmt x (prepare_context e words c ctx query x.session))
    exec :
        (x : Client d) (ctx : Context) (query : Bytes) (args : List NamedValue)
        → Step x (record x { session = (exec_context e words c ctx query args x.session).1 })
    query :
        (x : Client d) (ctx : Context) (text : Bytes) (args : List NamedValue)
        → Step x (with_rows x (query_context e words d c ctx text args x.session))
    exec_prepared :
        (x : Client d) (ctx : Context) (st : Stmt) (args : List NamedValue)
        → Step x (record x { session = (exec_context_stmt e words c ctx st args x.session).1 })
    query_prepared :
        (x : Client d) (ctx : Context) (st : Stmt) (args : List NamedValue)
        → Step x (with_rows x (query_context_stmt e words d c ctx st args x.session))
    count_inputs :
        (x : Client d) (st : Stmt) → Step x (record x { session = (num_input e st x.session).1 })
    pinged :
        (x : Client d) (ctx : Context)
        → Step x (record x { session = (ping e words c ctx x.session).1 })
    begin :
        (x : Client d) (ctx : Context) (read_only : Bool) (isolation : ℕ)
        → Step x (record x { session = (begin_tx e words c ctx read_only isolation x.session).1 })
    end_tx :
        (x : Client d) (text : Bytes)
        → Step x (record x { session = (simple_exec e words c text x.session).1 })
    close_stmt :
        (x : Client d) (before after : List Stmt) (st : Stmt)
        → x.stmts ≡ before ++ (st ∷ after)
        → Step x (stmt_closed x before after st (close_locked e st x.session))
    read_row :
        (x : Client d) (before after : List (Rows d)) (r r' : Rows d) (fuel room : ℕ)
        (res : Result (List (Option d.Value))) (s : Session e.World)
        → x.rows ≡ before ++ (r ∷ after)
        → r.closed ≡ false
        → next e d fuel room r x.session ≡ (done (res, r'), s)
        → Step x (record x { session = s; rows = before ++ (r' ∷ after) })
    close_row_set :
        (x : Client d) (before after : List (Rows d)) (r : Rows d)
        → x.rows ≡ before ++ (r ∷ after)
        → Step x (rows_closed x before after r (close_rows e d r x.session))
    close : (x : Client d) → Step x (record x { session = (close_conn e words c x.session).1 })
    -- Another connection of the same module calls the engine, or panics.
    sibling_calls :
        (x : Client d) (w : e.World)
        → x.session.poisoned ≡ false
        → Step x (record x { session = record x.session { world = w } })
    sibling_panics :
        (x : Client d) → Step x (record x { session = record x.session { poisoned = true } })

  -- the states that calls reach
  pub data Reach : Client d → Type 0 where
    start :
        (w : e.World) (owner : Option Owner)
        → Reach (record { session = opened w c owner; stmts = []; rows = [] })
    after : {x y : Client d} → Reach x → Step x y → Reach y
