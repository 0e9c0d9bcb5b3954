-- ===== src/Duckdb/Driver/Poisoned.antt =====
-- Bad connections and contexts that are done, in converge/duckdb/driver.go: what never reaches the
-- engine.
use mathlib.Core.Path.{subst}
use duckdb_wasm2go_poc.Base.{
  ℕ, ◌≡◌, Bool, true, false, ◌||◌, Option, none, some, ◌==◌, if◌then◌else◌, Bytes, refl, arith,
}
use duckdb_wasm2go_poc.Duckdb.Transactions.{Words}
use duckdb_wasm2go_poc.Duckdb.Driver.{
  Engine, bad_conn, Result, ok, fail, Session, Reply, done, panicked, exhausted, Prog, pure,
  unless_poisoned, unless_bad,
}
use duckdb_wasm2go_poc.Duckdb.Driver.Rows.{Cells, Rows, close_rows, guard_rows, next}
use duckdb_wasm2go_poc.Duckdb.Driver.Stmt.{Stmt, close_locked, num_input}
use duckdb_wasm2go_poc.Duckdb.Driver.Conn.{
  Conn, Context, StmtRows, poison, guarded, entry, ping_guard, unless_done, exec_context,
  exec_context_stmt, prepare_context, ping, simple_exec, begin_tx, disconnect, close_conn,
  query_context, query_context_stmt,
}
use duckdb_wasm2go_poc.Duckdb.Driver.Clients.{
  Client, with_stmt, with_rows, Step, stmt_closed, rows_closed, prepare, exec, query, exec_prepared,
  query_prepared, count_inputs, pinged, begin, end_tx, close_stmt, read_row, close_row_set, close,
  sibling_calls, sibling_panics,
}

-- The engine's world and what was taken and given back are as they were.
pub record Untouched {W : Type 0} (s s' : Session W) : Type 0 where
  pub world : s'.world ≡ s.world
  pub trace : s'.trace ≡ s.trace

untouched : {W : Type 0} {s : Session W} → Untouched s s
untouched = record { world = refl; trace = refl }

module _ {W A : Type 0} where
  -- a test that holds
  if-Untouched :
      (b : Bool) (x y : Reply A × Session W) (s : Session W)
      → b ≡ true
      → Untouched s x.1
      → Untouched s (if b then x else y).1
  if-Untouched true x y s eq u = u
  if-Untouched false x y s eq u = absurd cc

  pick-Untouched :
      (b : Bool) (x y : Reply A × Session W) (s : Session W)
      → Untouched s x.1
      → Untouched s y.1
      → Untouched s (if b then x else y).1
  pick-Untouched true x y s u v = u
  pick-Untouched false x y s u v = v

  branch-Untouched :
      (b : Bool) (p q : Prog W A) (s : Session W)
      → Untouched s (p s).1
      → Untouched s (q s).1
      → Untouched s ((if b then p else q) s).1
  branch-Untouched true p q s u v = u
  branch-Untouched false p q s u v = v

  unless_bad-Untouched :
      (a : A) (p : Prog W A) (s : Session W)
      → s.poisoned ≡ true
      → Untouched s (unless_bad (pure a) p s).1
  unfolding unless_bad
  unless_bad-Untouched a p s hp =
      let bad : (s.closed || s.poisoned) ≡ true = ground arith in
      if-Untouched (s.closed || s.poisoned) (done a, s) (p s) s bad untouched

  unless_poisoned-Untouched :
      (a : A) (p : Prog W A) (s : Session W)
      → s.poisoned ≡ true
      → Untouched s (unless_poisoned (pure a) p s).1
  unfolding unless_poisoned
  unless_poisoned-Untouched a p s hp = if-Untouched s.poisoned (done a, s) (p s) s hp untouched

module _ {W A : Type 0} where
  unless_done-Untouched :
      (o : Option ℕ) (p : Prog W (Result A)) (s : Session W)
      → Untouched s (p s).1
      → Untouched s (unless_done o p s).1
  unfolding unless_done
  unless_done-Untouched none p s u = u
  unless_done-Untouched (some n) p s u = untouched

  guarded-Untouched :
      (s : Session W) (x : Reply (Result A) × Session W)
      → Untouched s x.1
      → Untouched s (guarded x).1
  unfolding guarded poison
  guarded-Untouched s (done r, t) u = u
  guarded-Untouched s (panicked, t) u = record { world = u.world; trace = u.trace }
  guarded-Untouched s (exhausted, t) u = u

  entry_bad-Untouched :
      (ctx : Context) (p : Prog W (Result A)) (s : Session W)
      → s.poisoned ≡ true
      → Untouched s (entry ctx p s).1
  unfolding entry
  entry_bad-Untouched ctx p s hp =
      unless_done-Untouched ctx.before _ s
        (unless_done-Untouched ctx.locked _ s (unless_bad-Untouched (fail bad_conn) _ s hp))

  entry-Untouched :
      (ctx : Context) (p : Prog W (Result A)) (s : Session W)
      → s.poisoned ≡ true
      → Untouched s (guarded (entry ctx p s)).1
  entry-Untouched ctx p s hp = guarded-Untouched s _ (entry_bad-Untouched ctx p s hp)

module _ (e : Engine) (words : Words) (d : Cells e) (c : Conn) where
  with_stmt-Untouched :
      (x : Client d) (y : Reply (Result Stmt) × Session e.World)
      → Untouched x.session y.1
      → Untouched x.session (with_stmt x y).session
  unfolding with_stmt
  with_stmt-Untouched x (done (ok st), s) u = u
  with_stmt-Untouched x (done (fail err), s) u = u
  with_stmt-Untouched x (panicked, s) u = u
  with_stmt-Untouched x (exhausted, s) u = u

  with_rows-Untouched :
      (x : Client d) (y : Reply (Result (StmtRows d)) × Session e.World)
      → Untouched x.session y.1
      → Untouched x.session (with_rows x y).session
  unfolding with_rows
  with_rows-Untouched x (done (ok r), s) u = u
  with_rows-Untouched x (done (fail err), s) u = u
  with_rows-Untouched x (panicked, s) u = u
  with_rows-Untouched x (exhausted, s) u = u

  simple_exec-Untouched :
      (query : Bytes) (s : Session e.World)
      → s.poisoned ≡ true
      → Untouched s (simple_exec e words c query s).1
  unfolding simple_exec
  simple_exec-Untouched text s hp = unless_bad-Untouched (fail bad_conn) _ s hp

  begin_tx-Untouched :
      (ctx : Context) (read_only : Bool) (isolation : ℕ) (s : Session e.World)
      → s.poisoned ≡ true
      → Untouched s (begin_tx e words c ctx read_only isolation s).1
  unfolding begin_tx
  begin_tx-Untouched ctx read_only isolation s hp = unless_done-Untouched ctx.before _ s (
      branch-Untouched read_only _ _ s untouched (
        branch-Untouched (isolation == 0) _ _ s
          (unless_done-Untouched ctx.locked _ s (simple_exec-Untouched _ s hp)) untouched))

  ping_guard-Untouched :
      (s : Session e.World) (x : Reply (Result (Unit {0})) × Session e.World)
      → Untouched s x.1
      → Untouched s (ping_guard x).1
  unfolding ping_guard poison
  ping_guard-Untouched s (done r, t) u = u
  ping_guard-Untouched s (panicked, t) u = record { world = u.world; trace = u.trace }
  ping_guard-Untouched s (exhausted, t) u = u

  guard_rows-Untouched :
      {A : Type 0} (r : Rows d) (s : Session e.World)
      (x : Reply (Result A × Rows d) × Session e.World)
      → Untouched s x.1
      → Untouched s (guard_rows e d r x).1
  unfolding guard_rows
  guard_rows-Untouched r s (done y, t) u = u
  guard_rows-Untouched r s (panicked, t) u = record { world = u.world; trace = u.trace }
  guard_rows-Untouched r s (exhausted, t) u = u

  next-Untouched :
      (fuel room : ℕ) (r : Rows d) (s : Session e.World)
      → s.poisoned ≡ true
      → Untouched s (next e d fuel room r s).1
  unfolding next
  next-Untouched fuel room r s hp =
      guard_rows-Untouched r s _ (unless_poisoned-Untouched (fail bad_conn, r) _ s hp)

  close_conn-Untouched :
      (s : Session e.World) → s.poisoned ≡ true → Untouched s (close_conn e words c s).1
  unfolding close_conn disconnect unless_poisoned
  close_conn-Untouched s hp = pick-Untouched s.closed _ _ s untouched (
      if-Untouched s.poisoned (done tt, record s { closed = true }) _ s hp
        (record { world = refl; trace = refl }))

  -- Once a panic has poisoned the module, no call on the connection, its statements or its rows
  -- reaches the engine: its world stays as it is, and nothing is taken or given back.
  pub Step-Untouched :
      {x y : Client d}
      → Step words d c x y
      → x.session.poisoned ≡ true
      → Untouched x.session y.session
  unfolding prepare_context exec_context query_context exec_context_stmt query_context_stmt
      num_input ping close_locked close_rows stmt_closed rows_closed
  Step-Untouched (prepare x ctx text) hp =
      with_stmt-Untouched x _ (entry-Untouched ctx _ x.session hp)
  Step-Untouched (exec x ctx text args) hp = entry-Untouched ctx _ x.session hp
  Step-Untouched (query x ctx text args) hp =
      with_rows-Untouched x _ (entry-Untouched ctx _ x.session hp)
  Step-Untouched (exec_prepared x ctx st args) hp = entry-Untouched ctx _ x.session hp
  Step-Untouched (query_prepared x ctx st args) hp =
      with_rows-Untouched x _ (entry-Untouched ctx _ x.session hp)
  Step-Untouched (count_inputs x st) hp =
      branch-Untouched (st.closed || st.handle == 0) _ _ x.session untouched
        (unless_bad-Untouched none _ x.session hp)
  Step-Untouched (pinged x ctx) hp =
      ping_guard-Untouched x.session _ (entry_bad-Untouched ctx _ x.session hp)
  Step-Untouched (begin x ctx ro iso) hp = begin_tx-Untouched ctx ro iso x.session hp
  Step-Untouched (end_tx x text) hp = simple_exec-Untouched text x.session hp
  Step-Untouched (close_stmt x before behind st eq) hp =
      branch-Untouched st.closed _ _ x.session untouched (unless_bad-Untouched tt _ x.session hp)
  Step-Untouched (read_row x before behind r r' fuel room res s eq open_r run) hp =
      subst (λ y. Untouched x.session y.1) run (next-Untouched fuel room r x.session hp)
  Step-Untouched (close_row_set x before behind r eq) hp =
      branch-Untouched r.closed _ _ x.session untouched
        (unless_poisoned-Untouched tt _ x.session hp)
  Step-Untouched (close x) hp = close_conn-Untouched x.session hp
  Step-Untouched (sibling_calls x w good) hp = absurd cc
  Step-Untouched (sibling_panics x) hp = record { world = refl; trace = refl }
