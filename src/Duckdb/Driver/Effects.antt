-- ===== src/Duckdb/Driver/Effects.antt =====
-- The accounts of handles over each call on a connection of converge/duckdb/driver.go.
use duckdb_wasm2go_poc.Base.{
  ℕ, ◌+◌, ◌≡◌, Bool, true, false, ◌||◌, [], Option, none, some, ◌==◌, if◌then◌else◌, Bytes, refl,
  ap, arith,
}
use duckdb_wasm2go_poc.Base.Text.{codes}
use duckdb_wasm2go_poc.Duckdb.Transactions.{Words}
use duckdb_wasm2go_poc.Duckdb.Driver.{
  Engine, connection, database, bad_conn, Result, ok, fail, Session, Reply, done, panicked,
  exhausted, Prog, pure, unless_poisoned, unless_bad,
}
use duckdb_wasm2go_poc.Duckdb.Driver.Nets.{Handle, one, Nets, pure-Nets, bind-Nets, count-Nets}
use duckdb_wasm2go_poc.Duckdb.Driver.Rows.{Cells, Rows, close_rows, next_row, guard_rows, next}
use duckdb_wasm2go_poc.Duckdb.Driver.Stmt.{Stmt, close_locked, num_input}
use duckdb_wasm2go_poc.Duckdb.Driver.Conn.{
  Conn, Context, poison, guarded, entry, ping_guard, unless_done, ping, simple_exec, begin_tx,
  disconnect, close_conn,
}
use duckdb_wasm2go_poc.Duckdb.Driver.Balance.{if_ok, call_then, query_raw-Nets}
use duckdb_wasm2go_poc.Duckdb.Driver.Balance.Statements.{
  prepared_held, stmt_held, drop_prepared-Nets,
}
use duckdb_wasm2go_poc.Duckdb.Driver.Balance.Rowsets.{
  open_rows_held, rows_held, next_row-Nets, close_open-Nets,
}
use duckdb_wasm2go_poc.Duckdb.Driver.Balance.Conns.{zero-Nets, exec_locked-Nets, disconnect-Nets}
use duckdb_wasm2go_poc.Duckdb.Driver.Ledger.{
  conn_held, Sound, SoundAfter, weaken, unless_bad-Sound, unless_poisoned-Sound, entry-Sound,
  guarded-Sound,
}

module _ (e : Engine) (words : Words) (d : Cells e) (h : Handle) (c : Conn) where
  -- no value of an exec holds a thing
  nothing-Sound :
      {A : Type 0} (held : ℕ) (x : Reply (Result A) × Session e.World)
      → SoundAfter h c held (if_ok 0 (λ _. 0)) x
      → Sound h c held x.1
  unfolding SoundAfter
  nothing-Sound held (done (ok a), s) i = weaken h c (omega arith) i
  nothing-Sound held (done (fail err), s) i = weaken h c (omega arith) i
  nothing-Sound held (panicked, s) i = i
  nothing-Sound held (exhausted, s) i = i

  value-Sound :
      {A : Type 0} (held : ℕ) (x : Reply A × Session e.World)
      → SoundAfter h c held (λ _. 0) x
      → Sound h c held x.1
  unfolding SoundAfter
  value-Sound held (done a, s) i = weaken h c (omega arith) i
  value-Sound held (panicked, s) i = i
  value-Sound held (exhausted, s) i = i

  -- an entry point whose value keeps nothing
  pub plain-Sound :
      {A : Type 0} (held : ℕ) (ctx : Context) (p : Prog e.World (Result A)) (s : Session e.World)
      → Nets h false 0 (λ _. 0) p
      → Sound h c held s
      → Sound h c held (guarded (entry ctx p s)).1
  plain-Sound held ctx p s np i = nothing-Sound held (guarded (entry ctx p s)) (
      guarded-Sound h c held (λ _. 0) (entry ctx p s)
        (entry-Sound h c held (λ _. 0) ctx p s (zero-Nets np) i))

  pub simple_exec-Sound :
      (held : ℕ) (query : Bytes) (s : Session e.World)
      → Sound h c held s
      → Sound h c held (simple_exec e words c query s).1
  unfolding simple_exec
  simple_exec-Sound held query s i = nothing-Sound held (simple_exec e words c query s) (
      unless_bad-Sound h c held 0 (if_ok 0 (λ _. 0)) (fail bad_conn) _ s (omega arith)
        (zero-Nets (exec_locked-Nets e words 0 c.con query [])) (weaken h c (omega arith) i))

  unless_done-Sound :
      {A : Type 0} (held : ℕ) (o : Option ℕ) (p : Prog e.World (Result A)) (s : Session e.World)
      → Sound h c held s
      → Sound h c held (p s).1
      → Sound h c held (unless_done o p s).1
  unfolding unless_done
  unless_done-Sound held none p s i j = j
  unless_done-Sound held (some n) p s i j = i

  if-Sound :
      {A : Type 0} (held : ℕ) (b : Bool) (p q : Prog e.World A) (s : Session e.World)
      → Sound h c held (p s).1
      → Sound h c held (q s).1
      → Sound h c held ((if b then p else q) s).1
  if-Sound held true p q s i j = i
  if-Sound held false p q s i j = j

  pub begin_tx-Sound :
      (held : ℕ) (ctx : Context) (read_only : Bool) (isolation : ℕ) (s : Session e.World)
      → Sound h c held s
      → Sound h c held (begin_tx e words c ctx read_only isolation s).1
  unfolding begin_tx
  begin_tx-Sound held ctx read_only isolation s i = unless_done-Sound held ctx.before _ s i (
      if-Sound held read_only _ _ s i (
        if-Sound held (isolation == 0) _ _ s
          (unless_done-Sound held ctx.locked _ s i (simple_exec-Sound held _ s i)) i))

  ping_guard-Sound :
      (held : ℕ) (x : Reply (Result (Unit {0})) × Session e.World)
      → Sound h c held x.1
      → Sound h c held (ping_guard x).1
  unfolding ping_guard poison
  ping_guard-Sound held (done r, s) i = i
  ping_guard-Sound held (panicked, s) i = record { spent = i.spent; kept = λ hp. absurd cc }
  ping_guard-Sound held (exhausted, s) i = i

  pub ping-Sound :
      (held : ℕ) (ctx : Context) (s : Session e.World)
      → Sound h c held s
      → Sound h c held (ping e words c ctx s).1
  unfolding ping
  ping-Sound held ctx s i = ping_guard-Sound held _ (
      nothing-Sound held _ (
        entry-Sound h c held (λ _. 0) ctx _ s
          (zero-Nets (bind-Nets (query_raw-Nets e 0 c.con (codes "SELECT 1")) (λ r. pure-Nets _)))
          i))

  pub num_input-Sound :
      (held : ℕ) (st : Stmt) (s : Session e.World)
      → Sound h c held s
      → Sound h c held (num_input e st s).1
  unfolding num_input
  num_input-Sound held st s i = if-Sound held (st.closed || st.handle == 0) _ _ s i (
      value-Sound held _ (
        unless_bad-Sound h c held 0 (λ _. 0) none _ s (omega arith)
          (call_then (e.nparams st.handle) (λ n. pure-Nets (some n))) (weaken h c (omega arith) i)))

  -- the close of a statement that holds `own`, or is closed
  close_if-Sound :
      (held own : ℕ) (b : Bool) (p : Prog e.World (Unit {0})) (s : Session e.World)
      → Nets h false own (λ _. 0) p
      → Sound h c (held + (if b then 0 else own)) s
      → Sound h c held ((if b then pure tt else unless_bad (pure tt) p) s).1
  close_if-Sound held own true p s np i = weaken h c (omega arith) i
  close_if-Sound held own false p s np i =
      value-Sound held _ (unless_bad-Sound h c held own (λ _. 0) tt p s (omega arith) np i)

  pub close_locked-Sound :
      (held : ℕ) (st : Stmt) (s : Session e.World)
      → Sound h c (held + stmt_held h st) s
      → Sound h c held (close_locked e st s).1
  unfolding close_locked stmt_held
  close_locked-Sound held st s i =
      close_if-Sound held (prepared_held h (st.handle == 0) st.handle) st.closed _ s
        (count-Nets (omega arith) (λ _. refl) (drop_prepared-Nets e 0 st.handle (st.handle == 0))) i

  close_rows_if-Sound :
      (held own : ℕ) (b : Bool) (p : Prog e.World (Unit {0})) (s : Session e.World)
      → Nets h s.closed own (λ _. 0) p
      → Sound h c (held + (if b then 0 else own)) s
      → Sound h c held ((if b then pure tt else unless_poisoned (pure tt) p) s).1
  close_rows_if-Sound held own true p s np i = weaken h c (omega arith) i
  close_rows_if-Sound held own false p s np i =
      value-Sound held _ (unless_poisoned-Sound h c held own (λ _. 0) tt p s (omega arith) np i)

  pub close_rows-Sound :
      (held : ℕ) (r : Rows d) (s : Session e.World)
      → Sound h c (held + rows_held h r) s
      → Sound h c held (close_rows e d r s).1
  unfolding close_rows rows_held
  close_rows-Sound held r s i =
      close_rows_if-Sound held (open_rows_held h r) r.closed _ s
        (count-Nets (omega arith) (λ _. refl) (close_open-Nets e d 0 r)) i

  -- a row that is read, of open rows
  guard_rows-Sound :
      {A : Type 0} (held : ℕ) (r : Rows d) (x : Reply (Result A × Rows d) × Session e.World)
      → SoundAfter h c held (λ y. open_rows_held h y.1) x
      → SoundAfter h c held (λ y. open_rows_held h y.1) (guard_rows e d r x)
  unfolding SoundAfter guard_rows
  guard_rows-Sound held r (done y, s) i = i
  guard_rows-Sound held r (panicked, s) i = record { spent = i.spent; kept = λ hp. absurd cc }
  guard_rows-Sound held r (exhausted, s) i = i

  pub next-Sound :
      (held fuel room : ℕ) (r : Rows d) (s : Session e.World)
      → Sound h c (held + open_rows_held h r) s
      → SoundAfter h c held (λ y. open_rows_held h y.1) (next e d fuel room r s)
  unfolding next
  next-Sound held fuel room r s i = guard_rows-Sound held r _ (
      unless_poisoned-Sound h c held (open_rows_held h r) (λ y. open_rows_held h y.1)
        (fail bad_conn, r) (next_row e d fuel room r) s (omega arith)
        (count-Nets (omega arith) (λ _. omega arith) (next_row-Nets e d 0 fuel room r)) i)

  close_conn_if-Sound :
      (held : ℕ) (b : Bool) (s : Session e.World)
      → s.closed ≡ b
      → Sound h c held s
      → Sound h c held
          (if b then (done tt, s) else disconnect e words c (record s { closed = true })).1
  unfolding conn_held disconnect
  close_conn_if-Sound held true s eq i = i
  close_conn_if-Sound held false s eq i =
      let s' : Session e.World = record s { closed = true } in
      let own = one h connection c.con + (if c.owns_db then one h database c.db else 0) in
      let open_held = ap (conn_held h c) eq in
      value-Sound held _ (
        unless_poisoned-Sound h c held own (λ _. 0) tt _ s' (omega arith)
          (disconnect-Nets e words c)
          (record { spent = i.spent; kept = λ hp. let k = i.kept hp in omega arith }))

  pub close_conn-Sound :
      (held : ℕ) (s : Session e.World)
      → Sound h c held s
      → Sound h c held (close_conn e words c s).1
  unfolding close_conn
  close_conn-Sound held s i = close_conn_if-Sound held s.closed s refl i
