-- ===== src/Duckdb/Driver/Accounts.antt =====
-- The accounts of handles over all calls on a connection of converge/duckdb/driver.go.
use mathlib.Core.Path.{subst}
use duckdb_wasm2go_poc.Base.{
  ℕ, ◌+◌, ◌≤◌, ◌≡◌, Bool, true, false, List, [], ◌∷◌, ◌++◌, Option, none, some, if◌then◌else◌, refl,
  ap, arith, ◌∙◌,
}
use duckdb_wasm2go_poc.Duckdb.Transactions.{Words}
use duckdb_wasm2go_poc.Duckdb.Driver.{
  Engine, Owner, database, Result, ok, fail, Session, Reply, done, panicked, exhausted,
}
use duckdb_wasm2go_poc.Duckdb.Driver.Nets.{Handle, one, acquired, released, bind-Nets}
use duckdb_wasm2go_poc.Duckdb.Driver.Rows.{Cells, Rows, close_rows, closed_rows, next}
use duckdb_wasm2go_poc.Duckdb.Driver.Stmt.{Stmt, closed_stmt, close_locked}
use duckdb_wasm2go_poc.Duckdb.Driver.Conn.{
  Conn, StmtRows, exec_context, exec_context_stmt, prepare_context, query_context,
  query_context_stmt,
}
use duckdb_wasm2go_poc.Duckdb.Driver.Balance.{if_ok}
use duckdb_wasm2go_poc.Duckdb.Driver.Balance.Statements.{
  stmt_held, exec_stmt-Nets, prepare_locked-Nets,
}
use duckdb_wasm2go_poc.Duckdb.Driver.Balance.Rowsets.{open_rows_held, rows_held, query_stmt-Nets}
use duckdb_wasm2go_poc.Duckdb.Driver.Balance.Conns.{
  owned_held, query_held, exec_locked-Nets, lone-Nets, query_locked-Nets,
}
use duckdb_wasm2go_poc.Duckdb.Driver.Ledger.{
  conn_held, Sound, SoundAfter, weaken, entry-Sound, guarded-Sound,
}
use duckdb_wasm2go_poc.Duckdb.Driver.Clients.{
  Client, with_stmt, owned_stmts, with_rows, opened, Step, Reach, stmt_closed, rows_closed, prepare,
  exec, query, exec_prepared, query_prepared, count_inputs, pinged, begin, end_tx, close_stmt,
  read_row, close_row_set, close, sibling_calls, sibling_panics, start, after,
}
use duckdb_wasm2go_poc.Duckdb.Driver.Effects.{
  plain-Sound, simple_exec-Sound, begin_tx-Sound, ping-Sound, num_input-Sound, close_locked-Sound,
  close_rows-Sound, next-Sound, close_conn-Sound,
}

unfoldable pub total : {A : Type 0} → (A → ℕ) → List A → ℕ
total f [] = 0
total f (x ∷ xs) = f x + total f xs

total-append :
    {A : Type 0} (f : A → ℕ) (xs ys : List A) → total f (xs ++ ys) ≡ total f xs + total f ys
unfolding total
total-append f [] ys = omega arith
total-append f (x ∷ xs) ys = omega (arith, total-append f xs ys)

-- how much of a handle the statements and the rows of a client hold
unfoldable pub client_held : {e : Engine} {d : Cells e} → Handle → Client d → ℕ
client_held h x = total (stmt_held h) x.stmts + total (rows_held h) x.rows

module _ (e : Engine) (words : Words) (d : Cells e) (h : Handle) (c : Conn) where
  with_stmt-Sound :
      (x : Client d) (y : Reply (Result Stmt) × Session e.World)
      → SoundAfter h c (client_held h x) (if_ok 0 (stmt_held h)) y
      → Sound h c (client_held h (with_stmt x y)) (with_stmt x y).session
  unfolding SoundAfter client_held with_stmt total
  with_stmt-Sound x (done (ok st), s) i = weaken h c (omega arith) i
  with_stmt-Sound x (done (fail err), s) i = weaken h c (omega arith) i
  with_stmt-Sound x (panicked, s) i = i
  with_stmt-Sound x (exhausted, s) i = i

  owned-total :
      (o : Option Stmt) (l : List Stmt)
      → total (stmt_held h) (owned_stmts o l) ≡ owned_held h o + total (stmt_held h) l
  unfolding total
  owned-total none l = omega arith
  owned-total (some st) l = refl

  with_rows-Sound :
      (x : Client d) (y : Reply (Result (StmtRows d)) × Session e.World)
      → SoundAfter h c (client_held h x) (if_ok 0 (query_held h)) y
      → Sound h c (client_held h (with_rows x y)) (with_rows x y).session
  unfolding SoundAfter client_held with_rows total query_held
  with_rows-Sound x (done (ok r), s) i = weaken h c (omega (arith, owned-total r.st x.stmts)) i
  with_rows-Sound x (done (fail err), s) i = weaken h c (omega arith) i
  with_rows-Sound x (panicked, s) i = i
  with_rows-Sound x (exhausted, s) i = i

  held_if :
      {A : Type 0} (held : A → ℕ) (b : Bool) (x y : A)
      → (b ≡ true → held x ≡ 0)
      → held y ≡ 0
      → held (if b then x else y) ≡ 0
  held_if held true x y p q = p refl
  held_if held false x y p q = q

  -- what is closed holds nothing
  closed_stmt-held : {A : Type 0} (r : Reply A) (st : Stmt) → stmt_held h (closed_stmt r st) ≡ 0
  unfolding closed_stmt stmt_held
  closed_stmt-held (done a) st =
      held_if (stmt_held h) st.closed st (record st { closed = true; handle = 0 }) (λ z. rw z refl)
        refl
  closed_stmt-held panicked st = refl
  closed_stmt-held exhausted st = refl

  closed_rows-held :
      {A : Type 0} (b : Bool) (res : Reply A) (r : Rows d)
      → rows_held h (closed_rows e d b res r) ≡ 0
  unfolding closed_rows rows_held
  closed_rows-held b (done a) r =
      held_if (rows_held h) r.closed r _ (λ z. rw z refl)
        (held_if (rows_held h) b _ _ (λ _. refl) refl)
  closed_rows-held b panicked r = refl
  closed_rows-held b exhausted r = refl

  stmt_closed-Sound :
      (x : Client d) (before behind : List Stmt) (st : Stmt)
      (y : Reply (Unit {0}) × Session e.World)
      → Sound h c
          (total (stmt_held h) before + total (stmt_held h) behind + total (rows_held h) x.rows)
          y.1
      → let z = stmt_closed x before behind st y in Sound h c (client_held h z) z.session
  unfolding stmt_closed client_held total
  stmt_closed-Sound x before behind st (res, s) i =
      weaken h c
        (omega (
          arith,
          total-append (stmt_held h) before (closed_stmt res st ∷ behind),
          closed_stmt-held res st,
        ))
        i

  rows_closed-Sound :
      (x : Client d) (before behind : List (Rows d)) (r : Rows d)
      (y : Reply (Unit {0}) × Session e.World)
      → Sound h c
          (total (stmt_held h) x.stmts + total (rows_held h) before + total (rows_held h) behind)
          y.1
      → let z = rows_closed x before behind r y in Sound h c (client_held h z) z.session
  unfolding rows_closed client_held total
  rows_closed-Sound x before behind r (res, s) i =
      weaken h c
        (omega (
          arith,
          total-append (rows_held h) before (closed_rows e d x.session.poisoned res r ∷ behind),
          closed_rows-held x.session.poisoned res r,
        ))
        i

  held_open : (b : Bool) (n : ℕ) → (if b then 0 else n) ≤ n
  held_open true n = omega arith
  held_open false n = omega arith

  read_row-Sound :
      (held fuel room : ℕ) (r r' : Rows d) (res : Result (List (Option d.Value)))
      (s s' : Session e.World)
      → r.closed ≡ false
      → next e d fuel room r s ≡ (done (res, r'), s')
      → Sound h c (held + rows_held h r) s
      → Sound h c (held + rows_held h r') s'
  unfolding SoundAfter rows_held
  read_row-Sound held fuel room r r' res s s' open_r run i =
      let le = held_open r'.closed (open_rows_held h r') in
      let same : rows_held h r ≡ open_rows_held h r = rw open_r refl in
      weaken h c (omega arith) (
        subst (SoundAfter h c held (λ y. open_rows_held h y.1)) run
          (next-Sound e words d h c held fuel room r s (weaken h c (omega arith) i)))

  Step-Sound :
      {x y : Client d}
      → Step words d c x y
      → Sound h c (client_held h x) x.session
      → Sound h c (client_held h y) y.session
  unfolding prepare_context exec_context query_context exec_context_stmt query_context_stmt
      client_held total
  Step-Sound (prepare x ctx text) i = with_stmt-Sound x _ (
      guarded-Sound h c (client_held h x) (stmt_held h) _ (
        entry-Sound h c (client_held h x) (stmt_held h) ctx _ x.session
          (prepare_locked-Nets e words 0 c.con text) i))
  Step-Sound (exec x ctx text args) i =
      plain-Sound e words d h c (client_held h x) ctx _ x.session
        (exec_locked-Nets e words 0 c.con text args) i
  Step-Sound (query x ctx text args) i = with_rows-Sound x _ (
      guarded-Sound h c (client_held h x) (query_held h) _ (
        entry-Sound h c (client_held h x) (query_held h) ctx _ x.session
          (query_locked-Nets e words d 0 c.con text args) i))
  Step-Sound (exec_prepared x ctx st args) i =
      plain-Sound e words d h c (client_held h x) ctx _ x.session
        (exec_stmt-Nets e words 0 c.con st args) i
  Step-Sound (query_prepared x ctx st args) i = with_rows-Sound x _ (
      guarded-Sound h c (client_held h x) (query_held h) _ (
        entry-Sound h c (client_held h x) (query_held h) ctx _ x.session
          (bind-Nets (query_stmt-Nets e d words 0 c.con st args) (λ r. lone-Nets e words d 0 r)) i))
  Step-Sound (count_inputs x st) i = num_input-Sound e words d h c (client_held h x) st x.session i
  Step-Sound (pinged x ctx) i = ping-Sound e words d h c (client_held h x) ctx x.session i
  Step-Sound (begin x ctx ro iso) i =
      begin_tx-Sound e words d h c (client_held h x) ctx ro iso x.session i
  Step-Sound (end_tx x text) i = simple_exec-Sound e words d h c (client_held h x) text x.session i
  Step-Sound (close_stmt x before behind st eq) i =
      let held = ap (total (stmt_held h)) eq ∙ total-append (stmt_held h) before (st ∷ behind) in
      stmt_closed-Sound x before behind st (close_locked e st x.session)
        (close_locked-Sound e words d h c _ st x.session (weaken h c (omega arith) i))
  Step-Sound (read_row x before behind r r' fuel room res s eq open_r run) i =
      let held = ap (total (rows_held h)) eq ∙ total-append (rows_held h) before (r ∷ behind) in
      let held' = total-append (rows_held h) before (r' ∷ behind) in
      weaken h c (omega arith) (
        read_row-Sound
          (total (stmt_held h) x.stmts + total (rows_held h) before + total (rows_held h) behind)
          fuel room r r' res x.session s open_r run (weaken h c (omega arith) i))
  Step-Sound (close_row_set x before behind r eq) i =
      let held = ap (total (rows_held h)) eq ∙ total-append (rows_held h) before (r ∷ behind) in
      rows_closed-Sound x before behind r (close_rows e d r x.session)
        (close_rows-Sound e words d h c _ r x.session (weaken h c (omega arith) i))
  Step-Sound (close x) i = close_conn-Sound e words d h c (client_held h x) x.session i
  Step-Sound (sibling_calls x w hp) i = record { spent = i.spent; kept = i.kept }
  Step-Sound (sibling_panics x) i = record { spent = i.spent; kept = λ hp. absurd cc }

  owned_db : (b : Bool) (n : ℕ) → (if b then n else 0) ≤ n
  owned_db true n = omega arith
  owned_db false n = omega arith

  opened-Sound :
      (w : e.World) (owner : Option Owner)
      → let x : Client d = record { session = opened w c owner; stmts = []; rows = [] } in
        Sound h c (client_held h x) x.session
  unfolding acquired released conn_held client_held total
  opened-Sound w owner =
      let le = owned_db c.owns_db (one h database c.db) in
      record { spent = omega arith; kept = λ hp. omega arith }

  -- Whatever is called on a connection that has been opened, in whatever order, no handle or memory of
  -- the engine is given back more often than it was taken; and until the module is poisoned, what the
  -- connection, its statements that are not closed and its open rows hold has not been given back.
  pub Reach-Sound : {x : Client d} → Reach words d c x → Sound h c (client_held h x) x.session
  Reach-Sound (start w owner) = opened-Sound w owner
  Reach-Sound (after r step) = Step-Sound step (Reach-Sound r)
