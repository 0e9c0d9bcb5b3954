-- ===== src/Duckdb/Driver/Leaks.antt =====
-- What the entry points of converge/duckdb/driver.go leave behind in the engine.
use duckdb_wasm2go_poc.Base.{
  ℕ, ◌≡◌, Bool, true, false, ◌||◌, List, Option, none, some, if◌then◌else◌, Bytes, refl, arith,
}
use duckdb_wasm2go_poc.Duckdb.Transactions.{Words}
use duckdb_wasm2go_poc.Duckdb.Driver.{
  Engine, Error, context, bad_conn, Result, fail, Session, Reply, done, panicked, exhausted, Prog,
  unless_bad,
}
use duckdb_wasm2go_poc.Duckdb.Driver.Nets.{Handle, Balance, Nets, bind-Nets}
use duckdb_wasm2go_poc.Duckdb.Driver.Rows.{Cells}
use duckdb_wasm2go_poc.Duckdb.Driver.Stmt.{NamedValue}
use duckdb_wasm2go_poc.Duckdb.Driver.Conn.{
  Conn, Context, poison, guarded, entry, unless_done, exec_context, query_context,
}
use duckdb_wasm2go_poc.Duckdb.Driver.Balance.{if_ok}
use duckdb_wasm2go_poc.Duckdb.Driver.Balance.Conns.{
  zero-Nets, with_context-Nets, query_held, exec_locked-Nets, query_locked-Nets,
}

module _ {W : Type 0} (h : Handle) where
  module _ {A : Type 0} (gain : A → ℕ) where
    fail-Balance :
        (err : Error) (s : Session W)
        → Balance {A = Result A} h 0 (if_ok 0 gain) s (done (fail err), s)
    unfolding Balance
    fail-Balance err s = omega arith

    unless_done-Balance :
        (o : Option ℕ) (p : Prog W (Result A)) (s : Session W)
        → Balance h 0 (if_ok 0 gain) s (p s)
        → Balance h 0 (if_ok 0 gain) s (unless_done o p s)
    unfolding unless_done
    unless_done-Balance none p s b = b
    unless_done-Balance (some n) p s b = fail-Balance (context n) s

    good-Balance :
        (b : Bool) (err : Error) (y : Reply (Result A) × Session W) (s : Session W)
        → (b ≡ false → Balance h 0 (if_ok 0 gain) s y)
        → Balance h 0 (if_ok 0 gain) s (if b then (done (fail err), s) else y)
    good-Balance true err y s f = fail-Balance err s
    good-Balance false err y s f = f refl

    entry-Balance :
        (ctx : Context) (p : Prog W (Result A)) (s : Session W)
        → Nets h false 0 (if_ok 0 gain) p
        → Balance h 0 (if_ok 0 gain) s (entry ctx p s)
    unfolding entry unless_bad
    entry-Balance ctx p s np = unless_done-Balance ctx.before _ s (
        unless_done-Balance ctx.locked _ s (
          good-Balance (s.closed || s.poisoned) bad_conn _ s (λ good.
            let hc : s.closed ≡ false = ground arith in
            let hp : s.poisoned ≡ false = ground arith in
            (bind-Nets np (with_context-Nets gain ctx.after)).balance s hp hc)))

    -- behind the guard, a module that is not poisoned has not panicked
    guarded-Balance :
        (s : Session W) (x : Reply (Result A) × Session W)
        → (guarded x).1.poisoned ≡ false
        → Balance h 0 (if_ok 0 gain) s x
        → Balance h 0 (if_ok 0 gain) s (guarded x)
    unfolding guarded poison
    guarded-Balance s (done r, t) hp b = b
    guarded-Balance s (panicked, t) hp b = absurd cc
    guarded-Balance s (exhausted, t) hp b = b

module _ (e : Engine) (words : Words) (d : Cells e) (c : Conn) where
  -- Unless the engine panics, `ExecContext` gives back all that it takes of each handle and of each
  -- buffer of memory, whatever call of the engine has failed.
  pub exec_context-Balance :
      (h : Handle) (ctx : Context) (text : Bytes) (args : List NamedValue) (s : Session e.World)
      → (exec_context e words c ctx text args s).1.poisoned ≡ false
      → Balance h 0 (if_ok 0 (λ _. 0)) s (exec_context e words c ctx text args s)
  unfolding exec_context
  exec_context-Balance h ctx text args s hp =
      guarded-Balance h (λ _. 0) s _ hp
        (entry-Balance h (λ _. 0) ctx _ s (zero-Nets (exec_locked-Nets e words 0 c.con text args)))

  -- Unless the engine panics, or a column's type nests deeper than the fuel, `QueryContext` gives back
  -- all that it takes but what its rows hold, and the statement that they own: handles, buffers, and the
  -- texts of types, aliases and ENUM dictionaries; with an error it keeps nothing, whatever call of the
  -- engine has failed.
  pub query_context-Balance :
      (h : Handle) (ctx : Context) (text : Bytes) (args : List NamedValue) (s : Session e.World)
      → (query_context e words d c ctx text args s).1.poisoned ≡ false
      → Balance h 0 (if_ok 0 (query_held h)) s (query_context e words d c ctx text args s)
  unfolding query_context
  query_context-Balance h ctx text args s hp =
      guarded-Balance h (query_held h) s _ hp
        (entry-Balance h (query_held h) ctx _ s (query_locked-Nets e words d 0 c.con text args))
