-- ===== src/Duckdb/Driver/Stmt.antt =====
-- The prepared statements of converge/duckdb/driver.go, and the recovery of a transaction that a
-- failed statement leaves open.
use duckdb_wasm2go_poc.Base.{
  ℕ, Bool, true, false, ◌||◌, List, [], ◌∷◌, Option, none, some, ◌==◌, if◌then◌else◌, Bytes, length,
}
use duckdb_wasm2go_poc.Base.Text.{codes}
use duckdb_wasm2go_poc.Wasi.State.{no_bytes}
use duckdb_wasm2go_poc.Duckdb.Transactions.{Words, note_tx_success, recover_tx, note_tx_failure}
use duckdb_wasm2go_poc.Duckdb.Transactions
use duckdb_wasm2go_poc.Duckdb.Driver.{
  Engine, null_param, int64_param, double_param, boolean_param, varchar_param, blob_param, prepared,
  acquire, bad_conn, bind_error, unsupported_bind, Result, ok, fail, Session, Reply, done, Prog,
  pure, ◌>>=◌, ◌>>◌, deferred, call, note, unless_bad, and_then,
}
use duckdb_wasm2go_poc.Duckdb.Driver.Module.{
  engine_err, free, cstring, alloc_out, alloc_result, destroy_result, give_back, result_error,
  query_raw,
}
use duckdb_wasm2go_poc.Duckdb.Driver.Rows.{Cells, Rows, new_rows}

-- A `driver.Value`; a time is given as the text that its Format writes.
pub data Value : Type 0 where
  null_value other_value : Value
  int64_value double_value : ℕ → Value
  bool_value : Bool → Value
  text_value blob_value time_value : Bytes → Value

-- `driver.NamedValue`
pub record NamedValue : Type 0 where
  pub ordinal : ℕ
  pub value : Value

-- `stmt`
pub record Stmt : Type 0 where
  pub handle : ℕ
  pub query : Bytes
  pub closed : Bool

-- The fields behind `closeLocked`, whose last one a panic does not reach.
unfoldable pub closed_stmt : {A : Type 0} → Reply A → Stmt → Stmt
closed_stmt (done a) st = if st.closed then st else record st { closed = true; handle = 0 }
closed_stmt _ st = record st { closed = true }

-- what the functions on transactions read of a connection
abbrev pub tx_state : {W : Type 0} → Session W → Transactions.Conn
tx_state s = record { in_tx = s.in_tx; bad = s.closed || s.poisoned }

-- `orUnknown`
abbrev pub or_unknown : Bytes → Bytes
or_unknown s = if no_bytes s then codes "unknown error" else s

module _ (e : Engine) where
  -- `destroyPrepare`
  unfoldable pub destroy_prepare : ℕ → Prog e.World (Unit {0})
  destroy_prepare handle = give_back e prepared e.destroy_prepare handle

  -- `closeLocked`: what it asks the engine
  unfoldable pub close_locked : Stmt → Prog e.World (Unit {0})
  close_locked st =
      if st.closed
      then pure tt
      else unless_bad (pure tt) (if st.handle == 0 then pure tt else destroy_prepare st.handle)

  -- `NumInput`: none is -1
  unfoldable pub num_input : Stmt → Prog e.World (Option ℕ)
  num_input st =
      if st.closed || st.handle == 0
      then pure none
      else unless_bad (pure none) (call (e.nparams st.handle) >>= (λ n. pure (some n)))

  -- the end of `bindOne`
  unfoldable pub bind_status : ℕ → Prog e.World (Result (Unit {0}))
  bind_status rc =
      if rc == 0
      then pure (ok tt)
      else call e.last_error >>= (λ msg. pure (fail (bind_error (or_unknown msg))))

  unfoldable pub bind_text : ℕ → ℕ → Bytes → Prog e.World (Result (Unit {0}))
  bind_text handle idx s = do
    p ← cstring e s
    rc ← call (e.bind handle idx (varchar_param p))
    free e p
    bind_status rc

  -- `bindOne`
  unfoldable pub bind_one : ℕ → ℕ → Value → Prog e.World (Result (Unit {0}))
  bind_one handle idx null_value = call (e.bind handle idx null_param) >>= bind_status
  bind_one handle idx (int64_value n) = call (e.bind handle idx (int64_param n)) >>= bind_status
  bind_one handle idx (double_value n) = call (e.bind handle idx (double_param n)) >>= bind_status
  bind_one handle idx (bool_value b) =
      call (e.bind handle idx (boolean_param (if b then 1 else 0))) >>= bind_status
  bind_one handle idx (text_value s) = bind_text handle idx s
  bind_one handle idx (time_value s) = bind_text handle idx s
  bind_one handle idx (blob_value bytes) = do
    p ← alloc_out e (length bytes)
    call (e.store p bytes)
    rc ← call (e.bind handle idx (blob_param p (length bytes)))
    free e p
    bind_status rc
  bind_one handle idx other_value = pure (fail (unsupported_bind idx))

  -- the loop of `bindAll`
  unfoldable pub bind_each : ℕ → List NamedValue → Prog e.World (Result (Unit {0}))
  bind_each handle [] = pure (ok tt)
  bind_each handle (a ∷ rest) =
      bind_one handle a.ordinal a.value >>= and_then (λ _. bind_each handle rest)

  -- `bindAll`
  unfoldable pub bind_all : ℕ → List NamedValue → Prog e.World (Result (Unit {0}))
  bind_all handle args = call (e.clear_bindings handle) >> bind_each handle args

  -- the ROLLBACK of `recoverTxLocked`, whose error is ignored
  unfoldable pub rollback : ℕ → Prog e.World (Unit {0})
  rollback con = query_raw e con (codes "ROLLBACK") >>= λ _. pure tt

  -- the message of a prepare that failed
  unfoldable pub prepare_message : ℕ → Prog e.World Bytes
  prepare_message st = if st == 0 then call e.last_error else (do
    at ← call (e.prepare_error st)
    msg ← call (e.go_string at)
    if no_bytes msg then call e.last_error else pure msg)

  module _ (words : Words) where
    -- `recoverTxLocked`
    unfoldable pub recover : ℕ → Prog e.World (Unit {0})
    recover con s = if recover_tx words (tx_state s) then rollback con s else (done tt, s)

    -- `prepareLocked`
    unfoldable pub prepare_locked : ℕ → Bytes → Prog e.World (Result Stmt)
    prepare_locked con query = do
      text ← cstring e query
      deferred (free e text) (do
        slot ← alloc_out e 4
        deferred (free e slot) (do
          rc ← call (e.prepare con text slot)
          st ← call (e.read_ptr slot)
          if st == 0 then pure tt else note (acquire prepared st)
          if rc == 0 then pure (ok (record { handle = st; query = query; closed = false })) else (do
            msg ← prepare_message st
            if st == 0 then pure tt else destroy_prepare st
            recover con
            pure (fail (engine_err msg)))))

    -- `noteTxSuccessLocked`
    unfoldable pub note_success : Bytes → Prog e.World (Unit {0})
    note_success query s =
        (done tt, record s { in_tx = (note_tx_success words query (tx_state s)).in_tx })

    -- `noteTxFailureLocked`
    unfoldable pub note_failure : ℕ → Bytes → Prog e.World (Unit {0})
    note_failure con query s =
        let (c, sent) = note_tx_failure words query (tx_state s) in
        let s' = record s { in_tx = c.in_tx } in if sent then rollback con s' else (done tt, s')

    -- the error of a result, which is destroyed
    unfoldable pub drop_failed : {A : Type 0} → ℕ → ℕ → Bytes → Prog e.World (Result A)
    drop_failed con p query = do
      msg ← result_error e p
      destroy_result e p
      note_failure con query
      pure (fail (engine_err msg))

    -- `execLocked` of a statement
    unfoldable pub exec_stmt : ℕ → Stmt → List NamedValue → Prog e.World (Result ℕ)
    exec_stmt con st args =
        if st.closed
        then pure (fail bad_conn)
        else bind_all st.handle args
          >>= and_then (λ _. do
            p ← alloc_result e
            rc ← call (e.execute_prepared st.handle p)
            if rc == 0
                then (do
                  n ← call (e.rows_changed p)
                  destroy_result e p
                  note_success st.query
                  pure (ok n))
                else drop_failed con p st.query)

    -- `queryLocked` of a statement
    unfoldable pub query_stmt :
        (d : Cells e) → ℕ → Stmt → List NamedValue → Prog e.World (Result (Rows d))
    query_stmt d con st args =
        if st.closed
        then pure (fail bad_conn)
        else bind_all st.handle args
          >>= and_then (λ _. do
            p ← alloc_result e
            rc ← call (e.execute_prepared st.handle p)
            if rc == 0 then note_success st.query >> new_rows e d p else drop_failed con p st.query)
