-- ===== src/Duckdb/Driver/Balance/Statements.antt =====
-- The statements of converge/duckdb/driver.go leave the accounts of handles in order.
use duckdb_wasm2go_poc.Base.{
  ℕ, ◌+◌, ◌≡◌, Bool, true, false, List, [], ◌∷◌, ◌==◌, if◌then◌else◌, Bytes, length, refl, sym,
  arith,
}
use duckdb_wasm2go_poc.Wasi.State.{no_bytes}
use duckdb_wasm2go_poc.Duckdb.Transactions.{Words, note_tx_success, recover_tx, note_tx_failure}
use duckdb_wasm2go_poc.Duckdb.Driver.{
  Engine, Error, null_param, int64_param, double_param, varchar_param, blob_param, buffer, prepared,
  result_set, acquire, bad_conn, unsupported_bind, Result, ok, fail, Prog, pure, note, unless_bad,
  and_then,
}
use duckdb_wasm2go_poc.Duckdb.Driver.Module.{engine_err}
use duckdb_wasm2go_poc.Duckdb.Driver.Nets.{
  Handle, one, Nets, Same-refl, pure-Nets, bind-Nets, count-Nets, if-Nets, unless_bad-Nets,
  choose_tx-Nets,
}
use duckdb_wasm2go_poc.Duckdb.Driver.Stmt.{
  Value, null_value, other_value, int64_value, double_value, bool_value, text_value, blob_value,
  time_value, NamedValue, Stmt, tx_state, destroy_prepare, close_locked, bind_status, bind_text,
  bind_one, bind_each, bind_all, prepare_message, rollback, recover, prepare_locked, note_success,
  note_failure, drop_failed, exec_stmt,
}
use duckdb_wasm2go_poc.Duckdb.Driver.Balance.{
  if_ok, call_beside, acquire_beside, call_then, free-Nets, cstring-Nets, alloc_out-Nets,
  alloc_result-Nets, destroy_result-Nets, give_back-Nets, result_error-Nets, deferred_free-Nets,
  query_raw-Nets,
}

-- how much of the handle a statement holds
abbrev pub prepared_held : Handle → Bool → ℕ → ℕ
prepared_held h none_held st = if none_held then 0 else one h prepared st

unfoldable pub stmt_held : Handle → Stmt → ℕ
stmt_held h st = if st.closed then 0 else prepared_held h (st.handle == 0) st.handle

module _ (e : Engine) {h : Handle} {c : Bool} where
  bind_status-Nets : (own rc : ℕ) → Nets h c own (λ _. own) (bind_status e rc)
  unfolding bind_status
  bind_status-Nets own rc =
      if-Nets (rc == 0) (pure-Nets (ok tt)) (call_then e.last_error (λ msg. pure-Nets _))

  bind_text-Nets : (own n idx : ℕ) (s : Bytes) → Nets h c own (λ _. own) (bind_text e n idx s)
  unfolding bind_text
  bind_text-Nets own n idx s = bind-Nets (cstring-Nets e own s) (λ p.
      call_then (e.bind n idx (varchar_param p))
        (λ rc. bind-Nets (free-Nets e own p) (λ _. bind_status-Nets own rc)))

  bind_one-Nets : (own n idx : ℕ) (v : Value) → Nets h c own (λ _. own) (bind_one e n idx v)
  unfolding bind_one
  bind_one-Nets own n idx null_value =
      call_then (e.bind n idx null_param) (λ rc. bind_status-Nets own rc)
  bind_one-Nets own n idx (int64_value x) =
      call_then (e.bind n idx (int64_param x)) (λ rc. bind_status-Nets own rc)
  bind_one-Nets own n idx (double_value x) =
      call_then (e.bind n idx (double_param x)) (λ rc. bind_status-Nets own rc)
  bind_one-Nets own n idx (bool_value b) =
      call_then (e.bind n idx _) (λ rc. bind_status-Nets own rc)
  bind_one-Nets own n idx (text_value s) = bind_text-Nets own n idx s
  bind_one-Nets own n idx (time_value s) = bind_text-Nets own n idx s
  bind_one-Nets own n idx (blob_value bytes) = bind-Nets (alloc_out-Nets e own (length bytes)) (λ p.
      call_then (e.store p bytes) (λ _.
        call_then (e.bind n idx (blob_param p (length bytes)))
          (λ rc. bind-Nets (free-Nets e own p) (λ _. bind_status-Nets own rc))))
  bind_one-Nets own n idx other_value = pure-Nets (fail (unsupported_bind idx))

  -- what follows a call, where an error keeps what was there before it
  pub and_then-Nets :
      {A B : Type 0} {f : A → Prog e.World (Result B)} (gain : Result A → ℕ) (gain' : Result B → ℕ)
      → ((err : Error) → gain (fail err) ≡ gain' (fail err))
      → ((a : A) → Nets h c (gain (ok a)) gain' (f a))
      → (r : Result A) → Nets h c (gain r) gain' (and_then f r)
  unfolding and_then
  and_then-Nets gain gain' same nf (ok a) = nf a
  and_then-Nets gain gain' same nf (fail err) =
      count-Nets (sym (same err)) (λ _. refl) (pure-Nets (fail err))

  bind_each-Nets :
      (own n : ℕ) (args : List NamedValue) → Nets h c own (λ _. own) (bind_each e n args)
  unfolding bind_each
  bind_each-Nets own n [] = pure-Nets (ok tt)
  bind_each-Nets own n (a ∷ rest) =
      bind-Nets (bind_one-Nets own n a.ordinal a.value)
        (and_then-Nets (λ _. own) (λ _. own) (λ _. refl) (λ _. bind_each-Nets own n rest))

  pub bind_all-Nets :
      (own n : ℕ) (args : List NamedValue) → Nets h c own (λ _. own) (bind_all e n args)
  unfolding bind_all
  bind_all-Nets own n args = call_then (e.clear_bindings n) (λ _. bind_each-Nets own n args)

  rollback-Nets : (own con : ℕ) → Nets h c own (λ _. own) (rollback e con)
  unfolding rollback
  rollback-Nets own con = bind-Nets (query_raw-Nets e own con _) (λ _. pure-Nets tt)

  prepare_message-Nets : (own st : ℕ) → Nets h c own (λ _. own) (prepare_message e st)
  unfolding prepare_message
  prepare_message-Nets own st = if-Nets (st == 0) (call_beside own e.last_error) (
      call_then (e.prepare_error st) (λ at.
        call_then (e.go_string at)
          (λ msg. if-Nets (no_bytes msg) (call_beside own e.last_error) (pure-Nets msg))))

  pub drop_prepared-Nets :
      (own st : ℕ) (b : Bool)
      → Nets h c
          (own + prepared_held h b st)
          (λ _. own)
          (if b then pure tt else destroy_prepare e st)
  unfolding destroy_prepare
  drop_prepared-Nets own st true = count-Nets (omega arith) (λ _. refl) (pure-Nets tt)
  drop_prepared-Nets own st false = give_back-Nets e own prepared e.destroy_prepare st

  module _ (words : Words) where
    recover-Nets : (own con : ℕ) → Nets h c own (λ _. own) (recover e words con)
    unfolding recover
    recover-Nets own con =
        choose_tx-Nets (λ s. recover_tx words (tx_state s)) (λ s. s.in_tx) (rollback-Nets own con)
          (pure-Nets tt)

    pub note_success-Nets :
        (own : ℕ) (query : Bytes) → Nets h c own (λ _. own) (note_success e words query)
    unfolding note_success
    note_success-Nets own query =
        choose_tx-Nets (λ _. true) (λ s. (note_tx_success words query (tx_state s)).in_tx)
          (pure-Nets tt) (pure-Nets tt)

    pub note_failure-Nets :
        (own con : ℕ) (query : Bytes) → Nets h c own (λ _. own) (note_failure e words con query)
    unfolding note_failure
    note_failure-Nets own con query =
        choose_tx-Nets (λ s. (note_tx_failure words query (tx_state s)).1)
          (λ s. (note_tx_failure words query (tx_state s)).0.in_tx) (rollback-Nets own con)
          (pure-Nets tt)

    pub drop_failed-Nets :
        {A : Type 0} {own : ℕ} (gain : Result A → ℕ)
        → ((err : Error) → gain (fail err) ≡ own)
        → (con p : ℕ) (query : Bytes)
        → Nets h c
            (own + one h buffer p + one h result_set p)
            gain
            (drop_failed e words con p query)
    unfolding drop_failed
    drop_failed-Nets {own = own} gain kept con p query = bind-Nets (result_error-Nets e _ p) (λ msg.
        bind-Nets (destroy_result-Nets e own p) (λ _.
          bind-Nets (note_failure-Nets own con query) (λ _.
            count-Nets (kept (engine_err msg)) (λ _. refl) (pure-Nets (fail (engine_err msg))))))

    -- Executing a statement keeps nothing.
    pub exec_stmt-Nets :
        (own con : ℕ) (st : Stmt) (args : List NamedValue)
        → Nets h c own (λ _. own) (exec_stmt e words con st args)
    unfolding exec_stmt
    exec_stmt-Nets own con st args = if-Nets st.closed (pure-Nets (fail bad_conn)) (
        bind-Nets (bind_all-Nets own st.handle args) (
          and_then-Nets (λ _. own) (λ _. own) (λ _. refl)
            (λ _. bind-Nets (alloc_result-Nets e own) (λ p.
              call_then (e.execute_prepared st.handle p) (λ rc.
                if-Nets (rc == 0)
                  (call_then (e.rows_changed p) (λ n.
                    bind-Nets (destroy_result-Nets e own p)
                      (λ _. bind-Nets (note_success-Nets own st.query) (λ _. pure-Nets (ok n)))))
                  (drop_failed-Nets (λ _. own) (λ _. refl) con p st.query))))))

    note_prepared-Nets :
        (own st : ℕ) (b : Bool)
        → Nets {W = e.World} h c own
            (λ _. own + prepared_held h b st)
            (if b then pure tt else note (acquire prepared st))
    note_prepared-Nets own st true = count-Nets (omega arith) (λ _. refl) (pure-Nets tt)
    note_prepared-Nets own st false = acquire_beside own prepared st

    -- A statement that `prepareLocked` gives is held; one that fails is not.
    pub prepare_locked-Nets :
        (own con : ℕ) (query : Bytes)
        → Nets h c own (if_ok own (stmt_held h)) (prepare_locked e words con query)
    unfolding prepare_locked stmt_held
    prepare_locked-Nets own con query = bind-Nets (cstring-Nets e own query) (λ text.
        deferred_free-Nets e own text (
          bind-Nets (alloc_out-Nets e own 4) (λ slot. deferred_free-Nets e own slot (
            call_then (e.prepare con text slot) (λ rc. call_then (e.read_ptr slot) (λ st.
              bind-Nets (note_prepared-Nets own st (st == 0)) (λ _.
                if-Nets (rc == 0) (pure-Nets (ok _)) (
                  bind-Nets (prepare_message-Nets _ st) (λ msg.
                    bind-Nets (drop_prepared-Nets own st (st == 0)) (λ _.
                      bind-Nets (recover-Nets own con)
                        (λ _. pure-Nets (fail (engine_err msg)))))))))))))

module _ (e : Engine) {h : Handle} where
  close_if-Nets :
      (own held : ℕ) (b : Bool) (p : Prog e.World (Unit {0}))
      → Nets h false (own + held) (λ _. own) p
      → Nets h false
          (own + (if b then 0 else held))
          (λ _. own)
          (if b then pure tt else unless_bad (pure tt) p)
  close_if-Nets own held true p np = count-Nets (omega arith) (λ _. refl) (pure-Nets tt)
  close_if-Nets own held false p np = unless_bad-Nets (pure tt) refl (λ s. Same-refl) np

  -- Closing a statement on a good connection gives back what it holds.
  pub close_locked-Nets :
      (own : ℕ) (st : Stmt) → Nets h false (own + stmt_held h st) (λ _. own) (close_locked e st)
  unfolding close_locked stmt_held
  close_locked-Nets own st =
      close_if-Nets own _ st.closed _ (drop_prepared-Nets e own st.handle (st.handle == 0))
