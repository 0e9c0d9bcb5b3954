-- ===== src/Duckdb/Driver/Scratch.antt =====
-- What `open` of converge/duckdb/module.go allocates on its way is given back.
use duckdb_wasm2go_poc.Base.{
  ℕ, ◌+◌, ◌≡◌, Bool, true, false, Option, ◌==◌, if◌then◌else◌, Bytes, refl, arith,
}
use duckdb_wasm2go_poc.Wasi.State.{no_bytes}
use duckdb_wasm2go_poc.Duckdb.Driver.{
  Engine, Kind, connection, database, config, engine_text, acquire, release, fail, Session, Reply,
  done, panicked, exhausted, Prog, pure, ◌>>◌, deferred, ended, buffer, call, note,
}
use duckdb_wasm2go_poc.Duckdb.Driver.Module.{free, engine_err}
use duckdb_wasm2go_poc.Duckdb.Driver.Nets.{
  Handle, one, Balance, Same, Nets, frame-Balance, ended-Balance, ended-Same, pure-Nets, bind-Nets,
  count-Nets, if-Nets,
}
use duckdb_wasm2go_poc.Duckdb.Driver.Open.{
  Opener, panic_ended, on_panic, take_handle, drop_config, spoil_config, engine_message, set_memory,
  connect_first, open_config, open_database,
}
use duckdb_wasm2go_poc.Duckdb.Driver.Balance.{
  call_beside, acquire_beside, release_beside, call_then, cstring-Nets, alloc_out-Nets,
  query_raw-Nets, deferred_free-Nets,
}

module _ {W A : Type 0} (h : Handle) (c : Bool) (own frame : ℕ) (gain : A → ℕ)
    (cleanup : Prog W (Unit {0})) where
  panic_ended-Balance :
      Nets h c frame (λ _. 0) cleanup
      → (s : Session W) (x : Reply A × Session W) → s.poisoned ≡ false
      → s.closed ≡ c
      → Same s x.1
      → Balance h own gain s x
      → Balance h (own + frame) (λ a. gain a + frame) s (panic_ended cleanup x)
  unfolding panic_ended ended Balance
  panic_ended-Balance nc s (done a, s') hp hc e b =
      frame-Balance h c own frame gain s (done a, s') b
  panic_ended-Balance nc s (panicked, s') hp hc e b =
      ended-Balance h c own frame (λ a. gain a + frame) cleanup nc s (panicked, s') hp hc e b
  panic_ended-Balance nc s (exhausted, s') hp hc e b =
      frame-Balance h c own frame gain s (exhausted, s') b

  panic_ended-Same :
      Nets h c frame (λ _. 0) cleanup
      → (s : Session W) (x : Reply A × Session W) → Same s x.1
      → Same s (panic_ended cleanup x).1
  unfolding panic_ended ended
  panic_ended-Same nc s (done a, s') e = e
  panic_ended-Same nc s (panicked, s') e =
      ended-Same h c own frame gain cleanup nc s (panicked, s') e
  panic_ended-Same nc s (exhausted, s') e = e

on_panic-Nets :
    {W A : Type 0} {h : Handle} {c : Bool} {own frame : ℕ} {gain : A → ℕ}
    {cleanup : Prog W (Unit {0})} {m : Prog W A}
    → Nets h c frame (λ _. 0) cleanup
    → Nets h c own gain m
    → Nets h c (own + frame) (λ a. gain a + frame) (on_panic cleanup m)
unfolding on_panic
on_panic-Nets {h = h} {c = c} {own = own} {frame = frame} {gain = gain} {cleanup = cleanup} {m = m}
      nc nm =
    record {
      balance = λ s hp hc.
          panic_ended-Balance h c own frame gain cleanup nc s (m s) hp hc (nm.same s)
            (nm.balance s hp hc);
      same = λ s. panic_ended-Same h c own frame gain cleanup nc s (m s) (nm.same s);
    }

abbrev config_held : Handle → Bool → ℕ → ℕ
config_held h none_held n = if none_held then 0 else one h config n

module _ (e : Engine) (o : Opener e) {h : Handle} {c : Bool} where
  take_if-Nets :
      (own : ℕ) (k : Kind) (n : ℕ) (b : Bool)
      → Nets {W = e.World} h c own
          (λ _. own + (if b then 0 else one h k n))
          (if b then pure tt else note (acquire k n))
  take_if-Nets own k n true = count-Nets (omega arith) (λ _. refl) (pure-Nets tt)
  take_if-Nets own k n false = acquire_beside own k n

  drop_if-Nets :
      (own n : ℕ) (b : Bool)
      → Nets {W = e.World} h c
          (own + config_held h b n)
          (λ _. own)
          (if b then pure tt else note (release config n))
  drop_if-Nets own n true = count-Nets (omega arith) (λ _. refl) (pure-Nets tt)
  drop_if-Nets own n false = release_beside own config n

  drop_config-Nets :
      (own slot n : ℕ)
      → Nets h c (own + config_held h (n == 0) n) (λ _. own) (drop_config e o slot n)
  unfolding drop_config
  drop_config-Nets own slot n =
      bind-Nets (drop_if-Nets own n (n == 0)) (λ _. call_beside own (o.destroy_config slot))

  spoil_if-Nets :
      (slot n : ℕ) (b : Bool)
      → Nets {W = e.World} h c
          (config_held h b n)
          (λ _. 0)
          (if b then pure tt else note (release config n) >> call (o.destroy_config slot))
  spoil_if-Nets slot n true = pure-Nets tt
  spoil_if-Nets slot n false =
      bind-Nets (count-Nets (omega arith) (λ _. refl) (release_beside 0 config n))
        (λ _. call_beside 0 (o.destroy_config slot))

  -- code under a config that a panic destroys
  under_config :
      {A : Type 0} {own : ℕ} {gain : A → ℕ} {m : Prog e.World A} (slot n : ℕ)
      → Nets h c own gain m
      → Nets h c
          (own + config_held h (n == 0) n)
          (λ a. gain a + config_held h (n == 0) n)
          (on_panic (spoil_config e o slot n) m)
  unfolding spoil_config
  under_config slot n nm = on_panic-Nets (spoil_if-Nets slot n (n == 0)) nm

  engine_message-Nets : (own slot : ℕ) → Nets h c own (λ _. own) (engine_message e o slot)
  unfolding engine_message
  engine_message-Nets own slot = call_then (e.read_ptr slot) (λ at.
      if-Nets (at == 0) (call_beside own e.last_error) (
        bind-Nets (acquire_beside own engine_text at) (λ _. call_then (e.go_string at) (λ msg.
          bind-Nets (release_beside own engine_text at) (λ _.
            call_then (o.free_text at)
              (λ _. if-Nets (no_bytes msg) (call_beside own e.last_error) (pure-Nets msg)))))))

  freed_beside :
      {A : Type 0} {gain : A → ℕ} {m : Prog e.World A} (own kept p : ℕ)
      → Nets h c (own + kept) gain m
      → Nets h c (own + one h buffer p + kept) gain (deferred (free e p) m)
  freed_beside own kept p nm =
      count-Nets (omega arith) (λ _. refl) (deferred_free-Nets e (own + kept) p nm)

  -- a handle of a kind that is not counted
  take_other-Nets :
      (own : ℕ) (k : Kind) (n : ℕ) → one h k n ≡ 0 → Nets h c own (λ _. own) (take_handle e o k n)
  unfolding take_handle
  take_other-Nets own k n z =
      if-Nets (n == 0) (pure-Nets tt) (count-Nets refl (λ _. omega arith) (acquire_beside own k n))

  module _ (no_connection : (n : ℕ) → one h connection n ≡ 0)
      (no_database : (n : ℕ) → one h database n ≡ 0) where
    connect_first-Nets :
        (own db : ℕ) (limit : Bytes) → Nets h c own (λ _. own) (connect_first e o db limit)
    unfolding connect_first set_memory
    connect_first-Nets own db limit = call_then (o.register_core_functions db) (λ _.
        bind-Nets (alloc_out-Nets e own 4) (λ slot. deferred_free-Nets e own slot (
          call_then (e.connect db slot) (λ rc.
            if-Nets (rc == 0)
              (call_then (e.read_ptr slot) (λ con.
                bind-Nets (take_other-Nets own connection con (no_connection con))
                  (λ _. bind-Nets (query_raw-Nets e own con _) (λ r. pure-Nets _))))
              (call_then e.last_error (λ msg. pure-Nets (fail (engine_err msg))))))))

    open_config-Nets :
        (own slot n : ℕ) (path limit : Bytes)
        → Nets h c (own + config_held h (n == 0) n) (λ _. own) (open_config e o slot n path limit)
    unfolding open_config
    open_config-Nets own slot n path limit =
        let kept = config_held h (n == 0) n in
        bind-Nets (under_config slot n (call_beside own (o.attach_to_config n))) (λ _.
          bind-Nets (under_config slot n (cstring-Nets e own path)) (λ text.
            freed_beside own kept text (
              bind-Nets (under_config slot n (alloc_out-Nets e own 4)) (λ db_slot.
                freed_beside own kept db_slot (
                  bind-Nets (under_config slot n (alloc_out-Nets e own 4)) (λ err_slot.
                    freed_beside own kept err_slot (
                      bind-Nets
                        (under_config slot n (call_beside own (o.open_ext text db_slot n err_slot)))
                        (λ rc. bind-Nets (drop_config-Nets own slot n) (λ _.
                          if-Nets (rc == 0)
                            (call_then (e.read_ptr db_slot) (λ db.
                              bind-Nets (take_other-Nets own database db (no_database db))
                                (λ _. connect_first-Nets own db limit)))
                            (bind-Nets (engine_message-Nets own err_slot)
                              (λ msg. pure-Nets (fail (engine_err msg)))))))))))))

    take_config-Nets :
        (own n : ℕ) → Nets h c own (λ _. own + config_held h (n == 0) n) (take_handle e o config n)
    unfolding take_handle
    take_config-Nets own n = take_if-Nets own config n (n == 0)

    open_database-Nets :
        (own : ℕ) (parse : Bytes → Option (Bytes → Bytes)) (dsn : Bytes)
        → Nets h c own (λ _. own) (open_database e o parse dsn)
    unfolding open_database
    open_database-Nets own parse dsn = bind-Nets (alloc_out-Nets e own 4) (λ slot.
        deferred_free-Nets e own slot (
          call_then (o.create_config slot) (λ rc.
            if-Nets (rc == 0)
              (call_then (e.read_ptr slot)
                (λ n. bind-Nets (take_config-Nets own n) (λ _. open_config-Nets own slot n _ _)))
              (call_then e.last_error (λ msg. pure-Nets (fail (engine_err msg)))))))

-- However the opening of a database ends, unless with a panic, every buffer of memory, the config and
-- the engine's texts that it was given have been given back, and of all that it was given at most
-- connections and databases are kept.
pub open_database-Balance :
    (e : Engine) (o : Opener e) (h : Handle) (parse : Bytes → Option (Bytes → Bytes)) (dsn : Bytes)
    (s : Session e.World)
    → s.poisoned ≡ false
    → ((n : ℕ) → one h connection n ≡ 0)
    → ((n : ℕ) → one h database n ≡ 0)
    → Balance h 0 (λ _. 0) s (open_database e o parse dsn s)
open_database-Balance e o h parse dsn s hp no_connection no_database =
    (open_database-Nets e o no_connection no_database 0 parse dsn).balance s hp refl
