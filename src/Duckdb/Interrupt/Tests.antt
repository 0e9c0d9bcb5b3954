-- ===== src/Duckdb/Interrupt/Tests.antt =====
-- A memory with a connection at 4, whose context is at 4, and the witnesses for
-- converge/duckdb/interrupt.go.
use duckdb_wasm2go_poc.Base.{ℕ, ◌≡◌, ◌≢◌, ◌⊎◌, true, some, Bytes, arith, refl}
use duckdb_wasm2go_poc.Base.Text.{codes}
use duckdb_wasm2go_poc.Duckdb.Interrupt.{
  byte_at, poke, Armed, armed, fires, joins, disarmed, Reach, start, watch, other, cancel,
  close_stop, see_cancel, fire, Runs, OtherStep,
}
use duckdb_wasm2go_poc.Duckdb.Interrupt.Watcher.{
  WatcherStep-allowed, disarm_returns, cancelled_sets,
}

abbrev engine_memory : Bytes
engine_memory = codes "0123\u{4}\0\0\089abcdefghijklmnop"

abbrev engine_interrupt : ℕ → Bytes → Bytes
engine_interrupt con mem = poke 20 mem

-- the states of a region whose context is cancelled
abbrev cancelled_region : Armed
cancelled_region = record (armed engine_memory) { cancelled = true }

abbrev firing_region : Armed
firing_region = record cancelled_region { watcher = fires }

cancelled_region-Reach : Reach 20 cancelled_region
cancelled_region-Reach = other (start engine_memory) (cancel (armed engine_memory))

WatcherStep-allowed_example :
    (firing_region.caller ≢ disarmed)
    × ((poke 20 engine_memory ≡ engine_memory)
        ⊎ ((true ≡ true) × (poke 20 engine_memory ≡ poke 20 engine_memory)))
WatcherStep-allowed_example =
    WatcherStep-allowed (watch cancelled_region-Reach (see_cancel cancelled_region refl refl))
      (fire firing_region refl)

disarm_returns_example :
    (t : Armed) × Runs 20 (record cancelled_region { caller = joins }) t
    × OtherStep t (record t { caller = disarmed })
disarm_returns_example =
    disarm_returns (other cancelled_region-Reach (close_stop cancelled_region refl)) refl

cancelled_sets_example : (t : Armed) × Runs 20 cancelled_region t × (byte_at 20 t.mem ≡ some 1)
cancelled_sets_example = cancelled_sets cancelled_region-Reach refl refl refl (omega arith)
