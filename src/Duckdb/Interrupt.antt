-- ===== src/Duckdb/Interrupt.antt =====
-- The interrupts of converge/duckdb/interrupt.go: the address of the engine's flag, and the watcher
-- that sets it once a context is cancelled. The engine's `duckdb_interrupt` is a parameter.
use duckdb_wasm2go_poc.Base.{
  ℕ, ◌+◌, ◌^◌, ◌<◌, ◌≡◌, ◌⊎◌, Bool, true, false, not, ◌&&◌, ◌||◌, [], ◌∷◌, Option, none, some, ltb,
  leb, ◌==◌, if◌then◌else◌, Bytes, length, take, drop,
}
use duckdb_wasm2go_poc.Exhost.Abi.{plus32}
use duckdb_wasm2go_poc.HostFs.Memory.{overwrite, negative32}
use duckdb_wasm2go_poc.Wasi.Iovecs.{le_value}
pub mod Flag
pub mod Watcher
mod Tests

-- the byte at an address; none is a Go panic
abbrev pub byte_at : ℕ → Bytes → Option ℕ
byte_at at mem = elim (drop at mem) [ [] ↦ none | b ∷ rest ↦ some b ]

-- `readU32`; none is a Go panic
abbrev pub read_u32 : ℕ → Bytes → Option ℕ
read_u32 at mem =
    if negative32 at || ltb (length mem) (at + 4) then none else some (le_value 4 (drop at mem))

abbrev pub flag_offset : ℕ
flag_offset = 16

-- The end of `resolveInterruptFlag`: the address, 0 where the flag is not there, and memory. `probed`
-- is memory behind the engine's own interrupt, `saved` the byte before it.
unfoldable pub probe_result : ℕ → ℕ → Bytes → ℕ × Bytes
probe_result at saved probed = elim (byte_at at probed) [
  | none ↦ (0, probed)
  | some b ↦ (if b == 1 then at else 0, overwrite at (saved ∷ []) probed)
]

-- the probe of an address; `interrupt` is `Xduckdb_interrupt` of the connection
unfoldable pub probe : (Bytes → Bytes) → ℕ → Bytes → ℕ × Bytes
unfolding probe_result
probe interrupt at mem = elim (byte_at at mem) [
  | none ↦ (0, mem)
  | some saved ↦ probe_result at saved (interrupt (overwrite at (0 ∷ []) mem))
]

-- `resolveInterruptFlag`
unfoldable pub resolve_interrupt_flag : (ℕ → Bytes → Bytes) → ℕ → Bytes → Option (ℕ × Bytes)
unfolding probe
resolve_interrupt_flag interrupt con mem = elim (read_u32 con mem) [
  | none ↦ if con == 0 then some (0, mem) else none
  | some ctx ↦
      let at = plus32 ctx flag_offset in
      let outside = at == 0 || negative32 at || leb (length mem) at in
      if con == 0 || ctx == 0 || negative32 ctx || outside
      then some (0, mem)
      else some (probe (interrupt con) at mem)
]

-- `pokeInterruptFlag`
unfoldable pub poke : ℕ → Bytes → Bytes
poke at mem = if ltb at (length mem) then overwrite at (1 ∷ []) mem else mem

-- Where the watcher of `armInterrupt` stands: at its first select, about to set the flag, at the
-- select behind that, or at its end.
pub data Place : Type 0 where
  waits fires rests ended : Place

-- Where the caller stands: in the armed region, in `disarm` behind the close of `stop`, or behind it.
pub data Caller : Type 0 where
  runs joins disarmed : Caller

-- An armed region: the watcher, the caller, whether the context is done, whether the watcher has
-- panicked, and the engine's memory.
pub record Armed : Type 0 where
  pub watcher : Place
  pub caller : Caller
  pub cancelled : Bool
  pub panicked : Bool
  pub mem : Bytes

abbrev pub is_stopped : Caller → Bool
is_stopped runs = false
is_stopped joins = true
is_stopped disarmed = true

abbrev pub is_joining : Caller → Bool
is_joining joins = true
is_joining runs = false
is_joining disarmed = false

-- The steps of the watcher. A select of which both cases are ready takes any of them.
pub data WatcherStep (at : ℕ) : Armed → Armed → Type 0 where
  stop_first :
      (s : Armed)
      → s.watcher ≡ waits
      → is_stopped s.caller ≡ true
      → WatcherStep at s (record s { watcher = ended })
  see_cancel :
      (s : Armed)
      → s.watcher ≡ waits
      → s.cancelled ≡ true
      → WatcherStep at s (record s { watcher = fires })
  fire :
      (s : Armed)
      → s.watcher ≡ fires
      → WatcherStep at s (record s { watcher = rests; mem = poke at s.mem })
  -- a torn read of the slice panics, and the deferred recover ends the watcher
  torn :
      (s : Armed)
      → s.watcher ≡ fires
      → s.caller ≡ runs
      → WatcherStep at s (record s { watcher = ended; panicked = true })
  tick : (s : Armed) → s.watcher ≡ rests → WatcherStep at s (record s { watcher = fires })
  stop_later :
      (s : Armed)
      → s.watcher ≡ rests
      → is_stopped s.caller ≡ true
      → WatcherStep at s (record s { watcher = ended })

-- The steps of the others: the context, the engine on the caller's goroutine, and `disarm`.
pub data OtherStep : Armed → Armed → Type 0 where
  cancel : (s : Armed) → OtherStep s (record s { cancelled = true })
  engine :
      (s : Armed) (mem : Bytes) → is_joining s.caller ≡ false → OtherStep s (record s { mem = mem })
  close_stop : (s : Armed) → s.caller ≡ runs → OtherStep s (record s { caller = joins })
  join :
      (s : Armed)
      → s.caller ≡ joins
      → s.watcher ≡ ended
      → OtherStep s (record s { caller = disarmed })

-- `armInterrupt`, with an address and a context that can be cancelled
abbrev pub armed : Bytes → Armed
armed mem = record {
  watcher = waits;
  caller = runs;
  cancelled = false;
  panicked = false;
  mem = mem;
}

-- the states of an armed region
pub data Reach (at : ℕ) : Armed → Type 0 where
  start : (mem : Bytes) → Reach at (armed mem)
  watch : {s t : Armed} → Reach at s → WatcherStep at s t → Reach at t
  other : {s t : Armed} → Reach at s → OtherStep s t → Reach at t

-- steps of the watcher alone
pub data Runs (at : ℕ) (s : Armed) : Armed → Type 0 where
  here : Runs at s s
  further : {t u : Armed} → Runs at s t → WatcherStep at t u → Runs at s u

-- `armInterrupt` arms a watcher only for an address, and a context that can be done
unfoldable pub arm_interrupt : Bool → ℕ → Bytes → Option Armed
arm_interrupt has_done at mem = if at == 0 || not has_done then none else some (armed mem)

-- `ctxErr`, of an error of the context and an error of the engine
unfoldable pub ctx_err : {E : Type 0} → (E → E → E) → Option E → Option E → Option E
ctx_err join_errors ctx none = none
ctx_err join_errors none (some err) = some err
ctx_err join_errors (some cerr) (some err) = some (join_errors cerr err)
