-- ===== src/Duckdb/Driver/Nets/Counts.antt =====
-- How often a handle of converge/duckdb was acquired and released, and code that leaves that in order.
use duckdb_wasm2go_poc.Base.{ℕ, ◌+◌, ◌≤◌, ◌≡◌, Bool, false, List, [], ◌∷◌, ◌==◌, if◌then◌else◌}
use duckdb_wasm2go_poc.Duckdb.Driver.{
  Kind, buffer, connection, database, prepared, result_set, chunk, logical_type, config,
  engine_text, Event, acquire, release, Session, Reply, done, panicked, exhausted, Prog,
}

-- a handle, or an address of memory
pub record Handle : Type 0 where
  pub kind : Kind
  pub id : ℕ

abbrev pub kind_code : Kind → ℕ
kind_code buffer = 0
kind_code connection = 1
kind_code database = 2
kind_code prepared = 3
kind_code result_set = 4
kind_code chunk = 5
kind_code logical_type = 6
kind_code config = 7
kind_code engine_text = 8

-- 1 if the handle is this one
unfoldable pub one : Handle → Kind → ℕ → ℕ
one h k n = if kind_code h.kind == kind_code k then if h.id == n then 1 else 0 else 0

unfoldable pub acquired : Handle → List Event → ℕ
acquired h [] = 0
acquired h (acquire k n ∷ t) = one h k n + acquired h t
acquired h (release k n ∷ t) = acquired h t

unfoldable pub released : Handle → List Event → ℕ
released h [] = 0
released h (acquire k n ∷ t) = released h t
released h (release k n ∷ t) = one h k n + released h t

-- A piece of code owns `own` of the handle, and gives `gain` of it with its value. A panic loses
-- some of it at most.
unfoldable pub Balance :
    {W A : Type 0} → Handle → ℕ → (A → ℕ) → Session W → Reply A × Session W → Type 0
Balance h own gain s (done a, s') =
    acquired h s'.trace + released h s.trace + own
    ≡ acquired h s.trace + released h s'.trace + gain a
Balance h own gain s (panicked, s') =
    acquired h s.trace + released h s'.trace ≤ acquired h s'.trace + released h s.trace + own
Balance h own gain s (exhausted, s') =
    acquired h s.trace + released h s'.trace ≤ acquired h s'.trace + released h s.trace + own

-- The flags stay as they are.
pub record Same {W : Type 0} (s s' : Session W) : Type 0 where
  pub poisoned : s'.poisoned ≡ s.poisoned
  pub closed : s'.closed ≡ s.closed

-- code that leaves the account in order, of a connection that is not poisoned
pub record Nets {W A : Type 0} (h : Handle) (c : Bool) (own : ℕ) (gain : A → ℕ) (p : Prog W A)
    : Type 0 where
  pub balance : (s : Session W) → s.poisoned ≡ false → s.closed ≡ c → Balance h own gain s (p s)
  pub same : (s : Session W) → Same s (p s).1
