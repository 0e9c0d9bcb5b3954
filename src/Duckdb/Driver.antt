-- ===== src/Duckdb/Driver.antt =====
-- The driver of converge/duckdb/driver.go, module.go and result.go over an engine: what it asks the
-- engine for, what it is given, and what it gives back. The engine is compiled code, a parameter.
pub mod Module
pub mod Nets
pub mod Rows
pub mod Stmt
pub mod Conn
mod Balance
pub mod Ledger
pub mod Clients
pub mod Effects
pub mod Accounts
pub mod Poisoned
pub mod Leaks
pub mod Open
pub mod Scratch
pub mod TypeNames
pub mod Stream
mod Toy
mod Tests
mod OpenTests
use duckdb_wasm2go_poc.Base.{ℕ, Bool, ◌||◌, List, ◌∷◌, Option, none, some, if◌then◌else◌, Bytes}

-- A call of the engine, or of its memory: none is a Go panic.
abbrev pub Call : Type 0 → Type 0 → Type 0
Call W A = W → Option A × W

-- what `bindOne` hands to a `duckdb_bind_*` call
pub data Param : Type 0 where
  null_param : Param
  int64_param double_param boolean_param : ℕ → Param
  varchar_param : ℕ → Param
  blob_param : ℕ → ℕ → Param

-- The engine with its linear memory and the host's last thrown message. A status is 0 for success.
pub record Engine : Type 1 where
  pub World : Type 0
  -- `Xmalloc`, `Xfree`, and the reads and writes of memory
  pub malloc : ℕ → Call World ℕ
  pub free : ℕ → Call World (Unit {0})
  pub store : ℕ → Bytes → Call World (Unit {0})
  pub write_u32 : ℕ → ℕ → Call World (Unit {0})
  pub read_ptr : ℕ → Call World ℕ
  pub read_u64 : ℕ → Call World ℕ
  pub go_string : ℕ → Call World Bytes
  pub last_error : Call World Bytes
  -- connections and databases
  pub connect : ℕ → ℕ → Call World ℕ
  pub disconnect : ℕ → Call World (Unit {0})
  pub close_database : ℕ → Call World (Unit {0})
  -- statements
  pub prepare : ℕ → ℕ → ℕ → Call World ℕ
  pub prepare_error : ℕ → Call World ℕ
  pub destroy_prepare : ℕ → Call World (Unit {0})
  pub nparams : ℕ → Call World ℕ
  pub clear_bindings : ℕ → Call World (Unit {0})
  pub bind : ℕ → ℕ → Param → Call World ℕ
  pub execute_prepared : ℕ → ℕ → Call World ℕ
  pub query : ℕ → ℕ → ℕ → Call World ℕ
  -- results and their chunks
  pub result_error : ℕ → Call World ℕ
  pub rows_changed : ℕ → Call World ℕ
  pub destroy_result : ℕ → Call World (Unit {0})
  pub column_count : ℕ → Call World ℕ
  pub column_name : ℕ → ℕ → Call World ℕ
  pub column_logical_type : ℕ → ℕ → Call World ℕ
  pub get_type_id : ℕ → Call World ℕ
  pub destroy_logical_type : ℕ → Call World (Unit {0})
  pub fetch_chunk : ℕ → Call World ℕ
  pub chunk_size : ℕ → Call World ℕ
  pub destroy_chunk : ℕ → Call World (Unit {0})
  pub get_vector : ℕ → ℕ → Call World ℕ
  pub vector_data : ℕ → Call World ℕ
  pub vector_validity : ℕ → Call World ℕ

-- What the driver owes the engine: memory, and the handles it has been given.
pub data Kind : Type 0 where
  buffer connection database prepared result_set chunk logical_type config engine_text : Kind

pub data Event : Type 0 where
  acquire release : Kind → ℕ → Event

-- The errors: of a context, of the engine with its text, of a bind, `ErrBadConn`, and the error
-- that `guardEnginePanic` makes of a panic.
pub data Error : Type 0 where
  bad_conn engine_panic end_of_rows read_only_tx : Error
  isolation_level : ℕ → Error
  context : ℕ → Error
  engine_error bind_error : Bytes → Error
  unsupported_bind : ℕ → Error
  both : Error → Error → Error

pub data Result {ℓ} (A : Type ℓ) : Type ℓ where
  ok : A → Result A
  fail : Error → Result A

-- The connector's fields that a panic resets.
pub record Owner : Type 0 where
  pub init : Bool
  pub has_mod : Bool
  pub db : ℕ
  pub poisoned : Bool

-- A connection over its module: the engine's world, `mod.poisoned`, `closed`, `inTx` and `owner` of
-- the connection, and what was acquired and released, the latest first.
pub record Session (W : Type 0) : Type 0 where
  pub world : W
  pub trace : List Event
  pub poisoned : Bool
  pub closed : Bool
  pub in_tx : Bool
  pub owner : Option Owner

-- How a piece of code ends: with a value, with a Go panic, or out of fuel, which only the model has.
pub data Reply {ℓ} (A : Type ℓ) : Type ℓ where
  done : A → Reply A
  panicked exhausted : Reply A

-- a piece of code on a session
abbrev pub Prog : Type 0 → Type 0 → Type 0
Prog W A = Session W → Reply A × Session W

abbrev pub answer : {A : Type 0} → Option A → Reply A
answer (some a) = done a
answer none = panicked

module _ {W : Type 0} where
  abbrev pub pure : {A : Type 0} → A → Prog W A
  pure a s = (done a, s)

  abbrev pub panic : {A : Type 0} → Prog W A
  panic s = (panicked, s)

  abbrev pub out_of_fuel : {A : Type 0} → Prog W A
  out_of_fuel s = (exhausted, s)

  unfoldable pub continue :
      {A B : Type 0} → (A → Prog W B) → Reply A × Session W → Reply B × Session W
  continue f (done a, s) = f a s
  continue f (panicked, s) = (panicked, s)
  continue f (exhausted, s) = (exhausted, s)

  infixl 5 ◌>>=◌ ◌>>◌
  unfoldable pub ◌>>=◌ : {A B : Type 0} → Prog W A → (A → Prog W B) → Prog W B
  unfolding continue
  ◌>>=◌ m f s = continue f (m s)

  abbrev pub ◌>>◌ : {A B : Type 0} → Prog W A → Prog W B → Prog W B
  m >> k = m >>= λ _. k

  unfoldable pub ended :
      {A : Type 0} → Prog W (Unit {0}) → Reply A × Session W → Reply A × Session W
  ended cleanup (done a, s) = (cleanup >>= λ _. pure a) s
  ended cleanup (panicked, s) = (cleanup >>= λ _. panic) s
  ended cleanup (exhausted, s) = (exhausted, s)

  -- `defer`: the cleanup runs however `m` ends.
  unfoldable pub deferred : {A : Type 0} → Prog W (Unit {0}) → Prog W A → Prog W A
  unfolding ended
  deferred cleanup m s = ended cleanup (m s)

  -- a call of the engine
  unfoldable pub call : {A : Type 0} → Call W A → Prog W A
  call f s = let (r, w) = f s.world in (answer r, record s { world = w })

  -- the note of what is acquired or released
  unfoldable pub note : Event → Prog W (Unit {0})
  note ev s = (done tt, record s { trace = ev ∷ s.trace })

  -- the tests of `mod.poisoned` and of `badLocked`, with what is done where they hold
  unfoldable pub unless_poisoned : {A : Type 0} → Prog W A → Prog W A → Prog W A
  unless_poisoned p q s = if s.poisoned then p s else q s

  unfoldable pub unless_bad : {A : Type 0} → Prog W A → Prog W A → Prog W A
  unless_bad p q s = if s.closed || s.poisoned then p s else q s

  -- what follows a call without an error
  unfoldable pub and_then : {A B : Type 0} → (A → Prog W (Result B)) → Result A → Prog W (Result B)
  and_then f (ok a) = f a
  and_then f (fail err) = pure (fail err)
