-- ===== src/Duckdb/Driver/Open.antt =====
-- `open` of converge/duckdb/module.go, which opens a database and its first connection, and `parseDSN`.
-- One deferred function frees what was allocated; here each buffer has its own deferred free, so that
-- they go in the other order. After an error that function would also close the connection and the
-- database, but it looks at the named results, which `return 0, 0, err` has set to 0: it closes
-- neither. A panic of `duckdb_destroy_config` itself, after which it is called again, is left out.
use duckdb_wasm2go_poc.Base.{ℕ, [], ◌∷◌, ◌++◌, Option, none, some, ◌==◌, if◌then◌else◌, Bytes}
use duckdb_wasm2go_poc.Base.Text.{codes}
use duckdb_wasm2go_poc.Wasi.State.{no_bytes}
use duckdb_wasm2go_poc.Duckdb.Driver.{
  Call, Engine, Kind, connection, database, config, engine_text, acquire, release, Result, ok, fail,
  Session, Reply, done, panicked, exhausted, Prog, pure, panic, ◌>>=◌, ◌>>◌, deferred, call, note,
}
use duckdb_wasm2go_poc.Duckdb.Driver.Module.{engine_err, free, cstring, alloc_out, query_raw}

-- what `open` alone asks the engine for
pub record Opener (e : Engine) : Type 0 where
  pub create_config : ℕ → Call e.World ℕ
  pub attach_to_config : ℕ → Call e.World (Unit {0})
  pub destroy_config : ℕ → Call e.World (Unit {0})
  pub open_ext : ℕ → ℕ → ℕ → ℕ → Call e.World ℕ
  pub free_text : ℕ → Call e.World (Unit {0})
  pub register_core_functions : ℕ → Call e.World (Unit {0})

-- the text before the first '?', and what is behind it
unfoldable pub cut_query : Bytes → Bytes × Option Bytes
cut_query [] = ([], none)
cut_query (c ∷ cs) =
    let rest = cut_query cs in if c == b'?' then ([], some cs) else (c ∷ rest.0, rest.1)

abbrev pub or_default : Bytes → Bytes → Bytes
or_default fallback s = if no_bytes s then fallback else s

-- The options of a query: `parse` is `url.ParseQuery` with `Get`, none for an error.
unfoldable pub max_memory : (Bytes → Option (Bytes → Bytes)) → Option Bytes → Bytes
max_memory parse none = codes "1GiB"
max_memory parse (some query) = elim (parse query) [
  | none ↦ codes "1GiB"
  | some get ↦
      or_default (or_default (codes "1GiB") (get (codes "memory_limit"))) (get (codes "max_memory"))
]

-- `parseDSN`: the path and the memory limit
unfoldable pub parse_dsn : (Bytes → Option (Bytes → Bytes)) → Bytes → Bytes × Bytes
parse_dsn parse dsn =
    let (path, query) = cut_query dsn in
    (or_default (codes ":memory:") path, max_memory parse query)

-- `strings.ReplaceAll` of a quote by two
unfoldable pub doubled_quotes : Bytes → Bytes
doubled_quotes [] = []
doubled_quotes (c ∷ cs) =
    let rest = doubled_quotes cs in if c == b'\'' then b'\'' ∷ b'\'' ∷ rest else c ∷ rest

unfoldable pub opened_pair : ℕ → ℕ → Result ℕ → Result (ℕ × ℕ)
opened_pair con db (ok n) = ok (con, db)
opened_pair con db (fail err) = fail err

module _ {W : Type 0} where
  unfoldable pub panic_ended :
      {A : Type 0} → Prog W (Unit {0}) → Reply A × Session W → Reply A × Session W
  panic_ended cleanup (done a, s) = (done a, s)
  panic_ended cleanup (panicked, s) = (cleanup >>= λ _. panic) s
  panic_ended cleanup (exhausted, s) = (exhausted, s)

  -- what the deferred function does on a panic
  unfoldable pub on_panic : {A : Type 0} → Prog W (Unit {0}) → Prog W A → Prog W A
  on_panic cleanup m s = panic_ended cleanup (m s)

module _ (e : Engine) (o : Opener e) where
  abbrev Code : Type 0 → Type 0
  Code A = Prog e.World A

  -- a handle that is null is none
  unfoldable pub take_handle : Kind → ℕ → Code (Unit {0})
  take_handle k n = if n == 0 then pure tt else note (acquire k n)

  -- `duckdb_destroy_config`, which is called on a null one too
  unfoldable pub drop_config : ℕ → ℕ → Code (Unit {0})
  drop_config slot cfg =
      (if cfg == 0 then pure tt else note (release config cfg)) >> call (o.destroy_config slot)

  -- `duckdb_destroy_config` in the deferred function
  unfoldable pub spoil_config : ℕ → ℕ → Code (Unit {0})
  spoil_config slot cfg =
      if cfg == 0 then pure tt else note (release config cfg) >> call (o.destroy_config slot)

  -- the message of an open that failed
  unfoldable pub engine_message : ℕ → Code Bytes
  engine_message slot = do
    at ← call (e.read_ptr slot)
    if at == 0 then call e.last_error else (do
      note (acquire engine_text at)
      msg ← call (e.go_string at)
      note (release engine_text at)
      call (o.free_text at)
      if no_bytes msg then call e.last_error else pure msg)

  -- the end of `open`, on a connection
  unfoldable pub set_memory : ℕ → ℕ → Bytes → Code (Result (ℕ × ℕ))
  set_memory con db limit = do
    r ← query_raw e con (codes "SET max_memory='" ++ (doubled_quotes limit ++ codes "'"))
    pure (opened_pair con db r)

  -- the part of `open` on a database that is open
  unfoldable pub connect_first : ℕ → Bytes → Code (Result (ℕ × ℕ))
  connect_first db limit = do
    call (o.register_core_functions db)
    slot ← alloc_out e 4
    deferred (free e slot) (do
      rc ← call (e.connect db slot)
      if rc == 0
          then (do
            con ← call (e.read_ptr slot)
            take_handle connection con
            set_memory con db limit)
          else (do msg ← call e.last_error; pure (fail (engine_err msg))))

  -- the part of `open` on a config
  unfoldable pub open_config : ℕ → ℕ → Bytes → Bytes → Code (Result (ℕ × ℕ))
  open_config slot cfg path limit = do
    on_panic (spoil_config slot cfg) (call (o.attach_to_config cfg))
    text ← on_panic (spoil_config slot cfg) (cstring e path)
    deferred (free e text) (do
      db_slot ← on_panic (spoil_config slot cfg) (alloc_out e 4)
      deferred (free e db_slot) (do
        err_slot ← on_panic (spoil_config slot cfg) (alloc_out e 4)
        deferred (free e err_slot) (do
          rc ← on_panic (spoil_config slot cfg) (call (o.open_ext text db_slot cfg err_slot))
          drop_config slot cfg
          if rc == 0
              then (do
                db ← call (e.read_ptr db_slot)
                take_handle database db
                connect_first db limit)
              else (do msg ← engine_message err_slot; pure (fail (engine_err msg))))))

  -- `open`: the connection and the database
  unfoldable pub open_database : (Bytes → Option (Bytes → Bytes)) → Bytes → Code (Result (ℕ × ℕ))
  open_database parse dsn = do
    slot ← alloc_out e 4
    deferred (free e slot) (do
      rc ← call (o.create_config slot)
      if rc == 0
          then (do
            cfg ← call (e.read_ptr slot)
            take_handle config cfg
            open_config slot cfg (parse_dsn parse dsn).0 (parse_dsn parse dsn).1)
          else (do msg ← call e.last_error; pure (fail (engine_err msg))))
