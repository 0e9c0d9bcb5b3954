-- ===== src/Duckdb/Driver/Rows.antt =====
-- The rows of converge/duckdb/result.go: a result that is fetched chunk by chunk.
use duckdb_wasm2go_poc.Base.{
  ℕ, zero, suc, ◌+◌, ◌*◌, ◌/◌, ◌%◌, ◌^◌, Bool, true, false, ◌&&◌, not, List, [], ◌∷◌, Option, none,
  some, ltb, ◌==◌, if◌then◌else◌, Bytes,
}
use duckdb_wasm2go_poc.Duckdb.Driver.{
  Call, Engine, chunk, logical_type, acquire, bad_conn, engine_panic, end_of_rows, Result, ok, fail,
  Session, Reply, done, panicked, exhausted, Prog, pure, ◌>>=◌, ◌>>◌, out_of_fuel, call, note,
  unless_poisoned,
}
use duckdb_wasm2go_poc.Duckdb.Driver.Module.{give_back, destroy_result}
use duckdb_wasm2go_poc.Duckdb.Driver.TypeNames.{TypeReader, take_text, type_name}
use duckdb_wasm2go_poc.Base.Text.{codes, text_eq}

-- What a column keeps of its logical type: `typeIDs`, `typeNames`, `decimalMeta`, `colJSON` and
-- `enumMeta`, where its type has them.
pub record Meta : Type 0 where
  pub type_id : ℕ
  pub type_name : Bytes
  pub decimal : Option (ℕ × ℕ × ℕ)
  pub is_json : Bool
  pub enumeration : Option (ℕ × List Bytes)

-- What `newRows` asks of a logical type beyond what `typeName` does, with fuel for the nesting of
-- types, and what reads a cell: `decode`, and the nested decoders, `nestedDecs` with their cache.
pub record Cells (e : Engine) : Type 1 where
  pub Value : Type 0
  pub types : TypeReader e
  pub depth : ℕ
  pub decimal_internal_type : ℕ → Call e.World ℕ
  pub enum_internal_type : ℕ → Call e.World ℕ
  pub enum_dictionary_size : ℕ → Call e.World ℕ
  pub enum_dictionary_value : ℕ → ℕ → Call e.World ℕ
  pub decode : Meta → ℕ → ℕ → ℕ → Call e.World Value

-- `names`, and the rest of a column
pub record Column {e : Engine} (d : Cells e) : Type 0 where
  pub name : Bytes
  pub meta : Meta

-- `rows`: the lock is taken by every call
pub record Rows {e : Engine} (d : Cells e) : Type 0 where
  pub res_ptr : ℕ
  pub columns : List (Column d)
  pub chunk : ℕ
  pub chunk_len : ℕ
  pub cursor : ℕ
  pub closed : Bool

module _ (e : Engine) (d : Cells e) where
  -- the loop of `readEnumMeta`; a null text is empty
  unfoldable pub read_dictionary : ℕ → ℕ → ℕ → Prog e.World (List Bytes)
  read_dictionary lt zero i = pure []
  read_dictionary lt (suc n) i = do
    at ← call (d.enum_dictionary_value lt i)
    s ← (if at == 0 then pure [] else take_text e d.types at)
    rest ← read_dictionary lt n (i + 1)
    pure (s ∷ rest)

  -- `readEnumMeta`
  unfoldable pub read_enum_meta : ℕ → Prog e.World (Option (ℕ × List Bytes))
  read_enum_meta lt = do
    internal ← call (d.enum_internal_type lt)
    n ← call (d.enum_dictionary_size lt)
    dict ← read_dictionary lt n 0
    pure (some (internal, dict))

  -- the width and the scale of a DECIMAL, which are uint8, and the type of its integers
  unfoldable pub read_decimal_info : ℕ → Prog e.World (Option (ℕ × ℕ × ℕ))
  read_decimal_info lt = do
    width ← call (d.types.decimal_width lt)
    scale ← call (d.types.decimal_scale lt)
    internal ← call (d.decimal_internal_type lt)
    pure (some (width % 256, scale % 256, internal))

  -- whether a VARCHAR has the alias JSON
  unfoldable pub read_is_json : ℕ → Prog e.World Bool
  read_is_json lt = do
    at ← call (d.types.get_alias lt)
    if at == 0
        then pure false
        else take_text e d.types at >>= (λ s. pure (text_eq s (codes "JSON")))

  -- what `newRows` reads of a logical type
  unfoldable pub read_meta : ℕ → Prog e.World Meta
  read_meta lt = do
    tid ← call (e.get_type_id lt)
    name ← type_name e d.types d.depth lt
    decimal ← (if tid == 19 then read_decimal_info lt else pure none)
    is_json ← (if tid == 17 then read_is_json lt else pure false)
    enumeration ← (if tid == 23 then read_enum_meta lt else pure none)
    pure (record {
      type_id = tid;
      type_name = name;
      decimal = decimal;
      is_json = is_json;
      enumeration = enumeration;
    })

  -- the loop of `newRows`
  unfoldable pub read_columns : ℕ → ℕ → ℕ → Prog e.World (List (Column d))
  read_columns zero col p = pure []
  read_columns (suc n) col p = do
    at ← call (e.column_name p col)
    name ← call (e.go_string at)
    lt ← call (e.column_logical_type p col)
    note (acquire logical_type lt)
    meta ← read_meta lt
    give_back e logical_type e.destroy_logical_type lt
    rest ← read_columns n (col + 1) p
    pure (record { name = name; meta = meta } ∷ rest)

  -- `newRows`
  unfoldable pub new_rows : ℕ → Prog e.World (Result (Rows d))
  new_rows p = do
    n ← call (e.column_count p)
    columns ← read_columns n 0 p
    pure (
        ok (record {
          res_ptr = p;
          columns = columns;
          chunk = 0;
          chunk_len = 0;
          cursor = 0;
          closed = false;
        }))

  -- `releaseChunk`: what it asks the engine, and the fields that it resets
  unfoldable pub release_chunk : Rows d → Prog e.World (Unit {0})
  release_chunk r = if r.chunk == 0 then pure tt else give_back e chunk e.destroy_chunk r.chunk

  unfoldable pub without_chunk : Rows d → Rows d
  without_chunk r = if r.chunk == 0 then r else record r { chunk = 0; chunk_len = 0; cursor = 0 }

  -- `Close`: what it asks the engine
  unfoldable pub close_rows : Rows d → Prog e.World (Unit {0})
  close_rows r =
      if r.closed
      then pure tt
      else unless_poisoned (pure tt) (release_chunk r >> destroy_result e r.res_ptr)

  -- the fields behind `Close`, on a module that is poisoned or not; a panic does not reach the last
  -- ones
  unfoldable pub closed_rows : {A : Type 0} → Bool → Reply A → Rows d → Rows d
  closed_rows poisoned (done a) r =
      if r.closed
      then r
      else if poisoned
      then record r { closed = true; chunk = 0; res_ptr = 0 }
      else record (without_chunk r) { closed = true; res_ptr = 0 }
  closed_rows poisoned _ r = record r { closed = true }

  -- whether the held chunk has a row left
  abbrev pub has_row : Rows d → Bool
  has_row r = not (r.chunk == 0) && ltb r.cursor r.chunk_len

  -- a fetched chunk: one without rows is given back at once
  unfoldable pub take_chunk : Rows d → ℕ → ℕ → Prog e.World (Rows d)
  take_chunk r c size =
      if size == 0
      then release_chunk (record r { chunk = c }) >> pure (without_chunk (record r { chunk = c }))
      else pure (record r { chunk = c; chunk_len = size; cursor = 0 })

  -- the loop of `Next`, and whether it has found a row
  unfoldable pub advance : ℕ → Rows d → Prog e.World (Rows d × Bool)
  advance zero r = if has_row r then pure (r, true) else out_of_fuel
  advance (suc f) r =
      let fetch = (do
        release_chunk r
        c ← call (e.fetch_chunk r.res_ptr)
        if c == 0 then pure (without_chunk r, false) else (do
          note (acquire chunk c)
          size ← call (e.chunk_size c)
          r' ← take_chunk (without_chunk r) c size
          advance f r')) in
      if has_row r then pure (r, true) else fetch

  -- `rowValid`
  unfoldable pub row_valid : ℕ → ℕ → Prog e.World Bool
  row_valid valid row =
      if valid == 0
      then pure true
      else call (e.read_u64 (valid + 8 * (row / 64)))
        >>= (λ word. pure (word / 2 ^ (row % 64) % 2 == 1))

  -- the loop over the columns of a row; none is NULL, and `room` is what `dest` holds
  unfoldable pub read_cells : List (Column d) → ℕ → ℕ → ℕ → ℕ → Prog e.World (List (Option d.Value))
  read_cells [] col room c row = pure []
  read_cells (x ∷ xs) col zero c row = pure []
  read_cells (x ∷ xs) col (suc room) c row = do
    vec ← call (e.get_vector c col)
    data_at ← call (e.vector_data vec)
    valid_at ← call (e.vector_validity vec)
    valid ← row_valid valid_at row
    cell ←
        (if valid
          then call (d.decode x.meta vec data_at row) >>= (λ v. pure (some v))
          else pure none)
    rest ← read_cells xs (col + 1) room c row
    pure (cell ∷ rest)

  -- the body of `Next` on a module that is not poisoned
  unfoldable pub next_row : ℕ → ℕ → Rows d → Prog e.World (Result (List (Option d.Value)) × Rows d)
  next_row fuel room r = do
    found ← advance fuel r
    let r' = found.0
    if found.1
        then (do
          cells ← read_cells r'.columns 0 room r'.chunk r'.cursor
          pure (ok cells, record r' { cursor = r'.cursor + 1 }))
        else pure (fail end_of_rows, r')

  -- `guardEnginePanic` with the function that `Next` gives it; the fields that a panic leaves behind
  -- are not read again
  unfoldable pub guard_rows :
      {A : Type 0}
      → Rows d
      → Reply (Result A × Rows d) × Session e.World
      → Reply (Result A × Rows d) × Session e.World
  guard_rows r (done a, s) = (done a, s)
  guard_rows r (panicked, s) =
      (done (fail engine_panic, record r { closed = true }), record s { poisoned = true })
  guard_rows r (exhausted, s) = (exhausted, s)

  -- `Next`
  unfoldable pub next : ℕ → ℕ → Rows d → Prog e.World (Result (List (Option d.Value)) × Rows d)
  unfolding guard_rows
  next fuel room r s =
      guard_rows r (unless_poisoned (pure (fail bad_conn, r)) (next_row fuel room r) s)
