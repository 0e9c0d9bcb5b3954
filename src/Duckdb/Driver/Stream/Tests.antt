-- ===== src/Duckdb/Driver/Stream/Tests.antt =====
-- A result of two chunks, the first without rows, for the witness on `Next` of
-- converge/duckdb/result.go.
use mathlib.Core.Path.{subst}
use duckdb_wasm2go_poc.Base.{
  ℕ, zero, suc, ◌≡◌, ◌≢◌, false, List, [], ◌∷◌, Option, none, some, inr, ◌==◌, if◌then◌else◌, refl,
  ap, ◌∙◌, sym, arith, length, nth,
}
use duckdb_wasm2go_poc.Duckdb.Driver.{Call, Engine, Session, ok, fail, end_of_rows}
use duckdb_wasm2go_poc.Duckdb.Driver.TypeNames.{TypeReader}
use duckdb_wasm2go_poc.Duckdb.Driver.Rows.{Meta, Cells, Rows}
use duckdb_wasm2go_poc.Duckdb.Driver.Stream.Reaches.{Answers, Ends}
use duckdb_wasm2go_poc.Duckdb.Driver.Stream.Feed.{
  Row, Chunk, Layout, Stored, stored_end, stored_null, stored_value, Feed,
}
use duckdb_wasm2go_poc.Duckdb.Driver.Stream.Delivery.{read_rows, next_delivers}

data Position : Type 0 where
  at_start in_empty at_rows in_rows at_end : Position

abbrev fetch : Call Position ℕ
fetch at_start = (some 21, in_empty)
fetch at_rows = (some 22, in_rows)
fetch at_end = (some 0, at_end)
fetch in_empty = (some 0, in_empty)
fetch in_rows = (some 0, in_rows)

abbrev destroy : Call Position (Unit {0})
destroy in_empty = (some tt, at_rows)
destroy in_rows = (some tt, at_end)
destroy at_start = (some tt, at_start)
destroy at_rows = (some tt, at_rows)
destroy at_end = (some tt, at_end)

abbrev silent : Call Position (Unit {0})
silent w = (some tt, w)

abbrev replies : ℕ → Call Position ℕ
replies n w = (some n, w)

abbrev fed : Engine
fed = record {
  World = Position;
  malloc = λ n. replies 40;
  free = λ p. silent;
  store = λ p s. silent;
  write_u32 = λ p v. silent;
  read_ptr = λ p. replies 7;
  read_u64 = λ p. replies 1;
  go_string = λ p w. (some [], w);
  last_error = λ w. (some [], w);
  connect = λ db slot. replies 0;
  disconnect = λ p. silent;
  close_database = λ p. silent;
  prepare = λ con text slot. replies 0;
  prepare_error = λ st. replies 0;
  destroy_prepare = λ p. silent;
  nparams = λ st. replies 1;
  clear_bindings = λ st. silent;
  bind = λ st idx v. replies 0;
  execute_prepared = λ st p. replies 0;
  query = λ con text p. replies 0;
  result_error = λ p. replies 0;
  rows_changed = λ p. replies 3;
  destroy_result = λ p. silent;
  column_count = λ p. replies 1;
  column_name = λ p col. replies 0;
  column_logical_type = λ p col. replies 5;
  get_type_id = λ lt. replies 4;
  destroy_logical_type = λ p. silent;
  fetch_chunk = λ p. fetch;
  chunk_size = λ ch. replies (if ch == 21 then 0 else 2);
  destroy_chunk = λ p. destroy;
  get_vector = λ ch col. replies ch;
  vector_data = λ v. replies v;
  vector_validity = λ v. replies 8;
}

abbrev fed_types : TypeReader fed
fed_types = record {
  decimal_width = λ lt. replies 0;
  decimal_scale = λ lt. replies 0;
  get_alias = λ lt. replies 0;
  list_child = λ lt. replies 6;
  array_child = λ lt. replies 6;
  array_size = λ lt. replies 0;
  map_key = λ lt. replies 6;
  map_value = λ lt. replies 6;
  struct_count = λ lt. replies 0;
  struct_name = λ lt i. replies 0;
  struct_child = λ lt i. replies 6;
  union_count = λ lt. replies 0;
  union_name = λ lt i. replies 0;
  union_child = λ lt i. replies 6;
  free_text = λ p. silent;
}

abbrev integer : Meta
integer = record {
  type_id = 4;
  type_name = [];
  decimal = none;
  is_json = false;
  enumeration = none;
}

abbrev fives : Cells fed
fives = record {
  Value = ℕ;
  types = fed_types;
  depth = 1;
  decimal_internal_type = λ lt. replies 0;
  enum_internal_type = λ lt. replies 0;
  enum_dictionary_size = λ lt. replies 0;
  enum_dictionary_value = λ lt i. replies 0;
  decode = λ m vec at row. replies 5;
}

abbrev empty_chunk : Chunk fives
empty_chunk = record { handle = 21; rows = [] }

-- a row with a value, and one with NULL
abbrev row_chunk : Chunk fives
row_chunk = record { handle = 22; rows = (some 5 ∷ []) ∷ (none ∷ []) ∷ [] }

abbrev state : Position → Option (Chunk fives) × List (Chunk fives)
state at_start = (none, empty_chunk ∷ row_chunk ∷ [])
state in_empty = (some empty_chunk, row_chunk ∷ [])
state at_rows = (none, row_chunk ∷ [])
state in_rows = (some row_chunk, [])
state at_end = (none, [])

abbrev layout : Layout fives
layout = record {
  At = λ o cs w. state w ≡ (o, cs);
  vector = λ c col. c.handle;
  data_at = λ c col. c.handle;
  mask_at = λ c col. 8;
  mask = λ c col k. 1;
}

abbrev result : Rows fives
result = record {
  res_ptr = 4;
  columns = record { name = []; meta = integer } ∷ [];
  chunk = 0;
  chunk_len = 0;
  cursor = 0;
  closed = false;
}

abbrev Standing : Option (Chunk fives) → List (Chunk fives) → Position → Type 0
Standing o cs w = state w ≡ (o, cs)

handle_present :
    (c : Chunk fives) (cs : List (Chunk fives)) (w : Position)
    → Standing (some c) cs w
    → c.handle ≢ 0
handle_present c cs at_start h = absurd cc
handle_present c cs in_empty h = let eq : empty_chunk ≡ c = cc in rw (sym eq) (λ z. omega arith)
handle_present c cs at_rows h = absurd cc
handle_present c cs in_rows h = let eq : row_chunk ≡ c = cc in rw (sym eq) (λ z. omega arith)
handle_present c cs at_end h = absurd cc

next_fetched :
    (c : Chunk fives) (cs : List (Chunk fives)) (w : Position)
    → Standing none (c ∷ cs) w
    → Answers (fetch) w c.handle (Standing (some c) cs)
next_fetched c cs at_start h =
    let eq : empty_chunk ≡ c = cc in
    let rest : row_chunk ∷ [] ≡ cs = cc in
    record {
      after = in_empty;
      answers = ap (λ ch. (some ch.handle, in_empty)) eq;
      keeps = ap (λ ch. (some ch, row_chunk ∷ [])) eq ∙ ap (λ l. (some c, l)) rest;
    }
next_fetched c cs in_empty h = absurd cc
next_fetched c cs at_rows h =
    let eq : row_chunk ≡ c = cc in
    let rest : [] ≡ cs = cc in
    record {
      after = in_rows;
      answers = ap (λ ch. (some ch.handle, in_rows)) eq;
      keeps = ap (λ ch. (some ch, [])) eq ∙ ap (λ l. (some c, l)) rest;
    }
next_fetched c cs in_rows h = absurd cc
next_fetched c cs at_end h = absurd cc

fetched_dry : (w : Position) → Standing none [] w → Answers (fetch) w 0 (Standing none [])
fetched_dry at_start h = absurd cc
fetched_dry in_empty h = absurd cc
fetched_dry at_rows h = absurd cc
fetched_dry in_rows h = absurd cc
fetched_dry at_end h = record { after = at_end; answers = refl; keeps = refl }

chunk_sized :
    (c : Chunk fives) (cs : List (Chunk fives)) (w : Position)
    → Standing (some c) cs w
    → Answers (fed.chunk_size c.handle) w (length c.rows) (Standing (some c) cs)
chunk_sized c cs w h = record { after = w; answers = size c cs w h; keeps = h }
  where
    size :
        (c : Chunk fives) (cs : List (Chunk fives)) (w : Position)
        → Standing (some c) cs w
        → fed.chunk_size c.handle w ≡ (some (length c.rows), w)
    size c cs at_start h = absurd cc
    size c cs in_empty h = let eq : empty_chunk ≡ c = cc in rw (sym eq) refl
    size c cs at_rows h = absurd cc
    size c cs in_rows h = let eq : row_chunk ≡ c = cc in rw (sym eq) refl
    size c cs at_end h = absurd cc

chunk_destroyed :
    (c : Chunk fives) (cs : List (Chunk fives)) (w : Position)
    → Standing (some c) cs w
    → Answers (destroy) w tt (Standing none cs)
chunk_destroyed c cs at_start h = absurd cc
chunk_destroyed c cs in_empty h = record {
  after = at_rows;
  answers = refl;
  keeps = ap (λ l. (none, l)) cc;
}
chunk_destroyed c cs at_rows h = absurd cc
chunk_destroyed c cs in_rows h = record {
  after = at_end;
  answers = refl;
  keeps = ap (λ l. (none, l)) cc;
}
chunk_destroyed c cs at_end h = absurd cc

result-Stored :
    (c : Chunk fives) (cs : List (Chunk fives)) (w : Position) (i : ℕ) (row : Row fives)
    → Standing (some c) cs w
    → nth i c.rows ≡ some row
    → Stored layout c i 0 result.columns row
result-Stored c cs at_start i row h e = absurd cc
result-Stored c cs in_empty i row h e =
    let eq : empty_chunk ≡ c = cc in
    let no : nth i empty_chunk.rows ≡ some row = ap (λ ch. nth i ch.rows) eq ∙ e in absurd cc
result-Stored c cs at_rows i row h e = absurd cc
result-Stored c cs in_rows i row h e =
    let eq : row_chunk ≡ c = cc in
    subst (λ ch. Stored layout ch i 0 result.columns row) eq
      (second i row (ap (λ ch. nth i ch.rows) eq ∙ e))
  where
    second :
        (i : ℕ) (row : Row fives)
        → nth i row_chunk.rows ≡ some row
        → Stored layout row_chunk i 0 result.columns row
    second zero row e =
        let eq : some 5 ∷ [] ≡ row = cc in
        subst (λ x. Stored layout row_chunk 0 0 result.columns x) eq
          (stored_value 0 _ [] 5 [] (inr refl)
            (λ cs w h. record { after = w; answers = refl; keeps = h }) (stored_end 1))
    second (suc zero) row e =
        let eq : none ∷ [] ≡ row = cc in
        subst (λ x. Stored layout row_chunk 1 0 result.columns x) eq
          (stored_null 0 _ [] [] (λ z. omega arith) refl (stored_end 1))
    second (suc (suc i)) row e = absurd cc
result-Stored c cs at_end i row h e = absurd cc

feeding : Feed layout result
feeding = record {
  present = handle_present;
  fetched = next_fetched;
  drained = fetched_dry;
  sized = chunk_sized;
  taken_back = λ c cs w h. record {
    slot = 40;
    slot_given = λ z. omega arith;
    Owned = Standing (some c) cs;
    Zeroed = Standing (some c) cs;
    Written = Standing (some c) cs;
    Gone = Standing none cs;
    allocated = record { after = w; answers = refl; keeps = h };
    zeroed = λ w' h'. record { after = w'; answers = refl; keeps = h' };
    written = λ w' h'. record { after = w'; answers = refl; keeps = h' };
    destroyed = chunk_destroyed c cs;
    freed = λ w' h'. record { after = w'; answers = refl; keeps = h' };
  };
  vectors = λ c cs w col h. record { after = w; answers = refl; keeps = h };
  buffers = λ c cs w col h. record { after = w; answers = refl; keeps = h };
  masks = λ c cs w col h. record { after = w; answers = refl; keeps = h };
  mask_words = λ c cs w col k h. record { after = w; answers = refl; keeps = h };
  stored = result-Stored;
}

abbrev session : Session Position
session = record {
  world = at_start;
  trace = [];
  poisoned = false;
  closed = false;
  in_tx = false;
  owner = none;
}

next_delivers_example :
    Ends
      (read_rows fed fives 3 1 4 result)
      session
      (ok (some 5 ∷ []) ∷ ok (none ∷ []) ∷ fail end_of_rows ∷ fail end_of_rows ∷ [])
      (λ s. s.poisoned ≡ false)
next_delivers_example =
    next_delivers layout result feeding 3 1 (omega arith) (empty_chunk ∷ row_chunk ∷ []) 2 session
      (omega arith) (record { world = refl; healthy = refl })
