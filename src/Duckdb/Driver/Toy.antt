-- ===== src/Duckdb/Driver/Toy.antt =====
-- A small engine for the tests of converge/duckdb/driver.go.
use duckdb_wasm2go_poc.Base.{ℕ, ◌+◌, true, [], none, some}
use duckdb_wasm2go_poc.Duckdb.Transactions.{Words}
use duckdb_wasm2go_poc.Duckdb.Driver.{Call, Engine}
use duckdb_wasm2go_poc.Duckdb.Driver.TypeNames.{TypeReader}
use duckdb_wasm2go_poc.Duckdb.Driver.Rows.{Cells}
use duckdb_wasm2go_poc.Duckdb.Driver.Conn.{Conn, Context}
use duckdb_wasm2go_poc.Duckdb.Driver.Clients.{Client, opened}

-- the world counts what malloc gives
abbrev pub quiet : Call ℕ (Unit {0})
quiet w = (some tt, w)

abbrev pub gives : ℕ → Call ℕ ℕ
gives n w = (some n, w)

abbrev pub toy : Engine
toy = record {
  World = ℕ;
  malloc = λ n w. (some (w + 8), w + 8);
  free = λ p. quiet;
  store = λ p s. quiet;
  write_u32 = λ p v. quiet;
  read_ptr = λ p. gives 7;
  read_u64 = λ p. gives 0;
  go_string = λ p w. (some [], w);
  last_error = λ w. (some [], w);
  connect = λ db slot. gives 0;
  disconnect = λ p. quiet;
  close_database = λ p. quiet;
  prepare = λ con text slot. gives 0;
  prepare_error = λ st. gives 0;
  destroy_prepare = λ p. quiet;
  nparams = λ st. gives 1;
  clear_bindings = λ st. quiet;
  bind = λ st idx v. gives 0;
  execute_prepared = λ st p. gives 0;
  query = λ con text p. gives 0;
  result_error = λ p. gives 0;
  rows_changed = λ p. gives 3;
  destroy_result = λ p. quiet;
  column_count = λ p. gives 1;
  column_name = λ p col. gives 0;
  column_logical_type = λ p col. gives 5;
  get_type_id = λ lt. gives 23;
  destroy_logical_type = λ p. quiet;
  fetch_chunk = λ p. gives 0;
  chunk_size = λ ch. gives 0;
  destroy_chunk = λ p. quiet;
  get_vector = λ ch col. gives 0;
  vector_data = λ v. gives 0;
  vector_validity = λ v. gives 0;
}

-- the alias of every type is the text at 9
abbrev pub toy_types : TypeReader toy
toy_types = record {
  decimal_width = λ lt. gives 0;
  decimal_scale = λ lt. gives 0;
  get_alias = λ lt. gives 9;
  list_child = λ lt. gives 6;
  array_child = λ lt. gives 6;
  array_size = λ lt. gives 0;
  map_key = λ lt. gives 6;
  map_value = λ lt. gives 6;
  struct_count = λ lt. gives 0;
  struct_name = λ lt i. gives 0;
  struct_child = λ lt i. gives 6;
  union_count = λ lt. gives 0;
  union_name = λ lt i. gives 0;
  union_child = λ lt i. gives 6;
  free_text = λ p. quiet;
}

abbrev pub cells : Cells toy
cells = record {
  Value = ℕ;
  types = toy_types;
  depth = 2;
  decimal_internal_type = λ lt. gives 5;
  enum_internal_type = λ lt. gives 6;
  enum_dictionary_size = λ lt. gives 2;
  enum_dictionary_value = λ lt i. gives 9;
  decode = λ m vec at row. gives 0;
}

-- words in capitals already, without blanks
abbrev pub plain_words : Words
plain_words = record { first_field = λ s. s; to_upper = λ s. s }

abbrev pub conn : Conn
conn = record { con = 1; db = 2; owns_db = true }

abbrev pub live : Context
live = record { before = none; locked = none; after = none }

abbrev pub fresh : Client cells
fresh = record { session = opened 0 conn none; stmts = []; rows = [] }
