-- ===== src/Duckdb/Driver/OpenTests.antt =====
-- Runs of `open`, of `Ping` and of `typeName`, and the witnesses for converge/duckdb/module.go and
-- typename.go.
use duckdb_wasm2go_poc.Base.{Option, Bytes, ℕ, ◌≡◌, true, none, refl, ◌==◌, if◌then◌else◌}
use duckdb_wasm2go_poc.Base.Text.{codes}
use duckdb_wasm2go_poc.Duckdb.Driver.{
  Engine, continue, ◌>>=◌, ended, deferred, call, note, unless_bad, buffer, connection, database,
  engine_error, ok, fail, done, logical_type,
}
use duckdb_wasm2go_poc.Duckdb.Driver.Nets.{Handle, one, acquired, released, Balance}
use duckdb_wasm2go_poc.Duckdb.Driver.Module.{
  engine_err, allocate, free, cstring, alloc_out, alloc_result, destroy_result, give_back,
  result_error, failed_result, query_raw, connect,
}
use duckdb_wasm2go_poc.Duckdb.Driver.Conn.{
  entry, ping, ping_guard, poison, unit_result, unless_done, with_context,
}
use duckdb_wasm2go_poc.Duckdb.Driver.Open.{
  Opener, cut_query, max_memory, parse_dsn, doubled_quotes, opened_pair, panic_ended, on_panic,
  take_handle, drop_config, spoil_config, engine_message, set_memory, connect_first, open_config,
  open_database,
}
use duckdb_wasm2go_poc.Duckdb.Driver.TypeNames.{
  TypeReader, take_type, destroy_type, with_child, list_name, name_of_kind, type_name,
  scalar_type_name,
}
use duckdb_wasm2go_poc.Duckdb.Driver.Balance.Types.{type_name-Balance}
use duckdb_wasm2go_poc.Duckdb.Driver.Scratch.{open_database-Balance}
use duckdb_wasm2go_poc.Duckdb.Driver.Toy.{quiet, gives, toy, plain_words, conn, live, fresh}

abbrev opener : Opener toy
opener = record {
  create_config = λ slot. gives 0;
  attach_to_config = λ cfg. quiet;
  destroy_config = λ slot. quiet;
  open_ext = λ path db cfg err. gives 0;
  free_text = λ p. quiet;
  register_core_functions = λ db. quiet;
}

-- a query string with no option
abbrev no_options : Bytes → Option (Bytes → Bytes)
no_options query = none

abbrev slot_buffer : Handle
slot_buffer = record { kind = buffer; id = 8 }

never_connection : (n : ℕ) → one slot_buffer connection n ≡ 0
unfolding one
never_connection n = refl

never_database : (n : ℕ) → one slot_buffer database n ≡ 0
unfolding one
never_database n = refl

open_database-Balance_example :
    Balance slot_buffer 0
      (λ _. 0)
      fresh.session
      (open_database toy opener no_options (codes "file.db") fresh.session)
open_database-Balance_example =
    open_database-Balance toy opener slot_buffer no_options (codes "file.db") fresh.session refl
      never_connection never_database

-- A memory limit that the engine refuses: `open` fails, and the database that it has opened is taken
-- once more than it is given back.
abbrev refusing : Engine
refusing = record toy { query = λ con text p. gives 1 }

abbrev refusing_opener : Opener refusing
refusing_opener = record {
  create_config = λ slot. gives 0;
  attach_to_config = λ cfg. quiet;
  destroy_config = λ slot. quiet;
  open_ext = λ path db cfg err. gives 0;
  free_text = λ p. quiet;
  register_core_functions = λ db. quiet;
}

abbrev seven : Handle
seven = record { kind = database; id = 7 }

refused_open_keeps_database :
    let (r, s) =
      open_database refusing refusing_opener no_options (codes "file.db") fresh.session in
    (r ≡ done (fail (engine_error (codes "unknown error"))))
    × (acquired seven s.trace ≡ 1)
    × (released seven s.trace ≡ 0)
unfolding continue ◌>>=◌ ended deferred call note engine_err allocate free cstring alloc_out
    alloc_result destroy_result give_back result_error failed_result query_raw connect cut_query
    max_memory parse_dsn doubled_quotes opened_pair panic_ended on_panic take_handle drop_config
    spoil_config engine_message set_memory connect_first open_config open_database one acquired
    released
refused_open_keeps_database = (refl, refl, refl)

-- An engine whose queries panic: `Ping` has no error, and the module is poisoned.
abbrev broken : Engine
broken = record toy { query = λ con text p w. (none, w) }

ping_hides_panic :
    let (r, s) = ping broken plain_words conn live fresh.session in
    (r ≡ done (ok tt)) × (s.poisoned ≡ true)
unfolding continue ◌>>=◌ ended deferred call note unless_bad engine_err allocate free cstring
    alloc_out alloc_result destroy_result give_back result_error failed_result query_raw connect
    ping ping_guard poison entry unless_done with_context unit_result
ping_hides_panic = (refl, refl)

-- the type 5 is a list of numbers
abbrev typed : Engine
typed = record toy { get_type_id = λ lt. gives (if lt == 5 then 24 else 4) }

abbrev types : TypeReader typed
types = record {
  decimal_width = λ lt. gives 0;
  decimal_scale = λ lt. gives 0;
  get_alias = λ lt. gives 0;
  list_child = λ lt. gives 6;
  array_child = λ lt. gives 6;
  array_size = λ lt. gives 0;
  map_key = λ lt. gives 6;
  map_value = λ lt. gives 6;
  struct_count = λ lt. gives 0;
  struct_name = λ lt i. gives 0;
  struct_child = λ lt i. gives 6;
  union_count = λ lt. gives 0;
  union_name = λ lt i. gives 0;
  union_child = λ lt i. gives 6;
  free_text = λ p. quiet;
}

abbrev child_type : Handle
child_type = record { kind = logical_type; id = 6 }

list_of_integers : (type_name typed types 2 5 fresh.session).0 ≡ done (codes "INTEGER[]")
unfolding continue ◌>>=◌ call note give_back alloc_out allocate free scalar_type_name take_type
    destroy_type with_child list_name name_of_kind type_name
list_of_integers = refl

type_name-Balance_example :
    Balance child_type 0 (λ _. 0) fresh.session (type_name typed types 2 5 fresh.session)
type_name-Balance_example = type_name-Balance typed types child_type 2 5 fresh.session refl
