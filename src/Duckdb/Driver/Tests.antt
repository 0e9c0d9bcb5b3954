-- ===== src/Duckdb/Driver/Tests.antt =====
-- The witnesses for the calls on a connection, converge/duckdb/driver.go.
use duckdb_wasm2go_poc.Base.{◌≡◌, true, false, List, [], ◌∷◌, none, refl}
use duckdb_wasm2go_poc.Base.Text.{codes}
use duckdb_wasm2go_poc.Duckdb.Transactions.{
  split_from, statements, tx_boundary, note_statement, note_all, note_tx_success, recover_tx,
  note_tx_failure,
}
use duckdb_wasm2go_poc.Duckdb.Driver.{
  prepared, continue, ◌>>=◌, ended, deferred, call, note, unless_bad, unless_poisoned, and_then,
}
use duckdb_wasm2go_poc.Duckdb.Driver.Nets.{Handle, Balance}
use duckdb_wasm2go_poc.Duckdb.Driver.Module.{
  engine_err, allocate, free, cstring, alloc_out, alloc_result, destroy_result, give_back,
  result_error, failed_result, query_raw, connect,
}
use duckdb_wasm2go_poc.Duckdb.Driver.Rows.{
  advance, guard_rows, new_rows, next, next_row, read_cells, read_columns, read_dictionary,
  read_enum_meta, read_decimal_info, read_is_json, read_meta, release_chunk, row_valid, take_chunk,
  without_chunk,
}
use duckdb_wasm2go_poc.Duckdb.Driver.TypeNames.{
  take_text, take_type, destroy_type, with_child, list_name, name_of_kind, type_name,
}
use duckdb_wasm2go_poc.Duckdb.Driver.Stmt.{
  NamedValue, bind_all, bind_each, bind_one, bind_status, bind_text, close_locked, closed_stmt,
  destroy_prepare, drop_failed, exec_stmt, int64_value, note_failure, note_success, num_input,
  prepare_locked, prepare_message, query_stmt, recover, rollback,
}
use duckdb_wasm2go_poc.Duckdb.Driver.Conn.{
  begin_tx, close_conn, close_stmt_rows, disconnect, entry, exec_context, exec_context_stmt,
  exec_locked, exec_raw_locked, guarded, lone_rows, noted, owned, ping, ping_guard, poison,
  prepare_context, query_context, query_context_stmt, query_locked, query_raw_rows, simple_exec,
  unit_result, unless_done, with_context,
}
use duckdb_wasm2go_poc.Duckdb.Driver.Balance.{if_ok}
use duckdb_wasm2go_poc.Duckdb.Driver.Balance.Conns.{query_held}
use duckdb_wasm2go_poc.Duckdb.Driver.Ledger.{Sound}
use duckdb_wasm2go_poc.Duckdb.Driver.Clients.{Client, with_stmt, prepare, start, after}
use duckdb_wasm2go_poc.Duckdb.Driver.Accounts.{client_held, Reach-Sound}
use duckdb_wasm2go_poc.Duckdb.Driver.Poisoned.{Untouched, Step-Untouched}
use duckdb_wasm2go_poc.Duckdb.Driver.Leaks.{exec_context-Balance, query_context-Balance}
use duckdb_wasm2go_poc.Duckdb.Driver.Toy.{toy, cells, plain_words, conn, live, fresh}

abbrev one_arg : List NamedValue
one_arg = record { ordinal = 1; value = int64_value 4 } ∷ []

abbrev statement : Handle
statement = record { kind = prepared; id = 7 }

abbrev behind_prepare : Client cells
behind_prepare =
    with_stmt fresh (prepare_context toy plain_words conn live (codes "SELECT 1") fresh.session)

Reach-Sound_example :
    Sound statement conn (client_held statement behind_prepare) behind_prepare.session
Reach-Sound_example =
    Reach-Sound toy plain_words cells statement conn
      (after (start 0 none) (prepare fresh live (codes "SELECT 1")))

abbrev poisoned : Client cells
poisoned = record fresh { session = record fresh.session { poisoned = true } }

Step-Untouched_example :
    Untouched poisoned.session
      (with_stmt poisoned (prepare_context toy plain_words conn live [] poisoned.session)).session
Step-Untouched_example = Step-Untouched toy plain_words cells conn (prepare poisoned live []) refl

exec_stays_good :
    (exec_context toy plain_words conn live (codes "SELECT $1") one_arg fresh.session).1.poisoned
    ≡ false
unfolding continue ◌>>=◌ ended deferred call note unless_bad unless_poisoned and_then engine_err
    allocate free cstring alloc_out alloc_result destroy_result give_back result_error failed_result
    query_raw connect read_columns read_dictionary read_enum_meta read_decimal_info read_is_json
    read_meta take_text take_type destroy_type with_child list_name name_of_kind type_name new_rows
    release_chunk without_chunk take_chunk advance row_valid read_cells next_row guard_rows next
    closed_stmt destroy_prepare close_locked num_input bind_status bind_text bind_one bind_each
    bind_all rollback prepare_message recover prepare_locked note_success note_failure drop_failed
    exec_stmt query_stmt poison guarded ping_guard with_context unless_done entry lone_rows
    unit_result noted exec_raw_locked exec_locked exec_context exec_context_stmt prepare_context
    ping simple_exec begin_tx disconnect close_conn query_raw_rows owned query_locked query_context
    query_context_stmt close_stmt_rows split_from statements tx_boundary note_statement note_all
    note_tx_success recover_tx note_tx_failure
exec_stays_good = refl

exec_context-Balance_example :
    Balance statement 0
      (if_ok 0 (λ _. 0))
      fresh.session
      (exec_context toy plain_words conn live (codes "SELECT $1") one_arg fresh.session)
exec_context-Balance_example =
    exec_context-Balance toy plain_words cells conn statement live (codes "SELECT $1") one_arg
      fresh.session exec_stays_good

query_stays_good :
    (query_context toy plain_words cells conn live
      (codes "SELECT $1")
      one_arg
      fresh.session).1.poisoned
    ≡ false
unfolding continue ◌>>=◌ ended deferred call note unless_bad unless_poisoned and_then engine_err
    allocate free cstring alloc_out alloc_result destroy_result give_back result_error failed_result
    query_raw connect read_columns read_dictionary read_enum_meta read_decimal_info read_is_json
    read_meta take_text take_type destroy_type with_child list_name name_of_kind type_name new_rows
    release_chunk without_chunk take_chunk advance row_valid read_cells next_row guard_rows next
    closed_stmt destroy_prepare close_locked num_input bind_status bind_text bind_one bind_each
    bind_all rollback prepare_message recover prepare_locked note_success note_failure drop_failed
    exec_stmt query_stmt poison guarded ping_guard with_context unless_done entry lone_rows
    unit_result noted exec_raw_locked exec_locked exec_context exec_context_stmt prepare_context
    ping simple_exec begin_tx disconnect close_conn query_raw_rows owned query_locked query_context
    query_context_stmt close_stmt_rows split_from statements tx_boundary note_statement note_all
    note_tx_success recover_tx note_tx_failure
query_stays_good = refl

query_context-Balance_example :
    Balance statement 0
      (if_ok 0 (query_held statement))
      fresh.session
      (query_context toy plain_words cells conn live (codes "SELECT $1") one_arg fresh.session)
query_context-Balance_example =
    query_context-Balance toy plain_words cells conn statement live (codes "SELECT $1") one_arg
      fresh.session query_stays_good
