-- ===== src/Duckdb/Driver/Balance/Metas.antt =====
-- What `newRows` of converge/duckdb/result.go reads of a logical type leaves the accounts of handles in
-- order: the texts that the engine gives are freed.
use duckdb_wasm2go_poc.Base.{ℕ, zero, suc, ◌+◌, Bool, false, [], none, ◌==◌}
use duckdb_wasm2go_poc.Duckdb.Driver.{Engine}
use duckdb_wasm2go_poc.Duckdb.Driver.Nets.{Handle, Nets, pure-Nets, bind-Nets, if-Nets}
use duckdb_wasm2go_poc.Duckdb.Driver.Rows.{
  Cells, read_dictionary, read_enum_meta, read_decimal_info, read_is_json, read_meta,
}
use duckdb_wasm2go_poc.Duckdb.Driver.Balance.{call_then}
use duckdb_wasm2go_poc.Duckdb.Driver.Balance.Types.{take_text-Nets, type_name-Nets}

module _ (e : Engine) (d : Cells e) {h : Handle} {c : Bool} (own : ℕ) where
  read_dictionary-Nets : (lt n i : ℕ) → Nets h c own (λ _. own) (read_dictionary e d lt n i)
  unfolding read_dictionary
  read_dictionary-Nets lt zero i = pure-Nets _
  read_dictionary-Nets lt (suc n) i = call_then (d.enum_dictionary_value lt i) (λ at.
      bind-Nets (if-Nets (at == 0) (pure-Nets []) (take_text-Nets e d.types own at))
        (λ s. bind-Nets (read_dictionary-Nets lt n (i + 1)) (λ rest. pure-Nets _)))

  read_enum_meta-Nets : (lt : ℕ) → Nets h c own (λ _. own) (read_enum_meta e d lt)
  unfolding read_enum_meta
  read_enum_meta-Nets lt = call_then (d.enum_internal_type lt) (λ internal.
      call_then (d.enum_dictionary_size lt)
        (λ n. bind-Nets (read_dictionary-Nets lt n 0) (λ dict. pure-Nets _)))

  read_decimal_info-Nets : (lt : ℕ) → Nets h c own (λ _. own) (read_decimal_info e d lt)
  unfolding read_decimal_info
  read_decimal_info-Nets lt = call_then (d.types.decimal_width lt) (λ width.
      call_then (d.types.decimal_scale lt)
        (λ scale. call_then (d.decimal_internal_type lt) (λ internal. pure-Nets _)))

  read_is_json-Nets : (lt : ℕ) → Nets h c own (λ _. own) (read_is_json e d lt)
  unfolding read_is_json
  read_is_json-Nets lt = call_then (d.types.get_alias lt) (λ at.
      if-Nets (at == 0) (pure-Nets false)
        (bind-Nets (take_text-Nets e d.types own at) (λ s. pure-Nets _)))

  pub read_meta-Nets : (lt : ℕ) → Nets h c own (λ _. own) (read_meta e d lt)
  unfolding read_meta
  read_meta-Nets lt = call_then (e.get_type_id lt) (λ tid.
      bind-Nets (type_name-Nets e d.types d.depth lt own) (λ name.
        bind-Nets (if-Nets (tid == 19) (read_decimal_info-Nets lt) (pure-Nets none)) (λ decimal.
          bind-Nets (if-Nets (tid == 17) (read_is_json-Nets lt) (pure-Nets false)) (λ is_json.
            bind-Nets (if-Nets (tid == 23) (read_enum_meta-Nets lt) (pure-Nets none))
              (λ enumeration. pure-Nets _)))))
