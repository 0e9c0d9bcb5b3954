-- ===== src/Duckdb/Driver/Balance/Rowsets.antt =====
-- The rows of converge/duckdb/result.go leave the accounts of handles in order.
use duckdb_wasm2go_poc.Base.{
  ℕ, zero, suc, ◌+◌, ◌*◌, ◌/◌, ◌≡◌, Bool, true, false, List, [], ◌∷◌, some, none, ◌==◌,
  if◌then◌else◌, refl, arith,
}
use duckdb_wasm2go_poc.Duckdb.Transactions.{Words}
use duckdb_wasm2go_poc.Duckdb.Driver.{
  Engine, buffer, chunk, logical_type, result_set, bad_conn, end_of_rows, ok, fail, pure, ◌>>◌,
}
use duckdb_wasm2go_poc.Duckdb.Driver.Module.{destroy_result, give_back}
use duckdb_wasm2go_poc.Duckdb.Driver.Nets.{
  Handle, one, Nets, pure-Nets, out_of_fuel-Nets, bind-Nets, count-Nets, if-Nets, else-Nets,
}
use duckdb_wasm2go_poc.Duckdb.Driver.Rows.{
  Cells, Column, Rows, read_columns, new_rows, release_chunk, without_chunk, has_row, take_chunk,
  advance, row_valid, read_cells, next_row,
}
use duckdb_wasm2go_poc.Duckdb.Driver.Stmt.{NamedValue, Stmt, query_stmt}
use duckdb_wasm2go_poc.Duckdb.Driver.Balance.{
  if_ok, acquire_beside, call_then, alloc_result-Nets, destroy_result-Nets, give_back-Nets,
}
use duckdb_wasm2go_poc.Duckdb.Driver.Balance.Metas.{read_meta-Nets}
use duckdb_wasm2go_poc.Duckdb.Driver.Balance.Statements.{
  and_then-Nets, bind_all-Nets, note_success-Nets, drop_failed-Nets,
}

abbrev pub chunk_held : Handle → Bool → ℕ → ℕ
chunk_held h none_held n = if none_held then 0 else one h chunk n

-- how much of the handle open rows hold: their result, its buffer, and a chunk
abbrev pub open_rows_held : {e : Engine} {d : Cells e} → Handle → Rows d → ℕ
open_rows_held h r =
    chunk_held h (r.chunk == 0) r.chunk + one h buffer r.res_ptr + one h result_set r.res_ptr

unfoldable pub rows_held : {e : Engine} {d : Cells e} → Handle → Rows d → ℕ
rows_held h r = if r.closed then 0 else open_rows_held h r

module _ {e : Engine} {d : Cells e} (h : Handle) where
  without_if-held :
      (b : Bool) (x y : Rows d) (v : ℕ)
      → (b ≡ true → open_rows_held h x ≡ v)
      → open_rows_held h y ≡ v
      → open_rows_held h (if b then x else y) ≡ v
  without_if-held true x y v p q = p refl
  without_if-held false x y v p q = q

  without_if-res_ptr :
      (b : Bool) (x y : Rows d) → x.res_ptr ≡ y.res_ptr → (if b then x else y).res_ptr ≡ y.res_ptr
  without_if-res_ptr true x y p = p
  without_if-res_ptr false x y p = refl

  -- what rows hold behind `releaseChunk`, and with a new chunk
  without_chunk-held :
      (r : Rows d)
      → open_rows_held h (without_chunk e d r) ≡ one h buffer r.res_ptr + one h result_set r.res_ptr
  unfolding without_chunk
  without_chunk-held r =
      without_if-held (r.chunk == 0) r (record r { chunk = 0; chunk_len = 0; cursor = 0 })
        (one h buffer r.res_ptr + one h result_set r.res_ptr) (λ z. rw z (omega arith))
        (omega arith)

  without_chunk-res_ptr : (r : Rows d) → (without_chunk e d r).res_ptr ≡ r.res_ptr
  unfolding without_chunk
  without_chunk-res_ptr r =
      without_if-res_ptr (r.chunk == 0) r (record r { chunk = 0; chunk_len = 0; cursor = 0 }) refl

held_chunk : (h : Handle) (n : ℕ) → (n == 0) ≡ false → chunk_held h (n == 0) n ≡ one h chunk n
held_chunk h n z = rw z refl

module _ (e : Engine) (d : Cells e) {h : Handle} {c : Bool} where
  read_columns-Nets : (own n col p : ℕ) → Nets h c own (λ _. own) (read_columns e d n col p)
  unfolding read_columns
  read_columns-Nets own zero col p = pure-Nets []
  read_columns-Nets own (suc n) col p = call_then (e.column_name p col) (λ at.
      call_then (e.go_string at) (λ name. call_then (e.column_logical_type p col) (λ lt.
        bind-Nets (acquire_beside own logical_type lt) (λ _.
          bind-Nets (read_meta-Nets e d _ lt) (λ meta.
            bind-Nets (give_back-Nets e own logical_type e.destroy_logical_type lt)
              (λ _. bind-Nets (read_columns-Nets own n (col + 1) p) (λ rest. pure-Nets _)))))))

  -- `newRows` keeps the result that it is given.
  pub new_rows-Nets :
      (own p : ℕ)
      → Nets h c
          (own + one h buffer p + one h result_set p)
          (if_ok own (rows_held h))
          (new_rows e d p)
  unfolding new_rows rows_held
  new_rows-Nets own p = call_then (e.column_count p) (λ n.
      bind-Nets (read_columns-Nets (own + one h buffer p + one h result_set p) n 0 p)
        (λ cs. count-Nets (omega arith) (λ _. refl) (pure-Nets (ok _))))

  release_if-Nets :
      (own : ℕ) (b : Bool) (n : ℕ)
      → Nets h c
          (own + chunk_held h b n)
          (λ _. own)
          (if b then pure tt else give_back e chunk e.destroy_chunk n)
  release_if-Nets own true n = count-Nets (omega arith) (λ _. refl) (pure-Nets tt)
  release_if-Nets own false n = give_back-Nets e own chunk e.destroy_chunk n

  release_chunk-Nets :
      (own : ℕ) (r : Rows d)
      → Nets h c (own + chunk_held h (r.chunk == 0) r.chunk) (λ _. own) (release_chunk e d r)
  unfolding release_chunk
  release_chunk-Nets own r = release_if-Nets own (r.chunk == 0) r.chunk

  -- Closing open rows gives back what they hold.
  pub close_open-Nets :
      (own : ℕ) (r : Rows d)
      → Nets h c
          (own + open_rows_held h r)
          (λ _. own)
          (release_chunk e d r >> destroy_result e r.res_ptr)
  close_open-Nets own r =
      bind-Nets
        (count-Nets (omega arith) (λ _. refl)
          (release_chunk-Nets (own + one h buffer r.res_ptr + one h result_set r.res_ptr) r))
        (λ _. destroy_result-Nets e own r.res_ptr)

  take_chunk-Nets :
      (own : ℕ) (r : Rows d) (n size : ℕ)
      → (n == 0) ≡ false
      → Nets h c
          (own + one h buffer r.res_ptr + one h result_set r.res_ptr + one h chunk n)
          (λ r'. own + open_rows_held h r')
          (take_chunk e d r n size)
  unfolding take_chunk
  take_chunk-Nets own r n size z =
      let held = held_chunk h n z in
      if-Nets (size == 0)
        (bind-Nets
          (count-Nets (omega arith) (λ _. refl)
            (release_chunk-Nets (own + one h buffer r.res_ptr + one h result_set r.res_ptr)
              (record r { chunk = n })))
          (λ _.
            let e' = without_chunk-held h (record r { chunk = n }) in
            count-Nets (omega arith) (λ _. refl) (pure-Nets _)))
        (count-Nets (omega arith) (λ _. refl) (pure-Nets _))

  advance-Nets :
      (own fuel : ℕ) (r : Rows d)
      → Nets h c (own + open_rows_held h r) (λ x. own + open_rows_held h x.0) (advance e d fuel r)
  unfolding advance
  advance-Nets own zero r = if-Nets (has_row e d r) (pure-Nets (r, true)) out_of_fuel-Nets
  advance-Nets own (suc f) r = if-Nets (has_row e d r) (pure-Nets (r, true)) (
      bind-Nets
        (count-Nets (omega arith) (λ _. refl)
          (release_chunk-Nets (own + one h buffer r.res_ptr + one h result_set r.res_ptr) r))
        (λ _. call_then (e.fetch_chunk r.res_ptr) (λ n.
          else-Nets (n == 0)
            (let e' = without_chunk-held h r in
              count-Nets (omega arith) (λ _. refl) (pure-Nets (without_chunk e d r, false)))
            (λ z. bind-Nets (acquire_beside _ chunk n) (λ _. call_then (e.chunk_size n) (λ size.
              let res = without_chunk-res_ptr h r in
              bind-Nets
                (count-Nets (rw res refl) (λ _. refl)
                  (take_chunk-Nets own (without_chunk e d r) n size z))
                (λ r'. advance-Nets own f r')))))))

  row_valid-Nets : (own valid row : ℕ) → Nets h c own (λ _. own) (row_valid e d valid row)
  unfolding row_valid
  row_valid-Nets own valid row =
      if-Nets (valid == 0) (pure-Nets true)
        (call_then (e.read_u64 (valid + 8 * (row / 64))) (λ word. pure-Nets _))

  read_cells-Nets :
      (own : ℕ) (xs : List (Column d)) (col room n row : ℕ)
      → Nets h c own (λ _. own) (read_cells e d xs col room n row)
  unfolding read_cells
  read_cells-Nets own [] col room n row = pure-Nets []
  read_cells-Nets own (x ∷ xs) col zero n row = pure-Nets []
  read_cells-Nets own (x ∷ xs) col (suc room) n row = call_then (e.get_vector n col) (λ vec.
      call_then (e.vector_data vec) (λ data_at. call_then (e.vector_validity vec) (λ valid_at.
        bind-Nets (row_valid-Nets own valid_at row) (λ valid.
          bind-Nets
            (if-Nets valid (call_then (d.decode x.meta vec data_at row) (λ v. pure-Nets (some v)))
              (pure-Nets none))
            (λ cell.
              bind-Nets (read_cells-Nets own xs (col + 1) room n row)
                (λ rest. pure-Nets (cell ∷ rest)))))))

  -- A row that is read leaves the rows with what they hold.
  pub next_row-Nets :
      (own fuel room : ℕ) (r : Rows d)
      → Nets h c
          (own + open_rows_held h r)
          (λ x. own + open_rows_held h x.1)
          (next_row e d fuel room r)
  unfolding next_row
  next_row-Nets own fuel room r = bind-Nets (advance-Nets own fuel r) (λ found.
      if-Nets found.1
        (bind-Nets (read_cells-Nets _ found.0.columns 0 room found.0.chunk found.0.cursor)
          (λ cells. pure-Nets _))
        (pure-Nets (fail end_of_rows, found.0)))

  -- The rows of a statement are held with its result, unless it fails.
  pub query_stmt-Nets :
      (words : Words) (own con : ℕ) (st : Stmt) (args : List NamedValue)
      → Nets h c own (if_ok own (rows_held h)) (query_stmt e words d con st args)
  unfolding query_stmt
  query_stmt-Nets words own con st args = if-Nets st.closed (pure-Nets (fail bad_conn)) (
      bind-Nets (bind_all-Nets e own st.handle args) (
        and_then-Nets e (λ _. own) (if_ok own (rows_held h)) (λ _. refl)
          (λ _. bind-Nets (alloc_result-Nets e own) (λ p.
            call_then (e.execute_prepared st.handle p) (λ rc.
              if-Nets (rc == 0)
                (bind-Nets (note_success-Nets e words _ st.query) (λ _. new_rows-Nets own p))
                (drop_failed-Nets e words (if_ok own (rows_held h)) (λ _. refl) con p st.query))))))
