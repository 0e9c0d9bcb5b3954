-- ===== src/Duckdb/Transactions/Tests.antt =====
-- A batch, and the witnesses for converge/duckdb/driver.go.
use duckdb_wasm2go_poc.Base.{false, List, [], ◌∷◌}
use duckdb_wasm2go_poc.Base.Text.{codes}
use duckdb_wasm2go_poc.Duckdb.Transactions.{Words, Conn}
use duckdb_wasm2go_poc.Duckdb.Transactions.Batches.{Piece, plain, quoted}

-- words in capitals already, without blanks
abbrev capitals : Words
capitals = record { first_field = λ s. s; to_upper = λ s. s }

abbrev idle : Conn
idle = record { in_tx = false; bad = false }

-- a'x;''y'
abbrev pieces : List Piece
pieces = plain b'a' ∷ quoted b'\'' (codes "x;'y") ∷ []
