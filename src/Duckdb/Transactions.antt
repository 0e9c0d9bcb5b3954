-- ===== src/Duckdb/Transactions.antt =====
-- The tracking of explicit transactions in converge/duckdb/driver.go. `Words` is what the code uses
-- of package strings, a parameter.
pub mod Statements
pub mod Batches
mod Tests
use duckdb_wasm2go_poc.Base.{
  ℕ, Bool, true, false, ◌||◌, List, [], ◌∷◌, Option, none, some, ◌==◌, if◌then◌else◌, Bytes,
}
use duckdb_wasm2go_poc.Base.Text.{codes, text_eq}

-- the first of `strings.Fields`, empty if there is none, and `strings.ToUpper`
pub record Words : Type 0 where
  pub first_field : Bytes → Bytes
  pub to_upper : Bytes → Bytes

abbrev pub is_quote : ℕ → Bool
is_quote c = c == b'\'' || c == b'"'

abbrev pub push : ℕ → Bytes × List Bytes → Bytes × List Bytes
push c (s, rest) = (c ∷ s, rest)

-- the two loops of `forEachStatement`: what is left of the present statement, and the statements
-- behind it; the state is the open quote
unfoldable pub split_from : Option ℕ → Bytes → Bytes × List Bytes
split_from open_quote [] = ([], [])
split_from none (c ∷ cs) =
    let quoted = push c (split_from (some c) cs) in
    let plain = split_from none cs in
    if is_quote c then quoted else if c == b';' then ([], plain.0 ∷ plain.1) else push c plain
split_from (some q) (c ∷ []) = (c ∷ [], [])
split_from (some q) (c ∷ d ∷ cs) =
    let doubled = push c (push d (split_from (some q) cs)) in
    let closed = push c (split_from none (d ∷ cs)) in
    let inside = push c (split_from (some q) (d ∷ cs)) in
    if c == q then if d == q then doubled else closed else inside

-- `forEachStatement`: the statements in order
unfoldable pub statements : Bytes → List Bytes
unfolding split_from
statements query = let (s, rest) = split_from none query in s ∷ rest

-- what `txBoundary` returns: 1, -1 and 0
pub data Boundary : Type 0 where
  begins ends neither : Boundary

-- `inTx`, and whether the connection is bad
pub record Conn : Type 0 where
  pub in_tx : Bool
  pub bad : Bool

module _ (words : Words) where
  -- `txBoundary`
  unfoldable pub tx_boundary : Bytes → Boundary
  tx_boundary stmt =
      let word = words.to_upper (words.first_field stmt) in
      if text_eq word (codes "BEGIN") || text_eq word (codes "START")
      then begins
      else if text_eq word (codes "COMMIT")
          || text_eq word (codes "ROLLBACK")
          || text_eq word (codes "ABORT")
      then ends
      else neither

  -- the function that `noteTxSuccessLocked` calls on each statement
  unfoldable pub note_statement : Bytes → Conn → Conn
  note_statement stmt c = elim (tx_boundary stmt) [
    | begins ↦ record c { in_tx = true }
    | ends ↦ record c { in_tx = false }
    | neither ↦ c
  ]

  unfoldable pub note_all : List Bytes → Conn → Conn
  note_all [] c = c
  note_all (s ∷ rest) c = note_all rest (note_statement s c)

  -- `noteTxSuccessLocked`
  unfoldable pub note_tx_success : Bytes → Conn → Conn
  unfolding note_all statements
  note_tx_success query c = note_all (statements query) c

  -- `recoverTxLocked`: whether it sends ROLLBACK to the engine
  unfoldable pub recover_tx : Conn → Bool
  recover_tx c = if c.in_tx || c.bad then false else true

  -- `noteTxFailureLocked`: the connection, and whether ROLLBACK is sent
  unfoldable pub note_tx_failure : Bytes → Conn → Conn × Bool
  unfolding recover_tx
  note_tx_failure query c = elim (tx_boundary query) [
    | ends ↦ (record c { in_tx = false }, false)
    | begins ↦ (c, recover_tx c)
    | neither ↦ (c, recover_tx c)
  ]
