-- ===== src/Duckdb/Transactions/Statements.antt =====
-- The scanner of `forEachStatement`, converge/duckdb/driver.go: no byte is lost, and quoted text does
-- not end a statement.
use duckdb_wasm2go_poc.Base.{
  ℕ, ◌≡◌, List, [], ◌∷◌, Option, none, some, ◌==◌, Bytes, arith, refl, ap, ◌∙◌, Bool-cases, inl,
  inr,
}
use duckdb_wasm2go_poc.Base.Text.{join}
use duckdb_wasm2go_poc.Duckdb.Transactions.{is_quote, push, split_from, statements}

-- the statements with their semicolons
abbrev joined : Bytes × List Bytes → Bytes
joined (s, rest) = join (b';' ∷ []) (s ∷ rest)

joined-push : (c : ℕ) (r : Bytes × List Bytes) → joined (push c r) ≡ c ∷ joined r
unfolding join
joined-push c (s, []) = refl
joined-push c (s, t ∷ rest) = refl

joined-split_from : (o : Option ℕ) (query : Bytes) → joined (split_from o query) ≡ query
unfolding split_from join
joined-split_from none [] = refl
joined-split_from (some q) [] = refl
joined-split_from none (c ∷ cs) = elim (Bool-cases (is_quote c)) [
  | inl q ↦
      rw q (joined-push c (split_from (some c) cs) ∙ ap (◌∷◌ c) (joined-split_from (some c) cs))
  | inr plain ↦ rw plain (elim (Bool-cases (c == b';')) [
    | inl semi ↦
        let same : b';' ≡ c = ground arith in
        rw semi (rw (← same) (ap (◌∷◌ b';') (joined-split_from none cs)))
    | inr other ↦
        rw other (joined-push c (split_from none cs) ∙ ap (◌∷◌ c) (joined-split_from none cs))
  ])
]
joined-split_from (some q) (c ∷ []) = refl
joined-split_from (some q) (c ∷ d ∷ cs) = elim (Bool-cases (c == q)) [
  | inl end ↦ rw end (elim (Bool-cases (d == q)) [
    | inl again ↦ rw again (
        joined-push c (push d (split_from (some q) cs))
        ∙ ap (◌∷◌ c)
            (joined-push d (split_from (some q) cs) ∙ ap (◌∷◌ d) (joined-split_from (some q) cs)))
    | inr over ↦
        rw over
          (joined-push c (split_from none (d ∷ cs)) ∙ ap (◌∷◌ c) (joined-split_from none (d ∷ cs)))
  ])
  | inr inside ↦ rw inside (
      joined-push c (split_from (some q) (d ∷ cs))
      ∙ ap (◌∷◌ c) (joined-split_from (some q) (d ∷ cs)))
]

-- The statements of a query, joined by semicolons, are the query.
pub statements-join : (query : Bytes) → join (b';' ∷ []) (statements query) ≡ query
unfolding statements
statements-join query = joined-split_from none query
