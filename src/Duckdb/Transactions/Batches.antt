-- ===== src/Duckdb/Transactions/Batches.antt =====
-- Batches of statements in converge/duckdb/driver.go, as SQL writes them: a statement is a run of
-- pieces, each a character or a quoted text.
use mathlib.Core.List.{append_assoc, append-nil}
use duckdb_wasm2go_poc.Base.{
  ℕ, ◌≡◌, ◌≢◌, true, false, List, [], ◌∷◌, ◌++◌, none, some, ◌==◌, if◌then◌else◌, Bytes, All, arith,
  refl, ap, sym, ◌∙◌, Bool-cases, inl, inr,
}
use duckdb_wasm2go_poc.Duckdb.Transactions.{is_quote, push, split_from, statements}

-- A quoted text is its quote and what stands between.
pub data Piece : Type 0 where
  plain : ℕ → Piece
  quoted : ℕ → Bytes → Piece

-- the text with every quote doubled
unfoldable pub doubled : ℕ → Bytes → Bytes
doubled q [] = []
doubled q (c ∷ cs) = let rest = doubled q cs in if c == q then q ∷ q ∷ rest else c ∷ rest

unfoldable pub render : List Piece → Bytes
unfolding doubled
render [] = []
render (plain c ∷ ps) = c ∷ render ps
render (quoted q body ∷ ps) = q ∷ (doubled q body ++ (q ∷ render ps))

-- Plain characters are neither quotes nor semicolons.
abbrev pub IsPiece : Piece → Type 0
IsPiece (plain c) = (is_quote c ≡ false) × (c ≢ b';')
IsPiece (quoted q body) = is_quote q ≡ true

abbrev pushes : Bytes → Bytes × List Bytes → Bytes × List Bytes
pushes [] r = r
pushes (c ∷ cs) r = push c (pushes cs r)

pushes-append :
    (xs ys : Bytes) (r : Bytes × List Bytes) → pushes (xs ++ ys) r ≡ pushes xs (pushes ys r)
pushes-append [] ys r = refl
pushes-append (x ∷ xs) ys r = ap (push x) (pushes-append xs ys r)

pushes_all : (xs t : Bytes) (l : List Bytes) → pushes xs (t, l) ≡ (xs ++ t, l)
pushes_all [] t l = refl
pushes_all (x ∷ xs) t l = ap (push x) (pushes_all xs t l)

split_inside :
    (q c : ℕ) (rest : Bytes)
    → (c == q) ≡ false
    → split_from (some q) (c ∷ rest) ≡ push c (split_from (some q) rest)
unfolding split_from
split_inside q c [] e = refl
split_inside q c (d ∷ cs) e = rw e refl

split_doubled :
    (q : ℕ) (rest : Bytes)
    → split_from (some q) (q ∷ q ∷ rest) ≡ push q (push q (split_from (some q) rest))
unfolding split_from
split_doubled q rest = let same : (q == q) ≡ true = ground arith in rw same refl

split_open :
    (q : ℕ) (rest : Bytes)
    → is_quote q ≡ true
    → split_from none (q ∷ rest) ≡ push q (split_from (some q) rest)
unfolding split_from
split_open q rest h = rw h refl

split_plain :
    (c : ℕ) (rest : Bytes)
    → IsPiece (plain c)
    → split_from none (c ∷ rest) ≡ push c (split_from none rest)
unfolding split_from
split_plain c rest (free, ne) =
    let semi : (c == b';') ≡ false = ground arith in rw free (rw semi refl)

split_semicolon : (rest : Bytes) → split_from none (b';' ∷ rest) ≡ ([], statements rest)
unfolding split_from statements
split_semicolon rest = refl

split_last : (q : ℕ) → split_from (some q) (q ∷ []) ≡ push q (split_from none [])
unfolding split_from
split_last q = refl

split_over :
    (q d : ℕ) (cs : Bytes)
    → (d == q) ≡ false
    → split_from (some q) (q ∷ d ∷ cs) ≡ push q (split_from none (d ∷ cs))
unfolding split_from
split_over q d cs over = let same : (q == q) ≡ true = ground arith in rw same (rw over refl)

-- A quote that ends a text: a second one behind it opens the text again.
split_close :
    (q : ℕ) (rest : Bytes)
    → is_quote q ≡ true
    → split_from (some q) (q ∷ rest) ≡ push q (split_from none rest)
split_close q [] h = split_last q
split_close q (d ∷ cs) h = elim (Bool-cases (d == q)) [
  | inl again ↦
      let same : d ≡ q = ground arith in
      rw same (split_doubled q cs ∙ ap (push q) (sym (split_open q cs h)))
  | inr over ↦ split_over q d cs over
]

split_body :
    (q : ℕ) (body rest : Bytes)
    → is_quote q ≡ true
    → split_from (some q) (doubled q body ++ (q ∷ rest))
      ≡ pushes (doubled q body) (push q (split_from none rest))
unfolding doubled
split_body q [] rest h = split_close q rest h
split_body q (c ∷ cs) rest h = elim (Bool-cases (c == q)) [
  | inl same ↦ rw same (
      split_doubled q (doubled q cs ++ (q ∷ rest))
      ∙ ap (λ r. push q (push q r)) (split_body q cs rest h))
  | inr other ↦
      rw other
        (split_inside q c (doubled q cs ++ (q ∷ rest)) other ∙ ap (push c) (split_body q cs rest h))
]

split_pieces :
    (ps : List Piece) (rest : Bytes)
    → All IsPiece ps
    → split_from none (render ps ++ rest) ≡ pushes (render ps) (split_from none rest)
unfolding render
split_pieces [] rest h = refl
split_pieces (plain c ∷ ps) rest (h, hs) =
    split_plain c (render ps ++ rest) h ∙ ap (push c) (split_pieces ps rest hs)
split_pieces (quoted q body ∷ ps) rest (h, hs) =
    let text = doubled q body in
    split_open q ((text ++ (q ∷ render ps)) ++ rest) h
    ∙ ap (push q) (
        ap (split_from (some q)) (append_assoc text (q ∷ render ps) rest)
        ∙ split_body q body (render ps ++ rest) h
        ∙ ap (λ r. pushes text (push q r)) (split_pieces ps rest hs)
        ∙ sym (pushes-append text (q ∷ render ps) (split_from none rest)))

-- A statement with quoted texts, whatever they hold, is one statement up to the semicolon behind it.
pub statements-render :
    (ps : List Piece) (rest : Bytes)
    → All IsPiece ps
    → statements (render ps ++ (b';' ∷ rest)) ≡ render ps ∷ statements rest
unfolding statements
statements-render ps rest h =
    ap (λ r. r.0 ∷ r.1)
      (split_pieces ps (b';' ∷ rest) h
        ∙ ap (pushes (render ps)) (split_semicolon rest)
        ∙ pushes_all (render ps) [] (statements rest))
    ∙ ap (λ t. t ∷ statements rest) (append-nil (render ps))
