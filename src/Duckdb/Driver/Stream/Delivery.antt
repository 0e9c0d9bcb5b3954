-- ===== src/Duckdb/Driver/Stream/Delivery.antt =====
-- What the calls of `Next` of converge/duckdb/result.go reply, over a result that is fed in chunks.
use mathlib.Core.Path.{subst}
use duckdb_wasm2go_poc.Base.{
  ℕ, zero, suc, ◌+◌, ◌≤◌, ◌<◌, ◌≡◌, ◌≢◌, ◌⊎◌, inl, inr, true, false, List, [], ◌∷◌, ◌++◌, Option,
  none, some, map, if◌then◌else◌, refl, ap, ◌∙◌, sym, arith, length, drop, nth,
}
use duckdb_wasm2go_poc.Duckdb.Driver.{
  Engine, Session, Prog, Result, ok, fail, end_of_rows, bad_conn, done, pure, ◌>>=◌,
  unless_poisoned,
}
use duckdb_wasm2go_poc.Duckdb.Driver.Rows.{
  Cells, Rows, has_row, advance, read_cells, next_row, guard_rows, next,
}
use duckdb_wasm2go_poc.Duckdb.Driver.Stream.Reaches.{
  Ends, Sound, Reaches-refl, pure-Ends, Reaches-bind,
}
use duckdb_wasm2go_poc.Duckdb.Driver.Stream.Feed.{Row, Chunk, Layout, Feed}
use duckdb_wasm2go_poc.Duckdb.Driver.Stream.Refill.{
  idle, held, rows_of, advance-has_row, Refilled, dry, found, advance-Refilled,
  advance_behind-Refilled,
}
use duckdb_wasm2go_poc.Duckdb.Driver.Stream.Cells.{read_cells-Ends}

-- the replies of a number of calls of `Next`, one behind the other
unfoldable pub read_rows :
    (e : Engine) (d : Cells e) → ℕ → ℕ → ℕ → Rows d → Prog e.World (List (Result (Row d)))
read_rows e d fuel room zero r = pure []
read_rows e d fuel room (suc n) r = do
  reply ← next e d fuel room r
  rest ← read_rows e d fuel room n reply.1
  pure (reply.0 ∷ rest)

-- a number of ends of the rows
abbrev pub ends : {A : Type 0} → ℕ → List (Result A)
ends zero = []
ends (suc n) = fail end_of_rows ∷ ends n

next_number : (k : ℕ) → k + 1 ≡ suc k
next_number k = omega arith

module _ {A : Type 0} where
  list-cases : (xs : List A) → (xs ≡ []) ⊎ ((x : A) × (rest : List A) × (xs ≡ x ∷ rest))
  list-cases [] = inl refl
  list-cases (x ∷ rest) = inr (x, rest, refl)

  first_empty : (xs ys : List A) → xs ++ ys ≡ [] → xs ≡ []
  first_empty [] ys h = refl
  first_empty (x ∷ xs) ys h = absurd cc

  second_empty : (xs ys : List A) → xs ++ ys ≡ [] → ys ≡ []
  second_empty [] ys h = h
  second_empty (x ∷ xs) ys h = absurd cc

  no_rows : (xs ys : List A) → xs ++ ys ≡ [] → length xs ≡ 0
  no_rows xs ys h = ap length (first_empty xs ys h)

  nth-drop :
      (k : ℕ) (xs : List A) (x : A) (rest : List A) → drop k xs ≡ x ∷ rest → nth k xs ≡ some x
  nth-drop zero (y ∷ ys) x rest h = cc
  nth-drop zero [] x rest h = absurd cc
  nth-drop (suc k) [] x rest h = absurd cc
  nth-drop (suc k) (y ∷ ys) x rest h = nth-drop k ys x rest h

  drop_next :
      (k : ℕ) (xs : List A) (x : A) (rest : List A) → drop k xs ≡ x ∷ rest → drop (suc k) xs ≡ rest
  drop_next zero (y ∷ ys) x rest h = cc
  drop_next zero [] x rest h = absurd cc
  drop_next (suc k) [] x rest h = absurd cc
  drop_next (suc k) (y ∷ ys) x rest h = drop_next k ys x rest h

  left-length : (k : ℕ) (xs : List A) (x : A) (rest : List A) → drop k xs ≡ x ∷ rest → k < length xs
  left-length zero (y ∷ ys) x rest h = omega arith
  left-length zero [] x rest h = absurd cc
  left-length (suc k) [] x rest h = absurd cc
  left-length (suc k) (y ∷ ys) x rest h = omega (arith, left-length k ys x rest h)

  none_left-length : (k : ℕ) (xs : List A) → drop k xs ≡ [] → length xs ≤ k
  none_left-length zero [] h = omega arith
  none_left-length zero (y ∷ ys) h = absurd cc
  none_left-length (suc k) [] h = omega arith
  none_left-length (suc k) (y ∷ ys) h = omega (arith, none_left-length k ys h)

-- between two chunks, or within one, of which some rows were read
data Spot {e : Engine} (d : Cells e) : Type 0 where
  no_chunk : Spot d
  in_chunk : Chunk d → ℕ → Spot d

abbrev at_spot : {e : Engine} {d : Cells e} → Rows d → Spot d → Rows d
at_spot r no_chunk = idle r
at_spot r (in_chunk c k) = held r c k

abbrev pending : {e : Engine} {d : Cells e} → Spot d → List (Row d)
pending no_chunk = []
pending (in_chunk c k) = drop k c.rows

abbrev holds : {e : Engine} {d : Cells e} → Spot d → Option (Chunk d)
holds no_chunk = none
holds (in_chunk c k) = some c

module _ {e : Engine} {d : Cells e} (l : Layout d) (r : Rows d) (feed : Feed l r) (fuel room : ℕ)
    (wide : length r.columns ≤ room) where
  has_row-held :
      (c : Chunk d) (k : ℕ) → c.handle ≢ 0 → k < length c.rows → has_row e d (held r c k) ≡ true
  has_row-held c k n h = ground arith

  guarded-Ends :
      (x : Rows d) (s : Session e.World) {y : Result (Row d) × Rows d}
      {Q : Session e.World → Type 0}
      → s.poisoned ≡ false
      → Ends (next_row e d fuel room x) s y Q
      → Ends (next e d fuel room x) s y Q
  unfolding next guard_rows unless_poisoned
  guarded-Ends x s h y = record {
    after = y.after;
    reaches =
        ap
          (λ b.
            guard_rows e d x
              (if b then (done (fail bad_conn, x), s) else next_row e d fuel room x s))
          h
        ∙ ap (guard_rows e d x) y.reaches;
    keeps = y.keeps;
  }

  -- `Next` where the loop has found a row
  row-Ends :
      (x : Rows d) (c : Chunk d) (cs : List (Chunk d)) (k : ℕ) (row : Row d) (rest : List (Row d))
      (s : Session e.World)
      → s.poisoned ≡ false
      → drop k c.rows ≡ row ∷ rest
      → Ends (advance e d fuel x) s (held r c k, true) (Sound (l.At (some c) cs))
      → Ends (next e d fuel room x) s (ok row, held r c (suc k)) (Sound (l.At (some c) cs))
  unfolding next_row
  row-Ends x c cs k row rest s h left y = guarded-Ends x s h (
      Reaches-bind (advance e d fuel x) _ s y (λ t p.
        Reaches-bind (read_cells e d r.columns 0 room c.handle k) _ t
          (read_cells-Ends l r feed c cs k room t
            (feed.stored c cs t.world k row p.world (nth-drop k c.rows row rest left)) wide p)
          (λ u p'. pure-Ends u (ap (λ n. (ok row, held r c n)) (next_number k)) p')))

  -- `Next` where the result is drained
  end-Ends :
      (x : Rows d) (s : Session e.World) {Q : Session e.World → Type 0}
      → s.poisoned ≡ false
      → Ends (advance e d fuel x) s (idle r, false) Q
      → Ends (next e d fuel room x) s (fail end_of_rows, idle r) Q
  unfolding next_row
  end-Ends x s h y =
      guarded-Ends x s h (Reaches-bind (advance e d fuel x) _ s y (λ t p. Reaches-refl _ t p))

  abbrev Sits : Spot d → List (Chunk d) → Session e.World → Type 0
  Sits spot cs = Sound (l.At (holds spot) cs)

  -- `Next` gives a row and leaves the others for later
  data Stepped (x : Rows d) (s : Session e.World) (cs : List (Chunk d)) (row : Row d)
      (rest : List (Row d)) : Type 0 where
    stepped :
        (spot : Spot d) (cs' : List (Chunk d))
        → pending spot ++ rows_of cs' ≡ rest
        → length cs' ≤ length cs
        → Ends (next e d fuel room x) s (ok row, at_spot r spot) (Sits spot cs')
        → Stepped x s cs row rest

  within_chunk :
      (x : Rows d) (s : Session e.World) (cs cs' : List (Chunk d)) (row : Row d)
      (rest : List (Row d)) (c : Chunk d) (k : ℕ) (y : Row d) (ys : List (Row d))
      → s.poisoned ≡ false
      → length cs' ≤ length cs
      → drop k c.rows ≡ y ∷ ys
      → drop k c.rows ++ rows_of cs' ≡ row ∷ rest
      → Ends (advance e d fuel x) s (held r c k, true) (Sound (l.At (some c) cs'))
      → Stepped x s cs row rest
  within_chunk x s cs cs' row rest c k y ys h le left all a =
      let eq : (y ∷ ys) ++ rows_of cs' ≡ row ∷ rest =
        ap (λ zs. zs ++ rows_of cs') (sym left) ∙ all in
      let same : y ≡ row = cc in
      let left' : drop k c.rows ≡ row ∷ ys = left ∙ ap (λ z. z ∷ ys) same in
      let tails : drop (suc k) c.rows ++ rows_of cs' ≡ rest =
        ap (λ zs. zs ++ rows_of cs') (drop_next k c.rows y ys left) ∙ cc in
      stepped (in_chunk c (suc k)) cs' tails le (row-Ends x c cs' k row ys s h left' a)

  advance-Stepped :
      (x : Rows d) (s : Session e.World) (cs : List (Chunk d)) (row : Row d) (rest : List (Row d))
      → s.poisoned ≡ false
      → rows_of cs ≡ row ∷ rest
      → Refilled l r cs (advance e d fuel x) s
      → Stepped x s cs row rest
  advance-Stepped x s cs row rest h all (dry none_left a) = absurd cc
  advance-Stepped x s cs row rest h all (found c cs' some_left eq le a) = elim (list-cases c.rows) [
    | inl empty ↦ absurd (some_left (ap length empty))
    | inr (y, ys, left) ↦ within_chunk x s cs cs' row rest c 0 y ys h le left (sym eq ∙ all) a
  ]

  next-Stepped :
      (spot : Spot d) (s : Session e.World) (cs : List (Chunk d)) (row : Row d)
      (rest : List (Row d))
      → length cs < fuel
      → pending spot ++ rows_of cs ≡ row ∷ rest
      → Sits spot cs s
      → Stepped (at_spot r spot) s cs row rest
  next-Stepped no_chunk s cs row rest h all q =
      advance-Stepped (idle r) s cs row rest q.healthy all (advance-Refilled l r feed fuel cs s h q)
  next-Stepped (in_chunk c k) s cs row rest h all q = elim (list-cases (drop k c.rows)) [
    | inl over ↦
        advance-Stepped (held r c k) s cs row rest q.healthy
          (sym (ap (λ zs. zs ++ rows_of cs) over) ∙ all)
          (advance_behind-Refilled l r feed fuel c cs k s h (none_left-length k c.rows over) q)
    | inr (y, ys, left) ↦
        (let lt = left-length k c.rows y ys left in
          let has : has_row e d (held r c k) ≡ true =
            has_row-held c k (feed.present c cs s.world q.world) lt in
          within_chunk (held r c k) s cs cs row rest c k y ys q.healthy (omega arith) left all
            (advance-has_row fuel (held r c k) s has q))
  ]

  nothing_left :
      (spot : Spot d) (s : Session e.World) (cs : List (Chunk d))
      → length cs < fuel
      → pending spot ++ rows_of cs ≡ []
      → Sits spot cs s
      → Ends (next e d fuel room (at_spot r spot)) s (fail end_of_rows, idle r) (Sits no_chunk [])
  nothing_left no_chunk s cs h all q = elim (advance-Refilled l r feed fuel cs s h q) [
    | dry none_left a ↦ end-Ends (idle r) s q.healthy a
    | found c cs' some_left eq le a ↦ absurd (some_left (no_rows c.rows _ (sym eq ∙ all)))
  ]
  nothing_left (in_chunk c k) s cs h all q =
      let over = none_left-length k c.rows (first_empty _ _ all) in
      let rest : rows_of cs ≡ [] = second_empty (drop k c.rows) _ all in
      elim (advance_behind-Refilled l r feed fuel c cs k s h over q) [
        | dry none_left a ↦ end-Ends (held r c k) s q.healthy a
        | found c' cs' some_left eq le a ↦ absurd (some_left (no_rows c'.rows _ (sym eq ∙ rest)))
      ]

  abbrev pub Healthy : Session e.World → Type 0
  Healthy s = s.poisoned ≡ false

  ends-Ends :
      (n : ℕ) (spot : Spot d) (s : Session e.World) (cs : List (Chunk d))
      → length cs < fuel
      → pending spot ++ rows_of cs ≡ []
      → Sits spot cs s
      → Ends (read_rows e d fuel room n (at_spot r spot)) s (ends n) Healthy
  unfolding read_rows
  ends-Ends zero spot s cs h all q = Reaches-refl _ s q.healthy
  ends-Ends (suc n) spot s cs h all q =
      Reaches-bind (next e d fuel room (at_spot r spot)) _ s (nothing_left spot s cs h all q)
        (λ t p.
          Reaches-bind (read_rows e d fuel room n (idle r)) _ t
            (ends-Ends n no_chunk t [] (omega arith) refl p) (λ u p'. Reaches-refl _ u p'))

  rows-Ends :
      (rows : List (Row d)) (n : ℕ) (spot : Spot d) (s : Session e.World) (cs : List (Chunk d))
      → length cs < fuel
      → pending spot ++ rows_of cs ≡ rows
      → Sits spot cs s
      → Ends
          (read_rows e d fuel room (length rows + n) (at_spot r spot))
          s
          (map ok rows ++ ends n)
          Healthy
  unfolding read_rows
  rows-Ends [] n spot s cs h all q =
      let z : n ≡ 0 + n = omega arith in
      subst (λ m. Ends (read_rows e d fuel room m (at_spot r spot)) s (ends n) Healthy) z
        (ends-Ends n spot s cs h all q)
  rows-Ends (row ∷ rest) n spot s cs h all q =
      let z : suc (length rest + n) ≡ suc (length rest) + n = omega arith in
      elim (next-Stepped spot s cs row rest h all q) [
        | stepped spot' cs' all' le a ↦
            subst
              (λ m.
                Ends (read_rows e d fuel room m (at_spot r spot)) s (map ok (row ∷ rest) ++ ends n)
                  Healthy)
              z
              (Reaches-bind (next e d fuel room (at_spot r spot)) _ s a (λ t p.
                Reaches-bind (read_rows e d fuel room (length rest + n) (at_spot r spot')) _ t
                  (rows-Ends rest n spot' t cs' (omega arith) all' p)
                  (λ u p'. Reaches-refl _ u p')))
      ]

  -- Over a result that the engine feeds in chunks, the calls of Next give the rows of all the chunks
  -- in order, with each cell or NULL where the vectors have it, and then the end, however often they
  -- are called behind it; chunks without rows are passed over. The loop of Next has fuel for the
  -- chunks, `dest` has room for the columns, and the module is not poisoned.
  pub next_delivers :
      (chunks : List (Chunk d)) (n : ℕ) (s : Session e.World)
      → length chunks < fuel
      → Sound (l.At none chunks) s
      → Ends
          (read_rows e d fuel room (length (rows_of chunks) + n) (idle r))
          s
          (map ok (rows_of chunks) ++ ends n)
          Healthy
  next_delivers chunks n s h q = rows-Ends (rows_of chunks) n no_chunk s chunks h refl q
