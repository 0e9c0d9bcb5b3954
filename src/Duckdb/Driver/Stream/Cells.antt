-- ===== src/Duckdb/Driver/Stream/Cells.antt =====
-- The cells of a row, read by `Next` of converge/duckdb/result.go from the vectors of a chunk.
use duckdb_wasm2go_poc.Base.{
  ℕ, zero, suc, ◌+◌, ◌*◌, ◌/◌, ◌%◌, ◌^◌, ◌≤◌, ◌≡◌, ◌≢◌, ◌⊎◌, inl, inr, Bool, true, false, List, ◌∷◌,
  Option, none, some, ◌==◌, if◌then◌else◌, refl, ap, arith, length,
}
use duckdb_wasm2go_poc.Duckdb.Driver.{Engine, Session, Prog, pure, ◌>>=◌, call}
use duckdb_wasm2go_poc.Duckdb.Driver.Rows.{Cells, Column, Rows, row_valid, read_cells}
use duckdb_wasm2go_poc.Duckdb.Driver.Stream.Reaches.{
  Reaches, Ends, Sound, Reaches-refl, pure-Ends, Reaches-bind, Reaches-trans, call-Ends,
  if_false-Reaches, if_true-Reaches, not_null,
}
use duckdb_wasm2go_poc.Duckdb.Driver.Stream.Feed.{
  Row, Chunk, Layout, Stored, stored_end, stored_null, stored_value, Feed,
}

zero-cases : (n : ℕ) → (n ≡ 0) ⊎ (n ≢ 0)
zero-cases zero = inl refl
zero-cases (suc n) = inr (λ h. omega arith)

module _ {e : Engine} {d : Cells e} (l : Layout d) (r : Rows d) (feed : Feed l r) (c : Chunk d)
    (cs : List (Chunk d)) (i : ℕ) where
  abbrev Sits : Session e.World → Type 0
  Sits = Sound (l.At (some c) cs)

  masked-Ends :
      (col : ℕ) (b : Bool) (s : Session e.World)
      → l.mask_at c col ≢ 0
      → (l.mask c col (i / 64) / 2 ^ (i % 64) % 2 == 1) ≡ b
      → Sits s
      → Ends (row_valid e d (l.mask_at c col) i) s b Sits
  unfolding row_valid
  masked-Ends col b s n eq q = if_false-Reaches s (l.mask_at c col == 0) _ _ (not_null _ n) (
      Reaches-bind (call (e.read_u64 (l.mask_at c col + 8 * (i / 64)))) _ s
        (call-Ends _ s q.healthy (feed.mask_words c cs s.world col (i / 64) q.world))
        (λ t p. pure-Ends t eq p))

  valid-Ends :
      (col : ℕ) (s : Session e.World)
      → (l.mask_at c col ≡ 0) ⊎ (l.mask c col (i / 64) / 2 ^ (i % 64) % 2 ≡ 1)
      → Sits s
      → Ends (row_valid e d (l.mask_at c col) i) s true Sits
  unfolding row_valid
  valid-Ends col s (inl z) q =
      let e0 : (l.mask_at c col == 0) ≡ true = ap (λ n. n == 0) z in
      if_true-Reaches s (l.mask_at c col == 0) _ _ e0 (Reaches-refl _ s q)
  valid-Ends col s (inr one) q = elim (zero-cases (l.mask_at c col)) [
    | inl z ↦ if_true-Reaches s (l.mask_at c col == 0) _ _ (ap (λ n. n == 0) z) (Reaches-refl _ s q)
    | inr n ↦ masked-Ends col true s n (ap (λ b. b == 1) one) q
  ]

  -- the addresses of a vector, and whether its cell is valid
  vector-Reaches :
      {A : Type 0} (col : ℕ) (valid : Bool) (k : ℕ → ℕ → Bool → Prog e.World A)
      (s : Session e.World)
      → ((t : Session e.World) → Sits t → Ends (row_valid e d (l.mask_at c col) i) t valid Sits)
      → Sits s
      → Reaches
          (call (e.get_vector c.handle col) >>= (λ vec. call (e.vector_data vec) >>= (λ at.
            call (e.vector_validity vec) >>= (λ mask. row_valid e d mask i >>= (λ v. k vec at v)))))
          s
          (k (l.vector c col) (l.data_at c col) valid)
          Sits
  vector-Reaches col valid k s h q =
      Reaches-bind (call (e.get_vector c.handle col)) _ s
        (call-Ends _ s q.healthy (feed.vectors c cs s.world col q.world))
        (λ t p.
          Reaches-bind (call (e.vector_data (l.vector c col))) _ t
            (call-Ends _ t p.healthy (feed.buffers c cs t.world col p.world))
            (λ u p'.
              Reaches-bind (call (e.vector_validity (l.vector c col))) _ u
                (call-Ends _ u p'.healthy (feed.masks c cs u.world col p'.world))
                (λ v p''.
                  Reaches-bind (row_valid e d (l.mask_at c col) i) _ v (h v p'')
                    (λ z y. Reaches-refl _ z y))))

  -- what follows the vector of a cell
  abbrev cell_then : Column d → List (Column d) → ℕ → ℕ → ℕ → ℕ → Bool → Prog e.World (Row d)
  cell_then x xs col room vec at valid = do
    cell ← (if valid then call (d.decode x.meta vec at i) >>= (λ v. pure (some v)) else pure none)
    rest ← read_cells e d xs (col + 1) room c.handle i
    pure (cell ∷ rest)

  rest-Ends :
      (cell : Option d.Value) (rest : Prog e.World (Row d)) (row : Row d) (s : Session e.World)
      → Ends rest s row Sits
      → Ends (rest >>= (λ cells. pure (cell ∷ cells))) s (cell ∷ row) Sits
  rest-Ends cell rest row s x = Reaches-bind rest _ s x (λ t p. Reaches-refl _ t p)

  pub read_cells-Ends :
      {col : ℕ} {xs : List (Column d)} {row : Row d} (room : ℕ) (s : Session e.World)
      → Stored l c i col xs row
      → length xs ≤ room
      → Sits s
      → Ends (read_cells e d xs col room c.handle i) s row Sits
  unfolding read_cells
  read_cells-Ends room s (stored_end col) h q = Reaches-refl _ s q
  read_cells-Ends zero s (stored_null col x xs row n bit st) h q = absurd (omega arith)
  read_cells-Ends zero s (stored_value col x xs v row ok dec st) h q = absurd (omega arith)
  read_cells-Ends (suc room) s (stored_null col x xs row n bit st) h q =
      Reaches-trans s
        (vector-Reaches col false (cell_then x xs col room) s
          (λ t p. masked-Ends col false t n (ap (λ b. b == 1) bit) p) q)
        (λ t p.
          Reaches-bind (pure none) _ t (Reaches-refl _ t p)
            (λ u p'. rest-Ends none _ row u (read_cells-Ends room u st (omega arith) p')))
  read_cells-Ends (suc room) s (stored_value col x xs v row ok dec st) h q =
      Reaches-trans s
        (vector-Reaches col true (cell_then x xs col room) s (λ t p. valid-Ends col t ok p) q)
        (λ t p.
          Reaches-bind
            (call (d.decode x.meta (l.vector c col) (l.data_at c col) i) >>= (λ a. pure (some a))) _
            t
            (Reaches-bind (call (d.decode x.meta (l.vector c col) (l.data_at c col) i)) _ t
              (call-Ends _ t p.healthy (dec cs t.world p.world)) (λ u p'. Reaches-refl _ u p'))
            (λ u p'. rest-Ends (some v) _ row u (read_cells-Ends room u st (omega arith) p')))
