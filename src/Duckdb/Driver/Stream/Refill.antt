-- ===== src/Duckdb/Driver/Stream/Refill.antt =====
-- The chunks that `Next` of converge/duckdb/result.go fetches until it has a row.
use duckdb_wasm2go_poc.Base.{
  ℕ, zero, suc, ◌≤◌, ◌<◌, ◌≡◌, ◌≢◌, ◌⊎◌, inl, inr, Bool, true, false, List, [], ◌∷◌, ◌++◌, Option,
  none, some, ◌==◌, if◌then◌else◌, refl, ap, ◌∙◌, arith, length,
}
use duckdb_wasm2go_poc.Duckdb.Driver.{
  Engine, chunk, buffer, acquire, release, Session, Prog, pure, panic, ◌>>=◌, ◌>>◌, continue, call,
  note,
}
use duckdb_wasm2go_poc.Duckdb.Driver.Module.{zeros, allocate, alloc_out, free, give_back}
use duckdb_wasm2go_poc.Duckdb.Driver.Rows.{
  Cells, Rows, release_chunk, without_chunk, has_row, take_chunk, advance,
}
use duckdb_wasm2go_poc.Duckdb.Driver.Stream.Reaches.{
  Reaches, Ends, Sound, Reaches-refl, pure-Ends, Reaches-bind, call-Ends, note-Ends,
  if_false-Reaches, if_true-Reaches, not_null,
}
use duckdb_wasm2go_poc.Duckdb.Driver.Stream.Feed.{Row, Chunk, Layout, Destroyed, Feed}

rows-cases : {A : Type 0} (xs : List A) → (xs ≡ []) ⊎ (length xs ≢ 0)
rows-cases [] = inl refl
rows-cases (x ∷ xs) = inr (λ h. omega arith)

-- rows without a chunk, and rows with `c`, of which `k` rows were read
abbrev pub idle : {e : Engine} {d : Cells e} → Rows d → Rows d
idle r = record r { chunk = 0; chunk_len = 0; cursor = 0 }

abbrev holding : {e : Engine} {d : Cells e} → Rows d → Chunk d → ℕ → ℕ → Rows d
holding r c n k = record r { chunk = c.handle; chunk_len = n; cursor = k }

abbrev pub held : {e : Engine} {d : Cells e} → Rows d → Chunk d → ℕ → Rows d
held r c k = holding r c (length c.rows) k

abbrev pub rows_of : {e : Engine} {d : Cells e} → List (Chunk d) → List (Row d)
rows_of [] = []
rows_of (c ∷ cs) = c.rows ++ rows_of cs

module _ {e : Engine} (handle : ℕ) {R : e.World → Type 0} where
  module _ (s : Session e.World) (h : s.poisoned ≡ false) (x : Destroyed e handle s.world R) where
    allocate-Ends : Ends (allocate e 4) s x.slot (Sound x.Owned)
    unfolding allocate
    allocate-Ends =
        Reaches-bind (call (e.malloc 4)) _ s (call-Ends (e.malloc 4) s h x.allocated) (λ t q.
          if_false-Reaches t (x.slot == 0) panic _ (not_null x.slot x.slot_given) (
            Reaches-bind (note (acquire buffer x.slot)) _ t (note-Ends _ t q)
              (λ t' q'. Reaches-refl (pure x.slot) t' q')))

    alloc_out-Ends : Ends (alloc_out e 4) s x.slot (Sound x.Zeroed)
    unfolding alloc_out
    alloc_out-Ends = Reaches-bind (allocate e 4) _ s allocate-Ends (λ t q.
        Reaches-bind (call (e.store x.slot (zeros 4))) _ t
          (call-Ends _ t q.healthy (x.zeroed t.world q.world))
          (λ t' q'. Reaches-refl (pure x.slot) t' q'))

    pub give_back-Ends : Ends (give_back e chunk e.destroy_chunk handle) s tt (Sound R)
    unfolding give_back free
    give_back-Ends = Reaches-bind (alloc_out e 4) _ s alloc_out-Ends (λ t q.
        Reaches-bind (call (e.write_u32 x.slot handle)) _ t
          (call-Ends _ t q.healthy (x.written t.world q.world))
          (λ t' q'. Reaches-bind (note (release chunk handle)) _ t' (note-Ends _ t' q') (λ u p.
            Reaches-bind (call (e.destroy_chunk x.slot)) _ u
              (call-Ends _ u p.healthy (x.destroyed u.world p.world))
              (λ u' p'.
                Reaches-bind (note (release buffer x.slot)) _ u' (note-Ends _ u' p')
                  (λ v y. call-Ends (e.free x.slot) v y.healthy (x.freed v.world y.world))))))

module _ {e : Engine} {d : Cells e} where
  without_chunk-holding :
      (r : Rows d) (c : Chunk d) (n k : ℕ)
      → c.handle ≢ 0
      → without_chunk e d (holding r c n k) ≡ idle r
  unfolding without_chunk
  without_chunk-holding r c n k h = rw (not_null c.handle h) refl

  pub advance-has_row :
      (f : ℕ) (x : Rows d) (s : Session e.World) {Q : Session e.World → Type 0}
      → has_row e d x ≡ true
      → Q s
      → Ends (advance e d f x) s (x, true) Q
  unfolding advance
  advance-has_row zero x s h q = if_true-Reaches s (has_row e d x) _ _ h (Reaches-refl _ s q)
  advance-has_row (suc f) x s h q = if_true-Reaches s (has_row e d x) _ _ h (Reaches-refl _ s q)

  -- What a loop for rows comes to, with the chunks `cs` to come: the end, or a chunk with rows.
  pub data Refilled (l : Layout d) (r : Rows d) (cs : List (Chunk d))
      (m : Prog e.World (Rows d × Bool)) (s : Session e.World) : Type 0 where
    dry : rows_of cs ≡ [] → Ends m s (idle r, false) (Sound (l.At none [])) → Refilled l r cs m s
    found :
        (c : Chunk d) (cs' : List (Chunk d))
        → length c.rows ≢ 0
        → rows_of cs ≡ c.rows ++ rows_of cs'
        → length cs' ≤ length cs
        → Ends m s (held r c 0, true) (Sound (l.At (some c) cs'))
        → Refilled l r cs m s

  Refilled-via :
      {l : Layout d} {r : Rows d} {cs cs' : List (Chunk d)} {m m' : Prog e.World (Rows d × Bool)}
      {s s' : Session e.World}
      → m' s' ≡ m s
      → rows_of cs' ≡ rows_of cs
      → length cs ≤ length cs'
      → Refilled l r cs m s
      → Refilled l r cs' m' s'
  Refilled-via eq rs n (dry h x) =
      dry (rs ∙ h) (record { after = x.after; reaches = eq ∙ x.reaches; keeps = x.keeps })
  Refilled-via eq rs n (found c cs' ne h le x) =
      found c cs' ne (rs ∙ h) (omega arith)
        (record { after = x.after; reaches = eq ∙ x.reaches; keeps = x.keeps })

module _ {e : Engine} {d : Cells e} (l : Layout d) (r : Rows d) (feed : Feed l r) where
  abbrev Sits : Option (Chunk d) → List (Chunk d) → Session e.World → Type 0
  Sits o cs = Sound (l.At o cs)

  release_chunk-Ends :
      (c : Chunk d) (cs : List (Chunk d)) (n k : ℕ) (s : Session e.World)
      → Sits (some c) cs s
      → Ends (release_chunk e d (holding r c n k)) s tt (Sits none cs)
  unfolding release_chunk
  release_chunk-Ends c cs n k s q =
      if_false-Reaches s (c.handle == 0) _ _ (not_null c.handle (feed.present c cs s.world q.world))
        (give_back-Ends c.handle s q.healthy (feed.taken_back c cs s.world q.world))

  -- the round of the loop behind `releaseChunk`
  abbrev refill : ℕ → Rows d → Prog e.World (Rows d × Bool)
  refill f x = do
    c ← call (e.fetch_chunk r.res_ptr)
    if c == 0 then pure (x, false) else (do
      note (acquire chunk c)
      size ← call (e.chunk_size c)
      x' ← take_chunk e d x c size
      advance e d f x')

  fetched-Reaches :
      (f : ℕ) (c : Chunk d) (cs : List (Chunk d)) (s : Session e.World)
      → Sits none (c ∷ cs) s
      → Reaches
          (refill f (idle r))
          s
          (take_chunk e d (idle r) c.handle (length c.rows) >>= advance e d f)
          (Sits (some c) cs)
  fetched-Reaches f c cs s q =
      Reaches-bind (call (e.fetch_chunk r.res_ptr)) _ s
        (call-Ends _ s q.healthy (feed.fetched c cs s.world q.world))
        (λ t p.
          if_false-Reaches t (c.handle == 0) _ _
            (not_null c.handle (feed.present c cs t.world p.world))
            (Reaches-bind (note (acquire chunk c.handle)) _ t (note-Ends _ t p) (λ u p'.
              Reaches-bind (call (e.chunk_size c.handle)) _ u
                (call-Ends _ u p'.healthy (feed.sized c cs u.world p'.world))
                (λ v p''. Reaches-refl _ v p''))))

  -- a chunk without rows
  passed_over :
      (f : ℕ) (c : Chunk d) (cs : List (Chunk d)) (s : Session e.World)
      → length c.rows ≡ 0
      → Sits (some c) cs s
      → Reaches
          (take_chunk e d (idle r) c.handle (length c.rows) >>= advance e d f)
          s
          (advance e d f (idle r))
          (Sits none cs)
  unfolding take_chunk
  passed_over f c cs s n q =
      let e0 : (length c.rows == 0) ≡ true = ground arith in
      let present = feed.present c cs s.world q.world in
      Reaches-bind (take_chunk e d (idle r) c.handle (length c.rows)) _ s
        (if_true-Reaches s (length c.rows == 0) _ _ e0 (
          Reaches-bind (release_chunk e d (holding r c 0 0)) _ s (release_chunk-Ends c cs 0 0 s q)
            (λ t p. pure-Ends t (without_chunk-holding r c 0 0 present) p)))
        (λ t p. Reaches-refl _ t p)

  -- a chunk with rows
  taken :
      (f : ℕ) (c : Chunk d) (cs : List (Chunk d)) (s : Session e.World)
      → length c.rows ≢ 0
      → Sits (some c) cs s
      → Ends
          (take_chunk e d (idle r) c.handle (length c.rows) >>= advance e d f)
          s
          (held r c 0, true)
          (Sits (some c) cs)
  unfolding take_chunk
  taken f c cs s n q =
      let present = feed.present c cs s.world q.world in
      let has : has_row e d (held r c 0) ≡ true = ground arith in
      Reaches-bind (take_chunk e d (idle r) c.handle (length c.rows)) _ s
        (if_false-Reaches s (length c.rows == 0) _ _ (not_null _ n) (Reaches-refl _ s q))
        (λ t p. advance-has_row f (held r c 0) t has p)

  advance-idle :
      (f : ℕ) (s : Session e.World) → advance e d (suc f) (idle r) s ≡ refill f (idle r) s
  unfolding advance release_chunk without_chunk ◌>>=◌ continue
  advance-idle f s = refl

  refill-Refilled :
      (f : ℕ) (cs : List (Chunk d)) (s : Session e.World)
      → length cs ≤ f
      → Sits none cs s
      → Refilled l r cs (refill f (idle r)) s
  refill-Refilled f [] s h q = dry refl (
      Reaches-bind (call (e.fetch_chunk r.res_ptr)) _ s
        (call-Ends _ s q.healthy (feed.drained s.world q.world)) (λ t p. Reaches-refl _ t p))
  refill-Refilled zero (c ∷ cs) s h q = absurd (omega arith)
  refill-Refilled (suc f) (c ∷ cs) s h q =
      let x = fetched-Reaches (suc f) c cs s q in
      elim (rows-cases c.rows) [
        | inl none_left ↦
            (let y = passed_over (suc f) c cs x.after (ap length none_left) x.keeps in
              Refilled-via (x.reaches ∙ (y.reaches ∙ advance-idle f y.after))
                (ap (λ rows. rows ++ rows_of cs) none_left) (omega arith)
                (refill-Refilled f cs y.after (omega arith) y.keeps))
        | inr some_left ↦
            (let y = taken (suc f) c cs x.after some_left x.keeps in
              found c cs some_left refl (omega arith)
                (record { after = y.after; reaches = x.reaches ∙ y.reaches; keeps = y.keeps }))
      ]

  -- the loop, without a chunk, and with one that was read to its end
  pub advance-Refilled :
      (f : ℕ) (cs : List (Chunk d)) (s : Session e.World)
      → length cs < f
      → Sits none cs s
      → Refilled l r cs (advance e d f (idle r)) s
  advance-Refilled zero cs s h q = absurd (omega arith)
  advance-Refilled (suc f) cs s h q =
      Refilled-via (advance-idle f s) refl (omega arith) (refill-Refilled f cs s (omega arith) q)

  pub advance_behind-Refilled :
      (f : ℕ) (c : Chunk d) (cs : List (Chunk d)) (k : ℕ) (s : Session e.World)
      → length cs < f
      → length c.rows ≤ k
      → Sits (some c) cs s
      → Refilled l r cs (advance e d f (held r c k)) s
  unfolding advance
  advance_behind-Refilled zero c cs k s h b q = absurd (omega arith)
  advance_behind-Refilled (suc f) c cs k s h b q =
      let over : has_row e d (held r c k) ≡ false = ground arith in
      let n = length c.rows in
      let eq = without_chunk-holding r c n k (feed.present c cs s.world q.world) in
      let x =
        (if_false-Reaches s (has_row e d (held r c k)) _ _ over (
          Reaches-bind (release_chunk e d (held r c k)) _ s (release_chunk-Ends c cs n k s q)
            (λ t p. Reaches-refl (refill f (without_chunk e d (held r c k))) t p))) in
      Refilled-via (x.reaches ∙ ap (λ y. refill f y x.after) eq) refl (omega arith)
        (refill-Refilled f cs x.after (omega arith) x.keeps)
