-- ===== src/Duckdb/Driver/Stream/Feed.antt =====
-- What the engine promises of a result whose rows it gives in chunks of vectors, as DuckDB documents
-- it: the handles and addresses that it answers, the masks of NULLs, and when a chunk is taken back.
use duckdb_wasm2go_poc.Base.{
  ℕ, ◌+◌, ◌*◌, ◌/◌, ◌%◌, ◌^◌, ◌≡◌, ◌≢◌, ◌⊎◌, List, [], ◌∷◌, Option, none, some, length, nth,
}
use duckdb_wasm2go_poc.Duckdb.Driver.{Engine}
use duckdb_wasm2go_poc.Duckdb.Driver.Module.{zeros}
use duckdb_wasm2go_poc.Duckdb.Driver.Rows.{Cells, Column, Rows}
use duckdb_wasm2go_poc.Duckdb.Driver.Stream.Reaches.{Answers}

-- a row of cells, none for NULL
abbrev pub Row : {e : Engine} → Cells e → Type 0
Row d = List (Option d.Value)

pub record Chunk {e : Engine} (d : Cells e) : Type 0 where
  pub handle : ℕ
  pub rows : List (Row d)

-- Where the engine stands with a result, by the chunk that the driver holds and those to come, and
-- the addresses of the vectors of a chunk.
pub record Layout {e : Engine} (d : Cells e) : Type 1 where
  pub At : Option (Chunk d) → List (Chunk d) → e.World → Type 0
  pub vector : Chunk d → ℕ → ℕ
  pub data_at : Chunk d → ℕ → ℕ
  pub mask_at : Chunk d → ℕ → ℕ
  pub mask : Chunk d → ℕ → ℕ → ℕ

-- The vectors of `c`, from the column `col` on, have at `i` the cells of a row: no mask says that
-- every cell is valid, and else a bit of it.
pub data Stored {e : Engine} {d : Cells e} (l : Layout d) (c : Chunk d) (i : ℕ)
    : ℕ → List (Column d) → Row d → Type 0 where
  stored_end : (col : ℕ) → Stored l c i col [] []
  stored_null :
      (col : ℕ) (x : Column d) (xs : List (Column d)) (row : Row d)
      → l.mask_at c col ≢ 0
      → l.mask c col (i / 64) / 2 ^ (i % 64) % 2 ≡ 0
      → Stored l c i (col + 1) xs row
      → Stored l c i col (x ∷ xs) (none ∷ row)
  stored_value :
      (col : ℕ) (x : Column d) (xs : List (Column d)) (v : d.Value) (row : Row d)
      → (l.mask_at c col ≡ 0) ⊎ (l.mask c col (i / 64) / 2 ^ (i % 64) % 2 ≡ 1)
      → ((cs : List (Chunk d)) (w : e.World)
          → l.At (some c) cs w
          → Answers (d.decode x.meta (l.vector c col) (l.data_at c col) i) w v (l.At (some c) cs))
      → Stored l c i (col + 1) xs row
      → Stored l c i col (x ∷ xs) (some v ∷ row)

-- `duckdb_destroy_data_chunk`, of the handle that stands in a slot of the engine's memory
pub record Destroyed (e : Engine) (handle : ℕ) (w : e.World) (R : e.World → Type 0) : Type 1 where
  pub slot : ℕ
  pub slot_given : slot ≢ 0
  pub Owned : e.World → Type 0
  pub Zeroed : e.World → Type 0
  pub Written : e.World → Type 0
  pub Gone : e.World → Type 0
  pub allocated : Answers (e.malloc 4) w slot Owned
  pub zeroed : (w' : e.World) → Owned w' → Answers (e.store slot (zeros 4)) w' tt Zeroed
  pub written : (w' : e.World) → Zeroed w' → Answers (e.write_u32 slot handle) w' tt Written
  pub destroyed : (w' : e.World) → Written w' → Answers (e.destroy_chunk slot) w' tt Gone
  pub freed : (w' : e.World) → Gone w' → Answers (e.free slot) w' tt R

-- The engine feeds the rows `r`, one chunk at a time.
pub record Feed {e : Engine} {d : Cells e} (l : Layout d) (r : Rows d) : Type 1 where
  pub present :
      (c : Chunk d) (cs : List (Chunk d)) (w : e.World) → l.At (some c) cs w → c.handle ≢ 0
  pub fetched :
      (c : Chunk d) (cs : List (Chunk d)) (w : e.World)
      → l.At none (c ∷ cs) w
      → Answers (e.fetch_chunk r.res_ptr) w c.handle (l.At (some c) cs)
  pub drained :
      (w : e.World) → l.At none [] w → Answers (e.fetch_chunk r.res_ptr) w 0 (l.At none [])
  pub sized :
      (c : Chunk d) (cs : List (Chunk d)) (w : e.World)
      → l.At (some c) cs w
      → Answers (e.chunk_size c.handle) w (length c.rows) (l.At (some c) cs)
  pub taken_back :
      (c : Chunk d) (cs : List (Chunk d)) (w : e.World)
      → l.At (some c) cs w
      → Destroyed e c.handle w (l.At none cs)
  pub vectors :
      (c : Chunk d) (cs : List (Chunk d)) (w : e.World) (col : ℕ)
      → l.At (some c) cs w
      → Answers (e.get_vector c.handle col) w (l.vector c col) (l.At (some c) cs)
  pub buffers :
      (c : Chunk d) (cs : List (Chunk d)) (w : e.World) (col : ℕ)
      → l.At (some c) cs w
      → Answers (e.vector_data (l.vector c col)) w (l.data_at c col) (l.At (some c) cs)
  pub masks :
      (c : Chunk d) (cs : List (Chunk d)) (w : e.World) (col : ℕ)
      → l.At (some c) cs w
      → Answers (e.vector_validity (l.vector c col)) w (l.mask_at c col) (l.At (some c) cs)
  pub mask_words :
      (c : Chunk d) (cs : List (Chunk d)) (w : e.World) (col k : ℕ)
      → l.At (some c) cs w
      → Answers (e.read_u64 (l.mask_at c col + 8 * k)) w (l.mask c col k) (l.At (some c) cs)
  pub stored :
      (c : Chunk d) (cs : List (Chunk d)) (w : e.World) (i : ℕ) (row : Row d)
      → l.At (some c) cs w
      → nth i c.rows ≡ some row
      → Stored l c i 0 r.columns row
