-- ===== src/Exhost/Abi.antt =====
-- The interface `ModuleABI` of converge/exhost/host.go: what the host calls in the wasm module, as
-- functions on the module's state. The module's code is generated and stands outside the
-- repository, so the interface is a parameter. Pointers and int32 words are their bit patterns.
use duckdb_wasm2go_poc.Base.{ℕ, ◌+◌, ◌-◌, ◌≤◌, ◌<◌, ◌^◌, ◌%◌, ◌≡◌, ◌⊎◌, Option, some}

-- `ExceptionRefcounter`
pub record Refcounter (M : Type 0) : Type 0 where
  pub increment : ℕ → M → M
  pub decrement : ℕ → M → M

pub record ModuleAbi : Type 1 where
  pub Mod : Type 0
  pub set_threw : ℕ → ℕ → Mod → Mod
  pub tempret_set : ℕ → Mod → Mod
  pub can_catch : ℕ → ℕ → ℕ → Mod → ℕ × Mod
  pub get_exception_ptr : ℕ → Mod → ℕ × Mod
  pub read_u32 : Mod → ℕ → ℕ
  pub write_u32 : ℕ → ℕ → Mod → Mod
  pub refcounter : Option (Refcounter Mod)

-- int32 addition of a negative offset, as bit patterns.
abbrev pub minus32 : ℕ → ℕ → ℕ
minus32 p k = (p + 2 ^ 32 - k) % 2 ^ 32

abbrev pub plus32 : ℕ → ℕ → ℕ
plus32 p k = (p + k) % 2 ^ 32

-- The address of an exception object: it has the 24 bytes of its header below it.
abbrev pub IsObject : ℕ → Type 0
IsObject p = (24 ≤ p) × (p < 2 ^ 32)

-- Two exception objects, each with a header of its own.
abbrev pub Apart : ℕ → ℕ → Type 0
Apart p q = (p + 24 ≤ q) ⊎ (q + 24 ≤ p)

-- What the host relies on: linear memory holds the words written to it, and the module's own calls
-- write to no header but the one that they are given.
pub record Lawful (abi : ModuleAbi) : Type 0 where
  pub read_lt : (m : abi.Mod) (p : ℕ) → abi.read_u32 m p < 2 ^ 32
  pub read-write_self :
      (m : abi.Mod) (p v : ℕ) → v < 2 ^ 32 → abi.read_u32 (abi.write_u32 p v m) p ≡ v
  pub read-write_apart :
      (m : abi.Mod) (p q v : ℕ)
      → (p + 4 ≤ q) ⊎ (q + 4 ≤ p)
      → abi.read_u32 (abi.write_u32 p v m) q ≡ abi.read_u32 m q
  pub read-set_threw :
      (m : abi.Mod) (a b p k : ℕ)
      → IsObject p
      → 4 ≤ k
      → k ≤ 24
      → abi.read_u32 (abi.set_threw a b m) (minus32 p k) ≡ abi.read_u32 m (minus32 p k)
  pub read-tempret_set :
      (m : abi.Mod) (v p : ℕ) → abi.read_u32 (abi.tempret_set v m) p ≡ abi.read_u32 m p
  pub read-get_exception_ptr :
      (m : abi.Mod) (e p : ℕ) → abi.read_u32 (abi.get_exception_ptr e m).1 p ≡ abi.read_u32 m p
  pub read-increment :
      (rc : Refcounter abi.Mod) (m : abi.Mod) (e p k : ℕ)
      → abi.refcounter ≡ some rc
      → IsObject e
      → IsObject p
      → (p ≡ e) ⊎ Apart p e
      → 4 ≤ k
      → k ≤ 20
      → abi.read_u32 (rc.increment e m) (minus32 p k) ≡ abi.read_u32 m (minus32 p k)
  pub read-decrement :
      (rc : Refcounter abi.Mod) (m : abi.Mod) (e p k : ℕ)
      → abi.refcounter ≡ some rc
      → IsObject e
      → IsObject p
      → Apart p e
      → 4 ≤ k
      → k ≤ 24
      → abi.read_u32 (rc.decrement e m) (minus32 p k) ≡ abi.read_u32 m (minus32 p k)
