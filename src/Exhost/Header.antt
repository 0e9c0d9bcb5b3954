-- ===== src/Exhost/Header.antt =====
-- Laws of the exception header of converge/exhost/host.go over a lawful module: each accessor reads
-- back what was set and leaves the other fields alone.
use duckdb_wasm2go_poc.Base.{
  ℕ, ◌+◌, ◌-◌, ◌*◌, ◌/◌, ◌%◌, ◌^◌, ◌<◌, ◌≤◌, ◌≡◌, ◌⊎◌, Bool, true, false, Option-cases, inl, inr,
  if◌then◌else◌, arith, ◌∙◌,
}
use duckdb_wasm2go_poc.Exhost.Abi.{ModuleAbi, Lawful, IsObject, Apart, minus32}
use duckdb_wasm2go_poc.Exhost.Host.{
  hdr_type, hdr_caught, set_hdr_caught, hdr_rethrown, set_hdr_rethrown, inc_ref, dec_ref,
}
use duckdb_wasm2go_poc.Exhost.Calls.{init_header}

module _ (abi : ModuleAbi) (law : Lawful abi) where
  open abi use {Mod, read_u32, write_u32}

  -- A write to one header word leaves another word of the same header alone.
  pub read-write_word :
      (m : Mod) (p j k v : ℕ)
      → IsObject p
      → 4 ≤ j
      → j ≤ 24
      → 4 ≤ k
      → k ≤ 24
      → (j + 4 ≤ k) ⊎ (k + 4 ≤ j)
      → read_u32 (write_u32 (minus32 p j) v m) (minus32 p k) ≡ read_u32 m (minus32 p k)
  read-write_word m p j k v o a b c d apart =
      law.read-write_apart m (minus32 p j) (minus32 p k) v (omega arith)

  flags_set_caught :
      (m : Mod) (p : ℕ) (b : Bool)
      → read_u32 (set_hdr_caught abi p b m) (minus32 p 12)
        ≡ (let w = read_u32 m (minus32 p 12) in w - w % 256 + (if b then 1 else 0))
  unfolding set_hdr_caught
  flags_set_caught m p b =
      let w = read_u32 m (minus32 p 12) in
      ground (
        arith,
        law.read_lt m (minus32 p 12),
        law.read-write_self m (minus32 p 12) (w - w % 256 + 1),
        law.read-write_self m (minus32 p 12) (w - w % 256),
      )

  flags_set_rethrown :
      (m : Mod) (p : ℕ) (b : Bool)
      → read_u32 (set_hdr_rethrown abi p b m) (minus32 p 12)
        ≡ (let w = read_u32 m (minus32 p 12) in w - (w / 256) % 256 * 256 + (if b then 256 else 0))
  unfolding set_hdr_rethrown
  flags_set_rethrown m p b =
      let w = read_u32 m (minus32 p 12) in
      ground (
        arith,
        law.read_lt m (minus32 p 12),
        law.read-write_self m (minus32 p 12) (w - (w / 256) % 256 * 256 + 256),
        law.read-write_self m (minus32 p 12) (w - (w / 256) % 256 * 256),
      )

  pub caught-set_caught :
      (m : Mod) (p : ℕ) (b : Bool) → hdr_caught abi (set_hdr_caught abi p b m) p ≡ b
  unfolding hdr_caught
  caught-set_caught m p true = ground (arith, flags_set_caught m p true)
  caught-set_caught m p false = ground (arith, flags_set_caught m p false)

  pub rethrown-set_caught :
      (m : Mod) (p : ℕ) (b : Bool)
      → hdr_rethrown abi (set_hdr_caught abi p b m) p ≡ hdr_rethrown abi m p
  unfolding hdr_rethrown
  rethrown-set_caught m p true = ground (arith, flags_set_caught m p true)
  rethrown-set_caught m p false = ground (arith, flags_set_caught m p false)

  pub rethrown-set_rethrown :
      (m : Mod) (p : ℕ) (b : Bool) → hdr_rethrown abi (set_hdr_rethrown abi p b m) p ≡ b
  unfolding hdr_rethrown
  rethrown-set_rethrown m p true = ground (arith, flags_set_rethrown m p true)
  rethrown-set_rethrown m p false = ground (arith, flags_set_rethrown m p false)

  pub caught-set_rethrown :
      (m : Mod) (p : ℕ) (b : Bool)
      → hdr_caught abi (set_hdr_rethrown abi p b m) p ≡ hdr_caught abi m p
  unfolding hdr_caught
  caught-set_rethrown m p true = ground (arith, flags_set_rethrown m p true)
  caught-set_rethrown m p false = ground (arith, flags_set_rethrown m p false)

  pub type-set_caught :
      (m : Mod) (p : ℕ) (b : Bool)
      → IsObject p
      → hdr_type abi (set_hdr_caught abi p b m) p ≡ hdr_type abi m p
  unfolding hdr_type set_hdr_caught
  type-set_caught m p b o =
      read-write_word m p 12 20 _ o (omega arith) (omega arith) (omega arith) (omega arith)
        (inl (omega arith))

  pub type-set_rethrown :
      (m : Mod) (p : ℕ) (b : Bool)
      → IsObject p
      → hdr_type abi (set_hdr_rethrown abi p b m) p ≡ hdr_type abi m p
  unfolding hdr_type set_hdr_rethrown
  type-set_rethrown m p b o =
      read-write_word m p 12 20 _ o (omega arith) (omega arith) (omega arith) (omega arith)
        (inl (omega arith))

  -- Taking a reference to `e` changes no flag and no type, of `e` or of another object.
  pub read-inc_ref :
      (m : Mod) (e p k : ℕ)
      → IsObject e
      → IsObject p
      → (p ≡ e) ⊎ Apart p e
      → 4 ≤ k
      → k ≤ 20
      → read_u32 (inc_ref abi e m) (minus32 p k) ≡ read_u32 m (minus32 p k)
  unfolding inc_ref
  read-inc_ref m e p k oe op sep lo hi = elim (Option-cases abi.refcounter) [
    | inl a ↦ rw a (law.read-write_apart m (minus32 e 24) (minus32 p k) _ (omega arith))
    | inr (rc, a) ↦ rw a (law.read-increment rc m e p k a oe op sep lo hi)
  ]

  -- Releasing `e` leaves the header of every other object alone.
  pub read-dec_ref :
      (m : Mod) (e p k : ℕ)
      → IsObject e
      → IsObject p
      → Apart p e
      → 4 ≤ k
      → k ≤ 24
      → read_u32 (dec_ref abi e m) (minus32 p k) ≡ read_u32 m (minus32 p k)
  unfolding dec_ref
  read-dec_ref m e p k oe op sep lo hi = elim (Option-cases abi.refcounter) [
    | inl a ↦ rw a (law.read-write_apart m (minus32 e 24) (minus32 p k) _ (omega arith))
    | inr (rc, a) ↦ rw a (law.read-decrement rc m e p k a oe op sep lo hi)
  ]

  -- The header that a throw writes: the type thrown, and no flag.
  pub type-init_header :
      (m : Mod) (p typ dtor : ℕ)
      → IsObject p
      → typ < 2 ^ 32
      → hdr_type abi (init_header abi p typ dtor m) p ≡ typ
  unfolding hdr_type init_header
  type-init_header m p typ dtor o t =
      read-write_word _ p 8 20 0 o (omega arith) (omega arith) (omega arith) (omega arith)
        (inl (omega arith))
      ∙ read-write_word _ p 12 20 0 o (omega arith) (omega arith) (omega arith) (omega arith)
          (inl (omega arith))
      ∙ read-write_word _ p 16 20 dtor o (omega arith) (omega arith) (omega arith) (omega arith)
          (inl (omega arith))
      ∙ law.read-write_self _ (minus32 p 20) typ t

  pub flags-init_header :
      (m : Mod) (p typ dtor : ℕ)
      → IsObject p
      → read_u32 (init_header abi p typ dtor m) (minus32 p 12) ≡ 0
  unfolding init_header
  flags-init_header m p typ dtor o =
      read-write_word _ p 8 12 0 o (omega arith) (omega arith) (omega arith) (omega arith)
        (inl (omega arith))
      ∙ law.read-write_self _ (minus32 p 12) 0 (omega arith)

  pub caught-init_header :
      (m : Mod) (p typ dtor : ℕ)
      → IsObject p
      → hdr_caught abi (init_header abi p typ dtor m) p ≡ false
  unfolding hdr_caught
  caught-init_header m p typ dtor o = rw (flags-init_header m p typ dtor o)
