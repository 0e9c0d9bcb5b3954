-- ===== src/Exhost/Host.antt =====
-- The state of `Host` in converge/exhost/host.go and the accessors of the exception header that
-- lies in linear memory below each thrown object. The trace log and the debug prints are left out.
use duckdb_wasm2go_poc.Base.{
  ℕ, zero, suc, ◌+◌, ◌-◌, ◌*◌, ◌/◌, ◌%◌, Bool, true, false, not, List, [], ◌∷◌, ◌++◌, none, some,
  ◌==◌, if◌then◌else◌, IntMap, Bytes,
}
use duckdb_wasm2go_poc.Exhost.Abi.{ModuleAbi, minus32, plus32}

-- `excRecord`
pub record ExcRecord : Type 0 where
  pub exc : ℕ
  pub typ : ℕ

abbrev pub no_exception : ExcRecord
no_exception = record { exc = 0; typ = 0 }

-- The caught stack has its top first.
pub record Host : Type 0 where
  pub temp_ret0 : ℕ
  pub last : ExcRecord
  pub caught : List ExcRecord
  pub type_ids : IntMap ℕ
  pub next_type : ℕ
  pub uncaught : ℕ
  pub last_throw_msg : Bytes

-- `New`
abbrev pub new_host : Host
new_host = record {
  temp_ret0 = 0;
  last = no_exception;
  caught = [];
  type_ids = λ _. none;
  next_type = 2;
  uncaught = 0;
  last_throw_msg = [];
}

-- How a call ends: it returns, it unwinds with a `thrownPanic`, or with another Go panic.
pub data Outcome {ℓ} (A : Type ℓ) : Type ℓ where
  returned : A → Outcome A
  thrown : ExcRecord → Outcome A
  panicked : Outcome A

-- the four bytes of a word, lowest first
abbrev pub word_bytes : ℕ → Bytes
word_bytes w = w % 256 ∷ (w / 256) % 256 ∷ (w / 65536) % 256 ∷ (w / 16777216) % 256 ∷ []

-- The bytes before the first NUL, and whether there is one.
unfoldable pub before_nul : Bytes → Bytes × Bool
before_nul [] = ([], false)
before_nul (c ∷ cs) =
    let (s, found) = before_nul cs in if c == 0 then ([], true) else (c ∷ s, found)

module _ (abi : ModuleAbi) where
  open abi use {Mod, read_u32, write_u32}

  -- `hdrType`
  unfoldable pub hdr_type : Mod → ℕ → ℕ
  hdr_type m exc = read_u32 m (minus32 exc 20)

  -- `hdrCaught`: the low byte of the flags word
  unfoldable pub hdr_caught : Mod → ℕ → Bool
  hdr_caught m exc = not (read_u32 m (minus32 exc 12) % 256 == 0)

  -- `setHdrCaught`
  unfoldable pub set_hdr_caught : ℕ → Bool → Mod → Mod
  set_hdr_caught exc v m =
      let w = read_u32 m (minus32 exc 12) in
      let cleared = w - w % 256 in write_u32 (minus32 exc 12) (if v then cleared + 1 else cleared) m

  -- `hdrRethrown`: the second byte of the flags word
  unfoldable pub hdr_rethrown : Mod → ℕ → Bool
  hdr_rethrown m exc = not ((read_u32 m (minus32 exc 12) / 256) % 256 == 0)

  -- `setHdrRethrown`
  unfoldable pub set_hdr_rethrown : ℕ → Bool → Mod → Mod
  set_hdr_rethrown exc v m =
      let w = read_u32 m (minus32 exc 12) in
      let cleared = w - (w / 256) % 256 * 256 in
      write_u32 (minus32 exc 12) (if v then cleared + 256 else cleared) m

  -- `incRef`
  unfoldable pub inc_ref : ℕ → Mod → Mod
  inc_ref exc m = elim abi.refcounter [
    | some rc ↦ rc.increment exc m
    | none ↦ write_u32 (minus32 exc 24) (plus32 (read_u32 m (minus32 exc 24)) 1) m
  ]

  -- `decRef`
  unfoldable pub dec_ref : ℕ → Mod → Mod
  dec_ref exc m = elim abi.refcounter [
    | some rc ↦ rc.decrement exc m
    | none ↦ write_u32 (minus32 exc 24) (minus32 (read_u32 m (minus32 exc 24)) 1) m
  ]

  -- the rounds of `cstrU32`, one word each
  unfoldable pub cstr_words : ℕ → Mod → ℕ → Bytes
  unfolding before_nul
  cstr_words zero m ptr = []
  cstr_words (suc rounds) m ptr =
      let (s, found) = before_nul (word_bytes (read_u32 m ptr)) in
      let rest = cstr_words rounds m (plus32 ptr 4) in if found then s else s ++ rest

  -- `cstrU32`: at most 512 bytes
  unfoldable pub cstr_u32 : Mod → ℕ → Bytes
  unfolding cstr_words
  cstr_u32 m ptr = if ptr == 0 then [] else cstr_words 128 m ptr
