-- ===== src/HostFs/Open.antt =====
-- `Xhost_open` and `Xhost_close` of converge/wasishim/hostfs.go. None is a Go panic.
use duckdb_wasm2go_poc.Base.{
  ℕ, ◌-◌, ◌^◌, ◌/◌, ◌%◌, Bool, true, false, ◌&&◌, ◌||◌, [], ◌∷◌, Option, none, some, ◌⊎◌, inl, inr,
  ◌==◌, if◌then◌else◌, Bytes,
}
use duckdb_wasm2go_poc.Base.Int.{ℤ, pos}
use duckdb_wasm2go_poc.Locks.{host_lock_register, host_lock_file}
use duckdb_wasm2go_poc.HostFs.Os.{
  Os, GoError, read_only, write_only, read_write, OpenFlags, errno_of, minus, einval, ebadf,
}
use duckdb_wasm2go_poc.HostFs.Memory.{host_string, negative32}
use duckdb_wasm2go_poc.HostFs.State.{Handles, host_lookup, host_alloc_fd, forget}

-- whether bit `k` of the flags is set
abbrev pub flag : ℕ → ℕ → Bool
flag k flags = (flags / 2 ^ k) % 2 == 1

-- the arguments of `os.OpenFile`: hostoRead is bit 0, hostoWrite 1, hostoCreate 2, hostoTrunc 3
unfoldable pub open_flags : ℕ → OpenFlags
open_flags flags = record {
  access =
      if flag 1 flags && flag 0 flags
      then read_write
      else if flag 1 flags
      then write_only
      else read_only;
  create = flag 2 flags;
  truncate = flag 3 flags;
}

-- hostoPrivate is bit 4: 0600, else 0644
abbrev pub permissions : ℕ → ℕ
permissions flags = if flag 4 flags then 384 else 420

-- hostoRdLock is bit 5, hostoWrLock bit 6
abbrev pub wants_lock : ℕ → Bool
wants_lock flags = flag 5 flags || flag 6 flags

abbrev pub is_empty_path : Bytes → Bool
is_empty_path [] = true
is_empty_path (c ∷ cs) = false

-- a descriptor as an int64
abbrev pub signed32 : ℕ → ℤ
signed32 n = if negative32 n then minus (2 ^ 32 - n) else pos n

module _ (os : Os) where
  open os use {World, open_file, lock_key, flock, close}

  -- the end of `Xhost_open`
  unfoldable pub give_fd : ℕ → Handles → World → ℤ × Handles × World
  give_fd f h w = let (fd, h') = host_alloc_fd f h in (signed32 fd, h', w)

  -- `hostLockFile` on the file, which calls flock only if the registry has room
  unfoldable pub lock_file : ℕ → Bool → Handles → World → ℕ × Handles × World
  lock_file f exclusive h w =
      let ((first, probe), w') = flock f exclusive w in
      let (code, locks') = host_lock_file first probe (lock_key f w) f exclusive h.locks in
      let asked = (host_lock_register (lock_key f w) f exclusive h.locks).0 == 0 in
      (code, record h { locks = locks' }, if asked then w' else w)

  -- the rest of `Xhost_open`, once the file is open
  unfoldable pub opened : ℕ → ℕ → Handles → World → ℤ × Handles × World
  unfolding lock_file give_fd
  opened flags f h w =
      let (code, h', w') = lock_file f (flag 6 flags) h w in
      if wants_lock flags
      then if code == 0 then give_fd f h' w' else (minus code, h', (close f w').1)
      else give_fd f h w

  abbrev pub open_result : ℕ → (GoError ⊎ ℕ) × World → Handles → ℤ × Handles × World
  open_result flags (inl err, w) h = (minus (errno_of (some err)), h, w)
  open_result flags (inr f, w) h = opened flags f h w

  -- `Xhost_open` on a path
  unfoldable pub open_path : Bytes → ℕ → Handles → World → ℤ × Handles × World
  unfolding opened
  open_path path flags h w =
      if is_empty_path path
      then (minus einval, h, w)
      else open_result flags (open_file path (open_flags flags) (permissions flags) w) h

  -- `Xhost_open`
  unfoldable pub host_open : Bytes → ℕ → ℕ → ℕ → Handles → World → Option (ℤ × Handles × World)
  unfolding open_path
  host_open mem ptr len flags h w = elim (host_string mem ptr len) [
    | none ↦ none
    | some path ↦ some (open_path path flags h w)
  ]

  -- `Xhost_close`
  unfoldable pub host_close : ℕ → Handles → World → ℤ × Handles × World
  host_close fd h w = elim (host_lookup fd h) [
    | none ↦ (minus ebadf, h, w)
    | some f ↦ let (err, w') = close f w in (minus (errno_of err), forget fd f h, w')
  ]
