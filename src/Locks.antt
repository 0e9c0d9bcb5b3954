-- ===== src/Locks.antt =====
-- The in-process database-file lock registry: converge/wasishim/hostfs_lockreg.go, and its use with
-- flock in converge/wasishim/hostfs_lock_unix.go. The mutex makes each call one step.
pub mod Holders
pub mod Refinement
pub mod Exclusion
mod Tests
use Prim.Native.String.{String}
use text.Mathlib.Text.{◌==◌ as str_eq}
use duckdb_wasm2go_poc.Base.{
  zero, suc, ◌&&◌, ◌==◌, ℕ, Bool, true, false, Option, none, some, if◌then◌else◌, IntMap, insert,
  remove,
}
use duckdb_wasm2go_poc.Base.Int.{ℤ, pos, negsuc, ltb_ℤ, ◌+ℤ◌}

-- `hostLockTable`, `hostLockPath` and `hostLockMode`; an open file is its handle.
pub record Registry : Type 0 where
  pub table : String → Option ℤ
  pub path : IntMap String
  pub mode : IntMap Bool

abbrev pub empty_registry : Registry
empty_registry = record { table = λ _. none; path = λ _. none; mode = λ _. none }

-- `hosteLockConflict`, `hosteLockRdOK` and `hosteLockNotSup`
abbrev pub lock_conflict : ℕ
lock_conflict = 9000

abbrev pub lock_rd_ok : ℕ
lock_rd_ok = 9001

abbrev pub lock_not_sup : ℕ
lock_not_sup = 9002

-- a write and a deletion in `hostLockTable`
abbrev pub put_slot : String → ℤ → (String → Option ℤ) → String → Option ℤ
put_slot k v t j = if str_eq j k then some v else t j

abbrev pub delete_slot : String → (String → Option ℤ) → String → Option ℤ
delete_slot k t j = if str_eq j k then none else t j

-- a read of a Go map: 0 where the key is missing
abbrev pub slot_value : Option ℤ → ℤ
slot_value none = pos 0
slot_value (some n) = n

abbrev pub is_exclusive : Option Bool → Bool
is_exclusive none = false
is_exclusive (some b) = b

-- `hostLockKey`: `eval_symlinks`, `abs` and `clean` are those of the path/filepath package.
unfoldable pub host_lock_key :
    (String → Option String) → (String → Option String) → (String → String) → String → String
host_lock_key eval_symlinks abs clean name =
    let resolved : String = elim (eval_symlinks name) [ some r ↦ r | none ↦ name ] in
    elim (abs resolved) [ some a ↦ a | none ↦ clean resolved ]

-- the entry that `hostLockRegister` makes
unfoldable pub record_lock : String → ℕ → Bool → ℤ → Registry → Registry
record_lock key f exclusive n s = record {
  table = put_slot key n s.table;
  path = insert f key s.path;
  mode = insert f exclusive s.mode;
}

-- `hostLockRegister`, on the canonical path of the file
unfoldable pub host_lock_register : String → ℕ → Bool → Registry → ℕ × Registry
unfolding record_lock
host_lock_register key f true s =
    let n = slot_value (s.table key) in
    elim n [
      | pos zero ↦ (0, record_lock key f true (negsuc 0) s)
      | pos (suc k) ↦ (lock_rd_ok, s)
      | negsuc k ↦ (lock_conflict, s)
    ]
host_lock_register key f false s =
    let n = slot_value (s.table key) in
    if ltb_ℤ n (pos 0) then (lock_conflict, s) else (0, record_lock key f false (n +ℤ pos 1) s)

-- the end of `hostLockUnregister`, for a file that is registered under `key`
unfoldable pub release_slot : String → Bool → (String → Option ℤ) → String → Option ℤ
release_slot key exclusive t =
    let n = slot_value (t key) in
    if exclusive
    then delete_slot key t
    else if ltb_ℤ (pos 1) n
    then put_slot key (n +ℤ negsuc 0) t
    else delete_slot key t

-- `hostLockUnregister`
unfoldable pub host_lock_unregister : ℕ → Registry → Registry
unfolding release_slot
host_lock_unregister f s = elim (s.path f) [
  | none ↦ s
  | some key ↦ record {
    path = remove f s.path;
    mode = remove f s.mode;
    table = release_slot key (is_exclusive (s.mode f)) s.table;
  }
]

-- How a `flock` call ends: it locks, the file system has no locks, or the lock is held elsewhere.
pub data Flock : Type 0 where
  locked unsupported refused : Flock

-- `hostLockFile` of the unix build: `first` is the answer of the first `flock`, `probe` whether the
-- shared lock is then granted.
unfoldable pub host_lock_file : Flock → Bool → String → ℕ → Bool → Registry → ℕ × Registry
host_lock_file first probe key f exclusive s =
    let (code, s') = host_lock_register key f exclusive s in
    let undone = host_lock_unregister f s' in
    if code == 0
    then elim first [
      | locked ↦ (0, s')
      | unsupported ↦ if exclusive then (lock_not_sup, undone) else (0, s')
      | refused ↦ (if exclusive && probe then lock_rd_ok else lock_conflict, undone)
    ]
    else (code, s')
