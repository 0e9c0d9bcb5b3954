-- ===== src/HostFs/Os.antt =====
-- What converge/wasishim/hostfs.go uses of the packages os, syscall and io/fs, as functions on a state
-- of the world. An open file is its handle. Int64 values are bit patterns where they are offsets.
use Prim.Native.String.{String}
use duckdb_wasm2go_poc.Base.{ℕ, Bool, true, false, List, Option, none, some, ◌⊎◌, ◌==◌, Bytes}
use duckdb_wasm2go_poc.Base.Int.{ℤ, sub_ℕ}
use duckdb_wasm2go_poc.Locks.{Flock}

-- A Go error: one that wraps a `syscall.Errno`, or one of the fixed values.
pub data GoError : Type 0 where
  errno : ℕ → GoError
  err_not_exist err_exist err_permission err_eof err_other : GoError

-- The POSIX numbers that package syscall gives the names of.
abbrev pub enoent : ℕ
enoent = 2

abbrev pub eio : ℕ
eio = 5

abbrev pub ebadf : ℕ
ebadf = 9

abbrev pub eacces : ℕ
eacces = 13

abbrev pub efault : ℕ
efault = 14

abbrev pub eexist : ℕ
eexist = 17

abbrev pub einval : ℕ
einval = 22

abbrev pub erange : ℕ
erange = 34

-- `errors.Is(err, fs.ErrNotExist)`
abbrev pub is_not_exist : GoError → Bool
is_not_exist (errno n) = n == enoent
is_not_exist err_not_exist = true
is_not_exist _ = false

-- `errnoOf`; a nil error is none
abbrev pub errno_of : Option GoError → ℕ
errno_of none = 0
errno_of (some (errno n)) = n
errno_of (some err_not_exist) = enoent
errno_of (some err_exist) = eexist
errno_of (some err_permission) = eacces
errno_of (some err_eof) = eio
errno_of (some err_other) = eio

-- a number returned with its sign changed
abbrev pub minus : ℕ → ℤ
minus n = sub_ℕ 0 n

-- The access mode of `os.OpenFile`, and the flags beside it.
pub data Access : Type 0 where
  read_only write_only read_write : Access

pub record OpenFlags : Type 0 where
  pub access : Access
  pub create : Bool
  pub truncate : Bool

pub record FileInfo : Type 0 where
  pub size : ℤ
  pub mtime : ℤ
  pub is_dir : Bool

pub record Os : Type 1 where
  pub World : Type 0
  -- `os.OpenFile`
  pub open_file : Bytes → OpenFlags → ℕ → World → (GoError ⊎ ℕ) × World
  -- the canonical path of an open file
  pub lock_key : ℕ → World → String
  -- what `flock` answers on an open file, and whether the shared lock is granted if it is refused
  pub flock : ℕ → Bool → World → (Flock × Bool) × World
  pub close : ℕ → World → Option GoError × World
  -- `ReadAt`: at most that many bytes from an offset
  pub read_at : ℕ → ℕ → ℕ → World → Bytes × Option GoError
  -- `WriteAt`: how many bytes were written
  pub write_at : ℕ → Bytes → ℕ → World → (ℕ × Option GoError) × World
  pub file_stat : ℕ → World → GoError ⊎ FileInfo
  pub truncate_file : ℕ → ℕ → World → Option GoError × World
  pub sync : ℕ → World → Option GoError × World
  pub stat : Bytes → World → GoError ⊎ FileInfo
  pub remove_path : Bytes → World → Option GoError × World
  pub rename : Bytes → Bytes → World → Option GoError × World
  pub mkdir_all : Bytes → ℕ → World → Option GoError × World
  pub remove_all : Bytes → World → Option GoError × World
  -- names, and whether each is a directory
  pub read_dir : Bytes → World → GoError ⊎ List (Bytes × Bool)
