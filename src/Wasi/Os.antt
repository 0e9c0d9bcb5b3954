-- ===== src/Wasi/Os.antt =====
-- What converge/wasishim/fs.go uses of the packages os, io, time and path/filepath, as functions on
-- the state of the world. An open file is its handle; uint64 values are bit patterns.
use duckdb_wasm2go_poc.Base.{ℕ, Bool, List, Option, ◌⊎◌, Bytes}
use duckdb_wasm2go_poc.HostFs.Os.{GoError}

-- The bits of an `os.FileMode` that the code reads.
pub record FileMode : Type 0 where
  pub dir : Bool
  pub symlink : Bool
  pub device : Bool
  pub char_device : Bool
  pub socket : Bool
  pub regular : Bool

-- The arguments of `os.OpenFile`.
pub record OpenMode : Type 0 where
  pub read_write : Bool
  pub create : Bool
  pub excl : Bool
  pub trunc : Bool
  pub append : Bool

-- `io.SeekStart`, `io.SeekCurrent` and `io.SeekEnd`
pub data Whence : Type 0 where
  seek_start seek_current seek_end : Whence

pub record WasiOs : Type 1 where
  pub World : Type 0
  pub Time : Type 0
  -- `os.IsNotExist`, `os.IsExist` and `os.IsPermission`
  pub is_missing : GoError → Bool
  pub is_present : GoError → Bool
  pub is_denied : GoError → Bool
  pub unix_nano : Time → ℕ
  pub from_nanos : ℕ → Time
  pub now : World → Time
  -- a section reader of a file from an offset, and a read of at most that many bytes
  pub Section : Type 0
  pub new_section : ℕ → ℕ → Section
  pub read_section : ℕ → Section × World → (Bytes × Option GoError) × Section × World
  pub read_file : ℕ → ℕ → World → (Bytes × Option GoError) × World
  pub write_file : ℕ → Bytes → World → (ℕ × Option GoError) × World
  pub write_file_at : ℕ → Bytes → ℕ → World → (ℕ × Option GoError) × World
  -- the writers of standard output and error
  pub write_std : ℕ → Bytes → World → (ℕ × Option GoError) × World
  pub seek : ℕ → ℕ → Whence → World → (GoError ⊎ ℕ) × World
  pub close_file : ℕ → World → Option GoError × World
  pub sync_file : ℕ → World → Option GoError × World

-- `os.FileInfo`; `sys` has the device, inode and link count where the platform gives them.
pub record Stat (os : WasiOs) : Type 0 where
  pub mode : FileMode
  pub size : ℕ
  pub mod_time : os.Time
  pub sys : Option (ℕ × ℕ × ℕ)

-- `os.DirEntry`
pub record DirEntry : Type 0 where
  pub name : Bytes
  pub is_dir : Bool
  pub is_symlink : Bool
  pub handle : ℕ

-- The functions on host paths, and on what they give.
pub record PathOs (os : WasiOs) : Type 0 where
  pub stat : Bytes → os.World → GoError ⊎ Stat os
  pub lstat : Bytes → os.World → GoError ⊎ Stat os
  pub open_dir : Bytes → os.World → (GoError ⊎ ℕ) × os.World
  pub open_file : Bytes → OpenMode → os.World → (GoError ⊎ ℕ) × os.World
  pub mkdir : Bytes → os.World → Option GoError × os.World
  pub remove : Bytes → os.World → Option GoError × os.World
  pub rename : Bytes → Bytes → os.World → Option GoError × os.World
  pub chtimes : Bytes → os.Time → os.Time → os.World → Option GoError × os.World
  pub read_dir : Bytes → os.World → GoError ⊎ List DirEntry

-- `Stat` of an open file, and `Info` of an entry
pub record InfoOs (os : WasiOs) : Type 0 where
  pub file_info : ℕ → os.World → GoError ⊎ Stat os
  pub entry_info : DirEntry → os.World → GoError ⊎ Stat os

-- Of the packages path and path/filepath, with "/" as the separator.
pub record PathText : Type 0 where
  pub path_clean : Bytes → Bytes
  pub file_clean : Bytes → Bytes
  pub join : Bytes → Bytes → Bytes
  pub dir : Bytes → Bytes
  pub abs : Bytes → Option Bytes
