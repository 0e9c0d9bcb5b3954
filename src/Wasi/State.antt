-- ===== src/Wasi/State.antt =====
-- The state of a `Shim` that converge/wasishim/fs.go keeps, the error numbers, and the helpers that
-- read and write linear memory. None as a reply is a Go panic.
use duckdb_wasm2go_poc.Base.{
  ℕ, zero, suc, ◌+◌, ◌^◌, ◌/◌, ◌%◌, Bool, true, false, ◌&&◌, ◌||◌, List, [], ◌∷◌, Option, none,
  some, ltb, ◌==◌, if◌then◌else◌, IntMap, insert, Bytes, length,
}
use duckdb_wasm2go_poc.Base.Text.{codes}
use duckdb_wasm2go_poc.Exhost.Abi.{minus32, plus32}
use duckdb_wasm2go_poc.HostFs.Os.{GoError, errno, enoent, eacces, eexist, einval}
use duckdb_wasm2go_poc.HostFs.Memory.{negative32, slice_memory, overwrite}
use duckdb_wasm2go_poc.Wasi.Os.{WasiOs, DirEntry, PathText}

-- `fdEntry`; the entries of a directory are none until they are loaded
pub record FdEntry : Type 0 where
  pub file : Option ℕ
  pub host_path : Bytes
  pub is_preopen : Bool
  pub is_dir : Bool
  pub append_f : Bool
  pub dir_entries : Option (List DirEntry)

-- `fds`, none before the first use, `nextFd`, and the preopened directory
pub record Fs : Type 0 where
  pub fds : Option (IntMap FdEntry)
  pub next_fd : ℕ
  pub preopen_name : Bytes
  pub preopen_root : Bytes

pub record Shim (W : Type 0) : Type 0 where
  pub fs : Fs
  pub mem : Bytes
  pub world : W

abbrev pub no_bytes : Bytes → Bool
no_bytes [] = true
no_bytes (c ∷ cs) = false

abbrev or_slash : Bytes → Bytes
or_slash s = if no_bytes s then codes "/" else s

abbrev pub preopen_fd : ℕ
preopen_fd = 3

-- `SetPreopen`
unfoldable pub set_preopen : PathText → Bytes → Bytes → Fs → Fs
set_preopen text wasi_name host_root s =
    let root = or_slash host_root in
    record {
      fds = none;
      next_fd = s.next_fd;
      preopen_name = or_slash wasi_name;
      preopen_root = elim (text.abs root) [ some a ↦ a | none ↦ root ];
    }

-- the entry of the preopened directory
abbrev pub preopen_entry : Bytes → FdEntry
preopen_entry root = record {
  file = none;
  host_path = root;
  is_preopen = true;
  is_dir = true;
  append_f = false;
  dir_entries = none;
}

-- `fsEnsure`
unfoldable pub fs_ensure : Fs → Fs
fs_ensure s = elim s.fds [
  | some t ↦ s
  | none ↦
      let root = or_slash s.preopen_root in
      record {
        fds = some (insert preopen_fd (preopen_entry root) (λ _. none));
        next_fd = preopen_fd + 1;
        preopen_name = or_slash s.preopen_name;
        preopen_root = root;
      }
]

abbrev pub table : Option (IntMap FdEntry) → IntMap FdEntry
table none = λ _. none
table (some t) = t

-- `lookup`, once the table is there
unfoldable pub entry_of : ℕ → Fs → Option FdEntry
entry_of fd s = table s.fds fd

-- a change of the table
unfoldable pub with_entries : (IntMap FdEntry → IntMap FdEntry) → Fs → Fs
with_entries change s = record s { fds = some (change (table s.fds)) }

-- `allocFd`, once the table is there
unfoldable pub alloc_fd : FdEntry → Fs → ℕ × Fs
unfolding with_entries
alloc_fd e s =
    (s.next_fd, with_entries (insert s.next_fd e) (record s { next_fd = plus32 s.next_fd 1 }))

-- the WASI error numbers
abbrev pub wasi_success : ℕ
wasi_success = 0

abbrev pub wasi_eacces : ℕ
wasi_eacces = 2

abbrev pub wasi_ebadf : ℕ
wasi_ebadf = 8

abbrev pub wasi_eexist : ℕ
wasi_eexist = 20

abbrev pub wasi_einval : ℕ
wasi_einval = 28

abbrev pub wasi_eio : ℕ
wasi_eio = 29

abbrev pub wasi_eisdir : ℕ
wasi_eisdir = 31

abbrev pub wasi_enametoolong : ℕ
wasi_enametoolong = 37

abbrev pub wasi_enoent : ℕ
wasi_enoent = 44

abbrev pub wasi_enotdir : ℕ
wasi_enotdir = 54

abbrev pub wasi_enotempty : ℕ
wasi_enotempty = 55

abbrev pub wasi_eperm : ℕ
wasi_eperm = 63

abbrev pub wasi_enotcapable : ℕ
wasi_enotcapable = 76

-- `asErrno`
abbrev pub as_errno : GoError → Option ℕ
as_errno (errno n) = some n
as_errno _ = none

-- the numbers that package syscall gives EPERM, ENOTDIR, EISDIR and ENOTEMPTY on this platform
pub record Errnos : Type 0 where
  pub eperm : ℕ
  pub enotdir : ℕ
  pub eisdir : ℕ
  pub enotempty : ℕ

-- the inner switch of `errno`
unfoldable pub errno_number : Errnos → ℕ → ℕ
errno_number nums e =
    if e == enoent
    then wasi_enoent
    else if e == eexist
    then wasi_eexist
    else if e == eacces
    then wasi_eacces
    else if e == nums.eperm
    then wasi_eperm
    else if e == nums.eisdir
    then wasi_eisdir
    else if e == nums.enotdir
    then wasi_enotdir
    else if e == nums.enotempty
    then wasi_enotempty
    else if e == einval
    then wasi_einval
    else wasi_eio

abbrev numbered : Errnos → Option ℕ → ℕ
numbered nums none = wasi_eio
numbered nums (some e) = errno_number nums e

-- `errno`; a nil error is none
unfoldable pub wasi_errno : WasiOs → Errnos → Option GoError → ℕ
unfolding errno_number
wasi_errno os nums none = wasi_success
wasi_errno os nums (some e) =
    if os.is_missing e
    then wasi_enoent
    else if os.is_present e
    then wasi_eexist
    else if os.is_denied e
    then wasi_eacces
    else numbered nums (as_errno e)

-- `readStr`
unfoldable pub read_str : Bytes → ℕ → ℕ → Option Bytes
unfolding slice_memory
read_str mem ptr n =
    let left = minus32 (length mem % 2 ^ 32) ptr in
    let over = ltb (length mem) (ptr + n) in
    let count = if over then left else n in
    let end = plus32 ptr count in
    if ptr == 0 || negative32 ptr || n == 0 || negative32 n
    then some []
    else if over && (left == 0 || negative32 left)
    then some []
    else if negative32 end
    then none
    else slice_memory mem ptr end

-- a number in little-endian order
unfoldable pub le_bytes : ℕ → ℕ → Bytes
le_bytes zero v = []
le_bytes (suc n) v = v % 256 ∷ le_bytes n (v / 256)

-- `putU32` and `putU64`, by the count of bytes
unfoldable pub put_le : ℕ → ℕ → ℕ → Bytes → Option Bytes
unfolding le_bytes
put_le n ptr v mem =
    if ptr == 0
    then some mem
    else if negative32 ptr || ltb (length mem) (ptr + n)
    then none
    else some (overwrite ptr (le_bytes n v) mem)

-- a struct stored field by field, at an int32 address
unfoldable pub store : ℕ → Bytes → Bytes → Option Bytes
store ptr bytes mem =
    if ltb (2 ^ 31) (ptr + length bytes) || ltb (length mem) (ptr + length bytes)
    then none
    else some (overwrite ptr bytes mem)

-- `copy(mem[lo:hi], bytes)`, for no more bytes than that
unfoldable pub copy_range : ℕ → ℕ → Bytes → Bytes → Option Bytes
copy_range lo hi bytes mem =
    if negative32 lo || negative32 hi || ltb hi lo || ltb (length mem) hi
    then none
    else some (overwrite lo bytes mem)

-- A call: its error number, and the state that it leaves.
abbrev pub Reply : Type 0 → Type 0
Reply W = Option (ℕ × Shim W)

-- a reply beside a change of memory that may panic
abbrev pub with_memory : {W : Type 0} → ℕ → Shim W → Option Bytes → Reply W
with_memory code s none = none
with_memory code s (some mem) = some (code, record s { mem = mem })
