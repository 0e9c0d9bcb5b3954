-- ===== src/Wasi/Open.antt =====
-- `Xpath_open` of converge/wasishim/fs.go.
use duckdb_wasm2go_poc.Base.{
  ℕ, Bool, true, false, ◌||◌, none, some, ◌⊎◌, inl, inr, if◌then◌else◌, Bytes,
}
use duckdb_wasm2go_poc.HostFs.Os.{GoError}
use duckdb_wasm2go_poc.HostFs.Open.{flag}
use duckdb_wasm2go_poc.Wasi.Os.{WasiOs, OpenMode, Stat, PathOs, InfoOs, PathText}
use duckdb_wasm2go_poc.Wasi.State.{
  FdEntry, Shim, Reply, Errnos, alloc_fd, wasi_errno, put_le, with_memory, wasi_success,
  wasi_enotdir,
}
use duckdb_wasm2go_poc.Wasi.Resolve.{at_path}

-- oflagCreat is bit 0, oflagDirectory 1, oflagExcl 2, oflagTrunc 3; of the rights rightFdWrite is bit
-- 6, rightFdAllocate 8 and rightFdFilestatSetSize 22; fdflagAppend is bit 0
unfoldable pub wasi_open_mode : ℕ → ℕ → ℕ → OpenMode
wasi_open_mode oflags rights fd_flags = record {
  read_write =
      flag 6 rights
      || flag 22 rights
      || flag 8 rights
      || flag 0 oflags
      || flag 3 oflags
      || flag 0 fd_flags;
  create = flag 0 oflags;
  excl = flag 2 oflags;
  trunc = flag 3 oflags;
  append = flag 0 fd_flags;
}

-- the entry of a file or directory that was opened
abbrev pub opened_entry : ℕ → Bytes → Bool → Bool → FdEntry
opened_entry f host is_dir append = record {
  file = some f;
  host_path = host;
  is_preopen = false;
  is_dir = is_dir;
  append_f = append;
  dir_entries = none;
}

module _ (os : WasiOs) (nums : Errnos) (text : PathText) (p : PathOs os) (info : InfoOs os) where
  open os use {World}

  -- a new descriptor, written to memory
  unfoldable pub give_entry : ℕ → FdEntry → Shim World → Reply World
  give_entry ptr e s =
      let (fd, fs') = alloc_fd e s.fs in
      with_memory wasi_success (record s { fs = fs' }) (put_le 4 ptr fd s.mem)

  -- a directory as a handle
  abbrev pub dir_reply : ℕ → Bytes → Shim World → (GoError ⊎ ℕ) × World → Reply World
  dir_reply ptr host s (inl err, w) = some (wasi_errno os nums (some err), record s { world = w })
  dir_reply ptr host s (inr f, w) =
      give_entry ptr (opened_entry f host true false) (record s { world = w })

  abbrev pub is_dir_info : GoError ⊎ Stat os → Bool
  is_dir_info (inl err) = false
  is_dir_info (inr fi) = fi.mode.dir

  -- the branch of O_DIRECTORY
  abbrev pub directory_reply : ℕ → Bytes → Shim World → GoError ⊎ Stat os → Reply World
  directory_reply ptr host s (inl err) = some (wasi_errno os nums (some err), s)
  directory_reply ptr host s (inr fi) =
      let opened = dir_reply ptr host s (p.open_dir host s.world) in
      if fi.mode.dir then opened else some (wasi_enotdir, s)

  -- the rest: an error is tried again as a directory
  abbrev pub file_reply : ℕ → Bytes → Bool → Shim World → (GoError ⊎ ℕ) × World → Reply World
  file_reply ptr host append s (inl err, w) =
      let again = dir_reply ptr host (record s { world = w }) (p.open_dir host w) in
      if is_dir_info (p.stat host w)
      then again
      else some (wasi_errno os nums (some err), record s { world = w })
  file_reply ptr host append s (inr f, w) =
      give_entry ptr (opened_entry f host (is_dir_info (info.file_info f w)) append)
        (record s { world = w })

  -- `Xpath_open` on a host path
  unfoldable pub open_host : ℕ → ℕ → ℕ → ℕ → Bytes → Shim World → Reply World
  unfolding give_entry
  open_host oflags rights fd_flags ptr host s =
      let dir = directory_reply ptr host s (p.stat host s.world) in
      let mode = wasi_open_mode oflags rights fd_flags in
      let file = file_reply ptr host mode.append s (p.open_file host mode s.world) in
      if flag 1 oflags then dir else file

  -- `Xpath_open`
  unfoldable pub path_open : ℕ → ℕ → ℕ → ℕ → ℕ → ℕ → ℕ → Shim World → Reply World
  path_open dirfd path_ptr path_len oflags rights fd_flags ptr =
      at_path text dirfd path_ptr path_len (open_host oflags rights fd_flags ptr)
