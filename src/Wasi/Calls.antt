-- ===== src/Wasi/Calls.antt =====
-- The calls of converge/wasishim/fs.go that the compiled module makes, as data, each with the handler
-- that runs it; and the states that calls in any order reach.
use duckdb_wasm2go_poc.Base.{ℕ, ◌≡◌, none, some}
use duckdb_wasm2go_poc.Wasi.Os.{WasiOs, PathOs, InfoOs, PathText}
use duckdb_wasm2go_poc.Wasi.State.{Shim, Reply, Errnos}
use duckdb_wasm2go_poc.Wasi.Transfer.{fd_read, fd_pread, fd_write, fd_pwrite}
use duckdb_wasm2go_poc.Wasi.Files.{
  fd_prestat_get, fd_prestat_dir_name, fd_seek, fd_tell, fd_close, fd_sync, fd_fdstat_get,
  fd_fdstat_set_flags, fd_filestat_get,
}
use duckdb_wasm2go_poc.Wasi.Open.{path_open}
use duckdb_wasm2go_poc.Wasi.Paths.{
  path_filestat_get, path_create_directory, path_unlink_file, path_remove_directory, path_rename,
  path_filestat_set_times,
}
use duckdb_wasm2go_poc.Wasi.Readdir.{fd_readdir}

-- The calls on paths.
pub data PathCall : Type 0 where
  open_at_path : (dirfd path_ptr path_len oflags rights fd_flags ptr : ℕ) → PathCall
  filestat_of_path : (dirfd flags path_ptr path_len buf : ℕ) → PathCall
  create_directory unlink_file remove_directory : (dirfd path_ptr path_len : ℕ) → PathCall
  rename_path : (old_fd old_ptr old_len new_fd new_ptr new_len : ℕ) → PathCall
  set_times : (dirfd path_ptr path_len atim mtim fst_flags : ℕ) → PathCall

-- The calls on descriptors.
pub data FdCall : Type 0 where
  prestat : (fd buf : ℕ) → FdCall
  prestat_name : (fd path_ptr path_len : ℕ) → FdCall
  read_fd write_fd : (fd iovs iovs_len count : ℕ) → FdCall
  pread_fd pwrite_fd : (fd iovs iovs_len offset count : ℕ) → FdCall
  seek_fd : (fd offset whence ptr : ℕ) → FdCall
  tell_fd : (fd ptr : ℕ) → FdCall
  close_fd sync_fd : (fd : ℕ) → FdCall
  fdstat filestat : (fd buf : ℕ) → FdCall
  set_flags : (fd flags : ℕ) → FdCall
  readdir : (fd buf buf_len cookie ptr : ℕ) → FdCall

module _ (os : WasiOs) (nums : Errnos) (text : PathText) (p : PathOs os) (info : InfoOs os) where
  open os use {World}

  abbrev pub path_call : PathCall → Shim World → Reply World
  path_call (open_at_path dirfd path_ptr path_len oflags rights fd_flags ptr) =
      path_open os nums text p info dirfd path_ptr path_len oflags rights fd_flags ptr
  path_call (filestat_of_path dirfd flags path_ptr path_len buf) =
      path_filestat_get os nums text p info dirfd flags path_ptr path_len buf
  path_call (create_directory dirfd path_ptr path_len) =
      path_create_directory os nums text p info dirfd path_ptr path_len
  path_call (unlink_file dirfd path_ptr path_len) =
      path_unlink_file os nums text p info dirfd path_ptr path_len
  path_call (remove_directory dirfd path_ptr path_len) =
      path_remove_directory os nums text p info dirfd path_ptr path_len
  path_call (rename_path old_fd old_ptr old_len new_fd new_ptr new_len) =
      path_rename os nums text p info old_fd old_ptr old_len new_fd new_ptr new_len
  path_call (set_times dirfd path_ptr path_len atim mtim fst_flags) =
      path_filestat_set_times os nums text p info dirfd path_ptr path_len atim mtim fst_flags

  abbrev pub fd_call : FdCall → Shim World → Reply World
  fd_call (prestat fd buf) = fd_prestat_get fd buf
  fd_call (prestat_name fd path_ptr path_len) = fd_prestat_dir_name fd path_ptr path_len
  fd_call (read_fd fd iovs iovs_len count) = fd_read os nums fd iovs iovs_len count
  fd_call (write_fd fd iovs iovs_len count) = fd_write os nums fd iovs iovs_len count
  fd_call (pread_fd fd iovs iovs_len offset count) = fd_pread os nums fd iovs iovs_len offset count
  fd_call (pwrite_fd fd iovs iovs_len offset count) =
      fd_pwrite os nums fd iovs iovs_len offset count
  fd_call (seek_fd fd offset whence ptr) = fd_seek os nums info fd offset whence ptr
  fd_call (tell_fd fd ptr) = fd_tell os nums info fd ptr
  fd_call (close_fd fd) = fd_close os nums info fd
  fd_call (sync_fd fd) = fd_sync os nums info fd
  fd_call (fdstat fd buf) = fd_fdstat_get os nums info fd buf
  fd_call (filestat fd buf) = fd_filestat_get os nums info fd buf
  fd_call (set_flags fd flags) = fd_fdstat_set_flags os nums info fd flags
  fd_call (readdir fd buf buf_len cookie ptr) =
      fd_readdir os nums text p info fd buf buf_len cookie ptr

  -- the states that calls reach; before the first one there is no table
  pub data Reach : Shim World → Type 0 where
    unused : (s : Shim World) → s.fs.fds ≡ none → Reach s
    after_path :
        {s s' : Shim World} {code : ℕ} (c : PathCall)
        → Reach s
        → path_call c s ≡ some (code, s')
        → Reach s'
    after_fd :
        {s s' : Shim World} {code : ℕ} (c : FdCall)
        → Reach s
        → fd_call c s ≡ some (code, s')
        → Reach s'
