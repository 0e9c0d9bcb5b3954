-- ===== src/Wasi/Descriptors/PathReplies.antt =====
-- The calls on paths of converge/wasishim/fs.go keep the table of descriptors in order.
use duckdb_wasm2go_poc.Base.{
  ℕ, ◌≡◌, ◌⊎◌, Bool, true, false, not, Option, none, some, inl, inr, Bytes, refl, if◌then◌else◌,
}
use duckdb_wasm2go_poc.HostFs.Os.{GoError}
use duckdb_wasm2go_poc.HostFs.Open.{flag}
use duckdb_wasm2go_poc.Wasi.Os.{WasiOs, PathOs, InfoOs, PathText, Stat}
use duckdb_wasm2go_poc.Wasi.State.{FdEntry, Shim, Errnos, entry_of, alloc_fd, read_str}
use duckdb_wasm2go_poc.Wasi.Resolve.{within, ensured}
use duckdb_wasm2go_poc.Wasi.Open.{
  wasi_open_mode, opened_entry, give_entry, dir_reply, is_dir_info, directory_reply, file_reply,
  open_host, path_open,
}
use duckdb_wasm2go_poc.Wasi.Paths.{
  done_with, path_filestat_get, path_create_directory, remove_reply, path_unlink_file,
  path_remove_directory, rename_reply, path_rename, path_filestat_set_times,
}
use duckdb_wasm2go_poc.Wasi.Calls.{
  PathCall, open_at_path, filestat_of_path, create_directory, unlink_file, remove_directory,
  rename_path, set_times, path_call,
}
use duckdb_wasm2go_poc.Wasi.Descriptors.{
  TableOk, EntryOk, Leaves, fs_ensure-TableOk, insert-TableOk,
}
use duckdb_wasm2go_poc.Wasi.Descriptors.Replies.{
  panic-Leaves, reply-Leaves, with_memory-Leaves, option-Leaves, if-Leaves, at_path-Leaves,
}
use duckdb_wasm2go_poc.Wasi.Descriptors.FdReplies.{filestat_reply-Leaves}

module _ (os : WasiOs) (nums : Errnos) (text : PathText) (p : PathOs os) (info : InfoOs os) where
  open os use {World}

  abbrev IsInside : Shim World → Bytes → Type 0
  IsInside s host = within (text.file_clean s.fs.preopen_root) host ≡ true

  opened_entry-EntryOk :
      (root host : Bytes) (f : ℕ) (is_dir append : Bool)
      → within (text.file_clean root) host ≡ true
      → EntryOk text root (opened_entry f host is_dir append)
  unfolding EntryOk
  opened_entry-EntryOk root host f is_dir append inside = inr (refl, (f, refl), inside)

  give_entry-Leaves :
      (ptr : ℕ) (e : FdEntry) (s : Shim World)
      → EntryOk text s.fs.preopen_root e
      → TableOk text s.fs
      → Leaves text (give_entry os nums text p info ptr e s)
  unfolding give_entry alloc_fd TableOk entry_of
  give_entry-Leaves ptr e s e_ok ok =
      with_memory-Leaves text _ (record s { fs = (alloc_fd e s.fs).1 }) _
        (insert-TableOk text s.fs.next_fd e (record s.fs { next_fd = (alloc_fd e s.fs).1.next_fd })
          e_ok ok)

  dir_reply-Leaves :
      (ptr : ℕ) (host : Bytes) (s : Shim World) (r : (GoError ⊎ ℕ) × World)
      → IsInside s host
      → TableOk text s.fs
      → Leaves text (dir_reply os nums text p info ptr host s r)
  dir_reply-Leaves ptr host s (inl err, w) inside ok =
      reply-Leaves text _ (record s { world = w }) ok
  dir_reply-Leaves ptr host s (inr f, w) inside ok =
      give_entry-Leaves ptr _ (record s { world = w })
        (opened_entry-EntryOk s.fs.preopen_root host f true false inside) ok

  directory_reply-Leaves :
      (ptr : ℕ) (host : Bytes) (s : Shim World) (r : GoError ⊎ Stat os)
      → IsInside s host
      → TableOk text s.fs
      → Leaves text (directory_reply os nums text p info ptr host s r)
  directory_reply-Leaves ptr host s (inl err) inside ok = reply-Leaves text _ s ok
  directory_reply-Leaves ptr host s (inr fi) inside ok =
      if-Leaves text fi.mode.dir _ _ (dir_reply-Leaves ptr host s _ inside ok)
        (reply-Leaves text _ s ok)

  file_reply-Leaves :
      (ptr : ℕ) (host : Bytes) (append : Bool) (s : Shim World) (r : (GoError ⊎ ℕ) × World)
      → IsInside s host
      → TableOk text s.fs
      → Leaves text (file_reply os nums text p info ptr host append s r)
  file_reply-Leaves ptr host append s (inl err, w) inside ok =
      if-Leaves text (is_dir_info os nums text p info (p.stat host w)) _ _
        (dir_reply-Leaves ptr host (record s { world = w }) _ inside ok)
        (reply-Leaves text _ (record s { world = w }) ok)
  file_reply-Leaves ptr host append s (inr f, w) inside ok =
      give_entry-Leaves ptr _ (record s { world = w })
        (opened_entry-EntryOk s.fs.preopen_root host f _ append inside) ok

  open_host-Leaves :
      (oflags rights fd_flags ptr : ℕ) (host : Bytes) (s : Shim World)
      → IsInside s host
      → TableOk text s.fs
      → Leaves text (open_host os nums text p info oflags rights fd_flags ptr host s)
  unfolding open_host
  open_host-Leaves oflags rights fd_flags ptr host s inside ok =
      if-Leaves text (flag 1 oflags) _ _ (directory_reply-Leaves ptr host s _ inside ok)
        (file_reply-Leaves ptr host (wasi_open_mode oflags rights fd_flags).append s _ inside ok)

  done_with-Leaves :
      (s : Shim World) (r : Option GoError × World)
      → TableOk text s.fs
      → Leaves text (done_with os nums text p info s r)
  done_with-Leaves s (err, w) ok = reply-Leaves text _ (record s { world = w }) ok

  remove_reply-Leaves :
      (wants_dir : Bool) (refused : ℕ) (host : Bytes) (s : Shim World) (r : GoError ⊎ Stat os)
      → TableOk text s.fs
      → Leaves text (remove_reply os nums text p info wants_dir refused host s r)
  remove_reply-Leaves wants_dir refused host s (inl err) ok = reply-Leaves text _ s ok
  remove_reply-Leaves wants_dir refused host s (inr fi) ok =
      if-Leaves text (if wants_dir then not fi.mode.dir else fi.mode.dir) _ _
        (reply-Leaves text _ s ok) (done_with-Leaves s _ ok)

  rename_reply-Leaves :
      (s : Shim World) (a b : Option Bytes)
      → TableOk text s.fs
      → Leaves text (rename_reply os nums text p info s a b)
  rename_reply-Leaves s (some a) (some b) ok = done_with-Leaves s _ ok
  rename_reply-Leaves s (some a) none ok = reply-Leaves text _ s ok
  rename_reply-Leaves s none b ok = reply-Leaves text _ s ok

  pub path_call-Leaves :
      (c : PathCall) (s : Shim World)
      → TableOk text s.fs
      → Leaves text (path_call os nums text p info c s)
  unfolding path_open path_filestat_get path_create_directory path_unlink_file path_remove_directory
      path_rename path_filestat_set_times
  path_call-Leaves (open_at_path dirfd path_ptr path_len oflags rights fd_flags ptr) s ok =
      at_path-Leaves text dirfd path_ptr path_len _ s ok
        (λ host inside ok'. open_host-Leaves oflags rights fd_flags ptr host (ensured s) inside ok')
  path_call-Leaves (filestat_of_path dirfd flags path_ptr path_len buf) s ok =
      at_path-Leaves text dirfd path_ptr path_len _ s ok
        (λ host inside ok'. filestat_reply-Leaves os nums text info buf _ (ensured s) ok')
  path_call-Leaves (create_directory dirfd path_ptr path_len) s ok =
      at_path-Leaves text dirfd path_ptr path_len _ s ok
        (λ host inside ok'. done_with-Leaves (ensured s) _ ok')
  path_call-Leaves (unlink_file dirfd path_ptr path_len) s ok =
      at_path-Leaves text dirfd path_ptr path_len _ s ok
        (λ host inside ok'. remove_reply-Leaves false _ host (ensured s) _ ok')
  path_call-Leaves (remove_directory dirfd path_ptr path_len) s ok =
      at_path-Leaves text dirfd path_ptr path_len _ s ok
        (λ host inside ok'. remove_reply-Leaves true _ host (ensured s) _ ok')
  path_call-Leaves (rename_path old_fd old_ptr old_len new_fd new_ptr new_len) s ok =
      option-Leaves text (read_str s.mem old_ptr old_len) _ _ (panic-Leaves text) (λ old read.
        option-Leaves text (read_str s.mem new_ptr new_len) _ _ (panic-Leaves text)
          (λ new read'. rename_reply-Leaves (ensured s) _ _ (fs_ensure-TableOk text s.fs ok)))
  path_call-Leaves (set_times dirfd path_ptr path_len atim mtim fst_flags) s ok =
      at_path-Leaves text dirfd path_ptr path_len _ s ok
        (λ host inside ok'. done_with-Leaves (ensured s) _ ok')
