-- ===== src/Wasi/Descriptors/Steps.antt =====
-- Every call of converge/wasishim/fs.go keeps the table of descriptors in order.
use duckdb_wasm2go_poc.Base.{
  ℕ, ◌≡◌, ◌⊎◌, ◌==◌, ◌%◌, Bool, List, Option, none, some, inl, inr, Bytes, insert, remove, leb, ◌^◌,
}
use duckdb_wasm2go_poc.HostFs.Os.{GoError}
use duckdb_wasm2go_poc.Wasi.Os.{WasiOs, PathOs, InfoOs, PathText, DirEntry}
use duckdb_wasm2go_poc.Wasi.State.{
  FdEntry, Shim, Reply, Errnos, fs_ensure, entry_of, with_entries, wasi_errno,
}
use duckdb_wasm2go_poc.Wasi.Resolve.{ensured}
use duckdb_wasm2go_poc.Wasi.Files.{close_entry, fd_close, fd_fdstat_set_flags}
use duckdb_wasm2go_poc.Wasi.Readdir.{list_from_cookie, count_reply, load, fd_readdir}
use duckdb_wasm2go_poc.Wasi.Calls.{
  FdCall, Reach, fd_call, prestat, prestat_name, read_fd, write_fd, pread_fd, pwrite_fd, seek_fd,
  tell_fd, close_fd, sync_fd, fdstat, filestat, set_flags, readdir, unused, after_path, after_fd,
}
use duckdb_wasm2go_poc.Wasi.Descriptors.{
  TableOk, EntryOk, Leaves, fs_ensure-TableOk, insert-TableOk, remove-TableOk,
}
use duckdb_wasm2go_poc.Wasi.Descriptors.Replies.{
  panic-Leaves, reply-Leaves, with_memory-Leaves, option-Leaves, if-Leaves, fd_prestat_get-Leaves,
  fd_prestat_dir_name-Leaves,
}
use duckdb_wasm2go_poc.Wasi.Descriptors.FdReplies.{
  fd_read-Leaves, fd_pread-Leaves, fd_write-Leaves, fd_pwrite-Leaves, fd_seek-Leaves,
  fd_tell-Leaves, fd_sync-Leaves, fd_fdstat_get-Leaves, fd_filestat_get-Leaves,
}
use duckdb_wasm2go_poc.Wasi.Descriptors.PathReplies.{path_call-Leaves}

module _ (os : WasiOs) (nums : Errnos) (text : PathText) (p : PathOs os) (info : InfoOs os) where
  open os use {World}

  entry-EntryOk :
      (fd : ℕ) (e : FdEntry) (s : Shim World)
      → TableOk text (fs_ensure s.fs)
      → entry_of fd (fs_ensure s.fs) ≡ some e
      → EntryOk text (fs_ensure s.fs).preopen_root e
  unfolding TableOk
  entry-EntryOk fd e s ok at = ok fd e at

  close_entry-Leaves :
      (fd : ℕ) (f : Option ℕ) (s : Shim World)
      → TableOk text s.fs
      → Leaves text (close_entry os nums info fd f s)
  close_entry-Leaves fd none s ok =
      reply-Leaves text _ (record s { fs = with_entries (remove fd) s.fs })
        (remove-TableOk text fd s.fs ok)
  close_entry-Leaves fd (some f) s ok =
      reply-Leaves text _
        (record s { fs = with_entries (remove fd) s.fs; world = (os.close_file f s.world).1 })
        (remove-TableOk text fd s.fs ok)

  fd_close-Leaves :
      (fd : ℕ) (s : Shim World) → TableOk text s.fs → Leaves text (fd_close os nums info fd s)
  unfolding fd_close
  fd_close-Leaves fd s ok =
      let ok' = fs_ensure-TableOk text s.fs ok in
      option-Leaves text (entry_of fd (fs_ensure s.fs)) _ _ (reply-Leaves text _ (ensured s) ok')
        (λ e at.
          if-Leaves text e.is_preopen _ _ (close_entry-Leaves fd none (ensured s) ok')
            (close_entry-Leaves fd e.file (ensured s) ok'))

  -- an entry with other flags, or with the entries of its directory
  same-EntryOk :
      (root : Bytes) (e : FdEntry) (append : Bool) (entries : Option (List DirEntry))
      → EntryOk text root e
      → EntryOk text root (record e { append_f = append; dir_entries = entries })
  unfolding EntryOk
  same-EntryOk root e append entries ok = ok

  fd_fdstat_set_flags-Leaves :
      (fd flags : ℕ) (s : Shim World)
      → TableOk text s.fs
      → Leaves text (fd_fdstat_set_flags os nums info fd flags s)
  unfolding fd_fdstat_set_flags
  fd_fdstat_set_flags-Leaves fd flags s ok =
      let ok' = fs_ensure-TableOk text s.fs ok in
      option-Leaves text (entry_of fd (fs_ensure s.fs)) _ _ (reply-Leaves text _ (ensured s) ok')
        (λ e at.
          let e_ok =
            same-EntryOk (fs_ensure s.fs).preopen_root e (flags % 2 == 1) e.dir_entries
              (entry-EntryOk fd e s ok' at) in
          reply-Leaves text _ (record s { fs = with_entries (insert fd _) (fs_ensure s.fs) })
            (insert-TableOk text fd _ (fs_ensure s.fs) e_ok ok'))

  count_reply-Leaves :
      (ptr : ℕ) (s : Shim World) (r : Option (ℕ × Bytes))
      → TableOk text s.fs
      → Leaves text (count_reply os nums text p info ptr s r)
  count_reply-Leaves ptr s none ok = panic-Leaves text
  count_reply-Leaves ptr s (some (used, mem)) ok = with_memory-Leaves text _ s _ ok

  list_from_cookie-Leaves :
      (buf buf_len cookie ptr : ℕ) (path : Bytes) (ents : List DirEntry) (s : Shim World)
      → TableOk text s.fs
      → Leaves text (list_from_cookie os nums text p info buf buf_len cookie ptr path ents s)
  unfolding list_from_cookie
  list_from_cookie-Leaves buf buf_len cookie ptr path ents s ok =
      if-Leaves text (leb (2 ^ 63) cookie) _ _ (panic-Leaves text) (count_reply-Leaves ptr s _ ok)

  read-Leaves :
      (fd : ℕ) (e : FdEntry) (use_it : List DirEntry → Shim World → Reply World) (s : Shim World)
      (r : GoError ⊎ List DirEntry)
      → EntryOk text s.fs.preopen_root e
      → TableOk text s.fs
      → ((ents : List DirEntry) (s' : Shim World)
          → TableOk text s'.fs
          → Leaves text (use_it ents s'))
      → Leaves text (elim r [
        | inl err ↦ some (wasi_errno os nums (some err), s)
        | inr ents ↦
            use_it ents (record s {
              fs = with_entries (insert fd (record e { dir_entries = some ents })) s.fs;
            })
      ])
  read-Leaves fd e use_it s (inl err) e_ok ok each = reply-Leaves text _ s ok
  read-Leaves fd e use_it s (inr ents) e_ok ok each = each ents _ (
      insert-TableOk text fd _ s.fs (same-EntryOk s.fs.preopen_root e e.append_f (some ents) e_ok)
        ok)

  load-Leaves :
      (fd : ℕ) (e : FdEntry) (use_it : List DirEntry → Shim World → Reply World) (s : Shim World)
      → EntryOk text s.fs.preopen_root e
      → TableOk text s.fs
      → ((ents : List DirEntry) (s' : Shim World)
          → TableOk text s'.fs
          → Leaves text (use_it ents s'))
      → Leaves text (load os nums text p info fd e use_it s)
  load-Leaves fd e use_it s e_ok ok each =
      option-Leaves text e.dir_entries _ _
        (read-Leaves fd e use_it s (p.read_dir e.host_path s.world) e_ok ok each)
        (λ ents cached. each ents s ok)

  fd_readdir-Leaves :
      (fd buf buf_len cookie ptr : ℕ) (s : Shim World)
      → TableOk text s.fs
      → Leaves text (fd_readdir os nums text p info fd buf buf_len cookie ptr s)
  unfolding fd_readdir
  fd_readdir-Leaves fd buf buf_len cookie ptr s ok =
      let ok' = fs_ensure-TableOk text s.fs ok in
      option-Leaves text (entry_of fd (fs_ensure s.fs)) _ _ (reply-Leaves text _ (ensured s) ok')
        (λ e at.
          if-Leaves text e.is_dir _ _
            (load-Leaves fd e _ (ensured s) (entry-EntryOk fd e s ok' at) ok'
              (λ ents s' h. list_from_cookie-Leaves buf buf_len cookie ptr e.host_path ents s' h))
            (reply-Leaves text _ (ensured s) ok'))

  fd_call-Leaves :
      (c : FdCall) (s : Shim World)
      → TableOk text s.fs
      → Leaves text (fd_call os nums text p info c s)
  fd_call-Leaves (prestat fd buf) s ok = fd_prestat_get-Leaves text fd buf s ok
  fd_call-Leaves (prestat_name fd path_ptr path_len) s ok =
      fd_prestat_dir_name-Leaves text fd path_ptr path_len s ok
  fd_call-Leaves (read_fd fd iovs iovs_len count) s ok =
      fd_read-Leaves os nums text info fd iovs iovs_len count s ok
  fd_call-Leaves (write_fd fd iovs iovs_len count) s ok =
      fd_write-Leaves os nums text info fd iovs iovs_len count s ok
  fd_call-Leaves (pread_fd fd iovs iovs_len offset count) s ok =
      fd_pread-Leaves os nums text info fd iovs iovs_len offset count s ok
  fd_call-Leaves (pwrite_fd fd iovs iovs_len offset count) s ok =
      fd_pwrite-Leaves os nums text info fd iovs iovs_len offset count s ok
  fd_call-Leaves (seek_fd fd offset whence ptr) s ok =
      fd_seek-Leaves os nums text info fd offset whence ptr s ok
  fd_call-Leaves (tell_fd fd ptr) s ok = fd_tell-Leaves os nums text info fd ptr s ok
  fd_call-Leaves (close_fd fd) s ok = fd_close-Leaves fd s ok
  fd_call-Leaves (sync_fd fd) s ok = fd_sync-Leaves os nums text info fd s ok
  fd_call-Leaves (fdstat fd buf) s ok = fd_fdstat_get-Leaves os nums text info fd buf s ok
  fd_call-Leaves (filestat fd buf) s ok = fd_filestat_get-Leaves os nums text info fd buf s ok
  fd_call-Leaves (set_flags fd flags) s ok = fd_fdstat_set_flags-Leaves fd flags s ok
  fd_call-Leaves (readdir fd buf buf_len cookie ptr) s ok =
      fd_readdir-Leaves fd buf buf_len cookie ptr s ok

  unused-TableOk : (s : Shim World) → s.fs.fds ≡ none → TableOk text s.fs
  unfolding TableOk entry_of
  unused-TableOk s no_table fd e at =
      let nothing : Path (Option FdEntry) none (some e) = rw no_table at at in absurd cc

  -- Whatever calls were made, in whatever order, every open descriptor but that of the preopened
  -- directory has a handle, and a host path within that directory.
  pub Reach-TableOk : {s : Shim World} → Reach os nums text p info s → TableOk text s.fs
  Reach-TableOk (unused s no_table) = unused-TableOk s no_table
  Reach-TableOk (after_path {s} {s'} {code} c r e) =
      (path_call-Leaves os nums text p info c s (Reach-TableOk r)).table_ok code s' e
  Reach-TableOk (after_fd {s} {s'} {code} c r e) =
      (fd_call-Leaves c s (Reach-TableOk r)).table_ok code s' e
