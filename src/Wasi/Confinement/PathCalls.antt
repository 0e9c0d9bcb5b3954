-- ===== src/Wasi/Confinement/PathCalls.antt =====
-- Every call on paths of converge/wasishim/fs.go, over two file systems that agree below the root.
use duckdb_wasm2go_poc.Base.{
  ℕ, ◌≡◌, ◌⊎◌, Bool, true, false, Option, none, some, inl, inr, Bytes, refl, ap, ◌∙◌, Option-cases,
}
use duckdb_wasm2go_poc.HostFs.Os.{GoError}
use duckdb_wasm2go_poc.HostFs.Open.{flag}
use duckdb_wasm2go_poc.Wasi.Os.{WasiOs, Stat, PathOs, InfoOs, PathText}
use duckdb_wasm2go_poc.Wasi.State.{Shim, Errnos, fs_ensure, read_str}
use duckdb_wasm2go_poc.Wasi.Resolve.{within, resolve_path, ensured}
use duckdb_wasm2go_poc.Wasi.Open.{
  wasi_open_mode, give_entry, dir_reply, directory_reply, file_reply, open_host, path_open,
}
use duckdb_wasm2go_poc.Wasi.Paths.{
  path_filestat_get, path_create_directory, remove_reply, path_unlink_file, path_remove_directory,
  rename_reply, path_rename, chosen_time, path_filestat_set_times,
}
use duckdb_wasm2go_poc.Wasi.Calls.{
  PathCall, open_at_path, filestat_of_path, create_directory, unlink_file, remove_directory,
  rename_path, set_times, path_call,
}
use duckdb_wasm2go_poc.Wasi.Confinement.{Agrees, resolve_path-within, at_path-same}

module _ (os : WasiOs) (nums : Errnos) (text : PathText) (info : InfoOs os) (p q : PathOs os)
    (root : Bytes) (agrees : Agrees os root p q) where
  open os use {World}

  dir_reply-same :
      (ptr : ℕ) (host : Bytes) (s : Shim World) (r : (GoError ⊎ ℕ) × World)
      → dir_reply os nums text p info ptr host s r ≡ dir_reply os nums text q info ptr host s r
  unfolding give_entry
  dir_reply-same ptr host s (inl err, w) = refl
  dir_reply-same ptr host s (inr f, w) = refl

  directory_reply-same :
      (ptr : ℕ) (host : Bytes) (s : Shim World) (r : GoError ⊎ Stat os)
      → within root host ≡ true
      → directory_reply os nums text p info ptr host s r
        ≡ directory_reply os nums text q info ptr host s r
  directory_reply-same ptr host s (inl err) inside = refl
  directory_reply-same ptr host s (inr fi) inside =
      rw (agrees.open_dirs host s.world inside)
        (rw (dir_reply-same ptr host s (q.open_dir host s.world)) refl)

  file_reply-same :
      (ptr : ℕ) (host : Bytes) (append : Bool) (s : Shim World) (r : (GoError ⊎ ℕ) × World)
      → within root host ≡ true
      → file_reply os nums text p info ptr host append s r
        ≡ file_reply os nums text q info ptr host append s r
  unfolding give_entry
  file_reply-same ptr host append s (inl err, w) inside = rw (agrees.open_dirs host w inside) (
      rw (agrees.stats host w inside)
        (rw (dir_reply-same ptr host (record s { world = w }) (q.open_dir host w)) refl))
  file_reply-same ptr host append s (inr f, w) inside = refl

  open_host-same :
      (oflags rights fd_flags ptr : ℕ) (host : Bytes) (s : Shim World)
      → within root host ≡ true
      → open_host os nums text p info oflags rights fd_flags ptr host s
        ≡ open_host os nums text q info oflags rights fd_flags ptr host s
  unfolding open_host
  open_host-same oflags rights fd_flags ptr host s inside =
      let mode = wasi_open_mode oflags rights fd_flags in
      rw (agrees.stats host s.world inside) (
        rw (agrees.open_files host mode s.world inside) (
          rw (directory_reply-same ptr host s (q.stat host s.world) inside) (
            rw (file_reply-same ptr host mode.append s (q.open_file host mode s.world) inside)
              refl)))

  remove_reply-same :
      (wants_dir : Bool) (refused : ℕ) (host : Bytes) (s : Shim World) (r : GoError ⊎ Stat os)
      → within root host ≡ true
      → remove_reply os nums text p info wants_dir refused host s r
        ≡ remove_reply os nums text q info wants_dir refused host s r
  remove_reply-same wants_dir refused host s (inl err) inside = refl
  remove_reply-same wants_dir refused host s (inr fi) inside =
      rw (agrees.removes host s.world inside) refl

  -- a removal looks at the path first
  removal-same :
      (wants_dir : Bool) (refused : ℕ) (host : Bytes) (s : Shim World)
      → within root host ≡ true
      → remove_reply os nums text p info wants_dir refused host s (p.lstat host s.world)
        ≡ remove_reply os nums text q info wants_dir refused host s (q.lstat host s.world)
  removal-same wants_dir refused host s inside =
      remove_reply-same wants_dir refused host s (p.lstat host s.world) inside
      ∙ ap (remove_reply os nums text q info wants_dir refused host s)
          (agrees.lstats host s.world inside)

  chosen_time-same :
      (given now : Bool) (nanos : ℕ) (host : Bytes) (w : World)
      → within root host ≡ true
      → chosen_time os nums text p info given now nanos host w
        ≡ chosen_time os nums text q info given now nanos host w
  unfolding chosen_time
  chosen_time-same given now nanos host w inside = rw (agrees.stats host w inside) refl

  rename-same :
      (old new : Bytes) (s : Shim World)
      → within root old ≡ true
      → within root new ≡ true
      → rename_reply os nums text p info s (some old) (some new)
        ≡ rename_reply os nums text q info s (some old) (some new)
  rename-same old new s old_inside new_inside =
      rw (agrees.renames old new s.world old_inside new_inside) refl

  -- a rename of two paths that were resolved
  rename_reply-same :
      (a b : Option Bytes) (s : Shim World)
      → ((host : Bytes) → a ≡ some host → within root host ≡ true)
      → ((host : Bytes) → b ≡ some host → within root host ≡ true)
      → rename_reply os nums text p info s a b ≡ rename_reply os nums text q info s a b
  rename_reply-same none b s ha hb = refl
  rename_reply-same (some a) none s ha hb = refl
  rename_reply-same (some a) (some b) s ha hb = rename-same a b s (ha a refl) (hb b refl)

module _ (os : WasiOs) (nums : Errnos) (text : PathText) (info : InfoOs os) (p q : PathOs os)
    (s : Shim os.World)
    (agrees : Agrees os (text.file_clean (fs_ensure s.fs).preopen_root) p q) where
  abbrev root : Bytes
  root = text.file_clean (fs_ensure s.fs).preopen_root

  path_rename-same :
      (old_fd old_ptr old_len new_fd new_ptr new_len : ℕ)
      → path_rename os nums text p info old_fd old_ptr old_len new_fd new_ptr new_len s
        ≡ path_rename os nums text q info old_fd old_ptr old_len new_fd new_ptr new_len s
  unfolding path_rename
  path_rename-same old_fd old_ptr old_len new_fd new_ptr new_len =
      elim (Option-cases (read_str s.mem old_ptr old_len)) [
        | inl panics ↦ rw (panics, path_rename) refl
        | inr (old, read) ↦ elim (Option-cases (read_str s.mem new_ptr new_len)) [
          | inl panics ↦ rw (read, path_rename) (rw (panics, path_rename) refl)
          | inr (new, read') ↦
              rw (read, path_rename)
                (rw (read', path_rename)
                  (rename_reply-same os nums text info p q root agrees
                    (resolve_path text old_fd old (fs_ensure s.fs))
                    (resolve_path text new_fd new (fs_ensure s.fs)) (ensured s)
                    (λ host. resolve_path-within text old_fd old host (fs_ensure s.fs))
                    (λ host. resolve_path-within text new_fd new host (fs_ensure s.fs))))
        ]
      ]

  -- A call on paths does the same over two file systems that answer alike for the paths in the
  -- preopened directory: it depends on no other path, and changes none.
  pub path_call-Agrees :
      (c : PathCall) → path_call os nums text p info c s ≡ path_call os nums text q info c s
  unfolding path_open path_filestat_get path_create_directory path_unlink_file path_remove_directory
      path_filestat_set_times
  path_call-Agrees (open_at_path dirfd path_ptr path_len oflags rights fd_flags ptr) =
      at_path-same text dirfd path_ptr path_len _ _ s (λ host inside.
        open_host-same os nums text info p q root agrees oflags rights fd_flags ptr host (ensured s)
          inside)
  path_call-Agrees (filestat_of_path dirfd flags path_ptr path_len buf) =
      at_path-same text dirfd path_ptr path_len _ _ s (λ host inside.
        rw (agrees.stats host s.world inside) (rw (agrees.lstats host s.world inside) refl))
  path_call-Agrees (create_directory dirfd path_ptr path_len) =
      at_path-same text dirfd path_ptr path_len _ _ s
        (λ host inside. rw (agrees.mkdirs host s.world inside) refl)
  path_call-Agrees (unlink_file dirfd path_ptr path_len) =
      at_path-same text dirfd path_ptr path_len _ _ s (λ host inside.
        removal-same os nums text info p q root agrees false _ host (ensured s) inside)
  path_call-Agrees (remove_directory dirfd path_ptr path_len) =
      at_path-same text dirfd path_ptr path_len _ _ s (λ host inside.
        removal-same os nums text info p q root agrees true _ host (ensured s) inside)
  path_call-Agrees (rename_path old_fd old_ptr old_len new_fd new_ptr new_len) =
      path_rename-same old_fd old_ptr old_len new_fd new_ptr new_len
  path_call-Agrees (set_times dirfd path_ptr path_len atim mtim fst_flags) =
      at_path-same text dirfd path_ptr path_len _ _ s (λ host inside.
        let at =
          chosen_time-same os nums text info p q root agrees (flag 0 fst_flags) (flag 1 fst_flags)
            atim host s.world inside in
        let mt =
          chosen_time-same os nums text info p q root agrees (flag 2 fst_flags) (flag 3 fst_flags)
            mtim host s.world inside in
        rw at (rw mt (rw (agrees.times host _ _ s.world inside) refl)))
