-- ===== src/Wasi/Paths.antt =====
-- The other calls on paths in converge/wasishim/fs.go.
use duckdb_wasm2go_poc.Base.{
  ℕ, Bool, true, false, not, Option, none, some, ◌⊎◌, inl, inr, if◌then◌else◌, Bytes,
}
use duckdb_wasm2go_poc.HostFs.Os.{GoError}
use duckdb_wasm2go_poc.HostFs.Open.{flag}
use duckdb_wasm2go_poc.Wasi.Os.{WasiOs, Stat, PathOs, InfoOs, PathText}
use duckdb_wasm2go_poc.Wasi.State.{
  Shim, Reply, Errnos, read_str, fs_ensure, wasi_errno, wasi_eisdir, wasi_enotdir, wasi_enotcapable,
}
use duckdb_wasm2go_poc.Wasi.Resolve.{resolve_path, at_path, ensured}
use duckdb_wasm2go_poc.Wasi.Files.{filestat_reply}

module _ (os : WasiOs) (nums : Errnos) (text : PathText) (p : PathOs os) (info : InfoOs os) where
  open os use {World, Time}

  -- the error number of a call that changes the world
  abbrev pub done_with : Shim World → Option GoError × World → Reply World
  done_with s (err, w) = some (wasi_errno os nums err, record s { world = w })

  -- `Xpath_filestat_get`: bit 0 of the flags follows links
  unfoldable pub path_filestat_get : ℕ → ℕ → ℕ → ℕ → ℕ → Shim World → Reply World
  path_filestat_get dirfd flags ptr len buf = at_path text dirfd ptr len (λ host s.
      filestat_reply os nums info buf
        (if flag 0 flags then p.stat host s.world else p.lstat host s.world) s)

  -- `Xpath_create_directory`
  unfoldable pub path_create_directory : ℕ → ℕ → ℕ → Shim World → Reply World
  path_create_directory dirfd ptr len =
      at_path text dirfd ptr len (λ host s. done_with s (p.mkdir host s.world))

  -- a removal, refused where the kind is wrong
  abbrev pub remove_reply : Bool → ℕ → Bytes → Shim World → GoError ⊎ Stat os → Reply World
  remove_reply wants_dir refused host s (inl err) = some (wasi_errno os nums (some err), s)
  remove_reply wants_dir refused host s (inr fi) =
      let removed = done_with s (p.remove host s.world) in
      let wrong = if wants_dir then not fi.mode.dir else fi.mode.dir in
      if wrong then some (refused, s) else removed

  -- `Xpath_unlink_file`
  unfoldable pub path_unlink_file : ℕ → ℕ → ℕ → Shim World → Reply World
  path_unlink_file dirfd ptr len =
      at_path text dirfd ptr len
        (λ host s. remove_reply false wasi_eisdir host s (p.lstat host s.world))

  -- `Xpath_remove_directory`
  unfoldable pub path_remove_directory : ℕ → ℕ → ℕ → Shim World → Reply World
  path_remove_directory dirfd ptr len =
      at_path text dirfd ptr len
        (λ host s. remove_reply true wasi_enotdir host s (p.lstat host s.world))

  abbrev pub rename_reply : Shim World → Option Bytes → Option Bytes → Reply World
  rename_reply s (some old) (some new) = done_with s (p.rename old new s.world)
  rename_reply s _ _ = some (wasi_enotcapable, s)

  -- `Xpath_rename`
  unfoldable pub path_rename : ℕ → ℕ → ℕ → ℕ → ℕ → ℕ → Shim World → Reply World
  unfolding resolve_path
  path_rename old_fd old_ptr old_len new_fd new_ptr new_len s =
      elim (read_str s.mem old_ptr old_len) [
        | none ↦ none
        | some old ↦ elim (read_str s.mem new_ptr new_len) [
          | none ↦ none
          | some new ↦
              rename_reply (ensured s) (resolve_path text old_fd old (fs_ensure s.fs))
                (resolve_path text new_fd new (fs_ensure s.fs))
        ]
      ]

  -- the time that stays, if the file has one
  abbrev pub kept_time : Time → GoError ⊎ Stat os → Time
  kept_time t (inl err) = t
  kept_time t (inr fi) = fi.mod_time

  -- a time as the flags ask for it: given, now, or as it is
  unfoldable pub chosen_time : Bool → Bool → ℕ → Bytes → World → Time
  chosen_time given now nanos host w =
      if given
      then os.from_nanos nanos
      else if now
      then os.now w
      else kept_time (os.now w) (p.stat host w)

  -- `Xpath_filestat_set_times`
  unfoldable pub path_filestat_set_times : ℕ → ℕ → ℕ → ℕ → ℕ → ℕ → Shim World → Reply World
  unfolding chosen_time
  path_filestat_set_times dirfd ptr len atim mtim fst_flags = at_path text dirfd ptr len (λ host s.
      done_with s (
        p.chtimes host (chosen_time (flag 0 fst_flags) (flag 1 fst_flags) atim host s.world)
          (chosen_time (flag 2 fst_flags) (flag 3 fst_flags) mtim host s.world) s.world))
