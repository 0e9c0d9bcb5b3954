-- ===== src/Wasi/Descriptors/FdReplies.antt =====
-- The replies of the handlers on descriptors in converge/wasishim/fs.go that change no entry.
use duckdb_wasm2go_poc.Base.{[], ltb, ◌||◌, ◌==◌, ℕ, ◌⊎◌, Option, none, some, inl, inr, Bytes}
use duckdb_wasm2go_poc.HostFs.Os.{GoError}
use duckdb_wasm2go_poc.Wasi.Os.{WasiOs, InfoOs, PathText, Stat}
use duckdb_wasm2go_poc.Wasi.State.{Shim, Errnos, fs_ensure, entry_of, wasi_einval}
use duckdb_wasm2go_poc.Wasi.Resolve.{ensured}
use duckdb_wasm2go_poc.Wasi.Iovecs.{
  Moved, Gathered, gathered, gather_panics, gather_fails, gather, rounds,
}
use duckdb_wasm2go_poc.Wasi.Transfer.{
  open_at, counted, written, fd_read, fd_pread, fd_write_std, fd_write, fd_pwrite,
}
use duckdb_wasm2go_poc.Wasi.Files.{
  to_whence, position_reply, seek_reply, fd_seek, fd_tell, fd_sync, fd_fdstat_get, filestat_reply,
  fd_filestat_get,
}
use duckdb_wasm2go_poc.Wasi.Descriptors.{TableOk, Leaves, fs_ensure-TableOk}
use duckdb_wasm2go_poc.Wasi.Descriptors.Replies.{
  panic-Leaves, reply-Leaves, with_memory-Leaves, option-Leaves, if-Leaves, open_at-Leaves,
}

module _ (os : WasiOs) (nums : Errnos) (text : PathText) (info : InfoOs os) where
  open os use {World}

  counted-Leaves :
      (ptr : ℕ) (s : Shim World) (m : Option (Moved World))
      → TableOk text s.fs
      → Leaves text (counted os nums ptr s m)
  counted-Leaves ptr s none ok = panic-Leaves text
  counted-Leaves ptr s (some m) ok =
      with_memory-Leaves text m.code (record s { world = m.state }) _ ok

  pub fd_read-Leaves :
      (fd iovs iovs_len count : ℕ) (s : Shim World)
      → TableOk text s.fs
      → Leaves text (fd_read os nums fd iovs iovs_len count s)
  unfolding fd_read
  fd_read-Leaves fd iovs iovs_len count s ok =
      let ok' = fs_ensure-TableOk text s.fs ok in
      open_at-Leaves text (open_at fd (fs_ensure s.fs)) _ _ _
        (if-Leaves text (fd == 0) _ _ (with_memory-Leaves text _ (ensured s) _ ok')
          (reply-Leaves text _ (ensured s) ok'))
        (λ h. reply-Leaves text _ (ensured s) ok') (λ h. counted-Leaves count (ensured s) _ ok')

  pub fd_pread-Leaves :
      (fd iovs iovs_len offset count : ℕ) (s : Shim World)
      → TableOk text s.fs
      → Leaves text (fd_pread os nums fd iovs iovs_len offset count s)
  unfolding fd_pread
  fd_pread-Leaves fd iovs iovs_len offset count s ok =
      let ok' = fs_ensure-TableOk text s.fs ok in
      let refused = λ (code : ℕ). reply-Leaves text code (ensured s) ok' in
      open_at-Leaves text (open_at fd (fs_ensure s.fs)) _ _ _ (refused _) (λ h. refused _)
        (λ h. counted-Leaves count (ensured s) _ ok')

  pub fd_write-Leaves :
      (fd iovs iovs_len count : ℕ) (s : Shim World)
      → TableOk text s.fs
      → Leaves text (fd_write os nums fd iovs iovs_len count s)
  unfolding fd_write fd_write_std
  fd_write-Leaves fd iovs iovs_len count s ok =
      let ok' = fs_ensure-TableOk text s.fs ok in
      let refused = λ (code : ℕ). reply-Leaves text code (ensured s) ok' in
      if-Leaves text (fd == 1 || fd == 2) _ _ (counted-Leaves count s _ ok) (
        open_at-Leaves text (open_at fd (fs_ensure s.fs)) _ _ _ (refused _) (λ h. refused _)
          (λ h. counted-Leaves count (ensured s) _ ok'))

  written-Leaves :
      (ptr : ℕ) (s : Shim World) (g : Gathered) (w : Bytes → (ℕ × Option GoError) × World)
      → TableOk text s.fs
      → Leaves text (elim g [
        | gather_panics ↦ none
        | gather_fails ↦ some (wasi_einval, s)
        | gathered buf ↦ written os nums ptr s (w buf)
      ])
  written-Leaves ptr s gather_panics w ok = panic-Leaves text
  written-Leaves ptr s gather_fails w ok = reply-Leaves text _ s ok
  written-Leaves ptr s (gathered buf) w ok =
      with_memory-Leaves text _ (record s { world = (w buf).1 }) _ ok

  pub fd_pwrite-Leaves :
      (fd iovs iovs_len offset count : ℕ) (s : Shim World)
      → TableOk text s.fs
      → Leaves text (fd_pwrite os nums fd iovs iovs_len offset count s)
  unfolding fd_pwrite
  fd_pwrite-Leaves fd iovs iovs_len offset count s ok =
      let ok' = fs_ensure-TableOk text s.fs ok in
      let refused = λ (code : ℕ). reply-Leaves text code (ensured s) ok' in
      open_at-Leaves text (open_at fd (fs_ensure s.fs)) _ _ _ (refused _) (λ h. refused _)
        (λ h.
          written-Leaves count (ensured s) (gather (rounds iovs_len) iovs [] s.mem)
            (λ buf. os.write_file_at h buf offset s.world) ok')

  position_reply-Leaves :
      (ptr : ℕ) (s : Shim World) (r : (GoError ⊎ ℕ) × World)
      → TableOk text s.fs
      → Leaves text (position_reply os nums info ptr s r)
  position_reply-Leaves ptr s (inl err, w) ok = reply-Leaves text _ (record s { world = w }) ok
  position_reply-Leaves ptr s (inr pos, w) ok =
      with_memory-Leaves text _ (record s { world = w }) _ ok

  pub fd_seek-Leaves :
      (fd offset whence ptr : ℕ) (s : Shim World)
      → TableOk text s.fs
      → Leaves text (fd_seek os nums info fd offset whence ptr s)
  unfolding fd_seek seek_reply
  fd_seek-Leaves fd offset whence ptr s ok =
      let ok' = fs_ensure-TableOk text s.fs ok in
      let at = λ (h : ℕ).
        option-Leaves text (to_whence os nums info whence) _ _ (reply-Leaves text _ (ensured s) ok')
          (λ w e. position_reply-Leaves ptr (ensured s) (os.seek h offset w s.world) ok') in
      open_at-Leaves text (open_at fd (fs_ensure s.fs)) _ _ _ (reply-Leaves text _ (ensured s) ok')
        at at

  pub fd_tell-Leaves :
      (fd ptr : ℕ) (s : Shim World)
      → TableOk text s.fs
      → Leaves text (fd_tell os nums info fd ptr s)
  unfolding fd_tell seek_reply
  fd_tell-Leaves fd ptr s ok =
      let ok' = fs_ensure-TableOk text s.fs ok in
      open_at-Leaves text (open_at fd (fs_ensure s.fs)) _ _ _ (reply-Leaves text _ (ensured s) ok')
        (λ h. position_reply-Leaves ptr (ensured s) _ ok')
        (λ h. position_reply-Leaves ptr (ensured s) _ ok')

  pub fd_sync-Leaves :
      (fd : ℕ) (s : Shim World) → TableOk text s.fs → Leaves text (fd_sync os nums info fd s)
  unfolding fd_sync
  fd_sync-Leaves fd s ok =
      let ok' = fs_ensure-TableOk text s.fs ok in
      let refused = λ (code : ℕ). reply-Leaves text code (ensured s) ok' in
      open_at-Leaves text (open_at fd (fs_ensure s.fs)) _ _ _ (refused _) (λ h. refused _)
        (λ h. reply-Leaves text _ (record (ensured s) { world = (os.sync_file h s.world).1 }) ok')

  pub fd_fdstat_get-Leaves :
      (fd buf : ℕ) (s : Shim World)
      → TableOk text s.fs
      → Leaves text (fd_fdstat_get os nums info fd buf s)
  unfolding fd_fdstat_get
  fd_fdstat_get-Leaves fd buf s ok =
      let ok' = fs_ensure-TableOk text s.fs ok in
      let memory =
        λ (code : ℕ) (m : Option Bytes). with_memory-Leaves text code (ensured s) m ok' in
      option-Leaves text (entry_of fd (fs_ensure s.fs)) _ _
        (if-Leaves text (ltb fd 3) _ _ (memory _ _) (memory _ _)) (λ e at. memory _ _)

  pub filestat_reply-Leaves :
      (buf : ℕ) (r : GoError ⊎ Stat os) (s : Shim World)
      → TableOk text s.fs
      → Leaves text (filestat_reply os nums info buf r s)
  unfolding filestat_reply
  filestat_reply-Leaves buf (inl err) s ok = reply-Leaves text _ s ok
  filestat_reply-Leaves buf (inr fi) s ok = with_memory-Leaves text _ s _ ok

  pub fd_filestat_get-Leaves :
      (fd buf : ℕ) (s : Shim World)
      → TableOk text s.fs
      → Leaves text (fd_filestat_get os nums info fd buf s)
  unfolding fd_filestat_get
  fd_filestat_get-Leaves fd buf s ok =
      let ok' = fs_ensure-TableOk text s.fs ok in
      let stat = λ (h : ℕ). filestat_reply-Leaves buf (info.file_info h s.world) (ensured s) ok' in
      open_at-Leaves text (open_at fd (fs_ensure s.fs)) _ _ _ (reply-Leaves text _ (ensured s) ok')
        stat stat
