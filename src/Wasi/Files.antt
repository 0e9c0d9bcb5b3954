-- ===== src/Wasi/Files.antt =====
-- The other calls on descriptors in converge/wasishim/fs.go: the preopened directory, positions,
-- closing, syncing and status. None is a Go panic.
use duckdb_wasm2go_poc.Base.{
  ℕ, ◌+◌, ◌%◌, ◌^◌, ◌||◌, ◌++◌, Option, none, some, ◌⊎◌, inl, inr, ltb, ◌==◌, if◌then◌else◌, Bytes,
  insert, remove, length,
}
use duckdb_wasm2go_poc.Exhost.Abi.{plus32}
use duckdb_wasm2go_poc.HostFs.Os.{GoError}
use duckdb_wasm2go_poc.HostFs.Memory.{negative32}
use duckdb_wasm2go_poc.Wasi.Os.{
  WasiOs, FileMode, Stat, InfoOs, Whence, seek_start, seek_current, seek_end,
}
use duckdb_wasm2go_poc.Wasi.State.{
  Fs, FdEntry, Shim, Reply, Errnos, entry_of, with_entries, wasi_errno, le_bytes, put_le, store,
  copy_range, with_memory, wasi_success, wasi_ebadf, wasi_einval, wasi_enametoolong,
}
use duckdb_wasm2go_poc.Wasi.Resolve.{ensured}
use duckdb_wasm2go_poc.Wasi.Transfer.{open_at, no_file, directory, regular_file}

-- the zero bytes of a cleared struct
unfoldable pub zeros : ℕ → Bytes
zeros n = le_bytes n 0

-- the name of the preopened directory behind a descriptor, if it names that
unfoldable pub preopened : ℕ → Fs → Option Bytes
preopened fd s = elim (entry_of fd s) [
  | none ↦ none
  | some e ↦ if e.is_preopen then some s.preopen_name else none
]

-- `Xfd_prestat_get`
unfoldable pub fd_prestat_get : {W : Type 0} → ℕ → ℕ → Shim W → Reply W
unfolding preopened
fd_prestat_get fd buf s = elim (preopened fd (ensured s).fs) [
  | none ↦ some (wasi_ebadf, ensured s)
  | some name ↦
      with_memory wasi_success (ensured s)
        (store buf (le_bytes 4 0 ++ le_bytes 4 (length name % 2 ^ 32)) s.mem)
]

-- `Xfd_prestat_dir_name`
unfoldable pub fd_prestat_dir_name : {W : Type 0} → ℕ → ℕ → ℕ → Shim W → Reply W
unfolding preopened
fd_prestat_dir_name fd path_ptr path_len s = elim (preopened fd (ensured s).fs) [
  | none ↦ some (wasi_ebadf, ensured s)
  | some name ↦
      let end = plus32 path_ptr (length name) in
      let fits = with_memory wasi_success (ensured s) (copy_range path_ptr end name s.mem) in
      if negative32 path_len || ltb path_len (length name)
      then some (wasi_enametoolong, ensured s)
      else if ltb (length s.mem + (if negative32 path_ptr then 2 ^ 32 else 0))
          (path_ptr + length name)
      then some (wasi_einval, ensured s)
      else fits
]

-- the filetypes
unfoldable pub mode_to_filetype : FileMode → ℕ
mode_to_filetype m =
    if m.dir
    then 3
    else if m.symlink
    then 7
    else if m.device
    then if m.char_device then 2 else 1
    else if m.socket
    then 6
    else if m.regular
    then 4
    else 0

-- `fileRights`: data sync, read, seek, set flags, sync, tell, write, advise, allocate, and the three
-- of filestat
abbrev pub file_rights : ℕ
file_rights = 14680575

-- `dirRights`: those of paths and of reading a directory, and `fileRights`
abbrev pub dir_rights : ℕ
dir_rights = 419430399

module _ (os : WasiOs) (nums : Errnos) (info : InfoOs os) where
  open os use {World, seek, close_file, sync_file}

  abbrev pub to_whence : ℕ → Option Whence
  to_whence whence =
      if whence == 0
      then some seek_start
      else if whence == 1
      then some seek_current
      else if whence == 2
      then some seek_end
      else none

  -- a position is written to memory
  abbrev pub position_reply : ℕ → Shim World → (GoError ⊎ ℕ) × World → Reply World
  position_reply ptr s (inl err, w) = some (wasi_errno os nums (some err), record s { world = w })
  position_reply ptr s (inr pos, w) =
      with_memory wasi_success (record s { world = w }) (put_le 8 ptr pos s.mem)

  -- `e.file.Seek` on a descriptor of a file or a directory
  unfoldable pub seek_reply : ℕ → ℕ → Whence → ℕ → Shim World → Reply World
  seek_reply f offset whence ptr s = position_reply ptr s (seek f offset whence s.world)

  -- `Xfd_seek`
  unfoldable pub fd_seek : ℕ → ℕ → ℕ → ℕ → Shim World → Reply World
  unfolding seek_reply
  fd_seek fd offset whence ptr s =
      let at : ℕ → Reply World = λ f. elim (to_whence whence) [
        | none ↦ some (wasi_einval, ensured s)
        | some w ↦ seek_reply f offset w ptr (ensured s)
      ] in
      elim (open_at fd (ensured s).fs) [
        | no_file ↦ some (wasi_ebadf, ensured s)
        | directory f ↦ at f
        | regular_file f ↦ at f
      ]

  -- `Xfd_tell`
  unfoldable pub fd_tell : ℕ → ℕ → Shim World → Reply World
  unfolding seek_reply
  fd_tell fd ptr s = elim (open_at fd (ensured s).fs) [
    | no_file ↦ some (wasi_ebadf, ensured s)
    | directory f ↦ seek_reply f 0 seek_current ptr (ensured s)
    | regular_file f ↦ seek_reply f 0 seek_current ptr (ensured s)
  ]

  abbrev pub drop_fd : ℕ → {W : Type 0} → Shim W → Shim W
  drop_fd fd s = record s { fs = with_entries (remove fd) s.fs }

  -- the end of `Xfd_close`, for an entry that is no preopen
  abbrev pub close_entry : ℕ → Option ℕ → Shim World → Reply World
  close_entry fd none s = some (wasi_success, drop_fd fd s)
  close_entry fd (some f) s =
      let (err, w) = close_file f s.world in
      some (wasi_errno os nums err, drop_fd fd (record s { world = w }))

  -- `Xfd_close`
  unfoldable pub fd_close : ℕ → Shim World → Reply World
  fd_close fd s = elim (entry_of fd (ensured s).fs) [
    | none ↦ some (wasi_ebadf, ensured s)
    | some e ↦
        if e.is_preopen
        then some (wasi_success, drop_fd fd (ensured s))
        else close_entry fd e.file (ensured s)
  ]

  -- `Xfd_sync` and `Xfd_datasync`
  unfoldable pub fd_sync : ℕ → Shim World → Reply World
  fd_sync fd s = elim (open_at fd (ensured s).fs) [
    | no_file ↦ some (wasi_ebadf, ensured s)
    | directory f ↦ some (wasi_success, ensured s)
    | regular_file f ↦
        let (err, w) = sync_file f s.world in
        some (wasi_errno os nums err, record (ensured s) { world = w })
  ]

  -- the 24 bytes of an fdstat: the filetype, the flags, the rights, and those inherited
  unfoldable pub fdstat_bytes : ℕ → ℕ → ℕ → ℕ → Bytes
  fdstat_bytes filetype flags rights inheriting =
      le_bytes 2 filetype
      ++ (le_bytes 2 flags ++ (le_bytes 4 0 ++ (le_bytes 8 rights ++ le_bytes 8 inheriting)))

  -- `Xfd_fdstat_get`: a descriptor that is not open clears the struct
  unfoldable pub fd_fdstat_get : ℕ → ℕ → Shim World → Reply World
  unfolding fdstat_bytes zeros
  fd_fdstat_get fd buf s = elim (entry_of fd (ensured s).fs) [
    | none ↦
        if ltb fd 3
        then with_memory wasi_success (ensured s) (store buf (fdstat_bytes 2 0 66 0) s.mem)
        else with_memory wasi_ebadf (ensured s) (store buf (zeros 24) s.mem)
    | some e ↦ with_memory wasi_success (ensured s) (
        store buf
          (fdstat_bytes (if e.is_dir then 3 else 4) (if e.append_f then 1 else 0)
            (if e.is_dir then dir_rights else file_rights) dir_rights)
          s.mem)
  ]

  -- `Xfd_fdstat_set_flags`
  unfoldable pub fd_fdstat_set_flags : ℕ → ℕ → Shim World → Reply World
  fd_fdstat_set_flags fd flags s = elim (entry_of fd (ensured s).fs) [
    | none ↦ some (wasi_ebadf, ensured s)
    | some e ↦
        let e' : FdEntry = record e { append_f = flags % 2 == 1 } in
        some (wasi_success, record (ensured s) { fs = with_entries (insert fd e') (ensured s).fs })
  ]

  -- device, inode and links, zero where the platform has none
  abbrev identity : Option (ℕ × ℕ × ℕ) → ℕ × ℕ × ℕ
  identity none = (0, 0, 0)
  identity (some t) = t

  -- the 64 bytes of a filestat
  unfoldable pub filestat_bytes : Stat os → Bytes
  unfolding mode_to_filetype
  filestat_bytes fi =
      let (dev, ino, nlink) = identity fi.sys in
      let mt = le_bytes 8 (os.unix_nano fi.mod_time) in
      le_bytes 8 dev
      ++ (le_bytes 8 ino
          ++ (le_bytes 8 (mode_to_filetype fi.mode)
              ++ (le_bytes 8 nlink ++ (le_bytes 8 fi.size ++ (mt ++ (mt ++ mt))))))

  -- `writeFilestat`, behind the call that gives the info
  unfoldable pub filestat_reply : ℕ → GoError ⊎ Stat os → Shim World → Reply World
  unfolding filestat_bytes
  filestat_reply buf (inl err) s = some (wasi_errno os nums (some err), s)
  filestat_reply buf (inr fi) s = with_memory wasi_success s (store buf (filestat_bytes fi) s.mem)

  -- `Xfd_filestat_get`
  unfoldable pub fd_filestat_get : ℕ → ℕ → Shim World → Reply World
  unfolding filestat_reply
  fd_filestat_get fd buf s = elim (open_at fd (ensured s).fs) [
    | no_file ↦ some (wasi_ebadf, ensured s)
    | directory f ↦ filestat_reply buf (info.file_info f s.world) (ensured s)
    | regular_file f ↦ filestat_reply buf (info.file_info f s.world) (ensured s)
  ]
