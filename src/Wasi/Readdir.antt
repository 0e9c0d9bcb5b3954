-- ===== src/Wasi/Readdir.antt =====
-- `Xfd_readdir` of converge/wasishim/fs.go: the entries of a directory from a cookie on, as records in
-- the caller's buffer.
use duckdb_wasm2go_poc.Base.{
  ℕ, ◌+◌, ◌^◌, Bool, false, not, ◌&&◌, ◌||◌, List, [], ◌∷◌, ◌++◌, Option, none, some, ◌⊎◌, inl, inr,
  ltb, leb, ◌==◌, if◌then◌else◌, Bytes, insert, length, take, drop, map,
}
use duckdb_wasm2go_poc.Base.Text.{codes}
use duckdb_wasm2go_poc.Exhost.Abi.{plus32, minus32}
use duckdb_wasm2go_poc.HostFs.Os.{GoError}
use duckdb_wasm2go_poc.HostFs.Memory.{negative32, overwrite, less32}
use duckdb_wasm2go_poc.Wasi.Os.{WasiOs, Stat, DirEntry, PathOs, InfoOs, PathText}
use duckdb_wasm2go_poc.Wasi.State.{
  FdEntry, Shim, Reply, Errnos, entry_of, with_entries, wasi_errno, le_bytes, put_le, copy_range,
  with_memory, wasi_success, wasi_ebadf, wasi_enotdir,
}
use duckdb_wasm2go_poc.Wasi.Resolve.{ensured}

-- `vent`
pub record Vent : Type 0 where
  pub name : Bytes
  pub ino : ℕ
  pub filetype : ℕ

-- the header of a record: the next cookie, the inode, the length of the name and the type
unfoldable pub dirent_header : ℕ → Vent → Bytes
dirent_header idx v =
    le_bytes 8 (idx + 1)
    ++ (le_bytes 8 v.ino ++ (le_bytes 4 (length v.name) ++ (le_bytes 1 v.filetype ++ le_bytes 3 0)))

-- `copy(mem[at:], bytes)`
unfoldable pub copy_from : ℕ → Bytes → Bytes → Option Bytes
copy_from at bytes mem =
    if negative32 at || ltb (length mem) at then none else some (overwrite at bytes mem)

abbrev pub positive32 : ℕ → Bool
positive32 n = not (n == 0) && not (negative32 n)

-- What `emit` leaves: whether to go on, the bytes used, and memory.
pub record Emitted : Type 0 where
  pub goes_on : Bool
  pub used : ℕ
  pub mem : Bytes

abbrev pub emitted : Bool → ℕ → Option Bytes → Option Emitted
emitted goes_on used none = none
emitted goes_on used (some mem) = some (record { goes_on = goes_on; used = used; mem = mem })

-- a header that does not fit is cut
unfoldable pub emit_cut : ℕ → ℕ → Bytes → ℕ → Bytes → Option Emitted
emit_cut buf buf_len header used mem =
    let room = minus32 buf_len used in
    let lo = plus32 buf used in
    if positive32 room
    then emitted false (plus32 used room) (copy_range lo (plus32 lo room) (take room header) mem)
    else some (record { goes_on = false; used = used; mem = mem })

-- the name behind a header, cut to the room that is left
unfoldable pub emit_name : ℕ → ℕ → Bytes → ℕ → Bytes → Option Emitted
emit_name buf buf_len name used mem =
    let room = minus32 buf_len used in
    let n = if less32 room (length name) then room else length name in
    let lo = plus32 buf used in
    if positive32 room
    then emitted (n == length name) (plus32 used n) (copy_range lo (plus32 lo n) (take n name) mem)
    else some (record { goes_on = false; used = used; mem = mem })

-- `emit`
unfoldable pub emit : ℕ → ℕ → ℕ → Vent → ℕ → Bytes → Option Emitted
unfolding emit_cut emit_name
emit buf buf_len idx v used mem =
    let header = dirent_header idx v in
    let cut = emit_cut buf buf_len header used mem in
    let whole : Option Emitted = elim (copy_from (plus32 buf used) header mem) [
      | none ↦ none
      | some mem' ↦ emit_name buf buf_len v.name (plus32 used 24) mem'
    ] in
    if less32 buf_len (plus32 used 24) then cut else whole

-- the loop over the entries from a cookie on: the bytes used, and memory
unfoldable pub emit_all : ℕ → ℕ → ℕ → List Vent → ℕ → Bytes → Option (ℕ × Bytes)
emit_all buf buf_len idx [] used mem = some (used, mem)
emit_all buf buf_len idx (v ∷ vs) used mem = elim (emit buf buf_len idx v used mem) [
  | none ↦ none
  | some e ↦
      let more = emit_all buf buf_len (idx + 1) vs e.used e.mem in
      if e.goes_on then more else some (e.used, e.mem)
]

module _ (os : WasiOs) (nums : Errnos) (text : PathText) (p : PathOs os) (info : InfoOs os) where
  open os use {World}

  -- the inode of `statIdentity`, zero where there is none
  abbrev inode : GoError ⊎ Stat os → ℕ
  inode (inl err) = 0
  inode (inr fi) = elim fi.sys [ none ↦ 0 | some (dev, ino, links) ↦ ino ]

  -- `dirIno`
  unfoldable pub dir_ino : Bytes → World → ℕ
  dir_ino target w = inode (p.stat target w)

  abbrev vent_of : World → DirEntry → Vent
  vent_of w de = record {
    name = de.name;
    ino = inode (info.entry_info de w);
    filetype = if de.is_dir then 3 else if de.is_symlink then 7 else 4;
  }

  -- the virtual list: the directory, its parent, and the entries
  unfoldable pub virtual : Bytes → List DirEntry → World → List Vent
  unfolding dir_ino
  virtual host_path entries w =
      record { name = codes "."; ino = dir_ino host_path w; filetype = 3 }
      ∷ record { name = codes ".."; ino = dir_ino (text.dir host_path) w; filetype = 3 }
      ∷ map (vent_of w) entries

  abbrev pub count_reply : ℕ → Shim World → Option (ℕ × Bytes) → Reply World
  count_reply ptr s none = none
  count_reply ptr s (some (used, mem)) = with_memory wasi_success s (put_le 4 ptr used mem)

  -- the rest of `Xfd_readdir`; a negative cookie is a Go panic
  unfoldable pub list_from_cookie : ℕ → ℕ → ℕ → ℕ → Bytes → List DirEntry → Shim World → Reply World
  list_from_cookie buf buf_len cookie ptr host_path entries s =
      let out =
        emit_all buf buf_len cookie (drop cookie (virtual host_path entries s.world)) 0 s.mem in
      if leb (2 ^ 63) cookie then none else count_reply ptr s out

  -- the entries of a directory, loaded once
  abbrev pub load :
      ℕ → FdEntry → (List DirEntry → Shim World → Reply World) → Shim World → Reply World
  load fd e use_it s = elim e.dir_entries [
    | some ents ↦ use_it ents s
    | none ↦ elim (p.read_dir e.host_path s.world) [
      | inl err ↦ some (wasi_errno os nums (some err), s)
      | inr ents ↦
          let e' : FdEntry = record e { dir_entries = some ents } in
          use_it ents (record s { fs = with_entries (insert fd e') s.fs })
    ]
  ]

  -- `Xfd_readdir`
  unfoldable pub fd_readdir : ℕ → ℕ → ℕ → ℕ → ℕ → Shim World → Reply World
  fd_readdir fd buf buf_len cookie ptr s = elim (entry_of fd (ensured s).fs) [
    | none ↦ some (wasi_ebadf, ensured s)
    | some e ↦
        let listed = load fd e (list_from_cookie buf buf_len cookie ptr e.host_path) (ensured s) in
        if e.is_dir then listed else some (wasi_enotdir, ensured s)
  ]
