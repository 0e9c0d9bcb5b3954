-- ===== src/Wasi/Transfer.antt =====
-- Reads and writes of converge/wasishim/fs.go, on the file behind a descriptor.
use duckdb_wasm2go_poc.Base.{ℕ, ◌||◌, [], Option, none, some, ◌==◌, if◌then◌else◌}
use duckdb_wasm2go_poc.HostFs.Os.{GoError}
use duckdb_wasm2go_poc.Wasi.Os.{WasiOs}
use duckdb_wasm2go_poc.Wasi.State.{
  Fs, FdEntry, Shim, Reply, Errnos, entry_of, wasi_errno, put_le, with_memory, wasi_success,
  wasi_ebadf, wasi_eisdir, wasi_einval,
}
use duckdb_wasm2go_poc.Wasi.Resolve.{ensured}
use duckdb_wasm2go_poc.Wasi.Iovecs.{
  rounds, Moved, read_into, write_from, gathered, gather_panics, gather_fails, gather,
}

-- What a descriptor names: nothing that is open, a directory, or a file, with its handle.
pub data OpenAt : Type 0 where
  no_file : OpenAt
  directory : ℕ → OpenAt
  regular_file : ℕ → OpenAt

abbrev pub open_as : Option FdEntry → OpenAt
open_as none = no_file
open_as (some e) = elim e.file [
  | none ↦ no_file
  | some f ↦ if e.is_dir then directory f else regular_file f
]

unfoldable pub open_at : ℕ → Fs → OpenAt
open_at fd s = open_as (entry_of fd s)

module _ (os : WasiOs) (nums : Errnos) where
  -- the count is written behind a transfer
  abbrev pub counted : ℕ → Shim os.World → Option (Moved os.World) → Reply os.World
  counted ptr s none = none
  counted ptr s (some m) =
      with_memory m.code (record s { world = m.state }) (put_le 4 ptr m.total m.mem)

  -- `Xfd_read`: standard input is at its end
  unfoldable pub fd_read : ℕ → ℕ → ℕ → ℕ → Shim os.World → Reply os.World
  fd_read fd iovs iovs_len nread s = elim (open_at fd (ensured s).fs) [
    | no_file ↦
        if fd == 0
        then with_memory wasi_success (ensured s) (put_le 4 nread 0 s.mem)
        else some (wasi_ebadf, ensured s)
    | directory f ↦ some (wasi_eisdir, ensured s)
    | regular_file f ↦
        counted nread (ensured s)
          (read_into (wasi_errno os nums) (os.read_file f) (rounds iovs_len) iovs 0 s.mem s.world)
  ]

  abbrev pub sections : Option (Moved (os.Section × os.World)) → Option (Moved os.World)
  sections none = none
  sections (some m) =
      some (record { total = m.total; code = m.code; mem = m.mem; state = m.state.1 })

  -- `Xfd_pread`
  unfoldable pub fd_pread : ℕ → ℕ → ℕ → ℕ → ℕ → Shim os.World → Reply os.World
  fd_pread fd iovs iovs_len offset nread s = elim (open_at fd (ensured s).fs) [
    | no_file ↦ some (wasi_ebadf, ensured s)
    | directory f ↦ some (wasi_eisdir, ensured s)
    | regular_file f ↦ counted nread (ensured s) (
        sections (
          read_into {R = os.Section × os.World} (wasi_errno os nums)
            (λ n r. let (got, section, w) = os.read_section n r in (got, (section, w)))
            (rounds iovs_len) iovs 0 s.mem (os.new_section f offset, s.world)))
  ]

  -- `fdWriteStd`
  unfoldable pub fd_write_std : ℕ → ℕ → ℕ → ℕ → Shim os.World → Reply os.World
  fd_write_std fd iovs iovs_len nwritten s =
      counted nwritten s
        (write_from (wasi_errno os nums) (os.write_std fd) (rounds iovs_len) iovs 0 s.mem s.world)

  -- `Xfd_write`
  unfoldable pub fd_write : ℕ → ℕ → ℕ → ℕ → Shim os.World → Reply os.World
  unfolding fd_write_std
  fd_write fd iovs iovs_len nwritten s =
      let to_file : Reply os.World = elim (open_at fd (ensured s).fs) [
        | no_file ↦ some (wasi_ebadf, ensured s)
        | directory f ↦ some (wasi_eisdir, ensured s)
        | regular_file f ↦ counted nwritten (ensured s) (
            write_from (wasi_errno os nums) (os.write_file f) (rounds iovs_len) iovs 0 s.mem
              s.world)
      ] in
      if fd == 1 || fd == 2 then fd_write_std fd iovs iovs_len nwritten s else to_file

  -- the end of `Xfd_pwrite`
  abbrev pub written : ℕ → Shim os.World → (ℕ × Option GoError) × os.World → Reply os.World
  written ptr s ((put, err), w) =
      with_memory (wasi_errno os nums err) (record s { world = w }) (put_le 4 ptr put s.mem)

  -- `Xfd_pwrite`
  unfoldable pub fd_pwrite : ℕ → ℕ → ℕ → ℕ → ℕ → Shim os.World → Reply os.World
  fd_pwrite fd iovs iovs_len offset nwritten s = elim (open_at fd (ensured s).fs) [
    | no_file ↦ some (wasi_ebadf, ensured s)
    | directory f ↦ some (wasi_eisdir, ensured s)
    | regular_file f ↦ elim (gather (rounds iovs_len) iovs [] s.mem) [
      | gather_panics ↦ none
      | gather_fails ↦ some (wasi_einval, ensured s)
      | gathered buf ↦ written nwritten (ensured s) (os.write_file_at f buf offset s.world)
    ]
  ]
