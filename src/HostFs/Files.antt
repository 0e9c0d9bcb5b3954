-- ===== src/HostFs/Files.antt =====
-- The calls on an open file in converge/wasishim/hostfs.go. None is a Go panic.
use duckdb_wasm2go_poc.Base.{
  ℕ, ◌+◌, ◌^◌, Bool, true, false, ◌&&◌, Option, none, some, inl, inr, ltb, leb, ◌==◌, if◌then◌else◌,
  Bytes, length, take, drop,
}
use duckdb_wasm2go_poc.Base.Int.{ℤ, pos}
use duckdb_wasm2go_poc.HostFs.Os.{Os, GoError, err_eof, errno_of, minus, ebadf, efault}
use duckdb_wasm2go_poc.HostFs.Memory.{negative32, not_positive64, overwrite}
use duckdb_wasm2go_poc.HostFs.State.{Handles, host_lookup}

-- `err != nil && !errors.Is(err, io.EOF)`
abbrev pub is_failure : Option GoError → Bool
is_failure none = false
is_failure (some err_eof) = false
is_failure (some e) = true

abbrev pub is_error : Option GoError → Bool
is_error none = false
is_error (some e) = true

module _ (os : Os) where
  open os use {World, read_at, write_at, file_stat, truncate_file, sync}

  -- `Xhost_pread` on a file
  unfoldable pub pread_file : ℕ → ℕ → ℕ → ℕ → Bytes → World → Option (ℤ × Bytes)
  pread_file f buf n off mem w =
      let (got, err) = read_at f n off w in
      let code =
        if is_failure err && length got == 0 then minus (errno_of err) else pos (length got) in
      if not_positive64 n
      then some (pos 0, mem)
      else if negative32 buf
      then some (minus efault, mem)
      else if leb (2 ^ 63) (buf + n)
      then none
      else if ltb (length mem) (buf + n)
      then some (minus efault, mem)
      else some (code, overwrite buf got mem)

  -- `Xhost_pread`
  unfoldable pub host_pread : ℕ → ℕ → ℕ → ℕ → Handles → Bytes → World → Option (ℤ × Bytes)
  unfolding pread_file
  host_pread fd buf n off h mem w = elim (host_lookup fd h) [
    | none ↦ some (minus ebadf, mem)
    | some f ↦ pread_file f buf n off mem w
  ]

  -- `Xhost_pwrite` on a file
  unfoldable pub pwrite_file : ℕ → ℕ → ℕ → ℕ → Bytes → World → Option (ℤ × World)
  pwrite_file f buf n off mem w =
      let ((put, err), w') = write_at f (take n (drop buf mem)) off w in
      let code = if is_error err && put == 0 then minus (errno_of err) else pos put in
      if not_positive64 n
      then some (pos 0, w)
      else if negative32 buf
      then some (minus efault, w)
      else if leb (2 ^ 63) (buf + n)
      then none
      else if ltb (length mem) (buf + n)
      then some (minus efault, w)
      else some (code, w')

  -- `Xhost_pwrite`
  unfoldable pub host_pwrite : ℕ → ℕ → ℕ → ℕ → Handles → Bytes → World → Option (ℤ × World)
  unfolding pwrite_file
  host_pwrite fd buf n off h mem w = elim (host_lookup fd h) [
    | none ↦ some (minus ebadf, w)
    | some f ↦ pwrite_file f buf n off mem w
  ]

  -- `Xhost_size`
  unfoldable pub host_size : ℕ → Handles → World → ℤ
  host_size fd h w = elim (host_lookup fd h) [
    | none ↦ minus ebadf
    | some f ↦ elim (file_stat f w) [ inl err ↦ minus (errno_of (some err)) | inr fi ↦ fi.size ]
  ]

  -- `Xhost_mtime`
  unfoldable pub host_mtime : ℕ → Handles → World → ℤ
  host_mtime fd h w = elim (host_lookup fd h) [
    | none ↦ minus ebadf
    | some f ↦ elim (file_stat f w) [ inl err ↦ minus (errno_of (some err)) | inr fi ↦ fi.mtime ]
  ]

  -- `Xhost_trunc`
  unfoldable pub host_trunc : ℕ → ℕ → Handles → World → ℤ × World
  host_trunc fd n h w = elim (host_lookup fd h) [
    | none ↦ (minus ebadf, w)
    | some f ↦ let (err, w') = truncate_file f n w in (minus (errno_of err), w')
  ]

  -- `Xhost_sync`
  unfoldable pub host_sync : ℕ → Handles → World → ℤ × World
  host_sync fd h w = elim (host_lookup fd h) [
    | none ↦ (minus ebadf, w)
    | some f ↦ let (err, w') = sync f w in (minus (errno_of err), w')
  ]
