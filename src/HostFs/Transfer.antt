-- ===== src/HostFs/Transfer.antt =====
-- What `Xhost_pread` of converge/wasishim/hostfs.go does to linear memory.
use duckdb_wasm2go_poc.Base.{
  ℕ, ◌+◌, ◌^◌, ◌<◌, ◌≤◌, ◌≡◌, ◌⊎◌, true, false, ◌&&◌, some, ltb, leb, ◌==◌, if◌then◌else◌, Bytes,
  length, take, drop, arith, refl,
}
use duckdb_wasm2go_poc.Base.Int.{ℤ, pos}
use duckdb_wasm2go_poc.HostFs.Os.{Os, errno_of, minus}
use duckdb_wasm2go_poc.HostFs.Memory.{negative32, not_positive64, overwrite}
use duckdb_wasm2go_poc.HostFs.State.{Handles, host_lookup}
use duckdb_wasm2go_poc.HostFs.Files.{is_failure, pread_file, host_pread}
use duckdb_wasm2go_poc.HostFs.Copy.{
  length-overwrite, take-overwrite, drop-overwrite, copied-overwrite,
}

-- A read of at most `n` bytes that the buffer of the module has room for, on an open file: the reply
-- is the number of bytes that the file gave, or an error if it failed before any. Those bytes stand
-- in the buffer, and memory around them is as before. `ReadAt` gives no more bytes than asked for.
pub host_pread_transfer :
    (os : Os) (fd f buf n off : ℕ) (h : Handles) (mem : Bytes) (w : os.World)
    → host_lookup fd h ≡ some f
    → length (os.read_at f n off w).0 ≤ n
    → 0 < n
    → buf + n ≤ length mem
    → buf < 2 ^ 31
    → length mem < 2 ^ 63
    → let (got, err) = os.read_at f n off w in
      (code : ℤ) × (mem' : Bytes) × (host_pread os fd buf n off h mem w ≡ some (code, mem'))
      × (((code ≡ pos (length got)) × ((is_failure err && length got == 0) ≡ false))
          ⊎ ((code ≡ minus (errno_of err)) × (is_failure err ≡ true) × (length got ≡ 0)))
      × (length mem' ≡ length mem)
      × (take buf mem' ≡ take buf mem)
      × (take (length got) (drop buf mem') ≡ got)
      × (drop (buf + length got) mem' ≡ drop (buf + length got) mem)
unfolding host_pread pread_file
host_pread_transfer os fd f buf n off h mem w open_fd few some_bytes room small_buf small_mem =
    let (got, err) = os.read_at f n off w in
    let code =
      if is_failure err && length got == 0 then minus (errno_of err) else pos (length got) in
    let e1 : not_positive64 n ≡ false = ground arith in
    let e2 : negative32 buf ≡ false = ground arith in
    let e3 : leb (2 ^ 63) (buf + n) ≡ false = ground arith in
    let e4 : ltb (length mem) (buf + n) ≡ false = ground arith in
    (
      code,
      overwrite buf got mem,
      rw (open_fd, host_pread) (rw (e1, pread_file) (rw e2 (rw e3 (rw e4 refl)))),
      ground arith,
      length-overwrite buf got mem,
      take-overwrite buf got mem,
      copied-overwrite buf got mem (omega arith),
      drop-overwrite buf got mem,
    )
