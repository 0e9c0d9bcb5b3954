-- ===== src/Wasi/Descriptors/Replies.antt =====
-- The replies of the handlers of converge/wasishim/fs.go that change no entry of the table.
use mathlib.Core.Path.{subst}
use duckdb_wasm2go_poc.Base.{
  ltb, length, ◌+◌, ◌^◌, ◌||◌, ℕ, ◌≡◌, Bool, true, false, Option, none, some, Bytes, refl,
  if◌then◌else◌,
}
use duckdb_wasm2go_poc.HostFs.Memory.{negative32}
use duckdb_wasm2go_poc.Wasi.Os.{PathText}
use duckdb_wasm2go_poc.Wasi.State.{Shim, Reply, fs_ensure, read_str, with_memory}
use duckdb_wasm2go_poc.Wasi.Resolve.{within, resolve_path, ensured, at_path}
use duckdb_wasm2go_poc.Wasi.Transfer.{OpenAt, no_file, directory, regular_file}
use duckdb_wasm2go_poc.Wasi.Files.{preopened, fd_prestat_get, fd_prestat_dir_name}
use duckdb_wasm2go_poc.Wasi.Confinement.{resolve_path-within}
use duckdb_wasm2go_poc.Wasi.Descriptors.{TableOk, Leaves, fs_ensure-TableOk}

module _ {W : Type 0} (text : PathText) where
  pub panic-Leaves : Leaves {W = W} text none
  panic-Leaves = record { table_ok = λ code s e. absurd cc }

  pub reply-Leaves : (code : ℕ) (s : Shim W) → TableOk text s.fs → Leaves text (some (code, s))
  reply-Leaves code s ok = record {
    table_ok =
        λ code' s' e. let same : s ≡ s' = cc in subst (λ (t : Shim W). TableOk text t.fs) same ok;
  }

  pub with_memory-Leaves :
      (code : ℕ) (s : Shim W) (m : Option Bytes)
      → TableOk text s.fs
      → Leaves text (with_memory code s m)
  with_memory-Leaves code s none ok = panic-Leaves
  with_memory-Leaves code s (some m) ok = reply-Leaves code (record s { mem = m }) ok

  pub option-Leaves :
      {A : Type 0} (o : Option A) (n : Reply W) (f : A → Reply W)
      → Leaves text n
      → ((a : A) → o ≡ some a → Leaves text (f a))
      → Leaves text (elim o [ none ↦ n | some a ↦ f a ])
  option-Leaves none n f hn hf = hn
  option-Leaves (some a) n f hn hf = hf a refl

  pub if-Leaves :
      (b : Bool) (r r' : Reply W)
      → Leaves text r
      → Leaves text r'
      → Leaves text (if b then r else r')
  if-Leaves true r r' h h' = h
  if-Leaves false r r' h h' = h'

  pub open_at-Leaves :
      (o : OpenAt) (n : Reply W) (d f : ℕ → Reply W)
      → Leaves text n
      → ((h : ℕ) → Leaves text (d h))
      → ((h : ℕ) → Leaves text (f h))
      → Leaves text (elim o [ no_file ↦ n | directory h ↦ d h | regular_file h ↦ f h ])
  open_at-Leaves no_file n d f hn hd hf = hn
  open_at-Leaves (directory h) n d f hn hd hf = hd h
  open_at-Leaves (regular_file h) n d f hn hd hf = hf h

  -- a call on a path
  pub at_path-Leaves :
      (dirfd ptr len : ℕ) (f : Bytes → Shim W → Reply W) (s : Shim W)
      → TableOk text s.fs
      → ((host : Bytes)
          → within (text.file_clean (fs_ensure s.fs).preopen_root) host ≡ true
          → TableOk text (fs_ensure s.fs)
          → Leaves text (f host (ensured s)))
      → Leaves text (at_path text dirfd ptr len f s)
  unfolding at_path
  at_path-Leaves dirfd ptr len f s ok each =
      let ok' = fs_ensure-TableOk text s.fs ok in
      option-Leaves (read_str s.mem ptr len) _ _ panic-Leaves (λ name read.
        option-Leaves (resolve_path text dirfd name (fs_ensure s.fs)) _ _
          (reply-Leaves _ (ensured s) ok')
          (λ host found.
            each host (resolve_path-within text dirfd name host (fs_ensure s.fs) found) ok'))

  pub fd_prestat_get-Leaves :
      (fd buf : ℕ) (s : Shim W) → TableOk text s.fs → Leaves text (fd_prestat_get fd buf s)
  unfolding fd_prestat_get
  fd_prestat_get-Leaves fd buf s ok =
      let ok' = fs_ensure-TableOk text s.fs ok in
      option-Leaves (preopened fd (fs_ensure s.fs)) _ _ (reply-Leaves _ (ensured s) ok')
        (λ name e. with_memory-Leaves _ (ensured s) _ ok')

  pub fd_prestat_dir_name-Leaves :
      (fd path_ptr path_len : ℕ) (s : Shim W)
      → TableOk text s.fs
      → Leaves text (fd_prestat_dir_name fd path_ptr path_len s)
  unfolding fd_prestat_dir_name
  fd_prestat_dir_name-Leaves fd path_ptr path_len s ok =
      let ok' = fs_ensure-TableOk text s.fs ok in
      option-Leaves (preopened fd (fs_ensure s.fs)) _ _ (reply-Leaves _ (ensured s) ok') (λ name e.
        if-Leaves (negative32 path_len || ltb path_len (length name)) _ _
          (reply-Leaves _ (ensured s) ok')
          (if-Leaves
            (ltb (length s.mem + (if negative32 path_ptr then 2 ^ 32 else 0))
              (path_ptr + length name))
            _ _ (reply-Leaves _ (ensured s) ok') (with_memory-Leaves _ (ensured s) _ ok')))
