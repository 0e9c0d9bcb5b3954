-- ===== src/Wasi/Confinement.antt =====
-- The calls on paths in converge/wasishim/fs.go reach no host path outside the preopened directory.
pub mod PathCalls
use duckdb_wasm2go_poc.Base.{
  ℕ, ◌≡◌, ◌⊎◌, Bool, true, false, Option, none, some, inl, inr, Bytes, refl, ap, ◌∙◌, sym,
  Bool-cases, Option-cases, arith, ◌∷◌, if◌then◌else◌, not, ◌++◌, ◌||◌,
}
use duckdb_wasm2go_poc.Base.Text.{codes, text_eq, has_prefix}
use duckdb_wasm2go_poc.HostFs.Os.{GoError}
use duckdb_wasm2go_poc.Wasi.Os.{WasiOs, OpenMode, Stat, PathOs, InfoOs, PathText}
use duckdb_wasm2go_poc.Wasi.State.{Fs, FdEntry, Shim, Reply, Errnos, fs_ensure, entry_of, read_str}
use duckdb_wasm2go_poc.Wasi.Resolve.{within, resolve_below, resolve_path, ensured, at_path}

-- a result that passed a test has what the test asks
passed :
    (P : Bytes → Bool) (is_dir : Bool) (hc host : Bytes)
    → (if not is_dir then none else if P hc then some hc else none) ≡ some host
    → P host ≡ true
passed P false hc host h = absurd cc
passed P true hc host h = elim (Bool-cases (P hc)) [
  | inl e ↦
      let same : some hc ≡ some host = rw e at h in let here : hc ≡ host = cc in ap P (sym here) ∙ e
  | inr e ↦ let refused : Path (Option Bytes) none (some host) = rw e at h in absurd cc
]

-- A path that a call may use is in the preopened directory.
resolve_below-within :
    (text : PathText) (root : Bytes) (base : FdEntry) (name host : Bytes)
    → resolve_below text root base name ≡ some host
    → within (text.file_clean root) host ≡ true
unfolding resolve_below
resolve_below-within text root base name host h =
    passed (within (text.file_clean root)) base.is_dir _ host h

pub resolve_path-within :
    (text : PathText) (fd : ℕ) (name host : Bytes) (s : Fs)
    → resolve_path text fd name s ≡ some host
    → within (text.file_clean s.preopen_root) host ≡ true
unfolding resolve_path
resolve_path-within text fd name host s h = elim (Option-cases (entry_of fd s)) [
  | inl none_there ↦
      let refused : Path (Option Bytes) none (some host) = rw (none_there, resolve_path) at h in
      absurd cc
  | inr (base, there) ↦
      resolve_below-within text s.preopen_root base name host (rw (there, resolve_path) at h)
]

-- Two file systems that answer alike for the paths in a directory.
pub record Agrees (os : WasiOs) (root : Bytes) (p q : PathOs os) : Type 0 where
  pub stats :
      (path : Bytes) (w : os.World) → within root path ≡ true → p.stat path w ≡ q.stat path w
  pub lstats :
      (path : Bytes) (w : os.World) → within root path ≡ true → p.lstat path w ≡ q.lstat path w
  pub open_dirs :
      (path : Bytes) (w : os.World)
      → within root path ≡ true
      → p.open_dir path w ≡ q.open_dir path w
  pub open_files :
      (path : Bytes) (mode : OpenMode) (w : os.World)
      → within root path ≡ true
      → p.open_file path mode w ≡ q.open_file path mode w
  pub mkdirs :
      (path : Bytes) (w : os.World) → within root path ≡ true → p.mkdir path w ≡ q.mkdir path w
  pub removes :
      (path : Bytes) (w : os.World) → within root path ≡ true → p.remove path w ≡ q.remove path w
  pub renames :
      (old new : Bytes) (w : os.World)
      → within root old ≡ true
      → within root new ≡ true
      → p.rename old new w ≡ q.rename old new w
  pub times :
      (path : Bytes) (at mt : os.Time) (w : os.World)
      → within root path ≡ true
      → p.chtimes path at mt w ≡ q.chtimes path at mt w

-- A call on a path is the same if it is the same on the paths in the preopened directory.
pub at_path-same :
    {W : Type 0} (text : PathText) (dirfd ptr len : ℕ) (f g : Bytes → Shim W → Reply W) (s : Shim W)
    → ((host : Bytes)
        → within (text.file_clean (fs_ensure s.fs).preopen_root) host ≡ true
        → f host (ensured s) ≡ g host (ensured s))
    → at_path text dirfd ptr len f s ≡ at_path text dirfd ptr len g s
unfolding at_path
at_path-same text dirfd ptr len f g s same = elim (Option-cases (read_str s.mem ptr len)) [
  | inl panics ↦ rw (panics, at_path) refl
  | inr (name, read) ↦ elim (Option-cases (resolve_path text dirfd name (fs_ensure s.fs))) [
    | inl refused ↦ rw (read, at_path) (rw (refused, at_path) refl)
    | inr (host, found) ↦
        rw (read, at_path)
          (rw (found, at_path)
            (same host (resolve_path-within text dirfd name host (fs_ensure s.fs) found)))
  ]
]
