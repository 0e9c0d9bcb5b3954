-- ===== src/Wasi/Resolve.antt =====
-- `resolvePath` of converge/wasishim/fs.go: a path of the module is joined to a host directory, and
-- refused if it leaves the preopened one.
use duckdb_wasm2go_poc.Base.{
  ℕ, Bool, not, ◌||◌, [], ◌∷◌, ◌++◌, Option, none, some, ◌==◌, if◌then◌else◌, Bytes, map,
}
use duckdb_wasm2go_poc.Base.Text.{codes, text_eq, has_prefix}
use duckdb_wasm2go_poc.Wasi.Os.{PathText}
use duckdb_wasm2go_poc.Wasi.State.{
  Fs, FdEntry, Shim, Reply, fs_ensure, entry_of, read_str, wasi_enotcapable,
}

-- `strings.ReplaceAll(wasiPath, "\\", "/")`
abbrev pub forward_slashes : Bytes → Bytes
forward_slashes = map (λ c. if c == b'\\' then b'/' else c)

abbrev pub trim_slash : Bytes → Bytes
trim_slash [] = []
trim_slash (c ∷ cs) = if c == b'/' then cs else c ∷ cs

-- the test that a clean host path stays within the clean root
abbrev pub within : Bytes → Bytes → Bool
within root host =
    text_eq root (codes "/") || text_eq host root || has_prefix host (root ++ codes "/")

-- a path below the directory of an entry
unfoldable pub resolve_below : PathText → Bytes → FdEntry → Bytes → Option Bytes
resolve_below text root base wasi_path =
    let rel = trim_slash (text.path_clean (b'/' ∷ forward_slashes wasi_path)) in
    let host =
      if has_prefix wasi_path (codes "/")
      then text.join root rel
      else text.join base.host_path rel in
    let hc = text.file_clean host in
    if not base.is_dir then none else if within (text.file_clean root) hc then some hc else none

-- `resolvePath`, once the table is there
unfoldable pub resolve_path : PathText → ℕ → Bytes → Fs → Option Bytes
unfolding resolve_below
resolve_path text dirfd wasi_path s = elim (entry_of dirfd s) [
  | none ↦ none
  | some base ↦ resolve_below text s.preopen_root base wasi_path
]

abbrev pub ensured : {W : Type 0} → Shim W → Shim W
ensured s = record s { fs = fs_ensure s.fs }

-- A call on a path: it is read from memory and resolved, and `use_it` gets the host path.
unfoldable pub at_path :
    {W : Type 0} → PathText → ℕ → ℕ → ℕ → (Bytes → Shim W → Reply W) → Shim W → Reply W
unfolding resolve_path
at_path text dirfd ptr len use_it s = elim (read_str s.mem ptr len) [
  | none ↦ none
  | some name ↦ elim (resolve_path text dirfd name (fs_ensure s.fs)) [
    | none ↦ some (wasi_enotcapable, ensured s)
    | some host ↦ use_it host (ensured s)
  ]
]
