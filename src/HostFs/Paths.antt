-- ===== src/HostFs/Paths.antt =====
-- The calls on paths in converge/wasishim/hostfs.go. None is a Go panic.
use duckdb_wasm2go_poc.Base.{
  ℕ, Bool, ◌&&◌, ◌||◌, not, List, [], ◌∷◌, ◌++◌, Option, none, some, ◌⊎◌, inl, inr, ltb, leb,
  if◌then◌else◌, Bytes, length,
}
use duckdb_wasm2go_poc.Base.Int.{ℤ, pos}
use duckdb_wasm2go_poc.Exhost.Abi.{plus32}
use duckdb_wasm2go_poc.HostFs.Os.{
  Os, GoError, FileInfo, is_not_exist, errno_of, minus, einval, erange,
}
use duckdb_wasm2go_poc.HostFs.Memory.{host_string, negative32, overwrite, less32}
use duckdb_wasm2go_poc.HostFs.Open.{is_empty_path, signed32}

-- A path is read, and refused if it is empty.
abbrev pub with_path {ℓ} : {A : Type ℓ} → Bytes → ℕ → ℕ → A → (Bytes → Option A) → Option A
with_path mem ptr len refused use_it = elim (host_string mem ptr len) [
  | none ↦ none
  | some path ↦ if is_empty_path path then some refused else use_it path
]

-- what a missing path and an error give, in `Xhost_exists` and `Xhost_isdir`
abbrev stat_code : (Bool → ℕ) → GoError ⊎ FileInfo → ℤ
stat_code code (inl err) = if is_not_exist err then pos 0 else minus (errno_of (some err))
stat_code code (inr fi) = pos (code fi.is_dir)

abbrev code_of {ℓ} : {W : Type ℓ} → Option GoError × W → Option (ℤ × W)
code_of (err, w) = some (minus (errno_of err), w)

-- the name of an entry as it is listed, without the newline
abbrev pub entry_text : Bytes × Bool → Bytes
entry_text (name, dir) = if dir then name ++ (b'/' ∷ []) else name

-- the loop of `Xhost_listdir`, with `n` bytes written
unfoldable pub list_entries : List (Bytes × Bool) → ℕ → ℕ → ℕ → Bytes → Option (ℤ × Bytes)
list_entries [] out outcap n mem = some (signed32 n, mem)
list_entries (e ∷ rest) out outcap n mem =
    let text = entry_text e in
    let need = plus32 (length text) 1 in
    let end = plus32 (plus32 out n) need in
    let at = plus32 out n in
    let index = plus32 at (length text) in
    let copied = overwrite at text mem in
    let more = list_entries rest out outcap (plus32 n need) (overwrite index (b'\n' ∷ []) copied) in
    if less32 outcap (plus32 n need) || (not (negative32 end) && ltb (length mem) end)
    then some (minus erange, mem)
    else if negative32 at || ltb (length mem) at
    then none
    else if negative32 index || leb (length mem) index
    then none
    else more

module _ (os : Os) where
  open os use {World, stat, remove_path, rename, mkdir_all, remove_all, read_dir}

  -- `Xhost_exists`
  unfoldable pub host_exists : ℕ → ℕ → Bytes → World → Option ℤ
  host_exists ptr len mem w =
      with_path mem ptr len (minus einval)
        (λ path. some (stat_code (λ dir. if dir then 0 else 1) (stat path w)))

  -- `Xhost_isdir`
  unfoldable pub host_isdir : ℕ → ℕ → Bytes → World → Option ℤ
  host_isdir ptr len mem w =
      with_path mem ptr len (minus einval)
        (λ path. some (stat_code (λ dir. if dir then 1 else 0) (stat path w)))

  -- `Xhost_unlink`
  unfoldable pub host_unlink : ℕ → ℕ → Bytes → World → Option (ℤ × World)
  host_unlink ptr len mem w =
      with_path mem ptr len (minus einval, w) (λ path. code_of (remove_path path w))

  -- `Xhost_rename`: both paths are read before either is tested
  unfoldable pub host_rename : ℕ → ℕ → ℕ → ℕ → Bytes → World → Option (ℤ × World)
  host_rename old_ptr old_len new_ptr new_len mem w = elim (host_string mem old_ptr old_len) [
    | none ↦ none
    | some old ↦ elim (host_string mem new_ptr new_len) [
      | none ↦ none
      | some new ↦
          if is_empty_path old || is_empty_path new
          then some (minus einval, w)
          else code_of (rename old new w)
    ]
  ]

  -- `Xhost_mkdir`, with permissions 0755
  unfoldable pub host_mkdir : ℕ → ℕ → Bytes → World → Option (ℤ × World)
  host_mkdir ptr len mem w =
      with_path mem ptr len (minus einval, w) (λ path. code_of (mkdir_all path 493 w))

  -- `Xhost_rmdir`
  unfoldable pub host_rmdir : ℕ → ℕ → Bytes → World → Option (ℤ × World)
  host_rmdir ptr len mem w =
      with_path mem ptr len (minus einval, w) (λ path. code_of (remove_all path w))

  -- `Xhost_listdir` on a path
  unfoldable pub list_path : Bytes → ℕ → ℕ → Bytes → World → Option (ℤ × Bytes)
  unfolding list_entries
  list_path path out outcap mem w = elim (read_dir path w) [
    | inl err ↦ some (minus (errno_of (some err)), mem)
    | inr ents ↦ list_entries ents out outcap 0 mem
  ]

  -- `Xhost_listdir`
  unfoldable pub host_listdir : ℕ → ℕ → ℕ → ℕ → Bytes → World → Option (ℤ × Bytes)
  unfolding list_path
  host_listdir ptr len out outcap mem w =
      with_path mem ptr len (minus einval, mem) (λ path. list_path path out outcap mem w)
