-- ===== src/Wasi/Descriptors.antt =====
-- The table of descriptors of converge/wasishim/fs.go: what every entry is, whatever the calls.
mod Replies
mod FdReplies
mod PathReplies
pub mod Steps
use duckdb_wasm2go_poc.Base.{
  ℕ, ◌≡◌, ◌⊎◌, Bool, true, false, Option, none, some, inl, inr, Bytes, refl, ap, ◌∙◌, sym,
  Bool-cases, Option-cases, if◌then◌else◌, IntMap, insert, remove, ◌==◌, arith,
}
use duckdb_wasm2go_poc.HostFs.Os.{GoError}
use duckdb_wasm2go_poc.Wasi.Os.{WasiOs, PathOs, InfoOs, PathText, DirEntry}
use duckdb_wasm2go_poc.Wasi.State.{
  Fs, FdEntry, Shim, Reply, Errnos, preopen_entry, fs_ensure, entry_of, with_entries, alloc_fd,
  read_str, with_memory,
}
use duckdb_wasm2go_poc.Wasi.Resolve.{within, resolve_path, ensured, at_path}
use duckdb_wasm2go_poc.Wasi.Confinement.{resolve_path-within}

-- An entry is a file or directory of the preopened directory, with its handle, or that directory.
unfoldable pub EntryOk : PathText → Bytes → FdEntry → Type 0
EntryOk text root e =
    ((e.is_preopen ≡ true) × (e.file ≡ none) × (e.is_dir ≡ true) × (e.host_path ≡ root))
    ⊎ ((e.is_preopen ≡ false)
        × ((f : ℕ) × (e.file ≡ some f))
        × (within (text.file_clean root) e.host_path ≡ true))

unfoldable pub TableOk : PathText → Fs → Type 0
TableOk text fs = (fd : ℕ) (e : FdEntry) → entry_of fd fs ≡ some e → EntryOk text fs.preopen_root e

-- The table is in order after a reply, unless that is a panic.
pub record Leaves {W : Type 0} (text : PathText) (r : Reply W) : Type 0 where
  pub table_ok : (code : ℕ) (s : Shim W) → r ≡ some (code, s) → TableOk text s.fs

module _ (text : PathText) where
  some_entry : {a b : FdEntry} → Path (Option FdEntry) (some a) (some b) → b ≡ a
  some_entry h = cc

  preopen-EntryOk : (root : Bytes) → EntryOk text root (preopen_entry root)
  unfolding EntryOk
  preopen-EntryOk root = inl (refl, refl, refl, refl)

  ensured_fields :
      (fds : Option (IntMap FdEntry)) (next : ℕ) (name root : Bytes)
      → TableOk text
          (record { fds = fds; next_fd = next; preopen_name = name; preopen_root = root })
      → TableOk text (
          fs_ensure
            (record { fds = fds; next_fd = next; preopen_name = name; preopen_root = root }))
  unfolding fs_ensure TableOk entry_of
  ensured_fields (some t) next name root ok j e at = ok j e at
  ensured_fields none next name root ok j e at = elim (Bool-cases (j == 3)) [
    | inl here ↦ rw (some_entry (rw here at at)) (preopen-EntryOk _)
    | inr other ↦ let nothing : Path (Option FdEntry) none (some e) = rw other at at in absurd cc
  ]

  pub fs_ensure-TableOk : (fs : Fs) → TableOk text fs → TableOk text (fs_ensure fs)
  fs_ensure-TableOk fs = ensured_fields fs.fds fs.next_fd fs.preopen_name fs.preopen_root

  pub insert-TableOk :
      (fd : ℕ) (e : FdEntry) (fs : Fs)
      → EntryOk text fs.preopen_root e
      → TableOk text fs
      → TableOk text (with_entries (insert fd e) fs)
  unfolding TableOk with_entries entry_of
  insert-TableOk fd e fs e_ok ok j e' at = elim (Bool-cases (j == fd)) [
    | inl here ↦ rw (some_entry (rw here at at)) e_ok
    | inr other ↦ ok j e' (rw other at at)
  ]

  pub remove-TableOk :
      (fd : ℕ) (fs : Fs) → TableOk text fs → TableOk text (with_entries (remove fd) fs)
  unfolding TableOk with_entries entry_of
  remove-TableOk fd fs ok j e' at = elim (Bool-cases (j == fd)) [
    | inl here ↦ let nothing : Path (Option FdEntry) none (some e') = rw here at at in absurd cc
    | inr other ↦ ok j e' (rw other at at)
  ]
