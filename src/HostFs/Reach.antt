-- ===== src/HostFs/Reach.antt =====
-- The states that opens and closes of converge/wasishim/hostfs.go reach, in any order, beside other
-- engines of the process, which share the lock registry.
use Prim.Native.String.{String}
use duckdb_wasm2go_poc.Base.{
  ℕ, ◌+◌, ◌^◌, ◌<◌, ◌≡◌, ◌≢◌, Bool, true, false, none, inl, inr, Bytes, ap, ◌∙◌, sym, arith,
}
use duckdb_wasm2go_poc.Locks.{Registry, Flock, host_lock_file, host_lock_unregister}
use duckdb_wasm2go_poc.HostFs.Os.{Os}
use duckdb_wasm2go_poc.HostFs.State.{Handles, host_lookup, next_fd}
use duckdb_wasm2go_poc.HostFs.Open.{open_path, open_flags, permissions, host_close}
use duckdb_wasm2go_poc.HostFs.LockPaths.{lock_file_paths, unregister_paths}
use duckdb_wasm2go_poc.HostFs.OpenFiles.{
  HandlesOk, Fresh, host_close-HandlesOk, open_path-HandlesOk, locks-HandlesOk,
}

-- the state before the first open, with the registry as it stands
abbrev pub unopened : ℕ → Registry → Handles
unopened n s = record { host_fds = none; host_next_fd = n; locks = s }

-- An open needs a new handle of the operating system, and room in the descriptor counter. Between the
-- calls of this engine others lock files of theirs that they have opened, and release them.
pub data Reach (ours : ℕ → Bool) (os : Os) : Handles → Type 0 where
  unused :
      (n : ℕ) (s : Registry)
      → ((f : ℕ) → ours f ≡ true → s.path f ≡ none)
      → Reach ours os (unopened n s)
  after_open :
      {h : Handles} (path : Bytes) (flags : ℕ) (w : os.World)
      → Reach ours os h
      → ((f : ℕ) (w' : os.World)
          → os.open_file path (open_flags flags) (permissions flags) w ≡ (inr f, w')
          → Fresh ours f h)
      → next_fd h.host_fds h.host_next_fd + 1 < 2 ^ 32
      → Reach ours os (open_path os path flags h w).1
  after_close :
      {h : Handles} (fd : ℕ) (w : os.World)
      → Reach ours os h
      → Reach ours os (host_close os fd h w).1
  locked_elsewhere :
      {h : Handles} (first : Flock) (probe : Bool) (key : String) (f : ℕ) (exclusive : Bool)
      → Reach ours os h
      → ours f ≡ false
      → h.locks.path f ≡ none
      → Reach ours os (record h { locks = (host_lock_file first probe key f exclusive h.locks).1 })
  released_elsewhere :
      {h : Handles} (f : ℕ)
      → Reach ours os h
      → ours f ≡ false
      → Reach ours os (record h { locks = host_lock_unregister f h.locks })

module _ (ours : ℕ → Bool) where
  unopened-HandlesOk :
      (n : ℕ) (s : Registry)
      → ((f : ℕ) → ours f ≡ true → s.path f ≡ none)
      → HandlesOk ours (unopened n s)
  unfolding host_lookup
  unopened-HandlesOk n s none_held = record {
    next_lo = omega arith;
    fds_lo = λ fd f e. absurd cc;
    fds_hi = λ fd f e. absurd cc;
    apart = λ a b f ea eb. absurd cc;
    locked_open = λ f k o e. let free = none_held f o in absurd cc;
  }

  apart_from : (f j : ℕ) → ours f ≡ false → ours j ≡ true → j ≢ f
  apart_from f j theirs mine same =
      let both : true ≡ false = sym mine ∙ (ap ours same ∙ theirs) in absurd cc

  elsewhere-HandlesOk :
      (first : Flock) (probe : Bool) (key : String) (f : ℕ) (exclusive : Bool) (h : Handles)
      → HandlesOk ours h
      → ours f ≡ false
      → h.locks.path f ≡ none
      → HandlesOk ours (record h { locks = (host_lock_file first probe key f exclusive h.locks).1 })
  elsewhere-HandlesOk first probe key f exclusive h ok theirs free =
      let locks' = (host_lock_file first probe key f exclusive h.locks).1 in
      elim (lock_file_paths first probe key f exclusive h.locks free) [
        | inl (code, held) ↦
            locks-HandlesOk ours f h locks' ok
              (λ j mine. ground (arith, held j, apart_from f j theirs mine))
        | inr (code, same) ↦ locks-HandlesOk ours f h locks' ok (λ j mine. same j)
      ]

-- Whatever files were opened and closed, in whatever order, and whatever files other engines of the
-- process have locked and released between, the descriptors are in order: they are positive and below
-- the next one, no two stand for one file, and every locked file of this engine is open. The operating
-- system's handles are new, and the descriptor counter has room.
pub Reach-HandlesOk : {ours : ℕ → Bool} {os : Os} {h : Handles} → Reach ours os h → HandlesOk ours h
Reach-HandlesOk {ours} (unused n s none_held) = unopened-HandlesOk ours n s none_held
Reach-HandlesOk {ours} {os} (after_open {h} path flags w r fresh room) =
    open_path-HandlesOk ours os path flags h w (Reach-HandlesOk r) fresh room
Reach-HandlesOk {ours} {os} (after_close {h} fd w r) =
    host_close-HandlesOk ours os fd h w (Reach-HandlesOk r)
Reach-HandlesOk {ours} (locked_elsewhere {h} first probe key f exclusive r theirs free) =
    elsewhere-HandlesOk ours first probe key f exclusive h (Reach-HandlesOk r) theirs free
Reach-HandlesOk {ours} (released_elsewhere {h} f r theirs) =
    locks-HandlesOk ours f h _ (Reach-HandlesOk r)
      (λ j mine. ground (arith, unregister_paths f h.locks j, apart_from ours f j theirs mine))
