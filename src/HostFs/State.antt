-- ===== src/HostFs/State.antt =====
-- The open files of a `Shim`, converge/wasishim/hostfs.go, beside the lock registry of the process.
use duckdb_wasm2go_poc.Base.{ℕ, Option, none, some, IntMap, insert, remove}
use duckdb_wasm2go_poc.Exhost.Abi.{plus32}
use duckdb_wasm2go_poc.Locks.{Registry, host_lock_unregister}

-- `hostFds`, none before the first open, and `hostNextFd`, beside `hostLockTable`, which is one for the
-- process: a call takes the registry as it stands and gives it back, and the calls of other engines
-- change it in between (HostFs/Reach).
pub record Handles : Type 0 where
  pub host_fds : Option (IntMap ℕ)
  pub host_next_fd : ℕ
  pub locks : Registry

abbrev pub files : Option (IntMap ℕ) → IntMap ℕ
files none = λ _. none
files (some m) = m

-- `hostLookup`
unfoldable pub host_lookup : ℕ → Handles → Option ℕ
host_lookup fd h = files h.host_fds fd

-- the descriptor that the next open gives out
abbrev pub next_fd : Option (IntMap ℕ) → ℕ → ℕ
next_fd none n = 1
next_fd (some m) n = n

-- `hostAllocFd`
unfoldable pub host_alloc_fd : ℕ → Handles → ℕ × Handles
host_alloc_fd f h =
    let fd = next_fd h.host_fds h.host_next_fd in
    (fd, record h { host_fds = some (insert fd f (files h.host_fds)); host_next_fd = plus32 fd 1 })

abbrev pub remove_fd : ℕ → Option (IntMap ℕ) → Option (IntMap ℕ)
remove_fd fd none = none
remove_fd fd (some m) = some (remove fd m)

-- The change that `Xhost_close` makes before the file itself is closed: the descriptor is deleted,
-- and the file's lock released.
unfoldable pub forget : ℕ → ℕ → Handles → Handles
forget fd f h = record h {
  host_fds = remove_fd fd h.host_fds;
  locks = host_lock_unregister f h.locks;
}
