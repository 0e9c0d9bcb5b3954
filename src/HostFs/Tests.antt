-- ===== src/HostFs/Tests.antt =====
-- An operating system with one file, and the witnesses for converge/wasishim/hostfs.go.
use duckdb_wasm2go_poc.Base.{
  ℕ, ◌≡◌, ◌≢◌, ◌⊎◌, Bool, true, false, ◌==◌, ◌&&◌, ap, sym, [], ◌∷◌, none, some, inr, Bytes, insert,
  length, take, drop, arith, refl,
}
use duckdb_wasm2go_poc.Base.Int.{ℤ, pos}
use duckdb_wasm2go_poc.Base.Text.{codes}
use duckdb_wasm2go_poc.Locks.{Registry, empty_registry, host_lock_file, locked}
use duckdb_wasm2go_poc.HostFs.Os.{GoError, Os, err_eof, err_other, minus}
use duckdb_wasm2go_poc.HostFs.State.{Handles, host_lookup}
use duckdb_wasm2go_poc.HostFs.Open.{open_path, host_close}
use duckdb_wasm2go_poc.HostFs.Files.{host_pread, is_failure}
use duckdb_wasm2go_poc.HostFs.Paths.{list_entries}
use duckdb_wasm2go_poc.HostFs.Transfer.{host_pread_transfer}
use duckdb_wasm2go_poc.HostFs.Listing.{listing, Listed, list_entries-listing}
use duckdb_wasm2go_poc.HostFs.Reach.{
  unopened, unused, after_open, after_close, locked_elsewhere, Reach-HandlesOk,
}
use duckdb_wasm2go_poc.HostFs.OpenFiles.{HandlesOk, Fresh}

-- every path is the file 9, which holds "hi"
abbrev demo : Os
demo = record {
  World = ℕ;
  open_file = λ path flags perm w. (inr 9, w);
  lock_key = λ f w. "db";
  flock = λ f exclusive w. ((locked, true), w);
  close = λ f w. (none, w);
  read_at = λ f n off w. (codes "hi", some err_eof);
  write_at = λ f bytes off w. ((0, some err_other), w);
  file_stat = λ f w. inr (record { size = pos 2; mtime = pos 0; is_dir = false });
  truncate_file = λ f n w. (none, w);
  sync = λ f w. (none, w);
  stat = λ path w. inr (record { size = pos 2; mtime = pos 0; is_dir = false });
  remove_path = λ path w. (none, w);
  rename = λ old new w. (none, w);
  mkdir_all = λ path perm w. (none, w);
  remove_all = λ path w. (none, w);
  read_dir = λ path w. inr ((codes "db", false) ∷ (codes "tmp", true) ∷ []);
}

abbrev closed_files : Handles
closed_files = record { host_fds = none; host_next_fd = 0; locks = empty_registry }

abbrev one_open : Handles
one_open = record {
  host_fds = some (insert 1 9 (λ _. none));
  host_next_fd = 2;
  locks = empty_registry;
}

nothing_open : (n f fd : ℕ) (locks : Registry) → host_lookup fd (unopened n locks) ≢ some f
unfolding host_lookup
nothing_open n f fd locks e = cc

file_open : host_lookup 1 one_open ≡ some 9
unfolding host_lookup
file_open = refl

-- The file 9 is of this engine; the file 7, of another, holds a lock on another path.
abbrev is_nine : ℕ → Bool
is_nine f = f == 9

abbrev beside : Handles
beside = record (unopened 0 empty_registry) {
  locks = (host_lock_file locked true "wal" 7 true empty_registry).1;
}

nine-Fresh : (f w : ℕ) → ◌≡◌ {A = (GoError ⊎ ℕ) × ℕ} (inr 9, 0) (inr f, w) → Fresh is_nine f beside
nine-Fresh f w e =
    let nine : 9 ≡ f = cc in (ap is_nine (sym nine), λ fd. nothing_open 0 f fd beside.locks)

-- read-write, created, with an exclusive lock: bits 0, 1, 2 and 6
Reach-HandlesOk_example :
    HandlesOk is_nine (host_close demo 1 (open_path demo (codes "db") 71 beside 0).1 0).1
Reach-HandlesOk_example = Reach-HandlesOk (
    after_close 1 0 (
      after_open (codes "db") 71 0
        (locked_elsewhere locked true "wal" 7 true (unused 0 empty_registry (λ f o. refl)) refl
          refl)
        (λ f w e. nine-Fresh f w e) (omega arith)))

abbrev memory : Bytes
memory = codes "0123456789"

host_pread_transfer_example :
    (code : ℤ) × (mem' : Bytes) × (host_pread demo 1 4 3 0 one_open memory 0 ≡ some (code, mem'))
    × (((code ≡ pos 2) × ((is_failure (some err_eof) && false) ≡ false))
        ⊎ ((code ≡ minus 5) × (is_failure (some err_eof) ≡ true) × (length (codes "hi") ≡ 0)))
    × (length mem' ≡ 10)
    × (take 4 mem' ≡ codes "0123")
    × (take 2 (drop 4 mem') ≡ codes "hi")
    × (drop 6 mem' ≡ codes "6789")
host_pread_transfer_example =
    host_pread_transfer demo 1 9 4 3 0 one_open memory 0 file_open (omega arith) (omega arith)
      (omega arith) (omega arith) (omega arith)

list_entries-listing_example :
    Listed 1 8
      (listing ((codes "db", false) ∷ (codes "tmp", true) ∷ []))
      memory
      (list_entries ((codes "db", false) ∷ (codes "tmp", true) ∷ []) 1 8 0 memory)
list_entries-listing_example =
    list_entries-listing 1 8 memory (omega arith) (omega arith) (omega arith)
      ((codes "db", false) ∷ (codes "tmp", true) ∷ []) (omega arith, (omega arith, tt))
