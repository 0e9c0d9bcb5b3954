-- ===== src/Locks/Tests.antt =====
-- Runs of the lock registry.
use duckdb_wasm2go_poc.Base.{
  ℕ, ◌≡◌, ◌≢◌, ◌⊎◌, inl, inr, true, false, [], ◌∷◌, none, some, arith, refl, if◌then◌else◌,
}
use duckdb_wasm2go_poc.Locks.{
  Registry, empty_registry, refused, host_lock_register, host_lock_unregister, host_lock_file,
  lock_rd_ok, lock_conflict, host_lock_key,
}
use duckdb_wasm2go_poc.Locks.Holders.{Holder, occurs, drop_file, grants, readers, writers}
use duckdb_wasm2go_poc.Locks.Refinement.{
  Represents, Represents-empty, register-Represents, unregister-Represents,
}
use duckdb_wasm2go_poc.Locks.Exclusion.{start, lock, lock_exclusion, lock_file_all_or_nothing}

abbrev reader : ℕ → Holder
reader f = record { file = f; key = "/db"; exclusive = false }

abbrev one_reader : Registry
one_reader = (host_lock_register "/db" 1 false empty_registry).1

abbrev two_readers : Registry
two_readers = (host_lock_register "/db" 2 false one_reader).1

one_reader-Represents : Represents one_reader (reader 1 ∷ [])
unfolding occurs host_lock_register readers writers
one_reader-Represents =
    elim (register-Represents "/db" 1 empty_registry [] Represents-empty refl false) [
      | inl (room, code, held) ↦ held
      | inr (no_room, code, same) ↦ cc no_room
    ]

-- a writer beside a reader is refused, with the hint that reading would work
writer_beside_reader : host_lock_register "/db" 2 true one_reader ≡ (lock_rd_ok, one_reader)
unfolding host_lock_register
writer_beside_reader = refl

reopened : (host_lock_register "/db" 2 true (host_lock_unregister 1 one_reader)).0 ≡ 0
unfolding host_lock_register host_lock_unregister
reopened = refl

alias_key : host_lock_key (λ n. some "/private/db") (λ n. none) (λ n. n) "/tmp/db" ≡ "/private/db"
unfolding host_lock_key
alias_key = refl

absent_two : occurs 2 (reader 1 ∷ []) ≡ 0
unfolding occurs
absent_two = refl

register-Represents_example :
    let (code, s') = host_lock_register "/db" 2 true one_reader in
    ((grants "/db" true (reader 1 ∷ []) ≡ true)
      × (code ≡ 0)
      × Represents s' (record { file = 2; key = "/db"; exclusive = true } ∷ reader 1 ∷ []))
    ⊎ ((grants "/db" true (reader 1 ∷ []) ≡ false)
        × (code ≡ (if grants "/db" false (reader 1 ∷ []) then lock_rd_ok else lock_conflict))
        × (s' ≡ one_reader))
register-Represents_example =
    register-Represents "/db" 2 one_reader (reader 1 ∷ []) one_reader-Represents absent_two true

unregister-Represents_example :
    Represents (host_lock_unregister 1 one_reader) (drop_file 1 (reader 1 ∷ []))
unregister-Represents_example =
    unregister-Represents 1 one_reader (reader 1 ∷ []) one_reader-Represents

lock_exclusion_example : (two_readers.mode 1 ≡ some false) × (two_readers.mode 2 ≡ some false)
unfolding host_lock_register
lock_exclusion_example =
    lock_exclusion 1 2 "/db" (lock "/db" 2 false (lock "/db" 1 false start refl) refl) (omega arith)
      refl refl

lock_file_all_or_nothing_example :
    let (code, s') = host_lock_file refused true "/db" 2 false one_reader in
    ((code ≡ 0) × Represents s' (reader 2 ∷ reader 1 ∷ []))
    ⊎ ((code ≢ 0) × Represents s' (reader 1 ∷ []))
lock_file_all_or_nothing_example =
    lock_file_all_or_nothing refused true "/db" 2 false one_reader (reader 1 ∷ [])
      one_reader-Represents absent_two
