-- ===== src/HostFs/LockPaths.antt =====
-- What the lock calls do to the paths of the files that hold locks.
use Prim.Native.String.{String}
use duckdb_wasm2go_poc.Base.{
  ℕ, zero, suc, ◌≡◌, ◌≢◌, ◌⊎◌, Bool, true, false, none, ◌==◌, insert, remove, arith, refl, inl, inr,
  Bool-cases, Option-cases,
}
use duckdb_wasm2go_poc.Base.Int.{ℤ, pos, negsuc, ltb_ℤ}
use duckdb_wasm2go_poc.Locks.{
  Registry, Flock, locked, unsupported, refused, slot_value, host_lock_register,
  host_lock_unregister, host_lock_file, record_lock, lock_rd_ok, lock_conflict,
}

-- What a lock call does to the paths of the holders.
abbrev pub PathsAfter : String → ℕ → Registry → ℕ × Registry → Type 0
PathsAfter key f s (code, s') =
    ((code ≡ 0) × ((j : ℕ) → s'.path j ≡ insert f key s.path j))
    ⊎ ((code ≢ 0) × ((j : ℕ) → s'.path j ≡ s.path j))

write_paths :
    (key : String) (f : ℕ) (s : Registry) (n : ℤ)
    → PathsAfter key f s (elim n [
      | pos zero ↦ (0, record_lock key f true (negsuc 0) s)
      | pos (suc k) ↦ (lock_rd_ok, s)
      | negsuc k ↦ (lock_conflict, s)
    ])
unfolding record_lock
write_paths key f s (pos zero) = inl (refl, λ j. refl)
write_paths key f s (pos (suc k)) = inr (omega arith, λ j. refl)
write_paths key f s (negsuc k) = inr (omega arith, λ j. refl)

register_paths :
    (key : String) (f : ℕ) (exclusive : Bool) (s : Registry)
    → PathsAfter key f s (host_lock_register key f exclusive s)
unfolding host_lock_register record_lock
register_paths key f true s = write_paths key f s (slot_value (s.table key))
register_paths key f false s = elim (Bool-cases (ltb_ℤ (slot_value (s.table key)) (pos 0))) [
  | inl busy ↦ rw busy (inr (omega arith, λ j. refl))
  | inr room ↦ rw room (inl (refl, λ j. refl))
]

pub unregister_paths :
    (f : ℕ) (s : Registry) (j : ℕ) → (host_lock_unregister f s).path j ≡ remove f s.path j
unfolding host_lock_unregister
unregister_paths f s j = elim (Option-cases (s.path f)) [
  | inl e ↦ rw (e, host_lock_unregister) (ground (arith, e))
  | inr (k, e) ↦ rw (e, host_lock_unregister) refl
]

-- A lock that is taken and released again.
undone_paths :
    (key : String) (f : ℕ) (s s' : Registry)
    → s.path f ≡ none
    → ((j : ℕ) → s'.path j ≡ insert f key s.path j)
    → (j : ℕ) → (host_lock_unregister f s').path j ≡ s.path j
undone_paths key f s s' absent held j = ground (arith, unregister_paths f s' j, held j, absent)

answered :
    (first : Flock) (probe : Bool) (key : String) (f : ℕ) (exclusive : Bool) (s : Registry)
    → (host_lock_register key f exclusive s).0 ≡ 0
    → ((j : ℕ) → (host_lock_register key f exclusive s).1.path j ≡ insert f key s.path j)
    → ((j : ℕ)
        → (host_lock_unregister f (host_lock_register key f exclusive s).1).path j ≡ s.path j)
    → PathsAfter key f s (host_lock_file first probe key f exclusive s)
unfolding host_lock_file
answered locked probe key f exclusive s code held undone = rw code (inl (refl, held))
answered unsupported probe key f true s code held undone = rw code (inr (omega arith, undone))
answered unsupported probe key f false s code held undone = rw code (inl (refl, held))
answered refused probe key f exclusive s code held undone = rw code (inr (ground arith, undone))

pub lock_file_paths :
    (first : Flock) (probe : Bool) (key : String) (f : ℕ) (exclusive : Bool) (s : Registry)
    → s.path f ≡ none
    → PathsAfter key f s (host_lock_file first probe key f exclusive s)
unfolding host_lock_file
lock_file_paths first probe key f exclusive s absent = elim (register_paths key f exclusive s) [
  | inl (code, held) ↦
      answered first probe key f exclusive s code held
        (undone_paths key f s (host_lock_register key f exclusive s).1 absent held)
  | inr (code, same) ↦
      let ne : ((host_lock_register key f exclusive s).0 == 0) ≡ false = ground arith in
      rw ne (inr (code, same))
]
