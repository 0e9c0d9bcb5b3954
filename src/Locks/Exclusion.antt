-- ===== src/Locks/Exclusion.antt =====
-- Lock safety over every run of converge/wasishim/hostfs_lockreg.go, and the unix lock call of
-- converge/wasishim/hostfs_lock_unix.go on top of it.
use Prim.Native.String.{String}
use text.Mathlib.TextEquality.{eq_iff}
use duckdb_wasm2go_poc.Base.{
  ℕ, ◌+◌, ◌≤◌, ◌≡◌, ◌≢◌, ◌⊎◌, inl, inr, Bool, true, false, List, [], ◌∷◌, Option, none, some, ◌==◌,
  arith, refl, sym, ap, ◌∙◌, Bool-cases,
}
use duckdb_wasm2go_poc.Locks.{
  Registry, empty_registry, Flock, locked, unsupported, refused, host_lock_register,
  host_lock_unregister, host_lock_file,
}
use duckdb_wasm2go_poc.Locks.Holders.{Holder, readers, writers, occurs, find, drop_file}
use duckdb_wasm2go_poc.Locks.Refinement.{
  Represents, Represents-empty, key_of, mode_of, register-Represents, unregister-Represents,
}

-- A state that calls of the registry lead to; a file registers at most once between releases.
pub data Reach : Registry → Type 0 where
  start : Reach empty_registry
  lock :
      {s : Registry} (key : String) (f : ℕ) (exclusive : Bool)
      → Reach s
      → s.path f ≡ none
      → Reach (host_lock_register key f exclusive s).1
  unlock : {s : Registry} (f : ℕ) → Reach s → Reach (host_lock_unregister f s)

occurs_of_find : (f : ℕ) (hs : List Holder) → find f hs ≡ none → occurs f hs ≡ 0
unfolding find occurs
occurs_of_find f [] e = refl
occurs_of_find f (h ∷ hs) e = ground (arith, occurs_of_find f hs)

find_of_path : (f : ℕ) (o : Option Holder) → key_of o ≡ none → o ≡ none
find_of_path f none e = refl
find_of_path f (some h) e = cc

-- Every state that is reached stands for a list of compatible holders.
pub Reach-Represents : {s : Registry} → Reach s → (hs : List Holder) × Represents s hs
Reach-Represents start = ([], Represents-empty)
Reach-Represents (lock {s} key f exclusive reach free) =
    let (hs, r) = Reach-Represents reach in
    let absent = occurs_of_find f hs (find_of_path f (find f hs) (sym (r.paths f) ∙ free)) in
    elim (register-Represents key f s hs r absent exclusive) [
      | inl (room, code, held) ↦ (record { file = f; key = key; exclusive = exclusive } ∷ hs, held)
      | inr (no_room, code, same) ↦ (hs, rw same r)
    ]
Reach-Represents (unlock {s} f reach) =
    let (hs, r) = Reach-Represents reach in (drop_file f hs, unregister-Represents f s hs r)

writer_counted :
    (f : ℕ) (k : String) (hs : List Holder) (h : Holder)
    → find f hs ≡ some h
    → h.key ≡ k
    → h.exclusive ≡ true
    → 1 ≤ writers k hs
unfolding find writers
writer_counted f k [] h e ek ex = cc
writer_counted f k (x ∷ hs) h e ek ex = ground (arith, eq_iff x.key k, writer_counted f k hs h)

holder_counted :
    (f : ℕ) (k : String) (hs : List Holder) (h : Holder)
    → find f hs ≡ some h
    → h.key ≡ k
    → 1 ≤ writers k hs + readers k hs
unfolding find writers readers
holder_counted f k [] h e ek = cc
holder_counted f k (x ∷ hs) h e ek = ground (arith, eq_iff x.key k, holder_counted f k hs h)

two_counted :
    (f g : ℕ) (k : String) (hs : List Holder) (h i : Holder)
    → f ≢ g
    → find f hs ≡ some h
    → find g hs ≡ some i
    → h.key ≡ k
    → i.key ≡ k
    → 2 ≤ writers k hs + readers k hs
unfolding find writers readers
two_counted f g k [] h i ne e e' ek ek' = cc
two_counted f g k (x ∷ hs) h i ne e e' ek ek' = ground (
  arith,
  eq_iff x.key k,
  two_counted f g k hs h i,
  holder_counted f k hs h,
  holder_counted g k hs i,
)

held_of_path :
    (o : Option Holder) {k : String} → key_of o ≡ some k → (h : Holder) × (o ≡ some h) × (h.key ≡ k)
held_of_path none e = cc
held_of_path (some h) e = (h, refl, cc e)

-- a holder beside another one on its path does not write
shared_reads :
    {s : Registry} {hs : List Holder} (f g : ℕ) (k : String) (h i : Holder)
    → Represents s hs
    → f ≢ g
    → find f hs ≡ some h
    → find g hs ≡ some i
    → h.key ≡ k
    → i.key ≡ k
    → s.mode f ≡ some false
shared_reads {s} {hs} f g k h i r ne ef eg kf kg = elim (Bool-cases h.exclusive) [
  | inl w ↦ absurd (
      ground (
        arith,
        r.compatible k,
        writer_counted f k hs h ef kf w,
        two_counted f g k hs h i ne ef eg kf kg,
      ))
  | inr w ↦ r.modes f ∙ ap mode_of ef ∙ ap some w
]

-- In every state that is reached, two different files hold locks on one path only as readers.
pub lock_exclusion :
    {s : Registry} (f g : ℕ) (k : String)
    → Reach s
    → f ≢ g
    → s.path f ≡ some k
    → s.path g ≡ some k
    → (s.mode f ≡ some false) × (s.mode g ≡ some false)
lock_exclusion {s} f g k reach ne pf pg =
    let (hs, r) = Reach-Represents reach in
    let (h, ef, kf) = held_of_path (find f hs) (sym (r.paths f) ∙ pf) in
    let (i, eg, kg) = held_of_path (find g hs) (sym (r.paths g) ∙ pg) in
    (
      shared_reads f g k h i r ne ef eg kf kg,
      shared_reads g f k i h r (λ e. ne (sym e)) eg ef kg kf,
    )

drop_new :
    (f : ℕ) (key : String) (exclusive : Bool) (hs : List Holder)
    → drop_file f (record { file = f; key = key; exclusive = exclusive } ∷ hs) ≡ hs
unfolding drop_file
drop_new f key exclusive hs = ground arith

abbrev AllOrNothing : ℕ → Registry → List Holder → List Holder → Type 0
AllOrNothing code s' before after =
    ((code ≡ 0) × Represents s' after) ⊎ ((code ≢ 0) × Represents s' before)

module _ (probe : Bool) (key : String) (f : ℕ) (s : Registry) (hs : List Holder) where
  lock_file_refused :
      (first : Flock) (exclusive : Bool)
      → (host_lock_register key f exclusive s).0 ≢ 0
      → host_lock_file first probe key f exclusive s ≡ host_lock_register key f exclusive s
  unfolding host_lock_file
  lock_file_refused first exclusive ne =
      let off : ((host_lock_register key f exclusive s).0 == 0) ≡ false = ground arith in rw off

  lock_file_granted :
      (first : Flock) (exclusive : Bool)
      → (host_lock_register key f exclusive s).0 ≡ 0
      → Represents
          (host_lock_register key f exclusive s).1
          (record { file = f; key = key; exclusive = exclusive } ∷ hs)
      → Represents (host_lock_unregister f (host_lock_register key f exclusive s).1) hs
      → let (code, s') = host_lock_file first probe key f exclusive s in
        AllOrNothing code s' hs (record { file = f; key = key; exclusive = exclusive } ∷ hs)
  unfolding host_lock_file
  lock_file_granted locked exclusive code held undone = rw code (inl (refl, held))
  lock_file_granted unsupported true code held undone = rw code (inr (omega arith, undone))
  lock_file_granted unsupported false code held undone = rw code (inl (refl, held))
  lock_file_granted refused exclusive code held undone = rw code (inr (ground arith, undone))

-- The unix lock call registers the file exactly when it reports success, whatever flock answers: a
-- failed call leaves the holders as they were.
pub lock_file_all_or_nothing :
    (first : Flock) (probe : Bool) (key : String) (f : ℕ) (exclusive : Bool) (s : Registry)
    (hs : List Holder)
    → Represents s hs
    → occurs f hs ≡ 0
    → let (code, s') = host_lock_file first probe key f exclusive s in
      ((code ≡ 0) × Represents s' (record { file = f; key = key; exclusive = exclusive } ∷ hs))
      ⊎ ((code ≢ 0) × Represents s' hs)
lock_file_all_or_nothing first probe key f exclusive s hs r absent =
    elim (register-Represents key f s hs r absent exclusive) [
      | inr (no_room, code, same) ↦
          let ne : (host_lock_register key f exclusive s).0 ≢ 0 = ground arith in
          rw (lock_file_refused probe key f s hs first exclusive ne) (inr (ne, rw same r))
      | inl (room, code, held) ↦
          let undone = rw drop_new at (unregister-Represents f _ _ held) in
          lock_file_granted probe key f s hs first exclusive code held undone
    ]
