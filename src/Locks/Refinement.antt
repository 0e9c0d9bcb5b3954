-- ===== src/Locks/Refinement.antt =====
-- The registry of converge/wasishim/hostfs_lockreg.go implements the list of lock holders.
use Prim.Native.String.{String}
use text.Mathlib.TextEquality.{eq_iff}
use duckdb_wasm2go_poc.Base.{
  ℕ, ◌≤◌, ◌≡◌, ◌⊎◌, inl, inr, Bool, true, false, ◌&&◌, List, [], ◌∷◌, Option, none, some, ltb, ◌==◌,
  if◌then◌else◌, arith, refl, ap, ◌∙◌, Bool-cases, Option-cases,
}
use duckdb_wasm2go_poc.Base.Int.{ℤ, pos, negsuc}
use duckdb_wasm2go_poc.Locks.{
  Registry, empty_registry, lock_conflict, lock_rd_ok, host_lock_register, host_lock_unregister,
}
use duckdb_wasm2go_poc.Locks.Holders.{
  Holder, readers, writers, occurs, find, drop_file, Compatible, grants, writers-drop_file,
  readers-drop_file, occurs-drop_file, find-drop_file, drop_absent,
}

abbrev pub slot_of : ℕ → ℕ → Option ℤ
slot_of w r = if ltb 0 w then some (negsuc 0) else if ltb 0 r then some (pos r) else none

abbrev pub key_of : Option Holder → Option String
key_of none = none
key_of (some h) = some h.key

abbrev pub mode_of : Option Holder → Option Bool
mode_of none = none
mode_of (some h) = some h.exclusive

-- The three maps hold exactly these holders, whose locks agree.
pub record Represents (s : Registry) (hs : List Holder) : Type 0 where
  pub paths : (f : ℕ) → s.path f ≡ key_of (find f hs)
  pub modes : (f : ℕ) → s.mode f ≡ mode_of (find f hs)
  pub slots : (k : String) → s.table k ≡ slot_of (writers k hs) (readers k hs)
  pub compatible : Compatible hs
  pub once : (f : ℕ) → occurs f hs ≤ 1

pub Represents-empty : Represents empty_registry []
unfolding find writers readers occurs
Represents-empty = record {
  paths = λ f. refl;
  modes = λ f. refl;
  slots = λ k. refl;
  compatible = λ k. (omega arith, λ h. refl);
  once = λ f. omega arith;
}

module _ (key : String) (f : ℕ) (s : Registry) (hs : List Holder) (r : Represents s hs)
    (absent : occurs f hs ≡ 0) where
  register_write :
      writers key hs ≡ 0
      → readers key hs ≡ 0
      → ((host_lock_register key f true s).0 ≡ 0)
        × Represents
            (host_lock_register key f true s).1
            (record { file = f; key = key; exclusive = true } ∷ hs)
  unfolding host_lock_register find writers readers occurs
  register_write w0 r0 = (
    ground (arith, r.slots key),
    record {
      paths = λ j. ground (arith, r.slots key, r.paths j);
      modes = λ j. ground (arith, r.slots key, r.modes j);
      slots = λ k. ground (arith, r.slots key, r.slots k, eq_iff key k, eq_iff k key);
      compatible = λ k. ground (arith, r.compatible k, eq_iff key k);
      once = λ j. ground (arith, r.once j);
    },
  )

  register_read :
      writers key hs ≡ 0
      → ((host_lock_register key f false s).0 ≡ 0)
        × Represents
            (host_lock_register key f false s).1
            (record { file = f; key = key; exclusive = false } ∷ hs)
  unfolding host_lock_register find writers readers occurs
  register_read w0 = (
    ground (arith, r.slots key),
    record {
      paths = λ j. ground (arith, r.slots key, r.paths j);
      modes = λ j. ground (arith, r.slots key, r.modes j);
      slots = λ k. ground (arith, r.slots key, r.slots k, eq_iff key k, eq_iff k key);
      compatible = λ k. ground (arith, r.compatible k, eq_iff key k);
      once = λ j. ground (arith, r.once j);
    },
  )

  register_refused :
      (exclusive : Bool)
      → grants key exclusive hs ≡ false
      → host_lock_register key f exclusive s
        ≡ (if exclusive && writers key hs == 0 then lock_rd_ok else lock_conflict, s)
  unfolding host_lock_register
  register_refused true no_room = ground (arith, r.slots key, r.compatible key)
  register_refused false no_room = ground (arith, r.slots key, r.compatible key)

  register_granted :
      (exclusive : Bool)
      → grants key exclusive hs ≡ true
      → ((host_lock_register key f exclusive s).0 ≡ 0)
        × Represents
            (host_lock_register key f exclusive s).1
            (record { file = f; key = key; exclusive = exclusive } ∷ hs)
  register_granted true room = register_write (ground arith) (ground arith)
  register_granted false room = register_read (ground arith)

  -- A fresh file gets a lock exactly when the present holders of the path grant it, and is then the
  -- one new holder. A refusal changes nothing and says by its code whether a read lock would be
  -- granted in place of the write lock that was asked for.
  pub register-Represents :
      (exclusive : Bool)
      → let (code, s') = host_lock_register key f exclusive s in
        ((grants key exclusive hs ≡ true)
          × (code ≡ 0)
          × Represents s' (record { file = f; key = key; exclusive = exclusive } ∷ hs))
        ⊎ ((grants key exclusive hs ≡ false)
            × (code ≡ (if exclusive && grants key false hs then lock_rd_ok else lock_conflict))
            × (s' ≡ s))
  register-Represents exclusive = elim (Bool-cases (grants key exclusive hs)) [
    | inl room ↦ let (code, held) = register_granted exclusive room in inl (room, code, held)
    | inr no_room ↦
        let refused = register_refused exclusive no_room in
        inr (no_room, rw refused (ground arith), rw refused)
  ]

module _ (f : ℕ) (s : Registry) (hs : List Holder) (r : Represents s hs) where
  unregister_held :
      (h : Holder) → find f hs ≡ some h → Represents (host_lock_unregister f s) (drop_file f hs)
  unfolding host_lock_unregister
  unregister_held h e = record {
    paths = λ j. ground (arith, r.paths f, r.paths j, find-drop_file j f hs, r.once f);
    modes = λ j. ground (arith, r.paths f, r.modes j, find-drop_file j f hs, r.once f);
    slots = λ k. ground (
      arith,
      r.paths f,
      r.modes f,
      r.slots k,
      r.slots h.key,
      writers-drop_file k f hs,
      readers-drop_file k f hs,
      eq_iff h.key k,
      eq_iff k h.key,
      r.compatible k,
    );
    compatible =
        λ k. ground (arith, r.compatible k, writers-drop_file k f hs, readers-drop_file k f hs);
    once = λ j. ground (arith, occurs-drop_file j f hs, r.once j);
  }

  -- Releasing a file takes its lock away and leaves every other holder's, also where the file holds
  -- none.
  pub unregister-Represents : Represents (host_lock_unregister f s) (drop_file f hs)
  unfolding host_lock_unregister
  unregister-Represents = elim (Option-cases (find f hs)) [
    | inl e ↦ rw (drop_absent f hs e) (rw (r.paths f ∙ ap key_of e, host_lock_unregister) r)
    | inr (h, e) ↦ unregister_held h e
  ]
