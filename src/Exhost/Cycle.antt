-- ===== src/Exhost/Cycle.antt =====
-- A C++ exception of converge/exhost/host.go from its throw to the end of its handler.
use duckdb_wasm2go_poc.Base.{
  ℕ, ◌+◌, ◌^◌, ◌<◌, ◌≡◌, ◌≢◌, false, none, some, inl, ◌==◌, arith, refl, ◌∙◌, List, ◌∷◌, Option,
}
use duckdb_wasm2go_poc.Exhost.Abi.{ModuleAbi, Lawful, IsObject, minus32}
use duckdb_wasm2go_poc.Exhost.Host.{
  ExcRecord, Host, Outcome, returned, thrown, no_exception, hdr_type, hdr_caught,
}
use duckdb_wasm2go_poc.Exhost.Calls.{
  type_id, init_header, cxa_throw, cxa_begin_catch, cxa_end_catch, find_match, publish, matched,
  match_clauses, trampoline, slot_call, invoke,
}
use duckdb_wasm2go_poc.Exhost.Header.{read-write_word, type-init_header, flags-init_header}

-- Giving a type id touches nothing but the table of ids.
type_id_frame :
    (t : ℕ) (h : Host)
    → ((type_id t h).1.caught ≡ h.caught)
      × ((type_id t h).1.uncaught ≡ h.uncaught)
      × ((type_id t h).1.last ≡ h.last)
unfolding type_id
type_id_frame t h = ground arith

module _ (abi : ModuleAbi) (law : Lawful abi) where
  publish_frame :
      (found : Option ℕ) (h : Host) (m : abi.Mod)
      → ((publish abi found h m).0.caught ≡ h.caught)
        × ((publish abi found h m).0.uncaught ≡ h.uncaught)
        × ((p : ℕ) → abi.read_u32 (publish abi found h m).1 p ≡ abi.read_u32 m p)
  unfolding publish
  publish_frame none h m = (refl, refl, λ p. law.read-tempret_set m 0 p)
  publish_frame (some ct) h m =
      let (c, u, l) = type_id_frame ct h in (c, u, λ p. law.read-tempret_set m (type_id ct h).0 p)

  -- A landing pad whose first clause is the exact type thrown stops there, with no RTTI call.
  matched_exact :
      (typ slot : ℕ) (rest : List ℕ) (m : abi.Mod) → (matched abi typ slot (typ ∷ rest) m).1 ≡ m
  unfolding matched match_clauses
  matched_exact typ slot rest m = ground arith

  -- the memory that the landing pad sees before it looks for a clause
  abbrev seeded : ℕ → ℕ → ℕ → abi.Mod → abi.Mod
  seeded ptr typ dtor m =
      abi.write_u32 (minus32 ptr 8) ptr (abi.set_threw 1 ptr (init_header abi ptr typ dtor m))

  type-seeded :
      (ptr typ dtor : ℕ) (m : abi.Mod)
      → IsObject ptr
      → typ < 2 ^ 32
      → hdr_type abi (abi.set_threw 1 ptr (init_header abi ptr typ dtor m)) ptr ≡ typ
  unfolding hdr_type
  type-seeded ptr typ dtor m o t =
      law.read-set_threw _ 1 ptr ptr 20 o (omega arith) (omega arith)
      ∙ type-init_header abi law m ptr typ dtor o t

  caught-seeded :
      (ptr typ dtor : ℕ) (m m' : abi.Mod)
      → IsObject ptr
      → ((p : ℕ) → abi.read_u32 m' p ≡ abi.read_u32 (seeded ptr typ dtor m) p)
      → hdr_caught abi m' ptr ≡ false
  unfolding hdr_caught
  caught-seeded ptr typ dtor m m' o same =
      let zeroed =
        same (minus32 ptr 12)
        ∙ read-write_word abi law _ ptr 8 12 ptr o (omega arith) (omega arith) (omega arith)
            (omega arith) (inl (omega arith))
        ∙ law.read-set_threw _ 1 ptr ptr 12 o (omega arith) (omega arith)
        ∙ flags-init_header abi law m ptr typ dtor o in
      rw zeroed

  -- A handler entered on an exception not yet caught, and left again.
  begin_end :
      (ptr : ℕ) (h : Host) (m : abi.Mod)
      → ptr ≢ 0
      → hdr_caught abi m ptr ≡ false
      → 0 < h.uncaught
      → h.uncaught < 2 ^ 31
      → let (adj, h3, m3) = cxa_begin_catch abi ptr h m in
        let (h4, m4) = cxa_end_catch abi h3 m3 in
        (h4.caught ≡ h.caught) × (h4.uncaught + 1 ≡ h.uncaught) × (h4.last ≡ no_exception)
  unfolding cxa_begin_catch cxa_end_catch
  begin_end ptr h m nz fresh lo hi = ground (arith, fresh)

  find_first :
      (typ : ℕ) (rest : List ℕ) (h : Host) (m : abi.Mod)
      → h.last.exc ≢ 0
      → hdr_type abi m h.last.exc ≡ typ
      → let slot = minus32 h.last.exc 8 in
        let m1 = abi.write_u32 slot h.last.exc m in
        let r = publish abi (matched abi typ slot (typ ∷ rest) m1).0 h m1 in
        find_match abi (typ ∷ rest) h m ≡ (h.last.exc, r.0, r.1)
  unfolding find_match
  find_first typ rest h m nz e =
      let z : (h.last.exc == 0) ≡ false = ground arith in
      rw z (
        rw e (
          rw (
            matched_exact typ (minus32 h.last.exc 8) rest
              (abi.write_u32 (minus32 h.last.exc 8) h.last.exc m))))

  -- The landing pad, its handler and the end of the handler, for an exception in flight.
  landing :
      (typ : ℕ) (rest : List ℕ) (h : Host) (m : abi.Mod)
      → h.last.exc ≢ 0
      → hdr_type abi m h.last.exc ≡ typ
      → ((m' : abi.Mod)
          → ((p : ℕ)
              → abi.read_u32 m' p
                ≡ abi.read_u32 (abi.write_u32 (minus32 h.last.exc 8) h.last.exc m) p)
          → hdr_caught abi m' h.last.exc ≡ false)
      → 0 < h.uncaught
      → h.uncaught < 2 ^ 31
      → let (exc, h2, m2) = find_match abi (typ ∷ rest) h m in
        let (adj, h3, m3) = cxa_begin_catch abi exc h2 m2 in
        let (h4, m4) = cxa_end_catch abi h3 m3 in
        (exc ≡ h.last.exc)
        × (h4.caught ≡ h.caught)
        × (h4.uncaught + 1 ≡ h.uncaught)
        × (h4.last ≡ no_exception)
  landing typ rest h m nz ty fresh lo hi =
      let m1 = abi.write_u32 (minus32 h.last.exc 8) h.last.exc m in
      let found = (matched abi typ (minus32 h.last.exc 8) (typ ∷ rest) m1).0 in
      let h2 = (publish abi found h m1).0 in
      let m2 = (publish abi found h m1).1 in
      let (c, u, same) = publish_frame found h m1 in
      let (c4, u4, l4) =
        begin_end h.last.exc h2 m2 nz (fresh m2 same) (omega (arith, u)) (omega (arith, u)) in
      rw (find_first typ rest h m nz ty) (refl, c4 ∙ c, u4 ∙ u, l4)

  module _ {A Args : Type 0}
      (table : ℕ → Option (Args → Host → abi.Mod → Outcome A × Host × abi.Mod)) where
    slot_call-some :
        (index : ℕ) (f : Args → Host → abi.Mod → Outcome A × Host × abi.Mod) (args : Args)
        (h : Host) (m : abi.Mod)
        → table index ≡ some f
        → slot_call abi table index args h m ≡ f args h m
    unfolding slot_call
    slot_call-some index f args h m e = rw (e, slot_call)

    trampoline_throw :
        (zero_ret : A) (call : Host → abi.Mod → Outcome A × Host × abi.Mod) (h : Host) (m : abi.Mod)
        (tp : ExcRecord) (h' : Host) (m' : abi.Mod)
        → call h m ≡ (thrown tp, h', m')
        → trampoline abi zero_ret call h m ≡ (returned zero_ret, h', abi.set_threw 1 tp.exc m')
    unfolding trampoline
    trampoline_throw zero_ret call h m tp h' m' e = rw (e, trampoline) (rw e)

    invoke_throw :
        (zero_ret : A) (index : ℕ) (f : Args → Host → abi.Mod → Outcome A × Host × abi.Mod)
        (args : Args) (ptr typ dtor : ℕ) (h : Host) (m : abi.Mod)
        → table index ≡ some f
        → f args h m ≡ cxa_throw abi ptr typ dtor h m
        → invoke abi table zero_ret index args h m ≡ (
          returned zero_ret,
          (cxa_throw abi {A = A} ptr typ dtor h m).1,
          abi.set_threw 1 ptr (init_header abi ptr typ dtor m),
        )
    unfolding invoke cxa_throw
    invoke_throw zero_ret index f args ptr typ dtor h m slot throws =
        trampoline_throw zero_ret (slot_call abi table index args) h m _ _ _
          (slot_call-some index f args h m slot ∙ throws)

    -- An indirect call that throws, caught by a landing pad whose first clause is the type thrown: the
    -- trampoline returns the zero value, the pad is given the exception, and after the handler the
    -- caught stack and the count of uncaught exceptions are as before the call, with none in flight.
    pub throw_catch_cycle :
        (zero_ret : A) (index : ℕ) (f : Args → Host → abi.Mod → Outcome A × Host × abi.Mod)
        (args : Args) (ptr typ dtor : ℕ) (rest : List ℕ) (h : Host) (m : abi.Mod)
        → table index ≡ some f
        → f args h m ≡ cxa_throw abi ptr typ dtor h m
        → IsObject ptr
        → typ < 2 ^ 32
        → h.uncaught + 1 < 2 ^ 31
        → let (o, h1, m1) = invoke abi table zero_ret index args h m in
          let (exc, h2, m2) = find_match abi (typ ∷ rest) h1 m1 in
          let (adj, h3, m3) = cxa_begin_catch abi exc h2 m2 in
          let (h4, m4) = cxa_end_catch abi h3 m3 in
          (o ≡ returned zero_ret)
          × (exc ≡ ptr)
          × (h4.caught ≡ h.caught)
          × (h4.uncaught ≡ h.uncaught)
          × (h4.last ≡ no_exception)
    throw_catch_cycle zero_ret index f args ptr typ dtor rest h m slot throws o t fits =
        rw (invoke_throw zero_ret index f args ptr typ dtor h m slot throws) (
          unfold cxa_throw in
          let (e, c, u, l) =
            landing typ rest (cxa_throw abi {A = A} ptr typ dtor h m).1
              (abi.set_threw 1 ptr (init_header abi ptr typ dtor m)) (omega arith)
              (type-seeded ptr typ dtor m o t) (λ m' same. caught-seeded ptr typ dtor m m' o same)
              (omega arith) (omega arith) in
          (refl, e, c, omega (arith, u), l))
