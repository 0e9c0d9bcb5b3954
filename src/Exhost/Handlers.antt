-- ===== src/Exhost/Handlers.antt =====
-- How the catch and rethrow calls of converge/exhost/host.go work together, over a lawful module.
use duckdb_wasm2go_poc.Base.{
  ℕ, ◌+◌, ◌^◌, ◌<◌, ◌≡◌, true, false, inl, ◌==◌, arith, refl, ◌∙◌, List, ◌∷◌,
}
use duckdb_wasm2go_poc.Exhost.Abi.{ModuleAbi, Lawful, IsObject, Apart, minus32}
use duckdb_wasm2go_poc.Exhost.Host.{
  ExcRecord, Host, thrown, hdr_type, set_hdr_caught, hdr_rethrown, set_hdr_rethrown, inc_ref,
  dec_ref,
}
use duckdb_wasm2go_poc.Exhost.Calls.{
  init_header, cxa_throw, cxa_rethrow, rethrow_from, resume_exception, cxa_begin_catch,
  cxa_end_catch, pop_caught, cxa_rethrow_primary_exception,
}
use duckdb_wasm2go_poc.Exhost.Header.{
  type-set_caught, type-set_rethrown, rethrown-set_rethrown, caught-set_caught, read-inc_ref,
  read-dec_ref, type-init_header, caught-init_header,
}

module _ (abi : ModuleAbi) (law : Lawful abi) where
  open abi use {Mod}

  -- Entering the handler of the object just thrown puts it, with its dynamic type, on the caught
  -- stack, and takes back the count of uncaught exceptions, while that count fits an int32.
  throw_begin_catch :
      (ptr typ dtor : ℕ) (h : Host) (m : Mod)
      → IsObject ptr
      → typ < 2 ^ 32
      → h.uncaught + 1 < 2 ^ 31
      → let (o, h1, m1) = cxa_throw abi {A = ℕ} ptr typ dtor h m in
        let (adj, h2, m2) = cxa_begin_catch abi ptr h1 m1 in
        (o ≡ thrown (record { exc = ptr; typ = typ }))
        × (h2.caught ≡ record { exc = ptr; typ = typ } ∷ h.caught)
        × (h2.uncaught ≡ h.uncaught)
        × (h2.last ≡ record { exc = ptr; typ = typ })
  unfolding cxa_throw cxa_begin_catch
  throw_begin_catch ptr typ dtor h m o t fits =
      let m1 = init_header abi ptr typ dtor m in
      let fresh = caught-init_header abi law m ptr typ dtor o in
      let typ1 = type-init_header abi law m ptr typ dtor o t in
      let typ2 = type-set_rethrown abi law (set_hdr_caught abi ptr true m1) ptr false o in
      let typ3 = type-set_caught abi law m1 ptr true o in ground (arith, fresh, typ1, typ2, typ3)

  -- The type of `b` survives the end of the handler of `a`.
  type-pop_caught :
      (a b : ExcRecord) (dtor : ℕ) (m : Mod)
      → IsObject a.exc
      → IsObject b.exc
      → Apart b.exc a.exc
      → b.typ < 2 ^ 32
      → hdr_type abi
          (dec_ref abi a.exc (abi.set_threw 0 0 (init_header abi b.exc b.typ dtor m)))
          b.exc
        ≡ b.typ
  unfolding hdr_type
  type-pop_caught a b dtor m oa ob sep t =
      read-dec_ref abi law _ a.exc b.exc 20 oa ob sep (omega arith) (omega arith)
      ∙ law.read-set_threw _ 0 0 b.exc 20 ob (omega arith) (omega arith)
      ∙ type-init_header abi law m b.exc b.typ dtor ob t

  -- An exception `b` thrown inside the handler of `a`: the cleanup that runs while `b` unwinds ends
  -- the handler of `a`, and resuming goes on with `b` under the type that it was thrown with.
  pub nested_throw :
      (a b : ExcRecord) (below : List ExcRecord) (dtor : ℕ) (h : Host) (m : Mod)
      → IsObject a.exc
      → IsObject b.exc
      → Apart b.exc a.exc
      → b.typ < 2 ^ 32
      → h.caught ≡ a ∷ below
      → let (_, h1, m1) = cxa_throw abi {A = ℕ} b.exc b.typ dtor h m in
        let (h2, m2) = cxa_end_catch abi h1 m1 in
        let (o, h3, m3) = resume_exception abi {A = ℕ} b.exc h2 m2 in
        (o ≡ thrown b) × (h3.caught ≡ below) × (h3.last ≡ b)
  unfolding cxa_throw cxa_end_catch resume_exception
  nested_throw a b below dtor h m oa ob sep t top =
      let kept = type-pop_caught a b dtor m oa ob sep t in
      rw (top, pop_caught) (ground (arith, kept))

  -- Re-raising a captured exception unwinds with the dynamic type in its header, and leaves the
  -- stack of active handlers and the count of uncaught exceptions as they were.
  pub rethrow_primary :
      (ptr : ℕ) (h : Host) (m : Mod)
      → IsObject ptr
      → let rec : ExcRecord = record { exc = ptr; typ = hdr_type abi m ptr } in
        let (o, h1, m1) = cxa_rethrow_primary_exception abi ptr h m in
        (o ≡ thrown rec) × (h1 ≡ record h { last = rec })
  unfolding cxa_rethrow_primary_exception cxa_rethrow rethrow_from
  rethrow_primary ptr h m o =
      let flag = rethrown-set_rethrown abi law m ptr true in
      let nz : (ptr == 0) ≡ false = ground arith in rw nz (rw flag (refl, refl))

  -- The flags after `__cxa_begin_catch`, past the reference that it takes.
  rethrown-begin_catch :
      (ptr : ℕ) (m : Mod)
      → IsObject ptr
      → hdr_rethrown abi
          (abi.get_exception_ptr ptr (inc_ref abi ptr (set_hdr_rethrown abi ptr false m))).1
          ptr
        ≡ false
  rethrown-begin_catch ptr m o =
      let m1 = set_hdr_rethrown abi ptr false m in
      let kept =
        law.read-get_exception_ptr (inc_ref abi ptr m1) ptr (minus32 ptr 12)
        ∙ read-inc_ref abi law m1 ptr ptr 12 o o (inl refl) (omega arith) (omega arith) in
      let cleared = rethrown-set_rethrown abi law m ptr false in
      unfold hdr_rethrown in rw kept (unfold hdr_rethrown in cleared)

  -- `throw;` in a handler, caught by an outer one: the exception is on the stack once more under its
  -- dynamic type, is counted as uncaught between the two only, and is no longer marked as rethrown.
  pub rethrow_begin_catch :
      (rec : ExcRecord) (below : List ExcRecord) (h : Host) (m : Mod)
      → IsObject rec.exc
      → h.caught ≡ rec ∷ below
      → hdr_rethrown abi m rec.exc ≡ false
      → h.uncaught + 1 < 2 ^ 31
      → let (o, h1, m1) = cxa_rethrow abi {A = ℕ} h m in
        let (adj, h2, m2) = cxa_begin_catch abi rec.exc h1 m1 in
        (o ≡ thrown rec)
        × (h1.uncaught ≡ h.uncaught + 1)
        × (h2.caught ≡ record { exc = rec.exc; typ = hdr_type abi m rec.exc } ∷ rec ∷ below)
        × (h2.uncaught ≡ h.uncaught)
        × (hdr_rethrown abi m2 rec.exc ≡ false)
  unfolding cxa_rethrow rethrow_from cxa_begin_catch
  rethrow_begin_catch rec below h m o top plain fits =
      let e = rec.exc in
      let m1 = set_hdr_rethrown abi e true m in
      let m2 = set_hdr_caught abi e false m1 in
      let m3 = set_hdr_caught abi e true m2 in
      rw (top, rethrow_from)
        (rw plain (
          ground (
            arith,
            caught-set_caught abi law m1 e false,
            type-set_rethrown abi law m e true o,
            type-set_caught abi law m1 e false o,
            type-set_caught abi law m2 e true o,
            type-set_rethrown abi law m3 e false o,
            rethrown-begin_catch e m3 o,
          )))
