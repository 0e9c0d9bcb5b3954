-- ===== src/Exhost/Calls.antt =====
-- The imported functions of converge/exhost/host.go: each takes the host and the module's state,
-- and gives how the call ends beside the state that it leaves, also when it unwinds.
use duckdb_wasm2go_poc.Base.{
  ℕ, ◌-◌, ◌^◌, Bool, true, false, not, ◌&&◌, List, [], ◌∷◌, Option, none, some, ◌==◌, ltb,
  if◌then◌else◌, insert,
}
use duckdb_wasm2go_poc.Exhost.Abi.{ModuleAbi, minus32, plus32}
use duckdb_wasm2go_poc.Exhost.Host.{
  ExcRecord, no_exception, Host, Outcome, returned, thrown, panicked, hdr_type, hdr_caught,
  set_hdr_caught, hdr_rethrown, set_hdr_rethrown, inc_ref, dec_ref, cstr_u32,
}

-- `h.uncaught > 0` on an int32
abbrev pub positive32 : ℕ → Bool
positive32 n = ltb 0 n && ltb n (2 ^ 31)

-- `typeID`
unfoldable pub type_id : ℕ → Host → ℕ × Host
type_id typeinfo h = if typeinfo == 0 then (1, h) else elim (h.type_ids typeinfo) [
  | some id ↦ (id, h)
  | none ↦ (
    h.next_type,
    record h {
      next_type = plus32 h.next_type 1;
      type_ids = insert typeinfo h.next_type h.type_ids;
    },
  )
]

-- `XsetTempRet0` and `Xg_setTempRet0`
unfoldable pub set_temp_ret0 : ℕ → Host → Host
set_temp_ret0 v h = record h { temp_ret0 = v }

-- `XgetTempRet0` and `Xg_getTempRet0`
unfoldable pub get_temp_ret0 : Host → ℕ
get_temp_ret0 h = h.temp_ret0

-- `Xllvm_eh_typeid_for`
unfoldable pub llvm_eh_typeid_for : ℕ → Host → ℕ × Host
llvm_eh_typeid_for typ h = type_id typ h

module _ (abi : ModuleAbi) where
  open abi use {Mod, set_threw, tempret_set, can_catch, get_exception_ptr, read_u32, write_u32}

  -- `trampoline`: `call` is the wrapped indirect call with its result, `zero_ret` the zero value
  unfoldable pub trampoline {ℓ} :
      {A : Type ℓ} → A → (Host → Mod → Outcome A × Host × Mod) → Host → Mod → Outcome A × Host × Mod
  trampoline zero_ret call h m =
      let (o, h', m') = call h m in
      elim o [
        | returned a ↦ (returned a, h', m')
        | thrown tp ↦ (returned zero_ret, h', set_threw 1 tp.exc m')
        | panicked ↦ (panicked, h', m')
      ]

  -- the call that an invoke trampoline wraps: `table` is the indirect table
  unfoldable pub slot_call {ℓ κ} :
      {A : Type ℓ} {Args : Type κ}
      → (ℕ → Option (Args → Host → Mod → Outcome A × Host × Mod))
      → ℕ
      → Args
      → Host
      → Mod
      → Outcome A × Host × Mod
  slot_call table index args h m = elim (table index) [
    | none ↦ (panicked, h, m)
    | some f ↦ f args h m
  ]

  -- an `invoke_<sig>` trampoline, for any arguments and result
  unfoldable pub invoke {ℓ κ} :
      {A : Type ℓ} {Args : Type κ}
      → (ℕ → Option (Args → Host → Mod → Outcome A × Host × Mod))
      → A
      → ℕ
      → Args
      → Host
      → Mod
      → Outcome A × Host × Mod
  invoke table zero_ret index args = trampoline zero_ret (slot_call table index args)

  -- the header that `X__cxa_throw` writes
  unfoldable pub init_header : ℕ → ℕ → ℕ → Mod → Mod
  init_header ptr typ dtor m =
      let m1 = write_u32 (minus32 ptr 24) 0 m in
      let m2 = write_u32 (minus32 ptr 20) typ m1 in
      let m3 = write_u32 (minus32 ptr 16) dtor m2 in
      let m4 = write_u32 (minus32 ptr 12) 0 m3 in write_u32 (minus32 ptr 8) 0 m4

  -- `X__cxa_throw`
  unfoldable pub cxa_throw {ℓ} : {A : Type ℓ} → ℕ → ℕ → ℕ → Host → Mod → Outcome A × Host × Mod
  cxa_throw ptr typ dtor h m =
      let msg = cstr_u32 abi m (read_u32 m (plus32 ptr 4)) in
      let rec : ExcRecord = record { exc = ptr; typ = typ } in
      (
        thrown rec,
        record h { last_throw_msg = msg; last = rec; uncaught = plus32 h.uncaught 1 },
        init_header ptr typ dtor m,
      )

  -- `X__cxa_rethrow` on the caught stack that it finds
  unfoldable pub rethrow_from {ℓ} :
      {A : Type ℓ} → List ExcRecord → Host → Mod → Outcome A × Host × Mod
  rethrow_from [] h m = (thrown no_exception, h, m)
  rethrow_from (rec ∷ below) h m =
      if hdr_rethrown abi m rec.exc
      then (thrown rec, record h { caught = below; last = rec }, m)
      else (
        thrown rec,
        record h { uncaught = plus32 h.uncaught 1; last = rec },
        set_hdr_caught abi rec.exc false (set_hdr_rethrown abi rec.exc true m),
      )

  -- `X__cxa_rethrow`
  unfoldable pub cxa_rethrow {ℓ} : {A : Type ℓ} → Host → Mod → Outcome A × Host × Mod
  unfolding rethrow_from
  cxa_rethrow h m = rethrow_from h.caught h m

  -- `X__resumeException`
  unfoldable pub resume_exception {ℓ} : {A : Type ℓ} → ℕ → Host → Mod → Outcome A × Host × Mod
  resume_exception ptr h m =
      let rec : ExcRecord =
        if h.last.exc == 0 && not (ptr == 0)
        then record { exc = ptr; typ = hdr_type abi m ptr }
        else h.last in
      (thrown rec, record h { last = rec }, m)

  -- `X_emscripten_throw_longjmp`
  unfoldable pub throw_longjmp {ℓ} : {A : Type ℓ} → Host → Mod → Outcome A × Host × Mod
  throw_longjmp h m = (thrown no_exception, h, m)

  -- the loop of `findMatch`: the matched type, or none
  unfoldable pub match_clauses : ℕ → ℕ → List ℕ → Mod → Option ℕ × Mod
  match_clauses thrown_type slot [] m = (none, m)
  match_clauses thrown_type slot (ct ∷ rest) m =
      let (ok, m') = can_catch ct thrown_type slot m in
      let next = match_clauses thrown_type slot rest m in
      let next' = match_clauses thrown_type slot rest m' in
      if ct == 0
      then (some 0, m)
      else if ct == thrown_type
      then (some ct, m)
      else if thrown_type == 0
      then next
      else if not (ok == 0)
      then (some ct, m')
      else next'

  -- the end of `findMatch`: the id of the matched clause is published
  unfoldable pub publish : Option ℕ → Host → Mod → Host × Mod
  publish none h m = (record h { temp_ret0 = 0 }, tempret_set 0 m)
  publish (some ct) h m =
      let (id, h') = type_id ct h in (record h' { temp_ret0 = id }, tempret_set id m)

  -- `found := len(catchTypes) == 0`, then the loop
  unfoldable pub matched : ℕ → ℕ → List ℕ → Mod → Option ℕ × Mod
  unfolding match_clauses
  matched thrown_type slot [] m = (some 0, m)
  matched thrown_type slot (ct ∷ rest) m = match_clauses thrown_type slot (ct ∷ rest) m

  -- `findMatch`, and with it `X__cxa_find_matching_catch_2` to `_5`
  unfoldable pub find_match : List ℕ → Host → Mod → ℕ × Host × Mod
  find_match catch_types h m =
      let exc = h.last.exc in
      let thrown_type = hdr_type abi m exc in
      let slot = minus32 exc 8 in
      let (found, m') = matched thrown_type slot catch_types (write_u32 slot exc m) in
      let (h', m'') = publish found h m' in
      if exc == 0 then (0, h, tempret_set 0 m) else (exc, h', m'')

  -- `X__cxa_begin_catch`
  unfoldable pub cxa_begin_catch : ℕ → Host → Mod → ℕ × Host × Mod
  cxa_begin_catch ptr h m =
      let fresh = not (hdr_caught abi m ptr) in
      let m1 = if fresh then set_hdr_caught abi ptr true m else m in
      let left = if fresh && positive32 h.uncaught then h.uncaught - 1 else h.uncaught in
      let m2 = set_hdr_rethrown abi ptr false m1 in
      let rec : ExcRecord = record { exc = ptr; typ = hdr_type abi m2 ptr } in
      let (adj, m3) = get_exception_ptr ptr (inc_ref abi ptr m2) in
      if ptr == 0 then (0, h, m) else (
        if adj == 0 then ptr else adj,
        record h { uncaught = left; caught = rec ∷ h.caught },
        m3,
      )

  -- `X__cxa_end_catch` on the caught stack that it finds
  unfoldable pub pop_caught : List ExcRecord → Mod → List ExcRecord × Mod
  pop_caught [] m = ([], m)
  pop_caught (rec ∷ below) m = (below, dec_ref abi rec.exc m)

  -- `X__cxa_end_catch`
  unfoldable pub cxa_end_catch : Host → Mod → Host × Mod
  unfolding pop_caught
  cxa_end_catch h m =
      let (below, m') = pop_caught h.caught (set_threw 0 0 m) in
      (record h { caught = below; last = no_exception }, m')

  -- `X__cxa_current_primary_exception`
  unfoldable pub cxa_current_primary_exception : List ExcRecord → Mod → ℕ × Mod
  cxa_current_primary_exception [] m = (0, m)
  cxa_current_primary_exception (rec ∷ below) m = (rec.exc, inc_ref abi rec.exc m)

  -- `X__cxa_rethrow_primary_exception`
  unfoldable pub cxa_rethrow_primary_exception : ℕ → Host → Mod → Outcome (Unit {0}) × Host × Mod
  unfolding cxa_rethrow
  cxa_rethrow_primary_exception ptr h m =
      let rec : ExcRecord = record { exc = ptr; typ = hdr_type abi m ptr } in
      if ptr == 0
      then (returned tt, h, m)
      else cxa_rethrow (record h { caught = rec ∷ h.caught }) (set_hdr_rethrown abi ptr true m)
