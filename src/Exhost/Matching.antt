-- ===== src/Exhost/Matching.antt =====
-- `findMatch` of converge/exhost/host.go and the compare that the landing pad makes behind it.
use duckdb_wasm2go_poc.Base.{
  ℕ, ◌<◌, ◌≡◌, ◌≢◌, ◌↔◌, Bool, false, not, ◌&&◌, ◌||◌, List, [], ◌∷◌, Option, none, some, inl, inr,
  Option-cases, ◌==◌, if◌then◌else◌, arith, refl, sym, ap, ◌∙◌,
}
use duckdb_wasm2go_poc.Exhost.Abi.{ModuleAbi, minus32}
use duckdb_wasm2go_poc.Exhost.Host.{Host, hdr_type}
use duckdb_wasm2go_poc.Exhost.Calls.{
  type_id, llvm_eh_typeid_for, get_temp_ret0, match_clauses, matched, publish, find_match,
}
use duckdb_wasm2go_poc.Exhost.TypeIds.{TypeIdsOk, type_id_injective}

-- Whether a clause takes an exception: `catch (...)`, its own type, or a base by the RTTI.
abbrev pub catches : (ℕ → ℕ → Bool) → ℕ → ℕ → Bool
catches rtti thrown_type ct =
    ct == 0 || ct == thrown_type || (not (thrown_type == 0) && rtti ct thrown_type)

abbrev pub first_catching : (ℕ → ℕ → Bool) → ℕ → List ℕ → Option ℕ
first_catching rtti thrown_type [] = none
first_catching rtti thrown_type (ct ∷ rest) =
    if catches rtti thrown_type ct then some ct else first_catching rtti thrown_type rest

-- The clauses of a landing pad; with no candidate it is a catch-all.
abbrev pub selected : (ℕ → ℕ → Bool) → ℕ → List ℕ → Option ℕ
selected rtti thrown_type [] = some 0
selected rtti thrown_type (ct ∷ rest) = first_catching rtti thrown_type (ct ∷ rest)

type_id_pos : (t : ℕ) (h : Host) → TypeIdsOk h → 0 < (type_id t h).0
unfolding type_id
type_id_pos t h v = elim (Option-cases (h.type_ids t)) [
  | inl e ↦ ground (arith, v.next_lo)
  | inr (id, e) ↦ ground (arith, v.ids_lo t id)
]

type_id-temp_ret0 :
    (t v : ℕ) (h : Host) → (type_id t (record h { temp_ret0 = v })).0 ≡ (type_id t h).0
unfolding type_id
type_id-temp_ret0 t v h = ground arith

-- What `publish` leaves in the register answers the compare of each clause.
publish_dispatch :
    (abi : ModuleAbi) (found : Option ℕ) (t : ℕ) (h : Host) (m : abi.Mod)
    → TypeIdsOk h
    → (get_temp_ret0 (publish abi found h m).0 ≡ (llvm_eh_typeid_for t (publish abi found h m).0).0)
      ↔ (found ≡ some t)
unfolding publish get_temp_ret0 llvm_eh_typeid_for
publish_dispatch abi none t h m v =
    (λ e. absurd (omega (arith, type_id_pos t h v, type_id-temp_ret0 t 0 h)), λ e. cc)
publish_dispatch abi (some ct) t h m v =
    let same = type_id-temp_ret0 t (type_id ct h).0 (type_id ct h).1 in
    (
      λ e. ap some ((type_id_injective ct t h v).0 (e ∙ same)),
      λ e. (type_id_injective ct t h v).1 (cc e) ∙ sym same,
    )

module _ (abi : ModuleAbi) (rtti : ℕ → ℕ → Bool)
    (answers : (ct tt slot : ℕ) (m : abi.Mod)
      → not ((abi.can_catch ct tt slot m).0 == 0) ≡ rtti ct tt) where
  match_clauses-first_catching :
      (thrown_type slot : ℕ) (cts : List ℕ) (m : abi.Mod)
      → (match_clauses abi thrown_type slot cts m).0 ≡ first_catching rtti thrown_type cts
  unfolding match_clauses
  match_clauses-first_catching tt slot [] m = refl
  match_clauses-first_catching tt slot (ct ∷ rest) m = ground (
    arith,
    answers ct tt slot m,
    match_clauses-first_catching tt slot rest m,
    match_clauses-first_catching tt slot rest (abi.can_catch ct tt slot m).1,
  )

  matched-selected :
      (thrown_type slot : ℕ) (cts : List ℕ) (m : abi.Mod)
      → (matched abi thrown_type slot cts m).0 ≡ selected rtti thrown_type cts
  unfolding matched
  matched-selected tt slot [] m = refl
  matched-selected tt slot (ct ∷ rest) m = match_clauses-first_catching tt slot (ct ∷ rest) m

  -- A landing pad with clauses `cts` enters the handler of type `t`, the one whose compare with the
  -- published id succeeds, exactly when `t` is the first clause that catches the exception in flight
  -- (the catch-all, type 0, included). The pad is given the exception's own pointer.
  pub landing_pad_dispatch :
      (cts : List ℕ) (t : ℕ) (h : Host) (m : abi.Mod)
      → TypeIdsOk h
      → h.last.exc ≢ 0
      → let (exc, h', m') = find_match abi cts h m in
        (exc ≡ h.last.exc)
        × ((get_temp_ret0 h' ≡ (llvm_eh_typeid_for t h').0)
            ↔ (selected rtti (hdr_type abi m h.last.exc) cts ≡ some t))
  unfolding find_match
  landing_pad_dispatch cts t h m v ne =
      let tt = hdr_type abi m h.last.exc in
      let m1 = abi.write_u32 (minus32 h.last.exc 8) h.last.exc m in
      let (found, m2) = matched abi tt (minus32 h.last.exc 8) cts m1 in
      let nz : (h.last.exc == 0) ≡ false = ground arith in
      rw nz (
        refl,
        rw (← matched-selected tt (minus32 h.last.exc 8) cts m1)
            (publish_dispatch abi found t h m2 v),
      )
