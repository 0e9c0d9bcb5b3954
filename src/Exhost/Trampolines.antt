-- ===== src/Exhost/Trampolines.antt =====
-- The invoke trampolines of converge/exhost/host.go and converge/exhost/invokes.go.
use duckdb_wasm2go_poc.Base.{
  ℕ, ◌≡◌, ◌≢◌, ◌⊎◌, ◌↔◌, none, some, inl, inr, Option, Option-cases, refl,
}
use duckdb_wasm2go_poc.Exhost.Abi.{ModuleAbi}
use duckdb_wasm2go_poc.Exhost.Host.{ExcRecord, Host, Outcome, returned, thrown, panicked}
use duckdb_wasm2go_poc.Exhost.Calls.{trampoline, slot_call, invoke}

module _ (abi : ModuleAbi) {A Args : Type 0}
    (table : ℕ → Option (Args → Host → abi.Mod → Outcome A × Host × abi.Mod)) where
  -- The ways in which a trampoline can fail: an empty slot, or a panic that is no C++ throw.
  abbrev pub Fails : ℕ → Args → Host → abi.Mod → Type 0
  Fails index args h m =
      (table index ≡ none)
      ⊎ ((f : Args → Host → abi.Mod → Outcome A × Host × abi.Mod) × (table index ≡ some f)
          × ((f args h m).0 ≡ panicked))

  trampoline_outcomes :
      (zero_ret : A) (call : Host → abi.Mod → Outcome A × Host × abi.Mod) (h : Host) (m : abi.Mod)
      (rec : ExcRecord)
      → ((trampoline abi zero_ret call h m).0 ≢ thrown rec)
        × (((trampoline abi zero_ret call h m).0 ≡ panicked) ↔ ((call h m).0 ≡ panicked))
  unfolding trampoline
  trampoline_outcomes zero_ret call h m rec = go (call h m).0 refl
    where
      go :
          (o : Outcome A)
          → (call h m).0 ≡ o
          → ((trampoline abi zero_ret call h m).0 ≢ thrown rec)
            × (((trampoline abi zero_ret call h m).0 ≡ panicked) ↔ ((call h m).0 ≡ panicked))
      go (returned a) e = rw (e, trampoline) (λ k. cc k, (λ k. cc k, λ k. cc k))
      go (thrown tp) e = rw (e, trampoline) (λ k. cc k, (λ k. cc k, λ k. cc k))
      go panicked e = rw (e, trampoline) (λ k. cc k, (λ k. k, λ k. k))

  slot_call-Fails :
      (index : ℕ) (args : Args) (h : Host) (m : abi.Mod)
      → ((slot_call abi table index args h m).0 ≡ panicked) ↔ Fails index args h m
  unfolding slot_call
  slot_call-Fails index args h m = elim (Option-cases (table index)) [
    | inl e ↦ (λ _. inl e, λ _. rw (e, slot_call))
    | inr (f, e) ↦ (
      λ k. inr (f, e, rw (e, slot_call) at k),
      λ k. elim k [ inl e' ↦ cc | inr (g, eg, pg) ↦ rw (eg, slot_call) pg ],
    )
  ]

  -- No C++ throw gets past a trampoline, and it panics exactly when the slot is empty or the wrapped
  -- call panics with something else than a C++ throw.
  pub invoke_outcomes :
      (zero_ret : A) (index : ℕ) (args : Args) (h : Host) (m : abi.Mod) (rec : ExcRecord)
      → ((invoke abi table zero_ret index args h m).0 ≢ thrown rec)
        × (((invoke abi table zero_ret index args h m).0 ≡ panicked) ↔ Fails index args h m)
  unfolding invoke
  invoke_outcomes zero_ret index args h m rec =
      let (safe, fails) = trampoline_outcomes zero_ret (slot_call abi table index args) h m rec in
      let (to, from) = slot_call-Fails index args h m in
      (safe, (λ k. to (fails.0 k), λ k. fails.1 (from k)))
