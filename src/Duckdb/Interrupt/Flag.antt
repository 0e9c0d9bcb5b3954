-- ===== src/Duckdb/Interrupt/Flag.antt =====
-- `resolveInterruptFlag` of converge/duckdb/interrupt.go: what an address that it gives is.
use duckdb_wasm2go_poc.Base.{
  ℕ, zero, suc, ◌+◌, ◌^◌, ◌<◌, ◌≡◌, ◌⊎◌, true, false, ◌||◌, Option, none, some, inl, inr, Bytes, [],
  ◌∷◌, length, refl, ap, sym, ◌∙◌, leb, ltb, ◌==◌, Bool-cases, Option-cases, arith,
}
use duckdb_wasm2go_poc.Exhost.Abi.{plus32}
use duckdb_wasm2go_poc.HostFs.Memory.{overwrite, paste, negative32}
use duckdb_wasm2go_poc.HostFs.Copy.{length-overwrite}
use duckdb_wasm2go_poc.Duckdb.Interrupt.{
  byte_at, poke, read_u32, flag_offset, probe_result, probe, resolve_interrupt_flag,
}

byte_at-overwrite :
    (at b : ℕ) (mem : Bytes) (c : ℕ)
    → byte_at at mem ≡ some c
    → byte_at at (overwrite at (b ∷ []) mem) ≡ some b
unfolding overwrite paste
byte_at-overwrite zero b [] c h = absurd cc
byte_at-overwrite zero b (x ∷ xs) c h = refl
byte_at-overwrite (suc at) b [] c h = absurd cc
byte_at-overwrite (suc at) b (x ∷ xs) c h = byte_at-overwrite at b xs c h

-- A byte written back.
overwrite_back :
    (at b : ℕ) (mem : Bytes) (c : ℕ)
    → byte_at at mem ≡ some c
    → overwrite at (c ∷ []) (overwrite at (b ∷ []) mem) ≡ mem
unfolding overwrite paste
overwrite_back zero b [] c h = refl
overwrite_back zero b (x ∷ xs) c h = let same : c ≡ x = cc in rw same refl
overwrite_back (suc at) b [] c h = refl
overwrite_back (suc at) b (x ∷ xs) c h = ap (◌∷◌ x) (overwrite_back at b xs c h)

overwrite_again :
    (at a b : ℕ) (mem : Bytes)
    → overwrite at (b ∷ []) (overwrite at (a ∷ []) mem) ≡ overwrite at (b ∷ []) mem
unfolding overwrite paste
overwrite_again zero a b [] = refl
overwrite_again zero a b (x ∷ xs) = refl
overwrite_again (suc at) a b [] = refl
overwrite_again (suc at) a b (x ∷ xs) = ap (◌∷◌ x) (overwrite_again at a b xs)

byte_inside : (at : ℕ) (mem : Bytes) → at < length mem → (c : ℕ) × (byte_at at mem ≡ some c)
byte_inside zero [] h = absurd (omega arith)
byte_inside zero (x ∷ xs) h = (x, refl)
byte_inside (suc at) [] h = absurd (omega arith)
byte_inside (suc at) (x ∷ xs) h = byte_inside at xs (omega arith)

module _ (interrupt : Bytes → Bytes) where
  -- What a probe of an address gives: nothing, or the address, whose byte the engine's interrupt sets,
  -- and memory with that byte as it was.
  abbrev Probed : ℕ → Bytes → ℕ × Bytes → Type 0
  Probed at mem r =
      (r.0 ≡ 0)
      ⊎ ((r.0 ≡ at)
          × (byte_at at (interrupt (overwrite at (0 ∷ []) mem)) ≡ some 1)
          × (byte_at at r.1 ≡ byte_at at mem))

  probe_result-Probed :
      (at saved : ℕ) (mem : Bytes)
      → byte_at at mem ≡ some saved
      → Probed at mem (probe_result at saved (interrupt (overwrite at (0 ∷ []) mem)))
  unfolding probe_result
  probe_result-Probed at saved mem there =
      let probed = interrupt (overwrite at (0 ∷ []) mem) in
      elim (Option-cases (byte_at at probed)) [
        | inl gone ↦ rw (gone, probe_result) (inl refl)
        | inr (b, now) ↦
            let back : byte_at at (overwrite at (saved ∷ []) probed) ≡ byte_at at mem =
              byte_at-overwrite at saved probed b now ∙ sym there in
            elim (Bool-cases (b == 1)) [
              | inl set ↦
                  let one : b ≡ 1 = ground arith in
                  rw (now, probe_result) (rw (set, probe_result) (inr (refl, ap some one, back)))
              | inr other ↦ rw (now, probe_result) (rw (other, probe_result) (inl refl))
            ]
      ]

  probe-Probed : (at : ℕ) (mem : Bytes) → Probed at mem (probe interrupt at mem)
  unfolding probe
  probe-Probed at mem = elim (Option-cases (byte_at at mem)) [
    | inl gone ↦ rw (gone, probe) (inl refl)
    | inr (saved, there) ↦ rw (there, probe) (rw there at (probe_result-Probed at saved mem there))
  ]

  probe_found :
      (at : ℕ) (mem : Bytes)
      → at < length mem
      → ((m : Bytes) → interrupt m ≡ poke at m)
      → probe interrupt at mem ≡ (at, mem)
  unfolding probe probe_result poke
  probe_found at mem inside layout =
      let (saved, old) = byte_inside at mem inside in
      let cleared = overwrite at (0 ∷ []) mem in
      let fits : ltb at (length cleared) ≡ true =
        ground (arith, length-overwrite at (0 ∷ []) mem) in
      let probed : interrupt cleared ≡ overwrite at (1 ∷ []) mem =
        layout cleared ∙ rw fits (overwrite_again at 0 1 mem) in
      let now : byte_at at (overwrite at (1 ∷ []) mem) ≡ some 1 =
        byte_at-overwrite at 1 mem saved old in
      rw (old, probe)
        (rw (probed, probe_result)
          (rw (now, probe_result)
            (rw probed (ap (λ (m : Bytes). (at, m)) (overwrite_back at 1 mem saved old)))))

-- What `resolveInterruptFlag` gives: no address, or that 16 bytes behind the context of the connection.
abbrev pub Resolved : (ℕ → Bytes → Bytes) → ℕ → Bytes → Option (ℕ × Bytes) → Type 0
Resolved interrupt con mem none = Unit
Resolved interrupt con mem (some r) =
    (r.0 ≡ 0)
    ⊎ ((ctx : ℕ) × (read_u32 con mem ≡ some ctx)
        × (r.0 ≡ plus32 ctx 16)
        × (r.0 < length mem)
        × (byte_at r.0 (interrupt con (overwrite r.0 (0 ∷ []) mem)) ≡ some 1)
        × (byte_at r.0 r.1 ≡ byte_at r.0 mem))

module _ (interrupt : ℕ → Bytes → Bytes) (con : ℕ) (mem : Bytes) where
  Probed-Resolved :
      (ctx at : ℕ) (r : ℕ × Bytes)
      → read_u32 con mem ≡ some ctx
      → at ≡ plus32 ctx 16
      → at < length mem
      → Probed (interrupt con) at mem r
      → Resolved interrupt con mem (some r)
  Probed-Resolved ctx at r read e h (inl nothing) = inl nothing
  Probed-Resolved ctx at r read e h (inr (same, set, back)) =
      inr (ctx, read, same ∙ e, rw same h, rw same set, rw same back)

  -- An address that `resolveInterruptFlag` gives is in memory, 16 bytes behind the context that the
  -- connection points to; the engine's own interrupt sets its byte to 1; and the byte is as it was.
  pub resolve_interrupt_flag-Resolved :
      Resolved interrupt con mem (resolve_interrupt_flag interrupt con mem)
  unfolding resolve_interrupt_flag
  resolve_interrupt_flag-Resolved = elim (Option-cases (read_u32 con mem)) [
    | inl panics ↦ elim (Bool-cases (con == 0)) [
      | inl no_con ↦
          rw (panics, resolve_interrupt_flag) (rw (no_con, resolve_interrupt_flag) (inl refl))
      | inr some_con ↦
          rw (panics, resolve_interrupt_flag) (rw (some_con, resolve_interrupt_flag) tt)
    ]
    | inr (ctx, read) ↦
        let at = plus32 ctx flag_offset in
        let outside = at == 0 || negative32 at || leb (length mem) at in
        elim (Bool-cases (con == 0 || ctx == 0 || negative32 ctx || outside)) [
          | inl nothing ↦
              rw (read, resolve_interrupt_flag) (rw (nothing, resolve_interrupt_flag) (inl refl))
          | inr there ↦
              rw (read, resolve_interrupt_flag)
                (rw (there, resolve_interrupt_flag)
                  (Probed-Resolved ctx at (probe (interrupt con) at mem) read refl (ground arith)
                    (probe-Probed (interrupt con) at mem)))
        ]
  ]

  -- Where the engine's interrupt sets the byte 16 behind the context of the connection, and nothing
  -- else, `resolveInterruptFlag` gives the address of that byte, and leaves memory as it was.
  resolve_interrupt_flag_found :
      (ctx : ℕ)
      → 0 < con
      → read_u32 con mem ≡ some ctx
      → 0 < ctx
      → ctx + 16 < length mem
      → length mem < 2 ^ 31
      → ((m : Bytes) → interrupt con m ≡ poke (ctx + 16) m)
      → resolve_interrupt_flag interrupt con mem ≡ some (ctx + 16, mem)
  unfolding resolve_interrupt_flag
  resolve_interrupt_flag_found ctx con_pos read ctx_pos inside small layout =
      let at : plus32 ctx flag_offset ≡ ctx + 16 = omega arith in
      let there : (con == 0
            || ctx == 0
            || negative32 ctx
            || (plus32 ctx flag_offset == 0
                || negative32 (plus32 ctx flag_offset)
                || leb (length mem) (plus32 ctx flag_offset)))
          ≡ false =
        ground arith in
      rw (read, resolve_interrupt_flag)
        (rw (there, resolve_interrupt_flag)
          (ap some (
            ap (λ (k : ℕ). probe (interrupt con) k mem) at
            ∙ probe_found (interrupt con) (ctx + 16) mem inside layout)))
