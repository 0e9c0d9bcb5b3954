-- ===== src/Exhost/TypeIds.antt =====
-- The type ids that converge/exhost/host.go gives to `std::type_info` pointers.
use duckdb_wasm2go_poc.Base.{
  ℕ, ◌+◌, ◌^◌, ◌<◌, ◌≤◌, ◌≡◌, ◌↔◌, some, inl, inr, Option-cases, ◌==◌, arith, Bool-cases, sym,
}
use duckdb_wasm2go_poc.Exhost.Host.{Host, new_host}
use duckdb_wasm2go_poc.Exhost.Calls.{type_id}

-- The ids given so far are distinct, above the reserved id 1 and below the next one.
pub record TypeIdsOk (h : Host) : Type 0 where
  pub next_lo : 2 ≤ h.next_type
  pub ids_lo : (t id : ℕ) → h.type_ids t ≡ some id → 2 ≤ id
  pub ids_hi : (t id : ℕ) → h.type_ids t ≡ some id → id < h.next_type
  pub ids_ne : (s t id : ℕ) → h.type_ids s ≡ some id → h.type_ids t ≡ some id → s ≡ t

-- the int32 counter has a value left
abbrev pub HasRoom : Host → Type 0
HasRoom h = h.next_type + 1 < 2 ^ 32

pub new_host-TypeIdsOk : TypeIdsOk new_host
new_host-TypeIdsOk = record {
  next_lo = omega arith;
  ids_lo = λ t id e. cc;
  ids_hi = λ t id e. cc;
  ids_ne = λ s t id e. cc;
}

-- Giving an id, old or new, keeps the ids distinct and above 1, as long as the counter has room.
pub type_id-TypeIdsOk : (t : ℕ) (h : Host) → TypeIdsOk h → HasRoom h → TypeIdsOk (type_id t h).1
unfolding type_id
type_id-TypeIdsOk t h v room = elim (Bool-cases (t == 0)) [
  | inl z ↦ rw z v
  | inr nz ↦ rw nz (elim (Option-cases (h.type_ids t)) [
    | inr (id, e) ↦ rw e v
    | inl e ↦ rw e (record {
      next_lo = ground (arith, v.next_lo);
      ids_lo = λ s id k. ground (arith, v.next_lo, v.ids_lo s id);
      ids_hi = λ s id k. ground (arith, v.ids_hi s id);
      ids_ne = λ r s id k l. ground (arith, v.ids_hi r id, v.ids_hi s id, v.ids_ne r s id);
    })
  ])
]

-- Asking again for a type gives the same id.
type_id_again : (t : ℕ) (h : Host) → (type_id t (type_id t h).1).0 ≡ (type_id t h).0
unfolding type_id
type_id_again t h = ground arith

type_id_apart :
    (s t : ℕ) (h : Host) → TypeIdsOk h → (type_id s h).0 ≡ (type_id t (type_id s h).1).0 → s ≡ t
unfolding type_id
type_id_apart s t h v = elim (Option-cases (h.type_ids s)) [
  | inl a ↦ elim (Option-cases (h.type_ids t)) [
    | inl b ↦ ground (arith, v.next_lo)
    | inr (id, b) ↦ ground (arith, v.next_lo, v.ids_lo t id, v.ids_hi t id)
  ]
  | inr (ida, a) ↦ elim (Option-cases (h.type_ids t)) [
    | inl b ↦ ground (arith, v.next_lo, v.ids_lo s ida, v.ids_hi s ida)
    | inr (id, b) ↦ ground (arith, v.ids_lo s ida, v.ids_lo t id, v.ids_ne s t ida)
  ]
]

-- Asked for two types in a row, the host gives the same id exactly when the types are the same.
-- The catch-all, type 0, counts as a type of its own.
pub type_id_injective :
    (s t : ℕ) (h : Host) → TypeIdsOk h → ((type_id s h).0 ≡ (type_id t (type_id s h).1).0) ↔ (s ≡ t)
type_id_injective s t h v = (type_id_apart s t h v, λ e. rw (← e) (sym (type_id_again s h)))
