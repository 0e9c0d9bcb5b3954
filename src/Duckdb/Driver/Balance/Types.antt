-- ===== src/Duckdb/Driver/Balance/Types.antt =====
-- `typeName` of converge/duckdb/typename.go leaves the accounts of handles in order.
use duckdb_wasm2go_poc.Base.{
  ℕ, zero, suc, ◌+◌, ◌≡◌, Bool, true, false, ◌==◌, if◌then◌else◌, Bytes, refl, arith,
}
use duckdb_wasm2go_poc.Base.Text.{codes}
use duckdb_wasm2go_poc.Duckdb.Driver.{
  Call, Engine, engine_text, logical_type, acquire, Session, Prog, pure, note,
}
use duckdb_wasm2go_poc.Duckdb.Driver.Module.{give_back}
use duckdb_wasm2go_poc.Duckdb.Driver.Nets.{
  Handle, one, Balance, Nets, pure-Nets, out_of_fuel-Nets, bind-Nets, count-Nets, if-Nets,
}
use duckdb_wasm2go_poc.Duckdb.Driver.TypeNames.{
  TypeReader, take_text, take_type, destroy_type, with_child, varchar_name, field_names,
  fields_name, list_name, array_name, map_name, decimal_name, name_of_kind, type_name,
  scalar_type_name,
}
use duckdb_wasm2go_poc.Duckdb.Driver.Balance.{
  acquire_beside, release_beside, call_then, give_back-Nets,
}

abbrev type_held : Handle → Bool → ℕ → ℕ
type_held h none_held n = if none_held then 0 else one h logical_type n

module _ (e : Engine) (t : TypeReader e) {h : Handle} {c : Bool} where
  pub take_text-Nets : (own at : ℕ) → Nets h c own (λ _. own) (take_text e t at)
  unfolding take_text
  take_text-Nets own at = bind-Nets (acquire_beside own engine_text at) (λ _.
      call_then (e.go_string at) (λ s.
        bind-Nets (release_beside own engine_text at)
          (λ _. call_then (t.free_text at) (λ _. pure-Nets s))))

  take_if-Nets :
      (own n : ℕ) (b : Bool)
      → Nets {W = e.World} h c own
          (λ _. own + type_held h b n)
          (if b then pure tt else note (acquire logical_type n))
  take_if-Nets own n true = count-Nets (omega arith) (λ _. refl) (pure-Nets tt)
  take_if-Nets own n false = acquire_beside own logical_type n

  take_type-Nets : (own n : ℕ) → Nets h c own (λ _. own + type_held h (n == 0) n) (take_type e t n)
  unfolding take_type
  take_type-Nets own n = take_if-Nets own n (n == 0)

  destroy_if-Nets :
      (own n : ℕ) (b : Bool)
      → Nets h c
          (own + type_held h b n)
          (λ _. own)
          (if b then pure tt else give_back e logical_type e.destroy_logical_type n)
  destroy_if-Nets own n true = count-Nets (omega arith) (λ _. refl) (pure-Nets tt)
  destroy_if-Nets own n false = give_back-Nets e own logical_type e.destroy_logical_type n

  destroy_type-Nets :
      (own n : ℕ) → Nets h c (own + type_held h (n == 0) n) (λ _. own) (destroy_type e t n)
  unfolding destroy_type
  destroy_type-Nets own n = destroy_if-Nets own n (n == 0)

  with_child-Nets :
      {A : Type 0} (read : ℕ → Prog e.World A) (own n : ℕ)
      → ((k : ℕ) → Nets h c k (λ _. k) (read n))
      → Nets h c (own + type_held h (n == 0) n) (λ _. own) (with_child e t read n)
  unfolding with_child
  with_child-Nets read own n reads =
      bind-Nets (reads (own + type_held h (n == 0) n))
        (λ a. bind-Nets (destroy_type-Nets own n) (λ _. pure-Nets a))

  varchar_name-Nets : (own lt : ℕ) → Nets h c own (λ _. own) (varchar_name e t lt)
  unfolding varchar_name
  varchar_name-Nets own lt = call_then (t.get_alias lt) (λ at.
      if-Nets (at == 0) (pure-Nets (codes "VARCHAR"))
        (bind-Nets (take_text-Nets own at) (λ s. pure-Nets _)))

  module _ (rec : ℕ → Prog e.World Bytes) (reads : (lt k : ℕ) → Nets h c k (λ _. k) (rec lt)) where
    field_names-Nets :
        (name_of child_of : ℕ → ℕ → Call e.World ℕ) (own lt n i : ℕ)
        → Nets h c own (λ _. own) (field_names e t rec name_of child_of lt n i)
    unfolding field_names
    field_names-Nets name_of child_of own lt zero i = pure-Nets _
    field_names-Nets name_of child_of own lt (suc n) i = call_then (name_of lt i) (λ at.
        bind-Nets (take_text-Nets own at) (λ name. call_then (child_of lt i) (λ child.
          bind-Nets (take_type-Nets own child) (λ _.
            bind-Nets (with_child-Nets rec own child (λ k. reads child k)) (λ s.
              bind-Nets (field_names-Nets name_of child_of own lt n (i + 1))
                (λ rest. pure-Nets _))))))

    fields_name-Nets :
        (word : Bytes) (count_of : ℕ → Call e.World ℕ) (name_of child_of : ℕ → ℕ → Call e.World ℕ)
        (own lt : ℕ)
        → Nets h c own (λ _. own) (fields_name e t word rec count_of name_of child_of lt)
    unfolding fields_name
    fields_name-Nets word count_of name_of child_of own lt =
        call_then (count_of lt)
          (λ n. bind-Nets (field_names-Nets name_of child_of own lt n 0) (λ parts. pure-Nets _))

    list_name-Nets : (own lt : ℕ) → Nets h c own (λ _. own) (list_name e t rec lt)
    unfolding list_name
    list_name-Nets own lt = call_then (t.list_child lt) (λ child.
        bind-Nets (take_type-Nets own child)
          (λ _. bind-Nets (with_child-Nets rec own child (λ k. reads child k)) (λ s. pure-Nets _)))

    array_name-Nets : (own lt : ℕ) → Nets h c own (λ _. own) (array_name e t rec lt)
    unfolding array_name
    array_name-Nets own lt = call_then (t.array_child lt) (λ child.
        bind-Nets (take_type-Nets own child) (λ _.
          with_child-Nets _ own child
            (λ k. bind-Nets (reads child k) (λ s. call_then (t.array_size lt) (λ n. pure-Nets _)))))

    map_name-Nets : (own lt : ℕ) → Nets h c own (λ _. own) (map_name e t rec lt)
    unfolding map_name
    map_name-Nets own lt = call_then (t.map_key lt) (λ kt. bind-Nets (take_type-Nets own kt) (λ _.
        call_then (t.map_value lt) (λ vt.
          bind-Nets (take_type-Nets (own + type_held h (kt == 0) kt) vt) (λ _.
            bind-Nets (reads kt _) (λ k. bind-Nets (reads vt _) (λ v.
              bind-Nets
                (count-Nets (omega arith) (λ _. refl)
                  (destroy_type-Nets (own + type_held h (vt == 0) vt) kt))
                (λ _. bind-Nets (destroy_type-Nets own vt) (λ _. pure-Nets _))))))))

    name_of_kind-Nets : (own tid lt : ℕ) → Nets h c own (λ _. own) (name_of_kind e t rec tid lt)
    unfolding name_of_kind decimal_name
    name_of_kind-Nets own tid lt =
        if-Nets (tid == 19)
          (call_then (t.decimal_width lt) (λ w. call_then (t.decimal_scale lt) (λ s. pure-Nets _)))
          (if-Nets (tid == 17) (varchar_name-Nets own lt) (
            if-Nets (tid == 23) (pure-Nets (codes "ENUM")) (
              if-Nets (tid == 24) (list_name-Nets own lt) (
                if-Nets (tid == 33) (array_name-Nets own lt) (
                  if-Nets (tid == 26) (map_name-Nets own lt) (
                    if-Nets (tid == 25)
                      (fields_name-Nets (codes "STRUCT(") t.struct_count t.struct_name
                        t.struct_child own lt)
                      (if-Nets (tid == 28)
                        (fields_name-Nets (codes "UNION(") t.union_count t.union_name t.union_child
                          own lt)
                        (pure-Nets (scalar_type_name tid)))))))))

  pub type_name-Nets : (fuel lt own : ℕ) → Nets h c own (λ _. own) (type_name e t fuel lt)
  unfolding type_name
  type_name-Nets zero lt own = out_of_fuel-Nets
  type_name-Nets (suc f) lt own =
      call_then (e.get_type_id lt)
        (λ tid. name_of_kind-Nets (type_name e t f) (λ n k. type_name-Nets f n k) own tid lt)

-- The reading of a type's name gives back every logical type of a child, every text and every buffer
-- of memory that it was given, at every depth that the fuel reaches, unless the engine panics.
pub type_name-Balance :
    (e : Engine) (t : TypeReader e) (h : Handle) (fuel lt : ℕ) (s : Session e.World)
    → s.poisoned ≡ false
    → Balance h 0 (λ _. 0) s (type_name e t fuel lt s)
type_name-Balance e t h fuel lt s hp = (type_name-Nets e t fuel lt 0).balance s hp refl
