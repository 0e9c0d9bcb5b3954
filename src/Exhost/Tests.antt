-- ===== src/Exhost/Tests.antt =====
-- A small module with byte memory that meets the laws, and runs of the host over it.
use duckdb_wasm2go_poc.Base.{
  ℕ, Bool, not, ◌↔◌, ◌≢◌, ◌+◌, ◌*◌, ◌/◌, ◌%◌, ◌^◌, ◌<◌, ◌≤◌, ◌≡◌, ◌⊎◌, ◌&&◌, false, none, some, inr,
  ◌==◌, if◌then◌else◌, arith, refl, [], ◌∷◌, Option,
}
use duckdb_wasm2go_poc.Exhost.Abi.{ModuleAbi, Lawful, minus32}
use duckdb_wasm2go_poc.Exhost.Host.{
  Host, ExcRecord, Outcome, new_host, returned, thrown, panicked, no_exception, hdr_type,
  hdr_rethrown,
}
use duckdb_wasm2go_poc.Exhost.Calls.{
  type_id, find_match, get_temp_ret0, llvm_eh_typeid_for, init_header, cxa_throw, cxa_begin_catch,
  cxa_end_catch, resume_exception, cxa_rethrow, invoke,
}
use duckdb_wasm2go_poc.Exhost.TypeIds.{new_host-TypeIdsOk, type_id_injective}
use duckdb_wasm2go_poc.Exhost.Matching.{selected, landing_pad_dispatch}
use duckdb_wasm2go_poc.Exhost.Handlers.{nested_throw, rethrow_begin_catch}
use duckdb_wasm2go_poc.Exhost.Trampolines.{Fails, invoke_outcomes}
use duckdb_wasm2go_poc.Exhost.Cycle.{throw_catch_cycle}

record Memory : Type 0 where
  bytes : ℕ → ℕ
  threw : ℕ
  value : ℕ
  tempret : ℕ

read_word : Memory → ℕ → ℕ
read_word m p =
    m.bytes p % 256
    + 256 * (m.bytes (p + 1) % 256)
    + 65536 * (m.bytes (p + 2) % 256)
    + 16777216 * (m.bytes (p + 3) % 256)

put_bytes : ℕ → ℕ → (ℕ → ℕ) → ℕ → ℕ
put_bytes p v bytes q =
    if q == p
    then v % 256
    else if q == p + 1
    then (v / 256) % 256
    else if q == p + 2
    then (v / 65536) % 256
    else if q == p + 3
    then v / 16777216
    else bytes q

write_word : ℕ → ℕ → Memory → Memory
write_word p v m = record m { bytes = put_bytes p v m.bytes }

-- type 700 is a base of type 500
abbrev demo : ModuleAbi
demo = record {
  Mod = Memory;
  set_threw = λ a b m. record m { threw = a; value = b };
  tempret_set = λ v m. record m { tempret = v };
  can_catch = λ ct tt slot m. (if ct == 700 && tt == 500 then 1 else 0, m);
  get_exception_ptr = λ e m. (read_word m (minus32 e 8), m);
  read_u32 = read_word;
  write_u32 = write_word;
  refcounter = none;
}

read_word_lt : (m : Memory) (p : ℕ) → read_word m p < 2 ^ 32
unfolding read_word
read_word_lt m p = omega arith

read_word-write_word_self : (m : Memory) (p v : ℕ) → v < 2 ^ 32 → read_word (write_word p v m) p ≡ v
unfolding read_word write_word put_bytes
read_word-write_word_self m p v h = ground arith

put_bytes_apart :
    (p v q : ℕ) (bytes : ℕ → ℕ) → (q < p) ⊎ (p + 4 ≤ q) → put_bytes p v bytes q ≡ bytes q
unfolding put_bytes
put_bytes_apart p v q bytes h = ground arith

read_word-write_word_apart :
    (m : Memory) (p q v : ℕ)
    → (p + 4 ≤ q) ⊎ (q + 4 ≤ p)
    → read_word (write_word p v m) q ≡ read_word m q
unfolding read_word write_word
read_word-write_word_apart m p q v h = ground (
  arith,
  put_bytes_apart p v q m.bytes,
  put_bytes_apart p v (q + 1) m.bytes,
  put_bytes_apart p v (q + 2) m.bytes,
  put_bytes_apart p v (q + 3) m.bytes,
)

demo-Lawful : Lawful demo
unfolding read_word
demo-Lawful = record {
  read_lt = read_word_lt;
  read-write_self = read_word-write_word_self;
  read-write_apart = read_word-write_word_apart;
  read-set_threw = λ m a b p k o lo hi. refl;
  read-tempret_set = λ m v p. refl;
  read-get_exception_ptr = λ m e p. refl;
  read-increment = λ rc m e p k h. cc h;
  read-decrement = λ rc m e p k h. cc h;
}

abbrev blank : Memory
blank = record { bytes = λ _. 0; threw = 0; value = 0; tempret = 0 }

abbrev demo_rtti : ℕ → ℕ → Bool
demo_rtti ct tt = ct == 700 && tt == 500

demo_answers :
    (ct tt slot : ℕ) (m : Memory) → not ((demo.can_catch ct tt slot m).0 == 0) ≡ demo_rtti ct tt
demo_answers ct tt slot m = ground arith

type_id_injective_example :
    ((type_id 500 new_host).0 ≡ (type_id 700 (type_id 500 new_host).1).0) ↔ (◌≡◌ {A = ℕ} 500 700)
type_id_injective_example = type_id_injective 500 700 new_host new_host-TypeIdsOk

-- one exception in flight, of type 500 at address 1000
abbrev in_flight : Host
in_flight = record new_host { last = record { exc = 1000; typ = 500 } }

abbrev thrown_mem : Memory
thrown_mem = init_header demo 1000 500 0 blank

landing_pad_dispatch_example :
    let (exc, h', m') = find_match demo (600 ∷ 700 ∷ 0 ∷ []) in_flight thrown_mem in
    (exc ≡ 1000)
    × ((get_temp_ret0 h' ≡ (llvm_eh_typeid_for 700 h').0)
        ↔ (selected demo_rtti (hdr_type demo thrown_mem 1000) (600 ∷ 700 ∷ 0 ∷ []) ≡ some 700))
landing_pad_dispatch_example =
    landing_pad_dispatch demo demo_rtti demo_answers (600 ∷ 700 ∷ 0 ∷ []) 700 in_flight thrown_mem
      (record {
        next_lo = omega arith;
        ids_lo = λ t id e. cc;
        ids_hi = λ t id e. cc;
        ids_ne = λ s t id e. cc;
      })
      (omega arith)

-- the base class clause is the one selected
selected_base : selected demo_rtti (hdr_type demo thrown_mem 1000) (600 ∷ 700 ∷ 0 ∷ []) ≡ some 700
unfolding hdr_type init_header read_word write_word put_bytes
selected_base = refl

abbrev rec_a : ExcRecord
rec_a = record { exc = 1000; typ = 500 }

abbrev rec_b : ExcRecord
rec_b = record { exc = 2000; typ = 600 }

abbrev in_handler : Host
in_handler = record new_host { caught = rec_a ∷ [] }

nested_throw_example :
    let (_, h1, m1) = cxa_throw demo {A = ℕ} 2000 600 0 in_handler blank in
    let (h2, m2) = cxa_end_catch demo h1 m1 in
    let (o, h3, m3) = resume_exception demo {A = ℕ} 2000 h2 m2 in
    (o ≡ thrown rec_b) × (h3.caught ≡ []) × (h3.last ≡ rec_b)
nested_throw_example =
    nested_throw demo demo-Lawful rec_a rec_b [] 0 in_handler blank (omega arith) (omega arith)
      (inr (omega arith)) (omega arith) refl

rethrow_begin_catch_example :
    let (o, h1, m1) = cxa_rethrow demo {A = ℕ} in_handler blank in
    let (adj, h2, m2) = cxa_begin_catch demo 1000 h1 m1 in
    (o ≡ thrown rec_a)
    × (h1.uncaught ≡ 1)
    × (h2.caught ≡ record { exc = 1000; typ = hdr_type demo blank 1000 } ∷ rec_a ∷ [])
    × (h2.uncaught ≡ 0)
    × (hdr_rethrown demo m2 1000 ≡ false)
rethrow_begin_catch_example =
    rethrow_begin_catch demo demo-Lawful rec_a [] in_handler blank (omega arith) refl
      (unfold hdr_rethrown read_word in refl) (omega arith)

abbrev thrower : ℕ → Host → Memory → Outcome ℕ × Host × Memory
thrower args h m = cxa_throw demo 1000 500 0 h m

abbrev demo_table : ℕ → Option (ℕ → Host → Memory → Outcome ℕ × Host × Memory)
demo_table index = if index == 3 then some thrower else none

invoke_outcomes_example :
    ((invoke demo demo_table 0 3 7 new_host blank).0 ≢ thrown rec_a)
    × (((invoke demo demo_table 0 3 7 new_host blank).0 ≡ panicked)
        ↔ Fails demo demo_table 3 7 new_host blank)
invoke_outcomes_example = invoke_outcomes demo demo_table 0 3 7 new_host blank rec_a

throw_catch_cycle_example :
    let (o, h1, m1) = invoke demo demo_table 0 3 7 new_host blank in
    let (exc, h2, m2) = find_match demo (500 ∷ 0 ∷ []) h1 m1 in
    let (adj, h3, m3) = cxa_begin_catch demo exc h2 m2 in
    let (h4, m4) = cxa_end_catch demo h3 m3 in
    (o ≡ returned 0)
    × (exc ≡ 1000)
    × (h4.caught ≡ [])
    × (h4.uncaught ≡ 0)
    × (h4.last ≡ no_exception)
throw_catch_cycle_example =
    throw_catch_cycle demo demo-Lawful demo_table 0 3 thrower 7 1000 500 0 (0 ∷ []) new_host blank
      refl refl (omega arith) (omega arith) (omega arith)
