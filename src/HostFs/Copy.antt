-- ===== src/HostFs/Copy.antt =====
-- Copies into linear memory: what they change, and two in a row.
use duckdb_wasm2go_poc.Base.{
  ℕ, zero, suc, ◌+◌, ◌≤◌, ◌≡◌, [], ◌∷◌, ◌++◌, Bytes, length, take, drop, arith, refl, ap,
}
use duckdb_wasm2go_poc.HostFs.Memory.{paste, overwrite}

suc_plus : (a b : ℕ) → suc a + b ≡ suc (a + b)
suc_plus a b = omega arith

length-paste : (bs mem : Bytes) → length (paste bs mem) ≡ length mem
unfolding paste
length-paste [] mem = refl
length-paste (b ∷ bs) [] = refl
length-paste (b ∷ bs) (c ∷ cs) = ap suc (length-paste bs cs)

pub length-overwrite : (at : ℕ) (bs mem : Bytes) → length (overwrite at bs mem) ≡ length mem
unfolding overwrite
length-overwrite zero bs mem = length-paste bs mem
length-overwrite (suc at) bs [] = refl
length-overwrite (suc at) bs (c ∷ cs) = ap suc (length-overwrite at bs cs)

pub take-overwrite : (at : ℕ) (bs mem : Bytes) → take at (overwrite at bs mem) ≡ take at mem
unfolding overwrite
take-overwrite zero bs mem = refl
take-overwrite (suc at) bs [] = refl
take-overwrite (suc at) bs (c ∷ cs) = ap (◌∷◌ c) (take-overwrite at bs cs)

drop-paste : (bs mem : Bytes) → drop (length bs) (paste bs mem) ≡ drop (length bs) mem
unfolding paste
drop-paste [] mem = refl
drop-paste (b ∷ bs) [] = refl
drop-paste (b ∷ bs) (c ∷ cs) = drop-paste bs cs

pub drop-overwrite :
    (at : ℕ) (bs mem : Bytes)
    → drop (at + length bs) (overwrite at bs mem) ≡ drop (at + length bs) mem
unfolding overwrite
drop-overwrite zero bs mem =
    let z : 0 + length bs ≡ length bs = omega arith in rw z (drop-paste bs mem)
drop-overwrite (suc at) bs [] = refl
drop-overwrite (suc at) bs (c ∷ cs) = rw (suc_plus at (length bs)) (drop-overwrite at bs cs)

take-paste : (bs mem : Bytes) → length bs ≤ length mem → take (length bs) (paste bs mem) ≡ bs
unfolding paste
take-paste [] mem h = refl
take-paste (b ∷ bs) [] h = absurd (omega arith)
take-paste (b ∷ bs) (c ∷ cs) h = ap (◌∷◌ b) (take-paste bs cs (omega arith))

pub copied-overwrite :
    (at : ℕ) (bs mem : Bytes)
    → at + length bs ≤ length mem
    → take (length bs) (drop at (overwrite at bs mem)) ≡ bs
unfolding overwrite
copied-overwrite zero bs mem h = take-paste bs mem (omega arith)
copied-overwrite (suc at) bs [] h = absurd (omega arith)
copied-overwrite (suc at) bs (c ∷ cs) h = copied-overwrite at bs cs (omega arith)

paste-overwrite :
    (xs ys mem : Bytes) → overwrite (length xs) ys (paste xs mem) ≡ paste (xs ++ ys) mem
unfolding overwrite paste
paste-overwrite [] ys mem = refl
paste-overwrite (a ∷ xs) ys [] = refl
paste-overwrite (a ∷ xs) ys (c ∷ cs) = ap (◌∷◌ a) (paste-overwrite xs ys cs)

-- A copy behind another is one copy.
pub overwrite_twice :
    (at : ℕ) (xs ys mem : Bytes)
    → overwrite (at + length xs) ys (overwrite at xs mem) ≡ overwrite at (xs ++ ys) mem
unfolding overwrite
overwrite_twice zero xs ys mem =
    let z : 0 + length xs ≡ length xs = omega arith in rw z (paste-overwrite xs ys mem)
overwrite_twice (suc at) xs ys [] = rw (suc_plus at (length xs)) refl
overwrite_twice (suc at) xs ys (c ∷ cs) =
    rw (suc_plus at (length xs)) (ap (◌∷◌ c) (overwrite_twice at xs ys cs))

pub overwrite_nothing : (at : ℕ) (mem : Bytes) → overwrite at [] mem ≡ mem
unfolding overwrite paste
overwrite_nothing zero mem = refl
overwrite_nothing (suc at) [] = refl
overwrite_nothing (suc at) (c ∷ cs) = ap (◌∷◌ c) (overwrite_nothing at cs)
