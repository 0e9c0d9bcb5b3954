-- ===== src/HostFs/Memory.antt =====
-- Linear memory as converge/wasishim/hostfs.go reads and writes it: a Go slice of bytes. Int32
-- values are bit patterns, negative from 2 ^ 31. None stands for Go's panic on a bad slice.
use duckdb_wasm2go_poc.Base.{
  ℕ, ◌+◌, ◌-◌, ◌^◌, ◌%◌, Bool, not, ◌&&◌, ◌||◌, [], ◌∷◌, zero, suc, Option, none, some, ltb, leb,
  ◌==◌, if◌then◌else◌, Bytes, length, take, drop,
}
use duckdb_wasm2go_poc.Exhost.Abi.{plus32}

abbrev pub negative32 : ℕ → Bool
negative32 n = leb (2 ^ 31) n

-- `n <= 0` on an int64
abbrev pub not_positive64 : ℕ → Bool
not_positive64 n = n == 0 || leb (2 ^ 63) n

-- `mem[lo:hi]`
unfoldable pub slice_memory : Bytes → ℕ → ℕ → Option Bytes
slice_memory mem lo hi =
    if ltb hi lo || ltb (length mem) hi then none else some (take (hi - lo) (drop lo mem))

-- `hostString`
unfoldable pub host_string : Bytes → ℕ → ℕ → Option Bytes
unfolding slice_memory
host_string mem ptr n =
    let end = plus32 ptr n in
    let capped =
      if not (negative32 end) && ltb (length mem) end then length mem % 2 ^ 32 else end in
    if ptr == 0 || n == 0 || negative32 n
    then some []
    else if negative32 ptr || negative32 capped
    then none
    else slice_memory mem ptr capped

unfoldable pub paste : Bytes → Bytes → Bytes
paste [] mem = mem
paste (b ∷ bs) [] = []
paste (b ∷ bs) (c ∷ cs) = b ∷ paste bs cs

-- `copy(mem[at:], bytes)`: what does not fit is left out
unfoldable pub overwrite : ℕ → Bytes → Bytes → Bytes
unfolding paste
overwrite zero bytes mem = paste bytes mem
overwrite (suc at) bytes [] = []
overwrite (suc at) bytes (c ∷ cs) = c ∷ overwrite at bytes cs

-- `a < b` on int32
abbrev pub less32 : ℕ → ℕ → Bool
less32 a b = ltb ((a + 2 ^ 31) % 2 ^ 32) ((b + 2 ^ 31) % 2 ^ 32)
