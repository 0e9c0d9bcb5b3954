-- ===== src/Duckdb/Values/Bignums.antt =====
-- The two signs of `bignumString`, converge/duckdb/exotic.go.
use duckdb_wasm2go_poc.Base.{
  ℕ, ◌<◌, ◌≤◌, ◌≡◌, true, false, [], ◌∷◌, ltb, Bytes, All, map, arith, refl, ap,
}
use duckdb_wasm2go_poc.Base.Int.{pos}
use duckdb_wasm2go_poc.Duckdb.Values.{complement, negated, int_text, big_endian, bignum_string}

complement_twice :
    (bytes : Bytes) → All (λ c. c < 256) bytes → map complement (map complement bytes) ≡ bytes
complement_twice [] h = refl
complement_twice (c ∷ cs) (hc, h) =
    rw (complement_twice cs h) (ap (λ (k : ℕ). k ∷ cs) (omega arith))

-- A blob whose first bit is set is the number of its big-endian data bytes, and the blob with every
-- byte complemented is that number negated.
pub bignum_string-complement :
    (c0 c1 c2 d : ℕ) (rest : Bytes)
    → 128 ≤ c0
    → All (λ c. c < 256) (d ∷ rest)
    → (bignum_string (c0 ∷ c1 ∷ c2 ∷ d ∷ rest) ≡ int_text (pos (big_endian 0 (d ∷ rest))))
      × (bignum_string (map complement (c0 ∷ c1 ∷ c2 ∷ d ∷ rest))
          ≡ int_text (negated true (big_endian 0 (d ∷ rest))))
unfolding bignum_string
bignum_string-complement c0 c1 c2 d rest high bytes =
    let plus : ltb c0 128 ≡ false = ground arith in
    let minus : ltb (complement c0) 128 ≡ true = ground arith in
    (
      rw plus refl,
      rw minus (
          ap (λ (t : Bytes). int_text (negated true (big_endian 0 t)))
            (complement_twice (d ∷ rest) bytes)),
    )
