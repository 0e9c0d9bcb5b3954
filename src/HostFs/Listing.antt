-- ===== src/HostFs/Listing.antt =====
-- `Xhost_listdir` of converge/wasishim/hostfs.go against the text of a listing.
use mathlib.Core.List.{append_assoc, append-nil}
use duckdb_wasm2go_poc.Base.{
  All, ℕ, ◌+◌, ◌^◌, ◌<◌, ◌≤◌, ◌≡◌, ◌⊎◌, Bool, true, false, ◌&&◌, ◌||◌, not, List, [], ◌∷◌, ◌++◌,
  Option, some, ltb, leb, Bytes, length, arith, refl, ap, ◌∙◌, inl, inr, Bool-cases, length-append,
}
use duckdb_wasm2go_poc.Base.Int.{ℤ, pos}
use duckdb_wasm2go_poc.Exhost.Abi.{plus32}
use duckdb_wasm2go_poc.HostFs.Os.{minus, erange}
use duckdb_wasm2go_poc.HostFs.Memory.{negative32, overwrite, less32}
use duckdb_wasm2go_poc.HostFs.Paths.{entry_text, list_entries}
use duckdb_wasm2go_poc.HostFs.Copy.{length-overwrite, overwrite_nothing, overwrite_twice}

-- one line for each entry
unfoldable pub listing : List (Bytes × Bool) → Bytes
listing [] = []
listing (e ∷ rest) = entry_text e ++ (b'\n' ∷ listing rest)

-- The reply to a listing that fits, and to one that does not.
abbrev pub Listed : ℕ → ℕ → Bytes → Bytes → Option (ℤ × Bytes) → Type 0
Listed out outcap text mem reply =
    ((length text ≤ outcap) × (reply ≡ some (pos (length text), overwrite out text mem)))
    ⊎ ((outcap < length text) × ((mem' : Bytes) × (reply ≡ some (minus erange, mem'))))

module _ (out outcap : ℕ) (mem : Bytes) (room : out + outcap ≤ length mem)
    (small : length mem < 2 ^ 31) (short : outcap < 2 ^ 30) where
  copied_line :
      (written text : Bytes)
      → length written + length text + 1 ≤ outcap
      → overwrite
          (plus32 (plus32 out (length written)) (length text))
          (b'\n' ∷ [])
          (overwrite (plus32 out (length written)) text (overwrite out written mem))
        ≡ overwrite out (written ++ (text ++ (b'\n' ∷ []))) mem
  copied_line written text fits =
      let index : plus32 (plus32 out (length written)) (length text)
          ≡ out + length (written ++ text) =
        omega (arith, length-append written text) in
      let at : plus32 out (length written) ≡ out + length written = omega arith in
      rw index (
        rw at (
          rw (overwrite_twice out written text mem) (
            overwrite_twice out (written ++ text) (b'\n' ∷ []) mem
            ∙ ap (λ (t : Bytes). overwrite out t mem) (append_assoc written text (b'\n' ∷ [])))))

  -- one entry that fits behind the text `written`
  list_step :
      (e : Bytes × Bool) (rest : List (Bytes × Bool)) (written : Bytes)
      → length written + length (entry_text e) + 1 ≤ outcap
      → list_entries (e ∷ rest) out outcap (length written) (overwrite out written mem)
        ≡ list_entries rest out outcap
            (length (written ++ (entry_text e ++ (b'\n' ∷ []))))
            (overwrite out (written ++ (entry_text e ++ (b'\n' ∷ []))) mem)
  unfolding list_entries
  list_step e rest written fits =
      let text = entry_text e in
      let all = length (written ++ (text ++ (b'\n' ∷ []))) in
      let long : all ≡ length written + length text + 1 =
        omega
          (arith, length-append written (text ++ (b'\n' ∷ [])), length-append text (b'\n' ∷ [])) in
      let a1 : (less32 outcap (plus32 (length written) (plus32 (length text) 1))
            || (not (negative32 (plus32 (plus32 out (length written)) (plus32 (length text) 1)))
                && ltb (length (overwrite out written mem))
                    (plus32 (plus32 out (length written)) (plus32 (length text) 1))))
          ≡ false =
        ground (arith, length-overwrite out written mem) in
      let a2 : (negative32 (plus32 out (length written))
            || ltb (length (overwrite out written mem)) (plus32 out (length written)))
          ≡ false =
        ground (arith, length-overwrite out written mem) in
      let a3 : (negative32 (plus32 (plus32 out (length written)) (length text))
            || leb (length (overwrite out written mem))
                (plus32 (plus32 out (length written)) (length text)))
          ≡ false =
        ground (arith, length-overwrite out written mem) in
      rw a1 (
        rw a2 (
          rw a3 (
            rw (copied_line written text fits) (
              ap
                (λ (k : ℕ).
                  list_entries rest out outcap k
                    (overwrite out (written ++ (text ++ (b'\n' ∷ []))) mem))
                (omega arith)))))

  list_full :
      (e : Bytes × Bool) (rest : List (Bytes × Bool)) (written mem' : Bytes)
      → length written ≤ outcap
      → length (entry_text e) < 2 ^ 30
      → outcap < length written + length (entry_text e) + 1
      → list_entries (e ∷ rest) out outcap (length written) mem' ≡ some (minus erange, mem')
  unfolding list_entries
  list_full e rest written mem' h ht full =
      let over : less32 outcap (plus32 (length written) (plus32 (length (entry_text e)) 1)) ≡ true =
        ground arith in
      rw over refl

  -- The loop behind the text `written`.
  list_from :
      (ents : List (Bytes × Bool)) (written : Bytes)
      → length written ≤ outcap
      → All (λ e. length (entry_text e) < 2 ^ 30) ents
      → Listed out outcap
          (written ++ listing ents)
          mem
          (list_entries ents out outcap (length written) (overwrite out written mem))
  unfolding listing
  list_from [] written h names =
      let plus : negative32 (length written) ≡ false = ground arith in
      rw (append-nil written) (inl (h, unfold list_entries in rw plus refl))
  list_from (e ∷ rest) written h (name, names) =
      let text = entry_text e in
      let line = text ++ (b'\n' ∷ []) in
      let whole : (written ++ line) ++ listing rest ≡ written ++ (text ++ (b'\n' ∷ listing rest)) =
        append_assoc written line (listing rest)
        ∙ ap (λ (t : Bytes). written ++ t) (append_assoc text (b'\n' ∷ []) (listing rest)) in
      elim (Bool-cases (leb (length written + length text + 1) outcap)) [
        | inl fits ↦
            let fit : length written + length text + 1 ≤ outcap = ground arith in
            rw (list_step e rest written fit) (
              rw (← whole) (
                list_from rest (written ++ line)
                  (omega (arith, length-append written line, length-append text (b'\n' ∷ [])))
                  names))
        | inr full ↦
            let over : outcap < length written + length text + 1 = ground arith in
            inr (
              omega (
                arith,
                length-append written (text ++ (b'\n' ∷ listing rest)),
                length-append text (b'\n' ∷ listing rest),
              ),
              (
                overwrite out written mem,
                list_full e rest written (overwrite out written mem) h name over,
              ),
            )
      ]

  -- Into a buffer that lies in memory, a listing is written whole, and its length returned, exactly
  -- when it fits; else the reply is -ERANGE. Names and buffer are shorter than 2 ^ 30 bytes.
  pub list_entries-listing :
      (ents : List (Bytes × Bool))
      → All (λ e. length (entry_text e) < 2 ^ 30) ents
      → Listed out outcap (listing ents) mem (list_entries ents out outcap 0 mem)
  list_entries-listing ents names =
      rw (overwrite_nothing out mem) at (list_from ents [] (omega arith) names)
