-- ===== src/Wasi/Listing.antt =====
-- `Xfd_readdir` of converge/wasishim/fs.go against the records written one behind the other.
mod Loop
pub mod Pages
use mathlib.Core.List.{append_assoc, append-nil}
use duckdb_wasm2go_poc.Base.{
  All, ℕ, zero, suc, ◌+◌, ◌-◌, ◌^◌, ◌<◌, ◌≤◌, ◌≡◌, ◌⊎◌, Bool, true, false, ◌&&◌, ◌||◌, not, List,
  [], ◌∷◌, ◌++◌, Option, some, none, ltb, leb, ◌==◌, if◌then◌else◌, Bytes, length, take, drop,
  arith, refl, ap, ◌∙◌, inl, inr, sym, Bool-cases, length-append, length-take, take_all,
  take_behind, take_cut,
}
use duckdb_wasm2go_poc.Exhost.Abi.{plus32, minus32}
use duckdb_wasm2go_poc.HostFs.Memory.{negative32, overwrite, less32}
use duckdb_wasm2go_poc.HostFs.Copy.{length-overwrite, overwrite_nothing, overwrite_twice}
use duckdb_wasm2go_poc.Wasi.State.{le_bytes, copy_range}
use duckdb_wasm2go_poc.Wasi.Readdir.{
  Vent, dirent_header, Emitted, positive32, emitted, copy_from, emit_cut, emit_name, emit, emit_all,
}

-- the whole records of the entries from an index on
unfoldable pub records : ℕ → List Vent → Bytes
records idx [] = []
records idx (v ∷ vs) = dirent_header idx v ++ (v.name ++ records (idx + 1) vs)

pub length-le_bytes : (n v : ℕ) → length (le_bytes n v) ≡ n
unfolding le_bytes
length-le_bytes zero v = refl
length-le_bytes (suc n) v = ap suc (length-le_bytes n _)

pub length-dirent_header : (idx : ℕ) (v : Vent) → length (dirent_header idx v) ≡ 24
unfolding dirent_header
length-dirent_header idx v =
    let last = le_bytes 1 v.filetype ++ le_bytes 3 0 in
    let name = le_bytes 4 (length v.name) in
    omega (
      arith,
      length-append (le_bytes 8 (idx + 1)) (le_bytes 8 v.ino ++ (name ++ last)),
      length-append (le_bytes 8 v.ino) (name ++ last),
      length-append name last,
      length-append (le_bytes 1 v.filetype) (le_bytes 3 0),
      length-le_bytes 8 (idx + 1),
      length-le_bytes 8 v.ino,
      length-le_bytes 4 (length v.name),
      length-le_bytes 1 v.filetype,
      length-le_bytes 3 0,
    )

pub take_nothing : (r : ℕ) → take {A = ℕ} r [] ≡ []
take_nothing zero = refl
take_nothing (suc r) = refl

-- A text that fits is moved in front of the cut.
pub cut_behind :
    (w x y : Bytes) (r k : ℕ) → length x + k ≡ r → w ++ take r (x ++ y) ≡ (w ++ x) ++ take k y
cut_behind w x y r k total =
    ap (λ (n : ℕ). w ++ take n (x ++ y)) (sym total)
    ∙ (ap (λ (t : Bytes). w ++ t) (take_behind x y k) ∙ sym (append_assoc w x (take k y)))

-- What is left behind `out` in the buffer.
abbrev pub wrote : ℕ → Bytes → Bytes → Bool → Option Emitted
wrote buf mem out goes_on =
    some (record { goes_on = goes_on; used = length out; mem = overwrite buf out mem })

module _ (buf buf_len : ℕ) (mem : Bytes) (room : buf + buf_len ≤ length mem)
    (small : length mem < 2 ^ 31) (short : buf_len + 24 < 2 ^ 31) where
  -- a copy of `k` bytes behind the text `w`
  copied_behind :
      (w bytes : Bytes) (k : ℕ)
      → length bytes ≡ k
      → length w + k ≤ buf_len
      → copy_range
          (plus32 buf (length w))
          (plus32 (plus32 buf (length w)) k)
          bytes
          (overwrite buf w mem)
        ≡ some (overwrite buf (w ++ bytes) mem)
  unfolding copy_range
  copied_behind w bytes k long h =
      let at : plus32 buf (length w) ≡ buf + length w = omega arith in
      let ok : (negative32 (plus32 buf (length w))
            || negative32 (plus32 (plus32 buf (length w)) k)
            || ltb (plus32 (plus32 buf (length w)) k) (plus32 buf (length w))
            || ltb (length (overwrite buf w mem)) (plus32 (plus32 buf (length w)) k))
          ≡ false =
        ground (arith, length-overwrite buf w mem) in
      rw ok (rw at (ap some (overwrite_twice buf w bytes mem)))

  -- `k` bytes of a text behind `w`, as `emit` copies them
  emitted_behind :
      (goes_on : Bool) (w text : Bytes) (k : ℕ)
      → k ≤ length text
      → length w + k ≤ buf_len
      → emitted goes_on (plus32 (length w) k) (
          copy_range
            (plus32 buf (length w))
            (plus32 (plus32 buf (length w)) k)
            (take k text)
            (overwrite buf w mem))
        ≡ wrote buf mem (w ++ take k text) goes_on
  emitted_behind goes_on w text k cut fits =
      let out : plus32 (length w) k ≡ length (w ++ take k text) =
        omega (arith, length-append w (take k text), length-take k text cut) in
      rw (copied_behind w (take k text) k (length-take k text cut) fits) (rw out refl)

  -- a header that does not fit
  emit_cut_lem :
      (w header : Bytes) (r : ℕ)
      → length w + r ≡ buf_len
      → r ≤ length header
      → emit_cut buf buf_len header (length w) (overwrite buf w mem)
        ≡ wrote buf mem (w ++ take r header) false
  unfolding emit_cut
  emit_cut_lem w header zero total cut =
      let left : minus32 buf_len (length w) ≡ 0 = omega arith in rw (left, append-nil w) refl
  emit_cut_lem w header (suc r) total cut =
      let left : minus32 buf_len (length w) ≡ suc r = omega arith in
      let some_left : positive32 (suc r) ≡ true = ground arith in
      rw left (rw some_left (emitted_behind false w header (suc r) cut (omega arith)))

  -- a name of which `r` bytes fit
  pub emit_name-cut :
      (w name : Bytes) (r : ℕ)
      → length w + r ≡ buf_len
      → r < length name
      → length name < 2 ^ 31
      → emit_name buf buf_len name (length w) (overwrite buf w mem)
        ≡ wrote buf mem (w ++ take r name) false
  unfolding emit_name
  emit_name-cut w name zero total cut long =
      let left : minus32 buf_len (length w) ≡ 0 = omega arith in rw (left, append-nil w) refl
  emit_name-cut w name (suc r) total cut long =
      let left : minus32 buf_len (length w) ≡ suc r = omega arith in
      let some_left : positive32 (suc r) ≡ true = ground arith in
      let less : less32 (suc r) (length name) ≡ true = ground arith in
      let part : (suc r == length name) ≡ false = ground arith in
      rw left (
        rw some_left
          (rw less (rw part (emitted_behind false w name (suc r) (omega arith) (omega arith)))))

  -- a name that fits; `emit` goes on unless the buffer was full before it
  pub emit_name-whole :
      (w name : Bytes) (r : ℕ)
      → length w + r ≡ buf_len
      → length name ≤ r
      → emit_name buf buf_len name (length w) (overwrite buf w mem)
        ≡ wrote buf mem (w ++ name) (not (r == 0))
  unfolding emit_name
  emit_name-whole w [] zero total fits =
      let left : minus32 buf_len (length w) ≡ 0 = omega arith in rw (left, append-nil w) refl
  emit_name-whole w (c ∷ cs) zero total fits = absurd (omega arith)
  emit_name-whole w name (suc r) total fits =
      let left : minus32 buf_len (length w) ≡ suc r = omega arith in
      let some_left : positive32 (suc r) ≡ true = ground arith in
      let more : less32 (suc r) (length name) ≡ false = ground arith in
      let same : (length name == length name) ≡ true = ground arith in
      let goes_on : not (suc r == 0) ≡ true = ground arith in
      let all : take (length name) name ≡ name = take_all (length name) name (omega arith) in
      rw left (
        rw some_left (
          rw more (
            rw same (
              rw goes_on (
                emitted_behind true w name (length name) (omega arith) (omega arith)
                ∙ ap (λ (t : Bytes). wrote buf mem (w ++ t) true) all)))))

  -- one record behind `w`, of which `r` bytes may be written: cut in its header, cut in its name, or whole
  pub emit-header_cut :
      (idx : ℕ) (v : Vent) (w : Bytes) (r : ℕ)
      → length w + r ≡ buf_len
      → r < 24
      → emit buf buf_len idx v (length w) (overwrite buf w mem)
        ≡ wrote buf mem (w ++ take r (dirent_header idx v)) false
  unfolding emit
  emit-header_cut idx v w r total cut =
      let full : less32 buf_len (plus32 (length w) 24) ≡ true = ground arith in
      rw full
        (emit_cut_lem w (dirent_header idx v) r total (omega (arith, length-dirent_header idx v)))

  pub emit-header_fits :
      (idx : ℕ) (v : Vent) (w : Bytes) (r : ℕ)
      → length w + (24 + r) ≡ buf_len
      → emit buf buf_len idx v (length w) (overwrite buf w mem)
        ≡ emit_name buf buf_len v.name
            (length (w ++ dirent_header idx v))
            (overwrite buf (w ++ dirent_header idx v) mem)
  unfolding emit copy_from
  emit-header_fits idx v w r total =
      let header = dirent_header idx v in
      let fits : less32 buf_len (plus32 (length w) 24) ≡ false = ground arith in
      let at : plus32 buf (length w) ≡ buf + length w = omega arith in
      let used : plus32 (length w) 24 ≡ length (w ++ header) =
        omega (arith, length-append w header, length-dirent_header idx v) in
      let ok : (negative32 (plus32 buf (length w))
            || ltb (length (overwrite buf w mem)) (plus32 buf (length w)))
          ≡ false =
        ground (arith, length-overwrite buf w mem) in
      rw fits (
        rw ok (
          rw used (
            rw at (
              ap (λ (m : Bytes). emit_name buf buf_len v.name (length (w ++ header)) m)
                (overwrite_twice buf w header mem)))))
