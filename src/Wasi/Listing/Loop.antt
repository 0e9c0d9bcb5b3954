-- ===== src/Wasi/Listing/Loop.antt =====
-- The loop of `Xfd_readdir` in converge/wasishim/fs.go against the records of the entries.
use mathlib.Core.List.{append-nil}
use duckdb_wasm2go_poc.Base.{
  All, ℕ, ◌+◌, ◌-◌, ◌^◌, ◌<◌, ◌≤◌, ◌≡◌, ◌⊎◌, true, false, not, List, [], ◌∷◌, ◌++◌, Option, some,
  ltb, ◌==◌, Bytes, length, take, arith, refl, ap, ◌∙◌, inl, inr, sym, Bool-cases, length-append,
  take_cut,
}
use duckdb_wasm2go_poc.HostFs.Memory.{overwrite}
use duckdb_wasm2go_poc.Wasi.Readdir.{Vent, dirent_header, Emitted, emit_name, emit, emit_all}
use mathlib.Core.Path.{subst}
use duckdb_wasm2go_poc.Wasi.Listing.{
  records, wrote, take_nothing, cut_behind, length-dirent_header, emit_name-cut, emit_name-whole,
  emit-header_cut, emit-header_fits,
}

module _ (buf buf_len : ℕ) (mem : Bytes) (room : buf + buf_len ≤ length mem)
    (small : length mem < 2 ^ 31) (short : buf_len + 24 < 2 ^ 31) where
  -- What `emit` does at a record, followed by `more`: it fills the buffer, or writes the whole record.
  abbrev Stepped : ℕ → Bytes → Bytes → Bytes → Bytes → Option Emitted → Type 0
  Stepped r w header name more result =
      (result ≡ wrote buf mem (w ++ take r (header ++ (name ++ more))) false)
      ⊎ ((k : ℕ) × (length ((w ++ header) ++ name) + k ≡ buf_len)
          × (result ≡ wrote buf mem ((w ++ header) ++ name) true)
          × (w ++ take r (header ++ (name ++ more)) ≡ ((w ++ header) ++ name) ++ take k more))

  emit_name-Stepped :
      (w header name more : Bytes) (r : ℕ)
      → length (w ++ header) + r ≡ buf_len
      → length name < 2 ^ 31
      → Stepped
          (length header + r)
          w
          header
          name
          more
          (emit_name buf buf_len name (length (w ++ header)) (overwrite buf (w ++ header) mem))
  emit_name-Stepped w header name more r total short_name =
      let w' = w ++ header in
      let header_front : w ++ take (length header + r) (header ++ (name ++ more))
          ≡ w' ++ take r (name ++ more) =
        cut_behind w header (name ++ more) (length header + r) r refl in
      elim (Bool-cases (ltb r (length name))) [
        | inl cut ↦ inl (
            emit_name-cut buf buf_len mem room small short w' name r total (ground arith) short_name
            ∙ ap (λ (t : Bytes). wrote buf mem t false)
                (ap (λ (t : Bytes). w' ++ t) (sym (take_cut r name more (ground arith)))
                  ∙ sym header_front))
        | inr fits ↦
            let front : w' ++ take r (name ++ more) ≡ (w' ++ name) ++ take (r - length name) more =
              cut_behind w' name more r (r - length name) (ground arith) in
            let left : length (w' ++ name) + (r - length name) ≡ buf_len =
              ground (arith, length-append w' name) in
            let now =
              emit_name-whole buf buf_len mem room small short w' name r total (ground arith) in
            elim (Bool-cases (r == 0)) [
              | inl full ↦
                  let none_left : r - length name ≡ 0 = ground arith in
                  inl (
                    now
                    ∙ (ap (wrote buf mem (w' ++ name)) (ap not full)
                        ∙ ap (λ (t : Bytes). wrote buf mem t false)
                            (sym (
                              header_front
                              ∙ (front
                                  ∙ (ap (λ (k : ℕ). (w' ++ name) ++ take k more) none_left
                                      ∙ append-nil (w' ++ name)))))))
              | inr room_left ↦ inr (
                r - length name,
                left,
                now ∙ ap (wrote buf mem (w' ++ name)) (ap not room_left),
                header_front ∙ front,
              )
            ]
      ]

  emit-Stepped :
      (idx : ℕ) (v : Vent) (more w : Bytes) (r : ℕ)
      → length w + r ≡ buf_len
      → length v.name < 2 ^ 31
      → Stepped r w
          (dirent_header idx v)
          v.name
          more
          (emit buf buf_len idx v (length w) (overwrite buf w mem))
  emit-Stepped idx v more w r total short_name = elim (Bool-cases (ltb r 24)) [
    | inl cut ↦
        let header = dirent_header idx v in
        let part : take r (header ++ (v.name ++ more)) ≡ take r header =
          take_cut r header _ (ground (arith, length-dirent_header idx v)) in
        inl (
          emit-header_cut buf buf_len mem room small short idx v w r total (ground arith)
          ∙ ap (λ (t : Bytes). wrote buf mem (w ++ t) false) (sym part))
    | inr fits ↦
        let header = dirent_header idx v in
        let total' : length w + (24 + (r - 24)) ≡ buf_len = ground arith in
        let left : length (w ++ header) + (r - 24) ≡ buf_len =
          ground (arith, length-append w header, length-dirent_header idx v) in
        let whole : length header + (r - 24) ≡ r = ground (arith, length-dirent_header idx v) in
        rw (emit-header_fits buf buf_len mem room small short idx v w (r - 24) total') (
          subst
            (λ (n : ℕ). Stepped n w header v.name more (
              emit_name buf buf_len v.name (length (w ++ header))
                (overwrite buf (w ++ header) mem)))
            whole (emit_name-Stepped w header v.name more (r - 24) left short_name))
  ]

  -- What the loop leaves behind `out`.
  abbrev left_at : Bytes → Option (ℕ × Bytes)
  left_at out = some (length out, overwrite buf out mem)

  -- the loop behind the text `w`, with room for `r` bytes
  pub emit_all_behind :
      (vs : List Vent) (idx : ℕ) (w : Bytes) (r : ℕ)
      → length w + r ≡ buf_len
      → All (λ v. length v.name < 2 ^ 31) vs
      → emit_all buf buf_len idx vs (length w) (overwrite buf w mem)
        ≡ left_at (w ++ take r (records idx vs))
  unfolding emit_all records
  emit_all_behind [] idx w r total names = rw (take_nothing r) (rw (append-nil w) refl)
  emit_all_behind (v ∷ vs) idx w r total (name, names) =
      elim (emit-Stepped idx v (records (idx + 1) vs) w r total name) [
        | inl filled ↦ rw (filled, emit_all) refl
        | inr (k, left, whole, text) ↦
            rw (whole, emit_all)
              (rw text
                (emit_all_behind vs (idx + 1) ((w ++ dirent_header idx v) ++ v.name) k left names))
      ]
