-- ===== src/Wasi/Listing/Pages.antt =====
-- `Xfd_readdir` of converge/wasishim/fs.go: a page of the records of a directory.
use duckdb_wasm2go_poc.Base.{
  All, ℕ, ◌+◌, ◌^◌, ◌<◌, ◌≤◌, ◌≡◌, ◌⊎◌, true, false, ◌||◌, List, [], Option, some, none, ltb, leb,
  ◌==◌, Bytes, length, take, drop, arith, refl, ap, ◌∙◌, inl, inr, sym, Option-cases,
}
use duckdb_wasm2go_poc.HostFs.Memory.{negative32, overwrite}
use duckdb_wasm2go_poc.HostFs.Copy.{length-overwrite, overwrite_nothing}
use duckdb_wasm2go_poc.Wasi.State.{le_bytes}
use duckdb_wasm2go_poc.Wasi.Readdir.{emit_all}
use duckdb_wasm2go_poc.Base.{insert}
use duckdb_wasm2go_poc.HostFs.Os.{GoError}
use duckdb_wasm2go_poc.Wasi.Os.{WasiOs, DirEntry, PathOs, InfoOs, PathText}
use duckdb_wasm2go_poc.Wasi.State.{
  Fs, FdEntry, Shim, Reply, Errnos, entry_of, put_le, with_entries, wasi_success,
}
use duckdb_wasm2go_poc.Wasi.Resolve.{ensured}
use duckdb_wasm2go_poc.Wasi.Readdir.{virtual, load, list_from_cookie, fd_readdir}
use duckdb_wasm2go_poc.Wasi.Listing.{records}
use duckdb_wasm2go_poc.Wasi.Listing.Loop.{emit_all_behind}

-- memory with a page at `buf` and its length at `ptr`
unfoldable pub listed_memory : ℕ → ℕ → Bytes → Bytes → Bytes
listed_memory buf ptr out mem = overwrite ptr (le_bytes 4 (length out)) (overwrite buf out mem)

module _ (os : WasiOs) (nums : Errnos) (text : PathText) (p : PathOs os) (info : InfoOs os) where
  open os use {World}

  -- the entries that a call lists: those of an earlier call, or else those that the directory has now
  unfoldable pub listed_entries : FdEntry → World → GoError ⊎ List DirEntry
  listed_entries e w = elim e.dir_entries [ some ents ↦ inr ents | none ↦ p.read_dir e.host_path w ]

  -- the part of the listing that a call writes
  abbrev pub page : ℕ → ℕ → Bytes → List DirEntry → World → Bytes
  page buf_len cookie host_path ents w =
      take buf_len (records cookie (drop cookie (virtual os nums text p info host_path ents w)))

  entry_of-with_entries :
      (fd : ℕ) (e : FdEntry) (fs : Fs) → entry_of fd (with_entries (insert fd e) fs) ≡ some e
  unfolding entry_of with_entries
  entry_of-with_entries fd e fs = let here : (fd == fd) ≡ true = ground arith in rw here refl

  load-unread :
      (fd : ℕ) (e : FdEntry) (ents : List DirEntry)
      (use_it : List DirEntry → Shim World → Reply World) (s : Shim World)
      → e.dir_entries ≡ none
      → Path (GoError ⊎ List DirEntry) (p.read_dir e.host_path s.world) (inr ents)
      → load os nums text p info fd e use_it s
        ≡ use_it ents
            (record s { fs = with_entries (insert fd (record e { dir_entries = some ents })) s.fs })
  load-unread fd e ents use_it s unread now = rw (unread, load) (rw (now, load) refl)

  load-cached :
      (fd : ℕ) (e : FdEntry) (ents : List DirEntry)
      (use_it : List DirEntry → Shim World → Reply World) (s : Shim World)
      → e.dir_entries ≡ some ents
      → load os nums text p info fd e use_it s ≡ use_it ents s
  load-cached fd e ents use_it s cached = rw (cached, load) refl

  fd_readdir-load :
      (fd buf buf_len cookie ptr : ℕ) (e : FdEntry) (s : Shim World)
      → entry_of fd (ensured s).fs ≡ some e
      → e.is_dir ≡ true
      → fd_readdir os nums text p info fd buf buf_len cookie ptr s
        ≡ load os nums text p info fd e
            (list_from_cookie os nums text p info buf buf_len cookie ptr e.host_path)
            (ensured s)
  unfolding fd_readdir
  fd_readdir-load fd buf buf_len cookie ptr e s at dir =
      rw (at, fd_readdir) (rw (dir, fd_readdir) refl)

  entries_of : {a b : List DirEntry} → Path (GoError ⊎ List DirEntry) (inr a) (inr b) → a ≡ b
  entries_of h = cc

  module _ (fd buf buf_len cookie ptr : ℕ) (e : FdEntry) (ents : List DirEntry) (s : Shim World)
      (room : buf + buf_len ≤ length s.mem) (small : length s.mem < 2 ^ 31)
      (short : buf_len + 24 < 2 ^ 31) (index : cookie < 2 ^ 63) (place : 0 < ptr)
      (fits : ptr + 4 ≤ length s.mem)
      (names : All
        (λ v. length v.name < 2 ^ 31)
        (drop cookie (virtual os nums text p info e.host_path ents s.world))) where
    list_from_cookie_lem :
        (fs' : Fs)
        → list_from_cookie os nums text p info buf buf_len cookie ptr e.host_path ents
            (record s { fs = fs' })
          ≡ some (
            wasi_success,
            record s {
              fs = fs';
              mem = listed_memory buf ptr (page buf_len cookie e.host_path ents s.world) s.mem;
            },
          )
    unfolding list_from_cookie listed_memory put_le
    list_from_cookie_lem fs' =
        let vents = drop cookie (virtual os nums text p info e.host_path ents s.world) in
        let out = page buf_len cookie e.host_path ents s.world in
        let inside : leb (2 ^ 63) cookie ≡ false = ground arith in
        let loop : emit_all buf buf_len cookie vents 0 s.mem
            ≡ some (length out, overwrite buf out s.mem) =
          ap (emit_all buf buf_len cookie vents 0) (sym (overwrite_nothing buf s.mem))
          ∙ emit_all_behind buf buf_len s.mem room small short vents cookie [] buf_len (omega arith)
              names in
        let there : (ptr == 0) ≡ false = ground arith in
        let ok : (negative32 ptr || ltb (length (overwrite buf out s.mem)) (ptr + 4)) ≡ false =
          ground (arith, length-overwrite buf out s.mem) in
        rw inside (rw loop (rw there (rw ok refl)))

    -- Over a directory whose entries are known, `Xfd_readdir` writes the bytes of its records from the
    -- cookie on, as many as the buffer holds, and their number; it keeps the entries for later calls.
    pub fd_readdir-records :
        entry_of fd (ensured s).fs ≡ some e
        → e.is_dir ≡ true
        → listed_entries e s.world ≡ inr ents
        → (fs' : Fs) × (fd_readdir os nums text p info fd buf buf_len cookie ptr s
            ≡ some (
              wasi_success,
              record s {
                fs = fs';
                mem = listed_memory buf ptr (page buf_len cookie e.host_path ents s.world) s.mem;
              },
            ))
          × (entry_of fd fs' ≡ some (record e { dir_entries = some ents }))
    fd_readdir-records at dir known =
        let use_it : List DirEntry → Shim World → Reply World =
          list_from_cookie os nums text p info buf buf_len cookie ptr e.host_path in
        elim (Option-cases e.dir_entries) [
          | inr (ents', cached) ↦
              let same : ents' ≡ ents =
                entries_of (unfold listed_entries in (rw cached at known)) in
              let e' : record e { dir_entries = some ents } ≡ e =
                ap (λ (d : Option (List DirEntry)). record e { dir_entries = d })
                  (sym (cached ∙ ap some same)) in
              (
                (ensured s).fs,
                fd_readdir-load fd buf buf_len cookie ptr e s at dir
                    ∙ (load-cached fd e ents use_it (ensured s) (cached ∙ ap some same)
                        ∙ list_from_cookie_lem (ensured s).fs),
                at ∙ ap some (sym e'),
              )
          | inl unread ↦
              let now : Path (GoError ⊎ List DirEntry) (p.read_dir e.host_path s.world) (inr ents) =
                unfold listed_entries in (rw unread at known) in
              let e' : FdEntry = record e { dir_entries = some ents } in
              let kept : Fs = with_entries (insert fd e') (ensured s).fs in
              (
                kept,
                fd_readdir-load fd buf buf_len cookie ptr e s at dir
                    ∙ (load-unread fd e ents use_it (ensured s) unread now
                        ∙ list_from_cookie_lem kept),
                entry_of-with_entries fd e' (ensured s).fs,
              )
        ]
