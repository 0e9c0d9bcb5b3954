-- ===== src/HostFs/OpenFiles.antt =====
-- The open files of converge/wasishim/hostfs.go: what every open and close keeps.
use Prim.Native.String.{String}
use duckdb_wasm2go_poc.Base.{
  ℕ, ◌+◌, ◌^◌, ◌<◌, ◌≡◌, ◌≢◌, ◌⊎◌, Bool, true, false, Option, none, some, ◌==◌, if◌then◌else◌,
  Bytes, IntMap, remove, arith, refl, sym, ◌∙◌, inl, inr, Bool-cases, Option-cases,
}
use duckdb_wasm2go_poc.Locks.{Registry, host_lock_file}
use duckdb_wasm2go_poc.HostFs.Os.{Os, GoError, minus, ebadf, errno_of}
use duckdb_wasm2go_poc.HostFs.State.{
  Handles, files, host_lookup, next_fd, host_alloc_fd, remove_fd, forget,
}
use duckdb_wasm2go_poc.HostFs.Open.{
  flag, wants_lock, give_fd, lock_file, opened, open_result, open_path, host_close, open_flags,
  permissions, is_empty_path,
}
use duckdb_wasm2go_poc.HostFs.LockPaths.{unregister_paths, lock_file_paths}

-- Descriptors are positive and below the next one, no two name one file, and a file of this engine
-- that holds a lock is open: `ours` tells its files from those of other engines, which share the
-- registry.
pub record HandlesOk (ours : ℕ → Bool) (h : Handles) : Type 0 where
  pub next_lo : 0 < next_fd h.host_fds h.host_next_fd
  pub fds_lo : (fd f : ℕ) → host_lookup fd h ≡ some f → 0 < fd
  pub fds_hi : (fd f : ℕ) → host_lookup fd h ≡ some f → fd < next_fd h.host_fds h.host_next_fd
  pub apart : (a b f : ℕ) → host_lookup a h ≡ some f → host_lookup b h ≡ some f → a ≡ b
  pub locked_open :
      (f : ℕ) (k : String)
      → ours f ≡ true
      → h.locks.path f ≡ some k
      → (fd : ℕ) × (host_lookup fd h ≡ some f)

-- A file of this engine that is not open: the operating system gives a new handle to each open.
abbrev pub Fresh : (ℕ → Bool) → ℕ → Handles → Type 0
Fresh ours f h = (ours f ≡ true) × ((fd : ℕ) → host_lookup fd h ≢ some f)

module _ (ours : ℕ → Bool) (f : ℕ) (h : Handles) (locks' : Registry) (ok : HandlesOk ours h) where
  -- A new descriptor for a file that is not open, which may have been locked.
  alloc-HandlesOk :
      Fresh ours f h
      → next_fd h.host_fds h.host_next_fd + 1 < 2 ^ 32
      → ((j : ℕ) (k : String) → locks'.path j ≡ some k → (j ≡ f) ⊎ (h.locks.path j ≡ some k))
      → HandlesOk ours (host_alloc_fd f (record h { locks = locks' })).1
  unfolding host_alloc_fd host_lookup
  alloc-HandlesOk fresh room holds = record {
    next_lo = ground (arith, ok.next_lo);
    fds_lo = λ fd g e. ground (arith, ok.next_lo, ok.fds_lo fd g);
    fds_hi = λ fd g e. ground (arith, ok.fds_hi fd g);
    apart = λ a b g ea eb. ground (arith, ok.apart a b g, fresh.1 a, fresh.1 b);
    locked_open = λ j k o e. elim (holds j k e) [
      | inl same ↦ (next_fd h.host_fds h.host_next_fd, ground arith)
      | inr old ↦
          let (fd, open_fd) = ok.locked_open j k o old in
          (fd, ground (arith, ok.fds_hi fd j open_fd))
    ];
  }

  -- The descriptors stay, and no file of this engine more is locked.
  pub locks-HandlesOk :
      ((j : ℕ) → ours j ≡ true → locks'.path j ≡ h.locks.path j)
      → HandlesOk ours (record h { locks = locks' })
  unfolding host_lookup
  locks-HandlesOk same = record {
    next_lo = ok.next_lo;
    fds_lo = ok.fds_lo;
    fds_hi = ok.fds_hi;
    apart = ok.apart;
    locked_open = λ j k o e. ok.locked_open j k o (sym (same j o) ∙ e);
  }

files-remove_fd :
    (fd j : ℕ) (m : Option (IntMap ℕ)) → files (remove_fd fd m) j ≡ remove fd (files m) j
files-remove_fd fd j none = ground arith
files-remove_fd fd j (some m) = refl

next_fd-remove_fd : (fd n : ℕ) (m : Option (IntMap ℕ)) → next_fd (remove_fd fd m) n ≡ next_fd m n
next_fd-remove_fd fd n none = refl
next_fd-remove_fd fd n (some m) = refl

-- The descriptors after a close.
lookup-forget :
    (j fd f : ℕ) (h : Handles)
    → host_lookup j (forget fd f h) ≡ (if j == fd then none else host_lookup j h)
unfolding host_lookup forget
lookup-forget j fd f h = files-remove_fd fd j h.host_fds

kept-forget :
    (j fd f g : ℕ) (h : Handles)
    → host_lookup j (forget fd f h) ≡ some g
    → (host_lookup j h ≡ some g) × (j ≢ fd)
kept-forget j fd f g h e = ground (arith, lookup-forget j fd f h)

unlocked-forget :
    (fd f j : ℕ) (k : String) (h : Handles)
    → (forget fd f h).locks.path j ≡ some k
    → (h.locks.path j ≡ some k) × (j ≢ f)
unfolding forget
unlocked-forget fd f j k h e = ground (arith, unregister_paths f h.locks j)

-- Closing a descriptor of a file.
forget-HandlesOk :
    (ours : ℕ → Bool) (fd f : ℕ) (h : Handles)
    → HandlesOk ours h
    → host_lookup fd h ≡ some f
    → HandlesOk ours (forget fd f h)
forget-HandlesOk ours fd f h ok open_fd =
    let next : next_fd (forget fd f h).host_fds (forget fd f h).host_next_fd
        ≡ next_fd h.host_fds h.host_next_fd =
      unfold forget in next_fd-remove_fd fd h.host_next_fd h.host_fds in
    record {
      next_lo = rw next ok.next_lo;
      fds_lo = λ j g e. ok.fds_lo j g (kept-forget j fd f g h e).0;
      fds_hi = λ j g e. rw next (ok.fds_hi j g (kept-forget j fd f g h e).0);
      apart =
          λ a b g ea eb. ok.apart a b g (kept-forget a fd f g h ea).0 (kept-forget b fd f g h eb).0;
      locked_open = λ j k o e.
          let (held, other) = unlocked-forget fd f j k h e in
          let (d, open_d) = ok.locked_open j k o held in
          (d, ground (arith, lookup-forget d fd f h));
    }

module _ (ours : ℕ → Bool) (os : Os) where
  -- Every close keeps the descriptors in order, and no closed file is left with a lock.
  pub host_close-HandlesOk :
      (fd : ℕ) (h : Handles) (w : os.World)
      → HandlesOk ours h
      → HandlesOk ours (host_close os fd h w).1
  unfolding host_close
  host_close-HandlesOk fd h w ok = elim (Option-cases (host_lookup fd h)) [
    | inl e ↦ rw (e, host_close) ok
    | inr (f, e) ↦ rw (e, host_close) (forget-HandlesOk ours fd f h ok e)
  ]

  -- A lock call on a file that is not open, and the descriptor for it.
  opened-HandlesOk :
      (flags f : ℕ) (h : Handles) (w : os.World)
      → HandlesOk ours h
      → Fresh ours f h
      → next_fd h.host_fds h.host_next_fd + 1 < 2 ^ 32
      → HandlesOk ours (opened os flags f h w).1
  unfolding opened lock_file give_fd
  opened-HandlesOk flags f h w ok fresh room =
      let key = os.lock_key f w in
      let ((first, probe), w') = os.flock f (flag 6 flags) w in
      let unlocked : h.locks.path f ≡ none = elim (Option-cases (h.locks.path f)) [
        | inl e ↦ e
        | inr (k, e) ↦
            let (fd, open_fd) = ok.locked_open f k fresh.0 e in absurd (fresh.1 fd open_fd)
      ] in
      elim (Bool-cases (wants_lock flags)) [
        | inr plain ↦ rw plain (alloc-HandlesOk ours f h h.locks ok fresh room (λ j k e. inr e))
        | inl wanted ↦ elim (lock_file_paths first probe key f (flag 6 flags) h.locks unlocked) [
          | inl (code, held) ↦
              rw wanted (
                rw code
                  (alloc-HandlesOk ours f h _ ok fresh room (λ j k e. ground (arith, held j))))
          | inr (code, same) ↦
              let ne : ((host_lock_file first probe key f (flag 6 flags) h.locks).0 == 0) ≡ false =
                ground arith in
              rw wanted (rw ne (locks-HandlesOk ours f h _ ok (λ j o. same j)))
        ]
      ]

  result-HandlesOk :
      (flags : ℕ) (h : Handles) (r : (GoError ⊎ ℕ) × os.World)
      → HandlesOk ours h
      → ((f : ℕ) (w' : os.World) → r ≡ (inr f, w') → Fresh ours f h)
      → next_fd h.host_fds h.host_next_fd + 1 < 2 ^ 32
      → HandlesOk ours (open_result os flags r h).1
  result-HandlesOk flags h (inl err, w) ok fresh room = ok
  result-HandlesOk flags h (inr f, w) ok fresh room =
      opened-HandlesOk flags f h w ok (fresh f w refl) room

  -- Every open, granted or refused, keeps the descriptors in order, and a refused file is left without
  -- a lock. The operating system's handle is new, and the descriptor counter has room.
  pub open_path-HandlesOk :
      (path : Bytes) (flags : ℕ) (h : Handles) (w : os.World)
      → HandlesOk ours h
      → ((f : ℕ) (w' : os.World)
          → os.open_file path (open_flags flags) (permissions flags) w ≡ (inr f, w')
          → Fresh ours f h)
      → next_fd h.host_fds h.host_next_fd + 1 < 2 ^ 32
      → HandlesOk ours (open_path os path flags h w).1
  unfolding open_path
  open_path-HandlesOk path flags h w ok fresh room = elim (Bool-cases (is_empty_path path)) [
    | inl bare ↦ rw bare ok
    | inr named ↦ rw named (result-HandlesOk flags h _ ok fresh room)
  ]

module _ (os : Os) where
  close_none :
      (fd : ℕ) (h : Handles) (w : os.World)
      → host_lookup fd h ≡ none
      → host_close os fd h w ≡ (minus ebadf, h, w)
  unfolding host_close
  close_none fd h w e = rw (e, host_close) refl

  close_open :
      (fd f : ℕ) (h : Handles) (w : os.World)
      → host_lookup fd h ≡ some f
      → host_close os fd h w ≡ (minus (errno_of (os.close f w).0), forget fd f h, (os.close f w).1)
  unfolding host_close
  close_open fd f h w e = rw (e, host_close) refl

  -- Closing an open descriptor: the file's lock is released, the other descriptors keep their files,
  -- and closing it again fails with EBADF and changes nothing.
  pub host_close_twice :
      (fd f : ℕ) (h : Handles) (w : os.World)
      → host_lookup fd h ≡ some f
      → let (reply, h1, w1) = host_close os fd h w in
        (reply ≡ minus (errno_of (os.close f w).0))
        × (h1.locks.path f ≡ none)
        × ((j : ℕ) → j ≢ fd → host_lookup j h1 ≡ host_lookup j h)
        × (host_close os fd h1 w1 ≡ (minus ebadf, h1, w1))
  host_close_twice fd f h w open_fd =
      let gone : host_lookup fd (forget fd f h) ≡ none = ground (arith, lookup-forget fd fd f h) in
      rw (close_open fd f h w open_fd) (
        refl,
        unfold forget in ground (arith, unregister_paths f h.locks f),
        λ j ne. ground (arith, lookup-forget j fd f h),
        close_none fd (forget fd f h) (os.close f w).1 gone,
      )
