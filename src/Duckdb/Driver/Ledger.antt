-- ===== src/Duckdb/Driver/Ledger.antt =====
-- The account of a handle in a session of converge/duckdb/driver.go, against what is still held.
use duckdb_wasm2go_poc.Base.{
  ℕ, ◌+◌, Option, none, some, ◌≤◌, ◌≡◌, Bool, true, false, ◌||◌, if◌then◌else◌, refl, ap, arith,
}
use duckdb_wasm2go_poc.Duckdb.Driver.{
  connection, database, bad_conn, Result, fail, Session, Reply, done, panicked, exhausted, Prog,
  pure, unless_bad, unless_poisoned,
}
use duckdb_wasm2go_poc.Duckdb.Driver.Conn.{Conn, Context, poison, guarded, unless_done, entry}
use duckdb_wasm2go_poc.Duckdb.Driver.Nets.{
  Handle, one, acquired, released, Balance, Same, Nets, bind-Nets,
}
use duckdb_wasm2go_poc.Duckdb.Driver.Balance.{if_ok}
use duckdb_wasm2go_poc.Duckdb.Driver.Balance.Conns.{with_context-Nets}

-- how much of the handle an open connection holds
unfoldable pub conn_held : Handle → Conn → Bool → ℕ
conn_held h c closed =
    if closed then 0 else one h connection c.con + (if c.owns_db then one h database c.db else 0)

-- No handle is released more often than it was acquired; and until a panic poisons the module, what
-- the connection and its objects hold is not released.
pub record Sound {W : Type 0} (h : Handle) (c : Conn) (held : ℕ) (s : Session W) : Type 0 where
  pub spent : released h s.trace ≤ acquired h s.trace
  pub kept :
      s.poisoned ≡ false → released h s.trace + conn_held h c s.closed + held ≤ acquired h s.trace

-- behind code that holds more with its value
unfoldable pub SoundAfter :
    {W A : Type 0} → Handle → Conn → ℕ → (A → ℕ) → Reply A × Session W → Type 0
SoundAfter h c held gain (done a, s) = Sound h c (held + gain a) s
SoundAfter h c held gain (panicked, s) = Sound h c held s
SoundAfter h c held gain (exhausted, s) = Sound h c held s

module _ {W : Type 0} (h : Handle) (c : Conn) where
  pub weaken :
      {s : Session W} {held held' : ℕ} → held' ≤ held → Sound h c held s → Sound h c held' s
  weaken le i = record { spent = i.spent; kept = λ hp. let k = i.kept hp in omega arith }

  module _ {A : Type 0} (held own : ℕ) (gain : A → ℕ) where
    -- Code that leaves the account in order keeps it sound.
    Balance-Sound :
        (s : Session W) (x : Reply A × Session W)
        → s.poisoned ≡ false
        → Same s x.1
        → Balance h own gain s x
        → Sound h c (held + own) s
        → SoundAfter h c held gain x
    unfolding Balance SoundAfter
    Balance-Sound s (done a, s') hp e b i =
        let k = i.kept hp in
        let same = ap (conn_held h c) e.closed in
        record { spent = omega arith; kept = λ _. omega arith }
    Balance-Sound s (panicked, s') hp e b i =
        let k = i.kept hp in
        let same = ap (conn_held h c) e.closed in
        record { spent = omega arith; kept = λ _. omega arith }
    Balance-Sound s (exhausted, s') hp e b i =
        let k = i.kept hp in
        let same = ap (conn_held h c) e.closed in
        record { spent = omega arith; kept = λ _. omega arith }

    pub Nets-Sound :
        {p : Prog W A} (s : Session W)
        → Nets h s.closed own gain p
        → s.poisoned ≡ false
        → Sound h c (held + own) s
        → SoundAfter h c held gain (p s)
    Nets-Sound {p} s np hp i = Balance-Sound s (p s) hp (np.same s) (np.balance s hp refl) i

    if-Sound :
        (b : Bool) (a : A) (s : Session W) (y : Reply A × Session W)
        → gain a ≤ own
        → Sound h c (held + own) s
        → (b ≡ false → SoundAfter h c held gain y)
        → SoundAfter h c held gain (if b then (done a, s) else y)
    unfolding SoundAfter
    if-Sound true a s y le i f = weaken (omega arith) i
    if-Sound false a s y le i f = f refl

    pub unless_bad-Sound :
        (a : A) (p : Prog W A) (s : Session W)
        → gain a ≤ own
        → Nets h false own gain p
        → Sound h c (held + own) s
        → SoundAfter h c held gain (unless_bad (pure a) p s)
    unfolding unless_bad
    unless_bad-Sound a p s le np i = if-Sound (s.closed || s.poisoned) a s (p s) le i (λ good.
        let hc : s.closed ≡ false = ground arith in
        let hp : s.poisoned ≡ false = ground arith in
        Balance-Sound s (p s) hp (np.same s) (np.balance s hp hc) i)

    pub unless_poisoned-Sound :
        (a : A) (p : Prog W A) (s : Session W)
        → gain a ≤ own
        → Nets h s.closed own gain p
        → Sound h c (held + own) s
        → SoundAfter h c held gain (unless_poisoned (pure a) p s)
    unfolding unless_poisoned
    unless_poisoned-Sound a p s le np i =
        if-Sound s.poisoned a s (p s) le i (λ hp. Nets-Sound s np hp i)

  module _ {A : Type 0} (held : ℕ) (gain : A → ℕ) where
    unless_done-Sound :
        (o : Option ℕ) (p : Prog W (Result A)) (s : Session W)
        → Sound h c held s
        → SoundAfter h c held (if_ok 0 gain) (p s)
        → SoundAfter h c held (if_ok 0 gain) (unless_done o p s)
    unfolding unless_done SoundAfter
    unless_done-Sound none p s i j = j
    unless_done-Sound (some n) p s i j = weaken (omega arith) i

    -- An entry point keeps what its value keeps, and nothing with an error.
    pub entry-Sound :
        (ctx : Context) (p : Prog W (Result A)) (s : Session W)
        → Nets h false 0 (if_ok 0 gain) p
        → Sound h c held s
        → SoundAfter h c held (if_ok 0 gain) (entry ctx p s)
    unfolding entry
    entry-Sound ctx p s np i = unless_done-Sound ctx.before _ s i (
        unless_done-Sound ctx.locked _ s i (
          unless_bad-Sound held 0 (if_ok 0 gain) (fail bad_conn) _ s (omega arith)
            (bind-Nets np (with_context-Nets gain ctx.after)) (weaken (omega arith) i)))

    -- The guard turns a panic into an error, which keeps nothing.
    pub guarded-Sound :
        (x : Reply (Result A) × Session W)
        → SoundAfter h c held (if_ok 0 gain) x
        → SoundAfter h c held (if_ok 0 gain) (guarded x)
    unfolding SoundAfter guarded poison
    guarded-Sound (done r, s) i = i
    guarded-Sound (panicked, s) i = record { spent = i.spent; kept = λ hp. absurd cc }
    guarded-Sound (exhausted, s) i = i
