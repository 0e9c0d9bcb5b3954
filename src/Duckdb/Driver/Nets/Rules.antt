-- ===== src/Duckdb/Driver/Nets/Rules.antt =====
-- The rules for code of converge/duckdb that takes handles and gives them back.
use duckdb_wasm2go_poc.Base.{ℕ, ◌+◌, ◌≡◌, Bool, true, false, if◌then◌else◌, arith, refl, ◌∙◌}
use duckdb_wasm2go_poc.Duckdb.Driver.{
  Call, Kind, acquire, release, Session, Prog, pure, panic, out_of_fuel, ◌>>=◌, call, note,
  deferred, unless_poisoned, unless_bad,
}
use duckdb_wasm2go_poc.Duckdb.Driver.Nets.Counts.{
  Handle, one, acquired, released, Balance, Same, Nets,
}
use duckdb_wasm2go_poc.Duckdb.Driver.Nets.Flow.{
  Same-refl, Same-trans, answer-Balance, continue-Balance, continue-Same, frame-Balance,
  count-Balance, ended-Balance, ended-Same, if-Same, unless_poisoned-Balance, unless_bad-Balance,
  unless_poisoned-Same, unless_bad-Same, if-Balance, moved-Balance,
}

module _ {W : Type 0} {h : Handle} {c : Bool} where
  pub pure-Nets : {A : Type 0} {gain : A → ℕ} (a : A) → Nets {W = W} h c (gain a) gain (pure a)
  unfolding Balance
  pure-Nets a = record { balance = λ s hp hc. omega arith; same = λ s. Same-refl }

  pub panic-Nets : {A : Type 0} {own : ℕ} {gain : A → ℕ} → Nets {W = W} h c own gain panic
  unfolding Balance
  panic-Nets = record { balance = λ s hp hc. omega arith; same = λ s. Same-refl }

  pub out_of_fuel-Nets :
      {A : Type 0} {own : ℕ} {gain : A → ℕ} → Nets {W = W} h c own gain out_of_fuel
  unfolding Balance
  out_of_fuel-Nets = record { balance = λ s hp hc. omega arith; same = λ s. Same-refl }

  pub call-Nets : {A : Type 0} (f : Call W A) → Nets h c 0 (λ _. 0) (call f)
  unfolding call
  call-Nets f = record {
    balance = λ s hp hc. answer-Balance h c s (f s.world).0 (f s.world).1;
    same = λ s. record { poisoned = refl; closed = refl };
  }

  pub acquire-Nets : (k : Kind) (n : ℕ) → Nets {W = W} h c 0 (λ _. one h k n) (note (acquire k n))
  unfolding note Balance acquired released
  acquire-Nets k n = record {
    balance = λ s hp hc. omega arith;
    same = λ s. record { poisoned = refl; closed = refl };
  }

  pub release-Nets : (k : Kind) (n : ℕ) → Nets {W = W} h c (one h k n) (λ _. 0) (note (release k n))
  unfolding note Balance acquired released
  release-Nets k n = record {
    balance = λ s hp hc. omega arith;
    same = λ s. record { poisoned = refl; closed = refl };
  }

  pub bind-Nets :
      {A B : Type 0} {own : ℕ} {gain : A → ℕ} {gain' : B → ℕ} {m : Prog W A} {f : A → Prog W B}
      → Nets h c own gain m
      → ((a : A) → Nets h c (gain a) gain' (f a))
      → Nets h c own gain' (m >>= f)
  unfolding ◌>>=◌
  bind-Nets {own = own} {gain = gain} {gain' = gain'} {m = m} {f = f} nm nf = record {
    balance = λ s hp hc.
        continue-Balance h c own gain gain' f nf s (m s) hp hc (nm.same s) (nm.balance s hp hc);
    same = λ s. continue-Same h c own gain gain' f (λ a. (nf a).same) s (m s) (nm.same s);
  }

  pub frame-Nets :
      {A : Type 0} {own : ℕ} {gain : A → ℕ} {p : Prog W A} (frame : ℕ)
      → Nets h c own gain p
      → Nets h c (own + frame) (λ a. gain a + frame) p
  frame-Nets {own = own} {gain = gain} {p = p} frame np = record {
    balance = λ s hp hc. frame-Balance h c own frame gain s (p s) (np.balance s hp hc);
    same = np.same;
  }

  pub count-Nets :
      {A : Type 0} {own own' : ℕ} {gain gain' : A → ℕ} {p : Prog W A}
      → own ≡ own'
      → ((a : A) → gain a ≡ gain' a)
      → Nets h c own gain p
      → Nets h c own' gain' p
  count-Nets {own = own} {own' = own'} {gain = gain} {gain' = gain'} {p = p} e e' np = record {
    balance = λ s hp hc. count-Balance h c own own' gain gain' s (p s) e e' (np.balance s hp hc);
    same = np.same;
  }

  pub if-Nets :
      {A : Type 0} {own : ℕ} {gain : A → ℕ} {p q : Prog W A} (b : Bool)
      → Nets h c own gain p
      → Nets h c own gain q
      → Nets h c own gain (if b then p else q)
  if-Nets true np nq = np
  if-Nets false np nq = nq

  -- the second branch knows the test
  pub else-Nets :
      {A : Type 0} {own : ℕ} {gain : A → ℕ} {p q : Prog W A} (b : Bool)
      → Nets h c own gain p
      → (b ≡ false → Nets h c own gain q)
      → Nets h c own gain (if b then p else q)
  else-Nets true np nq = np
  else-Nets false np nq = nq refl

  pub deferred-Nets :
      {A : Type 0} {own frame : ℕ} {gain : A → ℕ} {cleanup : Prog W (Unit {0})} {m : Prog W A}
      → Nets h c frame (λ _. 0) cleanup
      → Nets h c own gain m
      → Nets h c (own + frame) gain (deferred cleanup m)
  unfolding deferred
  deferred-Nets {own = own} {frame = frame} {gain = gain} {cleanup = cleanup} {m = m} nc nm =
      record {
        balance = λ s hp hc.
            ended-Balance h c own frame gain cleanup nc s (m s) hp hc (nm.same s)
              (nm.balance s hp hc);
        same = λ s. ended-Same h c own frame gain cleanup nc s (m s) (nm.same s);
      }

  -- code that reads a flag
  pub unless_poisoned-Nets :
      {A : Type 0} {own : ℕ} {gain : A → ℕ} {q : Prog W A} (p : Prog W A)
      → ((s : Session W) → Same s (p s).1)
      → Nets h c own gain q
      → Nets h c own gain (unless_poisoned p q)
  unless_poisoned-Nets {own = own} {gain = gain} {q = q} p sp nq = record {
    balance = λ s hp hc. unless_poisoned-Balance h own gain p q s hp (nq.balance s hp hc);
    same = λ s. unless_poisoned-Same p q s sp nq.same;
  }

  pub unless_bad-Nets :
      {A : Type 0} {own : ℕ} {gain : A → ℕ} {q : Prog W A} (p : Prog W A)
      → c ≡ false
      → ((s : Session W) → Same s (p s).1)
      → Nets h c own gain q
      → Nets h c own gain (unless_bad p q)
  unless_bad-Nets {own = own} {gain = gain} {q = q} p e sp nq = record {
    balance = λ s hp hc. unless_bad-Balance h own gain p q s hp (hc ∙ e) (nq.balance s hp hc);
    same = λ s. unless_bad-Same p q s sp nq.same;
  }

  -- code behind a change of `inTx`, which may depend on a test
  pub choose_tx-Nets :
      {A : Type 0} {own : ℕ} {gain : A → ℕ} {p q : Prog W A} (b tx : Session W → Bool)
      → Nets h c own gain p
      → Nets h c own gain q
      → Nets h c own gain (λ s. let s' = record s { in_tx = tx s } in if b s then p s' else q s')
  choose_tx-Nets {own = own} {gain = gain} {p = p} {q = q} b tx np nq = record {
    balance = λ s hp hc.
        let s' : Session W = record s { in_tx = tx s } in
        if-Balance h own gain (b s) (p s') (q s') s
          (moved-Balance h own gain s s' refl (p s') (np.balance s' hp hc))
          (moved-Balance h own gain s s' refl (q s') (nq.balance s' hp hc));
    same = λ s.
        let s' : Session W = record s { in_tx = tx s } in
        let kept : Same s s' = record { poisoned = refl; closed = refl } in
        if-Same (b s) (p s') (q s') s (Same-trans kept (np.same s')) (Same-trans kept (nq.same s'));
  }
