-- ===== src/Duckdb/Driver/Nets/Flow.antt =====
-- Accounts of a handle along the control flow of code in converge/duckdb: one piece behind another, a
-- deferred cleanup, a branch.
use mathlib.Core.Path.{subst}
use duckdb_wasm2go_poc.Base.{
  ℕ, ◌+◌, ◌≤◌, ◌≡◌, Bool, true, false, ◌||◌, Option, some, none, if◌then◌else◌, arith, refl, sym,
  ap, ◌∙◌,
}
use duckdb_wasm2go_poc.Duckdb.Driver.{
  Session, Reply, done, panicked, exhausted, Prog, pure, panic, ◌>>=◌, answer, continue, ended,
  unless_poisoned, unless_bad,
}
use duckdb_wasm2go_poc.Duckdb.Driver.Nets.Counts.{Handle, acquired, released, Balance, Same, Nets}

pub Same-refl : {W : Type 0} {s : Session W} → Same s s
Same-refl = record { poisoned = refl; closed = refl }

pub Same-trans : {W : Type 0} {s t u : Session W} → Same s t → Same t u → Same s u
Same-trans p q = record { poisoned = q.poisoned ∙ p.poisoned; closed = q.closed ∙ p.closed }

module _ {W : Type 0} (h : Handle) (c : Bool) where
  pub answer-Balance :
      {A : Type 0} (s : Session W) (r : Option A) (w : W)
      → Balance h 0 (λ _. 0) s (answer r, record s { world = w })
  unfolding Balance
  answer-Balance s (some a) w = omega arith
  answer-Balance s none w = omega arith

  module _ {A : Type 0} (own mid : ℕ) (gain : A → ℕ) where
    -- code behind code
    pub Balance-trans :
        (s s' : Session W) (y : Reply A × Session W)
        → acquired h s'.trace + released h s.trace + own
          ≡ acquired h s.trace + released h s'.trace + mid
        → Balance h mid gain s' y
        → Balance h own gain s y
    unfolding Balance
    Balance-trans s s' (done a, t) e b = omega arith
    Balance-trans s s' (panicked, t) e b = omega arith
    Balance-trans s s' (exhausted, t) e b = omega arith

  module _ {A B : Type 0} (own : ℕ) (gain : A → ℕ) (gain' : B → ℕ) (f : A → Prog W B) where
    pub continue-Balance :
        ((a : A) → Nets h c (gain a) gain' (f a))
        → (s : Session W) (x : Reply A × Session W) → s.poisoned ≡ false
        → s.closed ≡ c
        → Same s x.1
        → Balance h own gain s x
        → Balance h own gain' s (continue f x)
    unfolding Balance continue
    continue-Balance nf s (done a, s') hp hc e b =
        Balance-trans own (gain a) gain' s s' (f a s') b
          ((nf a).balance s' (e.poisoned ∙ hp) (e.closed ∙ hc))
    continue-Balance nf s (panicked, s') hp hc e b = b
    continue-Balance nf s (exhausted, s') hp hc e b = b

    pub continue-Same :
        ((a : A) (t : Session W) → Same t (f a t).1)
        → (s : Session W) (x : Reply A × Session W) → Same s x.1
        → Same s (continue f x).1
    unfolding continue
    continue-Same nf s (done a, s') e = Same-trans e (nf a s')
    continue-Same nf s (panicked, s') e = e
    continue-Same nf s (exhausted, s') e = e

  -- a piece of code beside something else that is owned
  pub frame-Balance :
      {A : Type 0} (own frame : ℕ) (gain : A → ℕ) (s : Session W) (x : Reply A × Session W)
      → Balance h own gain s x
      → Balance h (own + frame) (λ a. gain a + frame) s x
  unfolding Balance
  frame-Balance own frame gain s (done a, s') b = omega arith
  frame-Balance own frame gain s (panicked, s') b = omega arith
  frame-Balance own frame gain s (exhausted, s') b = omega arith

  -- the same counts
  pub count-Balance :
      {A : Type 0} (own own' : ℕ) (gain gain' : A → ℕ) (s : Session W) (x : Reply A × Session W)
      → own ≡ own'
      → ((a : A) → gain a ≡ gain' a)
      → Balance h own gain s x
      → Balance h own' gain' s x
  unfolding Balance
  count-Balance own own' gain gain' s (done a, s') e e' b = omega (arith, e' a)
  count-Balance own own' gain gain' s (panicked, s') e e' b = omega arith
  count-Balance own own' gain gain' s (exhausted, s') e e' b = omega arith

  module _ {A : Type 0} (own frame : ℕ) (gain : A → ℕ) (cleanup : Prog W (Unit {0})) where
    -- what is lost in a panic
    pub lost-Balance :
        (s s' : Session W) (y : Reply (Unit {0}) × Session W)
        → acquired h s.trace + released h s'.trace ≤ acquired h s'.trace + released h s.trace + own
        → Balance h frame (λ _. 0) s' y
        → Balance h (own + frame) gain s (continue (λ _. panic) y)
    unfolding Balance continue
    lost-Balance s s' (done a, t) e b = omega arith
    lost-Balance s s' (panicked, t) e b = omega arith
    lost-Balance s s' (exhausted, t) e b = omega arith

    -- what is kept behind it
    pub kept-Balance :
        (s s' : Session W) (a : A) (y : Reply (Unit {0}) × Session W)
        → acquired h s'.trace + released h s.trace + own
          ≡ acquired h s.trace + released h s'.trace + gain a
        → Balance h frame (λ _. 0) s' y
        → Balance h (own + frame) gain s (continue (λ _. pure a) y)
    unfolding Balance continue
    kept-Balance s s' a (done u, t) e b = omega arith
    kept-Balance s s' a (panicked, t) e b = omega arith
    kept-Balance s s' a (exhausted, t) e b = omega arith

    pub ended-Balance :
        Nets h c frame (λ _. 0) cleanup
        → (s : Session W) (x : Reply A × Session W) → s.poisoned ≡ false
        → s.closed ≡ c
        → Same s x.1
        → Balance h own gain s x
        → Balance h (own + frame) gain s (ended cleanup x)
    unfolding Balance ended ◌>>=◌
    ended-Balance nc s (done a, s') hp hc e b =
        kept-Balance s s' a (cleanup s') b (nc.balance s' (e.poisoned ∙ hp) (e.closed ∙ hc))
    ended-Balance nc s (panicked, s') hp hc e b =
        lost-Balance s s' (cleanup s') b (nc.balance s' (e.poisoned ∙ hp) (e.closed ∙ hc))
    ended-Balance nc s (exhausted, s') hp hc e b = omega arith

    pub ended-Same :
        Nets h c frame (λ _. 0) cleanup
        → (s : Session W) (x : Reply A × Session W) → Same s x.1
        → Same s (ended cleanup x).1
    unfolding ended ◌>>=◌
    ended-Same nc s (done a, s') e =
        continue-Same 0 (λ _. 0) gain (λ _. pure a) (λ u t. Same-refl) s (cleanup s')
          (Same-trans e (nc.same s'))
    ended-Same nc s (panicked, s') e =
        continue-Same 0 (λ _. 0) gain (λ _. panic) (λ u t. Same-refl) s (cleanup s')
          (Same-trans e (nc.same s'))
    ended-Same nc s (exhausted, s') e = e

pub if-Same :
    {W A : Type 0} (b : Bool) (x y : Reply A × Session W) (s : Session W)
    → Same s x.1
    → Same s y.1
    → Same s (if b then x else y).1
if-Same true x y s p q = p
if-Same false x y s p q = q

pub if_false : {A : Type 0} (b : Bool) (x y : A) → b ≡ false → (if b then x else y) ≡ y
if_false true x y e = absurd cc
if_false false x y e = refl

module _ {W A : Type 0} (h : Handle) (own : ℕ) (gain : A → ℕ) (p q : Prog W A) (s : Session W) where
  pub unless_poisoned-Balance :
      s.poisoned ≡ false → Balance h own gain s (q s) → Balance h own gain s (unless_poisoned p q s)
  unfolding unless_poisoned
  unless_poisoned-Balance e b =
      subst (Balance h own gain s) (sym (if_false s.poisoned (p s) (q s) e)) b

  pub unless_bad-Balance :
      s.poisoned ≡ false
      → s.closed ≡ false
      → Balance h own gain s (q s)
      → Balance h own gain s (unless_bad p q s)
  unfolding unless_bad
  unless_bad-Balance e e' b =
      let good : (s.closed || s.poisoned) ≡ false = ground arith in
      subst (Balance h own gain s) (sym (if_false (s.closed || s.poisoned) (p s) (q s) good)) b

module _ {W A : Type 0} (p q : Prog W A) (s : Session W) where
  pub unless_poisoned-Same :
      ((t : Session W) → Same t (p t).1)
      → ((t : Session W) → Same t (q t).1)
      → Same s (unless_poisoned p q s).1
  unfolding unless_poisoned
  unless_poisoned-Same sp sq = if-Same s.poisoned (p s) (q s) s (sp s) (sq s)

  pub unless_bad-Same :
      ((t : Session W) → Same t (p t).1)
      → ((t : Session W) → Same t (q t).1)
      → Same s (unless_bad p q s).1
  unfolding unless_bad
  unless_bad-Same sp sq = if-Same (s.closed || s.poisoned) (p s) (q s) s (sp s) (sq s)

module _ {W A : Type 0} (h : Handle) (own : ℕ) (gain : A → ℕ) where
  pub if-Balance :
      (b : Bool) (x y : Reply A × Session W) (s : Session W)
      → Balance h own gain s x
      → Balance h own gain s y
      → Balance h own gain s (if b then x else y)
  if-Balance true x y s p q = p
  if-Balance false x y s p q = q

  -- The balance is about what was acquired and released.
  pub moved-Balance :
      (s s' : Session W)
      → s'.trace ≡ s.trace
      → (x : Reply A × Session W) → Balance h own gain s' x
      → Balance h own gain s x
  unfolding Balance
  moved-Balance s s' e (done a, t) b = omega (arith, ap (acquired h) e, ap (released h) e)
  moved-Balance s s' e (panicked, t) b = omega (arith, ap (acquired h) e, ap (released h) e)
  moved-Balance s s' e (exhausted, t) b = omega (arith, ap (acquired h) e, ap (released h) e)
