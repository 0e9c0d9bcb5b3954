-- ===== src/Duckdb/Driver/Stream/Reaches.antt =====
-- Code of converge/duckdb that is known to come to other code, or to end with a known value.
use duckdb_wasm2go_poc.Base.{
  ℕ, ◌≡◌, Bool, true, false, ◌≢◌, some, ◌==◌, if◌then◌else◌, refl, ◌∙◌, ap, ◌∷◌, arith,
}
use duckdb_wasm2go_poc.Duckdb.Driver.{
  Call, Session, Event, Prog, pure, ◌>>=◌, continue, answer, call, note,
}

-- A call of the engine answers `a`, and the world behind it is in `R`.
pub record Answers {W A : Type 0} (f : Call W A) (w : W) (a : A) (R : W → Type 0) : Type 0 where
  pub after : W
  pub answers : f w ≡ (some a, after)
  pub keeps : R after

-- Running `m` in `s` is running `n` in a later session, which is in `Q`.
pub record Reaches {W A : Type 0} (m : Prog W A) (s : Session W) (n : Prog W A)
    (Q : Session W → Type 0) : Type 0 where
  pub after : Session W
  pub reaches : m s ≡ n after
  pub keeps : Q after

-- Code ends with `a`, and the session behind it is in `Q`.
abbrev pub Ends : {W A : Type 0} → Prog W A → Session W → A → (Session W → Type 0) → Type 0
Ends m s a Q = Reaches m s (pure a) Q

-- a session that is not poisoned, with its world in `R`
pub record Sound {W : Type 0} (R : W → Type 0) (s : Session W) : Type 0 where
  pub world : R s.world
  pub healthy : s.poisoned ≡ false

module _ {W : Type 0} where
  pub Reaches-refl :
      {A : Type 0} (m : Prog W A) (s : Session W) {Q : Session W → Type 0} → Q s → Reaches m s m Q
  Reaches-refl m s q = record { after = s; reaches = refl; keeps = q }

  pub pure-Ends :
      {A : Type 0} {a b : A} (s : Session W) {Q : Session W → Type 0}
      → a ≡ b
      → Q s
      → Ends (pure a) s b Q
  pure-Ends s eq q = record { after = s; reaches = ap (λ x. pure x s) eq; keeps = q }

  pub Reaches-bind :
      {A B : Type 0} (m : Prog W A) (f : A → Prog W B) (s : Session W) {a : A} {n : Prog W B}
      {Q P : Session W → Type 0}
      → Ends m s a Q
      → ((t : Session W) → Q t → Reaches (f a) t n P)
      → Reaches (m >>= f) s n P
  unfolding ◌>>=◌ continue
  Reaches-bind m f s x g =
      let y = g x.after x.keeps in
      record { after = y.after; reaches = ap (continue f) x.reaches ∙ y.reaches; keeps = y.keeps }

  pub Reaches-trans :
      {A : Type 0} {m n k : Prog W A} (s : Session W) {Q P : Session W → Type 0}
      → Reaches m s n Q
      → ((t : Session W) → Q t → Reaches n t k P)
      → Reaches m s k P
  Reaches-trans s x g =
      let y = g x.after x.keeps in
      record { after = y.after; reaches = x.reaches ∙ y.reaches; keeps = y.keeps }

  pub call-Ends :
      {A : Type 0} (f : Call W A) (s : Session W) {a : A} {R : W → Type 0}
      → s.poisoned ≡ false
      → Answers f s.world a R
      → Ends (call f) s a (Sound R)
  unfolding call
  call-Ends f s h x = record {
    after = record s { world = x.after };
    reaches = ap (λ y. (answer y.0, record s { world = y.1 })) x.answers;
    keeps = record { world = x.keeps; healthy = h };
  }

  pub note-Ends :
      (ev : Event) (s : Session W) {R : W → Type 0} → Sound R s → Ends (note ev) s tt (Sound R)
  unfolding note
  note-Ends ev s x = record {
    after = record s { trace = ev ∷ s.trace };
    reaches = refl;
    keeps = record { world = x.world; healthy = x.healthy };
  }

  module _ {A : Type 0} {k : Prog W A} {Q : Session W → Type 0} (s : Session W) where
    pub if_false-Reaches :
        (b : Bool) (m n : Prog W A)
        → b ≡ false
        → Reaches n s k Q
        → Reaches (if b then m else n) s k Q
    if_false-Reaches false m n e x = x
    if_false-Reaches true m n e x = absurd cc

    pub if_true-Reaches :
        (b : Bool) (m n : Prog W A)
        → b ≡ true
        → Reaches m s k Q
        → Reaches (if b then m else n) s k Q
    if_true-Reaches true m n e x = x
    if_true-Reaches false m n e x = absurd cc

pub not_null : (n : ℕ) → n ≢ 0 → (n == 0) ≡ false
not_null n h = ground arith
