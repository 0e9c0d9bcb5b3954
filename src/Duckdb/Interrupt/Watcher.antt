-- ===== src/Duckdb/Interrupt/Watcher.antt =====
-- The watcher of `armInterrupt` in converge/duckdb/interrupt.go, in any order of steps.
use duckdb_wasm2go_poc.Base.{
  ℕ, ◌<◌, ◌≡◌, ◌≢◌, ◌⊎◌, true, false, inl, inr, some, Bytes, [], ◌∷◌, length, refl, ltb, arith,
  zero, suc, ◌∙◌,
}
use duckdb_wasm2go_poc.HostFs.Memory.{overwrite, paste}
use duckdb_wasm2go_poc.Duckdb.Interrupt.{
  Place, waits, fires, rests, ended, runs, joins, disarmed, Armed, is_stopped, WatcherStep,
  stop_first, see_cancel, fire, torn, tick, stop_later, OtherStep, cancel, engine, close_stop, join,
  Reach, start, watch, other, Runs, here, further, poke, byte_at,
}

-- What holds in every state of an armed region.
record WatcherOk (s : Armed) : Type 0 where
  fires_cancelled : s.watcher ≡ fires → s.cancelled ≡ true
  rests_cancelled : s.watcher ≡ rests → s.cancelled ≡ true
  ended_why : s.watcher ≡ ended → (is_stopped s.caller ≡ true) ⊎ (s.panicked ≡ true)
  disarmed_ended : s.caller ≡ disarmed → s.watcher ≡ ended

module _ (at : ℕ) where
  WatcherStep-WatcherOk : {s t : Armed} → WatcherStep at s t → WatcherOk s → WatcherOk t
  WatcherStep-WatcherOk (stop_first s w stop) ok = record {
    fires_cancelled = λ h. absurd cc;
    rests_cancelled = λ h. absurd cc;
    ended_why = λ h. inl stop;
    disarmed_ended = λ h. refl;
  }
  WatcherStep-WatcherOk (see_cancel s w c) ok = record {
    fires_cancelled = λ h. c;
    rests_cancelled = λ h. absurd cc;
    ended_why = λ h. absurd cc;
    disarmed_ended = λ h. let e = ok.disarmed_ended h in absurd cc;
  }
  WatcherStep-WatcherOk (fire s w) ok = record {
    fires_cancelled = λ h. absurd cc;
    rests_cancelled = λ h. ok.fires_cancelled w;
    ended_why = λ h. absurd cc;
    disarmed_ended = λ h. let e = ok.disarmed_ended h in absurd cc;
  }
  WatcherStep-WatcherOk (torn s w c) ok = record {
    fires_cancelled = λ h. absurd cc;
    rests_cancelled = λ h. absurd cc;
    ended_why = λ h. inr refl;
    disarmed_ended = λ h. refl;
  }
  WatcherStep-WatcherOk (tick s w) ok = record {
    fires_cancelled = λ h. ok.rests_cancelled w;
    rests_cancelled = λ h. absurd cc;
    ended_why = λ h. absurd cc;
    disarmed_ended = λ h. let e = ok.disarmed_ended h in absurd cc;
  }
  WatcherStep-WatcherOk (stop_later s w stop) ok = record {
    fires_cancelled = λ h. absurd cc;
    rests_cancelled = λ h. absurd cc;
    ended_why = λ h. inl stop;
    disarmed_ended = λ h. refl;
  }

OtherStep-WatcherOk : {s t : Armed} → OtherStep s t → WatcherOk s → WatcherOk t
OtherStep-WatcherOk (cancel s) ok = record {
  fires_cancelled = λ h. refl;
  rests_cancelled = λ h. refl;
  ended_why = ok.ended_why;
  disarmed_ended = ok.disarmed_ended;
}
OtherStep-WatcherOk (engine s mem c) ok = record {
  fires_cancelled = ok.fires_cancelled;
  rests_cancelled = ok.rests_cancelled;
  ended_why = ok.ended_why;
  disarmed_ended = ok.disarmed_ended;
}
OtherStep-WatcherOk (close_stop s c) ok = record {
  fires_cancelled = ok.fires_cancelled;
  rests_cancelled = ok.rests_cancelled;
  ended_why = λ h. inl refl;
  disarmed_ended = λ h. absurd cc;
}
OtherStep-WatcherOk (join s c w) ok = record {
  fires_cancelled = ok.fires_cancelled;
  rests_cancelled = ok.rests_cancelled;
  ended_why = λ h. inl refl;
  disarmed_ended = λ h. w;
}

byte_at-overwrite :
    (at : ℕ) (mem : Bytes) → at < length mem → byte_at at (overwrite at (1 ∷ []) mem) ≡ some 1
unfolding overwrite paste
byte_at-overwrite zero [] h = absurd (omega arith)
byte_at-overwrite zero (c ∷ cs) h = refl
byte_at-overwrite (suc at) [] h = absurd (omega arith)
byte_at-overwrite (suc at) (c ∷ cs) h = byte_at-overwrite at cs (omega arith)

module _ {at : ℕ} where
  Reach-WatcherOk : {s : Armed} → Reach at s → WatcherOk s
  Reach-WatcherOk (start mem) = record {
    fires_cancelled = λ h. absurd cc;
    rests_cancelled = λ h. absurd cc;
    ended_why = λ h. absurd cc;
    disarmed_ended = λ h. absurd cc;
  }
  Reach-WatcherOk (watch r st) = WatcherStep-WatcherOk at st (Reach-WatcherOk r)
  Reach-WatcherOk (other r st) = OtherStep-WatcherOk st (Reach-WatcherOk r)

  -- The watcher makes no step once `disarm` has returned, and writes to memory only by setting the
  -- flag, of a context that is cancelled.
  pub WatcherStep-allowed :
      {s t : Armed}
      → Reach at s
      → WatcherStep at s t
      → (s.caller ≢ disarmed) × ((t.mem ≡ s.mem) ⊎ ((s.cancelled ≡ true) × (t.mem ≡ poke at s.mem)))
  WatcherStep-allowed r (stop_first s w stop) =
      (λ d. let e = (Reach-WatcherOk r).disarmed_ended d in absurd cc, inl refl)
  WatcherStep-allowed r (see_cancel s w c) =
      (λ d. let e = (Reach-WatcherOk r).disarmed_ended d in absurd cc, inl refl)
  WatcherStep-allowed r (fire s w) =
      let ok = Reach-WatcherOk r in
      (λ d. let e = ok.disarmed_ended d in absurd cc, inr (ok.fires_cancelled w, refl))
  WatcherStep-allowed r (torn s w c) =
      (λ d. let e = (Reach-WatcherOk r).disarmed_ended d in absurd cc, inl refl)
  WatcherStep-allowed r (tick s w) =
      (λ d. let e = (Reach-WatcherOk r).disarmed_ended d in absurd cc, inl refl)
  WatcherStep-allowed r (stop_later s w stop) =
      (λ d. let e = (Reach-WatcherOk r).disarmed_ended d in absurd cc, inl refl)

  -- the watcher's way to its end
  ends :
      (s : Armed) (w : Place)
      → s.watcher ≡ w
      → is_stopped s.caller ≡ true
      → (t : Armed) × Runs at s t × (t.watcher ≡ ended) × (t.caller ≡ s.caller)
  ends s waits e stop =
      (record s { watcher = ended }, further here (stop_first s e stop), refl, refl)
  ends s fires e stop =
      let s' : Armed = record s { watcher = rests; mem = poke at s.mem } in
      (
        record s' { watcher = ended },
        further (further here (fire s e)) (stop_later s' refl stop),
        refl,
        refl,
      )
  ends s rests e stop =
      (record s { watcher = ended }, further here (stop_later s e stop), refl, refl)
  ends s ended e stop = (s, here, e, refl)

  -- `disarm` can always return: wherever the watcher is when `stop` is closed, steps of its own take
  -- it to its end, and then the join goes on.
  pub disarm_returns :
      {s : Armed}
      → Reach at s
      → s.caller ≡ joins
      → (t : Armed) × Runs at s t × OtherStep t (record t { caller = disarmed })
  disarm_returns {s} r c =
      let stop : is_stopped s.caller ≡ true = rw c refl in
      let (t, run, e, same) = ends s s.watcher refl stop in (t, run, join t (same ∙ c) e)

  byte_at-poke : (mem : Bytes) → at < length mem → byte_at at (poke at mem) ≡ some 1
  unfolding poke
  byte_at-poke mem h =
      let there : ltb at (length mem) ≡ true = ground arith in rw there (byte_at-overwrite at mem h)

  -- a flag that is set
  sets :
      (s : Armed) (w : Place)
      → s.watcher ≡ w
      → s.cancelled ≡ true
      → s.watcher ≢ ended
      → at < length s.mem
      → (t : Armed) × Runs at s t × (byte_at at t.mem ≡ some 1)
  sets s waits e c going h =
      let s' : Armed = record s { watcher = fires } in
      (
        record s' { watcher = rests; mem = poke at s.mem },
        further (further here (see_cancel s e c)) (fire s' refl),
        byte_at-poke s.mem h,
      )
  sets s fires e c going h = (
    record s { watcher = rests; mem = poke at s.mem },
    further here (fire s e),
    byte_at-poke s.mem h,
  )
  sets s rests e c going h =
      let s' : Armed = record s { watcher = fires } in
      (
        record s' { watcher = rests; mem = poke at s.mem },
        further (further here (tick s e)) (fire s' refl),
        byte_at-poke s.mem h,
      )
  sets s ended e c going h = absurd (going e)

  -- While the caller runs under a cancelled context, and the watcher has not panicked, steps of the
  -- watcher set the flag, also after the engine has cleared it.
  pub cancelled_sets :
      {s : Armed}
      → Reach at s
      → s.cancelled ≡ true
      → s.caller ≡ runs
      → s.panicked ≡ false
      → at < length s.mem
      → (t : Armed) × Runs at s t × (byte_at at t.mem ≡ some 1)
  cancelled_sets {s} r c caller calm h =
      sets s s.watcher refl c
        (λ e. elim ((Reach-WatcherOk r).ended_why e) [
          | inl stop ↦ let no_stop : is_stopped s.caller ≡ false = rw caller refl in absurd cc
          | inr panicked ↦ absurd cc
        ])
        h
