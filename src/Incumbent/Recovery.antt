-- ===== src/Incumbent/Recovery.antt =====
-- crates/handoff/src/incumbent.rs: `acquire_with_short_retry` ends within its fuel.
use handoff.Prelude.{
  ℕ, zero, suc, ◌+◌, ◌*◌, ◌/◌, ◌≤◌, ◌<◌, ◌≡◌, refl, true, false, Option, some, arith, dec_lt,
  ltb-of_lt, ltb-of_le,
}
use handoff.Error.{Result, ok, err, lock_held}
use handoff.Incumbent.World.{Env, World, is_held, instant_now, sleep, reacquire}
use handoff.Incumbent.Serve.{retry_round, retry_loop, retry_interval, acquire_with_short_retry}
use handoff.Incumbent.Quiet.{owed, IsOrdered, IsGuarded}

-- The lock that was not held is held after success, and still not held after an error; nothing else
-- of what the session keeps changes.
abbrev pub Recovers : World → Result (Unit {0}) × World → Type 0
Recovers w (r, w') =
    (is_held w'.lock ≡ (elim r [ ok _ ↦ true | err _ ↦ false ]))
    × (owed w'.trace ≡ owed w.trace)
    × (IsOrdered w.trace → IsOrdered w'.trace)
    × (IsGuarded w → IsGuarded w')

module _ (env : Env) where
  pub reacquire-Recovers :
      (w : World)
      → is_held w.lock ≡ false
      → Recovers w (reacquire env w) × ((reacquire env w).1.time ≡ w.time)
  unfolding reacquire
  reacquire-Recovers w h = ground arith

  abbrev pub RecoversTo : World → Option (Result (Unit {0}) × World) → Type 0
  RecoversTo w tried = (out : Result (Unit {0}) × World) × (tried ≡ some out) × Recovers w out

  RecoversTo-later :
      (w w' : World) (tried : Option (Result (Unit {0}) × World))
      → owed w'.trace ≡ owed w.trace
      → (IsOrdered w.trace → IsOrdered w'.trace)
      → (IsGuarded w → IsGuarded w')
      → RecoversTo w' tried
      → RecoversTo w tried
  RecoversTo-later w w' tried o s g (out, e, r) =
      (out, e, (r.0, ground (arith, r.1), λ h. r.2 (s h), λ h. r.3 (g h)))

  retry_round-RecoversTo :
      (loop : World → Option (Result (Unit {0}) × World)) (f deadline : ℕ) (w : World)
      (out : Result (Unit {0}) × World)
      → Recovers w out
      → out.1.time ≡ w.time
      → deadline ≤ w.time + retry_interval * f
      → ((w' : World)
          → is_held w'.lock ≡ false
          → deadline + retry_interval ≤ w'.time + retry_interval * f
          → 0 < f
          → RecoversTo w' (loop w'))
      → RecoversTo w (retry_round env loop deadline out)
  unfolding instant_now sleep
  retry_round-RecoversTo loop f deadline w (ok _, w') r same d next = ((ok tt, w'), refl, r)
  retry_round-RecoversTo loop f deadline w (err (lock_held p), w') r same d next =
      elim (dec_lt (w'.time + env.lag w'.tick) deadline) [
        | no late ↦ late_ends (omega arith)
        | yes early ↦ rw (ltb-of_lt (w'.time + env.lag w'.tick) deadline early) (
            RecoversTo-later w slept (loop slept) r.1 (λ h. (tt, r.2 h))
              (λ h. guarded_sleep (r.3 h))
              (next slept r.0 (omega (arith, same)) (omega (arith, same))))
      ]
    where
      slept : World
      slept = (sleep env retry_interval (instant_now env w').1).1

      guarded_sleep : IsGuarded w' → IsGuarded slept
      guarded_sleep g = ((g.1, g.0), g.1)

      late_ends :
          deadline ≤ w'.time + env.lag w'.tick
          → RecoversTo w (retry_round env loop deadline (err (lock_held p), w'))
      late_ends late =
          rw (ltb-of_le (w'.time + env.lag w'.tick) deadline late)
            ((err (lock_held p), (instant_now env w').1), refl, r)
  retry_round-RecoversTo loop f deadline w (err e, w') r same d next = ((err e, w'), refl, r)

  retry_loop-RecoversTo :
      (f deadline : ℕ) (w : World)
      → is_held w.lock ≡ false
      → deadline ≤ w.time + retry_interval * f
      → RecoversTo w (retry_loop env (suc f) deadline w)
  unfolding retry_loop
  retry_loop-RecoversTo zero deadline w h d =
      let (r, same) = reacquire-Recovers w h in
      retry_round-RecoversTo (retry_loop env zero deadline) zero deadline w (reacquire env w) r same
        d (λ w' _ _ pos. absurd (omega arith))
  retry_loop-RecoversTo (suc f) deadline w h d =
      let (r, same) = reacquire-Recovers w h in
      retry_round-RecoversTo (retry_loop env (suc f) deadline) (suc f) deadline w (reacquire env w)
        r same d (λ w' h' d' _. retry_loop-RecoversTo f deadline w' h' (omega arith))

  -- For every limit and every world without the lock, `acquire_with_short_retry` returns, however
  -- long the lock stays taken: on success the lock is held, on an error it is not; whether a
  -- drain is outstanding does not change; a trace in order stays in order; and if the consumer's
  -- writer was open only while the lock was held, it still is.
  pub acquire_with_short_retry-RecoversTo :
      (limit : ℕ) (w : World)
      → is_held w.lock ≡ false
      → RecoversTo w (acquire_with_short_retry env limit w)
  unfolding acquire_with_short_retry instant_now
  acquire_with_short_retry-RecoversTo limit w h =
      retry_loop-RecoversTo (suc (limit / retry_interval)) (w.time + env.lag w.tick + limit)
        (instant_now env w).1 h (omega arith)
