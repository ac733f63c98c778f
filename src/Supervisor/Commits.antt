-- ===== src/Supervisor/Commits.antt =====
-- crates/handoff/src/supervisor.rs: a handoff between healthy processes commits.
use handoff.Prelude.{ℕ, ◌+◌, ◌≡◌, refl, sym, subst, ap, ◌∙◌, true, false, none, List, ◌∷◌, arith}
use handoff.Error.{Result, ok}
use handoff.Fallible.{map-Gives, Gives, and_then-Gives, ok-Gives, catch-Gives, lift}
use handoff.Protocol.{
  ProtoVersion, Message, incumbent, hello_ack, prepare_handoff, seal_request, commit,
}
use handoff.Supervisor.World.{
  Env, World, Reading, instant_now, now_unix_ms, configure_control_stream, spawn_successor, ticked,
  spawned_by, drop_guard, guarded,
}
use handoff.Supervisor.Wire.{check_pid, exchange_hello_as_supervisor}
use handoff.Supervisor.Handoff.{
  SpawnSpec, with_successor, greet_incumbent, launch, drive, perform_handoff,
}
use handoff.Supervisor.Healthy.{IsHealthy, told_of, At, instant_now-Gives}
use handoff.Supervisor.Script.{Script, IsHello, IsCooperative, committed_with, exchange_hello-Gives}
use handoff.Supervisor.Greeted.{
  incumbent_left, successor_left, tending, alone, Ends, configure-Gives, with_successor-Commits,
}

module _ (env : Env) (pid delay : ℕ) (healthy : IsHealthy env pid delay) (spec : SpawnSpec)
    (s : Script) (coop : IsCooperative env pid delay spec s) where
  any_incumbent : IsHello incumbent (λ p. check_pid env none p ≡ ok tt) s.greeting
  any_incumbent =
      let (v, p, b, lo, hi, c, chosen, e, n, q) = coop.greets in
      (v, p, b, lo, hi, c, chosen, e, n, refl)

  greet_incumbent-Gives :
      (start : ℕ) (told : List Message) (w : World)
      → At start incumbent
          (s.greeting ∷ (incumbent_left s))
          (s.successor_greeting ∷ (successor_left s))
          (alone told)
          w
      → Gives
          (λ _ w'.
            (v : ProtoVersion) × At
              (start + s.greeting.took)
              incumbent
              (incumbent_left s)
              (s.successor_greeting ∷ (successor_left s))
              (alone (hello_ack v env.handoff_id ∷ told))
              w')
          (greet_incumbent env w)
  unfolding greet_incumbent
  greet_incumbent-Gives start told w at =
      and_then-Gives _ _ (lift env.connect w) _
        (ok-Gives
          (λ _.
            At start incumbent (s.greeting ∷ (incumbent_left s))
              (s.successor_greeting ∷ (successor_left s)) (alone told))
          tt (env.connect, w) healthy.connects at)
        λ _ w₀ a₀.
          and_then-Gives _ _ (configure_control_stream env w₀) _
            (configure-Gives env pid delay healthy start (s.greeting ∷ (incumbent_left s))
              (s.successor_greeting ∷ (successor_left s)) (alone told) w₀ a₀)
            λ _ w₁ a₁.
              and_then-Gives _ _ (exchange_hello_as_supervisor env incumbent incumbent none w₁) _
                (exchange_hello-Gives env pid delay healthy start incumbent
                  (s.successor_greeting ∷ (successor_left s)) (alone told) none s.greeting
                  (incumbent_left s) w₁ any_incumbent a₁)
                (λ v w₂ a₂. ok-Gives _ tt (env.socketpair, w₂) healthy.pairs (v, a₂))

  spawned-Gives :
      (limit : ℕ) (mine theirs : List Reading) (told : List Message) (child : Result ℕ) (w : World)
      → child ≡ ok pid
      → At limit incumbent mine theirs (alone told) w
      → Gives
          (λ p w'. (p ≡ pid) × At limit incumbent mine theirs (tending pid told) w')
          (spawned_by child w)
  spawned-Gives limit mine theirs told child w e at =
      subst
        (λ x.
          Gives (λ p w'. (p ≡ pid) × At limit incumbent mine theirs (tending pid told) w')
            (spawned_by x w))
        (sym e)
        (
          refl,
          record { by = at.by; left = at.left; others = at.others; guard = refl; told = at.told },
        )

  dropped-told : (w : World) → told_of (drop_guard w).trace ≡ told_of w.trace
  dropped-told w = ground arith

  launch-Commits :
      (started start : ℕ) (told : List Message) (w : World)
      → At
          (start + s.greeting.took)
          incumbent
          (incumbent_left s)
          (s.successor_greeting ∷ (successor_left s))
          (alone told)
          w
      → Gives (Ends env pid spec told) (launch env spec (start + spec.deadline) started w)
  unfolding launch spawn_successor
  launch-Commits started start told w at =
      and_then-Gives _ _ (spawned_by env.spawn w) _
        (spawned-Gives (start + s.greeting.took) (incumbent_left s)
          (s.successor_greeting ∷ (successor_left s)) told env.spawn w healthy.spawns at)
        λ p w₁ (same, a₁).
          let (o, done, (given, (left, t))) =
            catch-Gives _ (with_successor env pid started spec (start + spec.deadline) w₁)
              (with_successor-Commits env pid delay healthy spec s coop started start told w₁ a₁) in
          rw same (
            ok-Gives (Ends env pid spec told) o
              (guarded (with_successor env pid started spec (start + spec.deadline)) w₁) done
              (
                given,
                (
                  left,
                  dropped-told (with_successor env pid started spec (start + spec.deadline) w₁).1
                      ∙ t,
                ),
              ))

  drive-Commits :
      (w : World)
      → w.from_incumbent ≡ s.greeting ∷ (incumbent_left s)
      → w.from_successor ≡ s.successor_greeting ∷ (successor_left s)
      → w.guard ≡ none
      → Gives
          (λ o w'.
            (v : ProtoVersion) × Ends env pid spec
              (hello_ack v env.handoff_id ∷ told_of w.trace)
              o
              w')
          (drive env spec w)
  unfolding drive now_unix_ms
  drive-Commits w fi fs g =
      and_then-Gives _ _ (instant_now env w) _
        (instant_now-Gives env pid delay healthy incumbent
          (s.successor_greeting ∷ (successor_left s)) (alone (told_of w.trace)) w.time
          (s.greeting ∷ (incumbent_left s)) w
          (record { by = omega arith; left = fi; others = fs; guard = g; told = refl }))
        λ start w₁ (_, _, a₁).
          and_then-Gives _ _ (greet_incumbent env (ticked w₁)) _
            (greet_incumbent-Gives start (told_of w.trace) (ticked w₁) (record {
              by = a₁.by;
              left = a₁.left;
              others = a₁.others;
              guard = a₁.guard;
              told = a₁.told;
            }))
            (λ _ w₂ (v, a₂).
              map-Gives _ _ (launch env spec (start + spec.deadline) (env.unix_ms w₁.tick) w₂)
                (launch-Commits (env.unix_ms w₁.tick) start
                  (hello_ack v env.handoff_id ∷ told_of w.trace) w₂ a₂)
                (λ _ _ e. (v, e)))

  -- Where every call succeeds and a reading of the clock costs `delay` at most: if the incumbent greets with
  -- a version in common, answers `Drained` within the drain grace and `SealComplete` for this handoff,
  -- the successor greets so with the pid of the child and answers `Ready` for this handoff, each with any number of
  -- heartbeats, progress reports and partial frames before it, and all this ends before the deadline with the
  -- wire slack, then `perform_handoff`, started with no other in flight, commits and passes the child to
  -- the caller, and has sent the incumbent `HelloAck`, `PrepareHandoff`, `SealRequest` and `Commit`
  -- of this handoff, once each and in this order.
  pub perform_handoff-commits :
      (w : World)
      → w.in_flight ≡ false
      → w.guard ≡ none
      → w.from_incumbent ≡ s.greeting ∷ (incumbent_left s)
      → w.from_successor ≡ s.successor_greeting ∷ (successor_left s)
      → ((perform_handoff env spec w).0 ≡ ok (committed_with env pid))
        × ((v left : ℕ) × (told_of (perform_handoff env spec w).1.trace
              ≡ commit env.handoff_id
                ∷ seal_request env.handoff_id
                ∷ prepare_handoff env.handoff_id pid left spec.drain_grace
                ∷ hello_ack v env.handoff_id
                ∷ told_of w.trace))
  unfolding perform_handoff
  perform_handoff-commits w free g fi fs =
      let (o, done, (v, (given, (left, t)))) =
        catch-Gives _ (drive env spec (record w { in_flight = true }))
          (drive-Commits (record w { in_flight = true }) fi fs g) in
      simp (free) (done ∙ ap ok given, (v, left, t))
