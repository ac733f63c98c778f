-- ===== src/Supervisor/Phases.antt =====
-- crates/handoff/src/supervisor.rs: the phases of a handoff between healthy processes, each of which ends in time.
use handoff.Prelude.{
  ℕ, ◌+◌, ◌*◌, ◌-◌, ◌<◌, ◌≤◌, max, ◌≡◌, refl, ap, ◌∙◌, String, Bool, some, List, ◌∷◌, ◌++◌,
  eqb-same, arith,
}
use handoff.Error.{Result, ok}
use handoff.Fallible.{map-Gives, Gives, and_then-Gives, catch-Gives}
use handoff.Protocol.{
  Message, incumbent, successor, prepare_handoff, seal_request, seal_complete, begin, ready,
  drained,
}
use handoff.State.{draining, sealing, awaiting_ready}
use handoff.Supervisor.World.{
  Env, World, Reading, wire_slack, min_read_timeout, instant_now, write_frame, remaining_until,
  journal_set,
}
use handoff.Supervisor.Wire.{sealed, read_until, seal_loop}
use handoff.Supervisor.Handoff.{
  SpawnSpec, HandoffOutcome, await_ready, begin_phase, after_seal, seal_phase, drain_phase,
  is_drained, is_ready,
}
use handoff.Supervisor.Healthy.{
  IsHealthy, AllAlive, cost, Kept, told_of, At, instant_now-Gives, write_frame-Gives,
  journal_set-Gives,
}
use handoff.Supervisor.Awaits.{read_until-Gives, seal_loop-Gives}
use handoff.Supervisor.Script.{Concludes, flip-At, conclude-Gives}

module _ (env : Env) (pid delay : ℕ) (healthy : IsHealthy env pid delay) where
  -- The handoff has committed.
  abbrev pub Commits : List Message → Result HandoffOutcome × World → Type 0
  Commits told out = Gives (Concludes env pid delay healthy told) out

  -- The child is owned, and the incumbent has been told so much.
  abbrev pub tending : List Message → Kept
  tending told = record { owned = some pid; told = told }

  remaining_until-Gives :
      (limit deadline : ℕ) (mine theirs : List Reading) (kept : Kept) (w : World)
      → At limit incumbent mine theirs kept w
      → Gives
          (λ span w'.
            (now : ℕ) × (now ≤ limit + delay)
            × (span ≡ max (deadline - now) min_read_timeout)
            × At now incumbent mine theirs kept w')
          (remaining_until env deadline w)
  unfolding remaining_until
  remaining_until-Gives limit deadline mine theirs kept w v =
      and_then-Gives _ _ (instant_now env w) _
        (instant_now-Gives env pid delay healthy incumbent theirs kept limit mine w v)
        (λ now w₁ (soon, _, v₁). (now, soon, refl, v₁))

  module _ (started total : ℕ) (mine rest noise : List Reading) (r : Reading)
      (told : List Message) where
    -- The wait for `Ready`.
    await_ready-Gives :
        (v : ℕ) (on : List String) (h : Bool) (rev : List ℕ) (limit : ℕ) (w : World)
        → r.polled ≡ ok (some (v, ready env.handoff_id on h rev))
        → AllAlive noise
        → At limit incumbent mine (noise ++ (r ∷ rest)) (tending told) w
        → limit + cost delay noise + 2 * delay < total + wire_slack
        → Gives
            (λ answer w'.
              (answer ≡ ok (ready env.handoff_id on h rev))
              × (w'.guard ≡ some pid)
              × (told_of w'.trace ≡ told))
            (await_ready env pid started total (ok tt) w)
    unfolding await_ready
    await_ready-Gives v on h rev limit w e a at early =
        and_then-Gives _ _ (journal_set env awaiting_ready pid started w) _
          (journal_set-Gives env pid delay healthy incumbent (noise ++ (r ∷ rest)) (tending told)
            limit mine awaiting_ready pid started w at)
          λ _ w₁ a₁.
            and_then-Gives _ _ (remaining_until env total w₁) _
              (remaining_until-Gives limit total mine (noise ++ (r ∷ rest)) (tending told) w₁ a₁)
              λ span w₂ (now, soon, wide, a₂).
                let (m', same, (given, a₃)) =
                  catch-Gives _ (read_until env successor (span + wire_slack) "Ready" is_ready w₂) (
                    read_until-Gives env pid delay healthy successor mine (tending told) rest
                      "Ready" is_ready r (ready env.handoff_id on h rev) (λ go. rw e refl)
                      (span + wire_slack) (now + delay + cost delay noise + delay + r.took) noise
                      now w₂ a
                      (flip-At now incumbent mine (noise ++ (r ∷ rest)) (tending told) w₂ a₂)
                      (omega arith) (omega arith)) in
                (same ∙ ap ok given, a₃.guard, a₃.told)

    begin_phase-Commits :
        (v : ℕ) (on : List String) (h : Bool) (rev : List ℕ) (limit : ℕ) (w : World)
        → r.polled ≡ ok (some (v, ready env.handoff_id on h rev))
        → AllAlive noise
        → At limit incumbent mine (noise ++ (r ∷ rest)) (tending told) w
        → limit + cost delay noise + 2 * delay < total + wire_slack
        → Commits told (begin_phase env pid started total w)
    unfolding begin_phase
    begin_phase-Commits v on h rev limit w e a at early =
        let (_, sent, a₁) = catch-Gives _ (write_frame env successor (begin env.handoff_id) w) (
          write_frame-Gives env pid delay healthy incumbent (noise ++ (r ∷ rest)) (tending told)
            limit mine successor (begin env.handoff_id) w at) in
        rw sent (
          and_then-Gives _ _
            (await_ready env pid started total (ok tt)
              (write_frame env successor (begin env.handoff_id) w).1)
            _
            (await_ready-Gives v on h rev limit
              (write_frame env successor (begin env.handoff_id) w).1 e a a₁ early)
            (λ answer w' (given, g, t). rw given (
              conclude-Gives env pid delay healthy started told (ready env.handoff_id on h rev) w'
                (on, h, rev, refl) g t)))

  pub seal_phase-Commits :
      (started total : ℕ) (rest ready_rest before while_sealing : List Reading) (s r : Reading)
      (v u : ℕ) (rev fp : List ℕ) (on : List String) (h : Bool) (advertised : List ℕ) (limit : ℕ)
      (told : List Message) (w : World)
      → s.polled ≡ ok (some (v, seal_complete env.handoff_id rev fp))
      → r.polled ≡ ok (some (u, ready env.handoff_id on h advertised))
      → AllAlive while_sealing
      → AllAlive before
      → At limit incumbent
          (while_sealing ++ (s ∷ rest))
          (before ++ (r ∷ ready_rest))
          (tending told)
          w
      → limit + cost delay while_sealing + s.took + cost delay before + 3 * delay
        < total + wire_slack
      → Commits (seal_request env.handoff_id ∷ told) (seal_phase env pid started total w)
  unfolding seal_phase after_seal
  seal_phase-Commits started total rest ready_rest before while_sealing s r v u rev fp on h
        advertised limit told w e f a b at early =
      and_then-Gives _ _ (write_frame env incumbent (seal_request env.handoff_id) w) _
        (write_frame-Gives env pid delay healthy incumbent (before ++ (r ∷ ready_rest))
          (tending told) limit (while_sealing ++ (s ∷ rest)) incumbent (seal_request env.handoff_id)
          w at)
        λ _ w₁ a₁.
          and_then-Gives
            (λ o w'.
              (o ≡ sealed)
              × At (limit + cost delay while_sealing + delay + s.took) incumbent rest
                  (before ++ (r ∷ ready_rest)) (tending (seal_request env.handoff_id ∷ told)) w')
            _ (seal_loop env (total + wire_slack) w₁.from_incumbent w₁) _
            (simp (a₁.left) (
              seal_loop-Gives env pid delay healthy incumbent (before ++ (r ∷ ready_rest))
                (tending (seal_request env.handoff_id ∷ told)) rest s sealed
                (λ go. rw (e, eqb-same env.handoff_id) refl) (total + wire_slack)
                (limit + cost delay while_sealing + delay + s.took) while_sealing limit w₁ a a₁
                (omega arith) (omega arith)))
            λ o w₂ (done, a₂). rw done (
              and_then-Gives _ _ (journal_set env sealing pid started w₂) _
                (journal_set-Gives env pid delay healthy incumbent (before ++ (r ∷ ready_rest))
                  (tending (seal_request env.handoff_id ∷ told))
                  (limit + cost delay while_sealing + delay + s.took) rest sealing pid started w₂
                  a₂)
                λ _ w₃ a₃.
                  begin_phase-Commits started total rest ready_rest before r
                    (seal_request env.handoff_id ∷ told) u on h advertised
                    (limit + cost delay while_sealing + delay + s.took) w₃ f b a₃ (omega arith))

  pub drain_phase-Gives :
      (started total : ℕ) (spec : SpawnSpec) (rest theirs noise : List Reading) (r : Reading)
      (v n : ℕ) (closed : Bool) (limit : ℕ) (told : List Message) (w : World)
      → r.polled ≡ ok (some (v, drained n closed))
      → AllAlive noise
      → At limit incumbent (noise ++ (r ∷ rest)) theirs (tending told) w
      → cost delay noise + delay < spec.drain_grace + wire_slack
      → Gives
          (λ _ w'.
            (left : ℕ) × At
              (limit + cost delay noise + r.took + 4 * delay)
              incumbent
              rest
              theirs
              (tending (prepare_handoff env.handoff_id pid left spec.drain_grace ∷ told))
              w')
          (drain_phase env pid started spec total w)
  unfolding drain_phase
  drain_phase-Gives started total spec rest theirs noise r v n closed limit told w e a at early =
      and_then-Gives _ _ (instant_now env w) _
        (instant_now-Gives env pid delay healthy incumbent theirs (tending told) limit
          (noise ++ (r ∷ rest)) w at)
        λ now w₁ (soon, _, a₁).
          and_then-Gives _ _ (remaining_until env total w₁) _
            (remaining_until-Gives now total (noise ++ (r ∷ rest)) theirs (tending told) w₁ a₁)
            λ left w₂ (later, soon', _, a₂).
              and_then-Gives _ _
                (write_frame env incumbent
                  (prepare_handoff env.handoff_id pid left spec.drain_grace) w₂)
                _
                (write_frame-Gives env pid delay healthy incumbent theirs (tending told) later
                  (noise ++ (r ∷ rest)) incumbent
                  (prepare_handoff env.handoff_id pid left spec.drain_grace) w₂ a₂)
                λ _ w₃ a₃.
                  and_then-Gives _ _
                    (read_until env incumbent (spec.drain_grace + wire_slack) "Drained" is_drained
                      w₃)
                    _
                    (read_until-Gives env pid delay healthy incumbent theirs
                      (tending (prepare_handoff env.handoff_id pid left spec.drain_grace ∷ told))
                      rest "Drained" is_drained r (drained n closed) (λ go. rw e refl)
                      (spec.drain_grace + wire_slack)
                      (limit + cost delay noise + r.took + 4 * delay) noise later w₃ a a₃ early
                      (omega arith))
                    λ _ w₄ (_, a₄).
                      map-Gives _ _ (journal_set env draining pid started w₄)
                        (journal_set-Gives env pid delay healthy incumbent theirs
                          (tending
                            (prepare_handoff env.handoff_id pid left spec.drain_grace ∷ told))
                          (limit + cost delay noise + r.took + 4 * delay) rest draining pid started
                          w₄ a₄)
                        (λ _ _ a₅. (left, a₅))
