-- ===== src/Supervisor/Once.antt =====
-- crates/handoff/src/supervisor.rs: a handoff asks for the seal at most once.
use handoff.Prelude.{ℕ, ◌+◌, ◌≤◌, true, Option, none, some, String, arith}
use handoff.Error.{Result, ok, err}
use handoff.Fallible.{pure, lift, catch}
use handoff.Protocol.{
  Message, incumbent, successor, seal_request, prepare_handoff, begin, commit, ready,
  resume_after_abort,
}
use handoff.State.{negotiating, draining, sealing, awaiting_ready, committed, resuming_after_abort}
use handoff.Supervisor.World.{
  Env, World, wire_slack, instant_now, now_unix_ms, configure_control_stream, write_frame,
  remaining_until, spawn_successor, kill_and_reap, disarm, send_best_effort_abort, journal_set,
  journal_clear,
}
use handoff.Supervisor.Wire.{
  SealOutcome, sealed, failed, exchange_hello_as_supervisor, read_until, seal_loop,
}
use handoff.Supervisor.Handoff.{
  SpawnSpec, HandoffOutcome, is_drained, is_ready, commit_handoff, abort_handoff, conclude,
  await_ready, begin_phase, after_seal, seal_phase, drain_phase, with_successor, greet_incumbent,
  launch, drive, perform_handoff, check_ready, abort_reason_of,
}
use handoff.Supervisor.Asks.{
  asked, AtMost, IsSilent, bind-AtMost, then-AtMost, bind-IsSilent, same-IsSilent, now-IsSilent,
  unix-IsSilent, configure-IsSilent, left-IsSilent, journal_set-IsSilent, journal_clear-IsSilent,
  drop_guard-asked, kill-IsSilent, disarm-IsSilent, write-IsSilent, seal_request-AtMost,
  abort-IsSilent, spawn-IsSilent,
}
use handoff.Supervisor.Silence.{
  catch-IsSilent, exchange_hello-IsSilent, read_until-IsSilent, seal_loop-IsSilent,
}

module _ (env : Env) where
  abbrev committed_with : Option ℕ → HandoffOutcome
  committed_with child = record {
    handoff_id = env.handoff_id;
    committed = true;
    abort_reason = none;
    child = child;
  }

  module _ (pid started : ℕ) where
    commit_handoff-IsSilent : IsSilent (commit_handoff env pid started)
    unfolding commit_handoff
    commit_handoff-IsSilent = bind-IsSilent (disarm env) _ (disarm-IsSilent env) (λ child.
        bind-IsSilent (catch (write_frame env incumbent (commit env.handoff_id))) _
          (catch-IsSilent env (write_frame env incumbent (commit env.handoff_id))
            (write-IsSilent env incumbent (commit env.handoff_id) tt))
          (λ _.
            bind-IsSilent (catch (journal_set env committed pid started)) _
              (catch-IsSilent env (journal_set env committed pid started)
                (journal_set-IsSilent env committed pid started))
              (λ _.
                bind-IsSilent (journal_clear env) (λ _. pure (committed_with child))
                  (journal_clear-IsSilent env) (λ _. same-IsSilent (ok (committed_with child))))))

    abort_handoff-IsSilent : (reason : String) → IsSilent (abort_handoff env pid started reason)
    unfolding abort_handoff
    abort_handoff-IsSilent reason =
        bind-IsSilent (send_best_effort_abort env reason) _ (abort-IsSilent env reason) (λ _.
          bind-IsSilent (kill_and_reap env) _ (kill-IsSilent env) (λ _.
            bind-IsSilent (write_frame env incumbent (resume_after_abort env.handoff_id)) _
              (write-IsSilent env incumbent (resume_after_abort env.handoff_id) tt)
              (λ _.
                bind-IsSilent (journal_set env resuming_after_abort pid started) _
                  (journal_set-IsSilent env resuming_after_abort pid started)
                  (λ _.
                    bind-IsSilent (journal_clear env) _ (journal_clear-IsSilent env)
                      (λ _. same-IsSilent _)))))

    conclude-IsSilent : (answer : Result Message) → IsSilent (conclude env pid started answer)
    unfolding conclude
    conclude-IsSilent (ok (ready id on h rev)) = commit_handoff-IsSilent
    conclude-IsSilent (ok m) = abort_handoff-IsSilent (abort_reason_of env (ok m))
    conclude-IsSilent (err e) = abort_handoff-IsSilent (abort_reason_of env (err e))

    await_ready-IsSilent :
        (total : ℕ) (written : Result (Unit {0}))
        → IsSilent (await_ready env pid started total written)
    unfolding await_ready
    await_ready-IsSilent total (err e) = same-IsSilent _
    await_ready-IsSilent total (ok _) =
        bind-IsSilent (journal_set env awaiting_ready pid started) _
          (journal_set-IsSilent env awaiting_ready pid started)
          (λ _. bind-IsSilent (remaining_until env total) _ (left-IsSilent env total) (λ left.
            catch-IsSilent env (read_until env successor (left + wire_slack) "Ready" is_ready)
              (read_until-IsSilent env successor (left + wire_slack) "Ready" is_ready)))

    begin_phase-IsSilent : (total : ℕ) → IsSilent (begin_phase env pid started total)
    unfolding begin_phase
    begin_phase-IsSilent total =
        bind-IsSilent (catch (write_frame env successor (begin env.handoff_id))) _
          (catch-IsSilent env (write_frame env successor (begin env.handoff_id))
            (write-IsSilent env successor (begin env.handoff_id) tt))
          (λ written.
            bind-IsSilent (await_ready env pid started total written) _
              (await_ready-IsSilent total written)
              (λ answer. conclude-IsSilent (check_ready env answer)))

    after_seal-IsSilent :
        (total : ℕ) (o : SealOutcome) → IsSilent (after_seal env pid started total o)
    unfolding after_seal
    after_seal-IsSilent total (failed error) =
        bind-IsSilent (send_best_effort_abort env (env.format "seal failed: {}" error)) _
          (abort-IsSilent env (env.format "seal failed: {}" error))
          (λ _. bind-IsSilent (kill_and_reap env) _ (kill-IsSilent env) (λ _.
            bind-IsSilent (journal_clear env) _ (journal_clear-IsSilent env)
              (λ _. same-IsSilent _)))
    after_seal-IsSilent total sealed =
        bind-IsSilent (journal_set env sealing pid started) _
          (journal_set-IsSilent env sealing pid started) (λ _. begin_phase-IsSilent total)

    -- The request, then silence.
    seal_phase-AtMost : (total : ℕ) → AtMost 1 (seal_phase env pid started total)
    unfolding seal_phase
    seal_phase-AtMost total =
        then-AtMost (write_frame env incumbent (seal_request env.handoff_id)) _
          (seal_request-AtMost env env.handoff_id)
          (λ _.
            bind-IsSilent (λ w. seal_loop env (total + wire_slack) w.from_incumbent w) _
              (record {
                silent =
                    λ w. (seal_loop-IsSilent env (total + wire_slack) w.from_incumbent).silent w;
              })
              (after_seal-IsSilent total))

    drain_phase-IsSilent :
        (spec : SpawnSpec) (total : ℕ) → IsSilent (drain_phase env pid started spec total)
    unfolding drain_phase
    drain_phase-IsSilent spec total = bind-IsSilent (instant_now env) _ (now-IsSilent env) (λ _.
        bind-IsSilent (remaining_until env total) _ (left-IsSilent env total) (λ left.
          bind-IsSilent
            (write_frame env incumbent (prepare_handoff env.handoff_id pid left spec.drain_grace)) _
            (write-IsSilent env incumbent (prepare_handoff env.handoff_id pid left spec.drain_grace)
              tt)
            (λ _.
              bind-IsSilent
                (read_until env incumbent (spec.drain_grace + wire_slack) "Drained" is_drained) _
                (read_until-IsSilent env incumbent (spec.drain_grace + wire_slack) "Drained"
                  is_drained)
                (λ _. journal_set-IsSilent env draining pid started))))

    with_successor-AtMost :
        (spec : SpawnSpec) (total : ℕ) → AtMost 1 (with_successor env pid started spec total)
    unfolding with_successor
    with_successor-AtMost spec total =
        bind-AtMost 1 (configure_control_stream env) _ (configure-IsSilent env) (λ _.
          bind-AtMost 1 (exchange_hello_as_supervisor env successor successor (some pid)) _
            (exchange_hello-IsSilent env successor successor (some pid))
            (λ _.
              bind-AtMost 1 (journal_set env negotiating pid started) _
                (journal_set-IsSilent env negotiating pid started)
                (λ _.
                  bind-AtMost 1 (drain_phase env pid started spec total) _
                    (drain_phase-IsSilent spec total) (λ _. seal_phase-AtMost total))))

  greet_incumbent-IsSilent : IsSilent (greet_incumbent env)
  unfolding greet_incumbent
  greet_incumbent-IsSilent = bind-IsSilent (lift env.connect) _ (same-IsSilent env.connect) (λ _.
      bind-IsSilent (configure_control_stream env) _ (configure-IsSilent env) (λ _.
        bind-IsSilent (exchange_hello_as_supervisor env incumbent incumbent none) _
          (exchange_hello-IsSilent env incumbent incumbent none)
          (λ _. same-IsSilent env.socketpair)))

  launch-AtMost : (spec : SpawnSpec) (total started : ℕ) → AtMost 1 (launch env spec total started)
  unfolding launch
  launch-AtMost spec total started =
      bind-AtMost 1 (spawn_successor env) _ (spawn-IsSilent env) (λ pid. record {
        bounded = λ w. omega (
          arith,
          drop_guard-asked env (with_successor env pid started spec total w).1,
          (with_successor-AtMost pid started spec total).bounded w,
        );
      })

  drive-AtMost : (spec : SpawnSpec) → AtMost 1 (drive env spec)
  unfolding drive
  drive-AtMost spec = bind-AtMost 1 (instant_now env) _ (now-IsSilent env) (λ now.
      bind-AtMost 1 (now_unix_ms env) _ (unix-IsSilent env) (λ started.
        bind-AtMost 1 (greet_incumbent env) _ greet_incumbent-IsSilent
          (λ _. launch-AtMost spec (now + spec.deadline) started)))

  -- For every answer of the two processes, the operating system and the clock, and from every state: one
  -- `perform_handoff` sends the incumbent at most one `SealRequest`.
  pub perform_handoff-asked :
      (spec : SpawnSpec) (w : World)
      → asked (perform_handoff env spec w).1.trace ≤ 1 + asked w.trace
  unfolding perform_handoff
  perform_handoff-asked spec w =
      ground (arith, (drive-AtMost spec).bounded (record w { in_flight = true }))
