-- ===== src/Supervisor/Handoff.antt =====
-- crates/handoff/src/supervisor.rs: `perform_handoff`, in its phases.
use handoff.Prelude.{ℕ, ◌+◌, Bool, true, false, Option, none, some, String, ◌==◌, if◌then◌else◌}
use handoff.Error.{Result, ok, err, protocol, timeout, handoff_in_progress}
use handoff.Fallible.{◌>>=◌, ◌>>◌, pure, lift, catch}
use handoff.Protocol.{
  HandoffId, Message, incumbent, successor, prepare_handoff, drained, seal_request, begin, ready,
  commit, resume_after_abort, short_name,
}
use handoff.State.{negotiating, draining, sealing, awaiting_ready, committed, resuming_after_abort}
use handoff.Supervisor.World.{
  Env, World, M, wire_slack, instant_now, now_unix_ms, configure_control_stream, write_frame,
  remaining_until, spawn_successor, kill_and_reap, disarm, guarded, send_best_effort_abort,
  journal_set, journal_clear,
}
use handoff.Supervisor.Wire.{
  SealOutcome, sealed, failed, exchange_hello_as_supervisor, read_until, seal_loop,
}

-- The part of a `SpawnSpec` that the protocol reads; the child has `pid` as its `Child`.
pub record SpawnSpec : Type 0 where
  pub deadline : ℕ
  pub drain_grace : ℕ

pub record HandoffOutcome : Type 0 where
  pub handoff_id : HandoffId
  pub committed : Bool
  pub abort_reason : Option String
  pub child : Option ℕ

abbrev pub is_drained : Message → Bool
is_drained (drained _ _) = true
is_drained _ = false

abbrev pub is_ready : Message → Bool
is_ready (ready _ _ _ _) = true
is_ready _ = false

module _ (env : Env) where
  abbrev pub aborted : String → HandoffOutcome
  aborted reason = record {
    handoff_id = env.handoff_id;
    committed = false;
    abort_reason = some reason;
    child = none;
  }

  -- A `Ready` of another handoff is an error.
  abbrev pub check_ready : Result Message → Result Message
  check_ready (ok (ready id on h rev)) =
      if id == env.handoff_id
      then ok (ready id on h rev)
      else err (protocol (env.wrong_id id env.handoff_id))
  check_ready other = other

  abbrev pub abort_reason_of : Result Message → String
  abort_reason_of (ok m) = env.format "expected Ready, got {}" (short_name m)
  abort_reason_of (err (timeout s)) = env.format "ready phase timed out waiting for {}" s
  abort_reason_of (err e) = env.format "ready read failed: {}" (env.display e)

  module _ (pid started : ℕ) where
    -- The successor is ready: it is handed over before the incumbent is told.
    unfoldable pub commit_handoff : M HandoffOutcome
    commit_handoff = do
      child ← disarm env
      _ ← catch (write_frame env incumbent (commit env.handoff_id))
      _ ← catch (journal_set env committed pid started)
      journal_clear env
      pure (record {
        handoff_id = env.handoff_id;
        committed = true;
        abort_reason = none;
        child = child;
      })

    -- The incumbent is resumed once the successor is reaped.
    unfoldable pub abort_handoff : String → M HandoffOutcome
    abort_handoff reason = do
      send_best_effort_abort env reason
      kill_and_reap env
      write_frame env incumbent (resume_after_abort env.handoff_id)
      journal_set env resuming_after_abort pid started
      journal_clear env
      pure (aborted reason)

    unfoldable pub conclude : Result Message → M HandoffOutcome
    conclude (ok (ready id on h rev)) = commit_handoff
    conclude other = abort_handoff (abort_reason_of other)

    -- What the write of `Begin` returned.
    unfoldable pub await_ready : ℕ → Result (Unit {0}) → M (Result Message)
    await_ready total (err e) = pure (err e)
    await_ready total (ok _) = do
      journal_set env awaiting_ready pid started
      left ← remaining_until env total
      catch (read_until env successor (left + wire_slack) "Ready" is_ready)

    unfoldable pub begin_phase : ℕ → M HandoffOutcome
    begin_phase total = do
      written ← catch (write_frame env successor (begin env.handoff_id))
      answer ← await_ready total written
      conclude (check_ready answer)

    unfoldable pub after_seal : ℕ → SealOutcome → M HandoffOutcome
    after_seal total (failed error) = do
      let reason = env.format "seal failed: {}" error
      send_best_effort_abort env reason
      kill_and_reap env
      journal_clear env
      pure (aborted reason)
    after_seal total sealed = do journal_set env sealing pid started; begin_phase total

    unfoldable pub seal_phase : ℕ → M HandoffOutcome
    seal_phase total = do
      write_frame env incumbent (seal_request env.handoff_id)
      outcome ← (λ w. seal_loop env (total + wire_slack) w.from_incumbent w)
      after_seal total outcome

    unfoldable pub drain_phase : SpawnSpec → ℕ → M (Unit {0})
    drain_phase spec total = do
      _ ← instant_now env
      left ← remaining_until env total
      write_frame env incumbent (prepare_handoff env.handoff_id pid left spec.drain_grace)
      _ ← read_until env incumbent (spec.drain_grace + wire_slack) "Drained" is_drained
      journal_set env draining pid started

    -- The successor runs.
    unfoldable pub with_successor : SpawnSpec → ℕ → M HandoffOutcome
    with_successor spec total = do
      configure_control_stream env
      _ ← exchange_hello_as_supervisor env successor successor (some pid)
      journal_set env negotiating pid started
      drain_phase spec total
      seal_phase total

  -- Up to the spawn of the successor.
  unfoldable pub greet_incumbent : M (Unit {0})
  greet_incumbent = do
    lift env.connect
    configure_control_stream env
    _ ← exchange_hello_as_supervisor env incumbent incumbent none
    lift env.socketpair

  unfoldable pub launch : SpawnSpec → (total started : ℕ) → M HandoffOutcome
  launch spec total started = do
    pid ← spawn_successor env
    guarded (with_successor pid started spec total)

  unfoldable pub drive : SpawnSpec → M HandoffOutcome
  drive spec = do
    now ← instant_now env
    started ← now_unix_ms env
    greet_incumbent
    launch spec (now + spec.deadline) started

  abbrev pub unlocked : Result HandoffOutcome × World → Result HandoffOutcome × World
  unlocked (r, w) = (r, record w { in_flight = false })

  -- `in_flight.try_lock()`, whose guard is dropped at the end.
  unfoldable pub perform_handoff : SpawnSpec → M HandoffOutcome
  perform_handoff spec w =
      if w.in_flight
      then (err handoff_in_progress, w)
      else unlocked (drive spec (record w { in_flight = true }))
