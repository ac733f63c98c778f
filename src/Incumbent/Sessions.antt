-- ===== src/Incumbent/Sessions.antt =====
-- crates/handoff/src/incumbent.rs: one session, from a process that holds the lock and owes no resume.
use handoff.Prelude.{◌≡◌, true, false, List, [], ◌∷◌, Option, none, some, arith}
use handoff.Error.{Result, ok, err, Error, io}
use handoff.Protocol.{ProtoVersion, Message, hello, Side, proto_min, proto_max}
use handoff.Incumbent.World.{
  Env, World, M, and_then, is_held, write_frame, set_read_timeout, call_resume, default,
}
use handoff.Incumbent.Session.{
  Poll, SessionOutcome, committed, closed, on_read_error, next_round, run_session_loop, read_ack,
  chosen_version, clean_up, run_session, with_ack, await_ack, handle_session, handle,
}
use handoff.Incumbent.Quiet.{owed, IsOrdered}
use handoff.Incumbent.Handlers.{Inv, Stopped, Handled, handle-Handled}

-- Where the accept loop waits for a connection.
pub record IsIdle (w : World) : Type 0 where
  pub settled : owed w.trace ≡ false
  pub has_lock : is_held w.lock ≡ true
  pub ordered : IsOrdered w.trace

-- A session starts with neither flag set.
pub default-Inv : (w : World) → IsIdle w → Inv (record w { session = default })
default-Inv w v = record {
  pays = λ o. absurd (ground arith);
  holds = v.has_lock;
  ordered = v.ordered;
}

-- How the message loop ends.
abbrev pub LoopEnds : Result SessionOutcome × World → Type 0
LoopEnds (ok committed, w) = Inv w × (w.session.sealed ≡ true)
LoopEnds (ok closed, w) = Inv w × (w.session.sealed ≡ false)
LoopEnds (err _, w) = Stopped w

-- How a session ends.
abbrev pub SessionEnds : Result SessionOutcome × World → Type 0
SessionEnds (ok committed, w) = (is_held w.lock ≡ false) × IsOrdered w.trace
SessionEnds (ok closed, w) = IsIdle w
SessionEnds (err _, w) = (owed w.trace ≡ true → is_held w.lock ≡ false) × IsOrdered w.trace

module _ (env : Env) (chosen : ProtoVersion) where
  pub on_read_error-LoopEnds :
      (e : Error) (w : World) → Inv w → LoopEnds (on_read_error env chosen e w)
  unfolding on_read_error
  on_read_error-LoopEnds (io e) w v = ground arith
  on_read_error-LoopEnds e w v = ground arith

  next_round-LoopEnds :
      (loop : M SessionOutcome)
      → ((w : World) → Inv w → LoopEnds (loop w))
      → (out : Result (Option SessionOutcome) × World) → Handled out
      → LoopEnds (next_round loop out)
  next_round-LoopEnds loop h (err e, w) v = v
  next_round-LoopEnds loop h (ok none, w) v = h w v
  next_round-LoopEnds loop h (ok (some committed), w) v = v
  next_round-LoopEnds loop h (ok (some closed), w) v = absurd v

  pub run_session_loop-LoopEnds :
      (ps : List Poll) (w : World) → Inv w → LoopEnds (run_session_loop env chosen ps w)
  unfolding run_session_loop
  run_session_loop-LoopEnds [] w v = on_read_error-LoopEnds _ w v
  run_session_loop-LoopEnds (err e ∷ ps) w v = on_read_error-LoopEnds e w v
  run_session_loop-LoopEnds (ok none ∷ ps) w v = run_session_loop-LoopEnds ps w v
  run_session_loop-LoopEnds (ok (some (_, m)) ∷ ps) w v =
      next_round-LoopEnds (run_session_loop env chosen ps) (run_session_loop-LoopEnds ps)
        (handle env chosen m w) (handle-Handled env chosen m w v)

module _ (env : Env) where
  pub clean_up-SessionEnds :
      (outcome : Result SessionOutcome) (w : World)
      → LoopEnds (outcome, w)
      → SessionEnds (clean_up env outcome w)
  unfolding clean_up call_resume
  clean_up-SessionEnds (ok committed) w v = ground arith
  clean_up-SessionEnds (ok closed) w v = ground arith
  clean_up-SessionEnds (err e) w v = ground arith

  -- A call before the loop, which leaves the process as idle as it was.
  idle_then {ℓ} :
      {A : Type ℓ} (out : Result A × World) (f : A → M SessionOutcome)
      → IsIdle out.1
      → ((a : A) (w : World) → IsIdle w → SessionEnds (f a w))
      → SessionEnds (and_then out f)
  idle_then (ok a, w) f v next = next a w v
  idle_then (err e, w) f v next = ((λ o. absurd (ground arith)), v.ordered)

  pub hello-IsIdle :
      (w : World)
      → IsIdle w
      → IsIdle
          (write_frame env proto_max
            (hello Side.incumbent env.me env.build_id proto_min proto_max 0)
            w).1
  unfolding write_frame
  hello-IsIdle w v = ground arith

  pub timeout-IsIdle : (w : World) → IsIdle w → IsIdle (set_read_timeout env w).1
  unfolding set_read_timeout
  timeout-IsIdle w v = record { settled = v.settled; has_lock = v.has_lock; ordered = v.ordered }

  run_session-SessionEnds :
      (polls : List Poll) (chosen : ProtoVersion) (w : World)
      → IsIdle w
      → SessionEnds (run_session env polls chosen w)
  unfolding run_session
  run_session-SessionEnds polls chosen w v = clean_up-SessionEnds _ _ (
      run_session_loop-LoopEnds env chosen polls (record w { session = default }) (default-Inv w v))

  with_ack-SessionEnds :
      (polls : List Poll) (ack : Message) (w : World)
      → IsIdle w
      → SessionEnds (with_ack env polls ack w)
  unfolding with_ack
  with_ack-SessionEnds polls ack w v =
      idle_then (chosen_version ack, w) (run_session env polls) v (run_session-SessionEnds polls)

  await_ack-SessionEnds :
      (polls : List Poll) (w : World) → IsIdle w → SessionEnds (await_ack env polls w)
  unfolding await_ack
  await_ack-SessionEnds polls w v =
      idle_then (set_read_timeout env w)
        (λ _ w₁. and_then ((read_ack polls).0, w₁) (with_ack env (read_ack polls).1))
        (timeout-IsIdle w v)
        λ _ w₁ v₁.
          idle_then ((read_ack polls).0, w₁) (with_ack env (read_ack polls).1) v₁
            (with_ack-SessionEnds (read_ack polls).1)

  -- For every answer of the environment and every sequence of reads, a session that starts idle
  -- ends in one of three ways: committed, with the lock released; closed, and idle again; or with
  -- an error, and then no drain waits for its `resume_after_abort` unless the lock is released.
  -- In each the trace stays in order: the lock is released straight after a successful `seal`
  -- only, and `SealComplete` is sent only with the lock released and the consumer's writer
  -- closed.
  pub handle_session-SessionEnds :
      (polls : List Poll) (w : World) → IsIdle w → SessionEnds (handle_session env polls w)
  unfolding handle_session
  handle_session-SessionEnds polls w v =
      idle_then
        (write_frame env proto_max (hello Side.incumbent env.me env.build_id proto_min proto_max 0)
          w)
        (λ _. await_ack env polls) (hello-IsIdle w v) (λ _. await_ack-SessionEnds polls)
