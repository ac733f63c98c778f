-- ===== src/Supervisor/Asks.antt =====
-- crates/handoff/src/supervisor.rs: how often a handoff asks for the seal.
use handoff.Prelude.{
  ℕ, suc, ◌+◌, ◌≤◌, ◌≡◌, Bool, true, false, List, [], ◌∷◌, String, if◌then◌else◌, arith,
}
use handoff.Error.{Result, ok, err}
use handoff.Fallible.{and_then, ◌>>=◌, lift}
use handoff.Protocol.{Message, Side, incumbent, seal_request, HandoffId}
use handoff.State.{Phase}
use handoff.Supervisor.World.{
  Env, World, M, Reading, Event, sent, instant_now, now_unix_ms, configure_control_stream,
  write_frame, arm_recv_timeout, remaining_until, spawn_successor, kill_and_reap, disarm,
  drop_guard, send_best_effort_abort, journal_set, journal_clear,
}
use handoff.Supervisor.Wire.{receive, poll_read}

-- The requests for a seal that the incumbent has been sent.
abbrev pub asked : List Event → ℕ
asked [] = 0
asked (sent incumbent (seal_request _) ∷ t) = suc (asked t)
asked (_ ∷ t) = asked t

pub record AtMost {ℓ} {A : Type ℓ} (n : ℕ) (m : M A) : Type 0 where
  pub bounded : (w : World) → asked (m w).1.trace ≤ n + asked w.trace

-- A call without a request.
pub record IsSilent {ℓ} {A : Type ℓ} (m : M A) : Type 0 where
  pub silent : (w : World) → asked (m w).1.trace ≤ asked w.trace

pub and_then-asked {ℓ κ} :
    {A : Type ℓ} {B : Type κ} (bound n : ℕ) (out : Result A × World) (f : A → M B)
    → asked out.1.trace ≤ bound
    → ((a : A) → AtMost n (f a))
    → asked (and_then out f).1.trace ≤ n + bound
and_then-asked bound n (ok a, w) f h k = omega (arith, (k a).bounded w)
and_then-asked bound n (err e, w) f h k = omega arith

pub bind-AtMost {ℓ κ} :
    {A : Type ℓ} {B : Type κ} (n : ℕ) (m : M A) (f : A → M B)
    → IsSilent m
    → ((a : A) → AtMost n (f a))
    → AtMost n (m >>= f)
bind-AtMost n m f h k = record {
  bounded = λ w. and_then-asked (asked w.trace) n (m w) f (h.silent w) k;
}

pub bind-IsSilent {ℓ κ} :
    {A : Type ℓ} {B : Type κ} (m : M A) (f : A → M B)
    → IsSilent m
    → ((a : A) → IsSilent (f a))
    → IsSilent (m >>= f)
bind-IsSilent m f h k = record {
  silent = λ w. omega (
    arith,
    and_then-asked (asked w.trace) 0 (m w) f (h.silent w)
        (λ a. record { bounded = λ w'. omega (arith, (k a).silent w') }),
  );
}

-- The request comes first.
pub then-AtMost {ℓ κ} :
    {A : Type ℓ} {B : Type κ} (m : M A) (f : A → M B)
    → AtMost 1 m
    → ((a : A) → IsSilent (f a))
    → AtMost 1 (m >>= f)
then-AtMost m f h k = record {
  bounded = λ w. omega (
    arith,
    and_then-asked (1 + asked w.trace) 0 (m w) f (h.bounded w)
        (λ a. record { bounded = λ w'. omega (arith, (k a).silent w') }),
  );
}

pub if-IsSilent {ℓ} :
    {A : Type ℓ} (b : Bool) (m n : M A) → IsSilent m → IsSilent n → IsSilent (if b then m else n)
if-IsSilent true m n h k = h
if-IsSilent false m n h k = k

pub same-IsSilent {ℓ} : {A : Type ℓ} (r : Result A) → IsSilent (lift r)
same-IsSilent r = record { silent = λ w. omega arith }

module _ (env : Env) where
  pub now-IsSilent : IsSilent (instant_now env)
  unfolding instant_now
  now-IsSilent = record { silent = λ w. omega arith }

  pub unix-IsSilent : IsSilent (now_unix_ms env)
  unfolding now_unix_ms
  unix-IsSilent = record { silent = λ w. omega arith }

  pub configure-IsSilent : IsSilent (configure_control_stream env)
  unfolding configure_control_stream
  configure-IsSilent = record { silent = λ w. omega arith }

  pub arm-IsSilent : IsSilent (arm_recv_timeout env)
  unfolding arm_recv_timeout
  arm-IsSilent = record { silent = λ w. omega arith }

  pub left-IsSilent : (deadline : ℕ) → IsSilent (remaining_until env deadline)
  unfolding remaining_until instant_now
  left-IsSilent deadline = record { silent = λ w. omega arith }

  pub journal_set-IsSilent :
      (phase : Phase) (pid started : ℕ) → IsSilent (journal_set env phase pid started)
  unfolding journal_set
  journal_set-IsSilent phase pid started = record { silent = λ w. ground arith }

  pub journal_clear-IsSilent : IsSilent (journal_clear env)
  unfolding journal_clear
  journal_clear-IsSilent = record { silent = λ w. ground arith }

  pub drop_guard-asked : (w : World) → asked (drop_guard w).trace ≡ asked w.trace
  drop_guard-asked w = ground arith

  pub kill-IsSilent : IsSilent (kill_and_reap env)
  unfolding kill_and_reap
  kill-IsSilent = record { silent = λ w. omega (arith, drop_guard-asked w) }

  pub disarm-IsSilent : IsSilent (disarm env)
  unfolding disarm
  disarm-IsSilent = record { silent = λ w. ground arith }

  -- Any other frame.
  abbrev pub IsOther : Message → Type 0
  IsOther (seal_request _) = ⊥
  IsOther _ = Unit

  pub write-IsSilent : (peer : Side) (m : Message) → IsOther m → IsSilent (write_frame env peer m)
  unfolding write_frame
  write-IsSilent peer m o = record { silent = λ w. ground arith }

  pub seal_request-AtMost :
      (id : HandoffId) → AtMost 1 (write_frame env incumbent (seal_request id))
  unfolding write_frame
  seal_request-AtMost id = record { bounded = λ w. ground arith }

  pub receive-IsSilent :
      (peer : Side) (r : Reading) (rest : List Reading) → IsSilent (receive peer r rest)
  unfolding receive
  receive-IsSilent peer r rest = record { silent = λ w. ground arith }

  pub poll_read-IsSilent : (peer : Side) → IsSilent (poll_read peer)
  unfolding poll_read
  poll_read-IsSilent peer = record { silent = λ w. ground arith }

  pub abort-IsSilent : (reason : String) → IsSilent (send_best_effort_abort env reason)
  unfolding send_best_effort_abort write_frame
  abort-IsSilent reason = record { silent = λ w. ground arith }

  pub spawn-IsSilent : IsSilent (spawn_successor env)
  unfolding spawn_successor
  spawn-IsSilent = record { silent = λ w. ground arith }
