-- ===== src/Supervisor/Keeping.antt =====
-- crates/handoff/src/supervisor.rs: the calls that change neither the child nor the order of the trace.
use handoff.Prelude.{ℕ, Bool, true, false, List, if◌then◌else◌, arith}
use handoff.Error.{Result, ok, err}
use handoff.Fallible.{and_then, ◌>>=◌}
use handoff.Protocol.{
  HandoffId, Message, Side, incumbent, successor, begin, commit, resume_after_abort,
}
use handoff.State.{Phase}
use handoff.Supervisor.World.{
  Env, World, M, Reading, instant_now, now_unix_ms, configure_control_stream, write_frame,
  arm_recv_timeout, remaining_until, journal_set,
}
use handoff.Supervisor.Wire.{receive}
use handoff.Supervisor.Trace.{Keeps, Keeps-trans}

module _ (env : Env) (id : HandoffId) where
  and_then-Keeps {ℓ κ} :
      {A : Type ℓ} {B : Type κ} (w : World) (out : Result A × World) (f : A → M B)
      → Keeps id w out.1
      → ((a : A) (w' : World) → Keeps id w' (f a w').1)
      → Keeps id w (and_then out f).1
  and_then-Keeps w (ok a, w') f k h = Keeps-trans k (h a w')
  and_then-Keeps w (err e, w') f k h = k

  -- One call, then the rest.
  pub bind-Keeps {ℓ κ} :
      {A : Type ℓ} {B : Type κ} (m : M A) (f : A → M B)
      → ((w : World) → Keeps id w (m w).1)
      → ((a : A) (w : World) → Keeps id w (f a w).1)
      → (w : World) → Keeps id w ((m >>= f) w).1
  bind-Keeps m f hm hf w = and_then-Keeps w (m w) f (hm w) hf

  pub if-Keeps {ℓ} :
      {A : Type ℓ} (b : Bool) (m n : M A)
      → ((w : World) → Keeps id w (m w).1)
      → ((w : World) → Keeps id w (n w).1)
      → (w : World) → Keeps id w ((if b then m else n) w).1
  if-Keeps true m n hm hn = hm
  if-Keeps false m n hm hn = hn

  pub instant_now-Keeps : (w : World) → Keeps id w (instant_now env w).1
  unfolding instant_now
  instant_now-Keeps w = ground arith

  pub arm_recv_timeout-Keeps : (w : World) → Keeps id w (arm_recv_timeout env w).1
  unfolding arm_recv_timeout
  arm_recv_timeout-Keeps w = ground arith

  pub remaining_until-Keeps :
      (deadline : ℕ) (w : World) → Keeps id w (remaining_until env deadline w).1
  unfolding remaining_until instant_now
  remaining_until-Keeps deadline w = ground arith

  pub now_unix_ms-Keeps : (w : World) → Keeps id w (now_unix_ms env w).1
  unfolding now_unix_ms
  now_unix_ms-Keeps w = ground arith

  pub configure-Keeps : (w : World) → Keeps id w (configure_control_stream env w).1
  unfolding configure_control_stream
  configure-Keeps w = ground arith

  pub journal_set-Keeps :
      (phase : Phase) (pid started : ℕ) (w : World)
      → Keeps id w (journal_set env phase pid started w).1
  unfolding journal_set
  journal_set-Keeps phase pid started w = ground arith

  -- A frame that the order asks nothing of.
  abbrev pub IsFree : Side → Message → Type 0
  IsFree successor (begin _) = ⊥
  IsFree incumbent (commit _) = ⊥
  IsFree incumbent (resume_after_abort _) = ⊥
  IsFree _ _ = Unit

  pub write_frame-Keeps :
      (peer : Side) (m : Message)
      → IsFree peer m
      → (w : World) → Keeps id w (write_frame env peer m w).1
  unfolding write_frame
  write_frame-Keeps peer m free w = ground arith

  pub receive-Keeps :
      (peer : Side) (r : Reading) (rest : List Reading) (w : World)
      → Keeps id w (receive peer r rest w).1
  unfolding receive
  receive-Keeps peer r rest w = ground arith
