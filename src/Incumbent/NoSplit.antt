-- ===== src/Incumbent/NoSplit.antt =====
-- crates/handoff/src/incumbent.rs: over the whole of `serve`, the consumer's writer is open only
-- while the lock is held.
use handoff.Prelude.{ℕ, ◌≡◌, true, false, List, [], ◌∷◌, arith}
use handoff.Error.{Result, ok, err}
use handoff.Protocol.{hello, Side, proto_min, proto_max}
use handoff.Incumbent.World.{Env, World, is_held, write_frame, call_resume, sleep}
use handoff.Incumbent.Session.{SessionOutcome, committed, closed, read_ack, clean_up}
use handoff.Incumbent.Serve.{Accept, accepted, refused, ServeEnd}
use handoff.Incumbent.Quiet.{IsGuarded}
use handoff.Incumbent.Sessions.{IsIdle, LoopEnds}
use handoff.Incumbent.Writer.{Orderly}

-- Every session of the list is orderly behind its `HelloAck`.
abbrev pub AllOrderly : List Accept → Type 0
AllOrderly [] = Unit
AllOrderly (refused _ ∷ rest) = AllOrderly rest
AllOrderly (accepted c ∷ rest) = Orderly false (read_ack c.polls).1 × AllOrderly rest

module _ (env : Env) where
  pub clean_up-Guarded :
      (outcome : Result SessionOutcome) (w : World)
      → LoopEnds (outcome, w)
      → IsGuarded w
      → IsGuarded (clean_up env outcome w).1
  unfolding clean_up call_resume
  clean_up-Guarded (ok committed) w v g = ground arith
  clean_up-Guarded (ok closed) w v g = ground arith
  clean_up-Guarded (err e) w v g = ground arith

  pub hello-Guarded :
      (w : World)
      → IsGuarded w
      → IsGuarded
          (write_frame env proto_max
            (hello Side.incumbent env.me env.build_id proto_min proto_max 0)
            w).1
  unfolding write_frame
  hello-Guarded w g = ground arith

  pub resumed-Guarded :
      (w : World) → is_held w.lock ≡ true → IsGuarded w → IsGuarded (call_resume env w).1
  unfolding call_resume
  resumed-Guarded w h g = ground arith

  pub sleep-Guarded : (ms : ℕ) (w : World) → IsGuarded w → IsGuarded (sleep env ms w).1
  unfolding sleep
  sleep-Guarded ms w g = ((g.1, g.0), g.1)

  -- The loop, from an idle world.
  abbrev Continues : (World → ServeEnd × World) → Type 0
  Continues loop = (w : World) → IsIdle w → IsGuarded w → IsGuarded (loop w).1
