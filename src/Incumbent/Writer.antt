-- ===== src/Incumbent/Writer.antt =====
-- crates/handoff/src/incumbent.rs: in a session whose supervisor asks for a second seal only behind
-- an abort, the consumer's writer is open only while the lock is held.
use handoff.Prelude.{
  ℕ, suc, ◌+◌, ◌≡◌, min, Bool, true, false, Bool-cases, inl, inr, List, [], ◌∷◌, Option, none, some,
  arith,
}
use handoff.Error.{Result, ok, err, Error, io}
use handoff.Protocol.{
  ProtoVersion, HandoffId, Message, heartbeat, prepare_handoff, seal_request, commit, abort,
  resume_after_abort,
}
use handoff.Incumbent.World.{
  Env, World, M, and_then, ◌>>=◌, pure, write_frame, put_session, get_session, instant_now,
  call_drain, call_seal, call_resume, reacquire, take_lock,
}
use handoff.Incumbent.Session.{
  Poll, SessionOutcome, is_active, is_other, drain_done, on_prepare, seal_done, on_seal_request,
  on_commit, roll_back, on_resume, on_abort, handle, on_read_error, next_round, run_session_loop,
}
use handoff.Incumbent.Quiet.{IsGuarded, run_with_heartbeats-Quiet}
use handoff.Incumbent.Handlers.{Inv, Inv-Quiet, Handled, handle-Handled}

-- Whether a session may have sealed, behind the message.
abbrev pub flag : Bool → Message → Bool
flag s (seal_request _) = true
flag s (abort _ _) = false
flag s (resume_after_abort _) = false
flag s _ = s

abbrev pub Permits : Bool → Message → Type 0
Permits true (seal_request _) = ⊥
Permits _ _ = Unit

-- A session that may have sealed gets no further `SealRequest` before an `Abort` or
-- `ResumeAfterAbort`.
abbrev pub Orderly : Bool → List Poll → Type 0
Orderly s [] = Unit
Orderly s (ok (some (_, m)) ∷ ps) = Permits s m × Orderly (flag s m) ps
Orderly s (ok none ∷ ps) = Orderly s ps
Orderly s (err _ ∷ ps) = Orderly s ps

-- `s` says whether the session may have sealed, if the handler has succeeded.
abbrev pub Safe {ℓ} : {A : Type ℓ} → Bool → Result A × World → Type 0
Safe s (ok _, w) = IsGuarded w × (w.session.sealed ≡ true → s ≡ true)
Safe s (err _, w) = IsGuarded w

module _ (env : Env) (chosen : ProtoVersion) where
  drain_done-Safe :
      (s : Bool) (deadline : ℕ) (w : World)
      → IsGuarded w
      → (w.session.sealed ≡ true → s ≡ true)
      → Safe s (and_then (call_drain env deadline w) (drain_done env chosen))
  unfolding drain_done call_drain write_frame
  drain_done-Safe s deadline w g m = ground arith

  on_prepare-Safe :
      (s : Bool) (id : HandoffId) (d e : ℕ) (w : World)
      → IsGuarded w
      → (w.session.sealed ≡ true → s ≡ true)
      → Safe s (on_prepare env chosen id d e w)
  unfolding on_prepare instant_now
  on_prepare-Safe s id d e w g m = elim (Bool-cases (is_other w.session.active id)) [
    | inl h ↦ rw h g
    | inr h ↦
        let t : ℕ = w.time + env.lag w.tick in
        let (w', r, q) =
          run_with_heartbeats-Quiet env chosen (call_drain env (t + min e d)) (record w {
            session = record w.session { active = some id };
            tick = suc w.tick;
            time = t;
          }) in
        rw (h, r)
          (drain_done-Safe s (t + min e d) w' (q.guarded g)
            (λ k. m (ground (arith, q.same_session))))
  ]

  seal_done-Safe :
      (id : HandoffId) (w : World)
      → Inv w
      → w.session.sealed ≡ false
      → IsGuarded w
      → Safe true (seal_done env chosen id (call_seal env w).0 (call_seal env w).1)
  unfolding seal_done call_seal take_lock write_frame call_resume
  seal_done-Safe id w v u g = ground arith

  on_seal_request-Safe :
      (id : HandoffId) (w : World)
      → Inv w
      → w.session.sealed ≡ false
      → IsGuarded w
      → Safe true (on_seal_request env chosen id w)
  unfolding on_seal_request
  on_seal_request-Safe id w v u g = elim (Bool-cases (is_active w.session.active id)) [
    | inr h ↦ rw h g
    | inl h ↦
        let (w', r, q) = run_with_heartbeats-Quiet env chosen (call_seal env) w in
        rw (h, r)
          (seal_done-Safe id w' (Inv-Quiet q v) (ground (arith, q.same_session)) (q.guarded g))
  ]

  roll_back-Safe : (w : World) → Inv w → IsGuarded w → Safe false (roll_back env chosen w.session w)
  unfolding roll_back reacquire call_resume
  roll_back-Safe w v g = ground arith

  abbrev clear_active : M (Unit {0})
  clear_active = get_session >>= λ s. put_session (record s { active = none })

  clear_active-Safe :
      (s : Bool) (out : Result (Unit {0}) × World)
      → Safe s out
      → Safe s (and_then out (λ _. clear_active))
  clear_active-Safe s (ok _, w) v = v
  clear_active-Safe s (err e, w) v = v

  on_resume-Safe :
      (id : HandoffId) (w : World) → Inv w → IsGuarded w → Safe false (on_resume env chosen id w)
  unfolding on_resume
  on_resume-Safe id w v g = elim (Bool-cases (is_active w.session.active id)) [
    | inr h ↦ rw h g
    | inl h ↦ rw h (clear_active-Safe false _ (roll_back-Safe w v g))
  ]

  on_abort-Safe :
      (id : HandoffId) (w : World) → Inv w → IsGuarded w → Safe false (on_abort env chosen id w)
  unfolding on_abort
  on_abort-Safe id w v g = elim (Bool-cases (is_active w.session.active id)) [
    | inr h ↦ rw h g
    | inl h ↦ rw h (clear_active-Safe false _ (roll_back-Safe w v g))
  ]

  go_on-Safe :
      (s : Bool) (out : Result (Unit {0}) × World)
      → Safe s out
      → Safe s (and_then out (λ _. pure {A = Option SessionOutcome} none))
  go_on-Safe s (ok _, w) v = v
  go_on-Safe s (err e, w) v = v

  on_commit-Safe :
      (s : Bool) (id : HandoffId) (w : World)
      → IsGuarded w
      → (w.session.sealed ≡ true → s ≡ true)
      → Safe s (on_commit env chosen id w)
  unfolding on_commit
  on_commit-Safe s id w g m = ground arith

  on_heartbeat-Safe :
      (s : Bool) (t : ℕ) (w : World)
      → IsGuarded w
      → (w.session.sealed ≡ true → s ≡ true)
      → Safe s (handle env chosen (heartbeat t) w)
  unfolding handle instant_now write_frame
  on_heartbeat-Safe s t w g m = ground arith

  pub on_read_error-Guarded :
      (e : Error) (w : World) → IsGuarded w → IsGuarded (on_read_error env chosen e w).1
  unfolding on_read_error
  on_read_error-Guarded (io e) w g = ground arith
  on_read_error-Guarded e w g = g

  pub handle-Safe :
      (s : Bool) (m : Message) (w : World)
      → Inv w
      → IsGuarded w
      → (w.session.sealed ≡ true → s ≡ true)
      → Permits s m
      → Safe (flag s m) (handle env chosen m w)
  unfolding handle
  handle-Safe s (prepare_handoff id p d e) w v g k a =
      go_on-Safe s _ (on_prepare-Safe s id d e w g k)
  handle-Safe true (seal_request id) w v g k a = absurd a
  handle-Safe false (seal_request id) w v g k a =
      go_on-Safe true _ (on_seal_request-Safe id w v (ground (arith, k)) g)
  handle-Safe s (commit id) w v g k a = on_commit-Safe s id w g k
  handle-Safe s (resume_after_abort id) w v g k a = go_on-Safe false _ (on_resume-Safe id w v g)
  handle-Safe s (abort id reason) w v g k a = go_on-Safe false _ (on_abort-Safe id w v g)
  handle-Safe s (heartbeat t) w v g k a = on_heartbeat-Safe s t w g k
  handle-Safe s other w v g k a = g

  next_round-Guarded :
      (loop : M SessionOutcome) (s : Bool)
      → ((w : World)
          → Inv w
          → IsGuarded w
          → (w.session.sealed ≡ true → s ≡ true)
          → IsGuarded (loop w).1)
      → (out : Result (Option SessionOutcome) × World) → Handled out
      → Safe s out
      → IsGuarded (next_round loop out).1
  next_round-Guarded loop s h (err e, w) v g = g
  next_round-Guarded loop s h (ok none, w) v (g, k) = h w v g k
  next_round-Guarded loop s h (ok (some o), w) v (g, k) = g

  pub run_session_loop-Guarded :
      (s : Bool) (ps : List Poll) (w : World)
      → Inv w
      → IsGuarded w
      → (w.session.sealed ≡ true → s ≡ true)
      → Orderly s ps
      → IsGuarded (run_session_loop env chosen ps w).1
  unfolding run_session_loop
  run_session_loop-Guarded s [] w v g k o = on_read_error-Guarded _ w g
  run_session_loop-Guarded s (err e ∷ ps) w v g k o = on_read_error-Guarded e w g
  run_session_loop-Guarded s (ok none ∷ ps) w v g k o = run_session_loop-Guarded s ps w v g k o
  run_session_loop-Guarded s (ok (some (_, m)) ∷ ps) w v g k o =
      next_round-Guarded (run_session_loop env chosen ps) (flag s m)
        (λ w' v' g' k'. run_session_loop-Guarded (flag s m) ps w' v' g' k' o.1)
        (handle env chosen m w) (handle-Handled env chosen m w v) (handle-Safe s m w v g k o.0)
