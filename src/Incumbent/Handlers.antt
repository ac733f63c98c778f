-- ===== src/Incumbent/Handlers.antt =====
-- crates/handoff/src/incumbent.rs: what every message handler of a session keeps.
use handoff.Prelude.{
  ℕ, suc, ◌+◌, ◌≡◌, min, not, true, false, Bool-cases, inl, inr, arith, Option, none, some,
}
use handoff.Error.{Result, ok, err}
use handoff.Protocol.{
  ProtoVersion, HandoffId, Message, heartbeat, prepare_handoff, seal_request, commit, abort,
  resume_after_abort,
}
use handoff.Incumbent.World.{
  Env, World, SessionState, M, and_then, ◌>>=◌, pure, write_frame, is_held, put_session,
  get_session, instant_now, call_drain, call_seal, call_resume, reacquire, take_lock,
}
use handoff.Incumbent.Session.{
  is_active, is_other, drain_done, on_prepare, seal_done, on_seal_request, on_commit, roll_back,
  on_resume, on_abort, handle, SessionOutcome, committed, closed,
}
use handoff.Incumbent.Quiet.{owed, IsOrdered, Quiet, run_with_heartbeats-Quiet}

-- Between two messages: a drain that waits for its `resume_after_abort` is on record, and the lock is
-- held exactly while the session has not sealed.
pub record Inv (w : World) : Type 0 where
  pub pays : owed w.trace ≡ true → w.session.drained ≡ true
  pub holds : is_held w.lock ≡ not w.session.sealed
  pub ordered : IsOrdered w.trace

-- Where a handler has failed.
pub record Stopped (w : World) : Type 0 where
  pub pays :
      owed w.trace ≡ true → (w.session.drained ≡ true) × (is_held w.lock ≡ not w.session.sealed)
  pub unsealed : w.session.sealed ≡ false → is_held w.lock ≡ true
  pub ordered : IsOrdered w.trace

abbrev pub Keeps {ℓ} : {A : Type ℓ} → Result A × World → Type 0
Keeps (ok _, w) = Inv w
Keeps (err _, w) = Stopped w

Inv-Stopped : {w : World} → Inv w → Stopped w
Inv-Stopped v = record {
  pays = λ o. (v.pays o, v.holds);
  unsealed = λ u. ground (arith, v.holds);
  ordered = v.ordered;
}

pub Inv-Quiet : {w w' : World} → Quiet w w' → Inv w → Inv w'
Inv-Quiet q v = record {
  pays = λ o. ground (arith, q.same_owed, q.same_session, v.pays);
  holds = ground (arith, q.same_lock, q.same_session, v.holds);
  ordered = q.ordered v.ordered;
}

-- What one message leaves behind; only `Commit` ends the session, and only behind a seal.
abbrev pub Handled : Result (Option SessionOutcome) × World → Type 0
Handled (ok none, w) = Inv w
Handled (ok (some committed), w) = Inv w × (w.session.sealed ≡ true)
Handled (ok (some closed), w) = ⊥
Handled (err _, w) = Stopped w

module _ (env : Env) (chosen : ProtoVersion) where
  drain_done-Keeps :
      (deadline : ℕ) (w : World)
      → Inv w
      → Keeps (and_then (call_drain env deadline w) (drain_done env chosen))
  unfolding drain_done call_drain write_frame
  drain_done-Keeps deadline w v = ground arith

  on_prepare-Keeps :
      (id : HandoffId) (d g : ℕ) (w : World) → Inv w → Keeps (on_prepare env chosen id d g w)
  unfolding on_prepare instant_now
  on_prepare-Keeps id d g w v = elim (Bool-cases (is_other w.session.active id)) [
    | inl e ↦ rw e (Inv-Stopped v)
    | inr e ↦
        let s : SessionState = record w.session { active = some id } in
        let t : ℕ = w.time + env.lag w.tick in
        let (w', r, q) =
          run_with_heartbeats-Quiet env chosen (call_drain env (t + min g d))
            (record w { session = s; tick = suc w.tick; time = t }) in
        rw (e, r)
          (drain_done-Keeps (t + min g d) w'
            (Inv-Quiet q (record { pays = v.pays; holds = v.holds; ordered = v.ordered })))
  ]

  seal_done-Keeps :
      (id : HandoffId) (w : World)
      → Inv w
      → Keeps (seal_done env chosen id (call_seal env w).0 (call_seal env w).1)
  unfolding seal_done call_seal take_lock write_frame call_resume
  seal_done-Keeps id w v = ground arith

  roll_back-Keeps : (w : World) → Inv w → Keeps (roll_back env chosen w.session w)
  unfolding roll_back reacquire call_resume
  roll_back-Keeps w v = ground arith

  on_seal_request-Keeps :
      (id : HandoffId) (w : World) → Inv w → Keeps (on_seal_request env chosen id w)
  unfolding on_seal_request
  on_seal_request-Keeps id w v = elim (Bool-cases (is_active w.session.active id)) [
    | inr e ↦ rw e (Inv-Stopped v)
    | inl e ↦
        let (w', r, q) = run_with_heartbeats-Quiet env chosen (call_seal env) w in
        rw (e, r) (seal_done-Keeps id w' (Inv-Quiet q v))
  ]

  abbrev clear_active : M (Unit {0})
  clear_active = get_session >>= λ s. put_session (record s { active = none })

  clear_active-Keeps :
      (out : Result (Unit {0}) × World) → Keeps out → Keeps (and_then out (λ _. clear_active))
  clear_active-Keeps (ok _, w) v = record { pays = v.pays; holds = v.holds; ordered = v.ordered }
  clear_active-Keeps (err e, w) v = v

  on_resume-Keeps : (id : HandoffId) (w : World) → Inv w → Keeps (on_resume env chosen id w)
  unfolding on_resume
  on_resume-Keeps id w v = elim (Bool-cases (is_active w.session.active id)) [
    | inr e ↦ rw e (Inv-Stopped v)
    | inl e ↦ rw e (clear_active-Keeps _ (roll_back-Keeps w v))
  ]

  on_abort-Keeps : (id : HandoffId) (w : World) → Inv w → Keeps (on_abort env chosen id w)
  unfolding on_abort
  on_abort-Keeps id w v = elim (Bool-cases (is_active w.session.active id)) [
    | inr e ↦ rw e (Inv-Stopped v)
    | inl e ↦ rw e (clear_active-Keeps _ (roll_back-Keeps w v))
  ]

  go_on-Handled :
      (out : Result (Unit {0}) × World) → Keeps out → Handled (and_then out (λ _. pure none))
  go_on-Handled (ok _, w) v = v
  go_on-Handled (err e, w) v = v

  on_commit-Handled : (id : HandoffId) (w : World) → Inv w → Handled (on_commit env chosen id w)
  unfolding on_commit
  on_commit-Handled id w v = ground (arith, Inv-Stopped v)

  on_heartbeat-Handled : (t : ℕ) (w : World) → Inv w → Handled (handle env chosen (heartbeat t) w)
  unfolding handle instant_now write_frame
  on_heartbeat-Handled t w v = ground arith

  pub handle-Handled : (m : Message) (w : World) → Inv w → Handled (handle env chosen m w)
  unfolding handle
  handle-Handled (prepare_handoff id p d g) w v = go_on-Handled _ (on_prepare-Keeps id d g w v)
  handle-Handled (seal_request id) w v = go_on-Handled _ (on_seal_request-Keeps id w v)
  handle-Handled (commit id) w v = on_commit-Handled id w v
  handle-Handled (resume_after_abort id) w v = go_on-Handled _ (on_resume-Keeps id w v)
  handle-Handled (abort id reason) w v = go_on-Handled _ (on_abort-Keeps id w v)
  handle-Handled (heartbeat t) w v = on_heartbeat-Handled t w v
  handle-Handled other w v = Inv-Stopped v
