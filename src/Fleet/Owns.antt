-- ===== src/Fleet/Owns.antt =====
-- crates/handoff/src/incumbent.rs: a process that believes it holds the lock has the flock, and takes it
-- from nobody.
use handoff.Prelude.{
  ℕ, suc, ◌+◌, ◌≡◌, ◌≢◌, ◌∙◌, Option, min, true, false, Bool-cases, inl, inr, none, some, arith,
}
use handoff.Lock.{Disk, DataDirLock, acquire}
use handoff.Lock.Acquire.{Acquires, acquire-Acquires}
use handoff.Error.{Result, ok, err, Error, io}
use handoff.Protocol.{
  ProtoVersion, HandoffId, Message, heartbeat, prepare_handoff, seal_request, commit, abort,
  resume_after_abort,
}
use handoff.Incumbent.World.{
  Env, World, M, pure, get_session, SessionState, is_held, and_then, ◌>>=◌, locked_by, put_session,
  write_frame, instant_now, call_drain, call_seal, call_resume, reacquire, take_lock,
}
use handoff.Incumbent.Session.{
  SessionOutcome, is_active, is_other, drain_done, on_prepare, seal_done, on_seal_request,
  on_commit, roll_back, on_resume, on_abort, handle, on_read_error, clean_up,
}
use handoff.Incumbent.Quiet.{Quiet, run_with_heartbeats-Quiet}
use handoff.Fleet.{IsAlone}

abbrev pub Owns : ℕ → World → Type 0
Owns me w = is_held w.lock ≡ true → w.disk.flock ≡ some me

-- Between two worlds of the process `me`: it owns what it holds, and `j` keeps what it had.
pub record Fares (me j : ℕ) (w w' : World) : Type 0 where
  pub owns : Owns me w'
  pub spared : w.disk.flock ≡ some j → w'.disk.flock ≡ some j

pub Fares-refl : (me j : ℕ) (w : World) → Owns me w → Fares me j w w
Fares-refl me j w o = record { owns = o; spared = λ k. k }

pub Fares-trans :
    {me j : ℕ} {u v w : World} → Fares me j u v → (Owns me v → Fares me j v w) → Fares me j u w
Fares-trans f g = record { owns = (g f.owns).owns; spared = λ k. (g f.owns).spared (f.spared k) }

module _ (env : Env) (chosen : ProtoVersion) (j : ℕ) (other : j ≢ env.me) where
  Fares-Quiet :
      {w w' u : World}
      → Quiet w w'
      → (Owns env.me w' → Fares env.me j w' u)
      → Owns env.me w
      → Fares env.me j w u
  Fares-Quiet q f o = Fares-trans (ground (arith, q.same_lock, q.same_disk)) f

  drain_done-Fares :
      (deadline : ℕ) (w : World)
      → Owns env.me w
      → Fares env.me j w (and_then (call_drain env deadline w) (drain_done env chosen)).1
  unfolding drain_done call_drain write_frame
  drain_done-Fares deadline w o = ground arith

  on_prepare-Fares :
      (id : HandoffId) (d e : ℕ) (w : World)
      → Owns env.me w
      → Fares env.me j w (on_prepare env chosen id d e w).1
  unfolding on_prepare instant_now
  on_prepare-Fares id d e w o = elim (Bool-cases (is_other w.session.active id)) [
    | inl h ↦ rw h (Fares-refl env.me j w o)
    | inr h ↦
        let t : ℕ = w.time + env.lag w.tick in
        let (w', r, q) =
          run_with_heartbeats-Quiet env chosen (call_drain env (t + min e d)) (record w {
            session = record w.session { active = some id };
            tick = suc w.tick;
            time = t;
          }) in
        rw (h, r)
          (Fares-trans (record { owns = o; spared = λ k. k })
            (Fares-Quiet q (drain_done-Fares (t + min e d) w')))
  ]

  seal_done-Fares :
      (id : HandoffId) (w : World)
      → Owns env.me w
      → Fares env.me j w (seal_done env chosen id (call_seal env w).0 (call_seal env w).1).1
  unfolding seal_done call_seal take_lock write_frame call_resume
  seal_done-Fares id w o = ground arith

  on_seal_request-Fares :
      (id : HandoffId) (w : World)
      → Owns env.me w
      → Fares env.me j w (on_seal_request env chosen id w).1
  unfolding on_seal_request
  on_seal_request-Fares id w o = elim (Bool-cases (is_active w.session.active id)) [
    | inr h ↦ rw h (Fares-refl env.me j w o)
    | inl h ↦
        let (w', r, q) = run_with_heartbeats-Quiet env chosen (call_seal env) w in
        rw (h, r) (Fares-Quiet q (seal_done-Fares id w') o)
  ]

  on_commit-Fares :
      (id : HandoffId) (w : World) → Owns env.me w → Fares env.me j w (on_commit env chosen id w).1
  unfolding on_commit
  on_commit-Fares id w o = ground arith

  on_heartbeat-Fares :
      (t : ℕ) (w : World) → Owns env.me w → Fares env.me j w (handle env chosen (heartbeat t) w).1
  unfolding handle instant_now write_frame
  on_heartbeat-Fares t w o = ground arith

  pub on_read_error-Fares :
      (e : Error) (w : World) → Owns env.me w → Fares env.me j w (on_read_error env chosen e w).1
  unfolding on_read_error
  on_read_error-Fares (io e) w o = ground arith
  on_read_error-Fares e w o = Fares-refl env.me j w o

  pub clean_up-Fares :
      (r : Result SessionOutcome) (w : World)
      → Owns env.me w
      → Fares env.me j w (clean_up env r w).1
  unfolding clean_up call_resume
  clean_up-Fares r w o = ground arith

  and_then-Fares {ℓ} :
      {A : Type ℓ} (w : World) (out : Result A × World) (f : A → M (Unit {0}))
      → Fares env.me j w out.1
      → ((a : A) (w' : World) → Owns env.me w' → Fares env.me j w' (f a w').1)
      → Fares env.me j w (and_then out f).1
  and_then-Fares w (ok a, w') f p next = Fares-trans p (next a w')
  and_then-Fares w (err e, w') f p next = p

  -- A call of `resume_after_abort`, and a change of the session's flags.
  resume_then-Fares :
      (g : SessionState → SessionState) (w : World)
      → Owns env.me w
      → Fares env.me j w
          (and_then (call_resume env w) (λ _. get_session >>= λ s. put_session (g s))).1
  unfolding call_resume
  resume_then-Fares g w o = ground arith

  locked_by-Fares :
      (out : Result DataDirLock × Disk) (w : World)
      → Acquires env.me w.disk out
      → Owns env.me w
      → Fares env.me j w (locked_by out w).1
  locked_by-Fares (ok l, d) w a o = record {
    owns = λ _. a.2;
    spared = λ k. absurd (ground (arith, a.0));
  }
  locked_by-Fares (err e, d) w a o = record { owns = λ k. a ∙ o k; spared = λ k. a ∙ k }

  module _ (alone : IsAlone env) where
    pub reacquire-Fares : (w : World) → Owns env.me w → Fares env.me j w (reacquire env w).1
    unfolding reacquire
    reacquire-Fares w o = rw (alone w.tick w.disk) (
        locked_by-Fares (acquire env.me (env.faults w.tick) w.disk) w
          (acquire-Acquires env.me (env.faults w.tick) w.disk) o)

    roll_back-Fares :
        (s : SessionState) (w : World)
        → Owns env.me w
        → Fares env.me j w (roll_back env chosen s w).1
    unfolding roll_back
    roll_back-Fares s w o = elim (Bool-cases s.sealed) [
      | inl h ↦ simp (h) (
          and_then-Fares w (reacquire env w)
            (λ _. call_resume env >>= λ _.
              get_session >>= λ s'. put_session (record s' { sealed = false; drained = false }))
            (reacquire-Fares w o)
            (λ _ w' o'.
              resume_then-Fares (λ s'. record s' { sealed = false; drained = false }) w' o'))
      | inr h ↦ elim (Bool-cases s.drained) [
        | inl d ↦ simp (h, d) (resume_then-Fares (λ s'. record s' { drained = false }) w o)
        | inr d ↦ simp (h, d) (Fares-refl env.me j w o)
      ]
    ]

    clear_active-Fares :
        (w : World) (out : Result (Unit {0}) × World)
        → Fares env.me j w out.1
        → Fares env.me j w
            (and_then out (λ _. get_session >>= λ s. put_session (record s { active = none }))).1
    clear_active-Fares w (ok _, w') f = record { owns = f.owns; spared = f.spared }
    clear_active-Fares w (err e, w') f = f

    on_resume-Fares :
        (id : HandoffId) (w : World)
        → Owns env.me w
        → Fares env.me j w (on_resume env chosen id w).1
    unfolding on_resume
    on_resume-Fares id w o = elim (Bool-cases (is_active w.session.active id)) [
      | inr h ↦ rw h (Fares-refl env.me j w o)
      | inl h ↦ rw h (clear_active-Fares w _ (roll_back-Fares w.session w o))
    ]

    on_abort-Fares :
        (id : HandoffId) (w : World) → Owns env.me w → Fares env.me j w (on_abort env chosen id w).1
    unfolding on_abort
    on_abort-Fares id w o = elim (Bool-cases (is_active w.session.active id)) [
      | inr h ↦ rw h (Fares-refl env.me j w o)
      | inl h ↦ rw h (clear_active-Fares w _ (roll_back-Fares w.session w o))
    ]

    go_on-Fares :
        (w : World) (out : Result (Unit {0}) × World)
        → Fares env.me j w out.1
        → Fares env.me j w (and_then out (λ _. pure {A = Option SessionOutcome} none)).1
    go_on-Fares w (ok _, w') f = f
    go_on-Fares w (err e, w') f = f

    pub handle-Fares :
        (m : Message) (w : World) → Owns env.me w → Fares env.me j w (handle env chosen m w).1
    unfolding handle
    handle-Fares (prepare_handoff id p d e) w o = go_on-Fares w _ (on_prepare-Fares id d e w o)
    handle-Fares (seal_request id) w o = go_on-Fares w _ (on_seal_request-Fares id w o)
    handle-Fares (commit id) w o = on_commit-Fares id w o
    handle-Fares (resume_after_abort id) w o = go_on-Fares w _ (on_resume-Fares id w o)
    handle-Fares (abort id reason) w o = go_on-Fares w _ (on_abort-Fares id w o)
    handle-Fares (heartbeat t) w o = on_heartbeat-Fares t w o
    handle-Fares other w o = Fares-refl env.me j w o
