-- ===== src/Incumbent/TwoSeals.antt =====
-- crates/handoff/src/incumbent.rs: a session whose supervisor seals twice.
use handoff.Prelude.{ℕ, suc, ◌<◌, ◌≡◌, refl, true, false, Option, none, some, arith}
use handoff.Error.{ok, err, Error}
use handoff.Protocol.{ProtoVersion, HandoffId, seal_request}
use handoff.Lock.{DataDirLock}
use handoff.Incumbent.World.{
  Env, World, is_held, write_frame, call_resume, run_with_heartbeats, call_seal, take_lock,
  SealReport,
}
use handoff.Incumbent.Session.{handle, is_active, on_seal_request, seal_done}
use handoff.Incumbent.Quiet.{writing}

-- Behind one `SealRequest`, and behind another.
abbrev pub sealed_twice : Env → ProtoVersion → HandoffId → World → World × World
sealed_twice env chosen id w =
    let once = (handle env chosen (seal_request id) w).1 in
    (once, (handle env chosen (seal_request id) once).1)

-- A `SealRequest` whose `seal` fails opens the writer, and takes no lock.
failed_seal-open :
    (env : Env) (chosen : ProtoVersion) (id : HandoffId) (w : World) (e : Error)
    → is_active w.session.active id ≡ true
    → is_held w.lock ≡ false
    → ((n : ℕ) → env.clone n ≡ false)
    → env.seal (suc w.tick) ≡ err e
    → ((n : ℕ) → env.send n ≡ ok tt)
    → ((n : ℕ) → env.resume n ≡ ok tt)
    → (writing (handle env chosen (seal_request id) w).1.trace ≡ true)
      × (is_held (handle env chosen (seal_request id) w).1.lock ≡ false)
unfolding handle on_seal_request run_with_heartbeats seal_done call_seal write_frame call_resume
failed_seal-open env chosen id w e a free clone seal send resume =
    rw (a, clone w.tick, seal, send (suc (suc w.tick)), resume (suc (suc (suc w.tick))))
      (refl, free)

held_by : (lock : Option DataDirLock) → is_held lock ≡ true → (l : DataDirLock) × (lock ≡ some l)
held_by none h = absurd (ground arith)
held_by (some l) h = (l, refl)

-- The first `seal` succeeds, and the lock goes.
first_seal-closes :
    (env : Env) (chosen : ProtoVersion) (id : HandoffId) (w : World) (r : SealReport)
    → is_active w.session.active id ≡ true
    → is_held w.lock ≡ true
    → ((n : ℕ) → env.clone n ≡ false)
    → env.seal (suc w.tick) ≡ ok r
    → ((n : ℕ) → env.send n ≡ ok tt)
    → (writing (sealed_twice env chosen id w).0.trace ≡ false)
      × (is_held (sealed_twice env chosen id w).0.lock ≡ false)
      × (is_active (sealed_twice env chosen id w).0.session.active id ≡ true)
      × (w.tick < (sealed_twice env chosen id w).0.tick)
unfolding handle on_seal_request run_with_heartbeats seal_done call_seal write_frame take_lock
first_seal-closes env chosen id w r a held clone seal send =
    let (l, e) = held_by w.lock held in
    rw (a, clone w.tick, seal, e, send (suc (suc (suc w.tick)))) (refl, refl, a, omega arith)

-- For a session that holds the lock, gets two `SealRequest`s for its active handoff one behind the other and runs no
-- heartbeat thread: if the first `seal` succeeds and every later one fails, every frame is written and every
-- `resume_after_abort` succeeds, then behind the first request the consumer's writer is closed and the lock
-- is released, and behind the second one the writer is open again while the lock still is not held.
pub second_seal-open :
    (env : Env) (chosen : ProtoVersion) (id : HandoffId) (w : World) (r : SealReport) (e : Error)
    → is_active w.session.active id ≡ true
    → is_held w.lock ≡ true
    → ((n : ℕ) → env.clone n ≡ false)
    → env.seal (suc w.tick) ≡ ok r
    → ((n : ℕ) → suc w.tick < n → env.seal n ≡ err e)
    → ((n : ℕ) → env.send n ≡ ok tt)
    → ((n : ℕ) → env.resume n ≡ ok tt)
    → (writing (sealed_twice env chosen id w).0.trace ≡ false)
      × (is_held (sealed_twice env chosen id w).0.lock ≡ false)
      × (writing (sealed_twice env chosen id w).1.trace ≡ true)
      × (is_held (sealed_twice env chosen id w).1.lock ≡ false)
second_seal-open env chosen id w r e a held clone seal later send resume =
    let (shut, free, active, on) = first_seal-closes env chosen id w r a held clone seal send in
    let (opened, still) =
      failed_seal-open env chosen id (sealed_twice env chosen id w).0 e active free clone
        (later _ (omega (arith, on))) send resume in
    (shut, free, opened, still)
