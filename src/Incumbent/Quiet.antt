-- ===== src/Incumbent/Quiet.antt =====
-- crates/handoff/src/incumbent.rs: what a drain owes, and the calls that change nothing but the
-- trace, the clock and the count of calls.
use handoff.Prelude.{
  ℕ, zero, suc, ◌≡◌, refl, ◌∙◌, Bool, true, false, Bool-cases, inl, inr, List, [], ◌∷◌, arith,
}
use handoff.Error.{ok, Result-cases}
use handoff.Protocol.{ProtoVersion, Message, heartbeat, seal_complete}
use handoff.Incumbent.World.{
  Env, Event, is_held, drain_called, resume_called, seal_called, released, sent, World, M, note,
  heartbeats, run_with_heartbeats,
}

-- Whether the newest successful drain still waits for a call of `resume_after_abort`.
abbrev pub owed : List (Bool × Event) → Bool
owed [] = false
owed ((_, drain_called _ (ok _)) ∷ t) = true
owed ((_, resume_called _) ∷ t) = false
owed (_ ∷ t) = owed t

-- Whether the consumer's writer is open: `seal` closes it and `resume_after_abort` reopens it.
abbrev pub writing : List (Bool × Event) → Bool
writing [] = true
writing ((_, seal_called (ok _)) ∷ t) = false
writing ((_, resume_called (ok _)) ∷ t) = true
writing (_ ∷ t) = writing t

-- The frames that were sent, without heartbeats; the newest first.
abbrev pub answers : List (Bool × Event) → List Message
answers [] = []
answers ((_, sent _ (heartbeat _)) ∷ t) = answers t
answers ((_, sent _ m) ∷ t) = m ∷ answers t
answers (_ ∷ t) = answers t

abbrev pub after_seal : List (Bool × Event) → Bool
after_seal ((_, seal_called (ok _)) ∷ t) = true
after_seal _ = false

-- What may follow the trace `t`: the flock is released straight after a successful `seal`, and
-- `SealComplete` is sent with the flock released and the writer closed.
abbrev pub Allowed : Bool → Event → List (Bool × Event) → Type 0
Allowed held released t = after_seal t ≡ true
Allowed held (sent _ (seal_complete _ _ _)) t = (held ≡ false) × (writing t ≡ false)
Allowed held _ t = Unit

abbrev pub IsOrdered : List (Bool × Event) → Type 0
IsOrdered [] = Unit
IsOrdered ((held, e) ∷ t) = Allowed held e t × IsOrdered t

-- Whenever a call was made with the consumer's writer open, the lock was held.
abbrev pub Guarded : List (Bool × Event) → Type 0
Guarded [] = Unit
Guarded ((held, e) ∷ t) = (writing t ≡ true → held ≡ true) × Guarded t

-- So it was, and so it is now.
abbrev pub IsGuarded : World → Type 0
IsGuarded w = Guarded w.trace × (writing w.trace ≡ true → is_held w.lock ≡ true)

pub record Quiet (w w' : World) : Type 0 where
  pub same_lock : w'.lock ≡ w.lock
  pub same_disk : w'.disk ≡ w.disk
  pub same_session : w'.session ≡ w.session
  pub same_owed : owed w'.trace ≡ owed w.trace
  pub same_answers : answers w'.trace ≡ answers w.trace
  pub same_writing : writing w'.trace ≡ writing w.trace
  pub ordered : IsOrdered w.trace → IsOrdered w'.trace
  pub guarded : IsGuarded w → IsGuarded w'

Quiet-trans : {u v w : World} → Quiet u v → Quiet v w → Quiet u w
Quiet-trans p q = record {
  same_lock = q.same_lock ∙ p.same_lock;
  same_disk = q.same_disk ∙ p.same_disk;
  same_session = q.same_session ∙ p.same_session;
  same_owed = q.same_owed ∙ p.same_owed;
  same_answers = q.same_answers ∙ p.same_answers;
  same_writing = q.same_writing ∙ p.same_writing;
  ordered = λ h. q.ordered (p.ordered h);
  guarded = λ h. q.guarded (p.guarded h);
}

module _ (env : Env) where
  heartbeats-Quiet :
      (v : ProtoVersion) (n : ℕ) (w : World)
      → (w' : World) × (heartbeats env v n w ≡ (ok tt, w')) × Quiet w w'
  unfolding heartbeats
  heartbeats-Quiet v zero w = (w, refl, ground arith)
  heartbeats-Quiet v (suc n) w = elim (Result-cases (env.send w.tick)) [
    | inr (e, h) ↦ (record w { tick = suc w.tick }, rw (h, heartbeats), ground arith)
    | inl (_, h) ↦
        let (w', e, q) = heartbeats-Quiet v n (note (sent v (heartbeat w.time)) w) in
        (w', rw (h, heartbeats) e, Quiet-trans (ground arith) q)
  ]

  -- `work` starts in a world that differs in the trace and the clock alone.
  pub run_with_heartbeats-Quiet {ℓ} :
      {A : Type ℓ} (v : ProtoVersion) (work : M A) (w : World)
      → (w' : World) × (run_with_heartbeats env v work w ≡ work w') × Quiet w w'
  unfolding run_with_heartbeats
  run_with_heartbeats-Quiet v work w = elim (Bool-cases (env.clone w.tick)) [
    | inl h ↦
        let (w', e, q) = heartbeats-Quiet v (env.beats w.tick) (record w { tick = suc w.tick }) in
        (w', rw (h, e), Quiet-trans (ground arith) q)
    | inr h ↦ (record w { tick = suc w.tick }, rw h, ground arith)
  ]
