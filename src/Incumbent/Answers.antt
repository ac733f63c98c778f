-- ===== src/Incumbent/Answers.antt =====
-- crates/handoff/src/incumbent.rs: what each message of a handoff gets, where every call succeeds.
use handoff.Prelude.{
  ℕ, suc, ◌+◌, min, ◌≡◌, refl, ap, ◌∙◌, Bool, true, false, Option, none, some, List, [], ◌∷◌, ◌++◌,
  eqb-same, arith,
}
use handoff.Error.{Result, ok, err}
use handoff.Fallible.{pure, Gives}
use handoff.Protocol.{
  ProtoVersion, HandoffId, Message, prepare_handoff, drained, seal_request, seal_complete, commit,
}
use handoff.Lock.{DataDirLock}
use handoff.Incumbent.World.{
  Env, World, note, seal_called, drop_lock, DrainReport, SealReport, SessionState, M, and_then,
  is_held, default, write_frame, instant_now, call_drain, call_seal, take_lock,
}
use handoff.Incumbent.Session.{
  Poll, SessionOutcome, committed, is_other, is_active, drain_done, on_prepare, seal_done,
  on_seal_request, on_commit, handle, run_session_loop, next_round,
}
use handoff.Incumbent.Quiet.{answers, Quiet, run_with_heartbeats-Quiet}

-- Every call succeeds, the hooks with these reports.
pub record IsHealthy (env : Env) (d : DrainReport) (s : SealReport) : Type 0 where
  pub sends : (n : ℕ) → env.send n ≡ ok tt
  pub arms : (n : ℕ) → env.arm n ≡ ok tt
  pub drains : (n deadline : ℕ) → env.drain n deadline ≡ ok d
  pub seals : (n : ℕ) → env.seal n ≡ ok s

-- What a session knows, whether the lock is held, and the answers so far.
pub record Stands (s : SessionState) (holds : Bool) (fs : List Message) (w : World) : Type 0 where
  pub session : w.session ≡ s
  pub held : is_held w.lock ≡ holds
  pub frames : answers w.trace ≡ fs

Stands-Quiet :
    (s : SessionState) (h : Bool) (fs : List Message) (w w' : World)
    → Quiet w w'
    → Stands s h fs w
    → Stands s h fs w'
Stands-Quiet s h fs w w' q v = record {
  session = q.same_session ∙ v.session;
  held = ap is_held q.same_lock ∙ v.held;
  frames = q.same_answers ∙ v.frames;
}

-- Reads that time out.
abbrev pub AllPauses : List Poll → Type 0
AllPauses [] = Unit
AllPauses (ok none ∷ ps) = AllPauses ps
AllPauses (_ ∷ ps) = ⊥

module _ (env : Env) (d : DrainReport) (s : SealReport) (healthy : IsHealthy env d s)
    (chosen : ProtoVersion) (id : HandoffId) where
  abbrev pub has_drained : SessionState
  has_drained = record { active = some id; sealed = false; drained = true }

  abbrev pub has_sealed : SessionState
  has_sealed = record { active = some id; sealed = true; drained = true }

  drain_done-Stands :
      (deadline : ℕ) (fs : List Message) (w : World)
      → Stands (record { active = some id; sealed = false; drained = false }) true fs w
      → Gives
          (λ _. Stands has_drained true (drained d.open_conns_remaining d.accept_closed ∷ fs))
          (and_then (call_drain env deadline w) (drain_done env chosen))
  unfolding call_drain drain_done write_frame
  drain_done-Stands deadline fs w v =
      rw (healthy.drains w.tick deadline, healthy.sends (suc w.tick))
        (record {
          session = ap {A = SessionState} (λ x. record x { drained = true }) v.session;
          held = v.held;
          frames = ap (λ x. drained d.open_conns_remaining d.accept_closed ∷ x) v.frames;
        })

  on_prepare-Stands :
      (deadline grace : ℕ) (fs : List Message) (w : World)
      → Stands default true fs w
      → Gives
          (λ _. Stands has_drained true (drained d.open_conns_remaining d.accept_closed ∷ fs))
          (on_prepare env chosen id deadline grace w)
  unfolding on_prepare instant_now
  on_prepare-Stands deadline grace fs w v =
      let t : ℕ = w.time + env.lag w.tick in
      let (w', r, q) =
        run_with_heartbeats-Quiet env chosen (call_drain env (t + min grace deadline)) (record w {
          session = record w.session { active = some id };
          tick = suc w.tick;
          time = t;
        }) in
      rw (ap (λ x. is_other x.active id) v.session, r)
        (drain_done-Stands (t + min grace deadline) fs w' (
          Stands-Quiet _ true fs _ w' q (record {
            session = ap {A = SessionState} (λ x. record x { active = some id }) v.session;
            held = v.held;
            frames = v.frames;
          })))

  dropped-Stands :
      (l : Option DataDirLock) (fs : List Message) (w : World)
      → is_held l ≡ true
      → Stands has_drained true fs w
      → Stands has_drained false fs (drop_lock env l w)
  dropped-Stands none fs w h v = absurd (ground arith)
  dropped-Stands (some l) fs w h v = record { session = v.session; held = refl; frames = v.frames }

  seal_done-Stands :
      (fs : List Message) (w : World)
      → Stands has_drained true fs w
      → Gives
          (λ _.
            Stands has_sealed false
              (seal_complete id s.last_revision_per_shard s.data_dir_fingerprint ∷ fs))
          (seal_done env chosen id (ok s) w)
  unfolding seal_done take_lock write_frame
  seal_done-Stands fs w v =
      let u = dropped-Stands w.lock fs w v.held v in
      rw (healthy.sends (drop_lock env w.lock w).tick) (record {
        session = ap {A = SessionState} (λ x. record x { sealed = true }) u.session;
        held = u.held;
        frames =
            ap (λ x. seal_complete id s.last_revision_per_shard s.data_dir_fingerprint ∷ x)
              u.frames;
      })

  on_seal_request-Stands :
      (fs : List Message) (w : World)
      → Stands has_drained true fs w
      → Gives
          (λ _.
            Stands has_sealed false
              (seal_complete id s.last_revision_per_shard s.data_dir_fingerprint ∷ fs))
          (on_seal_request env chosen id w)
  unfolding on_seal_request call_seal
  on_seal_request-Stands fs w v =
      let (w', r, q) = run_with_heartbeats-Quiet env chosen (call_seal env) w in
      let u = Stands-Quiet has_drained true fs w w' q v in
      rw (ap (λ x. is_active x.active id) v.session, eqb-same id, r, healthy.seals w'.tick)
        (seal_done-Stands fs (note (seal_called (ok s)) w')
          (record { session = u.session; held = u.held; frames = u.frames }))

  -- Timeouts between two messages.
  pauses-eq :
      (pauses : List Poll) (ps : List Poll) (w : World)
      → AllPauses pauses
      → run_session_loop env chosen (pauses ++ ps) w ≡ run_session_loop env chosen ps w
  unfolding run_session_loop
  pauses-eq [] ps w h = refl
  pauses-eq (ok none ∷ pauses) ps w h = pauses-eq pauses ps w h
  pauses-eq (ok (some m) ∷ pauses) ps w h = absurd h
  pauses-eq (err e ∷ pauses) ps w h = absurd h

  -- The messages of a handoff, with timeouts before each.
  abbrev pub script : (p q r : List Poll) (successor_pid deadline grace : ℕ) → List Poll → List Poll
  script p q r pid deadline grace rest =
      p
      ++ (ok (some (chosen, prepare_handoff id pid deadline grace))
          ∷ (q
              ++ (ok (some (chosen, seal_request id))
                  ∷ (r ++ (ok (some (chosen, commit id)) ∷ rest)))))

  next_round-Gives :
      (P : World → Type 0) (Q : SessionOutcome → World → Type 0) (loop : M SessionOutcome)
      (out : Result (Unit {0}) × World)
      → Gives (λ _. P) out
      → ((w : World) → P w → Gives Q (loop w))
      → Gives Q (next_round loop (and_then out (λ _. pure none)))
  next_round-Gives P Q loop (ok _, w) p next = next w p
  next_round-Gives P Q loop (err e, w) p next = absurd p

  on_commit-eq :
      (fs : List Message) (w : World)
      → Stands has_sealed false fs w
      → on_commit env chosen id w ≡ (ok (some committed), w)
  unfolding on_commit
  on_commit-eq fs w v =
      simp (ap (λ x. is_active x.active id) v.session, eqb-same id, ap (λ x. x.sealed) v.session)
        refl

  -- Behind the handoff: the lock is released, and these are the answers.
  abbrev pub Ended : List Message → SessionOutcome → World → Type 0
  Ended fs o w =
      (o ≡ committed)
      × Stands has_sealed false
          (seal_complete id s.last_revision_per_shard s.data_dir_fingerprint
            ∷ drained d.open_conns_remaining d.accept_closed
            ∷ fs)
          w

  pub run_session_loop-Ended :
      (p q r rest : List Poll) (pid deadline grace : ℕ) (fs : List Message) (w : World)
      → AllPauses p × AllPauses q × AllPauses r
      → Stands default true fs w
      → Gives (Ended fs) (run_session_loop env chosen (script p q r pid deadline grace rest) w)
  unfolding run_session_loop handle
  run_session_loop-Ended p q r rest pid deadline grace fs w (hp, hq, hr) v =
      rw
        (pauses-eq p
          (ok (some (chosen, prepare_handoff id pid deadline grace))
            ∷ (q
                ++ (ok (some (chosen, seal_request id))
                    ∷ (r ++ (ok (some (chosen, commit id)) ∷ rest)))))
          w hp)
        (next_round-Gives _ (Ended fs) _ (on_prepare env chosen id deadline grace w)
          (on_prepare-Stands deadline grace fs w v)
          λ w₁ v₁.
            rw
              (pauses-eq q
                (ok (some (chosen, seal_request id))
                  ∷ (r ++ (ok (some (chosen, commit id)) ∷ rest)))
                w₁ hq)
              (next_round-Gives _ (Ended fs) _ (on_seal_request env chosen id w₁)
                (on_seal_request-Stands (drained d.open_conns_remaining d.accept_closed ∷ fs) w₁ v₁)
                λ w₂ v₂.
                  rw
                    (pauses-eq r (ok (some (chosen, commit id)) ∷ rest) w₂ hr, on_commit-eq _ w₂ v₂)
                    (refl, v₂)))
