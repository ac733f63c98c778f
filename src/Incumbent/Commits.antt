-- ===== src/Incumbent/Commits.antt =====
-- crates/handoff/src/incumbent.rs: a handoff with a healthy supervisor commits.
use handoff.Prelude.{ℕ, ◌≡◌, refl, ap, true, false, some, List, ◌∷◌}
use handoff.Error.{Result, ok, err}
use handoff.Fallible.{Gives}
use handoff.Protocol.{
  ProtoVersion, HandoffId, Message, Side, hello, hello_ack, drained, seal_complete, proto_min,
  proto_max,
}
use handoff.Incumbent.World.{
  Env, World, DrainReport, SealReport, SessionState, is_held, default, write_frame,
  set_read_timeout,
}
use handoff.Incumbent.Session.{
  Poll, SessionOutcome, chosen_version, clean_up, run_session, with_ack, await_ack, handle_session,
}
use handoff.Incumbent.Serve.{
  Libc, Accept, accepted, Connection, ServeEnd, returned, prepare_session_stream, after_session,
  accept_backoff_min, serve_loop, serve,
}
use handoff.Incumbent.Quiet.{answers}
use handoff.Incumbent.Answers.{
  IsHealthy, Stands, AllPauses, script, has_sealed, Ended, run_session_loop-Ended,
}

module _ (env : Env) (d : DrainReport) (s : SealReport) (healthy : IsHealthy env d s)
    (chosen : ProtoVersion) (id : HandoffId) where
  -- The process holds the lock, and has answered so.
  record Held (fs : List Message) (w : World) : Type 0 where
    pub held : is_held w.lock ≡ true
    pub frames : answers w.trace ≡ fs

  abbrev Commits : List Message → SessionOutcome → World → Type 0
  Commits fs = Ended env d s healthy chosen id fs

  clean_up-Commits :
      (fs : List Message) (r : Result SessionOutcome) (w : World)
      → Gives (Commits fs) (r, w)
      → Gives (Commits fs) (clean_up env r w)
  unfolding clean_up
  clean_up-Commits fs (ok o) w (e, v) =
      simp
        (
          ap {A = SessionState} (λ x. x.drained) v.session,
          ap {A = SessionState} (λ x. x.sealed) v.session,
        )
        (e, v)
  clean_up-Commits fs (err e) w v = absurd v

  abbrev pub greeting : Message
  greeting = hello Side.incumbent env.me env.build_id proto_min proto_max 0

  module _ (p q r rest : List Poll) (pid deadline grace : ℕ)
      (pauses : AllPauses p × AllPauses q × AllPauses r) where
    abbrev messages : List Poll
    messages = script env d s healthy chosen id p q r pid deadline grace rest

    run_session-Commits :
        (fs : List Message) (w : World)
        → Held fs w
        → Gives (Commits fs) (run_session env messages chosen w)
    unfolding run_session
    run_session-Commits fs w h = clean_up-Commits fs _ _ (
        run_session_loop-Ended env d s healthy chosen id p q r rest pid deadline grace fs
          (record w { session = default }) pauses
          (record { session = refl; held = h.held; frames = h.frames }))

    handle_session-Commits :
        (u v : ProtoVersion) (w : World)
        → chosen_version (hello_ack v id) ≡ ok chosen
        → is_held w.lock ≡ true
        → Gives
            (Commits (greeting ∷ answers w.trace))
            (handle_session env (ok (some (u, hello_ack v id)) ∷ messages) w)
    unfolding handle_session await_ack with_ack write_frame set_read_timeout
    handle_session-Commits u v w e h =
        rw (healthy.sends w.tick, healthy.arms, e)
          (run_session-Commits (greeting ∷ answers w.trace) _ (record { held = h; frames = refl }))

    ended-committed :
        (fs : List Message) (loop : World → ServeEnd × World) (out : Result SessionOutcome × World)
        → Gives (Commits fs) out
        → (after_session env loop out).0 ≡ returned (ok tt)
          × Stands
              (has_sealed env d s healthy chosen id)
              false
              (seal_complete id s.last_revision_per_shard s.data_dir_fingerprint
                ∷ drained d.open_conns_remaining d.accept_closed
                ∷ fs)
              (after_session env loop out).1
    ended-committed fs loop (ok o, w) (e, v) = rw e (refl, v)
    ended-committed fs loop (err e, w) v = absurd v

    -- Where every frame is written, every timeout set and every call of `drain` and `seal` succeeds: if the
    -- process holds the lock, and the first connection is of a peer that is let in, who sends
    -- `HelloAck` with a version in common, then `PrepareHandoff`, `SealRequest` and `Commit` of the same
    -- handoff, with any number of timeouts before each of the three, then `serve` returns `Ok` with the lock
    -- released, and apart from heartbeats it has sent `Hello`, `Drained` with what `drain` reported and
    -- `SealComplete` with what `seal` reported, in this order.
    pub serve-commits :
        (libc : Libc) (euid : ℕ) (c : Connection) (later : List Accept) (u v : ProtoVersion)
        (w : World)
        → prepare_session_stream euid c ≡ ok tt
        → c.polls ≡ ok (some (u, hello_ack v id)) ∷ messages
        → chosen_version (hello_ack v id) ≡ ok chosen
        → is_held w.lock ≡ true
        → ((serve env libc euid (accepted c ∷ later) w).0 ≡ returned (ok tt))
          × (is_held (serve env libc euid (accepted c ∷ later) w).1.lock ≡ false)
          × (answers (serve env libc euid (accepted c ∷ later) w).1.trace
              ≡ seal_complete id s.last_revision_per_shard s.data_dir_fingerprint
                ∷ drained d.open_conns_remaining d.accept_closed
                ∷ greeting
                ∷ answers w.trace)
    unfolding serve serve_loop
    serve-commits libc euid c later u v w prepared polls e h =
        let (done, st) =
          ended-committed (greeting ∷ answers w.trace)
            (serve_loop env libc euid accept_backoff_min later)
            (handle_session env (ok (some (u, hello_ack v id)) ∷ messages) w)
            (handle_session-Commits u v w e h) in
        rw (prepared, serve_loop, polls) (done, st.held, st.frames)
