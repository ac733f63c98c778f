-- ===== src/Incumbent/Accepts.antt =====
-- crates/handoff/src/incumbent.rs: the accept loop. Every drain is answered, and the process holds the lock
-- whenever it waits for a supervisor.
use handoff.Prelude.{
  ℕ, ◌*◌, min, ◌≡◌, refl, ◌⊎◌, inl, inr, true, false, Bool-cases, List, [], ◌∷◌, some, arith,
}
use handoff.Error.{Result, ok, err, Result-cases, io}
use handoff.Incumbent.World.{Env, World, is_held, call_resume, sleep}
use handoff.Incumbent.Session.{SessionOutcome, committed, closed, handle_session}
use handoff.Incumbent.Serve.{
  Libc, Accept, accepted, refused, ServeEnd, waiting, out_of_fuel, returned, retry, exhausted,
  fatal, classify_accept_error, prepare_session_stream, recovered, after_session,
  resume_flock_timeout, accept_backoff_min, accept_backoff_max, serve_loop, serve,
}
use handoff.Incumbent.Quiet.{IsOrdered}
use handoff.Incumbent.Recovery.{Recovers, acquire_with_short_retry-RecoversTo}
use handoff.Incumbent.Sessions.{IsIdle, SessionEnds, handle_session-SessionEnds}

-- How `serve` ends, or where it waits.
abbrev pub ServeEnds : ServeEnd × World → Type 0
ServeEnds (waiting, w) = IsIdle w
ServeEnds (out_of_fuel, w) = ⊥
ServeEnds (returned (ok _), w) = (is_held w.lock ≡ false) × IsOrdered w.trace
ServeEnds (returned (err e), w) = (IsIdle w ⊎ (is_held w.lock ≡ false)) × IsOrdered w.trace

module _ (env : Env) where
  pub resumed-IsIdle :
      (w : World) → is_held w.lock ≡ true → IsOrdered w.trace → IsIdle (call_resume env w).1
  unfolding call_resume
  resumed-IsIdle w h o = record { settled = refl; has_lock = h; ordered = (tt, o) }

  pub sleep-IsIdle : (ms : ℕ) (w : World) → IsIdle w → IsIdle (sleep env ms w).1
  unfolding sleep
  sleep-IsIdle ms w v = record {
    settled = v.settled;
    has_lock = v.has_lock;
    ordered = (tt, v.ordered);
  }

  recovered-ServeEnds :
      (loop : World → ServeEnd × World)
      → ((w : World) → IsIdle w → ServeEnds (loop w))
      → (w : World) (out : Result (Unit {0}) × World) → IsOrdered w.trace
      → Recovers w out
      → ServeEnds (recovered env loop w (some out))
  recovered-ServeEnds loop h w (ok _, w') o r =
      h (call_resume env w').1 (resumed-IsIdle w' r.0 (r.2 o))
  recovered-ServeEnds loop h w (err e, w') o r = (inr r.0, r.2 o)

  after_session-ServeEnds :
      (loop : World → ServeEnd × World)
      → ((w : World) → IsIdle w → ServeEnds (loop w))
      → (out : Result SessionOutcome × World) → SessionEnds out
      → ServeEnds (after_session env loop out)
  after_session-ServeEnds loop h (ok committed, w) v = v
  after_session-ServeEnds loop h (ok closed, w) v = h w v
  after_session-ServeEnds loop h (err e, w) v = elim (Bool-cases (is_held w.lock)) [
    | inl held ↦
        rw held (h w (record { settled = ground (arith, v.0); has_lock = held; ordered = v.1 }))
    | inr free ↦
        let (out, done, r) = acquire_with_short_retry-RecoversTo env resume_flock_timeout w free in
        rw (free, done) (recovered-ServeEnds loop h w out v.1 r)
  ]

  module _ (libc : Libc) (euid : ℕ) where
    serve_loop-ServeEnds :
        (backoff : ℕ) (accepts : List Accept) (w : World)
        → IsIdle w
        → ServeEnds (serve_loop env libc euid backoff accepts w)
    unfolding serve_loop
    serve_loop-ServeEnds backoff [] w v = v
    serve_loop-ServeEnds backoff (refused e ∷ rest) w v =
        elim (classify_accept_error libc e)
          as (λ x. ServeEnds (elim x [
            | retry ↦ serve_loop env libc euid backoff rest w
            | exhausted ↦
                serve_loop env libc euid (min (backoff * 2) accept_backoff_max) rest
                  (sleep env backoff w).1
            | fatal ↦ (returned (err (io e)), w)
          ])) [
            | retry ↦ serve_loop-ServeEnds backoff rest w v
            | exhausted ↦
                serve_loop-ServeEnds (min (backoff * 2) accept_backoff_max) rest
                  (sleep env backoff w).1 (sleep-IsIdle backoff w v)
            | fatal ↦ (inl v, v.ordered)
          ]
    serve_loop-ServeEnds backoff (accepted c ∷ rest) w v =
        elim (Result-cases (prepare_session_stream euid c)) [
          | inr (_, e) ↦ rw (e, serve_loop) (serve_loop-ServeEnds accept_backoff_min rest w v)
          | inl (_, e) ↦
              rw (e, serve_loop)
                (after_session-ServeEnds (serve_loop env libc euid accept_backoff_min rest)
                  (serve_loop-ServeEnds accept_backoff_min rest) (handle_session env c.polls w)
                  (handle_session-SessionEnds env c.polls w v))
        ]

    pub serve-ServeEnds :
        (accepts : List Accept) (w : World) → IsIdle w → ServeEnds (serve env libc euid accepts w)
    unfolding serve
    serve-ServeEnds accepts w v = serve_loop-ServeEnds accept_backoff_min accepts w v
