-- ===== src/Incumbent/Serve.antt =====
-- crates/handoff/src/incumbent.rs: `serve`, the accept loop, with its recovery from a failed session.
-- What `accept` returns is a list; after it the process waits in `accept`. The numbers of the
-- operating system's errors are those of `Libc`.
use handoff.Prelude.{
  ℕ, zero, suc, ◌+◌, ◌*◌, ◌/◌, min, Bool, true, false, ◌||◌, Option, none, some, List, [], ◌∷◌, ltb,
  ◌==◌, if◌then◌else◌,
}
use handoff.Error.{
  Result, ok, err, io, lock_held, peer_not_permitted, IoError, ErrorKind, interrupted,
}
use handoff.Sock.{peer_uid_is_allowed}
use handoff.Incumbent.World.{Env, World, is_held, instant_now, sleep, call_resume, reacquire}
use handoff.Incumbent.Session.{Poll, SessionOutcome, committed, closed, handle_session}

-- Milliseconds.
abbrev pub resume_flock_timeout : ℕ
resume_flock_timeout = 2000

abbrev pub retry_interval : ℕ
retry_interval = 25

abbrev pub accept_backoff_min : ℕ
accept_backoff_min = 5

abbrev pub accept_backoff_max : ℕ
accept_backoff_max = 1000

pub record Libc : Type 0 where
  pub econnaborted : ℕ
  pub eproto : ℕ
  pub eperm : ℕ
  pub emfile : ℕ
  pub enfile : ℕ
  pub enobufs : ℕ
  pub enomem : ℕ
  pub eagain : ℕ

pub data AcceptFailure : Type 0 where
  retry exhausted fatal : AcceptFailure

abbrev pub is_interrupted : ErrorKind → Bool
is_interrupted interrupted = true
is_interrupted _ = false

abbrev pub classify_errno : Libc → Option ℕ → AcceptFailure
classify_errno l none = fatal
classify_errno l (some n) =
    if n == l.econnaborted || (n == l.eproto || n == l.eperm)
    then retry
    else (if n == l.emfile
          || (n == l.enfile || (n == l.enobufs || (n == l.enomem || n == l.eagain)))
        then exhausted
        else fatal)

unfoldable pub classify_accept_error : Libc → IoError → AcceptFailure
classify_accept_error l e = if is_interrupted e.kind then retry else classify_errno l e.raw_os_error

pub record Connection : Type 0 where
  pub peer_uid : Result ℕ
  pub configured : Result (Unit {0})
  pub polls : List Poll

pub data Accept : Type 0 where
  accepted : Connection → Accept
  refused : IoError → Accept

-- How `serve` stands at the end of the list; `out_of_fuel` never occurs.
pub data ServeEnd : Type 0 where
  waiting out_of_fuel : ServeEnd
  returned : Result (Unit {0}) → ServeEnd

unfoldable pub prepare_session_stream : ℕ → Connection → Result (Unit {0})
prepare_session_stream euid c = elim c.peer_uid [
  | err e ↦ err e
  | ok uid ↦ if peer_uid_is_allowed euid uid [] then c.configured else err (peer_not_permitted uid)
]

module _ (env : Env) where
  -- What follows one attempt to take the flock.
  abbrev pub retry_round :
      (World → Option (Result (Unit {0}) × World))
      → ℕ
      → Result (Unit {0}) × World
      → Option (Result (Unit {0}) × World)
  retry_round loop deadline (ok _, w) = some (ok tt, w)
  retry_round loop deadline (err (lock_held p), w) =
      let w₁ = (instant_now env w).1 in
      if ltb w₁.time deadline
      then loop (sleep env retry_interval w₁).1
      else some (err (lock_held p), w₁)
  retry_round loop deadline (err e, w) = some (err e, w)

  unfoldable pub retry_loop : ℕ → ℕ → World → Option (Result (Unit {0}) × World)
  retry_loop zero deadline w = none
  retry_loop (suc f) deadline w = retry_round (retry_loop f deadline) deadline (reacquire env w)

  -- A round that goes on takes `retry_interval` at least.
  unfoldable pub acquire_with_short_retry : ℕ → World → Option (Result (Unit {0}) × World)
  acquire_with_short_retry limit w =
      let w₁ = (instant_now env w).1 in
      retry_loop (suc (suc (limit / retry_interval))) (w₁.time + limit) w₁

  abbrev pub recovered :
      (World → ServeEnd × World) → World → Option (Result (Unit {0}) × World) → ServeEnd × World
  recovered loop w none = (out_of_fuel, w)
  recovered loop w (some (ok _, w')) = loop (call_resume env w').1
  recovered loop w (some (err e, w')) = (returned (err e), w')

  -- What follows a session.
  abbrev pub after_session :
      (World → ServeEnd × World) → Result SessionOutcome × World → ServeEnd × World
  after_session loop (ok committed, w) = (returned (ok tt), w)
  after_session loop (ok closed, w) = loop w
  after_session loop (err e, w) =
      if is_held w.lock
      then loop w
      else recovered loop w (acquire_with_short_retry resume_flock_timeout w)

  module _ (libc : Libc) (euid : ℕ) where
    unfoldable pub serve_loop : ℕ → List Accept → World → ServeEnd × World
    serve_loop backoff [] w = (waiting, w)
    serve_loop backoff (refused e ∷ rest) w = elim (classify_accept_error libc e) [
      | retry ↦ serve_loop backoff rest w
      | exhausted ↦ serve_loop (min (backoff * 2) accept_backoff_max) rest (sleep env backoff w).1
      | fatal ↦ (returned (err (io e)), w)
    ]
    serve_loop backoff (accepted c ∷ rest) w = elim (prepare_session_stream euid c) [
      | err _ ↦ serve_loop accept_backoff_min rest w
      | ok _ ↦ after_session (serve_loop accept_backoff_min rest) (handle_session env c.polls w)
    ]

    unfoldable pub serve : List Accept → World → ServeEnd × World
    serve accepts w = serve_loop accept_backoff_min accepts w
