-- ===== src/Incumbent/Tests.antt =====
-- crates/handoff/src/incumbent.rs: runs of the accept loop and of one session.
use handoff.Prelude.{◌≡◌, refl, true, false, none, some, List, [], ◌∷◌, ltb, if◌then◌else◌, arith}
use handoff.Error.{ok, err, protocol}
use handoff.Protocol.{
  negotiate_version, Side, hello, drained, seal_complete, hello_ack, prepare_handoff, seal_request,
  commit, abort,
}
use handoff.Incumbent.World.{Env, World, is_held}
use handoff.Incumbent.Session.{Poll, handle_session, chosen_version}
use handoff.Incumbent.Serve.{
  Accept, accepted, Connection, returned, prepare_session_stream, serve, acquire_with_short_retry,
}
use handoff.Incumbent.Quiet.{writing}
use handoff.Incumbent.Recovery.{RecoversTo, acquire_with_short_retry-RecoversTo}
use handoff.Incumbent.Sessions.{SessionEnds, handle_session-SessionEnds}
use handoff.Incumbent.TwoSeals.{sealed_twice, second_seal-open}
use handoff.Sock.{peer_uid_is_allowed}
use handoff.Incumbent.Quiet
use handoff.Incumbent.Commits.{serve-commits}
use handoff.Incumbent.Example.{
  drain_report, seal_report, answers-IsHealthy, answers, idle, idle-IsIdle, linux, from_peer,
}

-- A session that is aborted behind its seal.
abbrev aborted_polls : List Poll
aborted_polls =
    ok (some (1, hello_ack 1 9))
    ∷ ok (some (1, prepare_handoff 9 2 1000 100))
    ∷ ok (some (1, seal_request 9))
    ∷ ok (some (1, abort 9 "stop"))
    ∷ []

-- A session that commits.
abbrev committed_polls : List Poll
committed_polls =
    ok (some (1, hello_ack 1 9))
    ∷ ok (some (1, prepare_handoff 9 2 1000 100))
    ∷ ok none
    ∷ ok (some (1, seal_request 9))
    ∷ ok (some (1, commit 9))
    ∷ []

abbrev two_sessions : List Accept
two_sessions = from_peer aborted_polls ∷ from_peer committed_polls ∷ []

handle_session-SessionEnds_example :
    SessionEnds (handle_session (answers (ok tt)) aborted_polls idle)
handle_session-SessionEnds_example =
    handle_session-SessionEnds (answers (ok tt)) aborted_polls idle idle-IsIdle

abbrev no_lock : World
no_lock = record idle { lock = none }

acquire_with_short_retry-RecoversTo_example :
    RecoversTo (answers (ok tt)) no_lock (acquire_with_short_retry (answers (ok tt)) 2000 no_lock)
acquire_with_short_retry-RecoversTo_example =
    acquire_with_short_retry-RecoversTo (answers (ok tt)) 2000 no_lock refl

-- The session has drained, and its first `seal` succeeds alone.
abbrev drained_once : World
drained_once = record idle { session = record { active = some 9; sealed = false; drained = true } }

abbrev seals_once : Env
seals_once = record (answers (ok tt)) {
  seal = λ n. if ltb 1 n then err (protocol "seal") else ok seal_report;
}

second_seal-open_example :
    (writing (sealed_twice seals_once 1 9 drained_once).0.trace ≡ false)
    × (is_held (sealed_twice seals_once 1 9 drained_once).0.lock ≡ false)
    × (writing (sealed_twice seals_once 1 9 drained_once).1.trace ≡ true)
    × (is_held (sealed_twice seals_once 1 9 drained_once).1.lock ≡ false)
second_seal-open_example =
    second_seal-open seals_once 1 9 drained_once seal_report (protocol "seal") refl refl (λ _. refl)
      refl (λ n h. ground arith) (λ _. refl) (λ _. refl)

abbrev supervised : Connection
supervised = record { peer_uid = ok 100; configured = ok tt; polls = committed_polls }

-- The supervisor lets one read time out.
serve-commits_example :
    ((serve (answers (ok tt)) linux 100 (accepted supervised ∷ []) idle).0 ≡ returned (ok tt))
    × (is_held (serve (answers (ok tt)) linux 100 (accepted supervised ∷ []) idle).1.lock ≡ false)
    × (Quiet.answers (serve (answers (ok tt)) linux 100 (accepted supervised ∷ []) idle).1.trace
        ≡ seal_complete 9 (4 ∷ []) [] ∷ drained 0 true ∷ hello Side.incumbent 1 [] 1 1 0 ∷ [])
unfolding prepare_session_stream chosen_version negotiate_version peer_uid_is_allowed
serve-commits_example =
    serve-commits (answers (ok tt)) drain_report seal_report answers-IsHealthy 1 9 [] (ok none ∷ [])
      [] [] 2 1000 100 (tt, tt, tt) linux 100 supervised [] 1 1 idle refl refl refl refl
