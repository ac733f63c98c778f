-- ===== src/Together/Tests.antt =====
-- crates/handoff/src/incumbent.rs and supervisor.rs: one handoff that commits, from both sides.
use handoff.Prelude.{true, false, ◌≡◌, ◌≤◌, refl, none, some, List, [], ◌∷◌, take}
use handoff.Error.{ok}
use handoff.Protocol.{
  Message, hello_ack, prepare_handoff, seal_request, begin, commit, Side, hello, drained,
  seal_complete, negotiate_version,
}
use handoff.State.{write_atomic, delete}
use handoff.Supervisor.World.{
  instant_now, now_unix_ms, configure_control_stream, write_frame, arm_recv_timeout,
  remaining_until, spawn_successor, disarm, journal_set, journal_clear,
}
use handoff.Supervisor.Wire.{
  exchange_hello_as_supervisor, poll_read, answer_hello, read_until, read_loop, receive, seal_loop,
}
use handoff.Supervisor.Handoff.{
  perform_handoff, drive, greet_incumbent, launch, with_successor, drain_phase, seal_phase,
  after_seal, begin_phase, await_ready, conclude, commit_handoff,
}
use handoff.Supervisor.Asks.{asked}
use handoff.Supervisor.Once.{perform_handoff-asked}
use handoff.Supervisor
use handoff.Role.{Reads, BegunSuccessor, handshake, wait_for_begin}
use handoff.Together.Begins.{to_successor, received, BeganSealed, start-BeganSealed}
use handoff.Incumbent.World.{World, is_held}
use handoff.Incumbent.Session.{Poll, chosen_version}
use handoff.Incumbent.Serve.{
  ServeEnd, accepted, Connection, returned, prepare_session_stream, serve,
}
use handoff.Incumbent.Quiet
use handoff.Sock.{peer_uid_is_allowed}
use handoff.Supervisor.Script.{committed_with}
use handoff.Together.Commits.{
  end, pause, read, IsReadFrom, IsAccepted, serve-perform_handoff-commits,
}
use handoff.Incumbent.Example.{drain_report, seal_report, answers-IsHealthy, answers, idle, linux}
use handoff.Together.{to_incumbent}

abbrev frames : List Message
frames =
    to_incumbent
      (perform_handoff Supervisor.Example.answers Supervisor.Example.spec
        Supervisor.Example.healthy).1.trace

-- The incumbent reads all of them, with a timeout in between.
abbrev polls : List Poll
polls =
    ok (some (1, hello_ack 1 9))
    ∷ ok (some (1, prepare_handoff 9 7 299988 60000))
    ∷ ok none
    ∷ ok (some (1, seal_request 9))
    ∷ ok (some (1, commit 9))
    ∷ []

perform_handoff-asked_example :
    asked
      (perform_handoff Supervisor.Example.answers Supervisor.Example.spec
        Supervisor.Example.healthy).1.trace
    ≤ 1
perform_handoff-asked_example =
    perform_handoff-asked Supervisor.Example.answers Supervisor.Example.spec
      Supervisor.Example.healthy

-- The successor reads its two frames.
abbrev control : Reads
control = ok (1, hello_ack 1 9) ∷ ok (1, begin 9) ∷ []

abbrev begun : BegunSuccessor
begun = record { control = []; handoff_id = 9; proto_version = 1 }

control_received :
    received control
    ≡ take 2 (
        to_successor
          (perform_handoff Supervisor.Example.answers Supervisor.Example.spec
            Supervisor.Example.healthy).1.trace)
unfolding perform_handoff drive greet_incumbent launch with_successor drain_phase seal_phase
    after_seal begin_phase await_ready conclude commit_handoff instant_now now_unix_ms
    configure_control_stream write_frame arm_recv_timeout remaining_until spawn_successor disarm
    journal_set journal_clear exchange_hello_as_supervisor poll_read answer_hello read_until
    read_loop receive seal_loop negotiate_version write_atomic delete
control_received = refl

start-BeganSealed_example :
    BeganSealed 9
      (perform_handoff Supervisor.Example.answers Supervisor.Example.spec
        Supervisor.Example.healthy).1.trace
unfolding handshake wait_for_begin
start-BeganSealed_example =
    start-BeganSealed Supervisor.Example.answers Supervisor.Example.spec Supervisor.Example.healthy
      (λ _ _. "wrong id") control begun 2 (record { free = refl; unowned = refl; ordered = tt })
      control_received refl

abbrev polled_from : Connection
polled_from = record { peer_uid = ok 100; configured = ok tt; polls = polls }

polls-IsReadFrom : IsReadFrom 1 frames polls
unfolding perform_handoff drive greet_incumbent launch with_successor drain_phase seal_phase
    after_seal begin_phase await_ready conclude commit_handoff instant_now now_unix_ms
    configure_control_stream write_frame arm_recv_timeout remaining_until spawn_successor disarm
    journal_set journal_clear exchange_hello_as_supervisor poll_read answer_hello read_until
    read_loop receive seal_loop negotiate_version write_atomic delete
polls-IsReadFrom = (
  refl,
  read (prepare_handoff 9 7 299988 60000)
      (pause (read (seal_request 9) (read (commit 9) (end [])))),
)

frames-IsAccepted : IsAccepted 1 frames
unfolding perform_handoff drive greet_incumbent launch with_successor drain_phase seal_phase
    after_seal begin_phase await_ready conclude commit_handoff instant_now now_unix_ms
    configure_control_stream write_frame arm_recv_timeout remaining_until spawn_successor disarm
    journal_set journal_clear exchange_hello_as_supervisor poll_read answer_hello read_until
    read_loop receive seal_loop negotiate_version write_atomic delete chosen_version
frames-IsAccepted = refl

abbrev served : ServeEnd × World
served = serve (answers (ok tt)) linux 100 (accepted polled_from ∷ []) idle

serve-perform_handoff-commits_example :
    ((perform_handoff Supervisor.Example.answers Supervisor.Example.spec
        Supervisor.Example.healthy).0
      ≡ ok (committed_with Supervisor.Example.answers 7))
    × (served.0 ≡ returned (ok tt))
    × (is_held served.1.lock ≡ false)
    × (Quiet.answers served.1.trace
        ≡ seal_complete 9 (4 ∷ []) [] ∷ drained 0 true ∷ hello Side.incumbent 1 [] 1 1 0 ∷ [])
unfolding prepare_session_stream peer_uid_is_allowed
serve-perform_handoff-commits_example =
    serve-perform_handoff-commits Supervisor.Example.answers 7 1
      Supervisor.Example.answers-IsHealthy Supervisor.Example.spec Supervisor.Example.script
      Supervisor.Example.script-IsCooperative (answers (ok tt)) drain_report seal_report
      answers-IsHealthy 1 Supervisor.Example.healthy linux 100 polled_from [] idle refl refl refl
      refl refl refl polls-IsReadFrom frames-IsAccepted refl
