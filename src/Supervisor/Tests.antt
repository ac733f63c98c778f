-- ===== src/Supervisor/Tests.antt =====
-- crates/handoff/src/supervisor.rs: a handoff that commits, and one whose successor dies.
use handoff.Prelude.{ℕ, ◌≡◌, refl, Bool, true, false, inl, Option, some, List, [], ◌∷◌}
use handoff.Error.{Result, ok, err}
use handoff.Protocol.{negotiate_version, hello_ack, prepare_handoff, seal_request, commit}
use handoff.State.{write_atomic, delete}
use handoff.Supervisor.World.{
  instant_now, now_unix_ms, configure_control_stream, write_frame, arm_recv_timeout,
  remaining_until, spawn_successor, disarm, kill_and_reap, send_best_effort_abort, journal_set,
  journal_clear,
}
use handoff.Supervisor.Wire.{
  exchange_hello_as_supervisor, poll_read, answer_hello, read_until, read_loop, receive, seal_loop,
}
use handoff.Supervisor.Handoff.{
  HandoffOutcome, perform_handoff, drive, greet_incumbent, launch, with_successor, drain_phase,
  seal_phase, after_seal, begin_phase, await_ready, conclude, commit_handoff, abort_handoff,
}
use handoff.Supervisor.Settles.{Settles, perform_handoff-Settles}
use handoff.State.{sealing}
use handoff.State.Durable.{Leaves}
use handoff.State.Example.{write_entry, numbers, numbers-IsInverse}
use handoff.Supervisor.World.{Env, entry}
use handoff.Supervisor.Resume.{Resumes, restarted, resume_from_journal-journal_set}
use handoff.Supervisor.Healthy.{told_of}
use handoff.Supervisor.Script.{committed_with}
use handoff.Supervisor.Commits.{perform_handoff-commits}
use handoff.Supervisor.Example.{
  script, answers-IsHealthy, script-IsCooperative, answers, healthy, dying, spec,
}

abbrev is_committed : Result HandoffOutcome → Bool
is_committed (ok o) = o.committed
is_committed (err _) = false

perform_handoff-Settles_example :
    ((perform_handoff answers spec healthy).1.in_flight ≡ false)
    × Settles answers healthy (perform_handoff answers spec healthy)
perform_handoff-Settles_example =
    perform_handoff-Settles answers spec healthy
      (record { free = refl; unowned = refl; ordered = tt })

healthy_committed : is_committed (perform_handoff answers spec healthy).0 ≡ true
unfolding perform_handoff drive greet_incumbent launch with_successor drain_phase seal_phase
    after_seal begin_phase await_ready conclude commit_handoff instant_now now_unix_ms
    configure_control_stream write_frame arm_recv_timeout remaining_until spawn_successor disarm
    journal_set journal_clear exchange_hello_as_supervisor poll_read answer_hello read_until
    read_loop receive seal_loop negotiate_version write_atomic delete
healthy_committed = refl

-- The successor is reaped, and the incumbent told to resume.
dying_aborted : is_committed (perform_handoff answers spec dying).0 ≡ false
unfolding perform_handoff drive greet_incumbent launch with_successor drain_phase seal_phase
    after_seal begin_phase await_ready conclude abort_handoff send_best_effort_abort kill_and_reap
    instant_now now_unix_ms configure_control_stream write_frame arm_recv_timeout remaining_until
    spawn_successor journal_set journal_clear exchange_hello_as_supervisor poll_read answer_hello
    read_until read_loop receive seal_loop negotiate_version write_atomic delete
dying_aborted = refl

abbrev numbered : Env
numbered = record answers { codec = numbers }

journal_is_set : (journal_set numbered sealing 7 0 healthy).0 ≡ ok tt
unfolding journal_set write_atomic
journal_is_set = refl

abbrev journaled_bytes : Option (List ℕ)
journaled_bytes = some (write_entry (entry numbered sealing 7 0))

entry_survives : Leaves (journal_set numbered sealing 7 0 healthy).1.journal journaled_bytes
unfolding journal_set write_atomic
entry_survives = inl (λ _. refl)

-- The machine loses power behind the journal of the seal.
resume_from_journal-journal_set_example :
    Resumes numbered (entry numbered sealing 7 0) (journal_set numbered sealing 7 0 healthy).1
    × Resumes numbered
        (entry numbered sealing 7 0)
        (restarted numbered journaled_bytes (journal_set numbered sealing 7 0 healthy).1)
resume_from_journal-journal_set_example =
    resume_from_journal-journal_set numbered numbers-IsInverse sealing 7 0 healthy journaled_bytes
      refl (λ _. refl) journal_is_set entry_survives

perform_handoff-commits_example :
    ((perform_handoff answers spec healthy).0 ≡ ok (committed_with answers 7))
    × ((v left : ℕ) × (told_of (perform_handoff answers spec healthy).1.trace
          ≡ commit 9 ∷ seal_request 9 ∷ prepare_handoff 9 7 left 60000 ∷ hello_ack v 9 ∷ []))
perform_handoff-commits_example =
    perform_handoff-commits answers 7 1 answers-IsHealthy spec script script-IsCooperative healthy
      refl refl refl refl
