-- ===== src/Incumbent/Session.antt =====
-- crates/handoff/src/incumbent.rs: `handle_session` and `run_session_loop`. The results of the
-- session's `poll_read` calls are a list; after it the supervisor has disconnected.
use handoff.Prelude.{
  ℕ, ◌+◌, min, Bool, true, false, not, ◌&&◌, Option, none, some, List, [], ◌∷◌, ◌==◌, if◌then◌else◌,
}
use handoff.Error.{
  Result, ok, err, Error, protocol, unexpected_message, handoff_in_progress, timeout, io, from_kind,
  ErrorKind, unexpected_eof, connection_reset,
}
use handoff.Protocol.{
  HandoffId, ProtoVersion, Message, Side, hello, hello_ack, prepare_handoff, drained, seal_request,
  seal_complete, seal_failed, commit, abort, resume_after_abort, heartbeat, proto_min, proto_max,
  short_name, negotiate_version,
}
use handoff.Incumbent.World.{
  Env, DrainReport, SealReport, SessionState, default, M, ◌>>=◌, ◌>>◌, pure, throw, catch, lift,
  get_session, put_session, World, write_frame, instant_now, set_read_timeout, call_drain,
  call_seal, call_resume, reacquire, take_lock, run_with_heartbeats,
}

-- What one `poll_read` returns.
abbrev pub Poll : Type 0
Poll = Result (Option (ProtoVersion × Message))

pub data SessionOutcome : Type 0 where
  committed closed : SessionOutcome

abbrev pub is_active : Option HandoffId → HandoffId → Bool
is_active none id = false
is_active (some a) id = a == id

-- The handoff that is active and is not `id`.
abbrev pub is_other : Option HandoffId → HandoffId → Bool
is_other none id = false
is_other (some a) id = not (a == id)

abbrev pub is_disconnect : ErrorKind → Bool
is_disconnect unexpected_eof = true
is_disconnect connection_reset = true
is_disconnect _ = false

abbrev pub go_on : M (Unit {0}) → M (Option SessionOutcome)
go_on m = m >>= λ _. pure none

abbrev pub is_committed : Result SessionOutcome → Bool
is_committed (ok committed) = true
is_committed _ = false

abbrev pub next_round :
    M SessionOutcome → Result (Option SessionOutcome) × World → Result SessionOutcome × World
next_round loop (err e, w) = (err e, w)
next_round loop (ok (some o), w) = (ok o, w)
next_round loop (ok none, w) = loop w

-- `HelloAck`, or what came in its place.
abbrev pub read_ack : List Poll → Result Message × List Poll
read_ack [] = (err (io (from_kind unexpected_eof)), [])
read_ack (err e ∷ ps) = (err e, ps)
read_ack (ok none ∷ ps) = (err (timeout "HelloAck"), ps)
read_ack (ok (some (_, msg)) ∷ ps) = (ok msg, ps)

unfoldable pub chosen_version : Message → Result ProtoVersion
chosen_version (hello_ack v _) = negotiate_version proto_min proto_max v v
chosen_version other = err (unexpected_message (short_name other))

module _ (env : Env) (chosen : ProtoVersion) where
  -- `drain` has succeeded.
  unfoldable pub drain_done : DrainReport → M (Unit {0})
  drain_done report = do
    s ← get_session
    put_session (record s { drained = true })
    write_frame env chosen (drained report.open_conns_remaining report.accept_closed)

  unfoldable pub on_prepare : HandoffId → (deadline_ms drain_grace_ms : ℕ) → M (Unit {0})
  on_prepare id deadline_ms drain_grace_ms = do
    s ← get_session
    if is_other s.active id then throw handoff_in_progress else (do
      put_session (record s { active = some id })
      now ← instant_now env
      let deadline = now + min drain_grace_ms deadline_ms
      run_with_heartbeats env chosen (call_drain env deadline) >>= drain_done)

  unfoldable pub seal_done : HandoffId → Result SealReport → M (Unit {0})
  seal_done id (ok report) = do
    take_lock env
    s ← get_session
    put_session (record s { sealed = true })
    write_frame env chosen
        (seal_complete id report.last_revision_per_shard report.data_dir_fingerprint)
  seal_done id (err e) = do
    write_frame env chosen (seal_failed id (env.display e) "")
    call_resume env
    s ← get_session
    put_session (record s { drained = false; active = none })

  unfoldable pub on_seal_request : HandoffId → M (Unit {0})
  on_seal_request id = do
    s ← get_session
    if is_active s.active id
        then (catch (run_with_heartbeats env chosen (call_seal env)) >>= seal_done id)
        else throw (unexpected_message "SealRequest for unknown id")

  unfoldable pub on_commit : HandoffId → M (Option SessionOutcome)
  on_commit id = do
    s ← get_session
    if is_active s.active id
        then (if s.sealed
            then pure (some committed)
            else throw (protocol "Commit before SealComplete"))
        else throw (unexpected_message "Commit for unknown id")

  -- The part that `ResumeAfterAbort` and `Abort` share.
  unfoldable pub roll_back : SessionState → M (Unit {0})
  roll_back s =
      if s.sealed
      then (do
        reacquire env
        call_resume env
        s' ← get_session
        put_session (record s' { sealed = false; drained = false }))
      else (if s.drained
          then (do call_resume env; s' ← get_session; put_session (record s' { drained = false }))
          else pure tt)

  unfoldable pub on_resume : HandoffId → M (Unit {0})
  on_resume id = do
    s ← get_session
    if is_active s.active id
        then (do roll_back s; s' ← get_session; put_session (record s' { active = none }))
        else throw (unexpected_message "Resume for unknown id")

  unfoldable pub on_abort : HandoffId → M (Unit {0})
  on_abort id = do
    s ← get_session
    if is_active s.active id
        then (do roll_back s; s' ← get_session; put_session (record s' { active = none }))
        else throw (unexpected_message "Abort for unknown id")

  -- One message; `none` means that the loop goes on.
  unfoldable pub handle : Message → M (Option SessionOutcome)
  handle (prepare_handoff id _ deadline_ms drain_grace_ms) =
      go_on (on_prepare id deadline_ms drain_grace_ms)
  handle (seal_request id) = go_on (on_seal_request id)
  handle (commit id) = on_commit id
  handle (resume_after_abort id) = go_on (on_resume id)
  handle (abort id reason) = go_on (on_abort id)
  handle (heartbeat _) = do now ← instant_now env; go_on (write_frame env chosen (heartbeat now))
  handle other = throw (unexpected_message (short_name other))

  -- `poll_read` has failed.
  unfoldable pub on_read_error : Error → M SessionOutcome
  on_read_error (io e) = do
    s ← get_session
    if is_disconnect e.kind
        then (if s.sealed
            then throw (protocol "supervisor disconnected after seal; resuming")
            else pure closed)
        else throw (io e)
  on_read_error e = throw e

  unfoldable pub run_session_loop : List Poll → M SessionOutcome
  run_session_loop [] w = on_read_error (io (from_kind unexpected_eof)) w
  run_session_loop (err e ∷ ps) w = on_read_error e w
  run_session_loop (ok none ∷ ps) w = run_session_loop ps w
  run_session_loop (ok (some (_, msg)) ∷ ps) w = next_round (run_session_loop ps) (handle msg w)

module _ (env : Env) where
  -- The consumer stopped accepting when `drain` was called: tell it to start again.
  unfoldable pub clean_up : Result SessionOutcome → M SessionOutcome
  clean_up outcome = do
    s ← get_session
    if s.drained && not s.sealed && not (is_committed outcome)
        then (catch (call_resume env) >>= λ _. lift outcome)
        else lift outcome

  -- The version is chosen.
  unfoldable pub run_session : List Poll → ProtoVersion → M SessionOutcome
  run_session polls chosen = do
    put_session default
    catch (run_session_loop env chosen polls) >>= clean_up

  unfoldable pub with_ack : List Poll → Message → M SessionOutcome
  with_ack polls ack = do chosen ← lift (chosen_version ack); run_session polls chosen

  unfoldable pub await_ack : List Poll → M SessionOutcome
  await_ack polls = do
    set_read_timeout env
    ack ← lift (read_ack polls).0
    with_ack (read_ack polls).1 ack

  unfoldable pub handle_session : List Poll → M SessionOutcome
  handle_session polls = do
    write_frame env proto_max (hello Side.incumbent env.me env.build_id proto_min proto_max 0)
    await_ack polls
