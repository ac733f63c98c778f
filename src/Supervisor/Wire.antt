-- ===== src/Supervisor/Wire.antt =====
-- crates/handoff/src/supervisor.rs: `exchange_hello_as_supervisor`, `read_until`, and the loop that
-- waits for the seal. What a peer's `poll_read` calls return is a list; behind it the peer has
-- disconnected.
use handoff.Prelude.{
  ℕ, ◌+◌, max, Bool, true, false, Option, none, some, List, [], ◌∷◌, String, leb, ◌==◌,
  if◌then◌else◌,
}
use handoff.Error.{
  Result, ok, err, io, from_kind, unexpected_eof, timeout, unexpected_message, protocol,
  pid_mismatch,
}
use handoff.Fallible.{◌>>=◌, ◌>>◌, pure, throw, lift}
use handoff.Protocol.{
  ProtoVersion, Message, Side, incumbent, successor, hello, hello_ack, heartbeat, seal_progress,
  seal_complete, seal_failed, proto_min, proto_max, short_name, negotiate_version,
}
use handoff.Supervisor.World.{
  Env, World, M, Reading, note, got, ticked, put_stream, stream, min_read_timeout, instant_now,
  write_frame, arm_recv_timeout, send_best_effort_abort, kill_and_reap, journal_clear,
}

-- `seal_outcome`
pub data SealOutcome : Type 0 where
  sealed : SealOutcome
  failed : String → SealOutcome

abbrev pub same_side : Side → Side → Bool
same_side incumbent incumbent = true
same_side successor successor = true
same_side _ _ = false

-- One reading is taken from the peer's stream.
abbrev pub take_reading : Side → Reading → List Reading → World → World
take_reading peer r rest w =
    let w₁ = record (put_stream peer rest w) { time = w.time + r.took } in
    elim r.polled [ ok (some (_, m)) ↦ note (got peer m) w₁ | _ ↦ ticked w₁ ]

unfoldable pub receive : Side → Reading → List Reading → M (Unit {0})
receive peer r rest w = (ok tt, take_reading peer r rest w)

-- The first reading, as a result.
unfoldable pub poll_read : Side → M (Option (ProtoVersion × Message))
poll_read peer w = elim (stream peer w) [
  | [] ↦ (err (io (from_kind unexpected_eof)), ticked w)
  | r ∷ rest ↦ (r.polled, take_reading peer r rest w)
]

module _ (env : Env) where
  abbrev pub check_pid : Option ℕ → ℕ → Result (Unit {0})
  check_pid none announced = ok tt
  check_pid (some expected) announced =
      if announced == expected then ok tt else err (pid_mismatch expected announced)

  unfoldable pub answer_hello :
      Side
      → (expected_role : Side) → (expected_pid : Option ℕ) → Option (ProtoVersion × Message)
      → M ProtoVersion
  answer_hello peer expected_role expected_pid none = throw (timeout "peer Hello")
  answer_hello peer expected_role expected_pid (some (_, hello role pid _ lo hi _)) =
      if same_side role expected_role
      then (do
        lift (check_pid expected_pid pid)
        chosen ← lift (negotiate_version proto_min proto_max lo hi)
        write_frame env peer (hello_ack chosen env.handoff_id)
        pure chosen)
      else throw (protocol (env.wrong_role role expected_role))
  answer_hello peer expected_role expected_pid (some (_, other)) =
      throw (unexpected_message (short_name other))

  unfoldable pub exchange_hello_as_supervisor :
      Side → (expected_role : Side) → (expected_pid : Option ℕ) → M ProtoVersion
  exchange_hello_as_supervisor peer expected_role expected_pid = do
    arm_recv_timeout env
    read ← poll_read peer
    answer_hello peer expected_role expected_pid read

  -- What `read_until` does with a reading; `go` is its next round.
  abbrev pub sort_reading : M Message → String → (Message → Bool) → Reading → M Message
  sort_reading go awaiting pred r = elim r.polled [
    | err e ↦ throw e
    | ok none ↦ if r.partial then go else throw (timeout awaiting)
    | ok (some (_, heartbeat _)) ↦ go
    | ok (some (_, seal_progress _ _ _)) ↦ go
    | ok (some (_, m)) ↦ if pred m then pure m else throw (unexpected_message (short_name m))
  ]

  unfoldable pub read_loop : Side → ℕ → String → (Message → Bool) → List Reading → M Message
  read_loop peer deadline awaiting pred [] = do
    now ← instant_now env
    if leb deadline now
        then throw (timeout awaiting)
        else (do arm_recv_timeout env; throw (io (from_kind unexpected_eof)))
  read_loop peer deadline awaiting pred (r ∷ rest) = do
    now ← instant_now env
    if leb deadline now then throw (timeout awaiting) else (do
      arm_recv_timeout env
      receive peer r rest
      sort_reading (read_loop peer deadline awaiting pred rest) awaiting pred r)

  unfoldable pub read_until : Side → ℕ → String → (Message → Bool) → M Message
  read_until peer limit awaiting pred = do
    now ← instant_now env
    λ w. read_loop peer (now + max limit min_read_timeout) awaiting pred (stream peer w) w

  -- The seal phase is given up: the successor is told, and killed.
  unfoldable pub give_up : String → M SealOutcome
  give_up reason = do
    send_best_effort_abort env reason
    kill_and_reap env
    journal_clear env
    throw (timeout "SealComplete")

  -- What the seal-wait loop does with a reading.
  abbrev pub sort_seal : M SealOutcome → Reading → M SealOutcome
  sort_seal go r = elim r.polled [
    | err e ↦ throw e
    | ok none ↦ if r.partial then go else give_up "incumbent unresponsive during seal"
    | ok (some (_, heartbeat _)) ↦ go
    | ok (some (_, seal_progress _ _ _)) ↦ go
    | ok (some (_, seal_complete id rev fp)) ↦
        if id == env.handoff_id
        then pure sealed
        else throw (unexpected_message (short_name (seal_complete id rev fp)))
    | ok (some (_, seal_failed id error state)) ↦
        if id == env.handoff_id
        then pure (failed error)
        else throw (unexpected_message (short_name (seal_failed id error state)))
    | ok (some (_, other)) ↦ throw (unexpected_message (short_name other))
  ]

  unfoldable pub seal_loop : ℕ → List Reading → M SealOutcome
  seal_loop deadline [] = do
    now ← instant_now env
    if leb deadline now
        then give_up "seal phase timed out"
        else (do arm_recv_timeout env; throw (io (from_kind unexpected_eof)))
  seal_loop deadline (r ∷ rest) = do
    now ← instant_now env
    if leb deadline now then give_up "seal phase timed out" else (do
      arm_recv_timeout env
      receive incumbent r rest
      sort_seal (seal_loop deadline rest) r)
