-- ===== src/Role.antt =====
-- crates/handoff/src/role.rs: the successor's side of a handoff, from the handshake to `Ready`. The results
-- of its `read_message` calls are a list; behind it the supervisor has disconnected.
pub mod Begin
pub mod Environment
pub mod Inherits
pub mod Inherited
pub mod Spawned
pub mod Started
pub mod Foreign
pub mod Takes
pub mod Takeover
pub mod Heartbeats
mod Tests
use handoff.Prelude.{ℕ, Bool, List, [], ◌∷◌, String, ◌==◌, if◌then◌else◌}
use handoff.Error.{
  Result, ok, err, ◌>>=◌, io, from_kind, unexpected_eof, protocol, aborted, unexpected_message,
}
use handoff.Protocol.{
  HandoffId, ProtoVersion, Message, hello_ack, begin, abort, heartbeat, ready, short_name,
}

-- What one `read_message` returns.
abbrev pub Reads : Type 0
Reads = List (Result (ProtoVersion × Message))

pub record HandshookSuccessor : Type 0 where
  pub control : Reads
  pub handoff_id : HandoffId
  pub proto_version : ProtoVersion

pub record BegunSuccessor : Type 0 where
  pub control : Reads
  pub handoff_id : HandoffId
  pub proto_version : ProtoVersion

-- `written` is the result of the write of `Hello`.
unfoldable pub handshake : (written : Result (Unit {0})) → Reads → Result HandshookSuccessor
handshake (err e) control = err e
handshake (ok _) [] = err (io (from_kind unexpected_eof))
handshake (ok _) (err e ∷ control) = err e
handshake (ok _) (ok (_, hello_ack v id) ∷ control) =
    ok (record { control = control; handoff_id = id; proto_version = v })
handshake (ok _) (ok (_, other) ∷ control) = err (unexpected_message (short_name other))

-- The loop; `wrong_id` formats the two ids.
abbrev pub begin_loop :
    (wrong_id : HandoffId → HandoffId → String)
    → HandoffId
    → ProtoVersion
    → Reads
    → Result BegunSuccessor
begin_loop wrong_id expected v [] = err (io (from_kind unexpected_eof))
begin_loop wrong_id expected v (err e ∷ control) = err e
begin_loop wrong_id expected v (ok (_, begin id) ∷ control) =
    if id == expected
    then ok (record { control = control; handoff_id = id; proto_version = v })
    else err (protocol (wrong_id id expected))
begin_loop wrong_id expected v (ok (_, abort _ reason) ∷ control) = err (aborted reason)
begin_loop wrong_id expected v (ok (_, heartbeat _) ∷ control) =
    begin_loop wrong_id expected v control
begin_loop wrong_id expected v (ok (_, other) ∷ control) =
    err (unexpected_message (short_name other))

unfoldable pub wait_for_begin :
    (wrong_id : HandoffId → HandoffId → String) → HandshookSuccessor → Result BegunSuccessor
wait_for_begin wrong_id s = begin_loop wrong_id s.handoff_id s.proto_version s.control

-- The two steps that precede the successor's own work.
abbrev pub start :
    (wrong_id : HandoffId → HandoffId → String) (written : Result (Unit {0}))
    → Reads
    → Result BegunSuccessor
start wrong_id written control = handshake written control >>= wait_for_begin wrong_id

pub record ReadinessSnapshot : Type 0 where
  pub listening_on : List String
  pub healthz_ok : Bool
  pub advertised_revision_per_shard : List ℕ

-- The frame that `announce_ready` writes.
unfoldable pub ready_of : BegunSuccessor → ReadinessSnapshot → ProtoVersion × Message
ready_of s snapshot = (
  s.proto_version,
  ready s.handoff_id snapshot.listening_on snapshot.healthz_ok
      snapshot.advertised_revision_per_shard,
)
