-- ===== src/Protocol.antt =====
-- crates/handoff/src/protocol.rs: the messages of the control channel, their names, and the choice
-- of a protocol version. A `u16`, `u32` or `u64` is a native number; a handoff id, which is an
-- opaque `Uuid` that the code only compares, is a native number too.
mod Negotiate
mod Tests
use handoff.Prelude.{ℕ, ◌≡◌, Bool, List, String, ltb, if◌then◌else◌, min, max}
use handoff.Error.{Result, ok, err, version_mismatch}

abbrev pub ProtoVersion : Type 0
ProtoVersion = ℕ

abbrev pub proto_min : ProtoVersion
proto_min = 1

abbrev pub proto_max : ProtoVersion
proto_max = 1

pub data Side : Type 0 where
  incumbent successor : Side

abbrev pub HandoffId : Type 0
HandoffId = ℕ

abbrev pub Capabilities : Type 0
Capabilities = ℕ

pub data Message : Type 0 where
  hello :
      (role : Side) (pid : ℕ) (build_id : List ℕ) (min_version max_version : ProtoVersion)
      (capabilities : Capabilities)
      → Message
  hello_ack : (proto_version_chosen : ProtoVersion) (handoff_id : HandoffId) → Message
  prepare_handoff :
      (handoff_id : HandoffId) (successor_pid deadline_ms drain_grace_ms : ℕ) → Message
  drained : (open_conns_remaining : ℕ) (accept_closed : Bool) → Message
  seal_request : (handoff_id : HandoffId) → Message
  seal_progress : (shards_sealed shards_total last_revision : ℕ) → Message
  seal_complete :
      (handoff_id : HandoffId) (last_revision_per_shard data_dir_fingerprint : List ℕ) → Message
  seal_failed : (handoff_id : HandoffId) (error partial_state : String) → Message
  begin : (handoff_id : HandoffId) → Message
  ready :
      (handoff_id : HandoffId) (listening_on : List String) (healthz_ok : Bool)
      (advertised_revision_per_shard : List ℕ)
      → Message
  commit : (handoff_id : HandoffId) → Message
  abort : (handoff_id : HandoffId) (reason : String) → Message
  resume_after_abort : (handoff_id : HandoffId) → Message
  heartbeat : (ts_ms : ℕ) → Message

pub short_name : Message → String
short_name (hello _ _ _ _ _ _) = "Hello"
short_name (hello_ack _ _) = "HelloAck"
short_name (prepare_handoff _ _ _ _) = "PrepareHandoff"
short_name (drained _ _) = "Drained"
short_name (seal_request _) = "SealRequest"
short_name (seal_progress _ _ _) = "SealProgress"
short_name (seal_complete _ _ _) = "SealComplete"
short_name (seal_failed _ _ _) = "SealFailed"
short_name (begin _) = "Begin"
short_name (ready _ _ _ _) = "Ready"
short_name (commit _) = "Commit"
short_name (abort _ _) = "Abort"
short_name (resume_after_abort _) = "ResumeAfterAbort"
short_name (heartbeat _) = "Heartbeat"

unfoldable pub negotiate_version :
    (our_min our_max their_min their_max : ProtoVersion) → Result ProtoVersion
negotiate_version our_min our_max their_min their_max =
    let lo = max our_min their_min in
    let hi = min our_max their_max in
    if ltb hi lo then err (version_mismatch our_min our_max their_min their_max) else ok hi
