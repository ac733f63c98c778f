-- ===== src/Protocol/Tests.antt =====
-- crates/handoff/src/protocol.rs: a negotiation with an overlap.
use handoff.Prelude.{◌≡◌, ◌↔◌, ◌≤◌, refl}
use handoff.Error.{ok, err, version_mismatch}
use handoff.Protocol.{ProtoVersion, negotiate_version}
use handoff.Protocol.Negotiate.{Common, negotiate_version-highest}

overlap : negotiate_version 1 5 3 7 ≡ ok 5
unfolding negotiate_version
overlap = refl

negotiate_version-highest_example :
    ((v : ProtoVersion)
      → (negotiate_version 1 5 3 7 ≡ ok v)
        ↔ (Common 1 5 3 7 v × ((w : ProtoVersion) → Common 1 5 3 7 w → w ≤ v)))
    × ((negotiate_version 1 5 3 7 ≡ err (version_mismatch 1 5 3 7))
        ↔ ((w : ProtoVersion) → ¬ Common 1 5 3 7 w))
negotiate_version-highest_example = negotiate_version-highest 1 5 3 7
