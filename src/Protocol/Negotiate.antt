-- ===== src/Protocol/Negotiate.antt =====
-- crates/handoff/src/protocol.rs: what `negotiate_version` chooses.
use handoff.Prelude.{◌≤◌, ◌≡◌, ◌↔◌, refl, ap, dec_lt, min, max, arith, ltb-of_lt, ltb-of_le}
use handoff.Error.{ok, err, version_mismatch}
use handoff.Protocol.{ProtoVersion, negotiate_version}

-- A version within both ranges.
pub record Common (our_min our_max their_min their_max v : ProtoVersion) : Type 0 where
  pub ours : (our_min ≤ v) × (v ≤ our_max)
  pub theirs : (their_min ≤ v) × (v ≤ their_max)

-- For all four bounds: `negotiate_version` returns `v` exactly when `v` lies within both ranges and no
-- version within both is higher; and it returns the mismatch error with the four bounds exactly when
-- no version lies within both.
pub negotiate_version-highest :
    (a b c d : ProtoVersion)
    → ((v : ProtoVersion)
        → (negotiate_version a b c d ≡ ok v)
          ↔ (Common a b c d v × ((w : ProtoVersion) → Common a b c d w → w ≤ v)))
      × ((negotiate_version a b c d ≡ err (version_mismatch a b c d))
          ↔ ((w : ProtoVersion) → ¬ Common a b c d w))
unfolding negotiate_version
negotiate_version-highest a b c d = elim (dec_lt (min b d) (max a c)) [
  | yes apart ↦ rw (ltb-of_lt _ _ apart) (
    λ v. ((λ h. absurd (ground arith)), (λ h. absurd (omega arith))),
    ((λ _ w h. omega arith), (λ _. refl)),
  )
  | no meet ↦ rw (ltb-of_le (min b d) (max a c) (omega arith)) (
    λ v. (
      (λ h. let e : min b d ≡ v = ground arith in rw (← e) (omega arith, λ w k. omega arith)),
      (λ h. ap ok (top v h)),
    ),
    ((λ h. absurd (ground arith)), (λ h. absurd (h (min b d) (omega arith)))),
  )
]
  where
    top :
        (v : ProtoVersion)
        → Common a b c d v × ((w : ProtoVersion) → Common a b c d w → w ≤ v)
        → min b d ≡ v
    top v h = elim (dec_lt v (min b d)) [
      | yes below ↦ absurd (omega (arith, h.1 (min b d) (omega arith)))
      | no above ↦ omega arith
    ]
