-- ===== src/Role/Begin.antt =====
-- crates/handoff/src/role.rs: when the successor may begin.
use handoff.Prelude.{ℕ, ◌≡◌, ◌↔◌, refl, sym, subst, [], ◌∷◌, String, arith}
use handoff.Error.{ok, err}
use handoff.Protocol.{HandoffId, ProtoVersion, hello_ack, begin, heartbeat}
use handoff.Role.{Reads, BegunSuccessor, handshake, begin_loop, wait_for_begin, start}

-- After heartbeats alone comes `Begin` of the handoff, and then `rest`.
pub data Begins (id : HandoffId) (rest : Reads) : Reads → Type 0 where
  now : (v : ProtoVersion) → Begins id rest (ok (v, begin id) ∷ rest)
  beat :
      (v : ProtoVersion) (t : ℕ) {control : Reads}
      → Begins id rest control
      → Begins id rest (ok (v, heartbeat t) ∷ control)

begin_loop-of-Begins :
    (wrong_id : HandoffId → HandoffId → String) (id : HandoffId) (v : ProtoVersion)
    (rest control : Reads)
    → Begins id rest control
    → begin_loop wrong_id id v control
      ≡ ok (record { control = rest; handoff_id = id; proto_version = v })
begin_loop-of-Begins wrong_id id v rest _ (now u) = ground arith
begin_loop-of-Begins wrong_id id v rest _ (beat u t b) = begin_loop-of-Begins wrong_id id v rest _ b

begin_loop-Begins :
    (wrong_id : HandoffId → HandoffId → String) (id : HandoffId) (v : ProtoVersion)
    (control : Reads) (s : BegunSuccessor)
    → begin_loop wrong_id id v control ≡ ok s
    → (s.handoff_id ≡ id) × (s.proto_version ≡ v) × Begins id s.control control
begin_loop-Begins wrong_id id v [] s h = absurd (ground arith)
begin_loop-Begins wrong_id id v (err e ∷ control) s h = absurd (ground arith)
begin_loop-Begins wrong_id id v (ok (u, begin i) ∷ control) s h =
    let same : i ≡ id = ground arith in
    let e : record { control = control; handoff_id = i; proto_version = v } ≡ s = ground arith in
    rw (← e)
      (same, refl, subst (λ k. Begins id control (ok (u, begin k) ∷ control)) (sym same) (now u))
begin_loop-Begins wrong_id id v (ok (u, heartbeat t) ∷ control) s h =
    let (p, q, b) = begin_loop-Begins wrong_id id v control s h in (p, q, beat u t b)
begin_loop-Begins wrong_id id v (ok (u, other) ∷ control) s h = absurd (ground arith)

-- What the supervisor must send for a successor to begin.
pub data Starts (s : BegunSuccessor) : Reads → Type 0 where
  start_with :
      (u : ProtoVersion) {control : Reads}
      → Begins s.handoff_id s.control control
      → Starts s (ok (u, hello_ack s.proto_version s.handoff_id) ∷ control)

start-of-Starts :
    (wrong_id : HandoffId → HandoffId → String) (s : BegunSuccessor) (control : Reads)
    → Starts s control
    → start wrong_id (ok tt) control ≡ ok s
unfolding handshake wait_for_begin
start-of-Starts wrong_id s _ (start_with u {control} b) =
    begin_loop-of-Begins wrong_id s.handoff_id s.proto_version s.control control b

Starts-of-start :
    (wrong_id : HandoffId → HandoffId → String) (s : BegunSuccessor) (control : Reads)
    → start wrong_id (ok tt) control ≡ ok s
    → Starts s control
unfolding handshake wait_for_begin
Starts-of-start wrong_id s [] h = absurd (ground arith)
Starts-of-start wrong_id s (err e ∷ control) h = absurd (ground arith)
Starts-of-start wrong_id s (ok (u, hello_ack v id) ∷ control) h =
    let (p, q, b) = begin_loop-Begins wrong_id id v control s h in
    subst (λ k. Starts s (ok (u, hello_ack k id) ∷ control)) q
      (subst (λ k. Starts s (ok (u, hello_ack s.proto_version k) ∷ control)) p
        (start_with u (subst (λ k. Begins k s.control control) (sym p) b)))
Starts-of-start wrong_id s (ok (u, other) ∷ control) h = absurd (ground arith)

-- For every sequence of reads, where `Hello` was written: `handshake` and then `wait_for_begin` succeed
-- with a handoff id and a version exactly when the supervisor sent a `HelloAck` with both, then
-- nothing but heartbeats, and then a `Begin` with the same id; what follows that is still to be read.
pub start-Starts :
    (wrong_id : HandoffId → HandoffId → String) (control : Reads) (s : BegunSuccessor)
    → (start wrong_id (ok tt) control ≡ ok s) ↔ Starts s control
start-Starts wrong_id control s =
    (Starts-of-start wrong_id s control, start-of-Starts wrong_id s control)
