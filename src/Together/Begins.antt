-- ===== src/Together/Begins.antt =====
-- crates/handoff/src/role.rs and supervisor.rs together: when a successor that this supervisor drives begins.
use handoff.Prelude.{
  ℕ, zero, suc, ◌+◌, ◌≤◌, ◌≡◌, ◌⊎◌, ap, true, inl, List, [], ◌∷◌, ◌++◌, take, String, arith,
}
use handoff.Error.{ok, err}
use handoff.Protocol.{HandoffId, Message, successor, begin}
use handoff.Role.{Reads, BegunSuccessor, start}
use handoff.Role.Begin.{Begins, now, beat, Starts, start_with, start-Starts}
use handoff.Supervisor.World.{Env, World, Event, sent}
use handoff.Supervisor.Handoff.{SpawnSpec, perform_handoff}
use handoff.Supervisor.Trace.{has_sealed, IsOrdered}
use handoff.Supervisor.Settles.{IsIdle, perform_handoff-Settles}

-- The frames that the supervisor has sent the successor, the oldest first.
abbrev pub to_successor : List Event → List Message
to_successor [] = []
to_successor (sent successor m ∷ t) = to_successor t ++ (m ∷ [])
to_successor (_ ∷ t) = to_successor t

-- The frames that the successor reads.
abbrev pub received : Reads → List Message
received [] = []
received (ok (_, m) ∷ control) = m ∷ received control
received (err _ ∷ control) = received control

-- A `Begin` was sent behind a `SealComplete` of the incumbent for this handoff.
abbrev pub BeganSealed : HandoffId → List Event → Type 0
BeganSealed id [] = ⊥
BeganSealed id (sent successor (begin _) ∷ t) = (has_sealed id t ≡ true) ⊎ BeganSealed id t
BeganSealed id (_ ∷ t) = BeganSealed id t

abbrev begins : List Message → ℕ
begins [] = 0
begins (begin _ ∷ ms) = suc (begins ms)
begins (_ ∷ ms) = begins ms

begins-cons : (m : Message) (ms : List Message) → begins (m ∷ ms) ≡ begins (m ∷ []) + begins ms
begins-cons m ms = ground arith

begins-append : (xs ys : List Message) → begins (xs ++ ys) ≡ begins xs + begins ys
begins-append [] ys = omega arith
begins-append (x ∷ xs) ys =
    omega (arith, begins-cons x (xs ++ ys), begins-cons x xs, begins-append xs ys)

begins-take : (k : ℕ) (xs : List Message) → begins (take k xs) ≤ begins xs
begins-take zero xs = omega arith
begins-take (suc k) [] = omega arith
begins-take (suc k) (x ∷ xs) =
    omega (arith, begins-cons x (take k xs), begins-cons x xs, begins-take k xs)

Begins-begins :
    (id : HandoffId) (rest control : Reads) → Begins id rest control → 1 ≤ begins (received control)
Begins-begins id rest _ (now v) = omega arith
Begins-begins id rest _ (beat v t b) = Begins-begins id rest _ b

Starts-begins :
    (s : BegunSuccessor) (control : Reads) → Starts s control → 1 ≤ begins (received control)
Starts-begins s _ (start_with u {control} b) = Begins-begins s.handoff_id s.control control b

ordered-BeganSealed :
    (id : HandoffId) (t : List Event)
    → IsOrdered id t
    → 1 ≤ begins (to_successor t)
    → BeganSealed id t
ordered-BeganSealed id [] o h = absurd (omega arith)
ordered-BeganSealed id (sent successor (begin i) ∷ t) (a, o) h = inl a
ordered-BeganSealed id (sent successor m ∷ t) (a, o) h =
    ordered-BeganSealed id t o (omega (arith, begins-append (to_successor t) (m ∷ [])))
ordered-BeganSealed id (e ∷ t) (a, o) h = ordered-BeganSealed id t o h

-- For every answer of the incumbent, the successor, the operating system and the clock: if a successor reads the first ones of the
-- frames that the supervisor has written to it by the end of a `perform_handoff`, with errors anywhere between them, and
-- gets past `wait_for_begin`, then the supervisor had received `SealComplete` of this handoff from the
-- incumbent, behind the newest spawn, before it sent a `Begin`.
pub start-BeganSealed :
    (env : Env) (spec : SpawnSpec) (w : World) (wrong_id : HandoffId → HandoffId → String)
    (control : Reads) (s : BegunSuccessor) (k : ℕ)
    → IsIdle env w
    → received control ≡ take k (to_successor (perform_handoff env spec w).1.trace)
    → start wrong_id (ok tt) control ≡ ok s
    → BeganSealed env.handoff_id (perform_handoff env spec w).1.trace
start-BeganSealed env spec w wrong_id control s k v c e =
    let frames = to_successor (perform_handoff env spec w).1.trace in
    ordered-BeganSealed env.handoff_id (perform_handoff env spec w).1.trace
      (perform_handoff-Settles env spec w v).1.1
      (omega (
        arith,
        Starts-begins s control ((start-Starts wrong_id control s).0 e),
        ap begins c,
        begins-take k frames,
      ))
