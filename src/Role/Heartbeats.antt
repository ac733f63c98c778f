-- ===== src/Role/Heartbeats.antt =====
-- crates/handoff/src/role.rs (`HeartbeatGuard`) and util.rs: the heartbeats of a successor that initialises. The thread
-- writes while the guard lives, and nobody else does; its drop waits for the thread.
use handoff.Prelude.{
  ℕ, ◌%◌, ◌^◌, ◌<◌, ◌≡◌, sym, subst, ◌∙◌, Bool, true, false, Option, none, some, List, [], ◌∷◌,
  ◌++◌, append-nil, append_assoc, if◌then◌else◌, arith,
}
use handoff.Error.{Result, ok, err}
use handoff.Fallible.{M, and_then, ◌>>◌, pure}
use handoff.Protocol.{ProtoVersion, Message, heartbeat}
use handoff.Frame.{Codec, read_message}
use handoff.Frame.RoundTrip.{IsInverse}
use handoff.Frame.Write.{Writes, write_frame, write_frame-Writes}
use handoff.Sock.Send.{Socket}
use handoff.Role.{BegunSuccessor, ReadinessSnapshot, ready_of}

-- `since_epoch` is what the system's clock shows, unless it stands before the epoch.
unfoldable pub now_unix_ms : (since_epoch : Option ℕ) → ℕ
now_unix_ms none = 0
now_unix_ms (some ms) = ms % 2 ^ 64

-- Whether there is a thread, with a way to stop it.
pub record HeartbeatGuard : Type 0 where
  pub stop_tx : Bool
  pub thread : Bool

unfoldable pub start_heartbeats : (cloned : Bool) → HeartbeatGuard
start_heartbeats cloned =
    if cloned
    then record { stop_tx = true; thread = true }
    else record { stop_tx = false; thread = false }

-- The thread; what the clock shows whenever `recv_timeout` times out, up to the stop.
unfoldable pub beat_loop : Codec → ProtoVersion → List (Option ℕ) → M Socket (Unit {0})
beat_loop c chosen [] = pure tt
beat_loop c chosen (clock ∷ clocks) = do
  write_frame c chosen (heartbeat (now_unix_ms clock))
  beat_loop c chosen clocks

-- The life of a guard; how the thread ended is not looked at.
unfoldable pub beats :
    Codec → ProtoVersion → HeartbeatGuard → List (Option ℕ) → Socket → Result (Unit {0}) × Socket
beats c chosen guard clocks s = if guard.thread then beat_loop c chosen clocks s else (ok tt, s)

-- The guard is dropped before `Ready` is announced.
unfoldable pub announce_behind :
    Codec
    → BegunSuccessor
    → ReadinessSnapshot
    → (cloned : Bool) → List (Option ℕ)
    → Socket
    → Result (Unit {0}) × Socket
announce_behind c b snapshot cloned clocks s =
    let frame = ready_of b snapshot in
    write_frame c frame.0 frame.1 (beats c b.proto_version (start_heartbeats cloned) clocks s).1

-- The reader of a stream gets heartbeats alone, then the message, then has `rest` to read.
pub data Beats (c : Codec) (v : ProtoVersion) (m : Message) (rest : List ℕ) : List ℕ → Type 0 where
  now : {bs : List ℕ} → read_message c bs ≡ ok ((v, m), rest) → Beats c v m rest bs
  beat :
      (t : ℕ) {bs later : List ℕ}
      → read_message c bs ≡ ok ((v, heartbeat t), later)
      → Beats c v m rest later
      → Beats c v m rest bs

-- Behind what was delivered before, a reader gets heartbeats alone and then the message.
abbrev pub Announced :
    Codec → ProtoVersion → Message → (before : List ℕ) → Result (Unit {0}) × Socket → Type 0
Announced c v m d (ok _, s) =
    (bs : List ℕ) × (s.delivered ≡ d ++ bs) × ((rest : List ℕ) → Beats c v m rest (bs ++ rest))
Announced c v m d (err e, s) = Unit

-- Whatever follows, if it is beats up to the message, is so behind these bytes too.
abbrev Leads : Codec → ProtoVersion → List ℕ → Type 0
Leads c v bs =
    (m : Message) (rest later : List ℕ) → Beats c v m rest later → Beats c v m rest (bs ++ later)

module _ (c : Codec) (inv : IsInverse c) (v : ProtoVersion) (hv : v < 2 ^ 16) where
  -- What the thread has written.
  abbrev Led : List ℕ → Result (Unit {0}) × Socket → Type 0
  Led d (ok _, s) = (bs : List ℕ) × (s.delivered ≡ d ++ bs) × Leads c v bs
  Led d (err e, s) = Unit

  Led-later :
      (d bs : List ℕ) (out : Result (Unit {0}) × Socket)
      → Leads c v bs
      → Led (d ++ bs) out
      → Led d out
  Led-later d bs (ok _, s) l (cs, e, k) = (
    bs ++ cs,
    e ∙ append_assoc d bs cs,
    λ m rest later h.
        subst (Beats c v m rest) (sym (append_assoc bs cs later))
          (l m rest (cs ++ later) (k m rest later h)),
  )
  Led-later d bs (err e, s) l k = tt

  and_then-Led :
      (t : ℕ) (clocks : List (Option ℕ)) (d : List ℕ) (out : Result (Unit {0}) × Socket)
      → Writes c v (heartbeat t) d out
      → ((s : Socket) → Led s.delivered (beat_loop c v clocks s))
      → Led d (and_then out (λ _. beat_loop c v clocks))
  and_then-Led t clocks d (ok _, s) (bs, e, reads) next =
      Led-later d bs (beat_loop c v clocks s) (λ m rest later h. beat t (reads later) h)
        (subst (λ x. Led x (beat_loop c v clocks s)) e (next s))
  and_then-Led t clocks d (err e, s) w next = tt

  beat_loop-Led : (clocks : List (Option ℕ)) (s : Socket) → Led s.delivered (beat_loop c v clocks s)
  unfolding beat_loop
  beat_loop-Led [] s = ([], sym (append-nil s.delivered), λ m rest later h. h)
  beat_loop-Led (clock ∷ clocks) s =
      and_then-Led (now_unix_ms clock) clocks s.delivered
        (write_frame c v (heartbeat (now_unix_ms clock)) s)
        (write_frame-Writes c inv v hv (heartbeat (now_unix_ms clock)) s) (beat_loop-Led clocks)

  beats-Led :
      (cloned : Bool) (clocks : List (Option ℕ)) (s : Socket)
      → Led s.delivered (beats c v (start_heartbeats cloned) clocks s)
  unfolding beats start_heartbeats
  beats-Led true clocks s = beat_loop-Led clocks s
  beats-Led false clocks s = ([], sym (append-nil s.delivered), λ m rest later h. h)

  -- The last frame, behind what the thread has written.
  written-Announced :
      (m : Message) (d bs : List ℕ) (out : Result (Unit {0}) × Socket)
      → Leads c v bs
      → Writes c v m (d ++ bs) out
      → Announced c v m d out
  written-Announced m d bs (ok _, s) l (cs, e, reads) = (
    bs ++ cs,
    e ∙ append_assoc d bs cs,
    λ rest.
        subst (Beats c v m rest) (sym (append_assoc bs cs rest))
          (l m rest (cs ++ rest) (now (reads rest))),
  )
  written-Announced m d bs (err e, s) l w = tt

  behind-Announced :
      (m : Message) (d : List ℕ) (out : Result (Unit {0}) × Socket)
      → out.0 ≡ ok tt
      → Led d out
      → Announced c v m d (write_frame c v m out.1)
  behind-Announced m d (ok _, s) e (bs, same, l) =
      written-Announced m d bs (write_frame c v m s) l
        (subst (λ x. Writes c v m x (write_frame c v m s)) same (write_frame-Writes c inv v hv m s))
  behind-Announced m d (err x, s) e l = absurd (ground arith)

module _ (c : Codec) (inv : IsInverse c) where
  -- For a codec that decodes what it encoded, a version that fits a `u16`, every number of heartbeats at any times, with a
  -- thread or without, and every sequence of results of `send` in which no heartbeat fails: if
  -- `announce_ready` succeeds behind the drop of the guard, then in what the peer has got since the guard
  -- was made, and whatever comes after it, `read_message` finds heartbeats alone, and then the `Ready`
  -- of the handoff.
  pub announce_behind-Announced :
      (b : BegunSuccessor) (snapshot : ReadinessSnapshot) (cloned : Bool) (clocks : List (Option ℕ))
      (s : Socket)
      → b.proto_version < 2 ^ 16
      → (beats c b.proto_version (start_heartbeats cloned) clocks s).0 ≡ ok tt
      → Announced c b.proto_version
          (ready_of b snapshot).1
          s.delivered
          (announce_behind c b snapshot cloned clocks s)
  unfolding announce_behind ready_of
  announce_behind-Announced b snapshot cloned clocks s hv e =
      behind-Announced c inv b.proto_version hv (ready_of b snapshot).1 s.delivered
        (beats c b.proto_version (start_heartbeats cloned) clocks s) e
        (beats-Led c inv b.proto_version hv cloned clocks s)
