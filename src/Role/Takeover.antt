-- ===== src/Role/Takeover.antt =====
-- crates/handoff/src/role.rs (`announce_ready`, `announce_and_bind`) and incumbent.rs (`bind_replacing`): the
-- successor becomes the incumbent. The state is the control socket and the file system.
use handoff.Prelude.{ℕ, ◌<◌, ◌^◌, ◌≡◌, ◌≢◌, ◌⊎◌, refl, inl, inr, Option, some, List, [], ◌++◌}
use handoff.Error.{Result, ok, err, IsErr}
use handoff.Fallible
use handoff.Fallible.{and_then, ◌>>=◌, ◌>>◌, pure}
use handoff.Text.{Text}
use handoff.Lock.{DataDirLock}
use handoff.Protocol.{ProtoVersion, Message}
use handoff.Frame.{Codec, read_message}
use handoff.Frame.RoundTrip.{IsInverse}
use handoff.Frame.Write.{Writes, write_frame, write_frame-Writes}
use handoff.Sock.Send.{Socket}
use handoff.Sock.Bind.{System, Disk, staging_path, bind_socket}
use handoff.Sock.Publishes.{Publishes, bind_socket-Publishes}
use handoff.Role.{BegunSuccessor, ReadinessSnapshot, ready_of}

pub record Incumbent : Type 0 where
  pub listener : ℕ
  pub lock : Option DataDirLock
  pub data_dir : Text
  pub build_id : List ℕ

pub record Takeover : Type 0 where
  pub control : Socket
  pub disk : Disk

abbrev pub M {ℓ} : Type ℓ → Type ℓ
M A = Fallible.M Takeover A

abbrev pub on_control {ℓ} : {A : Type ℓ} → (Socket → Result A × Socket) → M A
on_control f t = ((f t.control).0, record t { control = (f t.control).1 })

abbrev pub on_disk {ℓ} : {A : Type ℓ} → (Disk → Result A × Disk) → M A
on_disk f t = ((f t.disk).0, record t { disk = (f t.disk).1 })

-- The frame is the one of `ready_of`.
abbrev pub announce_ready : Codec → ProtoVersion × Message → M (Unit {0})
announce_ready c frame = on_control (write_frame c frame.0 frame.1)

-- `data_dir` is the one of the lock.
abbrev pub bind_replacing : System → (path data_dir : Text) → DataDirLock → M Incumbent
bind_replacing s path data_dir lock = do
  listener ← on_disk (bind_socket s path)
  pure (record { listener = listener; lock = some lock; data_dir = data_dir; build_id = [] })

unfoldable pub announce_and_bind :
    Codec
    → System
    → BegunSuccessor
    → ReadinessSnapshot
    → (path data_dir : Text) → DataDirLock
    → M Incumbent
announce_and_bind c s b snapshot path data_dir lock = do
  announce_ready c (ready_of b snapshot)
  bind_replacing s path data_dir lock

-- The listener that a bind has published.
abbrev pub listener_of : Result Incumbent → Result ℕ
listener_of (ok i) = ok i.listener
listener_of (err e) = err e

-- The supervisor has the whole frame to read, and the path is replaced as `bind_socket` does; or the call fails
-- without a change to the file system.
abbrev pub TakesOver :
    Codec
    → System
    → ProtoVersion × Message
    → (path : Text) → Takeover
    → Result Incumbent × Takeover
    → Type 0
TakesOver c s frame path t (r, t') =
    (((bs : List ℕ) × (t'.control.delivered ≡ t.control.delivered ++ bs)
        × ((rest : List ℕ) → read_message c (bs ++ rest) ≡ ok (frame, rest)))
      × Publishes (staging_path s path t.disk.seq) path t.disk (listener_of r, t'.disk))
    ⊎ (IsErr r × (t'.disk ≡ t.disk))

module _ (c : Codec) (s : System) (path data_dir : Text) (lock : DataDirLock) where
  bound-TakesOver :
      (frame : ProtoVersion × Message) (t : Takeover) (sock : Socket)
      → ((bs : List ℕ) × (sock.delivered ≡ t.control.delivered ++ bs)
          × ((rest : List ℕ) → read_message c (bs ++ rest) ≡ ok (frame, rest)))
      → (out : Result ℕ × Disk) → Publishes (staging_path s path t.disk.seq) path t.disk out
      → TakesOver c s frame path t (
          and_then
            (out.0, record t { control = sock; disk = out.1 })
            (λ l.
              pure (record { listener = l; lock = some lock; data_dir = data_dir; build_id = [] })))
  bound-TakesOver frame t sock w (ok l, d) p = inl (w, p)
  bound-TakesOver frame t sock w (err e, d) p = inl (w, p)

  written-TakesOver :
      (frame : ProtoVersion × Message) (t : Takeover) (out : Result (Unit {0}) × Socket)
      → Writes c frame.0 frame.1 t.control.delivered out
      → Publishes (staging_path s path t.disk.seq) path t.disk (bind_socket s path t.disk)
      → TakesOver c s frame path t (
          and_then (out.0, record t { control = out.1 }) (λ _. bind_replacing s path data_dir lock))
  written-TakesOver frame t (ok _, sock) w p =
      bound-TakesOver frame t sock w (bind_socket s path t.disk) p
  written-TakesOver frame t (err e, sock) w p = inr (tt, refl)

  -- For a codec that decodes what it encoded, a version that fits a `u16`, every sequence of results of `send` and
  -- every result of the calls on the file system, where the staging path is not the path: `announce_and_bind` touches
  -- the file system only once the whole `Ready` frame has been sent, so that the supervisor can read exactly it,
  -- and then replaces the path as `bind_socket` does, in one step and with mode 0600; otherwise it fails and
  -- changes no file.
  pub announce_and_bind-TakesOver :
      (inv : IsInverse c) (b : BegunSuccessor) (snapshot : ReadinessSnapshot) (t : Takeover)
      → b.proto_version < 2 ^ 16
      → staging_path s path t.disk.seq ≢ path
      → t.disk.seen ≡ []
      → TakesOver c s
          (ready_of b snapshot)
          path
          t
          (announce_and_bind c s b snapshot path data_dir lock t)
  unfolding announce_and_bind ready_of
  announce_and_bind-TakesOver inv b snapshot t v a e =
      written-TakesOver (ready_of b snapshot) t
        (write_frame c (ready_of b snapshot).0 (ready_of b snapshot).1 t.control)
        (write_frame-Writes c inv b.proto_version v (ready_of b snapshot).1 t.control)
        (bind_socket-Publishes s path t.disk a e)
