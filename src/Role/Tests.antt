-- ===== src/Role/Tests.antt =====
-- crates/handoff/src/role.rs: a successor that begins behind a heartbeat, and one that inherits a listener.
use handoff.Prelude.{
  ℕ, zero, suc, ◌≡◌, ◌↔◌, refl, true, none, some, List, [], ◌∷◌, leb, ◌==◌, ℕ_discrete,
  if◌then◌else◌, arith,
}
use handoff.Error.{pos, Result, ok, err, from_kind, other}
use handoff.Protocol.{hello_ack, heartbeat, begin}
use handoff.Role.{Reads, BegunSuccessor, start}
use handoff.Text.{to_string, digits, Text, text, parse, trim_end, trim_start, parse_digits}
use handoff.Fd.{Table, install_inherited_fds, stage, settle, close_all}
use handoff.Fd.Spawn.{
  Var, env_all, listen_pid, spawn, successor_command, pass_listener_fds_on_spawn, spawn_successor,
}
use handoff.Fd.Linux.{linux, linux-IsSound}
use handoff.Process.{Process, Host, answers, fd_is_socket}
use handoff.Role.Environment.{Listeners, detect_role, take_validated}
use handoff.Role.Spawned.{HandsOver, spawn_successor-HandsOver}
use handoff.Role.Foreign.{Overlooks, spawn_successor-Ignores}
use handoff.Role.{ReadinessSnapshot, ready_of}
use handoff.Protocol.{Message, ready}
use handoff.Error.{codec}
use handoff.Frame.{Codec, encode}
use handoff.Sock.Send.{Socket, sent, send_all, send_rest}
use handoff.Frame.Write.{write_frame}
use handoff.Role.Heartbeats.{
  start_heartbeats, beat_loop, beats, now_unix_ms, announce_behind, Announced,
  announce_behind-Announced,
}
use handoff.Sock.Example.{path, system, disk}
use handoff.Role.Takeover.{Takeover, TakesOver, announce_and_bind, announce_and_bind-TakesOver}
use handoff.Role.Takes.{Takes, take_validated-Takes}
use handoff.Role.Begin.{Starts, start-Starts}

abbrev greeting : Reads
greeting = ok (1, hello_ack 1 9) ∷ ok (1, heartbeat 0) ∷ ok (1, begin 9) ∷ []

abbrev begun : BegunSuccessor
begun = record { control = []; handoff_id = 9; proto_version = 1 }

start-Starts_example :
    (start (λ _ _. "wrong id") (ok tt) greeting ≡ ok begun) ↔ Starts begun greeting
start-Starts_example = start-Starts (λ _ _. "wrong id") greeting begun

-- A listener stands at 3 and the control socket at 4.
abbrev host : Host
host = record {
  pid = 77;
  ebadf = from_kind other;
  einval = 22;
  enoprotoopt = 92;
  eopnotsupp = 95;
  is_socket = λ d. leb 30 d;
  family = λ d. some (if d == 30 then 2 else 1);
  accept_conn = λ d. answers (if d == 30 then 1 else 0);
  refuses_setfd = λ _ _. none;
  refuses_setfl = λ _ _. none;
  refuses_timeout = λ _ _. none;
}

abbrev open_sockets : Table
open_sockets zero = none
open_sockets (suc zero) = none
open_sockets (suc (suc zero)) = none
open_sockets (suc (suc (suc zero))) = some (record { description = 30; cloexec = true })
open_sockets (suc (suc (suc (suc zero)))) = some (record { description = 40; cloexec = true })
open_sockets _ = none

abbrev parent : Process
parent = record {
  table = open_sockets;
  nonblocking = λ d. d == 30;
  vars = record {
    listen_fds = none;
    listen_fdnames = none;
    listen_pid = none;
    handoff_role = none;
    handoff_sock_fd = none;
  };
}

abbrev web : List (Text × ℕ)
web = (text "web", 3) ∷ []

abbrev child_of : Result Process → Process
child_of (ok p) = p
child_of (err e) = parent

abbrev child : Process
child = child_of (spawn_successor linux web [] 4 parent)

starts : spawn_successor linux web [] 4 parent ≡ ok child
unfolding spawn_successor spawn install_inherited_fds successor_command pass_listener_fds_on_spawn
    stage ℕ_discrete settle close_all
starts = refl

spawn_successor-HandsOver_example :
    HandsOver (text "web" ∷ []) (3 ∷ 4 ∷ []) parent (detect_role host child)
unfolding fd_is_socket
spawn_successor-HandsOver_example =
    spawn_successor-HandsOver linux linux-IsSound host web [] 4 parent child (omega arith)
      (refl, tt) (tt, tt) (refl, (refl, tt)) refl starts

-- Started by systemd, as process 12.
abbrev activated : List (Var × Text)
activated = (listen_pid, text "12") ∷ []

abbrev orphan : Process
orphan = child_of (spawn_successor linux web activated 4 parent)

orphan_starts : spawn_successor linux web activated 4 parent ≡ ok orphan
unfolding spawn_successor spawn install_inherited_fds successor_command pass_listener_fds_on_spawn
    stage ℕ_discrete settle close_all
orphan_starts = refl

spawn_successor-Ignores_example : Overlooks host (env_all activated parent.vars) web orphan
unfolding parse trim_end trim_start parse_digits
spawn_successor-Ignores_example =
    spawn_successor-Ignores host linux web activated 4 parent orphan refl orphan_starts

abbrev stray : Process
stray = record parent {
  vars = record parent.vars { listen_fds = some (text "1"); listen_pid = some (text " 12 ") };
}

abbrev inherited : Listeners
inherited = (text "web", pos 3) ∷ (text "sock", pos 4) ∷ []

take_validated-Takes_example :
    Takes host parent
      (text "web")
      (2 ∷ 10 ∷ [])
      inherited
      (take_validated host (text "web") (2 ∷ 10 ∷ []) inherited parent)
take_validated-Takes_example =
    take_validated-Takes host parent (text "web") (2 ∷ 10 ∷ []) inherited
      (((λ e. ground (arith, e)), tt), (tt, tt))

-- A codec of a bare `Ready` alone.
abbrev write_ready : Message → Result (List ℕ)
write_ready (ready id [] true []) = ok (id ∷ [])
write_ready _ = err (codec 0)

abbrev read_ready : List ℕ → Result Message
read_ready (id ∷ []) = ok (ready id [] true [])
read_ready _ = err (codec 1)

abbrev readies : Codec
readies = record { to_allocvec = write_ready; from_bytes = read_ready }

readies-inverse :
    (m : Message) (bs : List ℕ) → readies.to_allocvec m ≡ ok bs → readies.from_bytes bs ≡ ok m
readies-inverse (ready id [] true []) bs h = ground arith
readies-inverse m bs h = absurd (ground arith)

abbrev snapshot : ReadinessSnapshot
snapshot = record { listening_on = []; healthz_ok = true; advertised_revision_per_shard = [] }

abbrev successor_state : Takeover
successor_state = record { control = record { answers = sent 7 ∷ []; delivered = [] }; disk = disk }

announce_and_bind-TakesOver_example :
    TakesOver readies system
      (1, ready 9 [] true [])
      path
      successor_state
      (announce_and_bind readies system begun snapshot path
        (text "/data")
        (record { holder = 1 })
        successor_state)
unfolding ready_of to_string digits
announce_and_bind-TakesOver_example =
    announce_and_bind-TakesOver readies system path (text "/data") (record { holder = 1 })
      (record { inverse = readies-inverse }) begun snapshot successor_state (omega arith)
      (λ e. ground (arith, e)) refl

-- A codec of heartbeats and of a bare `Ready`.
abbrev write_either : Message → Result (List ℕ)
write_either (heartbeat t) = ok (0 ∷ t ∷ [])
write_either (ready id [] true []) = ok (1 ∷ id ∷ [])
write_either _ = err (codec 0)

abbrev read_either : List ℕ → Result Message
read_either (zero ∷ t ∷ []) = ok (heartbeat t)
read_either (suc zero ∷ id ∷ []) = ok (ready id [] true [])
read_either _ = err (codec 1)

abbrev either : Codec
either = record { to_allocvec = write_either; from_bytes = read_either }

either-inverse :
    (m : Message) (bs : List ℕ) → either.to_allocvec m ≡ ok bs → either.from_bytes bs ≡ ok m
either-inverse (heartbeat t) bs h = ground arith
either-inverse (ready id [] true []) bs h = ground arith
either-inverse m bs h = absurd (ground arith)

abbrev two_frames : Socket
two_frames = record { answers = sent 8 ∷ sent 8 ∷ []; delivered = [] }

announce_behind-Announced_example :
    Announced either 1
      (ready 9 [] true [])
      []
      (announce_behind either begun snapshot true (some 5 ∷ []) two_frames)
unfolding ready_of beats start_heartbeats beat_loop write_frame encode send_all send_rest
    now_unix_ms
announce_behind-Announced_example =
    announce_behind-Announced either (record { inverse = either-inverse }) begun snapshot true
      (some 5 ∷ []) two_frames (omega arith) refl
