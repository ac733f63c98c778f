-- ===== src/Primitive/Tests.antt =====
-- crates/handoff-tests/src/bin/primitive.rs: a successor that takes over, and then serves one aborted session.
use handoff.Prelude.{ℕ, zero, suc, ◌^◌, ◌<◌, ◌≡◌, refl, true, none, List, [], ◌∷◌, arith}
use handoff.Error.{Result, ok, err, codec}
use handoff.Text.{text, to_string, digits}
use handoff.Protocol.{Message, hello, successor, ready, hello_ack, heartbeat, begin}
use handoff.Frame.{Codec}
use handoff.Sock.Send.{sent}
use handoff.Sock.Example.{path, system, disk}
use handoff.Role.{Reads, BegunSuccessor, handshake, wait_for_begin}
use handoff.Role.Begin.{Starts, start-Starts}
use handoff.Incumbent.Example.{answers, no_faults, linux}
use handoff.Primitive.{Around, State, run_successor, run_cold_start}
use handoff.Primitive.Serves.{Runs, greeted, run_successor-Runs, ColdStarts, run_cold_start-starts}

-- A codec of the two frames that a successor writes.
abbrev write_some : Message → Result (List ℕ)
write_some (hello successor p b lo hi c) = ok (2 ∷ p ∷ lo ∷ hi ∷ c ∷ b)
write_some (ready id [] true rev) = ok (1 ∷ id ∷ rev)
write_some _ = err (codec 0)

abbrev read_some : List ℕ → Result Message
read_some (suc (suc zero) ∷ p ∷ lo ∷ hi ∷ c ∷ b) = ok (hello successor p b lo hi c)
read_some (suc zero ∷ id ∷ rev) = ok (ready id [] true rev)
read_some _ = err (codec 1)

abbrev some_frames : Codec
some_frames = record { to_allocvec = write_some; from_bytes = read_some }

some_frames-inverse :
    (m : Message) (bs : List ℕ)
    → some_frames.to_allocvec m ≡ ok bs
    → some_frames.from_bytes bs ≡ ok m
some_frames-inverse (hello successor p b lo hi c) bs h = ground arith
some_frames-inverse (ready id [] true rev) bs h = ground arith
some_frames-inverse m bs h = absurd (ground arith)

abbrev around : Around
around = record {
  codec = some_frames;
  system = system;
  env = answers (ok tt);
  libc = linux;
  euid = 100;
  faults = no_faults;
  wrong_id = λ _ _. "wrong id";
  socket_path = path;
  data_dir = text "/data";
  accepts = [];
}

abbrev control : Reads
control = ok (1, hello_ack 1 9) ∷ ok (1, heartbeat 0) ∷ ok (1, begin 9) ∷ []

abbrev before : State
before = record {
  flock = record { flock = none; pidfile = none };
  takeover = record {
    control = record { answers = sent 100 ∷ sent 100 ∷ []; delivered = [] };
    disk = disk;
  };
}

version_fits : (b : BegunSuccessor) → Starts b control → b.proto_version < 2 ^ 16
unfolding handshake wait_for_begin
version_fits b s = ground (arith, (start-Starts (λ _ _. "wrong id") control b).1 s)

run_successor-Runs_example :
    Runs around control (greeted around before) before.flock (run_successor around control before)
unfolding to_string digits
run_successor-Runs_example =
    run_successor-Runs around (record { inverse = some_frames-inverse }) control before version_fits
      (λ e. ground (arith, e)) refl

run_cold_start-starts_example :
    ColdStarts around before.takeover before.flock (run_cold_start around before)
unfolding to_string digits
run_cold_start-starts_example = run_cold_start-starts around before (λ e. ground (arith, e)) refl
