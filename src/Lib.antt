-- ===== src/Lib.antt =====
-- handoff: a process gives its listening sockets and its data directory to its successor without an
-- outage. Three processes take part: the incumbent, which serves; the successor, which takes over; and the
-- supervisor, which drives the handoff over two control sockets, each a byte stream of frames. The
-- incumbent drains and seals, which releases the flock of the data directory; the successor takes
-- the flock and announces that it is ready; then the incumbent commits and exits, or, behind an abort,
-- takes the flock back and resumes.
--
-- Files, each with the code that it models:
-- Prelude: names and lemmas that all files share.
-- Error (crates/handoff/src/error.rs): `Error`, `Result` and `?`.
-- Protocol (crates/handoff/src/protocol.rs): the messages and `negotiate_version`.
-- Frame (crates/handoff/src/frame.rs): `encode`, `read_message` and `FrameAccumulator::poll_read`. A
--   stream is the list of what its `read` calls can return, cut in any way, with errors in between.
--   Refine is about one poll, Soft and Patient about polling again behind a timeout.
-- Lock (crates/handoff/src/lock.rs): `DataDirLock` over the state that the kernel keeps; each system
--   call may fail. Lock/Interleave runs any number of processes in any order.
-- Sock (crates/handoff/src/sock.rs): the checks of a peer's uid and of a socket path, `send_all` (Send) and
--   `bind_socket` (Bind, Publishes). Process: its questions about descriptors and the flags it sets on them.
-- Fd (crates/handoff/src/fd.rs): `install_inherited_fds` over the descriptor table of the child; Spawn is
--   the command of a child, up to `execve`, with `Supervisor::spawn_successor`.
-- Text, Integer: texts as the standard library joins, splits, prints and parses them, and signed integers.
-- Incumbent (crates/handoff/src/incumbent.rs, drainable.rs): World is the state of the process with a
--   trace of its calls; Session is `handle_session` and `run_session_loop`, one function per message;
--   Serve is `serve` with its recovery. A function of the source that may fail is one of the monad `M`.
-- State (crates/handoff/src/state.rs): the journal file under its path, its temporary file, and what of them is
--   synced; State/Durable says what a power failure may leave.
-- Supervisor (crates/handoff/src/supervisor.rs): World is the supervisor's state with a trace of the
--   frames and of the child's life; Wire reads from the two processes; Handoff is `perform_handoff`, a
--   function per phase. The drop of `ChildGuard` at an early return is `guarded`. Healthy to Commits are about a run
--   in which all goes well.
-- Role (crates/handoff/src/role.rs): the successor's protocol, from `handshake` to `Ready`; Environment is
--   `detect_role` and the table of inherited listeners, which Role/Spawned and Role/Started join to the supervisor's side;
--   Takeover is `announce_and_bind`, Heartbeats the guard of a thread that writes before it.
-- Trigger (crates/handoff-supervisor/src/main.rs): the trigger loop over `perform_handoff`; Permitted is about
--   the allow list, Start is `main` from its listeners into the loop, Wait is about the bounded reap of the outgoing child.
-- Fleet (incumbent.rs and lock.rs): any number of processes on one data directory, a message or a system call at
--   a time; Owns and Sound are what each step keeps, OneWriter what follows of all of them.
-- Primitive (crates/handoff-tests/src/bin/primitive.rs): the process that the tests hand off, which joins Role, Lock,
--   Sock and Incumbent in the order of a real consumer.
-- Together: the incumbent, and the successor (Begins), with this supervisor at the other end; Commits is about a
--   run in which all goes well.
-- Fallible: the monad of computations that fail and keep what they have changed.
--
-- Parameters: the `postcard` crate (`Codec`), the consumer's hooks, the clock, the socket, and the
-- operating system (`Env`, `Faults`, `Libc`, `Kernel`, `Host`, `System`); an `Env` answers each call by the number of calls made so
-- far, so that nothing is assumed about it. A theorem that needs an inverse codec says so.
--
-- Loops: the session loop, the accept loop and the read loops of supervisor and successor recurse on what the
-- socket returns; behind the end of that list the peer has disconnected, or no further connection comes.
-- `poll_read` has fuel for two rounds of its outer loop, and for one call of `read` more than the reader
-- can answer. The retry loop of `acquire_with_short_retry` has fuel for one round per sleep that fits its
-- limit, and two more. `wait_child_with_timeout` has fuel for one round per interval in its timeout, and two
-- more. That the fuel is enough is part of the theorems.
--
-- Integers: a byte, `u16`, `u32`, `u64` or `usize` is a native number; `as u32` and the byte encodings keep
-- their wrap-around. Times are milliseconds. The heartbeat thread writes while the main thread runs a
-- hook; its frames come before the hook's own effects.
--
-- Not modelled: logging, metrics and crash points; the durations of the receive timeouts;
-- the markers, delays and counters of the test primitive, and the harness that starts it;
-- the branches of sock.rs for other systems than Linux; of the binary
-- crates/handoff-supervisor its command line, its configuration file and the texts of its replies.
pub mod Error
pub mod Fallible
pub mod Fd
pub mod Fleet
pub mod Frame
pub mod Incumbent
pub mod Integer
pub mod Lock
pub mod Prelude
pub mod Primitive
pub mod Process
pub mod Protocol
pub mod Role
pub mod Sock
pub mod State
pub mod Supervisor
pub mod Text
pub mod Together
pub mod Trigger
