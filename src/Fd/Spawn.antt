-- ===== src/Fd/Spawn.antt =====
-- crates/handoff/src/fd.rs: the variables and the descriptors that a command hands to its child, and
-- crates/handoff/src/supervisor.rs: the successor that a supervisor spawns, and
-- crates/handoff-supervisor/src/main.rs: the first primitive. `Command` is as much of
-- `std::process::Command` as they use: the child's environment, and the descriptors its `pre_exec` arranges.
use handoff.Prelude.{ℕ, ◌+◌, Option, none, some, List, [], ◌∷◌, ◌++◌, length, if◌then◌else◌}
use handoff.Error.{Result, ok, err}
use handoff.Text.{Text, text, to_string, join}
use handoff.Fd.{Slot, Table, Kernel, install_inherited_fds}
use handoff.Process.{Vars, Process}

pub record Command : Type 0 where
  pub vars : Vars
  pub sources : List ℕ

pub data Var : Type 0 where
  listen_fds listen_fdnames listen_pid handoff_role handoff_sock_fd : Var

-- `Command::env`
abbrev pub env : Var → Text → Vars → Vars
env listen_fds x v = record v { listen_fds = some x }
env listen_fdnames x v = record v { listen_fdnames = some x }
env listen_pid x v = record v { listen_pid = some x }
env handoff_role x v = record v { handoff_role = some x }
env handoff_sock_fd x v = record v { handoff_sock_fd = some x }

abbrev pub env_all : List (Var × Text) → Vars → Vars
env_all [] v = v
env_all ((x, y) ∷ xs) v = env_all xs (env x y v)

abbrev pub names_of : List (Text × ℕ) → List Text
names_of [] = []
names_of ((n, f) ∷ ls) = n ∷ names_of ls

abbrev pub fds_of : List (Text × ℕ) → List ℕ
fds_of [] = []
fds_of ((n, f) ∷ ls) = f ∷ fds_of ls

abbrev pub extra : Option ℕ → List ℕ
extra none = []
extra (some fd) = fd ∷ []

abbrev pub arrange_inherited_fds_on_spawn : List ℕ → Command → Command
arrange_inherited_fds_on_spawn sources cmd = record cmd { sources = sources }

unfoldable pub pass_listener_fds_on_spawn :
    (listeners : List (Text × ℕ)) (extra_fd : Option ℕ) → Command → Command
pass_listener_fds_on_spawn listeners extra_fd cmd =
    arrange_inherited_fds_on_spawn (fds_of listeners ++ extra extra_fd) (record cmd {
      vars =
          env listen_fdnames (join b':' (names_of listeners))
            (env listen_fds (to_string (length listeners)) cmd.vars);
    })

-- `execve` closes what is marked close-on-exec.
abbrev pub kept : Option Slot → Option Slot
kept none = none
kept (some s) = if s.cloexec then none else some s

abbrev pub executed : (parent : Process) → Vars → Result (Unit {0}) × Table → Result Process
executed parent vars (err e, t) = err e
executed parent vars (ok _, t) =
    ok (record { table = λ j. kept (t j); nonblocking = parent.nonblocking; vars = vars })

-- `Command::spawn`: the process that starts behind fork, `pre_exec` and `execve`.
unfoldable pub spawn : Kernel → Command → (parent : Process) → Result Process
spawn k cmd parent = executed parent cmd.vars (install_inherited_fds k cmd.sources parent.table)

-- What the supervisor sets on the successor's command.
unfoldable pub successor_command :
    (listener_fds : List (Text × ℕ)) (spec_env : List (Var × Text)) (n_sock_fd : ℕ)
    (parent : Process)
    → Command
successor_command listener_fds spec_env n_sock_fd parent =
    pass_listener_fds_on_spawn listener_fds (some n_sock_fd) (record {
      vars =
          env handoff_sock_fd (to_string (3 + length listener_fds))
            (env handoff_role (text "successor") (env_all spec_env parent.vars));
      sources = [];
    })

unfoldable pub spawn_successor :
    Kernel
    → (listener_fds : List (Text × ℕ)) (spec_env : List (Var × Text)) (n_sock_fd : ℕ)
      (parent : Process)
    → Result Process
spawn_successor k listener_fds spec_env n_sock_fd parent =
    spawn k (successor_command listener_fds spec_env n_sock_fd parent) parent

unfoldable pub spawn_primitive_cold_start :
    Kernel
    → (listener_fds : List (Text × ℕ)) (cfg_env : List (Var × Text)) (parent : Process)
    → Result Process
spawn_primitive_cold_start k listener_fds cfg_env parent =
    spawn k
      (pass_listener_fds_on_spawn listener_fds none
        (record { vars = env_all cfg_env parent.vars; sources = [] }))
      parent
