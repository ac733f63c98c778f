-- ===== src/Trigger/Tests.antt =====
-- crates/handoff-supervisor/src/main.rs: clients that ask for a handoff, and a child that exits.
use handoff.Prelude.{
  ℕ, zero, suc, true, false, ◌≡◌, ◌⊎◌, inl, refl, Option, none, some, [], ◌∷◌, ◌++◌, if◌then◌else◌,
  arith,
}
use handoff.Error.{ok}
use handoff.Text.{Text, same, text, to_string, digits}
use handoff.Fd.{Table}
use handoff.Fd.Linux.{linux}
use handoff.Process.{Vars}
use handoff.Supervisor.Example.{answers, healthy}
use handoff.Trigger.{Config, Client, State, serve_client, serve_clients}
use handoff.Trigger.Wait.{
  TryWait, exited, running, Ends, wait_child_with_timeout, wait_child_with_timeout-Ends,
}
use handoff.Trigger.Permitted.{
  IsTrusted, AllPermitted, serve_clients-AllPermitted, serve_client-IsTrusted,
}
use handoff.Sock.Example.{path, system, disk}
use handoff.Trigger.Start.{Startup, Starts, main, main-Starts}

abbrev config : Config
config = record {
  binary = text "/srv/kv";
  allowed_binaries = text "/srv/new" ∷ [];
  allowed_uids = [];
  drain_grace_secs = 25;
  deadline_secs = 60;
}

-- `/srv/new` is a link.
abbrev real_path : Text → Option Text
real_path p = if same p (text "/srv/new") then some (text "/srv/kv-2") else some p

abbrev client : Client
client = record {
  peer_uid = ok 100;
  timeouts = none;
  sends = some (text "handoff /srv/kv-2" ++ (b'\n' ∷ []));
  env = answers;
  from_incumbent = healthy.from_incumbent;
  from_successor = healthy.from_successor;
}

abbrev state : State
state = record { current_child = 5; running = text "/srv/kv" ∷ []; world = healthy }

serve_clients-AllPermitted_example :
    AllPermitted real_path config (serve_clients 100 config real_path (client ∷ []) state).1.running
serve_clients-AllPermitted_example =
    serve_clients-AllPermitted 100 config real_path (client ∷ []) state (inl refl, tt)

serve_client-IsTrusted_example :
    IsTrusted 100 config client ⊎ ((serve_client 100 config real_path client state).1 ≡ state)
serve_client-IsTrusted_example = serve_client-IsTrusted 100 config real_path client state

-- The third call finds the child gone.
abbrev exits : ℕ → TryWait
exits (suc (suc _)) = exited 0
exits _ = running

wait_child_with_timeout-Ends_example :
    Ends exits (λ _. 1) 22 (wait_child_with_timeout exits (λ _. 1) 1000 0)
wait_child_with_timeout-Ends_example = wait_child_with_timeout-Ends exits (λ _. 1) 1000 0

abbrev two_open : Table
two_open (suc (suc (suc zero))) = some (record { description = 30; cloexec = true })
two_open (suc (suc (suc (suc zero)))) = some (record { description = 40; cloexec = true })
two_open _ = none

abbrev unset : Vars
unset = record {
  listen_fds = none;
  listen_fdnames = none;
  listen_pid = none;
  handoff_role = none;
  handoff_sock_fd = none;
}

-- Two listeners, and a client that asks for a handoff.
abbrev startup : Startup
startup = record {
  control_socket = text "/run/kv";
  trigger_socket = path;
  listeners =
      (record { name = text "http"; addr = text "[::]:80" })
      ∷ (record { name = text "admin"; addr = text "[::]:81" })
      ∷ [];
  bind = λ n _. ok (suc (suc (suc n)));
  set_nonblocking = λ _. none;
  kernel = linux;
  cfg_env = [];
  parent = λ _. record { table = two_open; nonblocking = λ _. false; vars = unset };
  child_pid = 5;
  env = answers;
  journal_fault = none;
  system = system;
}

main-Starts_example :
    Starts 100 config real_path startup disk healthy
      (main 100 config real_path startup (client ∷ []) disk healthy)
unfolding to_string digits
main-Starts_example =
    main-Starts 100 config real_path startup (client ∷ []) disk healthy (λ e. ground (arith, e))
      refl
