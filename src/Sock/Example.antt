-- ===== src/Sock/Example.antt =====
-- crates/handoff/src/sock.rs: a file system in which another listener holds the path.
use handoff.Prelude.{none, some, [], ◌++◌, if◌then◌else◌}
use handoff.Error.{from_kind, other}
use handoff.Text.{Text, same, text}
use handoff.Sock.Bind.{System, Disk}

abbrev pub path : Text
path = text "/run/ctl"

abbrev pub system : System
system = record {
  sun_path = 108;
  pid = 7;
  umask_mode = 493;
  eaddrinuse = from_kind other;
  parent = λ _. some (text "/run");
  join = λ d f. d ++ (text "/" ++ f);
  create_dir_all = none;
  remove_first = some (from_kind other);
  bind = none;
  set_permissions = none;
  rename = none;
  remove_last = none;
  set_cloexec = none;
}

abbrev pub disk : Disk
disk = record {
  files =
      λ p. if same p (text "/run/ctl") then some (record { listener = 1; mode = 384 }) else none;
  seen = [];
  count = 2;
  seq = 0;
}
