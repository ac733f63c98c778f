-- ===== src/Role/Foreign.antt =====
-- crates/handoff/src/role.rs and supervisor.rs: a `LISTEN_PID` that names another process.
use handoff.Prelude.{
  ℕ, ◌≡◌, refl, ap, ◌∙◌, Bool, true, false, Option, none, some, List, [], length, arith,
}
use handoff.Error.{ℤ, Result, ok, err}
use handoff.Text.{Text, parse_i32, to_string}
use handoff.Process.{Vars, Process, Host}
use handoff.Fd.{Table, Kernel, install_inherited_fds}
use handoff.Fd.Spawn.{
  Var, env_all, executed, spawn, pass_listener_fds_on_spawn, successor_command, spawn_successor,
}
use handoff.Role.Environment.{
  Role, cold_start, successor, is_ours, is_successor, read_inherited_listeners, attach, parsed,
  control_of, role_of, without_listen, detect_role,
}

-- No listener is inherited; a cold start leaves every descriptor alone.
abbrev pub Ignores : Process → Result Role × Process → Type 0
Ignores p (ok (cold_start inherited), q) =
    (inherited ≡ []) × (q.table ≡ p.table) × (q.nonblocking ≡ p.nonblocking)
Ignores p (ok (successor s), q) = s.inherited ≡ []
Ignores p (err e, q) = (q.table ≡ p.table) × (q.nonblocking ≡ p.nonblocking)

module _ (h : Host) where
  attach-Ignores :
      (fd : ℤ) (p q : Process)
      → q.table ≡ p.table
      → q.nonblocking ≡ p.nonblocking
      → Ignores p (attach h fd [] q)
  attach-Ignores fd p q e f = ground arith

  parsed-Ignores :
      (raw : Text) (fd : Option ℤ) (p q : Process)
      → q.table ≡ p.table
      → q.nonblocking ≡ p.nonblocking
      → Ignores p (parsed h raw fd [] q)
  parsed-Ignores raw none p q e f = (e, f)
  parsed-Ignores raw (some fd) p q e f =
      attach-Ignores fd p
        (record q { vars = record q.vars { handoff_role = none; handoff_sock_fd = none } }) e f

  control_of-Ignores :
      (raw : Option Text) (p q : Process)
      → q.table ≡ p.table
      → q.nonblocking ≡ p.nonblocking
      → Ignores p (control_of h raw [] q)
  control_of-Ignores none p q e f = (e, f)
  control_of-Ignores (some raw) p q e f = parsed-Ignores raw (parse_i32 raw) p q e f

  role_of-Ignores :
      (b : Bool) (p q : Process)
      → is_successor q.vars.handoff_role ≡ b
      → q.table ≡ p.table
      → q.nonblocking ≡ p.nonblocking
      → Ignores p (role_of h [] q)
  role_of-Ignores true p q r e f = rw r (control_of-Ignores q.vars.handoff_sock_fd p q e f)
  role_of-Ignores false p q r e f = rw r (refl, e, f)

  -- For every environment and every descriptor table: where `LISTEN_PID` is set and does not name this
  -- process, `detect_role` returns no inherited listener, whatever `LISTEN_FDS` says; unless the process
  -- starts as a successor, no descriptor and no open file description changes.
  pub detect_role-Ignores :
      (p : Process) → is_ours h.pid p.vars.listen_pid ≡ false → Ignores p (detect_role h p)
  unfolding detect_role read_inherited_listeners
  detect_role-Ignores p n =
      rw n (role_of-Ignores (is_successor p.vars.handoff_role) p (without_listen p) refl refl refl)

  -- The successor has `LISTEN_PID` as the supervisor and the specification left it, is told of the listeners, and
  -- still inherits none.
  abbrev pub Overlooks : (Vars) → List (Text × ℕ) → (child : Process) → Type 0
  Overlooks v listeners child =
      (child.vars.listen_pid ≡ v.listen_pid)
      × (child.vars.listen_fds ≡ some (to_string (length listeners)))
      × Ignores child (detect_role h child)

  executed-vars :
      (parent child : Process) (v : Vars) (out : Result (Unit {0}) × Table)
      → executed parent v out ≡ ok child
      → child.vars ≡ v
  executed-vars parent child v (ok _, t) e = ground arith
  executed-vars parent child v (err x, t) e = absurd (ground arith)

  -- For every kernel, every list of listeners, and a supervisor whose own environment, with the successor's
  -- variables added, holds a `LISTEN_PID` that is not the successor's pid: in a successor that `spawn_successor`
  -- starts, `LISTEN_PID` still holds that value, and `LISTEN_FDS` the number of the listeners; but
  -- `detect_role` inherits none of them, if it finds a role at all.
  pub spawn_successor-Ignores :
      (k : Kernel) (listeners : List (Text × ℕ)) (spec_env : List (Var × Text)) (n_sock_fd : ℕ)
      (parent child : Process)
      → is_ours h.pid (env_all spec_env parent.vars).listen_pid ≡ false
      → spawn_successor k listeners spec_env n_sock_fd parent ≡ ok child
      → Overlooks (env_all spec_env parent.vars) listeners child
  unfolding spawn_successor spawn successor_command pass_listener_fds_on_spawn
  spawn_successor-Ignores k listeners spec_env n_sock_fd parent child n e =
      let cmd = successor_command listeners spec_env n_sock_fd parent in
      let same : child.vars ≡ cmd.vars =
        executed-vars parent child cmd.vars (install_inherited_fds k cmd.sources parent.table) e in
      (
        ap (λ (x : Vars). x.listen_pid) same,
        ap (λ (x : Vars). x.listen_fds) same,
        detect_role-Ignores child (ap (λ (x : Vars). is_ours h.pid x.listen_pid) same ∙ n),
      )
