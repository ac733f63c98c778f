-- ===== src/Role/Environment.antt =====
-- crates/handoff/src/role.rs: what a process reads from its environment at its start. A panic for a
-- `LISTEN_FDS` too large to allocate for is left out, and `i as RawFd` wraps as it does in a release
-- build. A variable that is not Unicode counts as unset.
use handoff.Prelude.{
  ℕ, zero, suc, ◌+◌, ◌-◌, ◌%◌, ◌^◌, Bool, true, false, Option, none, some, List, [], ◌∷◌, ◌++◌, ltb,
  ◌==◌, ◌&&◌, if◌then◌else◌,
}
use handoff.Error.{ok, err, missing_env, bad_env, ℤ, pos, negsuc}
use handoff.Text.{Text, same, text, to_string, parse, parse_i32, split, trim}
use handoff.Sock.{contains}
use handoff.Process.{
  Process, Host, M, fd_is_socket, fd_is_listening, socket_family, set_cloexec, clear_nonblocking,
  configure_control_stream,
}

-- A `HashMap` from names to descriptors.
abbrev pub Listeners : Type 0
Listeners = List (Text × ℤ)

abbrev pub get : Text → Listeners → Option ℤ
get name [] = none
get name ((n, fd) ∷ ls) = if same n name then some fd else get name ls

unfoldable pub insert : Text → ℤ → Listeners → Listeners
insert name fd [] = (name, fd) ∷ []
insert name fd ((n, f) ∷ ls) =
    let rest = insert name fd ls in if same n name then (name, fd) ∷ ls else (n, f) ∷ rest

unfoldable pub remove : Text → Listeners → Listeners
remove name [] = []
remove name ((n, f) ∷ ls) = let rest = remove name ls in if same n name then ls else (n, f) ∷ rest

pub record Successor : Type 0 where
  pub control : ℤ
  pub inherited : Listeners

pub data Role : Type 0 where
  cold_start : (inherited : Listeners) → Role
  successor : Successor → Role

abbrev pub get_elem? : List Text → ℕ → Option Text
get_elem? [] i = none
get_elem? (w ∷ ws) zero = some w
get_elem? (w ∷ ws) (suc i) = get_elem? ws i

abbrev pub as_i32 : ℕ → ℤ
as_i32 n = let m = n % 2 ^ 32 in if ltb m (2 ^ 31) then pos m else negsuc (2 ^ 32 - 1 - m)

abbrev pub sd_listen_fds_start : ℕ
sd_listen_fds_start = 3

-- `var.ok().and_then(parse).unwrap_or(0)`
abbrev pub count_of : Option Text → ℕ
count_of none = 0
count_of (some s) = elim (parse (2 ^ 64) s) [ none ↦ 0 | some n ↦ n ]

abbrev pub names_of : Option Text → List Text
names_of none = []
names_of (some s) = split b':' s

abbrev pub name_at : Option Text → ℕ → Text
name_at none i = to_string i
name_at (some name) i = name

-- Whether `LISTEN_PID` allows the descriptors to be this process's.
abbrev pub is_ours : (pid : ℕ) → Option Text → Bool
is_ours pid none = true
is_ours pid (some raw) = elim (parse (2 ^ 32) (trim raw)) [ none ↦ false | some n ↦ n == pid ]

abbrev pub is_successor : Option Text → Bool
is_successor none = false
is_successor (some s) = same s (text "successor")

abbrev pub show_i32 : ℤ → Text
show_i32 (pos n) = to_string n
show_i32 (negsuc n) = b'-' ∷ to_string (suc n)

abbrev pub not_a_socket : ℤ → Text
not_a_socket fd = text "fd " ++ (show_i32 fd ++ text " is not an open socket")

abbrev pub without_listen : Process → Process
without_listen p = record p {
  vars = record p.vars { listen_pid = none; listen_fds = none; listen_fdnames = none };
}

abbrev pub family_in : List ℕ → Option ℕ → Bool
family_in families none = false
family_in families (some f) = contains families f

module _ (h : Host) where
  -- A failure is logged.
  unfoldable pub normalize_inherited_fd : ℤ → Process → Process
  normalize_inherited_fd fd p = (clear_nonblocking h fd (set_cloexec h fd p).1).1

  -- The body of the loop.
  abbrev pub adopt : Text → ℤ → Listeners × Process → Listeners × Process
  adopt name fd (map, p) =
      if fd_is_socket h fd p then (insert name fd map, normalize_inherited_fd fd p) else (map, p)

  -- The loop, for `n` more descriptors from the `i`-th on.
  unfoldable pub adopt_all : (n i : ℕ) → List Text → Listeners × Process → Listeners × Process
  adopt_all zero i names s = s
  adopt_all (suc n) i names s =
      adopt_all n (suc i) names
        (adopt (name_at (get_elem? names i) i) (as_i32 (sd_listen_fds_start + i)) s)

  unfoldable pub read_inherited_listeners : Process → Listeners × Process
  read_inherited_listeners p =
      if is_ours h.pid p.vars.listen_pid
      then adopt_all (count_of p.vars.listen_fds) 0 (names_of p.vars.listen_fdnames) ([], p)
      else ([], p)

  -- The control socket is adopted whether or not it takes its timeout.
  abbrev pub attach : ℤ → Listeners → M Role
  attach fd inherited p =
      if fd_is_socket h fd p
      then (
        ok (successor (record { control = fd; inherited = inherited })),
        (configure_control_stream h fd (normalize_inherited_fd fd p)).1,
      )
      else (err (bad_env "HANDOFF_SOCK_FD" (not_a_socket fd)), p)

  -- The rest of `detect_role`, behind the listeners.
  abbrev pub parsed : (raw : Text) → Option ℤ → Listeners → M Role
  parsed raw none inherited p = (err (bad_env "HANDOFF_SOCK_FD" raw), p)
  parsed raw (some fd) inherited p =
      attach fd inherited
        (record p { vars = record p.vars { handoff_role = none; handoff_sock_fd = none } })

  abbrev pub control_of : Option Text → Listeners → M Role
  control_of none inherited p = (err (missing_env "HANDOFF_SOCK_FD"), p)
  control_of (some raw) inherited p = parsed raw (parse_i32 raw) inherited p

  abbrev pub role_of : Listeners → M Role
  role_of inherited p =
      if is_successor p.vars.handoff_role
      then control_of p.vars.handoff_sock_fd inherited p
      else (ok (cold_start inherited), p)

  unfoldable pub detect_role : M Role
  detect_role p =
      let (inherited, q) = read_inherited_listeners p in role_of inherited (without_listen q)

  abbrev pub taken :
      Text → Option ℤ → (families : List ℕ) → Listeners → Process → Option ℤ × Listeners
  taken name none families ls p = (none, ls)
  taken name (some fd) families ls p =
      if fd_is_listening h fd p && family_in families (socket_family h fd p)
      then (some fd, remove name ls)
      else (none, ls)

  -- `InheritedListeners::take_validated`; `take` and `take_unix` differ in `families`.
  unfoldable pub take_validated :
      Text → (families : List ℕ) → Listeners → Process → Option ℤ × Listeners
  take_validated name families ls p = taken name (get name ls) families ls p
