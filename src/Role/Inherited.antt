-- ===== src/Role/Inherited.antt =====
-- crates/handoff/src/role.rs, fd.rs and supervisor.rs together: what a spawned successor finds.
use handoff.Prelude.{
  ℕ, ◌+◌, ◌^◌, ◌≤◌, ◌<◌, ◌≡◌, refl, ap, ◌∙◌, true, none, some, List, [], ◌∷◌, length, arith,
}
use handoff.Error.{ℤ, pos, Result, ok}
use handoff.Text.{Text, text, to_string, parse, parse_i32, parse_digits, split, join}
use handoff.Text.Decimal.{parse-to_string}
use handoff.Text.Split.{AllFree, split-join}
use handoff.Process.{Vars, Process, Host, fd_is_socket, configure_control_stream}
use handoff.Role.Environment.{
  Listeners, Role, successor, get_elem?, adopt_all, read_inherited_listeners,
  normalize_inherited_fd, attach, role_of, without_listen, detect_role, is_ours, count_of, names_of,
}
use handoff.Role.Inherits.{
  AreDistinct, AllSockets, Adopts, Preserves, positions, adopt_all-Adopts, adopt_all-vars,
  set_cloexec-Preserves, normalize_inherited_fd-Preserves, fd_is_socket-Preserves,
}

parse_i32-digits :
    (n : ℕ) (s : Text) → n < 2 ^ 31 → parse (2 ^ 31) s ≡ some n → parse_i32 s ≡ some (pos n)
unfolding parse_i32 parse parse_digits
parse_i32-digits n [] l e = absurd (ground arith)
parse_i32-digits n (c ∷ []) l e = ground arith
parse_i32-digits n (c ∷ d ∷ cs) l e = ground arith

count_of-to_string : (n : ℕ) → n < 2 ^ 64 → count_of (some (to_string n)) ≡ n
count_of-to_string n l = ground (arith, parse-to_string (2 ^ 64) n l)

-- The variables with which a supervisor starts a successor.
pub record AreSet (ws : List Text) (v : Vars) : Type 0 where
  pub count : v.listen_fds ≡ some (to_string (length ws))
  pub names : v.listen_fdnames ≡ some (join b':' ws)
  pub no_pid : v.listen_pid ≡ none
  pub role : v.handoff_role ≡ some (text "successor")
  pub control : v.handoff_sock_fd ≡ some (to_string (3 + length ws))

-- A successor with these listeners, in which every descriptor is what it was.
abbrev pub IsAttached : List Text → Process → Result Role × Process → Type 0
IsAttached ws p (ok (successor s), q) =
    (s.control ≡ pos (3 + length ws)) × (s.inherited ≡ positions 0 ws) × Preserves p q
IsAttached ws p _ = ⊥

module _ (h : Host) where
  names-Adopts :
      (ws : List Text) (p : Process)
      → 3 + length ws ≤ 2 ^ 31
      → AllFree b':' ws
      → AllSockets h (length ws) 0 p
      → AreDistinct ws
      → Adopts ws 0 ([], p) (adopt_all h (length ws) 0 (split b':' (join b':' ws)) ([], p))
  unfolding adopt_all
  names-Adopts [] p l f s d = (refl, λ j. refl)
  names-Adopts (w ∷ ws) p l f s d = rw (split-join b':' w ws f) (
      adopt_all-Adopts h (w ∷ ws) 0 (w ∷ ws) [] p
        (λ j. ap (get_elem? (w ∷ ws)) {x = 0 + j} {y = j} (omega arith)) l s tt d)

  configure-Preserves : (fd : ℤ) (p : Process) → Preserves p (configure_control_stream h fd p).1
  unfolding configure_control_stream
  configure-Preserves fd p j = ground (arith, set_cloexec-Preserves h fd p j)

  attach-IsAttached :
      (ws : List Text) (ls : Listeners) (p q : Process)
      → ls ≡ positions 0 ws
      → Preserves p q
      → fd_is_socket h (pos (3 + length ws)) p ≡ true
      → IsAttached ws p (attach h (pos (3 + length ws)) ls q)
  attach-IsAttached ws ls p q e k s = rw (fd_is_socket-Preserves h p q (pos (3 + length ws)) k s) (
    refl,
    e,
    λ j.
        configure-Preserves (pos (3 + length ws)) (normalize_inherited_fd h (pos (3 + length ws)) q)
          j
        ∙ (normalize_inherited_fd-Preserves h (pos (3 + length ws)) q j ∙ k j),
  )

  -- Behind the listeners.
  role_of-IsAttached :
      (ws : List Text) (p : Process) (s : Listeners × Process)
      → AreSet ws p.vars
      → s.1.vars ≡ p.vars
      → Adopts ws 0 ([], p) s
      → 3 + length ws < 2 ^ 31
      → fd_is_socket h (pos (3 + length ws)) p ≡ true
      → IsAttached ws p (role_of h s.0 (without_listen s.1))
  role_of-IsAttached ws p (ls, q) v e (a, k) l c =
      let r : q.vars.handoff_role ≡ some (text "successor") =
        ap (λ (x : Vars). x.handoff_role) e ∙ v.role in
      let f : q.vars.handoff_sock_fd ≡ some (to_string (3 + length ws)) =
        ap (λ (x : Vars). x.handoff_sock_fd) e ∙ v.control in
      let d : parse_i32 (to_string (3 + length ws)) ≡ some (pos (3 + length ws)) =
        parse_i32-digits (3 + length ws) (to_string (3 + length ws)) l
          (parse-to_string (2 ^ 31) (3 + length ws) l) in
      rw (r, f, d)
        (attach-IsAttached ws ls p
          (record q {
            vars = record q.vars {
              listen_pid = none;
              listen_fds = none;
              listen_fdnames = none;
              handoff_role = none;
              handoff_sock_fd = none;
            };
          })
          a k c)

  read-adopt_all :
      (ws : List Text) (p : Process)
      → AreSet ws p.vars
      → 3 + length ws < 2 ^ 31
      → read_inherited_listeners h p ≡ adopt_all h (length ws) 0 (split b':' (join b':' ws)) ([], p)
  unfolding read_inherited_listeners
  read-adopt_all ws p v l =
      let o : is_ours h.pid p.vars.listen_pid ≡ true = ap (is_ours h.pid) v.no_pid in
      let c : count_of p.vars.listen_fds ≡ length ws =
        ap count_of v.count ∙ count_of-to_string (length ws) (omega arith) in
      let n : names_of p.vars.listen_fdnames ≡ split b':' (join b':' ws) = ap names_of v.names in
      rw (o, c, n) refl

  pub detect_role-IsAttached :
      (ws : List Text) (p : Process)
      → AreSet ws p.vars
      → 3 + length ws < 2 ^ 31
      → AllFree b':' ws
      → AreDistinct ws
      → AllSockets h (length ws) 0 p
      → fd_is_socket h (pos (3 + length ws)) p ≡ true
      → IsAttached ws p (detect_role h p)
  unfolding detect_role
  detect_role-IsAttached ws p v l f d s c = rw (read-adopt_all ws p v l) (
      role_of-IsAttached ws p (adopt_all h (length ws) 0 (split b':' (join b':' ws)) ([], p)) v
        (adopt_all-vars h (length ws) 0 (split b':' (join b':' ws)) ([], p))
        (names-Adopts ws p (omega arith) f s d) l c)
