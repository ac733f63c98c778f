-- ===== src/Role/Spawned.antt =====
-- crates/handoff/src/supervisor.rs (`spawn_successor`), fd.rs and role.rs together: what the supervisor
-- hands over, the successor finds.
use handoff.Prelude.{
  ℕ, zero, suc, ◌+◌, ◌-◌, ◌^◌, ◌<◌, ◌≡◌, refl, sym, ap, subst, ◌∙◌, true, none, List, [], ◌∷◌, ◌++◌,
  length, length-append, arith,
}
use handoff.Error.{pos, Result, ok, err}
use handoff.Text.{Text}
use handoff.Text.Split.{AllFree}
use handoff.Process.{Vars, Process, Host, described, description_of, socket_behind, fd_is_socket}
use handoff.Fd.{Table, Kernel, install_inherited_fds}
use handoff.Fd.Stages.{IsSound, AllOpen, nth, look}
use handoff.Fd.Arranged.{arranged, Installs, install_inherited_fds-Installs}
use handoff.Fd.Spawn.{
  Var, names_of, fds_of, env_all, kept, executed, spawn, pass_listener_fds_on_spawn,
  successor_command, spawn_successor,
}
use handoff.Role.Environment.{Role, successor, detect_role}
use handoff.Role.Inherits.{AreDistinct, AllSockets, positions}
use handoff.Role.Inherited.{AreSet, IsAttached, detect_role-IsAttached}

-- Each of the descriptors is a socket.
abbrev pub AllSources : Host → Process → List ℕ → Type 0
AllSources h p [] = Unit
AllSources h p (s ∷ ss) = (fd_is_socket h (pos s) p ≡ true) × AllSources h p ss

pub AllSources-AllOpen :
    (h : Host) (p : Process) (ss : List ℕ) → AllSources h p ss → AllOpen p.table ss
unfolding fd_is_socket
AllSources-AllOpen h p [] s = tt
AllSources-AllOpen h p (x ∷ ss) (e, s) = ((λ n. ground (arith, n)), AllSources-AllOpen h p ss s)

length-names_of : (ls : List (Text × ℕ)) → length (names_of ls) ≡ length ls
length-names_of [] = refl
length-names_of (l ∷ ls) = ap suc (length-names_of ls)

length-fds_of : (ls : List (Text × ℕ)) → length (fds_of ls) ≡ length ls
length-fds_of [] = refl
length-fds_of (l ∷ ls) = ap suc (length-fds_of ls)

-- What a child finds behind a descriptor.
arranged-kept :
    (ss : List ℕ) (t : Table) (i : ℕ)
    → i < length ss
    → description_of (kept (arranged ss t (3 + i))) ≡ description_of (look t (nth ss i))
arranged-kept ss t i l = ground (arith, ap (nth ss) {x = 3 + i - 3} {y = i} (omega arith))

executed-described :
    (ss : List ℕ) (parent child : Process) (v : Vars) (out : Result (Unit {0}) × Table) (i : ℕ)
    → Installs ss parent.table out
    → executed parent v out ≡ ok child
    → i < length ss
    → (child.vars ≡ v)
      × (described child (pos (3 + i)) ≡ description_of (look parent.table (nth ss i)))
executed-described ss parent child v (ok _, t) i e q l =
    let c : record { table = λ j. kept (t j); nonblocking = parent.nonblocking; vars = v } ≡ child =
      ground arith in
    let r : description_of (kept (t (3 + i)))
        ≡ description_of (kept (arranged ss parent.table (3 + i))) =
      ap (λ (u : Table). description_of (kept (u (3 + i)))) e in
    rw (← c) (refl, r ∙ arranged-kept ss parent.table i l)
executed-described ss parent child v (err x, t) i e q l = absurd (ground arith)

source-socket :
    (h : Host) (parent : Process) (ss : List ℕ) (i : ℕ)
    → AllSources h parent ss
    → i < length ss
    → socket_behind h (description_of (look parent.table (nth ss i))) ≡ true
unfolding fd_is_socket
source-socket h parent [] i s l = absurd (omega arith)
source-socket h parent (x ∷ ss) zero (e, s) l = e
source-socket h parent (x ∷ ss) (suc i) (e, s) l = source-socket h parent ss i s (omega arith)

AllSockets-range :
    (h : Host) (p : Process) (n i : ℕ)
    → ((j : ℕ) → j < i + n → fd_is_socket h (pos (3 + j)) p ≡ true)
    → AllSockets h n i p
AllSockets-range h p zero i s = tt
AllSockets-range h p (suc n) i s =
    (s i (omega arith), AllSockets-range h p n (suc i) (λ j l. s j (omega arith)))

-- The successor that has what `parent` had at the sources: the listeners under their names, and behind
-- them the control socket.
abbrev pub HandsOver :
    List Text → (sources : List ℕ) → (parent : Process) → Result Role × Process → Type 0
HandsOver ws ss parent (ok (successor s), q) =
    (s.control ≡ pos (3 + length ws))
    × (s.inherited ≡ positions 0 ws)
    × ((i : ℕ)
        → i < length ss
        → described q (pos (3 + i)) ≡ description_of (look parent.table (nth ss i)))
HandsOver ws ss parent _ = ⊥

attached-HandsOver :
    (ws : List Text) (ss : List ℕ) (parent child : Process) (out : Result Role × Process)
    → IsAttached ws child out
    → ((i : ℕ)
        → i < length ss
        → described child (pos (3 + i)) ≡ description_of (look parent.table (nth ss i)))
    → HandsOver ws ss parent out
attached-HandsOver ws ss parent child (ok (successor s), q) (c, n, k) d =
    (c, n, λ i l. k (pos (3 + i)) ∙ d i l)
attached-HandsOver ws ss parent child (ok _, q) a d = absurd a
attached-HandsOver ws ss parent child (err e, q) a d = absurd a

module _ (k : Kernel) (sound : IsSound k) (h : Host) (listeners : List (Text × ℕ))
    (spec_env : List (Var × Text)) (n_sock_fd : ℕ) (parent : Process) where
  abbrev sources : List ℕ
  sources = fds_of listeners ++ (n_sock_fd ∷ [])

  abbrev vars : Vars
  vars = (successor_command listeners spec_env n_sock_fd parent).vars

  length-sources : length sources ≡ suc (length (names_of listeners))
  length-sources = omega (
    arith,
    length-append (fds_of listeners) (n_sock_fd ∷ []),
    length-fds_of listeners,
    length-names_of listeners,
  )

  child-described :
      (child : Process) (i : ℕ)
      → AllSources h parent sources
      → spawn_successor k listeners spec_env n_sock_fd parent ≡ ok child
      → i < length sources
      → (child.vars ≡ vars)
        × (described child (pos (3 + i)) ≡ description_of (look parent.table (nth sources i)))
  unfolding spawn_successor spawn successor_command pass_listener_fds_on_spawn
  child-described child i s e l =
      executed-described sources parent child vars (install_inherited_fds k sources parent.table) i
        (install_inherited_fds-Installs k sound sources parent.table
          (AllSources-AllOpen h parent sources s))
        e l

  vars-AreSet : (env_all spec_env parent.vars).listen_pid ≡ none → AreSet (names_of listeners) vars
  unfolding successor_command pass_listener_fds_on_spawn
  vars-AreSet n = record {
    count = rw (length-names_of listeners) refl;
    names = refl;
    no_pid = n;
    role = refl;
    control = rw (length-names_of listeners) refl;
  }

  -- For a kernel whose `F_DUPFD` returns a descriptor that is free and at or above the bound, and a supervisor
  -- of fewer than 2^31 - 3 listeners, under distinct names without a colon, that are open sockets as its end of
  -- the control connection is, where neither its environment nor the specification sets `LISTEN_PID`: in every
  -- successor that `spawn_successor` starts, `detect_role` returns a `Successor` whose control socket is at `3 + n`
  -- and whose listeners are exactly the supervisor's names, the `i`-th at `3 + i`; and each of those
  -- descriptors stands for the open file description that its source stood for in the supervisor.
  pub spawn_successor-HandsOver :
      (child : Process)
      → 3 + length listeners < 2 ^ 31
      → AllFree b':' (names_of listeners)
      → AreDistinct (names_of listeners)
      → AllSources h parent sources
      → (env_all spec_env parent.vars).listen_pid ≡ none
      → spawn_successor k listeners spec_env n_sock_fd parent ≡ ok child
      → HandsOver (names_of listeners) sources parent (detect_role h child)
  unfolding fd_is_socket
  spawn_successor-HandsOver child l f d s n e =
      let ws = names_of listeners in
      let at : (i : ℕ) → i < length sources → fd_is_socket h (pos (3 + i)) child ≡ true = λ i lt.
        ap (socket_behind h) (child-described child i s e lt).1
        ∙ source-socket h parent sources i s lt in
      let v : child.vars ≡ vars = (child-described child 0 s e (omega (arith, length-sources))).0 in
      attached-HandsOver ws sources parent child (detect_role h child)
        (detect_role-IsAttached h ws child (subst (AreSet ws) (sym v) (vars-AreSet n))
          (omega (arith, length-names_of listeners)) f d
          (AllSockets-range h child (length ws) 0 (λ j lt. at j (omega (arith, length-sources))))
          (at (length ws) (omega (arith, length-sources))))
        (λ i lt. (child-described child i s e lt).1)
