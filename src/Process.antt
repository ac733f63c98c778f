-- ===== src/Process.antt =====
-- crates/handoff/src/sock.rs: what a process asks about its descriptors, and the flags it sets on them. A
-- `RawFd` is signed; a negative one is never open. What the kernel answers is `Host`.
use handoff.Prelude.{ℕ, Bool, true, false, Option, none, some, ◌==◌, if◌then◌else◌, ite, ℕ_discrete}
use handoff.Error.{ok, err, io, IoError, ℤ, pos, negsuc}
use handoff.Text.{Text}
use handoff.Fallible
use handoff.Fallible.{◌>>=◌, ◌>>◌, pure}
use handoff.Fd.{Slot, Table, put}

-- The variables of the inheritance convention; `none` is an unset one.
pub record Vars : Type 0 where
  pub listen_fds : Option Text
  pub listen_fdnames : Option Text
  pub listen_pid : Option Text
  pub handoff_role : Option Text
  pub handoff_sock_fd : Option Text

-- `O_NONBLOCK` belongs to the open file description.
pub record Process : Type 0 where
  pub table : Table
  pub nonblocking : ℕ → Bool
  pub vars : Vars

abbrev pub M {ℓ} : Type ℓ → Type ℓ
M A = Fallible.M Process A

-- What `getsockopt(SO_ACCEPTCONN)` answers.
pub data AcceptConn : Type 0 where
  answers : ℕ → AcceptConn
  fails : (raw_os_error : ℕ) → AcceptConn

-- The kernel's answers on an open file description, and its refusals to set a flag.
pub record Host : Type 0 where
  pub pid : ℕ
  pub ebadf : IoError
  pub einval : ℕ
  pub enoprotoopt : ℕ
  pub eopnotsupp : ℕ
  pub is_socket : ℕ → Bool
  pub family : ℕ → Option ℕ
  pub accept_conn : ℕ → AcceptConn
  pub refuses_setfd : Process → ℤ → Option IoError
  pub refuses_setfl : Process → ℤ → Option IoError
  pub refuses_timeout : Process → ℤ → Option IoError

abbrev pub slot_at : Table → ℤ → Option Slot
slot_at t (pos fd) = t fd
slot_at t (negsuc _) = none

abbrev pub put_at : ℤ → Slot → Table → Table
put_at (pos fd) s t = put fd (some s) t
put_at (negsuc _) s t = t

-- The open file description behind a descriptor.
abbrev pub description_of : Option Slot → Option ℕ
description_of none = none
description_of (some s) = some s.description

abbrev pub described : Process → ℤ → Option ℕ
described p fd = description_of (slot_at p.table fd)

module _ (h : Host) where
  abbrev pub socket_behind : Option ℕ → Bool
  socket_behind none = false
  socket_behind (some d) = h.is_socket d

  unfoldable pub fd_is_socket : ℤ → Process → Bool
  fd_is_socket fd p = socket_behind (described p fd)

  pub socket_family : ℤ → Process → Option ℕ
  socket_family fd p = elim (described p fd) [ none ↦ none | some d ↦ h.family d ]

  abbrev pub accepts : AcceptConn → Option Bool
  accepts (answers val) = some (if val == 0 then false else true)
  accepts (fails e) =
      if e == h.enoprotoopt then none else if e == h.eopnotsupp then none else some false

  pub accept_conn_opt : ℤ → Process → Option Bool
  accept_conn_opt fd p = elim (described p fd) [
    | none ↦ some false
    | some d ↦ accepts (h.accept_conn d)
  ]

  -- As it is built for Linux.
  pub fd_is_listening : ℤ → Process → Bool
  fd_is_listening fd p = elim (accept_conn_opt fd p) [ none ↦ false | some b ↦ b ]

  -- `fcntl(fd, F_SETFD, flags | FD_CLOEXEC)`
  abbrev pub setfd : ℤ → Slot → Option IoError → M (Unit {0})
  setfd fd s (some e) p = (err (io e), p)
  setfd fd s none p = (ok tt, record p { table = put_at fd (record s { cloexec = true }) p.table })

  unfoldable pub set_cloexec : ℤ → M (Unit {0})
  set_cloexec fd p = elim (slot_at p.table fd) [
    | none ↦ (err (io h.ebadf), p)
    | some s ↦ if s.cloexec then (ok tt, p) else setfd fd s (h.refuses_setfd p fd) p
  ]

  -- `fcntl(fd, F_SETFL, flags & !O_NONBLOCK)`
  abbrev pub setfl : ℕ → Option IoError → M (Unit {0})
  setfl d (some e) p = (err (io e), p)
  setfl d none p =
      (ok tt, record p { nonblocking = λ j. ite (ℕ_discrete d j) false (p.nonblocking j) })

  unfoldable pub clear_nonblocking : ℤ → M (Unit {0})
  clear_nonblocking fd p = elim (described p fd) [
    | none ↦ (err (io h.ebadf), p)
    | some d ↦ if p.nonblocking d then setfl d (h.refuses_setfl p fd) p else (ok tt, p)
  ]

  abbrev pub is_einval : Option ℕ → Bool
  is_einval none = false
  is_einval (some e) = e == h.einval

  -- A peer that has closed makes the timeout useless, not the stream.
  abbrev pub set_write_timeout : Option IoError → M (Unit {0})
  set_write_timeout none p = (ok tt, p)
  set_write_timeout (some e) p = if is_einval e.raw_os_error then (ok tt, p) else (err (io e), p)

  unfoldable pub configure_control_stream : ℤ → M (Unit {0})
  configure_control_stream fd = do set_cloexec fd; λ p. set_write_timeout (h.refuses_timeout p fd) p
