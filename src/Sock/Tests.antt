-- ===== src/Sock/Tests.antt =====
-- crates/handoff/src/sock.rs: a buffer that goes out in parts, and a socket that replaces another.
use handoff.Prelude.{◌≡◌, refl, [], ◌∷◌, arith}
use handoff.Error.{ok, from_kind, interrupted}
use handoff.Text.{text, to_string, digits}
use handoff.Sock.Send.{Socket, sent, failed, send_all, send_all-completes}
use handoff.Sock.Bind.{bind_socket}
use handoff.Sock.Publishes.{Publishes, bind_socket-Publishes}
use handoff.Sock.Example.{path, system, disk}

abbrev socket : Socket
socket = record {
  answers = failed (from_kind interrupted) ∷ sent 2 ∷ sent 1 ∷ sent 1 ∷ [];
  delivered = 9 ∷ [];
}

send_all-completes_example :
    ((send_all (1 ∷ 2 ∷ 3 ∷ []) socket).0 ≡ ok tt)
    × ((send_all (1 ∷ 2 ∷ 3 ∷ []) socket).1.delivered ≡ 9 ∷ 1 ∷ 2 ∷ 3 ∷ [])
send_all-completes_example = send_all-completes (1 ∷ 2 ∷ 3 ∷ []) socket (refl, tt)

bind_socket-Publishes_example :
    Publishes (text "/run/.ho-7-0.tmp") path disk (bind_socket system path disk)
unfolding to_string digits
bind_socket-Publishes_example = bind_socket-Publishes system path disk (λ e. ground (arith, e)) refl
