-- ===== src/Sock.antt =====
-- crates/handoff/src/sock.rs: the checks on a socket path and on the peer's uid. `geteuid` and the
-- size of `sun_path` are arguments; a path is the list of its bytes.
pub mod Send
pub mod Bind
pub mod Publishes
pub mod Example
mod Tests
use handoff.Prelude.{ℕ, ◌-◌, Bool, false, ◌||◌, List, [], ◌∷◌, length, ltb, ◌==◌, if◌then◌else◌}
use handoff.Text.{Text}
use handoff.Error.{Result, ok, err, socket_path_too_long}

abbrev pub contains : List ℕ → ℕ → Bool
contains [] uid = false
contains (x ∷ xs) uid = x == uid || contains xs uid

unfoldable pub peer_uid_is_allowed : (euid uid : ℕ) → (extra_allowed : List ℕ) → Bool
peer_uid_is_allowed euid uid extra_allowed = uid == euid || (uid == 0 || contains extra_allowed uid)

-- `size_of_val(&addr.sun_path) - 1`
abbrev pub max_socket_path_len : ℕ → ℕ
max_socket_path_len sun_path = sun_path - 1

unfoldable pub validate_socket_path : (sun_path : ℕ) → (path : Text) → Result (Unit {0})
validate_socket_path sun_path path =
    let limit = max_socket_path_len sun_path in
    if ltb limit (length path) then err (socket_path_too_long path (length path) limit) else ok tt
