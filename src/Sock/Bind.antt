-- ===== src/Sock/Bind.antt =====
-- crates/handoff/src/sock.rs: `bind_socket`. `Files` are the sockets in the file system under their paths;
-- `seen` records the state before each call that changes it, the latest first. A call that fails changes
-- nothing. The functions on paths are those of `std::path`.
use handoff.Prelude.{
  ℕ, suc, ◌+◌, ◌%◌, ◌^◌, Bool, true, false, Option, none, some, List, [], ◌∷◌, ◌++◌, if◌then◌else◌,
}
use handoff.Error.{Result, ok, err, io, IoError}
use handoff.Fallible
use handoff.Fallible.{◌>>=◌, ◌>>◌, pure, lift, catch, throw}
use handoff.Text.{Text, same, text, to_string}
use handoff.Sock.{validate_socket_path}

pub record Bound : Type 0 where
  pub listener : ℕ
  pub mode : ℕ

abbrev pub Files : Type 0
Files = Text → Option Bound

-- `count` is the number of the next listener, `seq` the counter of the staging names.
pub record Disk : Type 0 where
  pub files : Files
  pub seen : List Files
  pub count : ℕ
  pub seq : ℕ

abbrev pub M {ℓ} : Type ℓ → Type ℓ
M A = Fallible.M Disk A

-- The process, and which calls fail.
pub record System : Type 0 where
  pub sun_path : ℕ
  pub pid : ℕ
  pub umask_mode : ℕ  -- 0777 & ~umask
  pub eaddrinuse : IoError
  pub parent : Text → Option Text
  pub join : Text → Text → Text
  pub create_dir_all : Option IoError
  pub remove_first : Option IoError
  pub bind : Option IoError
  pub set_permissions : Option IoError
  pub rename : Option IoError
  pub remove_last : Option IoError
  pub set_cloexec : Option IoError

abbrev pub socket_mode : ℕ
socket_mode = 384  -- 0o600

abbrev pub put : Text → Option Bound → Files → Files
put path b fs p = if same path p then b else fs p

abbrev pub change : (Files → Files) → Disk → Disk
change f d = record d { files = f d.files; seen = d.files ∷ d.seen }

-- A call that the system may refuse.
abbrev pub call : Option IoError → (Files → Files) → M (Unit {0})
call (some e) f d = (err (io e), d)
call none f d = (ok tt, change f d)

abbrev pub is_empty : Text → Bool
is_empty [] = true
is_empty _ = false

abbrev pub directory : Option Text → Text
directory none = text "."
directory (some p) = if is_empty p then text "." else p

abbrev pub has_parent : Option Text → Bool
has_parent none = false
has_parent (some p) = if is_empty p then false else true

abbrev pub chmod : Text → ℕ → Files → Files
chmod path mode fs = elim (fs path) [
  | none ↦ fs
  | some b ↦ put path (some (record b { mode = mode })) fs
]

-- Within one file system, `rename` moves the name in one step.
abbrev pub moved : (from to : Text) → Files → Files
moved from to fs = put from none (put to (fs from) fs)

module _ (s : System) where
  abbrev pub staging_name : ℕ → Text
  staging_name seq = text ".ho-" ++ (to_string s.pid ++ (b'-' ∷ (to_string seq ++ text ".tmp")))

  abbrev pub staging_path : Text → ℕ → Text
  staging_path path seq = s.join (directory (s.parent path)) (staging_name seq)

  -- `SEQ.fetch_add(1)`
  abbrev pub next_staging : Text → M Text
  next_staging path d = (ok (staging_path path d.seq), record d { seq = (d.seq + 1) % 2 ^ 32 })

  abbrev pub create_parent : Text → M (Unit {0})
  create_parent path d =
      if has_parent (s.parent path) then call s.create_dir_all (λ fs. fs) d else (ok tt, d)

  abbrev pub bound : Text → Option IoError → Option Bound → M ℕ
  bound path (some e) b d = (err (io e), d)
  bound path none (some b) d = (err (io s.eaddrinuse), d)
  bound path none none d = (
    ok d.count,
    record (change (put path (some (record { listener = d.count; mode = s.umask_mode }))) d) {
      count = suc d.count;
    },
  )

  abbrev pub bind : Text → M ℕ
  bind path d = bound path s.bind (d.files path) d

  abbrev pub publish : (staging path : Text) → M (Unit {0})
  publish staging path = do
    call s.set_permissions (chmod staging socket_mode)
    call s.rename (moved staging path)

  -- `bind_result`
  abbrev pub finish : (staging : Text) → ℕ → Result (Unit {0}) → M ℕ
  finish staging listener (err e) = do _ ← catch (call s.remove_last (put staging none)); throw e
  finish staging listener (ok _) = do call s.set_cloexec (λ fs. fs); pure listener

  -- From the removal of a leftover staging file on.
  abbrev pub bind_at : (staging path : Text) → M ℕ
  bind_at staging path = do
    _ ← catch (call s.remove_first (put staging none))
    listener ← bind staging
    published ← catch (publish staging path)
    finish staging listener published

  unfoldable pub bind_socket : Text → M ℕ
  bind_socket path = do
    lift (validate_socket_path s.sun_path path)
    create_parent path
    staging ← next_staging path
    lift (validate_socket_path s.sun_path staging)
    bind_at staging path
