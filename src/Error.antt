-- ===== src/Error.antt =====
-- crates/handoff/src/error.rs: the crate's error type and `Result`.
-- Of an `io::Error` the model keeps its kind and its raw OS error; of a `postcard::Error` and of a
-- `nix::Error` a number that names it.
pub use handoff.Integer.{ℤ, pos, negsuc}
use handoff.Text.{Text}
use handoff.Prelude.{ℕ, ◌≡◌, refl, Option, none, String, ◌⊎◌, inl, inr}

-- `std::io::ErrorKind`, as far as the crate tells kinds apart.
pub data ErrorKind : Type 0 where
  unexpected_eof connection_reset interrupted would_block timed_out not_found write_zero : ErrorKind
  other : ErrorKind

pub record IoError : Type 0 where
  pub kind : ErrorKind
  pub raw_os_error : Option ℕ

-- `io::Error::from(kind)`
abbrev pub from_kind : ErrorKind → IoError
from_kind k = record { kind = k; raw_os_error = none }

pub data Error : Type 0 where
  io : IoError → Error
  codec : ℕ → Error
  nix : ℕ → Error
  protocol : String → Error
  frame_too_large : ℕ → Error
  frame_malformed : ℕ → Error
  pid_mismatch : (expected announced : ℕ) → Error
  version_mismatch : (our_min our_max their_min their_max : ℕ) → Error
  unexpected_message : String → Error
  timeout : String → Error
  lock_held : (holder_pid : ℤ) → Error
  stale_lock_break_refused : (holder_pid : ℤ) → Error
  socket_path_too_long : (path : Text) (len max : ℕ) → Error
  peer_not_permitted : (peer_uid : ℕ) → Error
  handoff_in_progress : Error
  aborted : String → Error
  missing_env : String → Error
  bad_env : (var : String) (value : Text) → Error
  channel : Error

pub data Result {ℓ} (A : Type ℓ) : Type ℓ where
  ok : A → Result A
  err : Error → Result A

-- The channel errors that the bridge pattern converts with `?`.
pub data RecvTimeoutError : Type 0 where
  timed_out disconnected : RecvTimeoutError

-- `impl From<RecvTimeoutError> for Error`
pub from_recv_timeout : RecvTimeoutError → Error
from_recv_timeout RecvTimeoutError.timed_out = timeout "channel recv"
from_recv_timeout disconnected = channel

-- `?`: an error ends the computation.
infixl 5 ◌>>=◌
abbrev pub ◌>>=◌ {ℓ κ} : {A : Type ℓ} {B : Type κ} → Result A → (A → Result B) → Result B
ok a >>= f = f a
err e >>= f = err e

pub Result-cases {ℓ} :
    {A : Type ℓ} (r : Result A) → ((a : A) × (r ≡ ok a)) ⊎ ((e : Error) × (r ≡ err e))
Result-cases (ok a) = inl (a, refl)
Result-cases (err e) = inr (e, refl)

abbrev pub IsErr {ℓ} : {A : Type ℓ} → Result A → Type 0
IsErr (ok _) = ⊥
IsErr (err _) = Unit
