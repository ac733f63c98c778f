-- ===== src/Trigger.antt =====
-- crates/handoff-supervisor/src/main.rs: the trigger loop. `Client` is what the outside does during one
-- connection; a handoff that it asks for runs against the `Env` and the two peers that it carries. Replies
-- are data in place of their text.
pub mod Wait
pub mod Permitted
pub mod Current
pub mod Start
mod Tests
use handoff.Prelude.{
  ℕ, zero, suc, ◌+◌, ◌*◌, ◌≡◌, Bool, true, false, Option, none, some, List, [], ◌∷◌, String, take,
  ◌==◌, ◌||◌, if◌then◌else◌,
}
use handoff.Error.{Result, ok, err, Error, IoError}
use handoff.Text.{Text, same, text, extend, is_whitespace, trim}
use handoff.Sock.{peer_uid_is_allowed}
use handoff.Protocol.{HandoffId}
use handoff.Supervisor.World.{Env, World, Reading}
use handoff.Supervisor.Handoff.{SpawnSpec, HandoffOutcome, perform_handoff}

pub record Config : Type 0 where
  pub binary : Text
  pub allowed_binaries : List Text
  pub allowed_uids : List ℕ
  pub drain_grace_secs : ℕ
  pub deadline_secs : ℕ

abbrev pub default_drain_grace_secs : ℕ
default_drain_grace_secs = 25

abbrev pub default_deadline_secs : ℕ
default_deadline_secs = 60

abbrev pub trigger_max_line : ℕ
trigger_max_line = 4096

pub record Client : Type 0 where
  pub peer_uid : Result ℕ
  pub timeouts : Option IoError
  pub sends : Option Text  -- until it stops; `none` is a read that fails
  pub env : Env
  pub from_incumbent : List Reading
  pub from_successor : List Reading

-- `running` are the binaries that were handed to `perform_handoff`, the newest first.
pub record State : Type 0 where
  pub current_child : ℕ
  pub running : List Text
  pub world : World

pub data Reply : Type 0 where
  not_permitted empty_command : Reply
  unknown_command : Text → Reply
  refused_binary : (requested : Text) → Reply
  failed : Error → Reply
  done : HandoffId → (committed : Bool) → (abort_reason : Option String) → Reply

-- `read_line`: up to the newline, with it.
abbrev pub first_line : Text → Text
first_line [] = []
first_line (c ∷ cs) = if c == b'\n' then c ∷ [] else c ∷ first_line cs

abbrev pub words : Text → List Text
words [] = [] ∷ []
words (c ∷ cs) = let rest = words cs in if is_whitespace c then [] ∷ rest else extend c rest

abbrev pub without_empty : List Text → List Text
without_empty [] = []
without_empty ([] ∷ ws) = without_empty ws
without_empty ((c ∷ cs) ∷ ws) = (c ∷ cs) ∷ without_empty ws

-- `str::split_whitespace`
abbrev pub split_whitespace : Text → List Text
split_whitespace s = without_empty (words s)

-- A line that is read; an empty one is the end of the connection.
abbrev pub line_of : Text → Option Text
line_of [] = none
line_of (c ∷ cs) = some (c ∷ cs)

module _ (euid : ℕ) (cfg : Config) where
  abbrev pub read_command : Client → Option Text
  read_command c = elim c.timeouts [
    | some e ↦ none
    | none ↦ elim c.sends [ none ↦ none | some s ↦ line_of (first_line (take trigger_max_line s)) ]
  ]

  -- A reply that is sent before the connection is dropped comes with no command.
  unfoldable pub read_trigger_command : Client → Option Reply × Option Text
  read_trigger_command c = elim c.peer_uid [
    | err e ↦ (none, none)
    | ok uid ↦
        if peer_uid_is_allowed euid uid cfg.allowed_uids
        then (none, read_command c)
        else (some not_permitted, none)
  ]

  module _ (canonicalize : Text → Option Text) where
    abbrev pub names : Option Text → Text → Bool
    names none canonical = false
    names (some allowed) canonical = same allowed canonical

    abbrev pub any_names : List Text → Text → Bool
    any_names [] canonical = false
    any_names (b ∷ bs) canonical = names (canonicalize b) canonical || any_names bs canonical

    abbrev pub permitted : Option Text → Option Text
    permitted none = none
    permitted (some canonical) =
        if any_names (cfg.binary ∷ cfg.allowed_binaries) canonical then some canonical else none

    unfoldable pub resolve_requested_binary : (requested : Text) → Option Text
    resolve_requested_binary requested = permitted (canonicalize requested)

    abbrev pub spec : SpawnSpec
    spec = record { deadline = cfg.deadline_secs * 1000; drain_grace = cfg.drain_grace_secs * 1000 }

    -- The child of a commit becomes the current one.
    abbrev pub succeeded_by : Bool → Option ℕ → ℕ → ℕ
    succeeded_by true (some new_child) current = new_child
    succeeded_by _ _ current = current

    abbrev pub report : Result HandoffOutcome × World → State → Reply × State
    report (err e, w) s = (failed e, record s { world = w })
    report (ok o, w) s = (
      done o.handoff_id o.committed o.abort_reason,
      record s { world = w; current_child = succeeded_by o.committed o.child s.current_child },
    )

    -- `perform_handoff` with the binary.
    abbrev pub hand_off : Client → (binary : Text) → State → Reply × State
    hand_off c binary s =
        report
          (perform_handoff c.env spec (record s.world {
            from_incumbent = c.from_incumbent;
            from_successor = c.from_successor;
          }))
          (record s { running = binary ∷ s.running })

    abbrev pub requested : Client → Text → Option Text → State → Reply × State
    requested c r none s = (refused_binary r, s)
    requested c r (some binary) s = hand_off c binary s

    abbrev pub run : Client → List Text → State → Reply × State
    run c [] s = hand_off c cfg.binary s
    run c (r ∷ _) s = requested c r (resolve_requested_binary r) s

    abbrev pub dispatch : Client → List Text → State → Reply × State
    dispatch c [] s = (empty_command, s)
    dispatch c (w ∷ ws) s = if same w (text "handoff") then run c ws s else (unknown_command w, s)

    unfoldable pub handle_trigger : Client → Text → State → Reply × State
    handle_trigger c cmd s = dispatch c (split_whitespace cmd) s

    abbrev pub replied : Reply × State → Option Reply × State
    replied (r, s) = (some r, s)

    abbrev pub answered : Client → Option Reply × Option Text → State → Option Reply × State
    answered c (r, none) s = (r, s)
    answered c (r, some cmd) s = replied (handle_trigger c (trim cmd) s)

    -- One connection.
    unfoldable pub serve_client : Client → State → Option Reply × State
    serve_client c s = answered c (read_trigger_command c) s

    -- The trigger loop, with the replies.
    unfoldable pub serve_clients : List Client → State → List (Option Reply) × State
    serve_clients [] s = ([], s)
    serve_clients (c ∷ cs) s =
        let (r, s₁) = serve_client c s in let (rs, s₂) = serve_clients cs s₁ in (r ∷ rs, s₂)
