-- ===== src/Trigger/Permitted.antt =====
-- crates/handoff-supervisor/src/main.rs: which binaries a trigger client can have run.
use handoff.Prelude.{
  ℕ, ◌≡◌, ◌⊎◌, refl, sym, ap, subst, ◌∙◌, true, Bool-cases, inl, inr, Option, none, some, List, [],
  ◌∷◌, arith,
}
use handoff.Error.{Result, ok, err}
use handoff.Text.{Text, same, text, trim}
use handoff.Role.Inherits.{same-≡}
use handoff.Sock.{contains, peer_uid_is_allowed}
use handoff.Supervisor.World.{World}
use handoff.Supervisor.Handoff.{HandoffOutcome, perform_handoff}
use handoff.Trigger.{
  Config, Client, State, Reply, names, any_names, permitted, resolve_requested_binary, report,
  hand_off, requested, run, dispatch, split_whitespace, handle_trigger, answered,
  read_trigger_command, serve_client, serve_clients, spec,
}

-- The path is the canonical one of a binary of the configuration.
abbrev pub IsAmong : (canonicalize : Text → Option Text) → List Text → Text → Type 0
IsAmong canonicalize [] path = ⊥
IsAmong canonicalize (b ∷ bs) path = (canonicalize b ≡ some path) ⊎ IsAmong canonicalize bs path

-- What the supervisor may run: the configured binary, or a canonical path of it or of an allowed one.
abbrev pub IsPermitted : (canonicalize : Text → Option Text) → Config → Text → Type 0
IsPermitted canonicalize cfg path =
    (path ≡ cfg.binary) ⊎ IsAmong canonicalize (cfg.binary ∷ cfg.allowed_binaries) path

abbrev pub AllPermitted : (canonicalize : Text → Option Text) → Config → List Text → Type 0
AllPermitted canonicalize cfg [] = Unit
AllPermitted canonicalize cfg (b ∷ bs) =
    IsPermitted canonicalize cfg b × AllPermitted canonicalize cfg bs

-- The peers that may trigger a handoff.
abbrev pub IsTrusted : (euid : ℕ) → Config → Client → Type 0
IsTrusted euid cfg c =
    (uid : ℕ) × (c.peer_uid ≡ ok uid)
    × ((uid ≡ euid) ⊎ ((uid ≡ 0) ⊎ (contains cfg.allowed_uids uid ≡ true)))

module _ (euid : ℕ) (cfg : Config) (canonicalize : Text → Option Text) where
  names-≡ :
      (b path : Text)
      → names euid cfg canonicalize (canonicalize b) path ≡ true
      → canonicalize b ≡ some path
  names-≡ b path h = go (canonicalize b) h
    where
      go : (found : Option Text) → names euid cfg canonicalize found path ≡ true → found ≡ some path
      go none h = absurd (ground arith)
      go (some p) h = ap some (same-≡ p path h)

  any_names-IsAmong :
      (bs : List Text) (path : Text)
      → any_names euid cfg canonicalize bs path ≡ true
      → IsAmong canonicalize bs path
  any_names-IsAmong [] path h = absurd (ground arith)
  any_names-IsAmong (b ∷ bs) path h = ground (arith, names-≡ b path, any_names-IsAmong bs path)

  permitted-IsAmong :
      (found : Option Text) (path : Text)
      → permitted euid cfg canonicalize found ≡ some path
      → (found ≡ some path) × IsAmong canonicalize (cfg.binary ∷ cfg.allowed_binaries) path
  permitted-IsAmong none path h = absurd (ground arith)
  permitted-IsAmong (some p) path h =
      elim (Bool-cases (any_names euid cfg canonicalize (cfg.binary ∷ cfg.allowed_binaries) p)) [
        | inl y ↦
            let e : p ≡ path = ground (arith, y) in
            (
              ap some e,
              any_names-IsAmong (cfg.binary ∷ cfg.allowed_binaries) path (
                  ap (any_names euid cfg canonicalize (cfg.binary ∷ cfg.allowed_binaries)) (sym e)
                  ∙ y),
            )
        | inr n ↦ absurd (ground (arith, n))
      ]

  -- For every configuration and every file system: if `resolve_requested_binary` allows a requested path, what it
  -- returns is the canonical path of that request, and also of the configured binary or of one of the
  -- allowed binaries.
  pub resolve_requested_binary-IsAmong :
      (r path : Text)
      → resolve_requested_binary euid cfg canonicalize r ≡ some path
      → (canonicalize r ≡ some path) × IsAmong canonicalize (cfg.binary ∷ cfg.allowed_binaries) path
  unfolding resolve_requested_binary
  resolve_requested_binary-IsAmong r path h = permitted-IsAmong (canonicalize r) path h

  -- What one command leaves: the binaries stay permitted, and a change comes from a handoff.
  abbrev Leaves : State → State → Type 0
  Leaves s s' = AllPermitted canonicalize cfg s.running → AllPermitted canonicalize cfg s'.running

  report-running :
      (out : Result HandoffOutcome × World) (s : State)
      → (report euid cfg canonicalize out s).1.running ≡ s.running
  report-running (ok o, w) s = refl
  report-running (err e, w) s = refl

  hand_off-Leaves :
      (c : Client) (binary : Text) (s : State)
      → IsPermitted canonicalize cfg binary
      → Leaves s (hand_off euid cfg canonicalize c binary s).1
  hand_off-Leaves c binary s p h =
      subst (AllPermitted canonicalize cfg)
        (sym (
          report-running
            (perform_handoff c.env (spec euid cfg canonicalize) (record s.world {
              from_incumbent = c.from_incumbent;
              from_successor = c.from_successor;
            }))
            (record s { running = binary ∷ s.running })))
        (p, h)

  requested-Leaves :
      (c : Client) (r : Text) (found : Option Text) (s : State)
      → resolve_requested_binary euid cfg canonicalize r ≡ found
      → Leaves s (requested euid cfg canonicalize c r found s).1
  requested-Leaves c r none s e h = h
  requested-Leaves c r (some b) s e h =
      hand_off-Leaves c b s (inr (resolve_requested_binary-IsAmong r b e).1) h

  run-Leaves :
      (c : Client) (ws : List Text) (s : State) → Leaves s (run euid cfg canonicalize c ws s).1
  run-Leaves c [] s h = hand_off-Leaves c cfg.binary s (inl refl) h
  run-Leaves c (r ∷ _) s h =
      requested-Leaves c r (resolve_requested_binary euid cfg canonicalize r) s refl h

  dispatch-Leaves :
      (c : Client) (ws : List Text) (s : State) → Leaves s (dispatch euid cfg canonicalize c ws s).1
  dispatch-Leaves c [] s h = h
  dispatch-Leaves c (w ∷ ws) s h = elim (Bool-cases (same w (text "handoff"))) [
    | inl e ↦ rw e (run-Leaves c ws s h)
    | inr e ↦ rw e h
  ]

  answered-Leaves :
      (c : Client) (read : Option Reply × Option Text) (s : State)
      → Leaves s (answered euid cfg canonicalize c read s).1
  unfolding handle_trigger
  answered-Leaves c (r, none) s h = h
  answered-Leaves c (r, some cmd) s h = dispatch-Leaves c (split_whitespace (trim cmd)) s h

  serve_client-Leaves :
      (c : Client) (s : State) → Leaves s (serve_client euid cfg canonicalize c s).1
  unfolding serve_client
  serve_client-Leaves c s h = answered-Leaves c (read_trigger_command euid cfg c) s h

  -- For every configuration, every file system, every sequence of clients, whatever they send, and
  -- every outcome of the handoffs: if the binaries that were handed to `perform_handoff` so far are permitted, so are
  -- those behind the clients: each is the configured binary, or the canonical path of it or of an
  -- allowed one.
  pub serve_clients-AllPermitted :
      (cs : List Client) (s : State)
      → AllPermitted canonicalize cfg s.running
      → AllPermitted canonicalize cfg (serve_clients euid cfg canonicalize cs s).1.running
  unfolding serve_clients
  serve_clients-AllPermitted [] s h = h
  serve_clients-AllPermitted (c ∷ cs) s h =
      serve_clients-AllPermitted cs (serve_client euid cfg canonicalize c s).1
        (serve_client-Leaves c s h)

  allowed-IsTrusted :
      (c : Client) (uid : ℕ)
      → c.peer_uid ≡ ok uid
      → peer_uid_is_allowed euid uid cfg.allowed_uids ≡ true
      → IsTrusted euid cfg c
  unfolding peer_uid_is_allowed
  allowed-IsTrusted c uid e h = (uid, e, ground (arith, h))

  -- For every client and state: either its peer runs as the supervisor's user, as root or under an allowed uid, or
  -- the state behind the connection is the state before it.
  pub serve_client-IsTrusted :
      (c : Client) (s : State)
      → IsTrusted euid cfg c ⊎ ((serve_client euid cfg canonicalize c s).1 ≡ s)
  unfolding serve_client read_trigger_command
  serve_client-IsTrusted c s = go c.peer_uid refl
    where
      go :
          (uid : Result ℕ)
          → c.peer_uid ≡ uid
          → IsTrusted euid cfg c ⊎ ((serve_client euid cfg canonicalize c s).1 ≡ s)
      go (err x) e = inr (ground (arith, e))
      go (ok uid) e = elim (Bool-cases (peer_uid_is_allowed euid uid cfg.allowed_uids)) [
        | inl y ↦ inl (allowed-IsTrusted c uid e y)
        | inr n ↦ inr (ground (arith, e, n))
      ]
