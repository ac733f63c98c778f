-- ===== src/Trigger/Start.antt =====
-- crates/handoff-supervisor/src/main.rs: `main` behind the parse of the configuration. `Startup` is the part of the
-- configuration that the trigger loop does not need, with what the outside answers. A child that is dropped runs on, as
-- `std::process::Child` documents.
use handoff.Prelude.{
  ℕ, zero, suc, ◌≡◌, ◌≢◌, ◌⊎◌, refl, inl, inr, Option, none, some, List, [], ◌∷◌, arith,
}
use handoff.Error.{Result, ok, err, Error, IoError, io}
use handoff.Text.{Text}
use handoff.Fd.{Kernel}
use handoff.Fd.Spawn.{Var, spawn_primitive_cold_start}
use handoff.Process.{Process}
use handoff.Sock.{validate_socket_path}
use handoff.Sock.Bind.{System, Disk, socket_mode, staging_path, bind_socket}
use handoff.Sock.Publishes.{IsIntact, Publishes, bind_socket-Publishes}
use handoff.Supervisor.World.{Env, World}
use handoff.Supervisor.Resume.{resume_from_journal}
use handoff.Trigger.{Config, Client, State, Reply, serve_clients}
use handoff.Trigger.Permitted.{AllPermitted, serve_clients-AllPermitted}

pub record ListenerConfig : Type 0 where
  pub name : Text
  pub addr : Text

abbrev pub Listeners : Type 0
Listeners = List (Text × ℕ)

pub record Startup : Type 0 where
  pub control_socket : Text
  pub trigger_socket : Text
  pub listeners : List ListenerConfig
  pub bind : ℕ → Text → Result ℕ  -- `TcpListener::bind`, by the number of listeners bound before
  pub set_nonblocking : ℕ → Option IoError
  pub kernel : Kernel
  pub cfg_env : List (Var × Text)
  pub parent : Listeners → Process  -- this process, when it holds the listeners
  pub child_pid : ℕ
  pub env : Env
  pub journal_fault : Option IoError
  pub system : System

-- How `main` ends: early, with the children that are left running, or where the clients stop.
pub data End : Type 0 where
  stopped : Error → (children : List ℕ) → Disk → World → End
  served : Listeners → (trigger : ℕ) → (cold_child : ℕ) → Disk → List (Option Reply) → State → End

module _ (euid : ℕ) (cfg : Config) (canonicalize : Text → Option Text) (u : Startup) where
  abbrev pub blocking : Option IoError → ℕ → Result ℕ
  blocking (some e) fd = err (io e)
  blocking none fd = ok fd

  abbrev pub set_up : ℕ → Result ℕ → Result ℕ
  set_up n (err e) = err e
  set_up n (ok fd) = blocking (u.set_nonblocking n) fd

  abbrev pub push : Text → Result ℕ → Result Listeners → Result Listeners
  push name (err e) _ = err e
  push name (ok fd) (err e) = err e
  push name (ok fd) (ok fds) = ok ((name, fd) ∷ fds)

  abbrev pub bind_listeners : ℕ → List ListenerConfig → Result Listeners
  bind_listeners n [] = ok []
  bind_listeners n (lc ∷ lcs) =
      push lc.name (set_up n (u.bind n lc.addr)) (bind_listeners (suc n) lcs)

  abbrev pub trigger_loop : List Client → Listeners → ℕ → World → Result ℕ × Disk → End
  trigger_loop cs ls child w (err e, d) = stopped e (child ∷ []) d w
  trigger_loop cs ls child w (ok trigger, d) =
      let (replies, s) =
        serve_clients euid cfg canonicalize cs
          (record { current_child = child; running = cfg.binary ∷ []; world = w }) in
      served ls trigger child d replies s

  -- From the result of `Supervisor::new` on. The result of `resume_from_journal` is only logged.
  abbrev pub supervise : List Client → Listeners → ℕ → Disk → World → Result (Unit {0}) → End
  supervise cs ls child d w (err e) = stopped e (child ∷ []) d w
  supervise cs ls child d w (ok _) =
      trigger_loop cs ls child (resume_from_journal u.env u.journal_fault w).1
        (bind_socket u.system u.trigger_socket d)

  abbrev pub spawned : List Client → Listeners → Disk → World → Result Process → End
  spawned cs ls d w (err e) = stopped e [] d w
  spawned cs ls d w (ok _) =
      supervise cs ls u.child_pid d w (validate_socket_path u.system.sun_path u.control_socket)

  abbrev pub listening : List Client → Disk → World → Result Listeners → End
  listening cs d w (err e) = stopped e [] d w
  listening cs d w (ok ls) =
      spawned cs ls d w (spawn_primitive_cold_start u.kernel ls u.cfg_env (u.parent ls))

  unfoldable pub main : List Client → Disk → World → End
  main cs d w = listening cs d w (bind_listeners zero u.listeners)

  -- The listeners of the configuration, in its order.
  abbrev pub AllBound : ℕ → List ListenerConfig → Listeners → Type 0
  AllBound n [] [] = Unit
  AllBound n (lc ∷ lcs) ((name, fd) ∷ fds) =
      (name ≡ lc.name)
      × (u.bind n lc.addr ≡ ok fd)
      × (u.set_nonblocking n ≡ none)
      × AllBound (suc n) lcs fds
  AllBound n _ _ = ⊥

  -- The cold child starts with these listeners.
  abbrev pub IsSpawned : Listeners → Type 0
  IsSpawned ls =
      (child : Process) × (spawn_primitive_cold_start u.kernel ls u.cfg_env (u.parent ls)
        ≡ ok child)

  abbrev pub IsOrphan : List ℕ → Type 0
  IsOrphan children =
      (ls : Listeners) × AllBound zero u.listeners ls × IsSpawned ls × (children ≡ u.child_pid ∷ [])

  abbrev pub Starts : Disk → World → End → Type 0
  Starts d w (stopped e children d' w') =
      IsIntact u.trigger_socket (d.files u.trigger_socket) d.count d'.files
      × (((children ≡ []) × (d' ≡ d) × (w' ≡ w)) ⊎ IsOrphan children)
  Starts d w (served ls trigger child d' replies s) =
      AllBound zero u.listeners ls
      × IsSpawned ls
      × (child ≡ u.child_pid)
      × (validate_socket_path u.system.sun_path u.control_socket ≡ ok tt)
      × (d'.files u.trigger_socket ≡ some (record { listener = trigger; mode = socket_mode }))
      × AllPermitted canonicalize cfg s.running

  abbrev Binds : ℕ → List ListenerConfig → Result Listeners → Type 0
  Binds n lcs (err e) = Unit
  Binds n lcs (ok ls) = AllBound n lcs ls

  set_up-blocking :
      (n fd : ℕ) (r : Result ℕ) → set_up n r ≡ ok fd → (r ≡ ok fd) × (u.set_nonblocking n ≡ none)
  set_up-blocking n fd (err e) h = absurd (ground arith)
  set_up-blocking n fd (ok x) h = ground (arith, h)

  push-Binds :
      (n : ℕ) (lc : ListenerConfig) (lcs : List ListenerConfig) (r : Result ℕ)
      (rest : Result Listeners)
      → set_up n (u.bind n lc.addr) ≡ r
      → Binds (suc n) lcs rest
      → Binds n (lc ∷ lcs) (push lc.name r rest)
  push-Binds n lc lcs (err e) rest s h = tt
  push-Binds n lc lcs (ok fd) (err e) s h = tt
  push-Binds n lc lcs (ok fd) (ok fds) s h =
      let (bound, unblocked) = set_up-blocking n fd (u.bind n lc.addr) s in
      (refl, bound, unblocked, h)

  bind_listeners-Binds : (n : ℕ) (lcs : List ListenerConfig) → Binds n lcs (bind_listeners n lcs)
  bind_listeners-Binds n [] = tt
  bind_listeners-Binds n (lc ∷ lcs) =
      push-Binds n lc lcs (set_up n (u.bind n lc.addr)) (bind_listeners (suc n) lcs) refl
        (bind_listeners-Binds (suc n) lcs)

  module _ (cs : List Client) (d : Disk) (w : World)
      (apart : staging_path u.system u.trigger_socket d.seq ≢ u.trigger_socket)
      (fresh : d.seen ≡ []) where
    trigger_loop-Starts :
        (ls : Listeners) (w' : World) (out : Result ℕ × Disk)
        → AllBound zero u.listeners ls
        → IsSpawned ls
        → validate_socket_path u.system.sun_path u.control_socket ≡ ok tt
        → Publishes (staging_path u.system u.trigger_socket d.seq) u.trigger_socket d out
        → Starts d w (trigger_loop cs ls u.child_pid w' out)
    trigger_loop-Starts ls w' (err e, d') b s v p = (p.0, inr (ls, b, s, refl))
    trigger_loop-Starts ls w' (ok trigger, d') b s v p = (
      b,
      s,
      refl,
      v,
      p.1,
      serve_clients-AllPermitted euid cfg canonicalize cs
          (record { current_child = u.child_pid; running = cfg.binary ∷ []; world = w' })
          (inl refl, tt),
    )

    supervise-Starts :
        (ls : Listeners) (r : Result (Unit {0}))
        → AllBound zero u.listeners ls
        → IsSpawned ls
        → validate_socket_path u.system.sun_path u.control_socket ≡ r
        → Starts d w (supervise cs ls u.child_pid d w r)
    supervise-Starts ls (err e) b s v = (inl refl, inr (ls, b, s, refl))
    supervise-Starts ls (ok _) b s v =
        trigger_loop-Starts ls (resume_from_journal u.env u.journal_fault w).1
          (bind_socket u.system u.trigger_socket d) b s v
          (bind_socket-Publishes u.system u.trigger_socket d apart fresh)

    spawned-Starts :
        (ls : Listeners) (r : Result Process)
        → AllBound zero u.listeners ls
        → spawn_primitive_cold_start u.kernel ls u.cfg_env (u.parent ls) ≡ r
        → Starts d w (spawned cs ls d w r)
    spawned-Starts ls (err e) b s = (inl refl, inl (refl, refl, refl))
    spawned-Starts ls (ok child) b s =
        supervise-Starts ls (validate_socket_path u.system.sun_path u.control_socket) b (child, s)
          refl

    listening-Starts :
        (r : Result Listeners) → Binds zero u.listeners r → Starts d w (listening cs d w r)
    listening-Starts (err e) b = (inl refl, inl (refl, refl, refl))
    listening-Starts (ok ls) b =
        spawned-Starts ls (spawn_primitive_cold_start u.kernel ls u.cfg_env (u.parent ls)) b refl

    -- For every configuration, every answer of the outside and every sequence of clients, where the staging path of the
    -- trigger socket is not the trigger path: if `main` comes to its trigger loop, it holds each listener of
    -- the configuration, in its order and in blocking mode, has passed these to the one child that it has
    -- spawned, has found the control path valid and has published the trigger socket with mode 0600, and has had run
    -- nothing but permitted binaries by the time the clients end. If it stops before, the trigger
    -- path holds what it held or a socket with mode 0600, and either nothing was changed and no child spawned, or
    -- the cold child is left running.
    pub main-Starts : Starts d w (main cs d w)
    unfolding main
    main-Starts =
        listening-Starts (bind_listeners zero u.listeners) (bind_listeners-Binds zero u.listeners)
