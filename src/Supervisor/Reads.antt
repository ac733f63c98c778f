-- ===== src/Supervisor/Reads.antt =====
-- crates/handoff/src/supervisor.rs: the hello exchange and `read_until`, which leave the child alone.
use handoff.Prelude.{
  ℕ, ◌+◌, max, ◌≡◌, Bool, true, false, Option, none, some, List, [], ◌∷◌, String, leb,
  if◌then◌else◌, arith,
}
use handoff.Error.{Result, ok, err, Error, timeout}
use handoff.Fallible.{and_then, throw}
use handoff.Protocol.{HandoffId, ProtoVersion, Message, Side, hello}
use handoff.Supervisor.World.{
  Env, World, M, Reading, Event, got, stream, instant_now, write_frame, arm_recv_timeout,
  min_read_timeout,
}
use handoff.Supervisor.Wire.{
  receive, poll_read, answer_hello, exchange_hello_as_supervisor, sort_reading, read_loop,
  read_until,
}
use handoff.Supervisor.Trace.{Keeps, Keeps-refl}
use handoff.Supervisor.Keeping.{
  bind-Keeps, if-Keeps, instant_now-Keeps, arm_recv_timeout-Keeps, receive-Keeps,
}

module _ (env : Env) (id : HandoffId) where
  poll_read-Keeps : (peer : Side) (w : World) → Keeps id w (poll_read peer w).1
  unfolding poll_read
  poll_read-Keeps peer w = ground arith

  answer_hello-Keeps :
      (peer role : Side) (pid : Option ℕ) (read : Option (ProtoVersion × Message)) (w : World)
      → Keeps id w (answer_hello env peer role pid read w).1
  unfolding answer_hello write_frame
  answer_hello-Keeps peer role pid none w = Keeps-refl id w
  answer_hello-Keeps peer role pid (some (_, hello r p b lo hi c)) w = ground arith
  answer_hello-Keeps peer role pid (some (_, other)) w = Keeps-refl id w

  pub exchange_hello-Keeps :
      (peer role : Side) (pid : Option ℕ) (w : World)
      → Keeps id w (exchange_hello_as_supervisor env peer role pid w).1
  unfolding exchange_hello_as_supervisor
  exchange_hello-Keeps peer role pid =
      bind-Keeps env id (arm_recv_timeout env) _ (arm_recv_timeout-Keeps env id) (λ _.
        bind-Keeps env id (poll_read peer) (answer_hello env peer role pid) (poll_read-Keeps peer)
          (λ read. answer_hello-Keeps peer role pid read))

  sort_reading-Keeps :
      (go : M Message) (awaiting : String) (pred : Message → Bool) (r : Reading)
      → ((w : World) → Keeps id w (go w).1)
      → (w : World) → Keeps id w (sort_reading env go awaiting pred r w).1
  sort_reading-Keeps go awaiting pred r h w = ground (arith, h w, Keeps-refl id w)

  read_loop-Keeps :
      (peer : Side) (deadline : ℕ) (awaiting : String) (pred : Message → Bool) (rs : List Reading)
      (w : World)
      → Keeps id w (read_loop env peer deadline awaiting pred rs w).1
  unfolding read_loop
  read_loop-Keeps peer deadline awaiting pred [] =
      bind-Keeps env id (instant_now env) _ (instant_now-Keeps env id) (λ now.
        if-Keeps env id (leb deadline now) _ _ (Keeps-refl id) (
          bind-Keeps env id (arm_recv_timeout env) _ (arm_recv_timeout-Keeps env id)
            (λ _. Keeps-refl id)))
  read_loop-Keeps peer deadline awaiting pred (r ∷ rest) =
      bind-Keeps env id (instant_now env) _ (instant_now-Keeps env id) (λ now.
        if-Keeps env id (leb deadline now) _ _ (Keeps-refl id) (
          bind-Keeps env id (arm_recv_timeout env) _ (arm_recv_timeout-Keeps env id) (λ _.
            bind-Keeps env id (receive peer r rest) _ (receive-Keeps env id peer r rest) (λ _.
              sort_reading-Keeps (read_loop env peer deadline awaiting pred rest) awaiting pred r
                (read_loop-Keeps peer deadline awaiting pred rest)))))

  pub read_until-Keeps :
      (peer : Side) (limit : ℕ) (awaiting : String) (pred : Message → Bool) (w : World)
      → Keeps id w (read_until env peer limit awaiting pred w).1
  unfolding read_until
  read_until-Keeps peer limit awaiting pred =
      bind-Keeps env id (instant_now env) _ (instant_now-Keeps env id) (λ now w.
        read_loop-Keeps peer (now + max limit min_read_timeout) awaiting pred (stream peer w) w)

abbrev pub newest : List Event → Option Event
newest [] = none
newest (e ∷ _) = some e

-- A message that is returned is the newest event.
abbrev pub Reads : Side → Result Message × World → Type 0
Reads peer (ok m, w) = newest w.trace ≡ some (got peer m)
Reads peer (err e, w) = Unit

module _ (env : Env) where
  and_then-Reads {ℓ} :
      {A : Type ℓ} (peer : Side) (out : Result A × World) (f : A → M Message)
      → ((a : A) (w : World) → Reads peer (f a w))
      → Reads peer (and_then out f)
  and_then-Reads peer (ok a, w) f h = h a w
  and_then-Reads peer (err e, w) f h = tt

  if-Reads :
      (peer : Side) (b : Bool) (e : Error) (m : M Message)
      → ((w : World) → Reads peer (m w))
      → (w : World) → Reads peer ((if b then throw e else m) w)
  if-Reads peer true e m h w = tt
  if-Reads peer false e m h w = h w

  sort_reading-Reads :
      (peer : Side) (go : M Message) (awaiting : String) (pred : Message → Bool) (r : Reading)
      (rest : List Reading) (w : World)
      → ((w : World) → Reads peer (go w))
      → Reads peer (and_then (receive peer r rest w) (λ _. sort_reading env go awaiting pred r))
  unfolding receive
  sort_reading-Reads peer go awaiting pred r rest w h = ground (arith, h (receive peer r rest w).1)

  read_loop-Reads :
      (peer : Side) (deadline : ℕ) (awaiting : String) (pred : Message → Bool) (rs : List Reading)
      (w : World)
      → Reads peer (read_loop env peer deadline awaiting pred rs w)
  unfolding read_loop
  read_loop-Reads peer deadline awaiting pred [] w =
      and_then-Reads peer (instant_now env w) _ (λ now.
        if-Reads peer (leb deadline now) (timeout awaiting) _
          (λ w₁. and_then-Reads peer (arm_recv_timeout env w₁) _ (λ _ _. tt)))
  read_loop-Reads peer deadline awaiting pred (r ∷ rest) w =
      and_then-Reads peer (instant_now env w) _ (λ now.
        if-Reads peer (leb deadline now) (timeout awaiting) _ (λ w₁.
          and_then-Reads peer (arm_recv_timeout env w₁) _ (λ _ w₂.
            sort_reading-Reads peer (read_loop env peer deadline awaiting pred rest) awaiting pred r
              rest w₂ (read_loop-Reads peer deadline awaiting pred rest))))

  pub read_until-Reads :
      (peer : Side) (limit : ℕ) (awaiting : String) (pred : Message → Bool) (w : World)
      → Reads peer (read_until env peer limit awaiting pred w)
  unfolding read_until
  read_until-Reads peer limit awaiting pred w = and_then-Reads peer (instant_now env w) _ (λ now w₁.
      read_loop-Reads peer (now + max limit min_read_timeout) awaiting pred (stream peer w₁) w₁)
