-- ===== src/Supervisor/Silence.antt =====
-- crates/handoff/src/supervisor.rs: the reads from the two processes ask for no seal.
use handoff.Prelude.{ℕ, ◌+◌, max, Bool, Option, none, some, List, [], ◌∷◌, String, leb, arith}
use handoff.Fallible.{catch}
use handoff.Protocol.{ProtoVersion, Message, Side, incumbent, hello}
use handoff.Supervisor.World.{
  Env, M, Reading, stream, min_read_timeout, instant_now, write_frame, arm_recv_timeout,
  kill_and_reap, send_best_effort_abort, journal_clear,
}
use handoff.Supervisor.Wire.{
  SealOutcome, receive, poll_read, answer_hello, exchange_hello_as_supervisor, sort_reading,
  read_loop, read_until, give_up, sort_seal, seal_loop,
}
use handoff.Supervisor.Asks.{
  IsSilent, bind-IsSilent, if-IsSilent, same-IsSilent, now-IsSilent, arm-IsSilent,
  journal_clear-IsSilent, kill-IsSilent, receive-IsSilent, poll_read-IsSilent, abort-IsSilent,
}

module _ (env : Env) where
  pub catch-IsSilent {ℓ} : {A : Type ℓ} (m : M A) → IsSilent m → IsSilent (catch m)
  catch-IsSilent m h = record { silent = λ w. h.silent w }

  answer_hello-IsSilent :
      (peer role : Side) (pid : Option ℕ) (read : Option (ProtoVersion × Message))
      → IsSilent (answer_hello env peer role pid read)
  unfolding answer_hello write_frame
  answer_hello-IsSilent peer role pid none = same-IsSilent _
  answer_hello-IsSilent peer role pid (some (_, hello r p b lo hi c)) = record {
    silent = λ w. ground arith;
  }
  answer_hello-IsSilent peer role pid (some (_, other)) = same-IsSilent _

  pub exchange_hello-IsSilent :
      (peer role : Side) (pid : Option ℕ)
      → IsSilent (exchange_hello_as_supervisor env peer role pid)
  unfolding exchange_hello_as_supervisor
  exchange_hello-IsSilent peer role pid =
      bind-IsSilent (arm_recv_timeout env) _ (arm-IsSilent env) (λ _.
        bind-IsSilent (poll_read peer) (answer_hello env peer role pid)
          (poll_read-IsSilent env peer) (answer_hello-IsSilent peer role pid))

  sort_reading-IsSilent :
      (go : M Message) (awaiting : String) (pred : Message → Bool) (r : Reading)
      → IsSilent go
      → IsSilent (sort_reading env go awaiting pred r)
  sort_reading-IsSilent go awaiting pred r h = record { silent = λ w. ground (arith, h.silent w) }

  read_loop-IsSilent :
      (peer : Side) (deadline : ℕ) (awaiting : String) (pred : Message → Bool) (rs : List Reading)
      → IsSilent (read_loop env peer deadline awaiting pred rs)
  unfolding read_loop
  read_loop-IsSilent peer deadline awaiting pred [] =
      bind-IsSilent (instant_now env) _ (now-IsSilent env) (λ now.
        if-IsSilent (leb deadline now) _ _ (same-IsSilent _)
          (bind-IsSilent (arm_recv_timeout env) _ (arm-IsSilent env) (λ _. same-IsSilent _)))
  read_loop-IsSilent peer deadline awaiting pred (r ∷ rest) =
      bind-IsSilent (instant_now env) _ (now-IsSilent env) (λ now.
        if-IsSilent (leb deadline now) _ _ (same-IsSilent _) (
          bind-IsSilent (arm_recv_timeout env) _ (arm-IsSilent env) (λ _.
            bind-IsSilent (receive peer r rest) _ (receive-IsSilent env peer r rest) (λ _.
              sort_reading-IsSilent (read_loop env peer deadline awaiting pred rest) awaiting pred r
                (read_loop-IsSilent peer deadline awaiting pred rest)))))

  pub read_until-IsSilent :
      (peer : Side) (limit : ℕ) (awaiting : String) (pred : Message → Bool)
      → IsSilent (read_until env peer limit awaiting pred)
  unfolding read_until
  read_until-IsSilent peer limit awaiting pred =
      bind-IsSilent (instant_now env) _ (now-IsSilent env) (λ now. record {
        silent = λ w.
            (read_loop-IsSilent peer (now + max limit min_read_timeout) awaiting pred
                (stream peer w)).silent
              w;
      })

  give_up-IsSilent : (reason : String) → IsSilent (give_up env reason)
  unfolding give_up
  give_up-IsSilent reason =
      bind-IsSilent (send_best_effort_abort env reason) _ (abort-IsSilent env reason) (λ _.
        bind-IsSilent (kill_and_reap env) _ (kill-IsSilent env) (λ _.
          bind-IsSilent (journal_clear env) _ (journal_clear-IsSilent env) (λ _. same-IsSilent _)))

  sort_seal-IsSilent :
      (go : M SealOutcome) (r : Reading) → IsSilent go → IsSilent (sort_seal env go r)
  sort_seal-IsSilent go r h = record {
    silent = λ w.
        ground
          (arith, h.silent w, (give_up-IsSilent "incumbent unresponsive during seal").silent w);
  }

  pub seal_loop-IsSilent : (deadline : ℕ) (rs : List Reading) → IsSilent (seal_loop env deadline rs)
  unfolding seal_loop
  seal_loop-IsSilent deadline [] = bind-IsSilent (instant_now env) _ (now-IsSilent env) (λ now.
      if-IsSilent (leb deadline now) _ _ (give_up-IsSilent "seal phase timed out")
        (bind-IsSilent (arm_recv_timeout env) _ (arm-IsSilent env) (λ _. same-IsSilent _)))
  seal_loop-IsSilent deadline (r ∷ rest) =
      bind-IsSilent (instant_now env) _ (now-IsSilent env) (λ now.
        if-IsSilent (leb deadline now) _ _ (give_up-IsSilent "seal phase timed out") (
          bind-IsSilent (arm_recv_timeout env) _ (arm-IsSilent env) (λ _.
            bind-IsSilent (receive incumbent r rest) _ (receive-IsSilent env incumbent r rest) (λ _.
              sort_seal-IsSilent (seal_loop env deadline rest) r
                (seal_loop-IsSilent deadline rest)))))
