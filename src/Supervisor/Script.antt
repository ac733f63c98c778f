-- ===== src/Supervisor/Script.antt =====
-- crates/handoff/src/supervisor.rs: two processes that answer as they should, and the first and last exchanges with them.
use handoff.Prelude.{
  suc, ℕ, ◌+◌, ◌*◌, ◌<◌, ◌≡◌, refl, Bool, true, eqb-same, Option, none, some, List, ◌∷◌, String,
  arith,
}
use handoff.Error.{ok}
use handoff.Fallible.{Gives, and_then-Gives, ok-Gives}
use handoff.Protocol.{
  ProtoVersion, Message, Side, incumbent, successor, hello, hello_ack, drained, seal_complete,
  commit, ready, proto_min, proto_max, negotiate_version,
}
use handoff.Supervisor.World.{
  Env, World, Reading, stream, wire_slack, write_frame, arm_recv_timeout, disarm, journal_set,
  journal_clear,
}
use handoff.Supervisor.Wire.{
  exchange_hello_as_supervisor, answer_hello, poll_read, take_reading, check_pid,
}
use handoff.Supervisor.Handoff.{SpawnSpec, HandoffOutcome, commit_handoff, conclude, check_ready}
use handoff.Supervisor.Healthy.{
  IsHealthy, AllAlive, cost, opposite, Kept, telling, told_of, At, received-At, arm-Gives,
  write_frame-Gives,
}

-- The two processes' readings. Each may keep the supervisor waiting before a frame.
pub record Script : Type 0 where
  pub greeting : Reading
  pub while_draining : List Reading
  pub drained : Reading
  pub while_sealing : List Reading
  pub sealed : Reading
  pub rest : List Reading
  pub successor_greeting : Reading
  pub while_starting : List Reading
  pub ready : Reading
  pub successor_rest : List Reading

-- A `Hello` of the side, with a version in common.
abbrev pub IsHello : Side → (ℕ → Type 0) → Reading → Type 0
IsHello role allowed r =
    (v : ProtoVersion) × (p : ℕ) × (b : List ℕ) × (lo : ℕ) × (hi : ℕ) × (c : ℕ)
    × (chosen : ProtoVersion) × (r.polled ≡ ok (some (v, hello role p b lo hi c)))
    × (negotiate_version proto_min proto_max lo hi ≡ ok chosen)
    × allowed p

-- The time that the whole handoff takes, at most.
abbrev pub spent : ℕ → Script → ℕ
spent delay s =
    s.greeting.took
    + s.successor_greeting.took
    + cost delay s.while_draining
    + s.drained.took
    + cost delay s.while_sealing
    + s.sealed.took
    + cost delay s.while_starting
    + 8 * delay

-- Both processes answer as they should, in time.
pub record IsCooperative (env : Env) (pid delay : ℕ) (spec : SpawnSpec) (s : Script) : Type 0 where
  pub greets : IsHello incumbent (λ _. Unit) s.greeting
  pub drains : (v n : ℕ) × (closed : Bool) × (s.drained.polled ≡ ok (some (v, drained n closed)))
  pub seals :
      (v : ℕ) × (rev fp : List ℕ) × (s.sealed.polled
        ≡ ok (some (v, seal_complete env.handoff_id rev fp)))
  pub child_greets : IsHello successor (λ p. p ≡ pid) s.successor_greeting
  pub readies :
      (v : ℕ) × (on : List String) × (healthy : Bool) × (rev : List ℕ) × (s.ready.polled
        ≡ ok (some (v, ready env.handoff_id on healthy rev)))
  pub busy : AllAlive s.while_draining × AllAlive s.while_sealing × AllAlive s.while_starting
  pub drains_in_time : cost delay s.while_draining + delay < spec.drain_grace + wire_slack
  pub ends_in_time : spent delay s < spec.deadline + wire_slack

abbrev pub committed_with : Env → ℕ → HandoffOutcome
committed_with env pid = record {
  handoff_id = env.handoff_id;
  committed = true;
  abort_reason = none;
  child = some pid;
}

pub flip-At :
    (limit : ℕ) (peer : Side) (mine theirs : List Reading) (kept : Kept) (w : World)
    → At limit peer mine theirs kept w
    → At limit (opposite peer) theirs mine kept w
flip-At limit incumbent mine theirs kept w v = record {
  by = v.by;
  left = v.others;
  others = v.left;
  guard = v.guard;
  told = v.told;
}
flip-At limit successor mine theirs kept w v = record {
  by = v.by;
  left = v.others;
  others = v.left;
  guard = v.guard;
  told = v.told;
}

module _ (env : Env) (pid delay : ℕ) (healthy : IsHealthy env pid delay) where
  polled :
      (peer : Side) (r : Reading) (rest : List Reading) (w : World)
      → stream peer w ≡ r ∷ rest
      → poll_read peer w ≡ (r.polled, take_reading peer r rest w)
  unfolding poll_read
  polled peer r rest w e = rw (e, poll_read) refl

  poll_read-Gives :
      (limit : ℕ) (peer : Side) (theirs : List Reading) (kept : Kept) (r : Reading)
      (rest : List Reading) (v : ProtoVersion) (m : Message) (w : World)
      → r.polled ≡ ok (some (v, m))
      → At limit peer (r ∷ rest) theirs kept w
      → Gives
          (λ read w'. (read ≡ some (v, m)) × At (limit + r.took) peer rest theirs kept w')
          (poll_read peer w)
  unfolding poll_read
  poll_read-Gives limit peer theirs kept r rest v m w e a = rw (polled peer r rest w a.left) (
      ok-Gives _ (some (v, m)) (r.polled, take_reading peer r rest w) e
        (refl, received-At limit peer theirs kept r rest w a))

  answer_hello-Gives :
      (limit : ℕ) (peer : Side) (mine theirs : List Reading) (kept : Kept) (expected : Option ℕ)
      (v : ProtoVersion) (p : ℕ) (b : List ℕ) (lo hi c : ℕ) (chosen : ProtoVersion) (w : World)
      → negotiate_version proto_min proto_max lo hi ≡ ok chosen
      → check_pid env expected p ≡ ok tt
      → At limit peer mine theirs kept w
      → Gives
          (λ v' w'. At limit peer mine theirs (telling peer (hello_ack v' env.handoff_id) kept) w')
          (answer_hello env peer peer expected (some (v, hello peer p b lo hi c)) w)
  unfolding answer_hello
  answer_hello-Gives limit incumbent mine theirs kept expected v p b lo hi c chosen w n q a =
      rw (q, n)
        (and_then-Gives _ _ (write_frame env incumbent (hello_ack chosen env.handoff_id) w) _
          (write_frame-Gives env pid delay healthy incumbent theirs kept limit mine incumbent
            (hello_ack chosen env.handoff_id) w a)
          (λ _ _ k. k))
  answer_hello-Gives limit successor mine theirs kept expected v p b lo hi c chosen w n q a =
      rw (q, n)
        (and_then-Gives _ _ (write_frame env successor (hello_ack chosen env.handoff_id) w) _
          (write_frame-Gives env pid delay healthy successor theirs kept limit mine successor
            (hello_ack chosen env.handoff_id) w a)
          (λ _ _ k. k))

  pub exchange_hello-Gives :
      (limit : ℕ) (peer : Side) (theirs : List Reading) (kept : Kept) (expected : Option ℕ)
      (r : Reading) (rest : List Reading) (w : World)
      → IsHello peer (λ p. check_pid env expected p ≡ ok tt) r
      → At limit peer (r ∷ rest) theirs kept w
      → Gives
          (λ v' w'.
            At
              (limit + r.took)
              peer
              rest
              theirs
              (telling peer (hello_ack v' env.handoff_id) kept)
              w')
          (exchange_hello_as_supervisor env peer peer expected w)
  unfolding exchange_hello_as_supervisor
  exchange_hello-Gives limit peer theirs kept expected r rest w
        (v, p, b, lo, hi, c, chosen, e, n, q) a =
      and_then-Gives _ _ (arm_recv_timeout env w) _
        (arm-Gives env pid delay healthy peer theirs kept limit (r ∷ rest) w a)
        λ _ w₁ a₁.
          and_then-Gives _ _ (poll_read peer w₁) _
            (poll_read-Gives limit peer theirs kept r rest v (hello peer p b lo hi c) w₁ e a₁)
            λ read w₂ (f, a₂). rw f (
              answer_hello-Gives (limit + r.took) peer rest theirs kept expected v p b lo hi c
                chosen w₂ n q a₂)

  -- The outcome, and what the incumbent has been told in the end.
  abbrev pub Concludes : List Message → HandoffOutcome → World → Type 0
  Concludes told o w =
      (o ≡ committed_with env pid) × (told_of w.trace ≡ commit env.handoff_id ∷ told)

  -- The child is handed over, and the incumbent is told.
  commit_handoff-Gives :
      (started : ℕ) (told : List Message) (w : World)
      → w.guard ≡ some pid
      → told_of w.trace ≡ told
      → Gives (Concludes told) (commit_handoff env pid started w)
  unfolding commit_handoff disarm journal_clear write_frame journal_set
  commit_handoff-Gives started told w g t = ground (arith, g, t, healthy.sends (suc w.tick))

  pub conclude-Gives :
      (started : ℕ) (told : List Message) (m : Message) (w : World)
      → ((on : List String) × (h : Bool) × (rev : List ℕ) × (m ≡ ready env.handoff_id on h rev))
      → w.guard ≡ some pid
      → told_of w.trace ≡ told
      → Gives (Concludes told) (conclude env pid started (check_ready env (ok m)) w)
  unfolding conclude
  conclude-Gives started told m w (on, h, rev, e) g t =
      rw (e, eqb-same env.handoff_id) (commit_handoff-Gives started told w g t)
