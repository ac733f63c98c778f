-- ===== src/Supervisor/Greeted.antt =====
-- crates/handoff/src/supervisor.rs: a handoff between healthy processes from the spawn of the successor on.
use handoff.Prelude.{ℕ, ◌+◌, ◌*◌, ◌≡◌, refl, none, some, List, ◌∷◌, ◌++◌, eqb-same, arith}
use handoff.Error.{ok}
use handoff.Fallible.{map-Gives, Gives, and_then-Gives, ok-Gives, ◌>>=◌}
use handoff.Protocol.{Message, incumbent, successor, prepare_handoff, seal_request, commit}
use handoff.State.{negotiating}
use handoff.Supervisor.World.{Env, World, Reading, configure_control_stream, ticked, journal_set}
use handoff.Supervisor.Wire.{check_pid, exchange_hello_as_supervisor}
use handoff.Supervisor.Handoff.{SpawnSpec, HandoffOutcome, seal_phase, drain_phase, with_successor}
use handoff.Supervisor.Healthy.{IsHealthy, cost, Kept, told_of, At, moved-At, journal_set-Gives}
use handoff.Supervisor.Phases.{seal_phase-Commits, drain_phase-Gives}
use handoff.Supervisor.Script.{
  Script, IsHello, IsCooperative, committed_with, flip-At, exchange_hello-Gives,
}

-- What is left of each stream behind the greeting.
abbrev pub incumbent_left : Script → List Reading
incumbent_left s = s.while_draining ++ (s.drained ∷ (s.while_sealing ++ (s.sealed ∷ s.rest)))

abbrev pub successor_left : Script → List Reading
successor_left s = s.while_starting ++ (s.ready ∷ s.successor_rest)

abbrev pub tending : ℕ → List Message → Kept
tending pid told = record { owned = some pid; told = told }

abbrev pub alone : List Message → Kept
alone told = record { owned = none; told = told }

-- The handoff has committed, and the incumbent has been told these three frames behind what it had been told.
abbrev pub Ends : Env → ℕ → SpawnSpec → List Message → HandoffOutcome → World → Type 0
Ends env pid spec told o w =
    (o ≡ committed_with env pid)
    × ((left : ℕ) × (told_of w.trace
          ≡ commit env.handoff_id
            ∷ seal_request env.handoff_id
            ∷ prepare_handoff env.handoff_id pid left spec.drain_grace
            ∷ told))

module _ (env : Env) (pid delay : ℕ) (healthy : IsHealthy env pid delay) where
  pub configure-Gives :
      (limit : ℕ) (mine theirs : List Reading) (kept : Kept) (w : World)
      → At limit incumbent mine theirs kept w
      → Gives (λ _. At limit incumbent mine theirs kept) (configure_control_stream env w)
  unfolding configure_control_stream
  configure-Gives limit mine theirs kept w v =
      ok-Gives _ tt (env.configure w.tick, ticked w) (healthy.configures w.tick)
        (moved-At limit limit incumbent mine theirs kept w _ v.by refl refl refl refl v)

module _ (env : Env) (pid delay : ℕ) (healthy : IsHealthy env pid delay) (spec : SpawnSpec)
    (s : Script) (coop : IsCooperative env pid delay spec s) where
  expected_child : IsHello successor (λ p. check_pid env (some pid) p ≡ ok tt) s.successor_greeting
  expected_child =
      let (v, p, b, lo, hi, c, chosen, e, n, q) = coop.child_greets in
      (v, p, b, lo, hi, c, chosen, e, n, simp (q, eqb-same pid) refl)

  greeted-Commits :
      (started start : ℕ) (told : List Message) (w : World)
      → At
          (start + s.greeting.took + s.successor_greeting.took)
          incumbent
          (incumbent_left s)
          (successor_left s)
          (tending pid told)
          w
      → Gives (Ends env pid spec told) (
          (journal_set env negotiating pid started >>= λ _.
          drain_phase env pid started spec (start + spec.deadline) >>= λ _.
          seal_phase env pid started (start + spec.deadline))
            w)
  greeted-Commits started start told w at =
      let (v, n, closed, drains) = coop.drains in
      let (v', rev, fp, seals) = coop.seals in
      let (u, on, h, advertised, readies) = coop.readies in
      and_then-Gives _ _ (journal_set env negotiating pid started w) _
        (journal_set-Gives env pid delay healthy incumbent (successor_left s) (tending pid told)
          (start + s.greeting.took + s.successor_greeting.took) (incumbent_left s) negotiating pid
          started w at)
        λ _ w₁ a₁.
          and_then-Gives _ _ (drain_phase env pid started spec (start + spec.deadline) w₁) _
            (drain_phase-Gives env pid delay healthy started (start + spec.deadline) spec
              (s.while_sealing ++ (s.sealed ∷ s.rest)) (successor_left s) s.while_draining s.drained
              v n closed (start + s.greeting.took + s.successor_greeting.took) told w₁ drains
              coop.busy.0 a₁ coop.drains_in_time)
            λ _ w₂ (left, a₂).
              map-Gives _ _ (seal_phase env pid started (start + spec.deadline) w₂)
                (seal_phase-Commits env pid delay healthy started (start + spec.deadline) s.rest
                  s.successor_rest s.while_starting s.while_sealing s.sealed s.ready v' u rev fp on
                  h advertised
                  (start
                    + s.greeting.took
                    + s.successor_greeting.took
                    + cost delay s.while_draining
                    + s.drained.took
                    + 4 * delay)
                  (prepare_handoff env.handoff_id pid left spec.drain_grace ∷ told) w₂ seals readies
                  coop.busy.1 coop.busy.2 a₂ (omega (arith, coop.ends_in_time)))
                (λ o w₃ (e, t). (e, (left, t)))

  -- From the `Hello` of the successor on.
  pub with_successor-Commits :
      (started start : ℕ) (told : List Message) (w : World)
      → At
          (start + s.greeting.took)
          incumbent
          (incumbent_left s)
          (s.successor_greeting ∷ (successor_left s))
          (tending pid told)
          w
      → Gives
          (Ends env pid spec told)
          (with_successor env pid started spec (start + spec.deadline) w)
  unfolding with_successor
  with_successor-Commits started start told w at =
      and_then-Gives _ _ (configure_control_stream env w) _
        (configure-Gives env pid delay healthy (start + s.greeting.took) (incumbent_left s)
          (s.successor_greeting ∷ (successor_left s)) (tending pid told) w at)
        λ _ w₁ a₁.
          and_then-Gives _ _ (exchange_hello_as_supervisor env successor successor (some pid) w₁) _
            (exchange_hello-Gives env pid delay healthy (start + s.greeting.took) successor
              (incumbent_left s) (tending pid told) (some pid) s.successor_greeting
              (successor_left s) w₁ expected_child
              (flip-At (start + s.greeting.took) incumbent (incumbent_left s)
                (s.successor_greeting ∷ (successor_left s)) (tending pid told) w₁ a₁))
            λ _ w₂ a₂. greeted-Commits started start told w₂ (
              flip-At (start + s.greeting.took + s.successor_greeting.took) successor
                (successor_left s) (incumbent_left s) (tending pid told) w₂ a₂)
