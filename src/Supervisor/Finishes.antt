-- ===== src/Supervisor/Finishes.antt =====
-- crates/handoff/src/supervisor.rs: how a handoff ends once the successor runs.
use handoff.Prelude.{
  ℕ, ◌+◌, ◌≡◌, ◌⊎◌, Bool, Bool-cases, true, false, inl, inr, none, some, List, [], ◌∷◌, String,
  arith, ◌==◌,
}
use handoff.Error.{Result, ok, err, protocol}
use handoff.Fallible.{and_then}
use handoff.Protocol.{
  HandoffId, Message, incumbent, successor, begin, ready, prepare_handoff, seal_request,
}
use handoff.State.{negotiating, draining, sealing, awaiting_ready}
use handoff.Supervisor.World.{
  Env, World, M, Event, got, wire_slack, instant_now, configure_control_stream, write_frame,
  remaining_until, kill_and_reap, disarm, send_best_effort_abort, journal_set, journal_clear,
}
use handoff.Supervisor.Wire.{
  SealOutcome, sealed, failed, exchange_hello_as_supervisor, read_until, seal_loop,
}
use handoff.Supervisor.Handoff.{
  SpawnSpec, HandoffOutcome, is_drained, is_ready, check_ready, abort_reason_of, commit_handoff,
  abort_handoff, conclude, await_ready, begin_phase, after_seal, seal_phase, drain_phase,
  with_successor,
}
use handoff.Supervisor.Trace.{
  Holding, Tended, has_sealed, is_ready_since, Keeps, Keeps-Holding, IsOrdered, fate, released,
}
use handoff.Supervisor.Keeping.{
  bind-Keeps, write_frame-Keeps, journal_set-Keeps, remaining_until-Keeps, instant_now-Keeps,
  configure-Keeps,
}
use handoff.Supervisor.Reads.{
  newest, Reads, read_until-Keeps, read_until-Reads, exchange_hello-Keeps,
}
use handoff.Supervisor.Sealing.{Reaped, SealEnds, and_then-Holding, seal_loop-SealEnds}

-- The successor is the caller's.
pub record HandedOver (env : Env) (pid : ℕ) (o : HandoffOutcome) (w : World) : Type 0 where
  pub is_committed : o.committed ≡ true
  pub passed : o.child ≡ some pid
  pub unowned : w.guard ≡ none
  pub lives : fate w.trace ≡ released pid
  pub ordered : IsOrdered env.handoff_id w.trace

abbrev pub Finishes : Env → ℕ → Result HandoffOutcome × World → Type 0
Finishes env pid (ok o, w) =
    HandedOver env pid o w ⊎ ((o.committed ≡ false) × (o.child ≡ none) × Reaped env pid w)
Finishes env pid (err e, w) = Tended env.handoff_id pid w

module _ (env : Env) (pid started : ℕ) where
  commit_handoff-Finishes :
      (w : World)
      → Holding env.handoff_id pid w
      → has_sealed env.handoff_id w.trace ≡ true
      → is_ready_since env.handoff_id w.trace ≡ true
      → Finishes env pid (commit_handoff env pid started w)
  unfolding commit_handoff disarm write_frame journal_set journal_clear
  commit_handoff-Finishes w h s r = ground arith

  abort_handoff-Finishes :
      (reason : String) (w : World)
      → Holding env.handoff_id pid w
      → Finishes env pid (abort_handoff env pid started reason w)
  unfolding abort_handoff send_best_effort_abort kill_and_reap write_frame journal_set journal_clear
  abort_handoff-Finishes reason w h = ground arith

  newest_ready :
      (i : HandoffId) (on : List String) (hz : Bool) (rev : List ℕ) (t : List Event)
      → newest t ≡ some (got successor (ready i on hz rev))
      → (i == env.handoff_id) ≡ true
      → is_ready_since env.handoff_id t ≡ true
  newest_ready i on hz rev [] e same = absurd (ground arith)
  newest_ready i on hz rev (_ ∷ t) e same = ground arith

  conclude-Finishes :
      (answer : Result Message) (w : World)
      → Holding env.handoff_id pid w
      → has_sealed env.handoff_id w.trace ≡ true
      → Reads successor (answer, w)
      → Finishes env pid (conclude env pid started (check_ready env answer) w)
  unfolding conclude
  conclude-Finishes (ok (ready i on hz rev)) w h s r = elim (Bool-cases (i == env.handoff_id)) [
    | inl same ↦ rw same (commit_handoff-Finishes w h s (newest_ready i on hz rev w.trace r same))
    | inr other ↦ rw other (
        abort_handoff-Finishes
          (abort_reason_of env (err (protocol (env.wrong_id i env.handoff_id)))) w h)
  ]
  conclude-Finishes (ok m) w h s r = abort_handoff-Finishes (abort_reason_of env (ok m)) w h
  conclude-Finishes (err e) w h s r = abort_handoff-Finishes (abort_reason_of env (err e)) w h

  -- A call that leaves the child alone, behind the seal.
  and_then-Sealed {ℓ} :
      {A : Type ℓ} (w : World) (out : Result A × World) (f : A → M HandoffOutcome)
      → Holding env.handoff_id pid w
      → has_sealed env.handoff_id w.trace ≡ true
      → Keeps env.handoff_id w out.1
      → ((a : A) (w' : World)
          → Holding env.handoff_id pid w'
          → has_sealed env.handoff_id w'.trace ≡ true
          → Finishes env pid (f a w'))
      → Finishes env pid (and_then out f)
  and_then-Sealed w (ok a, w') f h s k next = next a w' (Keeps-Holding k h) (k.sealed_still s)
  and_then-Sealed w (err e, w') f h s k next = inl (Keeps-Holding k h)

  -- The same, in a chain whose result `g` takes.
  chain-Sealed {ℓ} :
      {A : Type ℓ} (w : World) (out : Result A × World) (f : A → M (Result Message))
      (g : Result Message → M HandoffOutcome)
      → Holding env.handoff_id pid w
      → has_sealed env.handoff_id w.trace ≡ true
      → Keeps env.handoff_id w out.1
      → ((a : A) (w' : World)
          → Holding env.handoff_id pid w'
          → has_sealed env.handoff_id w'.trace ≡ true
          → Finishes env pid (and_then (f a w') g))
      → Finishes env pid (and_then (and_then out f) g)
  chain-Sealed w (ok a, w') f g h s k next = next a w' (Keeps-Holding k h) (k.sealed_still s)
  chain-Sealed w (err e, w') f g h s k next = inl (Keeps-Holding k h)

  begin-Keeps :
      (w : World)
      → has_sealed env.handoff_id w.trace ≡ true
      → Keeps env.handoff_id w (write_frame env successor (begin env.handoff_id) w).1
  unfolding write_frame
  begin-Keeps w s = ground arith

  -- What `read_until` returned.
  answered-Finishes :
      (w : World) (out : Result Message × World)
      → Holding env.handoff_id pid w
      → has_sealed env.handoff_id w.trace ≡ true
      → Keeps env.handoff_id w out.1
      → Reads successor out
      → Finishes env pid (conclude env pid started (check_ready env out.0) out.1)
  answered-Finishes w (a, w') h s k r =
      conclude-Finishes a w' (Keeps-Holding k h) (k.sealed_still s) r

  await_ready-Finishes :
      (total : ℕ) (written : Result (Unit {0})) (w : World)
      → Holding env.handoff_id pid w
      → has_sealed env.handoff_id w.trace ≡ true
      → Finishes env pid (
          and_then
            (await_ready env pid started total written w)
            (λ a. conclude env pid started (check_ready env a)))
  unfolding await_ready
  await_ready-Finishes total (err e) w h s = conclude-Finishes (err e) w h s tt
  await_ready-Finishes total (ok _) w h s =
      chain-Sealed w (journal_set env awaiting_ready pid started w) _ _ h s
        (journal_set-Keeps env env.handoff_id awaiting_ready pid started w)
        λ _ w₁ h₁ s₁.
          chain-Sealed w₁ (remaining_until env total w₁) _ _ h₁ s₁
            (remaining_until-Keeps env env.handoff_id total w₁)
            λ left w₂ h₂ s₂.
              answered-Finishes w₂
                (read_until env successor (left + wire_slack) "Ready" is_ready w₂) h₂ s₂
                (read_until-Keeps env env.handoff_id successor (left + wire_slack) "Ready" is_ready
                  w₂)
                (read_until-Reads env successor (left + wire_slack) "Ready" is_ready w₂)

  begin_phase-Finishes :
      (total : ℕ) (w : World)
      → Holding env.handoff_id pid w
      → has_sealed env.handoff_id w.trace ≡ true
      → Finishes env pid (begin_phase env pid started total w)
  unfolding begin_phase
  begin_phase-Finishes total w h s =
      let k = begin-Keeps w s in
      await_ready-Finishes total (write_frame env successor (begin env.handoff_id) w).0
        (write_frame env successor (begin env.handoff_id) w).1 (Keeps-Holding k h)
        (k.sealed_still s)

  after_seal-Finishes :
      (total : ℕ) (out : Result SealOutcome × World)
      → SealEnds env pid out
      → Finishes env pid (and_then out (after_seal env pid started total))
  unfolding after_seal send_best_effort_abort kill_and_reap write_frame journal_clear
  after_seal-Finishes total (ok sealed, w) (h, s) =
      and_then-Sealed w (journal_set env sealing pid started w) _ h s
        (journal_set-Keeps env env.handoff_id sealing pid started w)
        (λ _. begin_phase-Finishes total)
  after_seal-Finishes total (ok (failed error), w) h = ground arith
  after_seal-Finishes total (err e, w) v = v

  seal_phase-Finishes :
      (total : ℕ) (w : World)
      → Holding env.handoff_id pid w
      → Finishes env pid (seal_phase env pid started total w)
  unfolding seal_phase
  seal_phase-Finishes total w h =
      and_then-Holding env pid (Finishes env pid) w
        (write_frame env incumbent (seal_request env.handoff_id) w) _ (λ _ _. inl) h
        (write_frame-Keeps env env.handoff_id incumbent (seal_request env.handoff_id) tt w)
        λ _ w₁ h₁.
          after_seal-Finishes total (seal_loop env (total + wire_slack) w₁.from_incumbent w₁)
            (seal_loop-SealEnds env pid (total + wire_slack) w₁.from_incumbent w₁ h₁)

  drain_phase-Keeps :
      (spec : SpawnSpec) (total : ℕ) (w : World)
      → Keeps env.handoff_id w (drain_phase env pid started spec total w).1
  unfolding drain_phase
  drain_phase-Keeps spec total =
      bind-Keeps env env.handoff_id (instant_now env) _ (instant_now-Keeps env env.handoff_id) (λ _.
        bind-Keeps env env.handoff_id (remaining_until env total) _
          (remaining_until-Keeps env env.handoff_id total)
          λ left.
            bind-Keeps env env.handoff_id
              (write_frame env incumbent (prepare_handoff env.handoff_id pid left spec.drain_grace))
              _
              (write_frame-Keeps env env.handoff_id incumbent
                (prepare_handoff env.handoff_id pid left spec.drain_grace) tt)
              λ _.
                bind-Keeps env env.handoff_id
                  (read_until env incumbent (spec.drain_grace + wire_slack) "Drained" is_drained) _
                  (read_until-Keeps env env.handoff_id incumbent (spec.drain_grace + wire_slack)
                    "Drained" is_drained)
                  (λ _. journal_set-Keeps env env.handoff_id draining pid started))

  and_then-Finishes {ℓ} :
      {A : Type ℓ} (w : World) (out : Result A × World) (f : A → M HandoffOutcome)
      → Holding env.handoff_id pid w
      → Keeps env.handoff_id w out.1
      → ((a : A) (w' : World) → Holding env.handoff_id pid w' → Finishes env pid (f a w'))
      → Finishes env pid (and_then out f)
  and_then-Finishes w out f h k next =
      and_then-Holding env pid (Finishes env pid) w out f (λ _ _. inl) h k next

  pub with_successor-Finishes :
      (spec : SpawnSpec) (total : ℕ) (w : World)
      → Holding env.handoff_id pid w
      → Finishes env pid (with_successor env pid started spec total w)
  unfolding with_successor
  with_successor-Finishes spec total w h =
      and_then-Finishes w (configure_control_stream env w) _ h
        (configure-Keeps env env.handoff_id w)
        λ _ w₁ h₁.
          and_then-Finishes w₁ (exchange_hello_as_supervisor env successor successor (some pid) w₁)
            _ h₁ (exchange_hello-Keeps env env.handoff_id successor successor (some pid) w₁)
            λ _ w₂ h₂.
              and_then-Finishes w₂ (journal_set env negotiating pid started w₂) _ h₂
                (journal_set-Keeps env env.handoff_id negotiating pid started w₂)
                λ _ w₃ h₃.
                  and_then-Finishes w₃ (drain_phase env pid started spec total w₃) _ h₃
                    (drain_phase-Keeps spec total w₃) λ _. seal_phase-Finishes total
