-- ===== src/Supervisor/Sealing.antt =====
-- crates/handoff/src/supervisor.rs: how the wait for the seal ends.
use handoff.Prelude.{
  ℕ, ◌≡◌, Bool-cases, true, inl, inr, none, List, [], ◌∷◌, String, leb, if◌then◌else◌, arith,
}
use handoff.Error.{Result, ok, err, Error}
use handoff.Fallible.{and_then, ◌>>=◌, ◌>>◌}
use handoff.Protocol.{incumbent}
use handoff.Supervisor.World.{
  Env, World, M, Reading, instant_now, arm_recv_timeout, send_best_effort_abort, write_frame,
  kill_and_reap, journal_clear,
}
use handoff.Supervisor.Wire.{SealOutcome, sealed, failed, receive, sort_seal, seal_loop, give_up}
use handoff.Supervisor.Trace.{
  Holding, Tended, has_sealed, Keeps, Keeps-Holding, IsOrdered, fate, reaped,
}
use handoff.Supervisor.Keeping.{instant_now-Keeps, arm_recv_timeout-Keeps, receive-Keeps}

-- The child has been reaped.
pub record Reaped (env : Env) (pid : ℕ) (w : World) : Type 0 where
  pub unowned : w.guard ≡ none
  pub dead : fate w.trace ≡ reaped pid
  pub ordered : IsOrdered env.handoff_id w.trace

-- How the wait ends: with `SealComplete` received; with a seal that failed; or with an error.
abbrev pub SealEnds : Env → ℕ → Result SealOutcome × World → Type 0
SealEnds env pid (ok sealed, w) =
    Holding env.handoff_id pid w × (has_sealed env.handoff_id w.trace ≡ true)
SealEnds env pid (ok (failed _), w) = Holding env.handoff_id pid w
SealEnds env pid (err e, w) = Tended env.handoff_id pid w

module _ (env : Env) (pid : ℕ) where
  -- A call that leaves the child alone, then the rest.
  pub and_then-Holding {ℓ κ} :
      {A : Type ℓ} {B : Type κ} (Ends : Result B × World → Type 0) (w : World)
      (out : Result A × World) (f : A → M B)
      → ((e : Error) (w' : World) → Holding env.handoff_id pid w' → Ends (err e, w'))
      → Holding env.handoff_id pid w
      → Keeps env.handoff_id w out.1
      → ((a : A) (w' : World) → Holding env.handoff_id pid w' → Ends (f a w'))
      → Ends (and_then out f)
  and_then-Holding Ends w (ok a, w') f fails h k next = next a w' (Keeps-Holding k h)
  and_then-Holding Ends w (err e, w') f fails h k next = fails e w' (Keeps-Holding k h)

  give_up-Tended :
      (reason : String) (w : World)
      → Holding env.handoff_id pid w
      → SealEnds env pid (give_up env reason w)
  unfolding give_up send_best_effort_abort write_frame kill_and_reap journal_clear
  give_up-Tended reason w h = ground arith

  sort_seal-SealEnds :
      (go : M SealOutcome) (r : Reading) (rest : List Reading) (w : World)
      → ((w : World) → Holding env.handoff_id pid w → SealEnds env pid (go w))
      → Holding env.handoff_id pid w
      → SealEnds env pid (and_then (receive incumbent r rest w) (λ _. sort_seal env go r))
  unfolding receive
  sort_seal-SealEnds go r rest w next h =
      let kept : Holding env.handoff_id pid (receive incumbent r rest w).1 =
        Keeps-Holding (receive-Keeps env env.handoff_id incumbent r rest w) h in
      ground (
        arith,
        kept,
        next (receive incumbent r rest w).1 kept,
        give_up-Tended "incumbent unresponsive during seal" (receive incumbent r rest w).1 kept,
      )

  -- The test of the deadline, and the receive timeout, before a read.
  round-SealEnds :
      (deadline : ℕ) (reads : M SealOutcome) (w : World)
      → Holding env.handoff_id pid w
      → ((w' : World) → Holding env.handoff_id pid w' → SealEnds env pid (reads w'))
      → SealEnds env pid (
          (instant_now env >>= λ now.
          if leb deadline now
          then give_up env "seal phase timed out"
          else (arm_recv_timeout env >> reads))
            w)
  round-SealEnds deadline reads w h next =
      and_then-Holding (SealEnds env pid) w (instant_now env w) _ (λ _ _. inl) h
        (instant_now-Keeps env env.handoff_id w)
        λ now w₁ h₁. elim (Bool-cases (leb deadline now)) [
          | inl late ↦ rw late (give_up-Tended "seal phase timed out" w₁ h₁)
          | inr early ↦ rw early (
              and_then-Holding (SealEnds env pid) w₁ (arm_recv_timeout env w₁) (λ _. reads)
                (λ _ _. inl) h₁ (arm_recv_timeout-Keeps env env.handoff_id w₁) (λ _. next))
        ]

  pub seal_loop-SealEnds :
      (deadline : ℕ) (rs : List Reading) (w : World)
      → Holding env.handoff_id pid w
      → SealEnds env pid (seal_loop env deadline rs w)
  unfolding seal_loop
  seal_loop-SealEnds deadline [] w h = round-SealEnds deadline _ w h (λ _. inl)
  seal_loop-SealEnds deadline (r ∷ rest) w h = round-SealEnds deadline _ w h (λ w'.
      sort_seal-SealEnds (seal_loop env deadline rest) r rest w' (seal_loop-SealEnds deadline rest))
