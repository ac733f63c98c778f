-- ===== src/Supervisor/Settles.antt =====
-- crates/handoff/src/supervisor.rs: how `perform_handoff` ends.
use handoff.Prelude.{ℕ, ◌+◌, ◌≡◌, refl, ◌⊎◌, ◌∙◌, true, false, inl, inr, none, some, arith}
use handoff.Error.{Result, ok, err}
use handoff.Fallible.{and_then, ◌>>=◌, ◌>>◌, lift}
use handoff.Protocol.{incumbent}
use handoff.Supervisor.World.{
  Env, World, M, instant_now, now_unix_ms, configure_control_stream, spawn_successor, spawned_by,
  guarded, drop_guard,
}
use handoff.Supervisor.Wire.{exchange_hello_as_supervisor}
use handoff.Supervisor.Handoff.{
  SpawnSpec, HandoffOutcome, with_successor, greet_incumbent, launch, drive, unlocked,
  perform_handoff,
}
use handoff.Supervisor.Trace.{Keeps, Keeps-refl, IsOrdered, fate, IsReaped, released, Keeps-trans}
use handoff.Supervisor.Keeping.{bind-Keeps, now_unix_ms-Keeps, instant_now-Keeps, configure-Keeps}
use handoff.Supervisor.Reads.{exchange_hello-Keeps}
use handoff.Supervisor.Finishes.{Finishes, with_successor-Finishes}

-- Between two handoffs.
pub record IsIdle (env : Env) (w : World) : Type 0 where
  pub free : w.in_flight ≡ false
  pub unowned : w.guard ≡ none
  pub ordered : IsOrdered env.handoff_id w.trace

-- What has become of the child, by what `perform_handoff` returns; `w` is the world before.
abbrev pub Child : World → Result HandoffOutcome × World → Type 0
Child w (ok o, w') =
    ((p : ℕ) × (o.committed ≡ true) × (o.child ≡ some p) × (fate w'.trace ≡ released p))
    ⊎ ((o.committed ≡ false) × (o.child ≡ none) × IsReaped (fate w'.trace))
Child w (err e, w') = (fate w'.trace ≡ fate w.trace) ⊎ IsReaped (fate w'.trace)

-- The guard is gone, and the trace is in order.
abbrev pub Settles : Env → World → Result HandoffOutcome × World → Type 0
Settles env w out = (out.1.guard ≡ none) × IsOrdered env.handoff_id out.1.trace × Child w out

module _ (env : Env) where
  guarded-Settles :
      (pid : ℕ) (w : World) (out : Result HandoffOutcome × World)
      → Finishes env pid out
      → Settles env w (out.0, drop_guard out.1)
  guarded-Settles pid w (ok o, w') (inl h) = ground arith
  guarded-Settles pid w (ok o, w') (inr (c, n, r)) = ground arith
  guarded-Settles pid w (err e, w') (inl h) = ground arith
  guarded-Settles pid w (err e, w') (inr (u, d, o)) = ground arith

  -- A call before the successor is spawned.
  and_then-Settles {ℓ} :
      {A : Type ℓ} (w₀ w : World) (out : Result A × World) (f : A → M HandoffOutcome)
      → Keeps env.handoff_id w₀ w
      → w₀.guard ≡ none
      → IsOrdered env.handoff_id w₀.trace
      → Keeps env.handoff_id w out.1
      → ((a : A) (w' : World) → Keeps env.handoff_id w₀ w' → Settles env w₀ (f a w'))
      → Settles env w₀ (and_then out f)
  and_then-Settles w₀ w (ok a, w') f k u o k' next = next a w' (Keeps-trans k k')
  and_then-Settles w₀ w (err e, w') f k u o k' next =
      let q = Keeps-trans k k' in (q.same_guard ∙ u, q.ordered o, inl q.same_fate)

  spawned-Settles :
      (started total : ℕ) (spec : SpawnSpec) (child : Result ℕ) (w₀ w : World)
      → Keeps env.handoff_id w₀ w
      → w₀.guard ≡ none
      → IsOrdered env.handoff_id w₀.trace
      → Settles env w₀ (
          and_then
            (spawned_by child w)
            (λ pid. guarded (with_successor env pid started spec total)))
  spawned-Settles started total spec (ok pid) w₀ w k u o = guarded-Settles pid w₀ _ (
      with_successor-Finishes env pid started spec total (spawned_by (ok pid) w).1
        (record { owned = refl; runs = refl; ordered = (tt, k.ordered o) }))
  spawned-Settles started total spec (err e) w₀ w k u o =
      (k.same_guard ∙ u, k.ordered o, inl k.same_fate)

  launch-Settles :
      (spec : SpawnSpec) (total started : ℕ) (w₀ w : World)
      → Keeps env.handoff_id w₀ w
      → w₀.guard ≡ none
      → IsOrdered env.handoff_id w₀.trace
      → Settles env w₀ (launch env spec total started w)
  unfolding launch spawn_successor
  launch-Settles spec total started w₀ w = spawned-Settles started total spec env.spawn w₀ w

  greet_incumbent-Keeps : (w : World) → Keeps env.handoff_id w (greet_incumbent env w).1
  unfolding greet_incumbent
  greet_incumbent-Keeps =
      bind-Keeps env env.handoff_id (lift env.connect) _ (Keeps-refl env.handoff_id) λ _.
        bind-Keeps env env.handoff_id (configure_control_stream env) _
          (configure-Keeps env env.handoff_id)
          λ _.
            bind-Keeps env env.handoff_id
              (exchange_hello_as_supervisor env incumbent incumbent none) _
              (exchange_hello-Keeps env env.handoff_id incumbent incumbent none)
              (λ _. Keeps-refl env.handoff_id)

  unlocked-Settles :
      (w : World) (out : Result HandoffOutcome × World)
      → Settles env (record w { in_flight = true }) out
      → Settles env w (unlocked env out)
  unlocked-Settles w (ok o, w') v = v
  unlocked-Settles w (err e, w') v = v

  drive-Settles :
      (spec : SpawnSpec) (w : World)
      → w.guard ≡ none
      → IsOrdered env.handoff_id w.trace
      → Settles env w (drive env spec w)
  unfolding drive
  drive-Settles spec w u o =
      and_then-Settles w w (instant_now env w)
        (λ now. now_unix_ms env >>= λ started.
          greet_incumbent env >> launch env spec (now + spec.deadline) started)
        (Keeps-refl env.handoff_id w) u o (instant_now-Keeps env env.handoff_id w)
        λ now w₁ k₁.
          and_then-Settles w w₁ (now_unix_ms env w₁)
            (λ started. greet_incumbent env >> launch env spec (now + spec.deadline) started) k₁ u o
            (now_unix_ms-Keeps env env.handoff_id w₁)
            λ started w₂ k₂.
              and_then-Settles w w₂ (greet_incumbent env w₂)
                (λ _. launch env spec (now + spec.deadline) started) k₂ u o
                (greet_incumbent-Keeps w₂)
                λ _ w₃ k₃. launch-Settles spec (now + spec.deadline) started w w₃ k₃ u o

  -- For every answer of the two processes, the operating system and the clock: a
  -- `perform_handoff` that starts with no other in flight, no child owned and the trace in order
  -- ends so too. If it reports a commit, its child has been passed to the caller; if it reports
  -- an abort, it has no child to pass and the newest child has been reaped; if it returns an
  -- error, the newest child has been reaped, or nothing has become of it since. That the trace is
  -- in order means: `Begin` is sent only behind the incumbent's `SealComplete` for this handoff,
  -- since the newest child was spawned; a child is handed over only while it runs, behind that
  -- and its own `Ready`; `Commit` is sent only once it is handed over, `ResumeAfterAbort` only
  -- once it is reaped; and only a running child is killed.
  pub perform_handoff-Settles :
      (spec : SpawnSpec) (w : World)
      → IsIdle env w
      → ((perform_handoff env spec w).1.in_flight ≡ false)
        × Settles env w (perform_handoff env spec w)
  unfolding perform_handoff
  perform_handoff-Settles spec w v = simp (v.free) (
    refl,
    unlocked-Settles w (drive env spec (record w { in_flight = true }))
        (drive-Settles spec (record w { in_flight = true }) v.unowned v.ordered),
  )
