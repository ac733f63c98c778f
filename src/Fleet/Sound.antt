-- ===== src/Fleet/Sound.antt =====
-- crates/handoff/src/incumbent.rs: what every step of a process keeps of its own state.
use handoff.Prelude.{
  ℕ, ◌≡◌, ◌≢◌, ◌∙◌, subst, refl, true, false, Bool-cases, inl, inr, none, some, Option, arith,
}
use handoff.Error.{Result, ok, err, IoError}
use handoff.Lock.{Disk, DataDirLock, release, remove_pidfile}
use handoff.Lock.Acquire.{Acquires, acquire-Acquires}
use handoff.Protocol.{proto_max}
use handoff.Incumbent.World.{Env, World, is_held, write_frame, set_read_timeout, sleep, call_resume}
use handoff.Incumbent.Session.{SessionOutcome, committed, closed, on_read_error, clean_up}
use handoff.Incumbent.Quiet.{IsOrdered, IsGuarded}
use handoff.Incumbent.Handlers.{Inv, Handled, handle-Handled}
use handoff.Incumbent.Sessions.{
  IsIdle, LoopEnds, SessionEnds, default-Inv, hello-IsIdle, timeout-IsIdle, on_read_error-LoopEnds,
  clean_up-SessionEnds,
}
use handoff.Incumbent.Accepts.{resumed-IsIdle, sleep-IsIdle}
use handoff.Incumbent.Recovery.{Recovers, reacquire-Recovers}
use handoff.Incumbent.Writer.{flag, Safe, handle-Safe, on_read_error-Guarded}
use handoff.Incumbent.NoSplit.{clean_up-Guarded, resumed-Guarded, sleep-Guarded, hello-Guarded}
use handoff.Fleet.{
  Pc, out, idle, session, recovering, done, Node, place, close, fresh, Act, boot, boot_fails,
  back_off, greet, arm, join, carry_on, leave, stop, hang_up, retry, recover, quit, IsAlone,
}
use handoff.Fleet.Owns.{
  Owns, Fares, Fares-trans, clean_up-Fares, on_read_error-Fares, reacquire-Fares, handle-Fares,
}

-- What holds of a process, by where it stands.
abbrev pub Local : Pc → World → Type 0
Local out w = Unit
Local idle w = IsIdle w × IsGuarded w
Local (session b) w = Inv w × IsGuarded w × (w.session.sealed ≡ true → b ≡ true)
Local recovering w = (is_held w.lock ≡ false) × IsOrdered w.trace × IsGuarded w
Local done w = IsGuarded w

placed-Local :
    (r : Result SessionOutcome) (w : World)
    → SessionEnds (r, w)
    → IsGuarded w
    → Local (place (r, w)) w
placed-Local (ok committed) w v g = g
placed-Local (ok closed) w v g = (v, g)
placed-Local (err e) w v g = elim (Bool-cases (is_held w.lock)) [
  | inl h ↦ rw h (record { settled = ground (arith, v.0); has_lock = h; ordered = v.1 }, g)
  | inr h ↦ rw h (h, v.1, g)
]

module _ (env : Env) where
  close-Local :
      (r : Result SessionOutcome) (w : World)
      → LoopEnds (r, w)
      → IsGuarded w
      → Local (close env (r, w)).pc (close env (r, w)).world
  close-Local r w v g =
      placed-Local (clean_up env r w).0 (clean_up env r w).1 (clean_up-SessionEnds env r w v)
        (clean_up-Guarded env r w v g)

  left-Local :
      (o : SessionOutcome) (w' : World)
      → Handled (ok (some o), w')
      → IsGuarded w'
      → Local (close env (ok o, w')).pc (close env (ok o, w')).world
  left-Local committed w' v g = close-Local (ok committed) w' v g
  left-Local closed w' v g = absurd v

  arm-Guarded : (w : World) → IsGuarded w → IsGuarded (set_read_timeout env w).1
  unfolding set_read_timeout
  arm-Guarded w g = g

  -- A step leaves its process in order.
  pub Act-Local :
      (w : World) (pc : Pc) (n : Node) → Act env w pc n → Local pc w → Local n.pc n.world
  Act-Local w pc n (boot f l d e) v =
      (record { settled = refl; has_lock = refl; ordered = tt }, (tt, λ _. refl))
  Act-Local w pc n (boot_fails f e d q) v = tt
  Act-Local w pc n (back_off ms) (v, g) = (sleep-IsIdle env ms w v, sleep-Guarded env ms w g)
  Act-Local w pc n greet (v, g) = (hello-IsIdle env w v, hello-Guarded env w g)
  Act-Local w pc n arm (v, g) = (timeout-IsIdle env w v, arm-Guarded w g)
  Act-Local w pc n (join c) (v, g) = (default-Inv w v, g, λ k. k)
  Act-Local w pc n (carry_on c b m w' p e) (v, g, k) =
      let (g', k') = subst (Safe (flag b m)) e (handle-Safe env c b m w v g k p) in
      (subst Handled e (handle-Handled env c m w v), g', k')
  Act-Local w pc n (leave c b m o w' p e) (v, g, k) =
      left-Local o w' (subst Handled e (handle-Handled env c m w v))
        (subst (Safe (flag b m)) e (handle-Safe env c b m w v g k p)).0
  Act-Local w pc n (stop c b m x w' p e) (v, g, k) =
      close-Local (err x) w' (subst Handled e (handle-Handled env c m w v))
        (subst (Safe (flag b m)) e (handle-Safe env c b m w v g k p))
  Act-Local w pc n (hang_up c b e) (v, g, k) =
      close-Local (on_read_error env c e w).0 (on_read_error env c e w).1
        (on_read_error-LoopEnds env c e w v) (on_read_error-Guarded env c e w g)
  Act-Local w pc n (retry x w' e) (h, o, g) =
      let r = subst (Recovers w) e (reacquire-Recovers env w h).0 in (r.0, r.2 o, r.3 g)
  Act-Local w pc n (recover w' e) (h, o, g) =
      let r = subst (Recovers w) e (reacquire-Recovers env w h).0 in
      (resumed-IsIdle env w' r.0 (r.2 o), resumed-Guarded env w' r.0 (r.3 g))
  Act-Local w pc n (quit f) v = tt

module _ (env : Env) (alone : IsAlone env) (j : ℕ) (other : j ≢ env.me) where
  close-Fares :
      (r : Result SessionOutcome) (w w' : World)
      → Fares env.me j w w'
      → Fares env.me j w (close env (r, w')).world
  close-Fares r w w' f = Fares-trans f (clean_up-Fares env proto_max j other r w')

  boot-Fares :
      (w : World) (r : Result DataDirLock × Disk)
      → Acquires env.me w.disk r
      → Owns env.me w
      → Fares env.me j w (elim r.0 [ ok l ↦ fresh l r.1 | err _ ↦ record w { disk = r.1 } ])
  boot-Fares w (ok l, d) a o = record {
    owns = λ _. a.2;
    spared = λ k. absurd (ground (arith, a.0));
  }
  boot-Fares w (err e, d) a o = record { owns = λ k. a ∙ o k; spared = λ k. a ∙ k }

  -- A process that quits holds the lock, or a flock of nobody else.
  quit-Fares :
      (f : Option IoError) (w : World)
      → is_held w.lock ≡ true
      → Owns env.me w
      → Fares env.me j w (record w { lock = none; disk = release f w.disk })
  unfolding release remove_pidfile
  quit-Fares f w h o = record {
    owns = λ k. absurd (ground arith);
    spared = λ k. absurd (ground (arith, o h));
  }

  -- A step takes the flock from no other process.
  pub Act-Fares :
      (w : World) (pc : Pc) (n : Node)
      → Act env w pc n
      → Local pc w
      → Owns env.me w
      → Fares env.me j w n.world
  unfolding sleep write_frame set_read_timeout call_resume
  Act-Fares w pc n (boot f l d e) v o =
      boot-Fares w (ok l, d) (subst (Acquires env.me w.disk) e (acquire-Acquires env.me f w.disk)) o
  Act-Fares w pc n (boot_fails f x d e) v o =
      boot-Fares w (err x, d) (subst (Acquires env.me w.disk) e (acquire-Acquires env.me f w.disk))
        o
  Act-Fares w pc n (back_off ms) v o = record { owns = o; spared = λ k. k }
  Act-Fares w pc n greet v o = ground arith
  Act-Fares w pc n arm v o = record { owns = o; spared = λ k. k }
  Act-Fares w pc n (join c) v o = record { owns = o; spared = λ k. k }
  Act-Fares w pc n (carry_on c b m w' p e) v o =
      subst (λ x. Fares env.me j w x.1) e (handle-Fares env c j other alone m w o)
  Act-Fares w pc n (leave c b m x w' p e) v o =
      close-Fares (ok x) w w'
        (subst (λ x. Fares env.me j w x.1) e (handle-Fares env c j other alone m w o))
  Act-Fares w pc n (stop c b m x w' p e) v o =
      close-Fares (err x) w w'
        (subst (λ x. Fares env.me j w x.1) e (handle-Fares env c j other alone m w o))
  Act-Fares w pc n (hang_up c b e) v o =
      close-Fares (on_read_error env c e w).0 w (on_read_error env c e w).1
        (on_read_error-Fares env c j other e w o)
  Act-Fares w pc n (retry x w' e) v o =
      subst (λ x. Fares env.me j w x.1) e (reacquire-Fares env proto_max j other alone w o)
  Act-Fares w pc n (recover w' e) v o =
      let f =
        subst (λ x. Fares env.me j w x.1) e (reacquire-Fares env proto_max j other alone w o) in
      record { owns = f.owns; spared = f.spared }
  Act-Fares w pc n (quit f) v o = quit-Fares f w v.0.has_lock o
