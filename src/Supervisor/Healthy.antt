-- ===== src/Supervisor/Healthy.antt =====
-- crates/handoff/src/supervisor.rs: calls that succeed in time, and peers that answer.
use handoff.Prelude.{
  Bool-cases, inl, inr, ℕ, ◌+◌, ◌≤◌, ◌<◌, ◌≡◌, refl, ap, ◌∙◌, true, Option, none, some, List, [],
  ◌∷◌, leb, leb-of_lt, if◌then◌else◌, arith,
}
use handoff.Error.{ok}
use handoff.Fallible.{◌>>=◌, Gives, and_then-Gives}
use handoff.Protocol.{Message, Side, incumbent, successor, heartbeat, seal_progress}
use handoff.State.{Phase, StateJournal, Store, write_atomic}
use handoff.Supervisor.World.{
  Event, sent, note, Env, World, M, Reading, stream, instant_now, write_frame, arm_recv_timeout,
  journal_set,
}
use handoff.Supervisor.Wire.{receive, take_reading}

-- Every call succeeds, the child has `pid`, and a reading of the clock costs `delay` at most.
pub record IsHealthy (env : Env) (pid delay : ℕ) : Type 0 where
  pub connects : env.connect ≡ ok tt
  pub configures : (n : ℕ) → env.configure n ≡ ok tt
  pub pairs : env.socketpair ≡ ok tt
  pub spawns : env.spawn ≡ ok pid
  pub sends : (n : ℕ) → env.send n ≡ ok tt
  pub arms : (n : ℕ) → env.set_timeout n ≡ none
  pub writes :
      (n : ℕ) (j : StateJournal) (f : Store) → (write_atomic env.codec (env.faults n) j f).0 ≡ ok tt
  pub prompt : (n : ℕ) → env.lag n ≤ delay

-- A reading behind which the supervisor waits on: a heartbeat, progress, or a part of a frame.
abbrev pub IsAlive : Reading → Type 0
IsAlive r = elim r.polled [
  | ok (some (_, heartbeat _)) ↦ Unit
  | ok (some (_, seal_progress _ _ _)) ↦ Unit
  | ok none ↦ r.partial ≡ true
  | _ ↦ ⊥
]

abbrev pub AllAlive : List Reading → Type 0
AllAlive [] = Unit
AllAlive (r ∷ rs) = IsAlive r × AllAlive rs

-- The time that readings take, each behind a look at the clock.
abbrev pub cost : ℕ → List Reading → ℕ
cost delay [] = 0
cost delay (r ∷ rs) = delay + r.took + cost delay rs

abbrev pub opposite : Side → Side
opposite incumbent = successor
opposite successor = incumbent

-- The frames that the incumbent has been sent, the newest first.
abbrev pub told_of : List Event → List Message
told_of [] = []
told_of (sent incumbent m ∷ t) = m ∷ told_of t
told_of (_ ∷ t) = told_of t

-- The child that the guard owns, and what the incumbent has been told.
pub record Kept : Type 0 where
  pub owned : Option ℕ
  pub told : List Message

abbrev pub telling : Side → Message → Kept → Kept
telling incumbent m k = record k { told = m ∷ k.told }
telling successor m k = k

-- The supervisor's state, no later than `limit`.
pub record At (limit : ℕ) (peer : Side) (mine theirs : List Reading) (kept : Kept) (w : World)
    : Type 0 where
  pub by : w.time ≤ limit
  pub left : stream peer w ≡ mine
  pub others : stream (opposite peer) w ≡ theirs
  pub guard : w.guard ≡ kept.owned
  pub told : told_of w.trace ≡ kept.told

-- What an unread stream, the guard and the clock do not depend on.
pub moved-At :
    (limit later : ℕ) (peer : Side) (mine theirs : List Reading) (kept : Kept) (w w' : World)
    → w'.time ≤ later
    → w'.from_incumbent ≡ w.from_incumbent
    → w'.from_successor ≡ w.from_successor
    → w'.guard ≡ w.guard
    → told_of w'.trace ≡ told_of w.trace
    → At limit peer mine theirs kept w
    → At later peer mine theirs kept w'
moved-At limit later incumbent mine theirs kept w w' t i s g m v = record {
  by = t;
  left = i ∙ v.left;
  others = s ∙ v.others;
  guard = g ∙ v.guard;
  told = m ∙ v.told;
}
moved-At limit later successor mine theirs kept w w' t i s g m v = record {
  by = t;
  left = s ∙ v.left;
  others = i ∙ v.others;
  guard = g ∙ v.guard;
  told = m ∙ v.told;
}

pub later-At :
    (limit later : ℕ) (peer : Side) (mine theirs : List Reading) (kept : Kept) (w : World)
    → limit ≤ later
    → At limit peer mine theirs kept w
    → At later peer mine theirs kept w
later-At limit later peer mine theirs kept w h v = record {
  by = omega (arith, v.by);
  left = v.left;
  others = v.others;
  guard = v.guard;
  told = v.told;
}

pub received-At :
    (limit : ℕ) (peer : Side) (theirs : List Reading) (kept : Kept) (r : Reading)
    (rest : List Reading) (w : World)
    → At limit peer (r ∷ rest) theirs kept w
    → At (limit + r.took) peer rest theirs kept (take_reading peer r rest w)
received-At limit incumbent theirs kept r rest w v = ground (arith, v.by, v.others, v.guard, v.told)
received-At limit successor theirs kept r rest w v = ground (arith, v.by, v.others, v.guard, v.told)

told-At :
    (limit : ℕ) (peer : Side) (mine theirs : List Reading) (kept : Kept) (m : Message) (w : World)
    → At limit peer mine theirs kept w
    → At limit peer mine theirs (telling incumbent m kept) (note (sent incumbent m) w)
told-At limit incumbent mine theirs kept m w v = record {
  by = v.by;
  left = v.left;
  others = v.others;
  guard = v.guard;
  told = ap (λ x. m ∷ x) v.told;
}
told-At limit successor mine theirs kept m w v = record {
  by = v.by;
  left = v.left;
  others = v.others;
  guard = v.guard;
  told = ap (λ x. m ∷ x) v.told;
}

module _ (env : Env) (pid delay : ℕ) (healthy : IsHealthy env pid delay) (peer : Side)
    (theirs : List Reading) (kept : Kept) where
  -- The clock is read once, and stands at what it showed.
  pub instant_now-Gives :
      (limit : ℕ) (mine : List Reading) (w : World)
      → At limit peer mine theirs kept w
      → Gives
          (λ now w'. (now ≤ limit + delay) × (w.time ≤ now) × At now peer mine theirs kept w')
          (instant_now env w)
  unfolding instant_now
  instant_now-Gives limit mine w v = (
    omega (arith, healthy.prompt w.tick, v.by),
    omega arith,
    moved-At limit (w.time + env.lag w.tick) peer mine theirs kept w _ (omega arith) refl refl refl
        refl v,
  )

  pub arm-Gives :
      (limit : ℕ) (mine : List Reading) (w : World)
      → At limit peer mine theirs kept w
      → Gives (λ _. At limit peer mine theirs kept) (arm_recv_timeout env w)
  unfolding arm_recv_timeout
  arm-Gives limit mine w v =
      rw (healthy.arms w.tick)
        (moved-At limit limit peer mine theirs kept w _ v.by refl refl refl refl v)

  pub receive-Gives :
      (limit : ℕ) (r : Reading) (rest : List Reading) (w : World)
      → At limit peer (r ∷ rest) theirs kept w
      → Gives (λ _. At (limit + r.took) peer rest theirs kept) (receive peer r rest w)
  unfolding receive
  receive-Gives limit r rest w v = received-At limit peer theirs kept r rest w v

  pub write_frame-Gives :
      (limit : ℕ) (mine : List Reading) (to : Side) (m : Message) (w : World)
      → At limit peer mine theirs kept w
      → Gives (λ _. At limit peer mine theirs (telling to m kept)) (write_frame env to m w)
  unfolding write_frame
  write_frame-Gives limit mine incumbent m w v =
      rw (healthy.sends w.tick) (told-At limit peer mine theirs kept m w v)
  write_frame-Gives limit mine successor m w v =
      rw (healthy.sends w.tick)
        (moved-At limit limit peer mine theirs kept w _ v.by refl refl refl refl v)

  pub journal_set-Gives :
      (limit : ℕ) (mine : List Reading) (phase : Phase) (p started : ℕ) (w : World)
      → At limit peer mine theirs kept w
      → Gives (λ _. At limit peer mine theirs kept) (journal_set env phase p started w)
  unfolding journal_set
  journal_set-Gives limit mine phase p started w v = elim (Bool-cases env.has_journal) [
    | inl h ↦
        rw (h, healthy.writes)
          (moved-At limit limit peer mine theirs kept w _ v.by refl refl refl refl v)
    | inr h ↦ rw h v
  ]

  -- One round of a loop that waits for the peer.
  pub round-Gives {ℓ} :
      {A : Type ℓ} (Q : A → World → Type 0) (limit deadline : ℕ) (r : Reading) (rest : List Reading)
      (late k : M A) (w : World)
      → At limit peer (r ∷ rest) theirs kept w
      → limit + delay < deadline
      → ((w' : World) → At (limit + delay + r.took) peer rest theirs kept w' → Gives Q (k w'))
      → Gives Q (
          (instant_now env >>= λ now.
          if leb deadline now
          then late
          else (arm_recv_timeout env >>= λ _. receive peer r rest >>= λ _. k))
            w)
  round-Gives Q limit deadline r rest late k w v early next =
      and_then-Gives _ Q (instant_now env w) _ (instant_now-Gives limit (r ∷ rest) w v)
        λ now w₁ (soon, _, v₁). rw (leb-of_lt now deadline (omega arith)) (
          and_then-Gives _ Q (arm_recv_timeout env w₁) _ (arm-Gives now (r ∷ rest) w₁ v₁) λ _ w₂ v₂.
            and_then-Gives _ Q (receive peer r rest w₂) _ (receive-Gives now r rest w₂ v₂)
              λ _ w₃ v₃. next w₃ (
                moved-At (now + r.took) (limit + delay + r.took) peer rest theirs kept w₃ w₃
                  (omega (arith, v₃.by)) refl refl refl refl v₃))
