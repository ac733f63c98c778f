-- ===== src/Supervisor/Trace.antt =====
-- crates/handoff/src/supervisor.rs: what the trace of a handoff says, and what it may hold.
use handoff.Prelude.{
  ℕ, ◌≡◌, refl, ◌⊎◌, ◌∙◌, Bool, true, false, ◌||◌, none, some, List, [], ◌∷◌, ◌==◌,
}
use handoff.Protocol.{
  HandoffId, incumbent, successor, begin, commit, resume_after_abort, seal_complete, ready,
}
use handoff.Supervisor.World.{Event, sent, got, spawned, killed, handed_over, World}

-- What has become of the newest child.
pub data Fate : Type 0 where
  nobody : Fate
  running reaped released : (pid : ℕ) → Fate

abbrev pub fate : List Event → Fate
fate [] = nobody
fate (spawned p ∷ t) = running p
fate (killed p ∷ t) = reaped p
fate (handed_over p ∷ t) = released p
fate (_ ∷ t) = fate t

-- Whether the incumbent has reported `SealComplete` since the newest child was spawned.
abbrev pub has_sealed : HandoffId → List Event → Bool
has_sealed id [] = false
has_sealed id (spawned _ ∷ t) = false
has_sealed id (got incumbent (seal_complete i _ _) ∷ t) = i == id || has_sealed id t
has_sealed id (_ ∷ t) = has_sealed id t

-- Whether that child has reported `Ready`.
abbrev pub is_ready_since : HandoffId → List Event → Bool
is_ready_since id [] = false
is_ready_since id (spawned _ ∷ t) = false
is_ready_since id (got successor (ready i _ _ _) ∷ t) = i == id || is_ready_since id t
is_ready_since id (_ ∷ t) = is_ready_since id t

abbrev pub IsReleased : Fate → Type 0
IsReleased (released _) = Unit
IsReleased _ = ⊥

abbrev pub IsReaped : Fate → Type 0
IsReaped (reaped _) = Unit
IsReaped _ = ⊥

-- What may follow the trace `t`: the successor begins once the incumbent has sealed; a child is handed
-- over once it is ready, behind a seal; the incumbent commits once the child is handed over, and is
-- resumed once it is reaped; and only a running child is killed.
abbrev pub Allowed : HandoffId → Event → List Event → Type 0
Allowed id (sent successor (begin i)) t = has_sealed id t ≡ true
Allowed id (handed_over p) t =
    (fate t ≡ running p) × (has_sealed id t ≡ true) × (is_ready_since id t ≡ true)
Allowed id (sent incumbent (commit i)) t = IsReleased (fate t)
Allowed id (sent incumbent (resume_after_abort i)) t = IsReaped (fate t)
Allowed id (killed p) t = fate t ≡ running p
Allowed id _ t = Unit

abbrev pub IsOrdered : HandoffId → List Event → Type 0
IsOrdered id [] = Unit
IsOrdered id (e ∷ t) = Allowed id e t × IsOrdered id t

-- The child of the guard runs.
pub record Holding (id : HandoffId) (pid : ℕ) (w : World) : Type 0 where
  pub owned : w.guard ≡ some pid
  pub runs : fate w.trace ≡ running pid
  pub ordered : IsOrdered id w.trace

-- The guard's child runs, or it has been reaped and the guard is gone.
abbrev pub Tended : HandoffId → ℕ → World → Type 0
Tended id pid w =
    Holding id pid w ⊎ ((w.guard ≡ none) × (fate w.trace ≡ reaped pid) × IsOrdered id w.trace)

-- A change that concerns neither the child nor the order, and forgets nothing.
pub record Keeps (id : HandoffId) (w w' : World) : Type 0 where
  pub same_guard : w'.guard ≡ w.guard
  pub same_fate : fate w'.trace ≡ fate w.trace
  pub ordered : IsOrdered id w.trace → IsOrdered id w'.trace
  pub sealed_still : has_sealed id w.trace ≡ true → has_sealed id w'.trace ≡ true

pub Keeps-refl : (id : HandoffId) (w : World) → Keeps id w w
Keeps-refl id w = record {
  same_guard = refl;
  same_fate = refl;
  ordered = λ h. h;
  sealed_still = λ h. h;
}

pub Keeps-trans : {id : HandoffId} {u v w : World} → Keeps id u v → Keeps id v w → Keeps id u w
Keeps-trans p q = record {
  same_guard = q.same_guard ∙ p.same_guard;
  same_fate = q.same_fate ∙ p.same_fate;
  ordered = λ h. q.ordered (p.ordered h);
  sealed_still = λ h. q.sealed_still (p.sealed_still h);
}

pub Keeps-Holding :
    {id : HandoffId} {pid : ℕ} {w w' : World} → Keeps id w w' → Holding id pid w → Holding id pid w'
Keeps-Holding k h = record {
  owned = k.same_guard ∙ h.owned;
  runs = k.same_fate ∙ h.runs;
  ordered = k.ordered h.ordered;
}
