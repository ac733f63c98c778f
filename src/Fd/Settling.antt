-- ===== src/Fd/Settling.antt =====
-- crates/handoff/src/fd.rs: the second and the third stage.
use handoff.Prelude.{
  ℕ, zero, suc, ◌+◌, ◌≤◌, ◌<◌, ◌≡◌, refl, ap, ◌∙◌, true, false, Option, none, some, List, [], ◌∷◌,
  length, arith,
}
use handoff.Error.{Result, ok, err, io}
use handoff.Fallible.{and_then}
use handoff.Sock.{contains}
use handoff.Fd.{Slot, Table, Kernel, put, copy, settle, close_all, settled}
use handoff.Fd.Stages.{nth, look, copied}

-- The duplicates `fs` settled from `dst` on, one after the other.
abbrev pub Settled : ℕ → List ℕ → Table → Table → Type 0
Settled dst [] t t' = t' ≡ t
Settled dst (f ∷ fs) t t' =
    (d : Slot) × (t f ≡ some d) × Settled (suc dst) fs (put dst (some (copy d)) t) t'

abbrev pub SettlesTo : ℕ → List ℕ → Table → Result (Unit {0}) × Table → Type 0
SettlesTo dst fs t (ok _, t') = Settled dst fs t t'
SettlesTo dst fs t (err e, t') = Unit

module _ (k : Kernel) where
  cons-SettlesTo :
      (dst f : ℕ) (fs : List ℕ) (d : Slot) (t : Table) (out : Result (Unit {0}) × Table)
      → t f ≡ some d
      → SettlesTo (suc dst) fs (put dst (some (copy d)) t) out
      → SettlesTo dst (f ∷ fs) t out
  cons-SettlesTo dst f fs d t (ok _, t') held h = (d, held, h)
  cons-SettlesTo dst f fs d t (err e, t') held h = tt

  dup2-SettlesTo :
      (dst f : ℕ) (fs : List ℕ) (t : Table)
      → ((t' : Table) → SettlesTo (suc dst) fs t' (settle k (suc dst) fs t'))
      → (slot : Option Slot) → t f ≡ slot
      → SettlesTo dst (f ∷ fs) t (
          and_then
            (elim slot as (λ _. Result (Unit {0}) × Table) [
              | none ↦ (err (io k.ebadf), t)
              | some d ↦ settled k d dst (k.refuses t f dst) t
            ])
            (λ _. settle k (suc dst) fs))
  dup2-SettlesTo dst f fs t h none e = tt
  dup2-SettlesTo dst f fs t h (some d) e =
      elim (k.refuses t f dst)
        as (λ x.
          SettlesTo dst (f ∷ fs) t (and_then (settled k d dst x t) (λ _. settle k (suc dst) fs))) [
            | some x ↦ tt
            | none ↦
                cons-SettlesTo dst f fs d t (settle k (suc dst) fs (put dst (some (copy d)) t)) e
                  (h (put dst (some (copy d)) t))
          ]

  pub settle-SettlesTo :
      (dst : ℕ) (fs : List ℕ) (t : Table) → SettlesTo dst fs t (settle k dst fs t)
  unfolding settle
  settle-SettlesTo dst [] t = refl
  settle-SettlesTo dst (f ∷ fs) t =
      dup2-SettlesTo dst f fs t (settle-SettlesTo (suc dst) fs) (t f) refl

-- Outside the targets nothing changes.
pub Settled-below :
    (dst : ℕ) (fs : List ℕ) (t t' : Table) (j : ℕ) → Settled dst fs t t' → j < dst → t' j ≡ t j
Settled-below dst [] t t' j h b = ap (λ (u : Table). u j) h
Settled-below dst (f ∷ fs) t t' j (d, held, h) b =
    ground (arith, Settled-below (suc dst) fs (put dst (some (copy d)) t) t' j h)

pub Settled-above :
    (dst : ℕ) (fs : List ℕ) (t t' : Table) (j : ℕ)
    → Settled dst fs t t'
    → dst + length fs ≤ j
    → t' j ≡ t j
Settled-above dst [] t t' j h b = ap (λ (u : Table). u j) h
Settled-above dst (f ∷ fs) t t' j (d, held, h) b =
    ground (arith, Settled-above (suc dst) fs (put dst (some (copy d)) t) t' j h)

-- Every duplicate lies above the targets.
abbrev pub AllAbove : ℕ → List ℕ → Type 0
AllAbove bound [] = Unit
AllAbove bound (f ∷ fs) = (bound ≤ f) × AllAbove bound fs

look-put-above :
    (dst bound : ℕ) (d : Slot) (fs : List ℕ) (t : Table) (i : ℕ)
    → dst < bound
    → AllAbove bound fs
    → look (put dst (some d) t) (nth fs i) ≡ look t (nth fs i)
look-put-above dst bound d [] t i lt h = refl
look-put-above dst bound d (f ∷ fs) t zero lt (lo, h) = ground arith
look-put-above dst bound d (f ∷ fs) t (suc i) lt (lo, h) = look-put-above dst bound d fs t i lt h

pub Settled-at :
    (dst bound : ℕ) (fs : List ℕ) (t t' : Table) (i : ℕ)
    → Settled dst fs t t'
    → AllAbove bound fs
    → dst + length fs ≤ bound
    → i < length fs
    → t' (dst + i) ≡ copied (look t (nth fs i))
Settled-at dst bound [] t t' i h above fits lt = absurd (omega arith)
Settled-at dst bound (f ∷ fs) t t' zero (d, held, h) (lo, above) fits lt =
    ground (arith, Settled-below (suc dst) fs (put dst (some (copy d)) t) t' dst h)
Settled-at dst bound (f ∷ fs) t t' (suc i) (d, held, h) (lo, above) fits lt =
    ap t' {x = dst + suc i} {y = suc dst + i} (omega arith)
    ∙ Settled-at (suc dst) bound fs (put dst (some (copy d)) t) t' i h above (omega arith)
        (omega arith)
    ∙ ap copied (look-put-above dst bound (copy d) fs t i (omega arith) above)

-- What is closed holds nothing, and the rest is as it was.
pub close_all-contains :
    (fs : List ℕ) (t : Table) (j : ℕ)
    → (close_all fs t).1 j ≡ (elim (contains fs j) [ true ↦ none | false ↦ t j ])
unfolding close_all
close_all-contains [] t j = refl
close_all-contains (f ∷ fs) t j = ground (arith, close_all-contains fs (put f none t) j)
