-- ===== src/Fd/Stages.antt =====
-- crates/handoff/src/fd.rs: what each stage does to the descriptor table.
use handoff.Prelude.{
  ℕ, zero, suc, ◌≤◌, ◌≡◌, ◌≢◌, refl, sym, ap, ◌∙◌, true, false, Bool-cases, inl, inr, Option, none,
  some, List, [], ◌∷◌, length, arith,
}
use handoff.Error.{Result, io, ok, err}
use handoff.Fallible.{and_then}
use handoff.Sock.{contains}
use handoff.Fd.{Slot, Table, Kernel, put, copy, stage, duplicated}

-- The kernel chooses a descriptor that is free, at or above the bound.
pub record IsSound (k : Kernel) : Type 0 where
  pub above : (t : Table) (bound fd : ℕ) → k.free t bound ≡ ok fd → bound ≤ fd
  pub unused : (t : Table) (bound fd : ℕ) → k.free t bound ≡ ok fd → t fd ≡ none

abbrev pub nth : List ℕ → ℕ → Option ℕ
nth [] i = none
nth (x ∷ xs) zero = some x
nth (x ∷ xs) (suc i) = nth xs i

-- The slot behind a descriptor that there may be.
abbrev pub look : Table → Option ℕ → Option Slot
look t none = none
look t (some fd) = t fd

abbrev pub copied : Option Slot → Option Slot
copied none = none
copied (some s) = some (copy s)

-- The duplicates `fs` of the sources `ss`, made one after the other.
abbrev pub Staged : ℕ → List ℕ → List ℕ → Table → Table → Type 0
Staged bound [] [] t t' = t' ≡ t
Staged bound (s ∷ ss) (f ∷ fs) t t' =
    (bound ≤ f)
    × (t f ≡ none)
    × (d : Slot) × (t s ≡ some d)
    × Staged bound ss fs (put f (some (copy d)) t) t'
Staged bound _ _ t t' = ⊥

abbrev pub StagesTo : ℕ → List ℕ → Table → Result (List ℕ) × Table → Type 0
StagesTo bound ss t (ok fs, t') = Staged bound ss fs t t'
StagesTo bound ss t (err e, t') = Unit

module _ (k : Kernel) (sound : IsSound k) where
  cons-StagesTo :
      (bound s f : ℕ) (ss : List ℕ) (d : Slot) (t : Table) (out : Result (List ℕ) × Table)
      → bound ≤ f
      → t f ≡ none
      → t s ≡ some d
      → StagesTo bound ss (put f (some (copy d)) t) out
      → StagesTo bound (s ∷ ss) t (and_then out (λ rest t'. (ok (f ∷ rest), t')))
  cons-StagesTo bound s f ss d t (ok fs, t') lo free held r = (lo, free, d, held, r)
  cons-StagesTo bound s f ss d t (err e, t') lo free held r = tt

  dup_above-StagesTo :
      (bound s : ℕ) (ss : List ℕ) (t : Table)
      → ((t' : Table) → StagesTo bound ss t' (stage k bound ss t'))
      → (slot : Option Slot) → t s ≡ slot
      → (new_fd : Result ℕ) → k.free t bound ≡ new_fd
      → StagesTo bound (s ∷ ss) t (
          and_then
            (elim slot as (λ _. Result ℕ × Table) [
              | none ↦ (err (io k.ebadf), t)
              | some d ↦ duplicated k d new_fd t
            ])
            (λ f t'. and_then (stage k bound ss t') (λ rest t''. (ok (f ∷ rest), t''))))
  dup_above-StagesTo bound s ss t h none e r e' = tt
  dup_above-StagesTo bound s ss t h (some d) e (err x) e' = tt
  dup_above-StagesTo bound s ss t h (some d) e (ok f) e' =
      cons-StagesTo bound s f ss d t (stage k bound ss (put f (some (copy d)) t))
        (sound.above t bound f e') (sound.unused t bound f e') e (h (put f (some (copy d)) t))

  pub stage-StagesTo :
      (bound : ℕ) (ss : List ℕ) (t : Table) → StagesTo bound ss t (stage k bound ss t)
  unfolding stage
  stage-StagesTo bound [] t = refl
  stage-StagesTo bound (s ∷ ss) t =
      dup_above-StagesTo bound s ss t (stage-StagesTo bound ss) (t s) refl (k.free t bound) refl

-- What the duplicates share: they lie above the bound, were free, and hold what their sources held;
-- the other descriptors are as they were.
pub Staged-above :
    (bound : ℕ) (ss fs : List ℕ) (t t' : Table) (j : ℕ)
    → Staged bound ss fs t t'
    → contains fs j ≡ true
    → bound ≤ j
Staged-above bound [] [] t t' j h c = absurd (ground arith)
Staged-above bound (s ∷ ss) (f ∷ fs) t t' j (lo, free, d, held, h) c =
    ground (arith, Staged-above bound ss fs (put f (some (copy d)) t) t' j h)
Staged-above bound [] (f ∷ fs) t t' j h c = absurd h
Staged-above bound (s ∷ ss) [] t t' j h c = absurd h

pub Staged-other :
    (bound : ℕ) (ss fs : List ℕ) (t t' : Table) (j : ℕ)
    → Staged bound ss fs t t'
    → contains fs j ≡ false
    → t' j ≡ t j
Staged-other bound [] [] t t' j h c = ap (λ (u : Table). u j) h
Staged-other bound (s ∷ ss) (f ∷ fs) t t' j (lo, free, d, held, h) c =
    ground (arith, Staged-other bound ss fs (put f (some (copy d)) t) t' j h)
Staged-other bound [] (f ∷ fs) t t' j h c = absurd h
Staged-other bound (s ∷ ss) [] t t' j h c = absurd h

pub Staged-free :
    (bound : ℕ) (ss fs : List ℕ) (t t' : Table) (j : ℕ)
    → Staged bound ss fs t t'
    → contains fs j ≡ true
    → t j ≡ none
Staged-free bound [] [] t t' j h c = absurd (ground arith)
Staged-free bound (s ∷ ss) (f ∷ fs) t t' j (lo, free, d, held, h) c =
    ground (arith, Staged-free bound ss fs (put f (some (copy d)) t) t' j h)
Staged-free bound [] (f ∷ fs) t t' j h c = absurd h
Staged-free bound (s ∷ ss) [] t t' j h c = absurd h

-- The caller keeps the sources open.
abbrev pub AllOpen : Table → List ℕ → Type 0
AllOpen t [] = Unit
AllOpen t (s ∷ ss) = (t s ≢ none) × AllOpen t ss

pub put-AllOpen :
    (f : ℕ) (d : Slot) (ss : List ℕ) (t : Table) → AllOpen t ss → AllOpen (put f (some d) t) ss
put-AllOpen f d [] t h = tt
put-AllOpen f d (s ∷ ss) t (o, h) = ((λ e. ground (arith, o)), put-AllOpen f d ss t h)

-- A slot that was free holds nothing that an open source looks at.
look-put :
    (f : ℕ) (d : Slot) (ss : List ℕ) (t : Table) (i : ℕ)
    → t f ≡ none
    → AllOpen t ss
    → look (put f (some d) t) (nth ss i) ≡ look t (nth ss i)
look-put f d [] t i free h = refl
look-put f d (s ∷ ss) t zero free (o, h) = ground (arith, o)
look-put f d (s ∷ ss) t (suc i) free (o, h) = look-put f d ss t i free h

pub Staged-first :
    (bound f : ℕ) (ss fs : List ℕ) (d : Slot) (t t' : Table)
    → Staged bound ss fs (put f (some d) t) t'
    → t' f ≡ some d
Staged-first bound f ss fs d t t' h = elim (Bool-cases (contains fs f)) [
  | inl c ↦ absurd (ground (arith, Staged-free bound ss fs (put f (some d) t) t' f h c))
  | inr c ↦ ground (arith, Staged-other bound ss fs (put f (some d) t) t' f h c)
]

pub Staged-copies :
    (bound : ℕ) (ss fs : List ℕ) (t t' : Table) (i : ℕ)
    → AllOpen t ss
    → Staged bound ss fs t t'
    → look t' (nth fs i) ≡ copied (look t (nth ss i))
Staged-copies bound [] [] t t' i o h = refl
Staged-copies bound (s ∷ ss) (f ∷ fs) t t' zero o (lo, free, d, held, h) =
    Staged-first bound f ss fs (copy d) t t' h ∙ sym (ap copied held)
Staged-copies bound (s ∷ ss) (f ∷ fs) t t' (suc i) (_, o) (lo, free, d, held, h) =
    Staged-copies bound ss fs (put f (some (copy d)) t) t' i (put-AllOpen f (copy d) ss t o) h
    ∙ ap copied (look-put f (copy d) ss t i free o)
Staged-copies bound [] (f ∷ fs) t t' i o h = absurd h
Staged-copies bound (s ∷ ss) [] t t' i o h = absurd h

pub Staged-length :
    (bound : ℕ) (ss fs : List ℕ) (t t' : Table) → Staged bound ss fs t t' → length fs ≡ length ss
Staged-length bound [] [] t t' h = refl
Staged-length bound (s ∷ ss) (f ∷ fs) t t' (lo, free, d, held, h) =
    ap suc (Staged-length bound ss fs (put f (some (copy d)) t) t' h)
Staged-length bound [] (f ∷ fs) t t' h = absurd h
Staged-length bound (s ∷ ss) [] t t' h = absurd h
