-- ===== src/Role/Takes.antt =====
-- crates/handoff/src/role.rs: the listeners that a process takes.
use handoff.Prelude.{
  ℕ, ◌≡◌, ◌≢◌, refl, sym, subst, ◌∙◌, true, Bool-cases, inl, inr, Option, none, some, List, [], ◌∷◌,
  arith,
}
use handoff.Error.{ℤ}
use handoff.Text.{Text, same}
use handoff.Process.{Process, Host, fd_is_listening, socket_family}
use handoff.Role.Environment.{Listeners, get, remove, family_in, taken, take_validated}
use handoff.Role.Inherits.{same-≡, same-≢, Absent, AreDistinct}

abbrev pub keys : Listeners → List Text
keys [] = []
keys ((n, f) ∷ ls) = n ∷ keys ls

get-Absent : (name : Text) (ls : Listeners) → Absent name (keys ls) → get name ls ≡ none
get-Absent name [] a = refl
get-Absent name ((n, f) ∷ ls) (d, a) =
    ground (arith, same-≢ n name (λ e. d (sym e)), get-Absent name ls a)

get-remove :
    (name : Text) (ls : Listeners) → AreDistinct (keys ls) → get name (remove name ls) ≡ none
unfolding remove
get-remove name [] d = refl
get-remove name ((n, f) ∷ ls) (a, d) = elim (Bool-cases (same n name)) [
  | inl e ↦ rw e (get-Absent name ls (subst (λ m. Absent m (keys ls)) (same-≡ n name e) a))
  | inr e ↦ ground (arith, get-remove name ls d)
]

get-remove_other :
    (name other : Text) (ls : Listeners) → other ≢ name → get other (remove name ls) ≡ get other ls
unfolding remove
get-remove_other name other [] d = refl
get-remove_other name other ((n, f) ∷ ls) d = elim (Bool-cases (same n name)) [
  | inl e ↦ ground (arith, same-≢ n other (λ q. d (sym q ∙ same-≡ n name e)))
  | inr e ↦ ground (arith, get-remove_other name other ls d)
]

-- What may come of taking `name`.
abbrev pub Takes : Host → Process → Text → List ℕ → Listeners → Option ℤ × Listeners → Type 0
Takes h p name families ls (none, ls') = ls' ≡ ls
Takes h p name families ls (some fd, ls') =
    (get name ls ≡ some fd)
    × (fd_is_listening h fd p ≡ true)
    × (family_in families (socket_family h fd p) ≡ true)
    × (get name ls' ≡ none)
    × ((other : Text) → other ≢ name → get other ls' ≡ get other ls)

taken-Takes :
    (h : Host) (p : Process) (name : Text) (families : List ℕ) (ls : Listeners) (found : Option ℤ)
    → AreDistinct (keys ls)
    → get name ls ≡ found
    → Takes h p name families ls (taken h name found families ls p)
taken-Takes h p name families ls none d e = refl
taken-Takes h p name families ls (some fd) d e = elim (Bool-cases (fd_is_listening h fd p)) [
  | inr x ↦ rw x refl
  | inl x ↦ elim (Bool-cases (family_in families (socket_family h fd p))) [
    | inr y ↦ rw (x, y) refl
    | inl y ↦ rw (x, y) (e, x, y, get-remove name ls d, λ other n. get-remove_other name other ls n)
  ]
]

-- For every process, every set of inherited listeners under distinct names, every name and every list of
-- families: `take_validated` returns a descriptor only if it is the one under that name, it listens, and its
-- family is one of those asked for; then the name is gone and the others stay. In every other
-- case it changes nothing, so that the listener can still be taken with the right families.
pub take_validated-Takes :
    (h : Host) (p : Process) (name : Text) (families : List ℕ) (ls : Listeners)
    → AreDistinct (keys ls)
    → Takes h p name families ls (take_validated h name families ls p)
unfolding take_validated
take_validated-Takes h p name families ls d = taken-Takes h p name families ls (get name ls) d refl
