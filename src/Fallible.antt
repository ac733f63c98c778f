-- ===== src/Fallible.antt =====
-- Functions of the source that return a `Result` and change a state: what such a function changed before
-- it failed stays changed. `do` blocks stand for the chains of `?`.
use handoff.Prelude.{◌≡◌, refl, sym, subst, Option, none, some}
use handoff.Error.{Result, ok, err, Error, io, IoError}

abbrev pub M {ℓ κ} : Type κ → Type ℓ → Type (ℓ ⊔ κ)
M S A = S → Result A × S

abbrev pub and_then {ℓ κ μ} :
    {A : Type ℓ} {B : Type κ} {S : Type μ} → Result A × S → (A → M S B) → Result B × S
and_then (ok a, w) f = f a w
and_then (err e, w) f = (err e, w)

infixl 5 ◌>>=◌ ◌>>◌
abbrev pub ◌>>=◌ {ℓ κ μ} : {A : Type ℓ} {B : Type κ} {S : Type μ} → M S A → (A → M S B) → M S B
◌>>=◌ m f w = and_then (m w) f

abbrev pub ◌>>◌ {ℓ μ} : {B : Type ℓ} {S : Type μ} → M S (Unit {0}) → M S B → M S B
m >> k = m >>= λ _. k

abbrev pub pure {ℓ μ} : {A : Type ℓ} {S : Type μ} → A → M S A
pure a w = (ok a, w)

abbrev pub throw {ℓ μ} : {A : Type ℓ} {S : Type μ} → Error → M S A
throw e w = (err e, w)

-- A result that the state does not depend on.
abbrev pub lift {ℓ μ} : {A : Type ℓ} {S : Type μ} → Result A → M S A
lift r w = (r, w)

-- The result of a call that is inspected, and not passed on by `?`.
abbrev pub catch {ℓ μ} : {A : Type ℓ} {S : Type μ} → M S A → M S (Result A)
catch m w = (ok (m w).0, (m w).1)

-- The outcome of a system call, then the rest.
abbrev pub attempt {ℓ μ} : {A : Type ℓ} {S : Type μ} → Option IoError → S → M S A → Result A × S
attempt none d next = next d
attempt (some e) d next = (err (io e), d)

-- A computation that succeeds, with what holds behind it.
abbrev pub Gives {ℓ μ} : {A : Type ℓ} {S : Type μ} → (A → S → Type 0) → Result A × S → Type 0
Gives P (ok a, w) = P a w
Gives P (err e, w) = ⊥

module _ {ℓ μ} {A : Type ℓ} {S : Type μ} where
  pub ok-Gives :
      (P : A → S → Type 0) (a : A) (out : Result A × S) → out.0 ≡ ok a → P a out.1 → Gives P out
  ok-Gives P a (r, w) e p = subst (λ x. Gives P (x, w)) (sym e) p

  -- The result that `catch` shows.
  pub catch-Gives :
      (P : A → S → Type 0) (out : Result A × S) → Gives P out → (a : A) × (out.0 ≡ ok a) × P a out.1
  catch-Gives P (ok a, w) p = (a, refl, p)
  catch-Gives P (err e, w) p = absurd p

  pub and_then-Gives {κ} :
      {B : Type κ} (P : A → S → Type 0) (Q : B → S → Type 0) (out : Result A × S) (f : A → M S B)
      → Gives P out
      → ((a : A) (w : S) → P a w → Gives Q (f a w))
      → Gives Q (and_then out f)
  and_then-Gives P Q (ok a, w) f p next = next a w p
  and_then-Gives P Q (err e, w) f p next = absurd p

  pub map-Gives :
      (P Q : A → S → Type 0) (out : Result A × S)
      → Gives P out
      → ((a : A) (w : S) → P a w → Q a w)
      → Gives Q out
  map-Gives P Q (ok a, w) p f = f a w p
  map-Gives P Q (err e, w) p f = absurd p
