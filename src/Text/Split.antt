-- ===== src/Text/Split.antt =====
-- What `join` writes, `split` reads.
use handoff.Prelude.{ℕ, ◌≡◌, refl, ◌∙◌, false, List, [], ◌∷◌, ◌++◌, arith, ap}
use handoff.Sock.{contains}
use handoff.Text.{Text, split, join}

-- No part contains the separator.
abbrev pub AllFree : ℕ → List Text → Type 0
AllFree sep [] = Unit
AllFree sep (w ∷ ws) = (contains w sep ≡ false) × AllFree sep ws

split-free : (sep : ℕ) (w : Text) → contains w sep ≡ false → split sep w ≡ w ∷ []
unfolding split
split-free sep [] h = refl
split-free sep (c ∷ cs) h = ground (arith, split-free sep cs)

split-append :
    (sep : ℕ) (w rest : Text)
    → contains w sep ≡ false
    → split sep (w ++ (sep ∷ rest)) ≡ w ∷ split sep rest
unfolding split
split-append sep [] rest h = ground arith
split-append sep (c ∷ cs) rest h = ground (arith, split-append sep cs rest)

pub split-join :
    (sep : ℕ) (w : Text) (ws : List Text)
    → AllFree sep (w ∷ ws)
    → split sep (join sep (w ∷ ws)) ≡ w ∷ ws
unfolding join
split-join sep w [] (h, _) = split-free sep w h
split-join sep w (v ∷ vs) (h, hs) =
    split-append sep w (join sep (v ∷ vs)) h ∙ ap (◌∷◌ w) (split-join sep v vs hs)
