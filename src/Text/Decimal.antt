-- ===== src/Text/Decimal.antt =====
-- What `to_string` writes, `parse` reads.
use handoff.Prelude.{
  ℕ, zero, suc, ◌+◌, ◌/◌, ◌%◌, ◌<◌, ◌≡◌, ◌∙◌, false, some, [], ◌∷◌, ◌==◌, arith, sym, dec_lt, ap,
}
use handoff.Text.{Text, digits, to_string, parse_digits, parse}

parse_digits-digits :
    (bound f n : ℕ) (rest : Text)
    → n < f
    → n < bound
    → parse_digits bound 0 (digits f n rest) ≡ parse_digits bound n rest
unfolding digits parse_digits
parse_digits-digits bound zero n rest h lt = absurd (omega arith)
parse_digits-digits bound (suc f) n rest h lt = elim (dec_lt n 10) [
  | yes small ↦ ground arith
  | no large ↦ ground (arith, parse_digits-digits bound f (n / 10) ((b'0' + n % 10) ∷ rest))
]

-- The first character is a digit, and so no sign.
digits-starts :
    (f n : ℕ) (rest : Text)
    → n < f
    → (c : ℕ) × (cs : Text) × (digits f n rest ≡ c ∷ cs) × ((c == b'+') ≡ false)
unfolding digits
digits-starts zero n rest h = absurd (omega arith)
digits-starts (suc f) n rest h = elim (dec_lt n 10) [
  | yes small ↦ (b'0' + n, rest, ground arith, ground arith)
  | no large ↦
      let (c, cs, e, s) = digits-starts f (n / 10) ((b'0' + n % 10) ∷ rest) (omega arith) in
      (c, cs, ground (arith, e), s)
]

parse-unsigned :
    (bound c : ℕ) (cs : Text)
    → (c == b'+') ≡ false
    → parse bound (c ∷ cs) ≡ parse_digits bound 0 (c ∷ cs)
unfolding parse
parse-unsigned bound c [] h = rw h
parse-unsigned bound c (d ∷ cs) h = rw h

pub parse-to_string : (bound n : ℕ) → n < bound → parse bound (to_string n) ≡ some n
unfolding to_string parse_digits
parse-to_string bound n lt =
    let (c, cs, e, s) = digits-starts (suc n) n [] (omega arith) in
    ap (parse bound) e
    ∙ parse-unsigned bound c cs s
    ∙ ap (parse_digits bound 0) (sym e)
    ∙ parse_digits-digits bound (suc n) n [] (omega arith) lt
