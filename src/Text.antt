-- ===== src/Text.antt =====
-- The text functions of Rust's standard library that the code calls: `to_string` and `parse` of integers,
-- `join` and `split`. A text is the list of its characters' codes.
pub mod Decimal
pub mod Split
use Prim.Native.Char.{code}
use mathlib.Core.Option
use handoff.Integer.{ℤ, pos, negsuc}
use handoff.Prelude.{
  ℕ, zero, suc, ◌+◌, ◌-◌, ◌*◌, ◌/◌, ◌%◌, Bool, true, false, ◌^◌, ◌&&◌, ◌||◌, String, Option, none,
  some, List, [], ◌∷◌, ◌++◌, ltb, leb, ◌==◌, if◌then◌else◌,
}

abbrev pub Text : Type 0
Text = List ℕ

abbrev pub same : Text → Text → Bool
same [] [] = true
same (c ∷ cs) (d ∷ ds) = c == d && same cs ds
same _ _ = false

-- A literal's characters.
abbrev pub text : String → Text
text String.[] = []
text (String.◌∷◌ c s) = code c ∷ text s

-- `char::is_whitespace`
abbrev pub is_whitespace : ℕ → Bool
is_whitespace c =
    leb 9 c && leb c 13
    || (c == 32
        || (c == 133
            || (c == 160
                || (c == 5760
                    || (leb 8192 c && leb c 8202
                        || (c == 8232
                            || (c == 8233 || (c == 8239 || (c == 8287 || c == 12288)))))))))

unfoldable pub trim_start : Text → Text
trim_start [] = []
trim_start (c ∷ cs) = let rest = trim_start cs in if is_whitespace c then rest else c ∷ cs

-- Without the whitespace at its end.
unfoldable pub trim_end : Text → Text
trim_end [] = []
trim_end (c ∷ cs) = elim (trim_end cs) [
  | [] ↦ if is_whitespace c then [] else c ∷ []
  | d ∷ ds ↦ c ∷ d ∷ ds
]

abbrev pub trim : Text → Text
trim s = trim_end (trim_start s)

-- The digits of `n` in front of `rest`, on fuel.
unfoldable pub digits : ℕ → ℕ → Text → Text
digits zero n rest = rest
digits (suc f) n rest =
    let more = digits f (n / 10) ((b'0' + n % 10) ∷ rest) in
    if ltb n 10 then (b'0' + n) ∷ rest else more

unfoldable pub to_string : ℕ → Text
to_string n = digits (suc n) n []

abbrev pub is_digit : ℕ → Bool
is_digit c = leb b'0' c && leb c b'9'

-- The rest of a number below `bound` whose digits so far make `n`.
unfoldable pub parse_digits : (bound n : ℕ) → Text → Option ℕ
parse_digits bound n [] = some n
parse_digits bound n (c ∷ cs) =
    let v = n * 10 + (c - b'0') in
    let rest = parse_digits bound v cs in if is_digit c && ltb v bound then rest else none

-- `parse` of an unsigned integer type with the values below `bound`.
unfoldable pub parse : (bound : ℕ) → Text → Option ℕ
parse bound [] = none
parse bound (c ∷ []) = if c == b'+' then none else parse_digits bound 0 (c ∷ [])
parse bound (c ∷ d ∷ cs) =
    if c == b'+' then parse_digits bound 0 (d ∷ cs) else parse_digits bound 0 (c ∷ d ∷ cs)

abbrev pub extend : ℕ → List Text → List Text
extend c [] = (c ∷ []) ∷ []
extend c (w ∷ ws) = (c ∷ w) ∷ ws

-- `split` at a character; a text without it is one part.
unfoldable pub split : (sep : ℕ) → Text → List Text
split sep [] = [] ∷ []
split sep (c ∷ cs) = let rest = split sep cs in if c == sep then [] ∷ rest else extend c rest

unfoldable pub join : (sep : ℕ) → List Text → Text
join sep [] = []
join sep (w ∷ []) = w
join sep (w ∷ v ∷ vs) = w ++ (sep ∷ join sep (v ∷ vs))

abbrev pub minus : ℕ → ℤ
minus zero = pos zero
minus (suc n) = negsuc n

-- `parse` of an `i32`.
unfoldable pub parse_i32 : Text → Option ℤ
parse_i32 (c ∷ d ∷ cs) =
    if c == b'-'
    then Option.map minus (parse_digits (2 ^ 31 + 1) 0 (d ∷ cs))
    else Option.map pos (parse (2 ^ 31) (c ∷ d ∷ cs))
parse_i32 cs = Option.map pos (parse (2 ^ 31) cs)
