-- ===== src/Base/Text.antt =====
-- Python's `str` as a list of code points, with the methods that the services call on it, and
-- `str(int)` and `int(str)`.
pub mod Decimal
pub mod Parts
use Prim.Native.Nat.{ℕ, zero, suc, ◌+◌, ◌-◌, ◌*◌, ◌/◌, ◌%◌}
use Prim.Native.Char.{code}
use Prim.Native.String.{String}
use mathlib.Core.Bool.{Bool, true, false, ◌&&◌, ◌||◌}
use mathlib.Core.Path.{◌≡◌, refl}
use mathlib.Core.Option
use mathlib.Core.Option.{Option, none, some}
use mathlib.Core.List.{List, [], ◌∷◌, ◌++◌, reverse}
use opentheory.Base.Tests.{leb, ltb, ◌==◌, ==_refl, if◌then◌else◌}
use opentheory.Base.Lists.{elem}
use opentheory.Base.Int.{ℤ, pos, negsuc, neg}

abbrev pub Text : Type 0
Text = List ℕ

abbrev pub codes : String → Text
codes String.[] = []
codes (String.◌∷◌ c s) = code c ∷ codes s

abbrev pub text_eq : Text → Text → Bool
text_eq [] [] = true
text_eq (c ∷ s) (d ∷ t) = c == d && text_eq s t
text_eq _ _ = false

-- `a <= b` on texts, by code points.
abbrev pub text_le : Text → Text → Bool
text_le [] t = true
text_le (c ∷ s) [] = false
text_le (c ∷ s) (d ∷ t) = ltb c d || (c == d && text_le s t)

-- The code points for which `str.isspace` holds.
abbrev pub is_space : ℕ → Bool
is_space c =
    leb 9 c && leb c 13
    || leb 28 c && leb c 32
    || leb 8192 c && leb c 8202
    || elem c (133 ∷ 160 ∷ 5760 ∷ 8232 ∷ 8233 ∷ 8239 ∷ 8287 ∷ 12288 ∷ [])

-- `s.lstrip(chars)` where `drop` tells the characters to take off.
unfoldable pub strip_left : (ℕ → Bool) → Text → Text
strip_left drop [] = []
strip_left drop (c ∷ s) = let rest = strip_left drop s in if drop c then rest else c ∷ s

-- `s.strip(chars)`
unfoldable pub strip_by : (ℕ → Bool) → Text → Text
unfolding strip_left
strip_by drop s = reverse (strip_left drop (reverse (strip_left drop s)))

-- `s.strip()`
unfoldable pub strip : Text → Text
unfolding strip_by
strip s = strip_by is_space s

-- `s.startswith(p)`
abbrev pub starts_with : Text → Text → Bool
starts_with [] s = true
starts_with (c ∷ p) [] = false
starts_with (c ∷ p) (d ∷ s) = c == d && starts_with p s

-- `p in s`
unfoldable pub contains : Text → Text → Bool
contains p [] = starts_with p []
contains p (c ∷ s) = starts_with p (c ∷ s) || contains p s

-- `s[n:]`
abbrev pub drop : ℕ → Text → Text
drop zero s = s
drop (suc n) [] = []
drop (suc n) (c ∷ s) = drop n s

-- The part before the first `sep` is put in front of the parts of the rest.
abbrev pub extend_head : ℕ → List Text → List Text
extend_head c [] = (c ∷ []) ∷ []
extend_head c (p ∷ ps) = (c ∷ p) ∷ ps

-- `s.split(sep)`
unfoldable pub split : ℕ → Text → List Text
split sep [] = [] ∷ []
split sep (c ∷ s) = let rest = split sep s in if c == sep then [] ∷ rest else extend_head c rest

-- `sep.join(parts)`
unfoldable pub join : Text → List Text → Text
join sep [] = []
join sep (p ∷ []) = p
join sep (p ∷ q ∷ ps) = p ++ (sep ++ join sep (q ∷ ps))

abbrev pub is_digit : ℕ → Bool
is_digit c = leb 48 c && leb c 57

-- The digits of `n` in front of `acc`; `n + 1` rounds are enough.
unfoldable pub digits_onto : ℕ → ℕ → Text → Text
digits_onto zero n acc = acc
digits_onto (suc fuel) n acc =
    let more = digits_onto fuel (n / 10) ((48 + n % 10) ∷ acc) in
    if ltb n 10 then (48 + n) ∷ acc else more

unfoldable pub show_nat : ℕ → Text
unfolding digits_onto
show_nat n = digits_onto (n + 1) n []

-- `str(n)`
unfoldable pub show_int : ℤ → Text
unfolding show_nat
show_int (pos n) = show_nat n
show_int (negsuc n) = b'-' ∷ show_nat (suc n)

-- Decimal digits, a single `_` between two of them allowed; `after_digit` is about the last read.
unfoldable pub parse_digits : Bool → ℕ → Text → Option ℕ
parse_digits after_digit v [] = if after_digit then some v else none
parse_digits after_digit v (c ∷ s) =
    let rest = parse_digits (is_digit c) (if is_digit c then v * 10 + (c - 48) else v) s in
    if is_digit c || (after_digit && c == b'_') then rest else none

unfoldable pub parse_signed : Text → Option ℤ
parse_signed [] = none
parse_signed (c ∷ s) =
    if c == b'-'
    then Option.map (λ v. neg (pos v)) (parse_digits false 0 s)
    else if c == b'+'
    then Option.map pos (parse_digits false 0 s)
    else Option.map pos (parse_digits false 0 (c ∷ s))

-- `int(s)`, with `none` for the `ValueError`; ASCII digits only.
unfoldable pub parse_int : Text → Option ℤ
parse_int s = parse_signed (strip s)

pub text_eq_refl : (s : Text) → text_eq s s ≡ true
text_eq_refl [] = refl
text_eq_refl (c ∷ s) = rw (==_refl c) (text_eq_refl s)
