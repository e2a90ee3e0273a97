-- ===== src/Base/Text/Decimal.antt =====
-- `int(str(n))` gives `n` back, and what `str(n)` prints is a run of digits after an optional sign.
use Prim.Native.Nat.{ℕ, zero, suc, ◌+◌, ◌-◌, ◌*◌, ◌/◌, ◌%◌, ◌<◌}
use mathlib.Core.Path.{◌≡◌, refl, ◌∙◌}
use mathlib.Core.Logic.{inl, inr}
use mathlib.Core.Bool.{Bool, true, false}
use mathlib.Core.Option.{some}
use mathlib.Core.List.{[], ◌∷◌, reverse, reverse-append, reverse-reverse}
use native.Mathlib.Omega.{arith}
use opentheory.Base.Tests.{ltb, Bool-cases}
use opentheory.Base.Lists.{All, All-append}
use opentheory.Base.Int.{ℤ, pos, negsuc, neg}
use opentheory.Base.Text.{
  Text, is_space, is_digit, strip_left, strip_by, strip, digits_onto, show_nat, show_int,
  parse_digits, parse_signed, parse_int,
}

module _ (drop : ℕ → Bool) where
  strip_left_none : (s : Text) → All (λ c. drop c ≡ false) s → strip_left drop s ≡ s
  unfolding strip_left
  strip_left_none [] h = refl
  strip_left_none (c ∷ s) h = rw h.0

  All-reverse : (s : Text) → All (λ c. drop c ≡ false) s → All (λ c. drop c ≡ false) (reverse s)
  All-reverse [] h = tt
  All-reverse (c ∷ s) h =
      rw (reverse-append (c ∷ []) s)
        (All-append (λ c. drop c ≡ false) (reverse s) (c ∷ []) (All-reverse s h.1) (h.0, tt))

  -- A text with no character to take off is left alone.
  pub strip_by_none : (s : Text) → All (λ c. drop c ≡ false) s → strip_by drop s ≡ s
  unfolding strip_by
  strip_by_none s h =
      rw (strip_left_none s h, strip_left_none (reverse s) (All-reverse s h)) (reverse-reverse s)

abbrev pub IsDigits : Text → Type 0
IsDigits s = All (λ c. is_digit c ≡ true) s

digit_lem : (n : ℕ) → n < 10 → is_digit (48 + n) ≡ true
digit_lem n h = ground arith

digits_onto-IsDigits : (fuel n : ℕ) (acc : Text) → IsDigits acc → IsDigits (digits_onto fuel n acc)
unfolding digits_onto
digits_onto-IsDigits zero n acc h = h
digits_onto-IsDigits (suc fuel) n acc h = elim (Bool-cases (ltb n 10)) [
  | inl small ↦ rw small (digit_lem n (ground arith), h)
  | inr big ↦ rw big (
      digits_onto-IsDigits fuel (n / 10) ((48 + n % 10) ∷ acc)
        (digit_lem (n % 10) (omega arith), h))
]

pub show_nat-IsDigits : (n : ℕ) → IsDigits (show_nat n)
unfolding show_nat
show_nat-IsDigits n = digits_onto-IsDigits (n + 1) n [] tt

parse_one :
    (b : Bool) (v d w : ℕ) (acc : Text)
    → d < 10
    → v * 10 + d ≡ w
    → parse_digits b v ((48 + d) ∷ acc) ≡ parse_digits true w acc
unfolding parse_digits
parse_one b v d w acc h e =
    let same : v * 10 + (48 + d - 48) ≡ w = omega arith in rw (digit_lem d h, same)

parse_digits_onto :
    (fuel n : ℕ) (b : Bool) (acc : Text)
    → n < fuel
    → parse_digits b 0 (digits_onto fuel n acc) ≡ parse_digits true n acc
unfolding digits_onto
parse_digits_onto zero n b acc h = absurd (omega arith)
parse_digits_onto (suc fuel) n b acc h = elim (Bool-cases (ltb n 10)) [
  | inl small ↦ rw small (parse_one b 0 n n acc (ground arith) (omega arith))
  | inr big ↦ rw big (
      parse_digits_onto fuel (n / 10) b ((48 + n % 10) ∷ acc) (ground arith)
      ∙ parse_one true (n / 10) (n % 10) n acc (omega arith) (omega arith))
]

parse_show_nat : (n : ℕ) → parse_digits false 0 (show_nat n) ≡ some n
unfolding show_nat parse_digits
parse_show_nat n = parse_digits_onto (n + 1) n false [] (omega arith)

digit_not_space : (c : ℕ) → is_digit c ≡ true → is_space c ≡ false
digit_not_space c h = ground arith

digits_not_space : (s : Text) → IsDigits s → All (λ c. is_space c ≡ false) s
digits_not_space [] h = tt
digits_not_space (c ∷ s) h = (digit_not_space c h.0, digits_not_space s h.1)

-- An unsigned run of digits is read as its number.
parse_signed_digits :
    (s : Text) (n : ℕ)
    → IsDigits s
    → parse_digits false 0 s ≡ some n
    → parse_signed s ≡ some (pos n)
unfolding parse_signed parse_digits
parse_signed_digits [] n h e = cc
parse_signed_digits (c ∷ s) n h e = ground arith

pub strip_none : (s : Text) → All (λ c. is_space c ≡ false) s → strip s ≡ s
unfolding strip
strip_none s h = strip_by_none is_space s h

pub parse_show_int : (z : ℤ) → parse_int (show_int z) ≡ some z
unfolding parse_int show_int
parse_show_int (pos n) =
    rw (strip_none (show_nat n) (digits_not_space _ (show_nat-IsDigits n)))
      (parse_signed_digits (show_nat n) n (show_nat-IsDigits n) (parse_show_nat n))
parse_show_int (negsuc n) =
    let digits = show_nat-IsDigits (suc n) in
    rw (strip_none (b'-' ∷ show_nat (suc n)) (refl, digits_not_space _ digits))
      (unfold parse_signed neg in rw (parse_show_nat (suc n)) (ground arith))
