-- ===== src/Base/Text/Parts.antt =====
-- Splitting a text that was joined by `"; "`, and searching for a substring.
use opentheory.Base.{
  ℕ, ◌≡◌, refl, ◌∙◌, sym, ap, inl, inr, Bool, true, false, ◌||◌, List, [], ◌∷◌, ◌++◌, map, arith,
  ◌==◌, All, Bool-cases,
}
use mathlib.Core.List.{append-nil}
use opentheory.Base.Text.{
  Text, codes, is_space, strip, strip_by, strip_left, starts_with, contains, split, join,
}
use opentheory.Base.Text.Decimal.{strip_none}

split_none : (sep : ℕ) (s : Text) → All (λ c. (c == sep) ≡ false) s → split sep s ≡ s ∷ []
unfolding split
split_none sep [] h = refl
split_none sep (c ∷ s) h = rw (h.0, split_none sep s h.1)

split-append :
    (sep : ℕ) (s rest : Text)
    → All (λ c. (c == sep) ≡ false) s
    → split sep (s ++ (sep ∷ rest)) ≡ s ∷ split sep rest
unfolding split
split-append sep [] rest h = ground arith
split-append sep (c ∷ s) rest h = rw (h.0, split-append sep s rest h.1)

-- No white space and no semicolon.
abbrev pub IsToken : Text → Type 0
IsToken s = All (λ c. (is_space c || c == b';') ≡ false) s

token_no_sep : (s : Text) → IsToken s → All (λ c. (c == b';') ≡ false) s
token_no_sep [] h = tt
token_no_sep (c ∷ s) h = (ground arith, token_no_sep s h.1)

token_no_space : (s : Text) → IsToken s → All (λ c. is_space c ≡ false) s
token_no_space [] h = tt
token_no_space (c ∷ s) h = (ground arith, token_no_space s h.1)

strip_space : (s : Text) → strip (b' ' ∷ s) ≡ strip s
unfolding strip strip_by strip_left
strip_space s = refl

abbrev after_space : Text → Text
after_space s = b' ' ∷ s

join_space :
    (q : Text) (ps : List Text)
    → join (codes "; ") (after_space q ∷ ps) ≡ b' ' ∷ join (codes "; ") (q ∷ ps)
unfolding join
join_space q [] = refl
join_space q (r ∷ ps) = refl

abbrev HasNoSep : Text → Type 0
HasNoSep s = All (λ c. (c == b';') ≡ false) s

split-join :
    (p : Text) (ps : List Text)
    → HasNoSep p
    → All IsToken ps
    → split b';' (join (codes "; ") (p ∷ ps)) ≡ p ∷ map after_space ps
unfolding join
split-join p [] h hs = split_none b';' p h
split-join p (q ∷ ps) h hs =
    split-append b';' p (b' ' ∷ join (codes "; ") (q ∷ ps)) h
    ∙ ap (λ rest. p ∷ rest)
        (ap (split b';') (sym (join_space q ps))
          ∙ split-join (after_space q) ps (refl, token_no_sep q hs.0) hs.1)

map-strip : (ps : List Text) → All IsToken ps → map strip (map after_space ps) ≡ ps
map-strip [] h = refl
map-strip (p ∷ ps) h = rw (strip_space p, strip_none p (token_no_space p h.0), map-strip ps h.1)

-- Splitting at the semicolons and stripping each part gives back the tokens that were joined.
pub map-strip-split :
    (p : Text) (ps : List Text)
    → IsToken p
    → All IsToken ps
    → map strip (split b';' (join (codes "; ") (p ∷ ps))) ≡ p ∷ ps
map-strip-split p ps h hs =
    rw (split-join p ps (token_no_sep p h) hs, strip_none p (token_no_space p h), map-strip ps hs)

-- A text that avoids the first character of `p` can be skipped in the search for `p`.
pub contains-append :
    (c : ℕ) (p s t : Text)
    → All (λ d. (d == c) ≡ false) s
    → contains (c ∷ p) (s ++ t) ≡ contains (c ∷ p) t
unfolding contains
contains-append c p [] t h = refl
contains-append c p (d ∷ s) t h = rw (contains-append c p s t h.1) (ground (arith, h.0))

-- Every character of a prefix stands in the text.
starts_with-All :
    (good : ℕ → Bool) (p s : Text)
    → All (λ c. good c ≡ true) s
    → starts_with p s ≡ true
    → All (λ c. good c ≡ true) p
starts_with-All good [] s h e = tt
starts_with-All good (c ∷ p) [] h e = cc
starts_with-All good (c ∷ p) (d ∷ s) h e =
    (ground (arith, h.0), starts_with-All good p s h.1 (ground arith))

pub contains_alien :
    (good : ℕ → Bool) (p s : Text)
    → All (λ c. good c ≡ true) s
    → ¬ (All (λ c. good c ≡ true) p)
    → contains p s ≡ false
unfolding contains
contains_alien good p [] h alien = elim (Bool-cases (starts_with p [])) [
  | inl found ↦ absurd (alien (starts_with-All good p [] h found))
  | inr missing ↦ missing
]
contains_alien good p (c ∷ s) h alien = elim (Bool-cases (starts_with p (c ∷ s))) [
  | inl found ↦ absurd (alien (starts_with-All good p (c ∷ s) h found))
  | inr missing ↦ rw missing (contains_alien good p s h.1 alien)
]

-- `join` as a sequence of separated parts, the first one apart.
abbrev pub tail : List Text → Text
tail [] = []
tail (q ∷ qs) = b';' ∷ b' ' ∷ (q ++ tail qs)

pub join-tail : (p : Text) (ps : List Text) → join (codes "; ") (p ∷ ps) ≡ p ++ tail ps
unfolding join
join-tail p [] = sym (append-nil p)
join-tail p (q ∷ ps) = ap (λ rest. p ++ (b';' ∷ b' ' ∷ rest)) (join-tail q ps)
