-- ===== src/Usernames.antt =====
-- backend/app/core/usernames.py: the public handle of an account, with `str.lower` as a parameter.
pub mod Shape
mod Tests
use opentheory.Base.{
  ℕ, zero, suc, ◌+◌, ◌-◌, ◌/◌, Bool, true, false, not, ◌&&◌, ◌||◌, Option, none, some, List, [],
  ◌∷◌, ◌++◌, ltb, leb, ◌==◌, if◌then◌else◌, length,
}
use opentheory.Base.Text.{Text, codes, text_eq, strip, strip_by}

-- `[a-z0-9_]`
abbrev pub is_allowed : ℕ → Bool
is_allowed c = leb 97 c && leb c 122 || leb 48 c && leb c 57 || c == 95

abbrev pub all_allowed : Text → Bool
all_allowed [] = true
all_allowed (c ∷ s) = is_allowed c && all_allowed s

-- `USERNAME_PATTERN`
unfoldable pub matches_pattern : Text → Bool
matches_pattern s = all_allowed s && (leb 3 (length s) && leb (length s) 30)

abbrev pub reserved_usernames : List Text
reserved_usernames =
    codes "me"
    ∷ codes "admin"
    ∷ codes "administrator"
    ∷ codes "system"
    ∷ codes "accounts"
    ∷ codes "account"
    ∷ codes "api"
    ∷ codes "anonymous"
    ∷ codes "owner"
    ∷ codes "support"
    ∷ codes "root"
    ∷ codes "null"
    ∷ codes "undefined"
    ∷ []

abbrev pub text_in : Text → List Text → Bool
text_in s [] = false
text_in s (t ∷ ts) = text_eq s t || text_in s ts

unfoldable pub is_reserved : Text → Bool
is_reserved s = text_in s reserved_usernames

-- `re.sub("[...]+", "_", s)`: every run of the characters becomes one underscore. The flag tells
-- whether a run has been written already.
unfoldable pub sub_runs : (ℕ → Bool) → Bool → Text → Text
sub_runs in_run started [] = []
sub_runs in_run started (c ∷ s) =
    let again = sub_runs in_run true s in
    let fresh = sub_runs in_run false s in
    if in_run c then (if started then again else 95 ∷ again) else c ∷ fresh

-- `_UNDERSCORE_RUN`
abbrev pub is_underscore : ℕ → Bool
is_underscore c = c == 95

-- `s or "user"`
abbrev pub or_user : Text → Text
or_user [] = codes "user"
or_user (c ∷ s) = c ∷ s

abbrev pub zeros : ℕ → Text
zeros zero = []
zeros (suc n) = 48 ∷ zeros n

-- `s.ljust(n, "0")`
abbrev pub ljust : ℕ → Text → Text
ljust n s = s ++ zeros (n - length s)

-- `s[:n]`
abbrev pub take : ℕ → Text → Text
take zero s = []
take (suc n) [] = []
take (suc n) (c ∷ s) = c ∷ take n s

abbrev pub or_empty_text : Option Text → Text
or_empty_text none = []
or_empty_text (some s) = s

abbrev pub pad : Text → Text
pad s = if ltb (length s) 3 then ljust 3 s else s

-- `s.split("@", 1)[0]` and `"@" in s`
abbrev pub before_at : Text → Text
before_at [] = []
before_at (c ∷ s) = let rest = before_at s in if c == 64 then [] else c ∷ rest

abbrev pub has_at : Text → Bool
has_at [] = false
has_at (c ∷ s) = c == 64 || has_at s

-- The first candidate that is there, not empty and not reserved.
abbrev pub first_free : List (Option Text) → Text
first_free [] = codes "user"
first_free (none ∷ rest) = first_free rest
first_free (some [] ∷ rest) = first_free rest
first_free (some (c ∷ s) ∷ rest) =
    let others = first_free rest in if is_reserved (c ∷ s) then others else c ∷ s

module _ (lower : Text → Text) where
  unfoldable pub normalize : Option Text → Text
  normalize raw =
      let s = lower (strip (or_empty_text raw)) in
      let allowed = sub_runs (λ c. not (is_allowed c)) false s in
      let trimmed = strip_by is_underscore (sub_runs is_underscore false allowed) in
      take 30 (pad (or_user trimmed))

  abbrev pub email_candidate : Option Text → Option Text
  email_candidate none = none
  email_candidate (some email) =
      if has_at email then some (normalize (some (before_at email))) else none

  abbrev pub name_candidate : Option Text → Option Text
  name_candidate (some (c ∷ s)) = some (normalize (some (c ∷ s)))
  name_candidate _ = none

  unfoldable pub base_from : Option Text → Option Text → Text
  base_from email display_name =
      first_free (email_candidate email ∷ name_candidate display_name ∷ [])

unfoldable pub is_valid_username : Text → Bool
is_valid_username value = matches_pattern value && not (is_reserved value)

abbrev pub max_one : ℕ → ℕ
max_one zero = 1
max_one (suc n) = suc n

unfoldable pub with_suffix : Text → Text → Text
with_suffix base suffix = take (max_one (30 - length suffix)) base ++ suffix
