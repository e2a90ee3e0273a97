-- ===== src/Usernames/Shape.antt =====
-- The shape of generated handles, for backend/app/core/usernames.py.
use opentheory.Base.{
  ℕ, zero, suc, ◌+◌, ◌-◌, ◌≤◌, ◌<◌, ◌≡◌, refl, ap, ◌⊎◌, inl, inr, Bool, true, false, not, Option,
  none, some, [], ◌∷◌, ◌++◌, arith, ltb, leb, if◌then◌else◌, Bool-cases, length, length-append, All,
  All-append,
}
use mathlib.Core.List.{reverse, reverse-append}
use opentheory.Base.Text.{Text, codes, strip, strip_by, strip_left}
use opentheory.Usernames.{
  is_allowed, all_allowed, matches_pattern, is_reserved, sub_runs, is_underscore, or_user, zeros,
  take, or_empty_text, pad, before_at, has_at, normalize, email_candidate, name_candidate,
  first_free, base_from, is_valid_username, max_one, with_suffix,
}

abbrev pub IsAllowed : Text → Type 0
IsAllowed s = All (λ c. is_allowed c ≡ true) s

sub_runs-IsAllowed :
    (in_run : ℕ → Bool) (started : Bool) (s : Text)
    → All (λ c. in_run c ≡ false → is_allowed c ≡ true) s
    → IsAllowed (sub_runs in_run started s)
unfolding sub_runs
sub_runs-IsAllowed in_run started [] h = tt
sub_runs-IsAllowed in_run started (c ∷ s) h = elim (Bool-cases (in_run c)) [
  | inr out ↦ rw out (h.0 out, sub_runs-IsAllowed in_run false s h.1)
  | inl run ↦ elim (Bool-cases started) [
    | inl again ↦ rw (run, again) (sub_runs-IsAllowed in_run true s h.1)
    | inr first ↦ rw (run, first) (refl, sub_runs-IsAllowed in_run true s h.1)
  ]
]

only_allowed_left : (s : Text) → All (λ c. not (is_allowed c) ≡ false → is_allowed c ≡ true) s
only_allowed_left [] = tt
only_allowed_left (c ∷ s) = (not_not (is_allowed c), only_allowed_left s)
  where
    not_not : (b : Bool) → not b ≡ false → b ≡ true
    not_not true h = refl
    not_not false h = cc

weaken-IsAllowed :
    (in_run : ℕ → Bool) (s : Text)
    → IsAllowed s
    → All (λ c. in_run c ≡ false → is_allowed c ≡ true) s
weaken-IsAllowed in_run [] h = tt
weaken-IsAllowed in_run (c ∷ s) h = (λ out. h.0, weaken-IsAllowed in_run s h.1)

strip_left-IsAllowed : (drop : ℕ → Bool) (s : Text) → IsAllowed s → IsAllowed (strip_left drop s)
unfolding strip_left
strip_left-IsAllowed drop [] h = tt
strip_left-IsAllowed drop (c ∷ s) h = elim (Bool-cases (drop c)) [
  | inl gone ↦ rw gone (strip_left-IsAllowed drop s h.1)
  | inr kept ↦ rw kept h
]

reverse-IsAllowed : (s : Text) → IsAllowed s → IsAllowed (reverse s)
reverse-IsAllowed [] h = tt
reverse-IsAllowed (c ∷ s) h =
    rw (reverse-append (c ∷ []) s) (
      All-append (λ d. is_allowed d ≡ true) (reverse s) (c ∷ []) (reverse-IsAllowed s h.1)
        (h.0, tt))

strip_by-IsAllowed : (drop : ℕ → Bool) (s : Text) → IsAllowed s → IsAllowed (strip_by drop s)
unfolding strip_by
strip_by-IsAllowed drop s h =
    reverse-IsAllowed _
      (strip_left-IsAllowed drop _ (reverse-IsAllowed _ (strip_left-IsAllowed drop s h)))

or_user-IsAllowed : (s : Text) → IsAllowed s → IsAllowed (or_user s)
or_user-IsAllowed [] h = (refl, (refl, (refl, (refl, tt))))
or_user-IsAllowed (c ∷ s) h = h

zeros-IsAllowed : (n : ℕ) → IsAllowed (zeros n)
zeros-IsAllowed zero = tt
zeros-IsAllowed (suc n) = (refl, zeros-IsAllowed n)

length-zeros : (n : ℕ) → length (zeros n) ≡ n
length-zeros zero = refl
length-zeros (suc n) = omega (arith, length-zeros n)

pad_lem : (s : Text) → IsAllowed s → IsAllowed (pad s) × (3 ≤ length (pad s))
pad_lem s h = elim (Bool-cases (ltb (length s) 3)) [
  | inl short ↦
      let few : length s < 3 = ground arith in
      rw short (
        All-append (λ c. is_allowed c ≡ true) s (zeros (3 - length s)) h
            (zeros-IsAllowed (3 - length s)),
        omega (arith, length-append s (zeros (3 - length s)), length-zeros (3 - length s)),
      )
  | inr long ↦ (let many : 3 ≤ length s = ground arith in rw long (h, many))
]

take-IsAllowed : (n : ℕ) (s : Text) → IsAllowed s → IsAllowed (take n s)
take-IsAllowed zero s h = tt
take-IsAllowed (suc n) [] h = tt
take-IsAllowed (suc n) (c ∷ s) h = (h.0, take-IsAllowed n s h.1)

length-take :
    (n : ℕ) (s : Text)
    → (length (take n s) ≤ n) × ((length (take n s) ≡ n) ⊎ (length (take n s) ≡ length s))
length-take zero s = (omega arith, inl refl)
length-take (suc n) [] = (omega arith, inr refl)
length-take (suc n) (c ∷ s) =
    let rest = length-take n s in
    let few : length (take n s) ≤ n = rest.0 in
    (omega arith, elim rest.1 [ inl e ↦ inl (ap suc e) | inr e ↦ inr (ap suc e) ])

all_allowed_of : (s : Text) → IsAllowed s → all_allowed s ≡ true
all_allowed_of [] h = refl
all_allowed_of (c ∷ s) h = rw h.0 (all_allowed_of s h.1)

matches_of : (s : Text) → IsAllowed s → 3 ≤ length s → length s ≤ 30 → matches_pattern s ≡ true
unfolding matches_pattern
matches_of s h low high =
    let one : leb 3 (length s) ≡ true = ground arith in
    let two : leb (length s) 30 ≡ true = ground arith in rw (all_allowed_of s h, one, two) refl

-- Normalizing any text, or none, gives a text of the username pattern, whatever `lower` does.
normalize_matches :
    (lower : Text → Text) (raw : Option Text) → matches_pattern (normalize lower raw) ≡ true
unfolding normalize
normalize_matches lower raw =
    let s = lower (strip (or_empty_text raw)) in
    let allowed = sub_runs (λ c. not (is_allowed c)) false s in
    let ok_allowed = sub_runs-IsAllowed (λ c. not (is_allowed c)) false s (only_allowed_left s) in
    let collapsed = sub_runs is_underscore false allowed in
    let ok_collapsed =
      sub_runs-IsAllowed is_underscore false allowed
        (weaken-IsAllowed is_underscore allowed ok_allowed) in
    let body = or_user (strip_by is_underscore collapsed) in
    let ok_body = or_user-IsAllowed _ (strip_by-IsAllowed is_underscore collapsed ok_collapsed) in
    let padded = pad_lem body ok_body in
    let cut = length-take 30 (pad body) in
    let low : 3 ≤ length (pad body) = padded.1 in
    let high : length (take 30 (pad body)) ≤ 30 = cut.0 in
    matches_of (take 30 (pad body)) (take-IsAllowed 30 (pad body) padded.0)
      (elim cut.1 [ inl e ↦ omega arith | inr e ↦ omega arith ]) high

abbrev Matching : Option Text → Type 0
Matching none = Unit
Matching (some s) = matches_pattern s ≡ true

one_valid :
    (c : ℕ) (s rest : Text)
    → matches_pattern (c ∷ s) ≡ true
    → is_valid_username rest ≡ true
    → is_valid_username (if is_reserved (c ∷ s) then rest else c ∷ s) ≡ true
unfolding is_valid_username
one_valid c s rest h valid = elim (Bool-cases (is_reserved (c ∷ s))) [
  | inl taken ↦ rw taken valid
  | inr free ↦ rw free (rw (h, free) refl)
]

choose_last :
    (second : Option Text) → Matching second → is_valid_username (first_free (second ∷ [])) ≡ true
unfolding is_valid_username matches_pattern is_reserved
choose_last none h = refl
choose_last (some []) h = refl
choose_last (some (c ∷ s)) h = one_valid c s (codes "user") h refl

choose :
    (first second : Option Text)
    → Matching first
    → Matching second
    → is_valid_username (first_free (first ∷ second ∷ [])) ≡ true
choose none second h k = choose_last second k
choose (some []) second h k = choose_last second k
choose (some (c ∷ s)) second h k = one_valid c s (first_free (second ∷ [])) h (choose_last second k)

-- The base of a new account's handle is a valid username that is not reserved, whatever the address
-- and the display name are.
pub base_from_valid :
    (lower : Text → Text) (email display_name : Option Text)
    → is_valid_username (base_from lower email display_name) ≡ true
unfolding base_from
base_from_valid lower email display_name =
    choose (email_candidate lower email) (name_candidate lower display_name) (email_matches email)
      (name_matches display_name)
  where
    email_matches : (o : Option Text) → Matching (email_candidate lower o)
    email_matches none = tt
    email_matches (some e) = elim (Bool-cases (has_at e)) [
      | inl at_sign ↦ rw at_sign (normalize_matches lower (some (before_at e)))
      | inr plain ↦ rw plain tt
    ]

    name_matches : (o : Option Text) → Matching (name_candidate lower o)
    name_matches none = tt
    name_matches (some []) = tt
    name_matches (some (c ∷ s)) = normalize_matches lower (some (c ∷ s))

all_allowed-IsAllowed : (s : Text) → all_allowed s ≡ true → IsAllowed s
all_allowed-IsAllowed [] h = tt
all_allowed-IsAllowed (c ∷ s) h = elim (Bool-cases (is_allowed c)) [
  | inl good ↦ (good, all_allowed-IsAllowed s (rw good at h))
  | inr bad ↦ (let no_way : false ≡ true = rw bad at h in cc)
]

pattern_parts : (s : Text) → matches_pattern s ≡ true → IsAllowed s × (3 ≤ length s)
unfolding matches_pattern
pattern_parts s h = elim (Bool-cases (all_allowed s)) [
  | inr bad ↦ (let no_way : false ≡ true = rw bad at h in cc)
  | inl good ↦ elim (Bool-cases (leb 3 (length s))) [
    | inr short ↦ (let no_way : false ≡ true = rw (good, short) at h in cc)
    | inl long ↦ (all_allowed-IsAllowed s good, ground arith)
  ]
]

max_one_lem : (n : ℕ) → 1 ≤ n → max_one n ≡ n
max_one_lem zero h = omega (arith, h)
max_one_lem (suc n) h = refl

-- Appending a suffix of at most 29 allowed characters to a text of the username pattern gives one
-- again: what is cut from the base makes room for the whole suffix.
pub with_suffix_matches :
    (base suffix : Text)
    → matches_pattern base ≡ true
    → all_allowed suffix ≡ true
    → length suffix ≤ 29
    → matches_pattern (with_suffix base suffix) ≡ true
unfolding with_suffix
with_suffix_matches base suffix h allowed fits =
    let parts = pattern_parts base h in
    let room = max_one (30 - length suffix) in
    let cut = length-take room base in
    let few : length (take room base) ≤ room = cut.0 in
    let exact : room ≡ 30 - length suffix = max_one_lem (30 - length suffix) (omega arith) in
    let many : 3 ≤ length base = parts.1 in
    let total : length (take room base ++ suffix) ≡ length (take room base) + length suffix =
      length-append (take room base) suffix in
    matches_of (take room base ++ suffix)
      (All-append (λ c. is_allowed c ≡ true) (take room base) suffix
        (take-IsAllowed room base parts.0) (all_allowed-IsAllowed suffix allowed))
      (elim cut.1 [ inl e ↦ omega arith | inr e ↦ omega arith ]) (omega arith)
