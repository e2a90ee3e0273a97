-- ===== src/Usernames/Tests.antt =====
-- Handles of concrete accounts; for the runs, lowering turns the letters A to Z.
use opentheory.Base.{◌+◌, ◌≡◌, refl, true, ◌&&◌, some, [], ◌∷◌, leb, if◌then◌else◌}
use opentheory.Base.Text.{Text, codes, strip, strip_by, strip_left}
use opentheory.Usernames.{
  is_reserved, sub_runs, normalize, base_from, is_valid_username, with_suffix,
}
use opentheory.Usernames.Shape.{base_from_valid}

abbrev lower : Text → Text
lower [] = []
lower (c ∷ s) = (if leb 65 c && leb c 90 then c + 32 else c) ∷ lower s

normalize_run : normalize lower (some (codes " Ada--Lovelace! ")) ≡ codes "ada_lovelace"
unfolding normalize sub_runs strip_by strip strip_left
normalize_run = refl

admin_falls_through :
    base_from lower (some (codes "Admin@example.org")) (some (codes "X")) ≡ codes "x00"
unfolding base_from normalize sub_runs strip_by strip strip_left is_reserved
admin_falls_through = refl

suffix_run : with_suffix (codes "ada") (codes "12") ≡ codes "ada12"
unfolding with_suffix
suffix_run = refl

base_from_valid_example :
    is_valid_username (base_from lower (some (codes "Admin@example.org")) (some (codes "X"))) ≡ true
base_from_valid_example =
    base_from_valid lower (some (codes "Admin@example.org")) (some (codes "X"))
