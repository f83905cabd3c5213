-- ===== src/Examples/Updating.antt =====
-- The releases that a list offers.
use kiosk_mate.Common.{
  ◌≡◌, refl, true, false, List, [], ◌∷◌, codes, split, is_digit, atoi, to_lower,
}
use kiosk_mate.Versions.{
  Release, compare_version, before, after, order_text, order_parts, order_identifiers,
  prerelease_identifiers, version_parts, leading_number, core_of, label_of,
}

abbrev final : Release
final = record { tag_name = codes "v1.10.0"; draft = false; prerelease = false }

abbrev first : Release
first = record { tag_name = codes "v1.9.2"; draft = false; prerelease = false }

abbrev pushed_again : Release
pushed_again = record { tag_name = codes "v1.10.0-pre10"; draft = false; prerelease = true }

abbrev offered : List Release
offered = pushed_again ∷ first ∷ final ∷ []

part_numbers : compare_version (codes "1.10.0") (codes "v1.9.2") ≡ after
unfolding compare_version order_text order_parts order_identifiers prerelease_identifiers
    version_parts leading_number core_of label_of split is_digit
part_numbers = refl

pre_release_numbers : compare_version (codes "1.0.0-pre2") (codes "1.0.0-pre10") ≡ before
unfolding compare_version order_text order_parts order_identifiers prerelease_identifiers
    version_parts leading_number core_of label_of split is_digit atoi to_lower
pre_release_numbers = refl
