-- ===== src/Versions.antt =====
-- The order of versions and the choice of a release: `compareVersion` and what it calls, and
-- `newestRelease`, of internal/updater/updater.go. The source answers with a number whose sign is the
-- order. The numbers of a version are int64, kept here as their 64 bits, and wrap around as in the source.
pub mod Preorder
pub mod Newest
use kiosk_mate.Common.{
  ℕ, ◌+◌, ◌-◌, ◌*◌, ◌%◌, ◌^◌, Bool, true, false, not, ◌&&◌, ◌||◌, Option, none, some, List, [], ◌∷◌,
  ◌++◌, ◌==◌, ltb, if◌then◌else◌, Text, codes, is_digit, atoi, split, to_lower, ℤ, pos, ltb_ℤ,
}
use kiosk_mate.Config.Pages.{is_empty}

pub data Order : Type 0 where
  before same after : Order

abbrev pub order_of : Bool → Bool → Order
order_of true later = before
order_of false true = after
order_of false false = same

-- The second answer counts if the first one is `same`.
infixr 30 ◌then_by◌
abbrev pub ◌then_by◌ : Order → Order → Order
same then_by y = y
before then_by y = before
after then_by y = after

abbrev pub order_ℕ : ℕ → ℕ → Order
order_ℕ a b = order_of (ltb a b) (ltb b a)

abbrev pub order_ℤ : ℤ → ℤ → Order
order_ℤ a b = order_of (ltb_ℤ a b) (ltb_ℤ b a)

-- `strings.Compare`
unfoldable pub order_text : Text → Text → Order
order_text [] [] = same
order_text [] (b ∷ t) = before
order_text (a ∷ s) [] = after
order_text (a ∷ s) (b ∷ t) = order_ℕ a b then_by order_text s t

-- `strings.TrimPrefix(version, "v")`
abbrev pub without_v : Text → Text
without_v [] = []
without_v (c ∷ s) = if c == b'v' then s else c ∷ s

abbrev pub is_mark : ℕ → Bool
is_mark c = c == b'-' || c == b'~'

-- The text before the first '-' or '~', and the text behind it.
unfoldable pub core_of : Text → Text
core_of [] = []
core_of (c ∷ s) = let rest = core_of s in if is_mark c then [] else c ∷ rest

unfoldable pub label_of : Text → Option Text
label_of [] = none
label_of (c ∷ s) = let rest = label_of s in if is_mark c then some s else rest

-- The digits that a field begins with.
unfoldable pub leading_number : ℕ → Text → ℕ
leading_number n [] = n
leading_number n (c ∷ s) =
    let rest = leading_number ((n * 10 + (c - b'0')) % 2 ^ 64) s in if is_digit c then rest else n

leading_numbers : List Text → List ℕ
unfolding leading_number
leading_numbers [] = []
leading_numbers (field ∷ fields) = leading_number 0 field ∷ leading_numbers fields

unfoldable pub version_parts : Text → List ℕ
unfolding leading_numbers core_of
version_parts version = leading_numbers (split b'.' (core_of (without_v version)))

-- The sign of the difference of two int64, which wraps around.
abbrev pub order_difference : ℕ → ℕ → Order
order_difference a b =
    let difference = (a + 2 ^ 64 - b) % 2 ^ 64 in
    if difference == 0 then same else if ltb difference (2 ^ 63) then after else before

-- A part that is missing counts as 0.
unfoldable pub order_parts : List ℕ → List ℕ → Order
order_parts [] [] = same
order_parts [] (b ∷ bs) = order_difference 0 b then_by order_parts [] bs
order_parts (a ∷ as') [] = order_difference a 0 then_by order_parts as' []
order_parts (a ∷ as') (b ∷ bs) = order_difference a b then_by order_parts as' bs

-- The fields between dots and dashes, without empty ones; `field` is the one that is read.
fields_from : Text → Text → List Text
fields_from field [] = if is_empty field then [] else field ∷ []
fields_from field (c ∷ s) =
    let rest = fields_from [] s in
    let longer = fields_from (field ++ c ∷ []) s in
    if c == b'.' || c == b'-' then (if is_empty field then rest else field ∷ rest) else longer

word_of : Text → Text
word_of [] = []
word_of (c ∷ s) = let rest = word_of s in if is_digit c then [] else c ∷ rest

from_digit : Text → Text
from_digit [] = []
from_digit (c ∷ s) = let rest = from_digit s in if is_digit c then c ∷ s else rest

all_digits : Text → Bool
all_digits [] = true
all_digits (c ∷ s) = is_digit c && all_digits s

-- A number glued to a word is an identifier of its own.
identifiers : List Text → List Text
unfolding word_of from_digit all_digits
identifiers [] = []
identifiers (field ∷ fields) =
    let rest = identifiers fields in
    if not (is_empty (word_of field))
      && not (is_empty (from_digit field))
      && all_digits (from_digit field)
    then to_lower (word_of field) ∷ from_digit field ∷ rest
    else to_lower field ∷ rest

unfoldable pub prerelease_identifiers : Text → List Text
unfolding identifiers fields_from
prerelease_identifiers label = identifiers (fields_from [] label)

-- Numbers stand before words; they have no sign, so their difference does not overflow.
abbrev pub order_read : Option ℤ → Option ℤ → Text → Text → Order
order_read (some a) (some b) s t = order_ℤ a b
order_read (some a) none s t = before
order_read none (some b) s t = after
order_read none none s t = order_text s t

unfoldable pub order_identifiers : List Text → List Text → Order
order_identifiers [] [] = same
order_identifiers [] (t ∷ ts) = before
order_identifiers (s ∷ ss) [] = after
order_identifiers (s ∷ ss) (t ∷ ts) =
    order_read (atoi s) (atoi t) s t then_by order_identifiers ss ts

abbrev pub order_labels : Option Text → Option Text → Order
order_labels none none = same
order_labels (some s) none = before
order_labels none (some t) = after
order_labels (some s) (some t) =
    order_identifiers (prerelease_identifiers s) (prerelease_identifiers t)

unfoldable pub compare_version : Text → Text → Order
compare_version left right =
    order_parts (version_parts left) (version_parts right)
    then_by order_labels (label_of (without_v left)) (label_of (without_v right))

pub record Release : Type 0 where
  pub tag_name : Text
  pub draft : Bool
  pub prerelease : Bool

abbrev pub is_candidate : Bool → Release → Bool
is_candidate prereleases r = not (r.draft || (r.prerelease && not prereleases))

abbrev pub compare_release : Release → Release → Order
compare_release a b = compare_version (without_v a.tag_name) (without_v b.tag_name)

abbrev pub newer : Release → Option Release → Option Release
newer r none = some r
newer r (some best) = elim (compare_release r best) [ after ↦ some r | _ ↦ some best ]

unfoldable pub newest_from : Bool → List Release → Option Release → Option Release
newest_from prereleases [] best = best
newest_from prereleases (r ∷ releases) best =
    newest_from prereleases releases (if is_candidate prereleases r then newer r best else best)

unfoldable pub newest_release : List Release → Bool → Option Release
unfolding newest_from
newest_release releases prereleases = newest_from prereleases releases none
