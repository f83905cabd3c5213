-- ===== src/Common/Numbers.antt =====
-- What the code uses of Go's `strconv` and of `strings.Split`.
use Prim.Native.Nat.{ℕ, ◌+◌, ◌-◌, ◌*◌, ◌^◌}
use mathlib.Core.Bool.{Bool, ◌&&◌}
use mathlib.Core.Option.{Option, none, some}
use mathlib.Core.List.{List, [], ◌∷◌}
use kiosk_mate.Common.Tests.{◌==◌, leb, ltb, if◌then◌else◌}
use kiosk_mate.Common.Int.{ℤ, pos, sub_ℕ}
use kiosk_mate.Common.Texts.{Text}

unfoldable pub is_digit : ℕ → Bool
is_digit c = leb b'0' c && leb c b'9'

-- The value of a run of digits, behind the value of those read before.
unfoldable pub digits_value : ℕ → Text → Option ℕ
unfolding is_digit
digits_value n [] = some n
digits_value n (c ∷ s) =
    let rest = digits_value (n * 10 + (c - b'0')) s in if is_digit c then rest else none

unfoldable pub unsigned : Text → Option ℕ
unfolding digits_value
unsigned [] = none
unsigned (c ∷ s) = digits_value 0 (c ∷ s)

positive_in_range : Option ℕ → Option ℤ
positive_in_range none = none
positive_in_range (some n) = if ltb n (2 ^ 63) then some (pos n) else none

negative_in_range : Option ℕ → Option ℤ
negative_in_range none = none
negative_in_range (some n) = if leb n (2 ^ 63) then some (sub_ℕ 0 n) else none

-- `strconv.Atoi`; `none` is an error.
unfoldable pub atoi : Text → Option ℤ
unfolding unsigned positive_in_range negative_in_range
atoi [] = none
atoi (c ∷ s) =
    if c == b'-'
    then negative_in_range (unsigned s)
    else if c == b'+'
    then positive_in_range (unsigned s)
    else positive_in_range (unsigned (c ∷ s))

prepend : ℕ → List Text → List Text
prepend c [] = (c ∷ []) ∷ []
prepend c (part ∷ parts) = (c ∷ part) ∷ parts

-- `strings.Split` at one character.
unfoldable pub split : ℕ → Text → List Text
unfolding prepend
split separator [] = [] ∷ []
split separator (c ∷ s) =
    let parts = split separator s in if c == separator then [] ∷ parts else prepend c parts
