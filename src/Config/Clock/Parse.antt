-- ===== src/Config/Clock/Parse.antt =====
-- What the clock parsers accept, and how they agree.
use kiosk_mate.Common.{
  ℕ, ◌*◌, ◌<◌, ◌≡◌, refl, true, Option, none, some, List, [], ◌∷◌, Text, trim_space, split, atoi, ℤ,
  pos, negsuc, arith,
}
use kiosk_mate.Config.Clock.{
  day_minute, two_parts, two_or_three_parts, insert_clock, parse_clock, valid_clock, strict_parts,
  is_some,
}

day_minute_bound : (h m : Option ℤ) {n : ℕ} → day_minute h m ≡ some n → n < 24 * 60
day_minute_bound (some (pos h)) (some (pos m)) e = ground arith
day_minute_bound (some (pos h)) (some (negsuc m)) e = cc
day_minute_bound (some (pos h)) none e = cc
day_minute_bound (some (negsuc h)) m e = cc
day_minute_bound none m e = cc

extends : (parts : List Text) {n : ℕ} → two_parts parts ≡ some n → two_or_three_parts parts ≡ some n
extends (h ∷ m ∷ []) e = e
extends [] e = cc
extends (h ∷ []) e = cc
extends (h ∷ m ∷ s ∷ r) e = cc

three_bound : (parts : List Text) {n : ℕ} → two_or_three_parts parts ≡ some n → n < 24 * 60
three_bound (h ∷ m ∷ []) e = day_minute_bound (atoi h) (atoi m) e
three_bound (h ∷ m ∷ s ∷ []) e = day_minute_bound (atoi h) (atoi m) e
three_bound [] e = cc
three_bound (h ∷ []) e = cc
three_bound (h ∷ m ∷ s ∷ r ∷ rs) e = cc

strict : (parts : List Text) → strict_parts parts ≡ true → (n : ℕ) × (two_parts parts ≡ some n)
strict (h ∷ m ∷ []) e = some_of (day_minute (atoi h) (atoi m)) (ground arith)
  where
    some_of : (o : Option ℕ) → is_some o ≡ true → (n : ℕ) × (o ≡ some n)
    some_of none k = cc
    some_of (some n) k = (n, refl)
strict [] e = cc
strict (h ∷ []) e = cc
strict (h ∷ m ∷ s ∷ r) e = cc

two_bound : (parts : List Text) {n : ℕ} → two_parts parts ≡ some n → n < 24 * 60
two_bound parts e = three_bound parts (extends parts e)

pub insert_clock-lt : (value : Text) (n : ℕ) → insert_clock value ≡ some n → n < 24 * 60
unfolding insert_clock
insert_clock-lt value n e = two_bound (split b':' (trim_space value)) e

-- A clock text that the configuration accepts is read by both readers, the inserts' and the
-- scheduler's, as the same minute of the day, below 1440; and what the inserts' reader reads, the
-- scheduler's reads too.
pub clocks_agree :
    (value : Text)
    → (valid_clock value ≡ true
        → (n : ℕ) × (insert_clock value ≡ some n) × (parse_clock value ≡ some n) × (n < 24 * 60))
      × ((n : ℕ) → insert_clock value ≡ some n → parse_clock value ≡ some n)
unfolding valid_clock insert_clock parse_clock
clocks_agree value =
    let parts = split b':' (trim_space value) in
    (
      λ e.
          let (n, read) = strict parts e in
          (n, read, extends parts read, three_bound parts (extends parts read)),
      λ n e. extends parts e,
    )
