-- ===== src/Common/Bytes.antt =====
-- Facts about bytes and masks, each a table checked by evaluation, and `<` as a well-founded order.
use Prim.Native.Nat.{ℕ, zero, suc, ◌+◌, ◌*◌, ◌/◌, ◌%◌, ◌<◌, bit_and, bit_or}
use mathlib.Core.Path.{◌≡◌, refl}
use mathlib.Core.Bool.{Bool, true, ◌&&◌}
use mathlib.Core.WellFounded.{Acc, WellFounded}
use native.Mathlib.Omega.{arith}
use kiosk_mate.Common.Tests.{◌==◌, ==_iff}

abbrev pub IsByte : ℕ → Type 0
IsByte b = b < 256

holds_below : (ℕ → Bool) → ℕ → Bool
holds_below p zero = true
holds_below p (suc n) = p n && holds_below p n

holds_below→holds : (p : ℕ → Bool) (n i : ℕ) → holds_below p n ≡ true → i < n → p i ≡ true
unfolding holds_below
holds_below→holds p zero i e h = absurd (omega arith)
holds_below→holds p (suc n) i e h = ground (arith, holds_below→holds p n i)

module _ (f g : ℕ → ℕ) where
  same : ℕ → Bool
  same i = f i == g i

  agree : (n i : ℕ) → holds_below same n ≡ true → i < n → f i ≡ g i
  unfolding same
  agree n i e h = (==_iff (f i) (g i)).0 (holds_below→holds same n i e h)

pub low_bits : (b : ℕ) → IsByte b → bit_and b 127 ≡ b % 128
unfolding holds_below same
low_bits b = agree (λ x. bit_and x 127) (λ x. x % 128) 256 b refl

pub top_bit : (b : ℕ) → IsByte b → bit_and b 128 ≡ b / 128 * 128
unfolding holds_below same
top_bit b = agree (λ x. bit_and x 128) (λ x. x / 128 * 128) 256 b refl

pub set_top_bit : (b : ℕ) → b < 128 → bit_or b 128 ≡ b + 128
unfolding holds_below same
set_top_bit b = agree (λ x. bit_or x 128) (λ x. x + 128) 128 b refl

-- The high nibble of a byte survives an `|` with a low nibble.
pub nibbles : (x : ℕ) → IsByte x → bit_or (x / 16 * 16) (x % 16) ≡ x
unfolding holds_below same
nibbles x = agree (λ y. bit_or (y / 16 * 16) (y % 16)) (λ y. y) 256 x refl

below-Acc : (k n : ℕ) → n < k → Acc ◌<◌ n
below-Acc zero n h = absurd (omega arith)
below-Acc (suc k) n h = Acc.intro n (λ m hm. below-Acc k m (omega arith))

unfoldable pub lt_wf : WellFounded ◌<◌
unfolding below-Acc
lt_wf = record { apply = λ n. below-Acc (suc n) n (omega arith) }
