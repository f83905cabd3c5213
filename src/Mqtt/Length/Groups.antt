-- ===== src/Mqtt/Length/Groups.antt =====
-- `encode_remaining_length` in plain arithmetic: the groups of seven bits of a length.
use mathlib.Core.WellFounded.{Acc}
use kiosk_mate.Common.{
  ℕ, zero, suc, ◌+◌, ◌/◌, ◌%◌, ◌^◌, ◌≤◌, ◌<◌, ◌≡◌, List, [], ◌∷◌, ltb, if◌then◌else◌, length, All,
  arith,
}
use kiosk_mate.Common.Bytes.{IsByte, set_top_bit, lt_wf}
use kiosk_mate.Mqtt.Length.{encode_loop, encode_remaining_length}

-- At most `k + 1` groups of `n`.
unfoldable pub groups : ℕ → ℕ → List ℕ
groups zero n = n % 128 ∷ []
groups (suc k) n =
    let rest = groups k (n / 128) in if ltb n 128 then n ∷ [] else (n % 128 + 128) ∷ rest

encode_loop-groups : (k n : ℕ) (w : Acc ◌<◌ n) → n < 128 ^ suc k → encode_loop n w ≡ groups k n
unfolding encode_loop groups
encode_loop-groups zero n (Acc.intro _ smaller) h = ground arith
encode_loop-groups (suc k) n (Acc.intro _ smaller) h = grind (
  arith,
  set_top_bit (n % 128),
  λ (w : Acc ◌<◌ (n / 128)). encode_loop-groups k (n / 128) w (omega arith),
)

pub encode_remaining_length-groups :
    (k n : ℕ) → n < 128 ^ suc k → encode_remaining_length n ≡ groups k n
unfolding encode_remaining_length
encode_remaining_length-groups k n h = encode_loop-groups k n (lt_wf.apply n) h

pub groups-IsByte : (k n : ℕ) → All IsByte (groups k n)
unfolding groups
groups-IsByte zero n = omega arith
groups-IsByte (suc k) n = ground (arith, groups-IsByte k (n / 128))

-- The number of groups is the least that holds the value.
pub length-groups : (k n : ℕ) → (1 ≤ length (groups k n)) × (length (groups k n) ≤ k + 1)
unfolding groups
length-groups zero n = omega arith
length-groups (suc k) n = ground (arith, length-groups k (n / 128))
