-- ===== src/Mqtt/Result.antt =====
-- The errors of internal/mqttclient/packet.go, as values.
use kiosk_mate.Common.{ℕ}

-- `eof` and `unexpected_eof` are those of `io.ReadFull`, which saw no byte or too few of them.
pub data PacketError : Type 0 where
  eof unexpected_eof : PacketError
  malformed_length : PacketError
  exceeds_limit : ℕ → ℕ → PacketError
  short_publish short_topic short_properties : PacketError

pub data Result {ℓ} (A : Type ℓ) : Type ℓ where
  ok : A → Result A
  err : PacketError → Result A

infixl 5 ◌>>=◌
abbrev pub ◌>>=◌ {ℓ κ} : {A : Type ℓ} {B : Type κ} → Result A → (A → Result B) → Result B
ok a >>= f = f a
err e >>= f = err e
