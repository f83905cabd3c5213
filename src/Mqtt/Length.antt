-- ===== src/Mqtt/Length.antt =====
-- The "remaining length" field of internal/mqttclient/packet.go: seven bits a byte, lowest group
-- first, in at most four bytes. A reader is the list of the bytes that it still delivers.
pub mod Groups
pub mod RoundTrip
use Prim.Native.Nat.{bit_and, bit_or}
use mathlib.Core.Logic.{dite}
use mathlib.Core.WellFounded.{Acc}
use kiosk_mate.Common.{
  ℕ, zero, suc, ◌+◌, ◌*◌, ◌/◌, ◌%◌, ◌<◌, List, [], ◌∷◌, ◌==◌, if◌then◌else◌, dec_lt, arith,
}
use kiosk_mate.Common.Bytes.{lt_wf}
use kiosk_mate.Mqtt.Result.{Result, ok, err, eof, malformed_length}

length_shrinks : (length : ℕ) → 0 < length / 128 → length / 128 < length
length_shrinks length h = omega arith

encode_loop : (length : ℕ) → Acc ◌<◌ length → List ℕ
encode_loop length (Acc.intro _ smaller) =
    let encoded = length % 128 in
    dite (dec_lt 0 (length / 128))
      (λ more.
        bit_or encoded 128
        ∷ encode_loop (length / 128) (smaller (length / 128) (length_shrinks length more)))
      (λ _. encoded ∷ [])

unfoldable pub encode_remaining_length : ℕ → List ℕ
unfolding encode_loop length_shrinks lt_wf dec_lt
encode_remaining_length length = encode_loop length (lt_wf.apply length)

-- The first argument counts the rounds that are left of the four.
unfoldable pub decode_loop : ℕ → ℕ → ℕ → List ℕ → Result (ℕ × List ℕ)
decode_loop zero multiplier value reader = err malformed_length
decode_loop (suc rounds) multiplier value [] = err eof
decode_loop (suc rounds) multiplier value (b ∷ reader) =
    let value' = value + bit_and b 127 * multiplier in
    let next = decode_loop rounds (multiplier * 128) value' reader in
    if bit_and b 128 == 0 then ok (value', reader) else next

unfoldable pub decode_remaining_length : List ℕ → Result (ℕ × List ℕ)
unfolding decode_loop
decode_remaining_length reader = decode_loop 4 1 0 reader

-- The slice is walked: the list is `data[i:]`, and the result is the value and the bytes used.
decode_bytes_loop : ℕ → ℕ → ℕ → ℕ → List ℕ → Result (ℕ × ℕ)
decode_bytes_loop zero i multiplier value rest = err malformed_length
decode_bytes_loop (suc rounds) i multiplier value [] = err malformed_length
decode_bytes_loop (suc rounds) i multiplier value (b ∷ rest) =
    let value' = value + bit_and b 127 * multiplier in
    let next = decode_bytes_loop rounds (i + 1) (multiplier * 128) value' rest in
    if bit_and b 128 == 0 then ok (value', i + 1) else next

unfoldable pub decode_remaining_length_bytes : List ℕ → Result (ℕ × ℕ)
unfolding decode_bytes_loop
decode_remaining_length_bytes bytes = decode_bytes_loop 4 0 1 0 bytes
