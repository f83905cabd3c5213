-- ===== src/Mqtt/Packet/Framing.antt =====
-- A packet that was written is read back, and what a reader refuses.
use Prim.Native.Nat.{bit_or}
use kiosk_mate.Common.{
  ℕ, ◌+◌, ◌*◌, ◌/◌, ◌%◌, ◌^◌, ◌<◌, ◌≡◌, refl, ap₂, inl, inr, Bool-cases, leb, ltb, if◌then◌else◌,
  List, [], ◌∷◌, ◌++◌, length, append_assoc, length-append, take-length_append, drop-length_append,
  ℤ, arith,
}
use kiosk_mate.Common.Bytes.{nibbles}
use kiosk_mate.Mqtt.Result.{Result, ok, err, exceeds_limit, malformed_length}
use kiosk_mate.Mqtt.Length.RoundTrip.{decode-encode, decode-encode_long}
use kiosk_mate.Mqtt.Packet.{write_packet, read_full, read_packet_limit, effective_limit}

read_full-append : (xs ys : List ℕ) → read_full (length xs) (xs ++ ys) ≡ ok (xs, ys)
unfolding read_full
read_full-append [] ys = refl
read_full-append (x ∷ xs) ys =
    ground (arith, length-append xs ys, take-length_append xs ys, drop-length_append xs ys)

packet_type-header : (t f : ℕ) → t < 16 → f < 16 → bit_or (t * 16 % 256) f / 16 ≡ t
packet_type-header t f p q =
    let x : ℕ = t * 16 + f in
    let high : t * 16 % 256 ≡ x / 16 * 16 = omega arith in
    let low : f ≡ x % 16 = omega arith in omega (arith, ap₂ (λ a b. bit_or a b) high low, nibbles x)

-- What a reader with this limit makes of the packet and of the bytes behind it.
abbrev pub framed : ℕ → ℕ → List ℕ → List ℕ → Result (ℕ × List ℕ × List ℕ)
framed limit packet_type payload rest =
    if leb (128 ^ 4) (length payload)
    then err malformed_length
    else if ltb limit (length payload)
    then err (exceeds_limit (length payload) limit)
    else ok (packet_type, payload, rest)

-- Reading what `write_packet` wrote returns the type, the payload and the bytes that follow, if the
-- payload is within the limit and below 128 ^ 4 bytes; else the packet is refused as malformed or
-- as over the limit, in this order.
pub read_packet-write_packet :
    (maximum : ℤ) (packet_type flags : ℕ) (payload rest : List ℕ)
    → packet_type < 16
    → flags < 16
    → read_packet_limit maximum (write_packet packet_type flags payload ++ rest)
      ≡ framed (effective_limit maximum) packet_type payload rest
unfolding read_packet_limit write_packet
read_packet-write_packet maximum t f payload rest ht hf =
    elim (Bool-cases (leb (128 ^ 4) (length payload))) [
      | inl long ↦
          rw (
            append_assoc,
            decode-encode_long (length payload) (payload ++ rest) (ground arith),
            long,
          )
      | inr short ↦
          rw (append_assoc, decode-encode (length payload) (payload ++ rest) (ground arith), short)
            (rw (packet_type-header t f ht hf, read_full-append payload rest) (ground arith))
    ]
