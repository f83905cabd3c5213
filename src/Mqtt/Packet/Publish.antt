-- ===== src/Mqtt/Packet/Publish.antt =====
-- PUBLISH: what `publish_payload` wrote, `parse_publish` takes apart again.
use kiosk_mate.Common.{
  ℕ, suc, ◌+◌, ◌*◌, ◌/◌, ◌%◌, ◌<◌, ◌≤◌, ◌≡◌, ◌↔◌, inl, inr, ◌∙◌, List, ◌∷◌, ◌++◌, length,
  Bool-cases, ◌==◌, if◌then◌else◌, length-append, length-take, take-length_append,
  drop-length_append, Text, arith,
}
use kiosk_mate.Mqtt.Result.{Result, ok, ◌>>=◌}
use kiosk_mate.Mqtt.Length.{decode_remaining_length_bytes}
use kiosk_mate.Mqtt.Packet.{protocol_level, publish_payload, parse_publish, skip_properties}

length_bytes : (n : ℕ) → n < 65536 → n % 65536 / 256 * 256 + n % 256 ≡ n
length_bytes n h = omega arith

-- A property length of 0, as `publish_payload` writes it, is skipped.
skip_no_properties : (body : List ℕ) → skip_properties (0 ∷ body) ≡ ok body
unfolding skip_properties decode_remaining_length_bytes
skip_no_properties body = ground arith

abbrev body_of : Text → List ℕ → Result (List ℕ)
body_of version body = if protocol_level version == 5 then skip_properties body else ok body

parse_publish_split :
    (hi lo : ℕ) (topic body : List ℕ) (version : Text)
    → hi * 256 + lo ≡ length topic
    → parse_publish (hi ∷ lo ∷ (topic ++ body)) version
      ≡ (body_of version body >>= λ b. ok (topic, b))
unfolding parse_publish
parse_publish_split hi lo topic body version e =
    let two : 2 + length topic ≡ suc (suc (length topic)) = omega arith in
    rw (e, two, take-length_append topic body, drop-length_append topic body)
      (ground (arith, length-append topic body))

-- PUBLISH comes back whole.
parse_published :
    (topic payload : List ℕ) (version : Text)
    → length topic < 65536
    → parse_publish (publish_payload topic payload version) version ≡ ok (topic, payload)
unfolding publish_payload
parse_published topic payload version h =
    parse_publish_split (length topic % 65536 / 256) (length topic % 256) topic _ version
      (length_bytes (length topic) h)
    ∙ elim (Bool-cases (protocol_level version == 5)) [
      | inl five ↦ rw (five, skip_no_properties payload)
      | inr other ↦ rw other
    ]

-- The topic of a parsed PUBLISH is as long as its two length bytes say, at most.
parsed_topic-le :
    (hi lo : ℕ) (rest : List ℕ) (version : Text) {topic body : List ℕ}
    → parse_publish (hi ∷ lo ∷ rest) version ≡ ok (topic, body)
    → length topic ≤ hi * 256 + lo
unfolding parse_publish
parsed_topic-le hi lo rest version e = ground (arith, length-take (hi * 256 + lo) rest)

-- `parse_publish` returns the topic and the payload that `publish_payload` was given, for either
-- protocol version, exactly when the topic is shorter than 65536 bytes.
pub parse_publish-publish_payload :
    (topic payload : List ℕ) (version : Text)
    → (parse_publish (publish_payload topic payload version) version ≡ ok (topic, payload))
      ↔ (length topic < 65536)
unfolding publish_payload
parse_publish-publish_payload topic payload version = (
  λ e.
      let short = parsed_topic-le (length topic % 65536 / 256) (length topic % 256) _ version e in
      omega (arith, short),
  parse_published topic payload version,
)
