-- ===== src/Mqtt/Packet/Subscribe.antt =====
-- SUBSCRIBE: what a broker reads in the payload, by the MQTT specifications.
use kiosk_mate.Common.{
  ℕ, zero, suc, ◌+◌, ◌*◌, ◌/◌, ◌%◌, ◌<◌, ◌≤◌, ◌≡◌, refl, List, [], ◌∷◌, ◌++◌, Bool, Option, none,
  some, ◌==◌, length, length-append, All, Text, true, false, arith,
}
use kiosk_mate.Mqtt.Packet.{
  big_endian, mqtt_string, protocol_level, subscribe_topics, subscribe_payload,
}
use kiosk_mate.Mqtt.Connect.Decoder.{read_field, read_no_properties, ◌>>=◌}
use kiosk_mate.Mqtt.Connect.RoundTrip.{Fits, read_field-mqtt_string, no_properties}

abbrev pub add_filter : List ℕ → Option (List (List ℕ)) → Option (List (List ℕ))
add_filter filter none = none
add_filter filter (some filters) = some (filter ∷ filters)

-- Topic filters with their options byte, which must ask for QoS 0.
unfoldable pub read_filters : ℕ → List ℕ → Option (List (List ℕ))
read_filters fuel [] = some []
read_filters zero (b ∷ bytes) = none
read_filters (suc fuel) (b ∷ bytes) = elim (read_field (b ∷ bytes)) [
  | none ↦ none
  | some (filter, []) ↦ none
  | some (filter, qos ∷ rest) ↦ elim (qos == 0) [
    | true ↦ add_filter filter (read_filters fuel rest)
    | false ↦ none
  ]
]

unfoldable pub read_subscribe : Bool → List ℕ → Option (ℕ × List (List ℕ))
read_subscribe v5 (hi ∷ lo ∷ bytes) = do
  bytes' ← read_no_properties v5 bytes
  filters ← read_filters (length bytes') bytes'
  some (hi * 256 + lo, filters)
read_subscribe v5 _ = none

read_filters_step :
    (fuel : ℕ) (topic rest : List ℕ)
    → Fits topic
    → read_filters (suc fuel) (mqtt_string topic ++ (0 ∷ rest))
      ≡ add_filter topic (read_filters fuel rest)
unfolding read_filters mqtt_string big_endian
read_filters_step fuel topic rest h = rw (read_field-mqtt_string topic (0 ∷ rest) h, read_filters)

read_filters-subscribe_topics :
    (topics : List (List ℕ)) (fuel : ℕ)
    → All Fits topics
    → length (subscribe_topics topics) ≤ fuel
    → read_filters fuel (subscribe_topics topics) ≡ some topics
unfolding subscribe_topics
read_filters-subscribe_topics [] zero h p = unfold read_filters in refl
read_filters-subscribe_topics [] (suc fuel) h p = unfold read_filters in refl
read_filters-subscribe_topics (topic ∷ topics) zero h p =
    absurd (unfold mqtt_string big_endian in omega arith)
read_filters-subscribe_topics (topic ∷ topics) (suc fuel) h p =
    rw (read_filters_step fuel topic (subscribe_topics topics) h.0) (
      rw (
        read_filters-subscribe_topics topics fuel h.1
          (omega (arith, length-append (mqtt_string topic) (0 ∷ subscribe_topics topics)))))

-- A broker reads in the SUBSCRIBE payload the packet id and exactly the given topics in their order,
-- each with QoS 0, for either protocol version, if the id and every topic's length are below 65536.
pub read_subscribe-subscribe_payload :
    (id : ℕ) (topics : List (List ℕ)) (version : Text)
    → id < 65536
    → All Fits topics
    → read_subscribe (protocol_level version == 5) (subscribe_payload id topics version)
      ≡ some (id, topics)
unfolding read_subscribe subscribe_payload big_endian
read_subscribe-subscribe_payload id topics version small h =
    let e : id % 65536 / 256 * 256 + id % 256 ≡ id = omega arith in
    rw (no_properties (protocol_level version == 5)) (
      rw (
        e,
        read_filters-subscribe_topics topics (length (subscribe_topics topics)) h (omega arith),
      ))
