-- ===== src/Mqtt/Connect.antt =====
-- The CONNECT payload of internal/mqttclient/packet.go.
pub mod Decoder
pub mod RoundTrip
use Prim.Native.Nat.{bit_or}
use kiosk_mate.Common.{
  ℕ, List, [], ◌∷◌, ◌++◌, Bool, true, false, not, Option, none, some, ◌==◌, if◌then◌else◌, length,
  Text, codes,
}
use kiosk_mate.Mqtt.Packet.{big_endian, mqtt_string, protocol_level}

pub record Will : Type 0 where
  pub topic : List ℕ
  pub payload : List ℕ
  pub retain : Bool

abbrev pub is_empty : List ℕ → Bool
is_empty [] = true
is_empty (b ∷ bs) = false

-- `will != nil && will.Topic != ""`
abbrev pub has_will : Option Will → Bool
has_will none = false
has_will (some will) = not (is_empty will.topic)

abbrev pub will_flags : Option Will → ℕ → ℕ
will_flags none flags = flags
will_flags (some will) flags =
    if is_empty will.topic
    then flags
    else if will.retain
    then bit_or (bit_or flags 0x04) 0x20
    else bit_or flags 0x04

unfoldable pub connect_flags : Option Will → List ℕ → List ℕ → ℕ
connect_flags will username password =
    let flags = will_flags will 0x02 in
    let flags' = if is_empty username then flags else bit_or flags 0x80 in
    if is_empty password then flags' else bit_or flags' 0x40

abbrev pub will_bytes : Bool → Option Will → List ℕ
will_bytes v5 none = []
will_bytes v5 (some will) =
    if is_empty will.topic
    then []
    else (if v5 then 0 ∷ [] else [])
      ++ (mqtt_string will.topic ++ (big_endian (length will.payload) ++ will.payload))

abbrev pub credential_bytes : List ℕ → List ℕ
credential_bytes value = if is_empty value then [] else mqtt_string value

unfoldable pub connect_payload : List ℕ → List ℕ → List ℕ → ℕ → Text → Option Will → List ℕ
unfolding connect_flags mqtt_string
connect_payload client_id username password keep_alive version will =
    let v5 = protocol_level version == 5 in
    mqtt_string (codes "MQTT")
    ++ ((if v5 then 5 else 4)
        ∷ connect_flags will username password
        ∷ (big_endian keep_alive
            ++ ((if v5 then 0 ∷ [] else [])
                ++ (mqtt_string client_id
                    ++ (will_bytes v5 will
                        ++ (credential_bytes username ++ credential_bytes password))))))
