-- ===== src/Examples/Packets.antt =====
-- MQTT packets: the properties of internal/mqttclient/packet.go at concrete packets.
use kiosk_mate.Common.{
  ◌<◌, ◌≡◌, ◌↔◌, ◌++◌, ◌==◌, [], ◌∷◌, some, length, codes, pos, arith, refl, true,
}
use kiosk_mate.Mqtt.Result.{ok}
use kiosk_mate.Mqtt.Length.{
  encode_remaining_length, decode_remaining_length, decode_remaining_length_bytes, decode_loop,
}
use kiosk_mate.Mqtt.Length.RoundTrip.{decode-encode, decode_bytes-decode, to_used}
use kiosk_mate.Mqtt.Packet.{
  write_packet, read_packet_limit, effective_limit, parse_publish, publish_payload,
  subscribe_payload, protocol_level,
}
use kiosk_mate.Mqtt.Packet.Framing.{framed, read_packet-write_packet}
use kiosk_mate.Mqtt.Packet.Publish.{parse_publish-publish_payload}
use kiosk_mate.Mqtt.Packet.Subscribe.{read_subscribe, read_subscribe-subscribe_payload}
use kiosk_mate.Mqtt.Connect.{Will, connect_payload}
use kiosk_mate.Mqtt.Connect.Decoder.{read_connect}
use kiosk_mate.Mqtt.Connect.RoundTrip.{session, read_connect-connect_payload}

decode-encode_example :
    decode_remaining_length (encode_remaining_length 321 ++ 7 ∷ []) ≡ ok (321, 7 ∷ [])
decode-encode_example = decode-encode 321 (7 ∷ []) (omega arith)

decode_bytes-decode_example :
    decode_remaining_length_bytes (193 ∷ 2 ∷ 9 ∷ [])
    ≡ to_used 3 (decode_remaining_length (193 ∷ 2 ∷ 9 ∷ []))
decode_bytes-decode_example = decode_bytes-decode (193 ∷ 2 ∷ 9 ∷ [])

decodes : decode_remaining_length (193 ∷ 2 ∷ 9 ∷ []) ≡ ok (321, 9 ∷ [])
unfolding decode_remaining_length decode_loop
decodes = refl

read_packet-write_packet_example :
    read_packet_limit (pos 10) (write_packet 3 0 (codes "on") ++ 192 ∷ [])
    ≡ framed (effective_limit (pos 10)) 3 (codes "on") (192 ∷ [])
read_packet-write_packet_example =
    read_packet-write_packet (pos 10) 3 0 (codes "on") (192 ∷ []) (omega arith) (omega arith)

parse_publish-publish_payload_example :
    (parse_publish (publish_payload (codes "kiosk/set") (codes "on") (codes "5")) (codes "5")
      ≡ ok (codes "kiosk/set", codes "on"))
    ↔ (length (codes "kiosk/set") < 65536)
parse_publish-publish_payload_example =
    parse_publish-publish_payload (codes "kiosk/set") (codes "on") (codes "5")

read_subscribe-subscribe_payload_example :
    read_subscribe
      (protocol_level (codes "5") == 5)
      (subscribe_payload 258 (codes "a/b" ∷ codes "c" ∷ []) (codes "5"))
    ≡ some (258, codes "a/b" ∷ codes "c" ∷ [])
read_subscribe-subscribe_payload_example =
    read_subscribe-subscribe_payload 258 (codes "a/b" ∷ codes "c" ∷ []) (codes "5") (omega arith)
      (omega arith, (omega arith, tt))

abbrev offline : Will
offline = record { topic = codes "kiosk/status"; payload = codes "offline"; retain = true }

read_connect-connect_payload_example :
    read_connect
      (connect_payload (codes "kiosk") (codes "user") (codes "word") 60 (codes "5") (some offline))
    ≡ some (session (codes "kiosk") (codes "user") (codes "word") 60 (codes "5") (some offline))
unfolding protocol_level
read_connect-connect_payload_example =
    read_connect-connect_payload (codes "kiosk") (codes "user") (codes "word") 60 (some offline)
      (omega arith) (omega arith) (omega arith) (omega arith) (omega arith, omega arith) (codes "5")
