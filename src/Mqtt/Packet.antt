-- ===== src/Mqtt/Packet.antt =====
-- internal/mqttclient/packet.go: framing, PUBLISH, SUBSCRIBE and CONNACK. Bytes are numbers below
-- 256, and a text is its bytes. `bytes.Buffer` and `binary.Write` are appending to a list.
pub mod Framing
pub mod Publish
pub mod Subscribe
use Prim.Native.Nat.{bit_or}
use kiosk_mate.Common.{
  ℕ, zero, suc, ◌+◌, ◌*◌, ◌/◌, ◌%◌, ◌^◌, String, Bool, true, false, not, ◌||◌, List, [], ◌∷◌, ◌++◌,
  Option, none, some, ◌==◌, ltb, if◌then◌else◌, length, take, drop, get_or, Text, codes, text_eq, ℤ,
  pos, negsuc, ltb_ℤ, leb_ℤ, pos_part,
}
use kiosk_mate.Mqtt.Result.{
  Result, ok, err, ◌>>=◌, eof, unexpected_eof, exceeds_limit, short_publish, short_topic,
  short_properties,
}
use kiosk_mate.Mqtt.Length.{
  encode_remaining_length, decode_remaining_length, decode_remaining_length_bytes,
}

abbrev pub packet_connect : ℕ
packet_connect = 1

abbrev pub packet_conn_ack : ℕ
packet_conn_ack = 2

abbrev pub packet_publish : ℕ
packet_publish = 3

abbrev pub packet_subscribe : ℕ
packet_subscribe = 8

abbrev pub packet_ping_req : ℕ
packet_ping_req = 12

abbrev pub packet_ping_resp : ℕ
packet_ping_resp = 13

abbrev pub packet_disconnect : ℕ
packet_disconnect = 14

-- The bytes that a `Write` of the header and a `Write` of the payload put on the connection.
unfoldable pub write_packet : ℕ → ℕ → List ℕ → List ℕ
write_packet packet_type flags payload =
    (bit_or (packet_type * 16 % 256) flags ∷ encode_remaining_length (length payload)) ++ payload

-- `io.ReadFull` into a buffer of `n` bytes.
unfoldable pub read_full : ℕ → List ℕ → Result (List ℕ × List ℕ)
read_full zero reader = ok ([], reader)
read_full (suc n) [] = err eof
read_full (suc n) (b ∷ reader) =
    if ltb (length (b ∷ reader)) (suc n)
    then err unexpected_eof
    else ok (take (suc n) (b ∷ reader), drop (suc n) (b ∷ reader))

abbrev pub default_limit : ℕ
default_limit = 2 ^ 20

abbrev pub effective_limit : ℤ → ℕ
effective_limit maximum = if leb_ℤ maximum (pos 0) then default_limit else pos_part maximum

-- The packet type, the payload, and what the reader still holds.
unfoldable pub read_packet_limit : ℤ → List ℕ → Result (ℕ × List ℕ × List ℕ)
unfolding read_full
read_packet_limit maximum [] = err eof
read_packet_limit maximum (first ∷ reader) = do
  (remaining, reader') ← decode_remaining_length reader
  if ltb (effective_limit maximum) remaining
      then err (exceeds_limit remaining (effective_limit maximum))
      else do (payload, rest) ← read_full remaining reader'; ok (first / 16, payload, rest)

unfoldable pub read_packet : List ℕ → Result (ℕ × List ℕ × List ℕ)
unfolding read_packet_limit
read_packet reader = read_packet_limit (pos default_limit) reader

-- `binary.BigEndian` on a uint16.
unfoldable pub big_endian : ℕ → List ℕ
big_endian n = n % 65536 / 256 ∷ n % 256 ∷ []

unfoldable pub mqtt_string : List ℕ → List ℕ
unfolding big_endian
mqtt_string value = big_endian (length value) ++ value

unfoldable pub protocol_level : Text → ℕ
unfolding text_eq
protocol_level version =
    if text_eq version (codes "5.0") || text_eq version (codes "5") then 5 else 4

unfoldable pub publish_payload : List ℕ → List ℕ → Text → List ℕ
unfolding mqtt_string
publish_payload topic payload version =
    mqtt_string topic ++ ((if protocol_level version == 5 then 0 ∷ [] else []) ++ payload)

unfoldable pub subscribe_topics : List (List ℕ) → List ℕ
subscribe_topics [] = []
subscribe_topics (topic ∷ topics) = mqtt_string topic ++ (0 ∷ subscribe_topics topics)

unfoldable pub subscribe_payload : ℕ → List (List ℕ) → Text → List ℕ
unfolding subscribe_topics mqtt_string
subscribe_payload id topics version =
    big_endian id
    ++ ((if protocol_level version == 5 then 0 ∷ [] else []) ++ subscribe_topics topics)

-- `body = body[used+propertyLength:]`, behind its check.
unfoldable pub skip_properties : List ℕ → Result (List ℕ)
skip_properties body = do
  (property_length, used) ← decode_remaining_length_bytes body
  if ltb (length body) (used + property_length)
      then err short_properties
      else ok (drop (used + property_length) body)

unfoldable pub parse_publish : List ℕ → Text → Result (List ℕ × List ℕ)
parse_publish payload version =
    if ltb (length payload) 2
    then err short_publish
    else let size = get_or payload 0 0 * 256 + get_or payload 1 0 in
      if ltb (length payload) (2 + size)
      then err short_topic
      else let body = drop (2 + size) payload in
        do
          body' ← if protocol_level version == 5 then skip_properties body else ok body
          ok (take size (drop 2 payload), body')

unfoldable pub mqtt311_return_code : ℕ → String
mqtt311_return_code code =
    if code == 1
    then "unacceptable protocol version"
    else if code == 2
    then "identifier rejected"
    else if code == 3
    then "server unavailable"
    else if code == 4
    then "bad username or password"
    else if code == 5
    then "not authorized"
    else "unknown return code"

unfoldable pub mqtt5_reason : ℕ → String
mqtt5_reason code =
    if code == 0x80
    then "unspecified error"
    else if code == 0x81
    then "malformed packet"
    else if code == 0x82
    then "protocol error"
    else if code == 0x83
    then "implementation specific error"
    else if code == 0x84
    then "unsupported protocol version"
    else if code == 0x85
    then "client identifier not valid"
    else if code == 0x86
    then "bad username or password"
    else if code == 0x87
    then "not authorized"
    else if code == 0x88
    then "server unavailable"
    else if code == 0x89
    then "server busy"
    else if code == 0x8a
    then "banned"
    else if code == 0x8c
    then "bad authentication method"
    else if code == 0x95
    then "packet too large"
    else if code == 0x97
    then "quota exceeded"
    else if code == 0x9c
    then "use another server"
    else if code == 0x9d
    then "server moved"
    else if code == 0x9f
    then "connection rate exceeded"
    else "unknown reason code"

-- What `connAckError` answers, by its four messages.
pub data ConnAck : Type 0 where
  accepted : ConnAck
  not_conn_ack : ℕ → ConnAck
  short_payload : ConnAck
  refused : String → ℕ → ConnAck

unfoldable pub conn_ack_error : ℕ → List ℕ → Text → ConnAck
conn_ack_error packet payload version =
    let code = get_or payload 1 0 in
    if not (packet == packet_conn_ack)
    then not_conn_ack packet
    else if ltb (length payload) 2
    then short_payload
    else if code == 0
    then accepted
    else if protocol_level version == 5
    then refused (mqtt5_reason code) code
    else refused (mqtt311_return_code code) code
