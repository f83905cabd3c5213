-- ===== src/Mqtt/Connect/RoundTrip.antt =====
-- A broker reads in the CONNECT payload what the client was configured with.
use kiosk_mate.Common.{
  ℕ, ◌+◌, ◌*◌, ◌/◌, ◌%◌, ◌<◌, ◌≡◌, refl, inl, inr, Bool-cases, List, [], ◌∷◌, ◌++◌, Bool, true,
  false, not, ◌&&◌, Option, none, some, ◌==◌, if◌then◌else◌, length, length-append,
  take-length_append, drop-length_append, append_assoc, append-nil, Text, codes, arith,
}
use kiosk_mate.Mqtt.Packet.{big_endian, mqtt_string, protocol_level}
use kiosk_mate.Mqtt.Connect.{
  Will, is_empty, has_will, connect_flags, will_bytes, credential_bytes, connect_payload,
}
use kiosk_mate.Mqtt.Connect.Decoder.{
  read_field, read_no_properties, read_optional, flag, read_will, Session, read_session, forbidden,
  read_connect,
}

abbrev pub Fits : List ℕ → Type 0
Fits s = length s < 65536

read_field_split :
    (hi lo : ℕ) (s rest : List ℕ)
    → hi * 256 + lo ≡ length s
    → read_field (hi ∷ lo ∷ (s ++ rest)) ≡ some (s, rest)
unfolding read_field
read_field_split hi lo s rest e =
    rw (e, take-length_append s rest, drop-length_append s rest)
      (ground (arith, length-append s rest))

pub read_field-mqtt_string :
    (s rest : List ℕ) → Fits s → read_field (mqtt_string s ++ rest) ≡ some (s, rest)
unfolding mqtt_string
read_field-mqtt_string s rest h =
    read_field_split (length s % 65536 / 256) (length s % 256) s rest (omega arith)

read_field-binary :
    (s rest : List ℕ) → Fits s → read_field (big_endian (length s) ++ (s ++ rest)) ≡ some (s, rest)
unfolding big_endian
read_field-binary s rest h =
    read_field_split (length s % 65536 / 256) (length s % 256) s rest (omega arith)

-- A value that is left out when it is empty.
abbrev pub given : List ℕ → Option (List ℕ)
given [] = none
given (b ∷ bs) = some (b ∷ bs)

read_optional-credential :
    (s rest : List ℕ)
    → Fits s
    → read_optional (not (is_empty s)) (credential_bytes s ++ rest) ≡ some (given s, rest)
unfolding read_optional
read_optional-credential [] rest h = refl
read_optional-credential (b ∷ bs) rest h = rw (read_field-mqtt_string (b ∷ bs) rest h)

abbrev pub given_will : Option Will → Option Will
given_will none = none
given_will (some will) = if is_empty will.topic then none else some will

module _ (will : Option Will) (username password : List ℕ) where
  -- The flag byte tells which fields follow.
  flags_tell :
      (flag 2 (connect_flags will username password) ≡ true)
      × (flag 4 (connect_flags will username password) ≡ has_will will)
      × (flag 0x80 (connect_flags will username password) ≡ not (is_empty username))
      × (flag 0x40 (connect_flags will username password) ≡ not (is_empty password))
  unfolding connect_flags
  flags_tell = ground arith

  flags_qos : connect_flags will username password / 8 % 4 ≡ 0
  unfolding connect_flags
  flags_qos = ground arith

  flags_forbidden :
      (level : ℕ)
      → forbidden level (connect_flags will username password)
        ≡ (level == 4 && is_empty username && not (is_empty password))
  unfolding connect_flags
  flags_forbidden level = ground arith

flags_retain :
    (will : Will) (username password : List ℕ)
    → is_empty will.topic ≡ false
    → flag 0x20 (connect_flags (some will) username password) ≡ will.retain
unfolding connect_flags
flags_retain will username password e = rw e (ground arith)

pub no_properties :
    (v5 : Bool) (bytes : List ℕ)
    → read_no_properties v5 ((if v5 then 0 ∷ [] else []) ++ bytes) ≡ some bytes
unfolding read_no_properties
no_properties true bytes = refl
no_properties false bytes = refl

abbrev pub WillFits : Option Will → Type 0
WillFits none = Unit
WillFits (some will) = Fits will.topic × Fits will.payload

read_will-will_bytes :
    (v5 : Bool) (will : Option Will) (username password rest : List ℕ)
    → WillFits will
    → read_will v5 (connect_flags will username password) (will_bytes v5 will ++ rest)
      ≡ some (given_will will, rest)
unfolding read_will
read_will-will_bytes v5 none username password rest h = rw ((flags_tell none username password).1)
read_will-will_bytes v5 (some will) username password rest h =
    elim (Bool-cases (is_empty will.topic)) [
      | inl absent ↦ rw ((flags_tell (some will) username password).1) (rw absent)
      | inr present ↦ rw ((flags_tell (some will) username password).1) (
          rw (present) (
            rw
              (
                append_assoc,
                no_properties v5,
                append_assoc,
                read_field-mqtt_string will.topic _ h.0,
              )
              (rw (append_assoc, read_field-binary will.payload rest h.1)
                (rw (flags_retain will username password present)))))
    ]

-- What the broker should see.
abbrev pub session : List ℕ → List ℕ → List ℕ → ℕ → Text → Option Will → Session
session client_id username password keep_alive version will = record {
  name = codes "MQTT";
  level = if protocol_level version == 5 then 5 else 4;
  clean_start = true;
  keep_alive = keep_alive;
  client_id = client_id;
  will = given_will will;
  will_qos = 0;
  username = given username;
  password = given password;
  trailing = [];
}

module _ (client_id username password : List ℕ) (keep_alive : ℕ) (will : Option Will)
    (id_fits : Fits client_id) (name_fits : Fits username) (word_fits : Fits password)
    (time_fits : keep_alive < 65536) (will_fits : WillFits will) where
  abbrev fields : Bool → List ℕ
  fields v5 =
      (if v5 then 0 ∷ [] else [])
      ++ (mqtt_string client_id
          ++ (will_bytes v5 will ++ (credential_bytes username ++ credential_bytes password)))

  read_session-fields :
      (level : ℕ) (name : List ℕ)
      → read_session name level
          (connect_flags will username password)
          keep_alive
          (fields (level == 5))
        ≡ (if level == 4 && is_empty username && not (is_empty password)
            then none
            else some (record {
              name = name;
              level = level;
              clean_start = true;
              keep_alive = keep_alive;
              client_id = client_id;
              will = given_will will;
              will_qos = 0;
              username = given username;
              password = given password;
              trailing = [];
            }))
  unfolding read_session
  read_session-fields level name =
      let tells = flags_tell will username password in
      rw
        (
          flags_forbidden will username password level,
          no_properties (level == 5),
          read_field-mqtt_string client_id _ id_fits,
        )
        (rw (read_will-will_bytes (level == 5) will username password _ will_fits) (
          rw (tells.2, tells.3, read_optional-credential username _ name_fits)
            (rw (← append-nil (credential_bytes password)) (
              rw (
                read_optional-credential password [] word_fits,
                tells.0,
                flags_qos will username password,
              )))))

  keep_alive_bytes : keep_alive % 65536 / 256 * 256 + keep_alive % 256 ≡ keep_alive
  keep_alive_bytes = omega arith

  -- An independent reader of CONNECT, which refuses the reserved bit, the bits of a will that is not there
  -- and, by MQTT 3.1.1, a password without a user name, finds in the payload exactly the configured
  -- session: the protocol name and level of the version, a clean start, the keep-alive, the client id, the
  -- will if it has a topic, with QoS 0, and the user name and password where they are not empty, with
  -- nothing left over; it refuses the payload only if over MQTT 3.1.1 a password is configured without a
  -- user name. Every field must be shorter than 65536 bytes and the keep-alive below 65536.
  pub read_connect-connect_payload :
      (version : Text)
      → read_connect (connect_payload client_id username password keep_alive version will) ≡ (
          if not (protocol_level version == 5) && is_empty username && not (is_empty password)
          then none
          else some (session client_id username password keep_alive version will))
  unfolding read_connect connect_payload big_endian
  read_connect-connect_payload version = elim (Bool-cases (protocol_level version == 5)) [
    | inl five ↦
        rw (read_field-mqtt_string (codes "MQTT") _ (omega arith))
          (rw (five, keep_alive_bytes) (read_session-fields 5 (codes "MQTT")))
    | inr four ↦
        rw (read_field-mqtt_string (codes "MQTT") _ (omega arith))
          (rw (four, keep_alive_bytes) (read_session-fields 4 (codes "MQTT")))
  ]
