-- ===== src/Mqtt/Connect/Decoder.antt =====
-- What a broker reads in a CONNECT payload, by the MQTT 3.1.1 and 5.0 specifications, for packets
-- whose property lists are empty. It is written from the specification and not from the client.
use kiosk_mate.Common.{
  ℕ, zero, ◌+◌, ◌*◌, ◌/◌, ◌%◌, List, ◌∷◌, Bool, true, false, not, ◌&&◌, ◌||◌, Option, none, some,
  ◌==◌, ltb, if◌then◌else◌, length, take, drop,
}
use kiosk_mate.Mqtt.Connect.{Will}

infixl 5 ◌>>=◌
abbrev pub ◌>>=◌ {ℓ κ} : {A : Type ℓ} {B : Type κ} → Option A → (A → Option B) → Option B
none >>= f = none
some a >>= f = f a

-- A string or binary field: two length bytes, then the content.
unfoldable pub read_field : List ℕ → Option (List ℕ × List ℕ)
read_field (hi ∷ lo ∷ bytes) =
    if ltb (length bytes) (hi * 256 + lo)
    then none
    else some (take (hi * 256 + lo) bytes, drop (hi * 256 + lo) bytes)
read_field _ = none

unfoldable pub read_no_properties : Bool → List ℕ → Option (List ℕ)
read_no_properties false bytes = some bytes
read_no_properties true (zero ∷ bytes) = some bytes
read_no_properties true _ = none

unfoldable pub read_optional : Bool → List ℕ → Option (Option (List ℕ) × List ℕ)
read_optional false bytes = some (none, bytes)
read_optional true bytes = do (value, rest) ← read_field bytes; some (some value, rest)

abbrev pub flag : ℕ → ℕ → Bool
flag weight flags = flags / weight % 2 == 1

unfoldable pub read_will : Bool → ℕ → List ℕ → Option (Option Will × List ℕ)
read_will v5 flags bytes =
    if flag 4 flags
    then (do
      bytes' ← read_no_properties v5 bytes
      (topic, rest) ← read_field bytes'
      (payload, rest') ← read_field rest
      some (some (record { topic = topic; payload = payload; retain = flag 0x20 flags }), rest'))
    else some (none, bytes)

pub record Session : Type 0 where
  pub name : List ℕ
  pub level : ℕ
  pub clean_start : Bool
  pub keep_alive : ℕ
  pub client_id : List ℕ
  pub will : Option Will
  pub will_qos : ℕ
  pub username : Option (List ℕ)
  pub password : Option (List ℕ)
  pub trailing : List ℕ

-- What a broker must refuse: the reserved bit, the QoS or the retain bit of a will that is not there, and
-- by MQTT 3.1.1 a password without a user name.
abbrev pub forbidden : ℕ → ℕ → Bool
forbidden level flags =
    flag 1 flags
    || (not (flag 4 flags) && not (flags / 8 % 8 == 0))
    || (level == 4 && flag 0x40 flags && not (flag 0x80 flags))

unfoldable pub read_session : List ℕ → ℕ → ℕ → ℕ → List ℕ → Option Session
read_session name level flags keep_alive bytes = if forbidden level flags then none else (do
  bytes' ← read_no_properties (level == 5) bytes
  (client_id, after_id) ← read_field bytes'
  (will, after_will) ← read_will (level == 5) flags after_id
  (username, after_name) ← read_optional (flag 0x80 flags) after_will
  (password, trailing) ← read_optional (flag 0x40 flags) after_name
  some (record {
    name = name;
    level = level;
    clean_start = flag 2 flags;
    keep_alive = keep_alive;
    client_id = client_id;
    will = will;
    will_qos = flags / 8 % 4;
    username = username;
    password = password;
    trailing = trailing;
  }))

abbrev pub read_fixed : List ℕ × List ℕ → Option Session
read_fixed (name, level ∷ flags ∷ hi ∷ lo ∷ bytes) =
    read_session name level flags (hi * 256 + lo) bytes
read_fixed (name, _) = none

unfoldable pub read_connect : List ℕ → Option Session
read_connect bytes = read_field bytes >>= read_fixed
