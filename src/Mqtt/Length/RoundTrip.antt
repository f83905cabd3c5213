-- ===== src/Mqtt/Length/RoundTrip.antt =====
-- Writing a remaining length and reading it back.
use Prim.Native.Nat.{bit_and}
use native.Mathlib.Nat.{div-add-mod, pow-suc}
use kiosk_mate.Common.{
  ℕ, zero, suc, ◌+◌, ◌-◌, ◌*◌, ◌/◌, ◌%◌, ◌^◌, ◌≤◌, ◌<◌, ◌≡◌, refl, ap, List, [], ◌∷◌, ◌++◌, length,
  All, arith,
}
use kiosk_mate.Common.Bytes.{IsByte, low_bits, top_bit}
use kiosk_mate.Mqtt.Result.{Result, ok, err, malformed_length}
use kiosk_mate.Mqtt.Length.{
  encode_remaining_length, decode_loop, decode_remaining_length, decode_bytes_loop,
  decode_remaining_length_bytes,
}
use kiosk_mate.Mqtt.Length.Groups.{groups, encode_remaining_length-groups}

split_group : (n m : ℕ) → n * m ≡ n % 128 * m + n / 128 * (m * 128)
split_group n m = omega (arith, ap (λ (t : ℕ). t * m) (div-add-mod n 128))

decode_loop-groups :
    (k n m value : ℕ) (rest : List ℕ)
    → n < 128 ^ suc k
    → decode_loop (suc k) m value (groups k n ++ rest) ≡ ok (value + n * m, rest)
unfolding decode_loop groups
decode_loop-groups zero n m value rest h = ground (arith, low_bits (n % 128), top_bit (n % 128))
decode_loop-groups (suc k) n m value rest h = ground (
  arith,
  low_bits n,
  top_bit n,
  low_bits (n % 128 + 128),
  top_bit (n % 128 + 128),
  split_group n m,
  decode_loop-groups k (n / 128) (m * 128) (value + n % 128 * m) rest (omega arith),
)

-- A length of four groups at most is read back exactly, and what follows it is left unread.
pub decode-encode :
    (n : ℕ) (rest : List ℕ)
    → n < 128 ^ 4
    → decode_remaining_length (encode_remaining_length n ++ rest) ≡ ok (n, rest)
unfolding decode_remaining_length
decode-encode n rest h =
    ground (arith, encode_remaining_length-groups 3 n, decode_loop-groups 3 n 1 0 rest)

pow_pos : (k : ℕ) → 1 ≤ 128 ^ k
pow_pos zero = omega arith
pow_pos (suc k) = omega (arith, pow_pos k)

decode_loop-groups_long :
    (k j n m value : ℕ) (rest : List ℕ)
    → 128 ^ k ≤ n
    → k ≤ j
    → decode_loop k m value (groups j n ++ rest) ≡ err malformed_length
unfolding decode_loop groups
decode_loop-groups_long zero j n m value rest h p = ground arith
decode_loop-groups_long (suc k) zero n m value rest h p = absurd (omega arith)
decode_loop-groups_long (suc k) (suc j) n m value rest h p = ground (
  arith,
  pow_pos k,
  low_bits (n % 128 + 128),
  top_bit (n % 128 + 128),
  decode_loop-groups_long k j (n / 128) (m * 128) (value + n % 128 * m) rest,
)

below_pow : (n : ℕ) → n < 128 ^ suc n
below_pow zero = omega arith
below_pow (suc n) = omega (arith, below_pow n)

-- A length that needs five groups or more is written all the same, and reading it fails.
pub decode-encode_long :
    (n : ℕ) (rest : List ℕ)
    → 128 ^ 4 ≤ n
    → decode_remaining_length (encode_remaining_length n ++ rest) ≡ err malformed_length
unfolding decode_remaining_length
decode-encode_long n rest h =
    rw (encode_remaining_length-groups n n (below_pow n))
      (decode_loop-groups_long 4 n n 1 0 rest h (omega arith))

-- What the slice decoder answers, from what the reader decoder answers on `n` bytes.
abbrev pub to_used : ℕ → Result (ℕ × List ℕ) → Result (ℕ × ℕ)
to_used n (ok (value, rest)) = ok (value, n - length rest)
to_used n (err e) = err malformed_length

decode_loop_shorter :
    (rounds m value v : ℕ) (bytes rest : List ℕ)
    → decode_loop rounds m value bytes ≡ ok (v, rest)
    → length rest ≤ length bytes
unfolding decode_loop
decode_loop_shorter zero m value v bytes rest e = cc
decode_loop_shorter (suc rounds) m value v [] rest e = cc
decode_loop_shorter (suc rounds) m value v (b ∷ bytes) rest e =
    ground (arith, decode_loop_shorter rounds (m * 128) (value + bit_and b 127 * m) v bytes rest)

decode_bytes_loop-decode_loop :
    (rounds i m value : ℕ) (bytes : List ℕ)
    → decode_bytes_loop rounds i m value bytes
      ≡ to_used (length bytes + i) (decode_loop rounds m value bytes)
unfolding decode_loop decode_bytes_loop
decode_bytes_loop-decode_loop zero i m value bytes = refl
decode_bytes_loop-decode_loop (suc rounds) i m value [] = refl
decode_bytes_loop-decode_loop (suc rounds) i m value (b ∷ bytes) = ground (
  arith,
  decode_bytes_loop-decode_loop rounds (i + 1) (m * 128) (value + bit_and b 127 * m) bytes,
)

-- The slice decoder reads the same value as the reader decoder and answers the number of bytes that
-- it took; it fails exactly when the reader decoder fails, always with a malformed length.
pub decode_bytes-decode :
    (bytes : List ℕ)
    → decode_remaining_length_bytes bytes ≡ to_used (length bytes) (decode_remaining_length bytes)
unfolding decode_remaining_length_bytes decode_remaining_length
decode_bytes-decode bytes = ground (arith, decode_bytes_loop-decode_loop 4 0 1 0 bytes)

low_group-le : (b m : ℕ) → IsByte b → bit_and b 127 * m ≤ 127 * m
low_group-le b m h = rw (low_bits b h) (grind arith)

scaled_pow : (m k : ℕ) → m * 128 ^ suc k ≡ m * 128 * 128 ^ k
scaled_pow m k = rw pow-suc (omega arith)

le-scaled_pow : (m k : ℕ) → m ≤ m * 128 ^ k
le-scaled_pow m k = grind (arith, pow_pos k)

decode_loop_bounds :
    (rounds m value v : ℕ) (bytes rest : List ℕ)
    → All IsByte bytes
    → decode_loop rounds m value bytes ≡ ok (v, rest)
    → (v + m ≤ value + m * 128 ^ rounds)
      × (length rest < length bytes)
      × (length bytes ≤ length rest + rounds)
unfolding decode_loop
decode_loop_bounds zero m value v bytes rest h e = cc
decode_loop_bounds (suc rounds) m value v [] rest h e = cc
decode_loop_bounds (suc rounds) m value v (b ∷ bytes) rest h e = ground (
  arith,
  low_group-le b m h.0,
  scaled_pow m rounds,
  le-scaled_pow (m * 128) rounds,
  decode_loop_bounds rounds (m * 128) (value + bit_and b 127 * m) v bytes rest h.1,
)

-- A decoded length is below 128 ^ 4, and it took one to four bytes.
pub decode_bounds :
    (bytes : List ℕ) {n : ℕ} {rest : List ℕ}
    → All IsByte bytes
    → decode_remaining_length bytes ≡ ok (n, rest)
    → (n < 128 ^ 4) × (length rest < length bytes) × (length bytes ≤ length rest + 4)
unfolding decode_remaining_length
decode_bounds bytes {n} {rest} h e = omega (arith, decode_loop_bounds 4 1 0 n bytes rest h e)
