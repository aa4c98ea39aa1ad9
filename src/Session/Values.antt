-- ===== src/Session/Values.antt =====
-- How src/protocol/session.cpp reads the members of a message, and its nonce. `none` is an exception
-- of nlohmann::json, or the one of a failed random generator.
use Prim.Native.Char.{Char}
use fountainer_client_framew.Common.{letter_at}
use fountainer_client_framew.Common.{
  ℕ, ◌+◌, ◌-◌, ◌*◌, ◌/◌, ◌%◌, Bool, true, false, Option, none, some, String, List, [], ◌∷◌,
}
use fountainer_client_framew.Json.{
  Json, ℤ, pos, negsuc, null, boolean, number_integer, number_unsigned, number_float, array, object,
  Items, nil, cons, Fields, end, field, find, as_int64,
}
use fountainer_client_framew.Session.Types.{Platform}

-- `message.value(key, fallback)` for a fallback that is a JSON value.
unfoldable pub value_json : Json → String → Json → Json
value_json message key fallback = elim (find message key) [ none ↦ fallback | some v ↦ v ]

-- What a range `for` over a JSON value visits: a value that is no container stands for itself.
values_of : Fields → Items
values_of end = nil
values_of (field k v fs) = cons v (values_of fs)

unfoldable pub elements : Json → Items
unfolding values_of
elements null = nil
elements (array xs) = xs
elements (object fs) = values_of fs
elements v = cons v nil

-- `message.value(key, false)`.
bool_or_throw : Option Json → Option Bool
bool_or_throw none = some false
bool_or_throw (some (boolean b)) = some b
bool_or_throw (some _) = none

unfoldable pub value_bool : Json → String → Option Bool
unfolding bool_or_throw
value_bool message key = bool_or_throw (find message key)

-- The low bits of an integer in two's complement.
unfoldable pub int_bits : ℕ → ℤ → ℕ
int_bits modulus (pos n) = n % modulus
int_bits modulus (negsuc n) = modulus - 1 - n % modulus

module _ {W : Type 0} (p : Platform W) where
  -- A number, or a Boolean, as an unsigned integer below `modulus`.
  number_bits : ℕ → Json → Option ℕ
  unfolding int_bits
  number_bits modulus (number_integer n) = some (int_bits modulus n)
  number_bits modulus (number_unsigned n) = some (n % modulus)
  number_bits modulus (number_float bits) = some (p.float_to_bits modulus bits)
  number_bits modulus (boolean true) = some 1
  number_bits modulus (boolean false) = some 0
  number_bits modulus _ = none

  -- `message.value(key, 0)` cast to an unsigned type with `modulus` values.
  unfoldable pub value_bits : ℕ → Json → String → Option ℕ
  unfolding number_bits
  value_bits modulus message key = elim (find message key) [
    | none ↦ some 0
    | some v ↦ number_bits modulus v
  ]

  -- `message.value(key, std::int64_t{0})`; a Boolean is no `number_integer_t`.
  int64_or_throw : Option Json → Option ℤ
  int64_or_throw none = some (pos 0)
  int64_or_throw (some (number_integer n)) = some n
  int64_or_throw (some (number_unsigned n)) = some (as_int64 n)
  int64_or_throw (some (number_float bits)) =
      some (as_int64 (p.float_to_bits 18446744073709551616 bits))
  int64_or_throw (some _) = none

  unfoldable pub value_int64 : Json → String → Option ℤ
  unfolding int64_or_throw
  value_int64 message key = int64_or_throw (find message key)

  float_of : Option Json → Option ℕ
  float_of (some (number_integer n)) = some (p.to_float (number_integer n))
  float_of (some (number_unsigned n)) = some (p.to_float (number_unsigned n))
  float_of (some (number_float bits)) = some (p.to_float (number_float bits))
  float_of _ = none

  unfoldable pub optional_float : Json → String → Option ℕ
  unfolding float_of
  optional_float message key = float_of (find message key)

  -- The optional `seq` of a `dp_report`.
  report_seq_of : Option Json → Option ℕ
  unfolding number_bits
  report_seq_of (some (boolean b)) = none
  report_seq_of (some v) = number_bits 4294967296 v
  report_seq_of none = none

  unfoldable pub report_seq : Json → Option ℕ
  unfolding report_seq_of
  report_seq message = report_seq_of (find message "seq")

abbrev alphabet : String
alphabet = "ABCDEFGHIJKLMNOPQRSTUVWXYZabcdefghijklmnopqrstuvwxyz0123456789+/"

-- `alphabet[v & 0x3f]`.
abbrev sextet : ℕ → Char
sextet v = letter_at alphabet (v % 64)

-- Three bytes at a time, and the byte that is left as two letters and `==`.
unfoldable pub base64 : List ℕ → String
base64 (a ∷ b ∷ c ∷ rest) =
    let v = a * 65536 + b * 256 + c in
    String.◌∷◌ (sextet (v / 262144)) (
      String.◌∷◌ (sextet (v / 4096))
        (String.◌∷◌ (sextet (v / 64)) (String.◌∷◌ (sextet v) (base64 rest))))
base64 (a ∷ _) =
    let v = a * 65536 in String.◌∷◌ (sextet (v / 262144)) (String.◌∷◌ (sextet (v / 4096)) "==")
base64 [] = ""

-- `random_nonce_b64`, for the 16 bytes that the generator gives.
unfoldable pub random_nonce_b64 : {W : Type 0} → Platform W → W → Option String × W
random_nonce_b64 p w =
    let (raw, w') = p.random_bytes w in
    (elim raw [ none ↦ none | some bytes ↦ some (base64 bytes) ], w')
