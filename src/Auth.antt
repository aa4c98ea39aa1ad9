-- ===== src/Auth.antt =====
-- include/fountainer/protocol/auth.hpp and src/protocol/auth.cpp: the message authentication of
-- Fountain v2.2. `none` is an exception of the JSON library.
pub mod Replay
pub mod Signing
use fountainer_client_framew.Common.{
  ℕ, zero, suc, ◌/◌, ◌%◌, Bool, true, false, not, ◌||◌, Option, none, some, String, List, [], ◌∷◌,
  concat, join, same_text, decimal, hex_digit, if◌then◌else◌,
}
use fountainer_client_framew.Json.{
  Json, ℤ, null, number_integer, number_unsigned, text, object, Fields, end, field, find, set_field,
  as_int64, value_text,
}
use fountainer_client_framew.Messages.{Direction, c2s, s2c}
use fountainer_client_framew.Canonical.{canonical_serialize, to_string_int}

-- OpenSSL and the printing of doubles.
pub record Crypto : Type 0 where
  pub sha256 : String → List ℕ
  pub hmac_sha256 : List ℕ → String → List ℕ
  pub encode_block : List ℕ → String
  pub canonical_number : ℕ → String

pub record AuthContext : Type 0 where
  pub key : List ℕ
  pub kid : String
  pub device_id : String
  pub server_nonce : String
  pub client_nonce : String

-- `VerifyResult`, by its reason: `verified` is `{true, "ok"}`.
pub data VerifyResult : Type 0 where
  verified missing_auth kid_mismatch bad_seq mac_mismatch : VerifyResult

-- `VerifyResult::reason`.
unfoldable pub reason : VerifyResult → String
reason verified = "ok"
reason missing_auth = "missing_auth"
reason kid_mismatch = "kid_mismatch"
reason bad_seq = "bad_seq"
reason mac_mismatch = "mac_mismatch"

-- `kEnvelopeFields`.
abbrev envelope_fields : List String
envelope_fields = "v" ∷ "type" ∷ "serial" ∷ "ts" ∷ "msg_id" ∷ "in_reply_to" ∷ "auth" ∷ []

pub is_envelope : String → List String → Bool
is_envelope k [] = false
is_envelope k (e ∷ es) = same_text e k || is_envelope k es

pub body_fields : Fields → Fields
unfolding is_envelope
body_fields end = end
body_fields (field k v fs) =
    if is_envelope k envelope_fields then body_fields fs else field k v (body_fields fs)

pub canonical_body : Json → Json
unfolding body_fields
canonical_body (object fs) = object (body_fields fs)
canonical_body _ = object end

infixl 5 ◌>>=◌
abbrev pub ◌>>=◌ {ℓ κ} : {A : Type ℓ} {B : Type κ} → Option A → (A → Option B) → Option B
none >>= f = none
some a >>= f = f a

unfoldable pub hex_text : List ℕ → String
hex_text [] = ""
hex_text (b ∷ bs) = String.◌∷◌ (hex_digit (b / 16)) (String.◌∷◌ (hex_digit (b % 16)) (hex_text bs))

-- The member `seq`, if it is an integer.
unfoldable pub integer : Option Json → Option ℤ
integer (some (number_integer n)) = some n
integer (some (number_unsigned n)) = some (as_int64 n)
integer _ = none

-- The first bytes of a digest.
abbrev first : ℕ → List ℕ → List ℕ
first zero bs = []
first (suc n) [] = []
first (suc n) (b ∷ bs) = b ∷ first n bs

module _ (c : Crypto) where
  pub body_hash_hex : Json → String
  unfolding canonical_body hex_text
  body_hash_hex msg =
      hex_text (c.sha256 (canonical_serialize c.canonical_number (canonical_body msg)))

  -- `field_string`, on what `find` returns. `is_number_integer()` holds of unsigned values too.
  field_text : Option Json → String
  field_text none = ""
  field_text (some null) = ""
  field_text (some (text s)) = s
  field_text (some (number_integer n)) = to_string_int n
  field_text (some (number_unsigned n)) = to_string_int (as_int64 n)
  field_text (some v) = canonical_serialize c.canonical_number v

  pub field_string : Json → String → String
  unfolding field_text
  field_string msg key = field_text (find msg key)

  abbrev direction_text : Direction → String
  direction_text c2s = "c2s"
  direction_text s2c = "s2c"

  -- The fields, each but the first behind the unit separator 0x1F.
  separated : List String → String
  separated [] = ""
  separated (f ∷ []) = f
  separated (f ∷ fs) = join f (join "\u{1f}" (separated fs))

  pub mac_input : Json → AuthContext → Direction → String → ℤ → String
  unfolding separated
  mac_input msg ctx dir kid seq = separated (
      field_string msg "v"
      ∷ field_string msg "type"
      ∷ direction_text dir
      ∷ ctx.device_id
      ∷ field_string msg "serial"
      ∷ field_string msg "ts"
      ∷ field_string msg "msg_id"
      ∷ field_string msg "in_reply_to"
      ∷ kid
      ∷ to_string_int seq
      ∷ ctx.server_nonce
      ∷ ctx.client_nonce
      ∷ body_hash_hex msg
      ∷ [])

  unfoldable pub compute_mac : List ℕ → String → String
  compute_mac key raw = c.encode_block (first 16 (c.hmac_sha256 key raw))

  -- `msg["auth"] = value` on an object.
  set_auth : Json → Json → Json
  set_auth (object fs) value = object (set_field "auth" value fs)
  set_auth msg value = msg

  abbrev auth_object : String → ℤ → String → Json
  auth_object kid seq mac =
      object
        (field "kid" (text kid) (field "mac" (text mac) (field "seq" (number_integer seq) end)))

  unfoldable pub sign : Json → AuthContext → ℤ → Direction → Json
  unfolding set_auth
  sign msg ctx seq dir =
      set_auth msg
        (auth_object ctx.kid seq (compute_mac ctx.key (mac_input msg ctx dir ctx.kid seq)))

  -- `verify` once the member `seq` has been read.
  verify_seq : Json → AuthContext → Direction → Json → String → Option ℤ → Option VerifyResult
  verify_seq msg ctx dir auth kid none = some bad_seq
  verify_seq msg ctx dir auth kid (some seq) = do
    let raw = mac_input msg ctx dir kid seq
    given ← value_text auth "mac"
    some (if same_text (compute_mac ctx.key raw) given then verified else mac_mismatch)

  -- `verify` on what `msg.find("auth")` returns.
  verify_auth : Json → AuthContext → Direction → Option Json → Option VerifyResult
  unfolding integer verify_seq
  verify_auth msg ctx dir (some (object fs)) = do
    kid ← value_text (object fs) "kid"
    if same_text kid ctx.kid
        then verify_seq msg ctx dir (object fs) kid (integer (find (object fs) "seq"))
        else some kid_mismatch
  verify_auth msg ctx dir _ = some missing_auth

  unfoldable pub verify : Json → AuthContext → Direction → Option VerifyResult
  unfolding verify_auth
  verify msg ctx dir = verify_auth msg ctx dir (find msg "auth")
