-- ===== src/Security.antt =====
-- include/fountainer/security.hpp and src/security.cpp: TLS files, HMAC keys and the bundled
-- configuration of a client.
pub mod Hex
pub mod Keys
pub mod Locking
pub mod Validation
use fountainer_client_framew.Common.{
  ℕ, Bool, true, false, not, ◌&&◌, Option, none, some, String, List, [], ◌∷◌, concat, join,
  is_empty, same_text, if◌then◌else◌,
}
use fountainer_client_framew.Error.{
  Error, ErrorCode, ErrorDomain, Result, ok, err, Status, make_error, config_error,
}
use fountainer_client_framew.Session.Types.{CredentialProvider}
use fountainer_client_framew.Security.Hex.{decode_hex_key}

pub data EndpointIdentityPolicy : Type 0 where
  verify_dns_name verify_certificate_chain_only : EndpointIdentityPolicy

pub record TlsCredentials : Type 0 where
  pub ca_file : String
  pub certificate_file : String
  pub key_file : String
  pub policy : EndpointIdentityPolicy
  pub disable_peer_verification : Bool

-- `TlsCredentials::mutual_tls`.
unfoldable pub mutual_tls : String → String → String → EndpointIdentityPolicy → TlsCredentials
mutual_tls ca certificate key identity = record {
  ca_file = ca;
  certificate_file = certificate;
  key_file = key;
  policy = identity;
  disable_peer_verification = false;
}

-- `TlsCredentials::server_only`.
unfoldable pub server_only : String → EndpointIdentityPolicy → TlsCredentials
server_only ca identity = record {
  ca_file = ca;
  certificate_file = "";
  key_file = "";
  policy = identity;
  disable_peer_verification = false;
}

unfoldable pub uses_mutual_tls : TlsCredentials → Bool
uses_mutual_tls t = not (is_empty t.certificate_file)

-- `set_unsafe_options`.
unfoldable pub set_unsafe_options : Bool → TlsCredentials → TlsCredentials
set_unsafe_options disable t = record t { disable_peer_verification = disable }

-- The contents of the files that can be opened for reading.
abbrev pub Files : Type 0
Files = String → Option String

-- The key is its bytes: copies and the cleansing of freed memory leave the value as it is.
pub record HmacCredentials : Type 0 where
  pub kid : String
  pub key : List ℕ

-- The default of `expected_device_id` is the empty text.
pub record FixedCredentialProvider : Type 0 where
  pub kid : String
  pub key : List ℕ
  pub expected_device_id : String

pub record SecurityConfiguration : Type 0 where
  pub tls : TlsCredentials
  pub has_tls : Bool
  pub provider : Option CredentialProvider
  pub kid : String
  pub expected_device_id : String
  pub locked : Bool

infixl 5 ◌and_then◌
-- `if (auto status = a; !status) return status; …`.
abbrev pub ◌and_then◌ : Status → Status → Status
ok _ and_then next = next
err e and_then next = err e

-- `HmacCredentials::from_hex`.
unfoldable pub from_hex : String → String → Result HmacCredentials
from_hex kid hex =
    if is_empty kid
    then err (config_error ErrorCode.missing_credentials "hmac kid must not be empty")
    else elim (decode_hex_key hex) [
      | err e ↦ err e
      | ok bytes ↦ ok (record { kid = kid; key = bytes })
    ]

-- `FixedCredentialProvider::resolve`.
unfoldable pub resolve : FixedCredentialProvider → CredentialProvider
resolve p device_id kid =
    if not (is_empty p.expected_device_id) && not (same_text device_id p.expected_device_id)
    then err (
        make_error ErrorDomain.authentication ErrorCode.auth_rejected (
          concat (
            "unexpected device_id '" ∷ device_id ∷ "' (configured: " ∷ p.expected_device_id ∷ ")"
            ∷ [])))
    else if not (same_text kid p.kid)
    then err (
        make_error ErrorDomain.authentication ErrorCode.unknown_key_id
          (concat ("device offers kid '" ∷ kid ∷ "', configured is '" ∷ p.kid ∷ "'" ∷ [])))
    else ok p.key

module _ (files : Files) where
  -- Of a path and what it is for.
  unfoldable pub require_readable : String → String → Status
  require_readable path what =
      if is_empty path
      then err (config_error ErrorCode.missing_credentials (join what " is not configured"))
      else elim (files path) [
        | some _ ↦ ok tt
        | none ↦ err (
            config_error ErrorCode.file_not_readable
              (concat (what ∷ " is not readable: " ∷ path ∷ [])))
      ]

  -- `TlsCredentials::validate`.
  unfoldable pub validate_tls : TlsCredentials → Status
  unfolding uses_mutual_tls
  validate_tls t =
      (if not t.disable_peer_verification then require_readable t.ca_file "tls ca_file" else ok tt)
      and_then (if uses_mutual_tls t
          then require_readable t.certificate_file "tls client_certificate_file"
            and_then require_readable t.key_file "tls client_key_file"
          else ok tt)

  -- `HmacCredentials::from_file`.
  unfoldable pub from_file : String → String → Result HmacCredentials
  unfolding from_hex
  from_file kid path = elim (files path) [
    | none ↦
        err (config_error ErrorCode.file_not_readable (join "hmac key file is not readable: " path))
    | some contents ↦ elim (from_hex kid contents) [
      | ok credentials ↦ ok credentials
      | err e ↦ err (record e { message = concat (e.message ∷ " (" ∷ path ∷ ")" ∷ []) })
    ]
  ]

  -- `SecurityConfiguration::set_tls`.
  unfoldable pub set_tls : TlsCredentials → SecurityConfiguration → SecurityConfiguration × Status
  set_tls credentials c =
      if c.locked
      then (
        c,
        err (
            make_error ErrorDomain.configuration ErrorCode.invalid_state
              "TLS cannot be changed while connected"),
      )
      else elim (validate_tls credentials) [
        | err e ↦ (c, err e)
        | ok _ ↦ (record c { tls = credentials; has_tls = true }, ok tt)
      ]

  -- `SecurityConfiguration::validate`.
  unfoldable pub validate : SecurityConfiguration → Status
  validate c =
      if not c.has_tls
      then err (
          config_error ErrorCode.missing_credentials
            "no TLS credentials configured — the local device server requires mutual TLS")
      else (validate_tls c.tls and_then elim c.provider [
        | some _ ↦ ok tt
        | none ↦ err (
            config_error ErrorCode.missing_credentials
              "no HMAC credentials configured — the Fountain handshake cannot complete")
      ])

-- `SecurityConfiguration::set_hmac`.
unfoldable pub set_hmac : HmacCredentials → SecurityConfiguration → SecurityConfiguration × Status
set_hmac credentials c =
    if c.locked
    then (
      c,
      err (
          make_error ErrorDomain.configuration ErrorCode.invalid_state
            "HMAC credentials cannot be changed while connected"),
    )
    else (
      record c {
        kid = credentials.kid;
        provider = some (
            resolve
              (record { kid = credentials.kid; key = credentials.key; expected_device_id = "" }));
      },
      ok tt,
    )

-- `SecurityConfiguration::set_credential_provider`; `none` is the null pointer.
unfoldable pub set_credential_provider :
    Option CredentialProvider → SecurityConfiguration → SecurityConfiguration × Status
set_credential_provider given c =
    if c.locked
    then (
      c,
      err (
          make_error ErrorDomain.configuration ErrorCode.invalid_state
            "credential provider cannot be changed while connected"),
    )
    else elim given [
      | none ↦ (
        c,
        err (config_error ErrorCode.missing_credentials "credential provider must not be null"),
      )
      | some p ↦ (record c { provider = some p }, ok tt)
    ]

unfoldable pub set_expected_device_id : String → SecurityConfiguration → SecurityConfiguration
set_expected_device_id device_id c = record c { expected_device_id = device_id }

unfoldable pub lock : SecurityConfiguration → SecurityConfiguration
lock c = record c { locked = true }

unfoldable pub unlock : SecurityConfiguration → SecurityConfiguration
unlock c = record c { locked = false }
