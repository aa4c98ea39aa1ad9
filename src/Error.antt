-- ===== src/Error.antt =====
-- include/fountainer/error.hpp, src/error.cpp and include/fountainer/result.hpp.
use fountainer_client_framew.Common.{
  ◌≡◌, refl, ◌⊎◌, inl, inr, Bool, true, false, Option, none, some, String, [], ◌∷◌, concat, join,
  is_empty, if◌then◌else◌,
}

pub data ErrorDomain : Type 0 where
  configuration dns tcp tls web_socket protocol authentication validation : ErrorDomain
  timeout disconnected rate_limit remote cancelled internal : ErrorDomain

pub data ErrorCode : Type 0 where
  missing_credentials invalid_endpoint invalid_option file_not_readable : ErrorCode
  resolve_failed connect_failed tls_handshake_failed certificate_rejected : ErrorCode
  web_socket_handshake_failed transport_closed frame_too_large send_queue_full : ErrorCode
  protocol_mismatch unexpected_message unexpected_response_type malformed_message : ErrorCode
  handshake_failed auth_rejected replay_detected unknown_key_id : ErrorCode
  unknown_datapoint read_only_datapoint type_mismatch out_of_range value_too_long : ErrorCode
  constraint_violation empty_selection : ErrorCode
  request_timeout disconnected not_connected invalid_state cancelled rate_limited : ErrorCode
  device_busy remote_rejected not_supported internal : ErrorCode

-- `to_string(ErrorDomain)`.
domain_to_string : ErrorDomain → String
domain_to_string ErrorDomain.configuration = "configuration"
domain_to_string ErrorDomain.dns = "dns"
domain_to_string ErrorDomain.tcp = "tcp"
domain_to_string ErrorDomain.tls = "tls"
domain_to_string ErrorDomain.web_socket = "websocket"
domain_to_string ErrorDomain.protocol = "protocol"
domain_to_string ErrorDomain.authentication = "authentication"
domain_to_string ErrorDomain.validation = "validation"
domain_to_string ErrorDomain.timeout = "timeout"
domain_to_string ErrorDomain.disconnected = "disconnected"
domain_to_string ErrorDomain.rate_limit = "rate_limit"
domain_to_string ErrorDomain.remote = "remote"
domain_to_string ErrorDomain.cancelled = "cancelled"
domain_to_string ErrorDomain.internal = "internal"

-- `to_string(ErrorCode)`.
code_to_string : ErrorCode → String
code_to_string ErrorCode.missing_credentials = "missing_credentials"
code_to_string ErrorCode.invalid_endpoint = "invalid_endpoint"
code_to_string ErrorCode.invalid_option = "invalid_option"
code_to_string ErrorCode.file_not_readable = "file_not_readable"
code_to_string ErrorCode.resolve_failed = "resolve_failed"
code_to_string ErrorCode.connect_failed = "connect_failed"
code_to_string ErrorCode.tls_handshake_failed = "tls_handshake_failed"
code_to_string ErrorCode.certificate_rejected = "certificate_rejected"
code_to_string ErrorCode.web_socket_handshake_failed = "websocket_handshake_failed"
code_to_string ErrorCode.transport_closed = "transport_closed"
code_to_string ErrorCode.frame_too_large = "frame_too_large"
code_to_string ErrorCode.send_queue_full = "send_queue_full"
code_to_string ErrorCode.protocol_mismatch = "protocol_mismatch"
code_to_string ErrorCode.unexpected_message = "unexpected_message"
code_to_string ErrorCode.unexpected_response_type = "unexpected_response_type"
code_to_string ErrorCode.malformed_message = "malformed_message"
code_to_string ErrorCode.handshake_failed = "handshake_failed"
code_to_string ErrorCode.auth_rejected = "auth_rejected"
code_to_string ErrorCode.replay_detected = "replay_detected"
code_to_string ErrorCode.unknown_key_id = "unknown_key_id"
code_to_string ErrorCode.unknown_datapoint = "unknown_datapoint"
code_to_string ErrorCode.read_only_datapoint = "read_only"
code_to_string ErrorCode.type_mismatch = "type_mismatch"
code_to_string ErrorCode.out_of_range = "out_of_range"
code_to_string ErrorCode.value_too_long = "too_long"
code_to_string ErrorCode.constraint_violation = "constraint_violation"
code_to_string ErrorCode.empty_selection = "empty_selection"
code_to_string ErrorCode.request_timeout = "request_timeout"
code_to_string ErrorCode.disconnected = "disconnected"
code_to_string ErrorCode.not_connected = "not_connected"
code_to_string ErrorCode.invalid_state = "invalid_state"
code_to_string ErrorCode.cancelled = "cancelled"
code_to_string ErrorCode.rate_limited = "rate_limited"
code_to_string ErrorCode.device_busy = "device_busy"
code_to_string ErrorCode.remote_rejected = "remote_rejected"
code_to_string ErrorCode.not_supported = "not_supported"
code_to_string ErrorCode.internal = "internal"

pub record Error : Type 0 where
  pub domain : ErrorDomain
  pub code : ErrorCode
  pub message : String
  pub retryable : Bool
  pub operation : Option String
  pub datapoint : Option String
  pub remote_detail : Option String

-- `Result<T>`; `Result<void>`, which the source calls `Status`, carries the unit value.
pub data Result {ℓ} (A : Type ℓ) : Type ℓ where
  ok : A → Result A
  err : Error → Result A

pub Result-cases {ℓ} :
    {A : Type ℓ} (r : Result A) → ((a : A) × (r ≡ ok a)) ⊎ ((e : Error) × (r ≡ err e))
Result-cases (ok a) = inl (a, refl)
Result-cases (err e) = inr (e, refl)

abbrev pub Status : Type 0
Status = Result (Unit {0})

abbrev suffixed : String → Option String → String
suffixed label none = ""
suffixed label (some s) = concat (" [" ∷ label ∷ "=" ∷ s ∷ "]" ∷ [])

-- `Error::to_string`.
to_string : Error → String
unfolding domain_to_string code_to_string
to_string e = concat (
    domain_to_string e.domain
    ∷ "/"
    ∷ code_to_string e.code
    ∷ (if is_empty e.message then "" else join ": " e.message)
    ∷ suffixed "op" e.operation
    ∷ suffixed "dp" e.datapoint
    ∷ suffixed "remote" e.remote_detail
    ∷ [])

pub default_retryable : ErrorDomain → Bool
default_retryable ErrorDomain.dns = true
default_retryable ErrorDomain.tcp = true
default_retryable ErrorDomain.timeout = true
default_retryable ErrorDomain.disconnected = true
default_retryable ErrorDomain.rate_limit = true
default_retryable _ = false

unfoldable pub make_error : ErrorDomain → ErrorCode → String → Error
unfolding default_retryable
make_error domain code message = record {
  domain = domain;
  code = code;
  message = message;
  retryable = default_retryable domain;
  operation = none;
  datapoint = none;
  remote_detail = none;
}

unfoldable pub config_error : ErrorCode → String → Error
unfolding make_error
config_error = make_error ErrorDomain.configuration

unfoldable pub validation_error : ErrorCode → String → String → Error
unfolding make_error
validation_error code message datapoint =
    let e = make_error ErrorDomain.validation code message in
    if is_empty datapoint then e else record e { datapoint = some datapoint }

unfoldable pub timeout_error : String → Error
unfolding make_error
timeout_error operation =
    record (make_error ErrorDomain.timeout ErrorCode.request_timeout
      "no response within the request deadline") { operation = some operation }

unfoldable pub disconnected_error : String → Error
unfolding make_error
disconnected_error operation =
    record (make_error ErrorDomain.disconnected ErrorCode.disconnected
      "connection lost while the request was pending") { operation = some operation }

unfoldable pub cancelled_error : String → Error
unfolding make_error
cancelled_error operation =
    record (make_error ErrorDomain.cancelled ErrorCode.cancelled "request cancelled") {
      operation = some operation;
    }

unfoldable pub protocol_error : ErrorCode → String → Error
unfolding make_error
protocol_error = make_error ErrorDomain.protocol

unfoldable pub internal_error : String → Error
unfolding make_error
internal_error = make_error ErrorDomain.internal ErrorCode.internal
