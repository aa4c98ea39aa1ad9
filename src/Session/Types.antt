-- ===== src/Session/Types.antt =====
-- The types of include/fountainer/protocol/session.hpp, ota_policy.hpp and connection.hpp, and the
-- code outside the repository that a session calls.
use fountainer_client_framew.Common.{ℕ, Bool, Option, String, List}
use fountainer_client_framew.Error.{Error, Result}
use fountainer_client_framew.Json.{Json}
use fountainer_client_framew.Auth.{Crypto, AuthContext}
use fountainer_client_framew.Auth.Replay.{AntiReplay}
use fountainer_client_framew.Dispatcher.Types.{RateBudget, Dispatcher}

pub data SessionState : Type 0 where
  closed await_hello await_proof running : SessionState

-- `to_string`.
unfoldable pub state_text : SessionState → String
state_text closed = "closed"
state_text await_hello = "await_hello"
state_text await_proof = "await_proof"
state_text running = "running"

pub record ConnectionInfo : Type 0 where
  pub device_id : String
  pub serial : String
  pub firmware_version : String
  pub hardware_revision : String
  pub boot_reason : String
  pub protocol_version : ℕ
  pub auth_scheme : String
  pub auth_scope : String
  pub auth_kid : String
  pub established_at : ℕ

pub record OtaCheck : Type 0 where
  pub current_version : String
  pub hw_rev : String

pub data OtaDecision : Type 0 where
  no_update : OtaDecision
  ota_available : String → String → String → ℕ → OtaDecision

-- `OtaPolicy::check`.
abbrev pub OtaPolicy : Type 0
OtaPolicy = ConnectionInfo → OtaCheck → OtaDecision

-- `NoUpdatePolicy::check`.
unfoldable pub no_update_policy : OtaPolicy
no_update_policy device request = no_update

-- `CredentialProvider::resolve` of a device and a key id; the key is its bytes.
abbrev pub CredentialProvider : Type 0
CredentialProvider = String → String → Result (List ℕ)

pub record SessionConfig : Type 0 where
  pub credentials : Option CredentialProvider
  pub kid : String
  pub expected_device_id : String
  pub ota_policy : Option OtaPolicy
  pub handshake_timeout : ℕ
  pub default_request_timeout : ℕ
  pub budget : RateBudget

-- What a session calls outside the repository, on a world `W`: the injected `send_` and `now_`, the
-- wall clock, OpenSSL's random bytes (`none` where they fail), and of nlohmann::json the parser
-- (`none` is a discarded value), the printer and the casts of doubles.
pub record Platform (W : Type 0) : Type 0 where
  pub deliver : W → String → Bool × W
  pub clock : W → ℕ
  pub now_ms : W → ℕ
  pub random_bytes : W → Option (List ℕ) × W
  pub parse : String → Option Json
  pub dump : Json → String
  pub float_to_bits : ℕ → ℕ → ℕ
  pub to_float : Json → ℕ
  pub crypto : Crypto

-- The members that the function given to the dispatcher shares with the session.
pub record Link (W : Type 0) : Type 0 where
  pub state : SessionState
  pub auth : AuthContext
  pub s2c_seq : ℕ
  pub msg_seq : ℕ
  pub last_tx : ℕ
  pub world : W

pub data Callback : Type 0 where
  on_ready on_failed on_dp_report on_heartbeat on_device_alert : Callback
  on_ota_status on_error_report on_warning on_unknown : Callback

pub record Heartbeat : Type 0 where
  pub uptime_s : ℕ
  pub firmware_version : String
  pub fault_active : Bool
  pub received_at : ℕ

pub record DeviceAlert : Type 0 where
  pub code : String
  pub severity : String
  pub datapoint : String
  pub value : Option ℕ
  pub threshold : Option ℕ
  pub detail : String
  pub received_at : ℕ

pub record OtaStatus : Type 0 where
  pub target_version : String
  pub state : String
  pub attempt : ℕ
  pub progress_pct : ℕ
  pub error : String
  pub error_detail : String

pub record ErrorReport : Type 0 where
  pub status : String
  pub active_faults : Json
  pub log : Json

-- A call of a callback or of `close_`.
pub data Notice : Type 0 where
  is_ready : ConnectionInfo → Notice
  has_failed : Error → Notice
  dp_report : Json → Option ℕ → Notice
  heartbeat : Heartbeat → Notice
  device_alert : DeviceAlert → Notice
  ota_status : OtaStatus → Notice
  error_report : ErrorReport → Notice
  protocol_warning : String → String → Notice
  unknown_message : String → Json → Notice
  closes : ℕ → String → Notice

-- `notices` lists the calls of the callbacks, the latest first; `callbacks` says which are set.
-- The session gives the dispatcher its own `warn`: a `warned` event in the dispatcher's trace is a call
-- of `on_warning` too, where that callback is set.
pub record Session (W : Type 0) : Type 0 where
  pub config : SessionConfig
  pub callbacks : Callback → Bool
  pub dispatcher : Dispatcher (Link W)
  pub replay : AntiReplay
  pub info : ConnectionInfo
  pub handshake_deadline : ℕ
  pub failed : Bool
  pub notices : List Notice
