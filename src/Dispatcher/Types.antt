-- ===== src/Dispatcher/Types.antt =====
-- The types of include/fountainer/protocol/dispatcher.hpp.
use fountainer_client_framew.Common.{ℕ, ◌+◌, ◌%◌, Bool, Option, String, List, u64_mod}
use fountainer_client_framew.Error.{Result}
use fountainer_client_framew.Json.{Json}
use fountainer_client_framew.Dispatcher.Store.{Map}

pub data OperationPriority : Type 0 where
  safety_control interactive_control interactive_read : OperationPriority
  log_transfer polling background : OperationPriority

-- The underlying `std::uint8_t`: a smaller value is more important.
abbrev pub rank : OperationPriority → ℕ
rank safety_control = 0
rank interactive_control = 1
rank interactive_read = 2
rank log_transfer = 3
rank polling = 4
rank background = 5

pub record RequestSpec : Type 0 where
  pub type : String
  pub body : Json
  pub timeout : Option ℕ
  pub priority : OperationPriority
  pub coalesce_key : String

pub record RateBudget : Type 0 where
  pub requests_per_second : ℕ
  pub burst : ℕ
  pub max_in_flight : ℕ

abbrev pub token_unit : ℕ
token_unit = 1000000000000

-- The counters that the dispatcher stores; `in_flight` and `queued` are read off on demand.
pub record Metrics : Type 0 where
  pub submitted : ℕ
  pub sent : ℕ
  pub completed : ℕ
  pub timeouts : ℕ
  pub send_failures : ℕ
  pub disconnect_failures : ℕ
  pub coalesced : ℕ
  pub rate_limit_deferrals : ℕ
  pub unexpected_responses : ℕ

-- `++` on a `std::uint64_t`.
abbrev pub incr : ℕ → ℕ
incr n = (n + 1) % u64_mod

pub record Waiting : Type 0 where
  pub spec : RequestSpec
  pub handlers : List (Option ℕ)
  pub deadline : ℕ
  pub sequence : ℕ

pub record Pending : Type 0 where
  pub type : String
  pub handlers : List (Option ℕ)
  pub deadline : ℕ

-- A call of a handler, of `send_` with what it returned, or of `warning_`.
pub data Event : Type 0 where
  called : ℕ → Result Json → Event
  sent : RequestSpec → Result String → Event
  warned : String → String → Event

-- `sender` is the state behind `send_`, and `warning` says that a warning handler is set.
pub record Dispatcher (S : Type 0) : Type 0 where
  pub sender : S
  pub trace : List Event
  pub warning : Bool
  pub budget : RateBudget
  pub default_timeout : ℕ
  pub queue : List Waiting
  pub pending : Map Pending
  pub sequence : ℕ
  pub tokens : ℕ
  pub last_refill : ℕ
  pub refill_initialised : Bool
  pub sending_enabled : Bool
  pub draining : Bool
  pub metrics : Metrics
