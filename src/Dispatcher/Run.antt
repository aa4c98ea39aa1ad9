-- ===== src/Dispatcher/Run.antt =====
-- A dispatcher from its constructor on, and a history of calls of its methods.
use fountainer_client_framew.Common.{
  ℕ, Bool, true, false, Option, none, some, String, List, [], ◌∷◌,
}
use fountainer_client_framew.Error.{Error, Result}
use fountainer_client_framew.Json.{Json}
use fountainer_client_framew.Dispatcher.{
  on_message, fail_all, tick, submit, set_budget, set_default_timeout, set_warning_handler,
  set_sending_enabled,
}
use fountainer_client_framew.Dispatcher.Types.{RequestSpec, RateBudget, Metrics, Dispatcher}

abbrev no_metrics : Metrics
no_metrics = record {
  submitted = 0;
  sent = 0;
  completed = 0;
  timeouts = 0;
  send_failures = 0;
  disconnect_failures = 0;
  coalesced = 0;
  rate_limit_deferrals = 0;
  unexpected_responses = 0;
}

-- The constructor.
abbrev pub init : {S : Type 0} → S → RateBudget → ℕ → Dispatcher S
init sender budget default_timeout = record {
  sender = sender;
  trace = [];
  warning = false;
  budget = budget;
  default_timeout = default_timeout;
  queue = [];
  pending = [];
  sequence = 0;
  tokens = budget.burst;
  last_refill = 0;
  refill_initialised = false;
  sending_enabled = true;
  draining = false;
  metrics = no_metrics;
}

pub data Call : Type 0 where
  submits : RequestSpec → Option ℕ → ℕ → Call
  ticks : ℕ → Call
  receives : Json → Call
  fails : Error → Call
  budgets : RateBudget → Call
  timeouts : ℕ → Call
  warns : Bool → Call
  enables : Bool → Call

abbrev pub received : {S : Type 0} → Dispatcher S → Option (Bool × Dispatcher S) → Dispatcher S
received d none = d
received d (some (consumed, d')) = d'

module _ {S : Type 0} (send_ : S → RequestSpec → Result String × S) where
  unfoldable pub step : Call → Dispatcher S → Dispatcher S
  step (submits spec handler now) d = submit send_ spec handler now d
  step (ticks now) d = tick send_ now d
  step (receives message) d = received d (on_message message d)
  step (fails error) d = fail_all error d
  step (budgets budget) d = set_budget budget d
  step (timeouts timeout) d = set_default_timeout timeout d
  step (warns is_set) d = set_warning_handler is_set d
  step (enables enabled) d = set_sending_enabled enabled d

  unfoldable pub run : List Call → Dispatcher S → Dispatcher S
  run [] d = d
  run (c ∷ cs) d = run cs (step c d)
