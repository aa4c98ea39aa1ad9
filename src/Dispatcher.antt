-- ===== src/Dispatcher.antt =====
-- include/fountainer/protocol/dispatcher.hpp and src/protocol/dispatcher.cpp.
-- Times and durations are nanoseconds of the steady clock. A token is `token_unit` = 10^12 units and a
-- rate is given in thousandths of a request per second, so that a nanosecond earns `rate` units exactly.
-- A handler is named by a number, and `none` is an empty `std::function`; handlers do not call back
-- into the dispatcher. `trace` lists the calls of the injected functions, the latest first.
pub mod Store
pub mod Types
pub mod Queue
pub mod Counts
pub mod Sender
pub mod Rules
pub mod Run
pub mod Inversion
pub mod History
pub mod Handlers
pub mod Deadlines
pub mod Flight
pub mod Accounting
pub mod Order
pub mod Keys
pub mod Rate
use fountainer_client_framew.Common.{
  ℕ, zero, suc, ◌+◌, ◌-◌, ◌*◌, ◌%◌, min, Bool, true, false, not, ◌||◌, ◌&&◌, Option, none, some,
  String, List, [], ◌∷◌, ◌++◌, length, ltb, is_empty, concat, if◌then◌else◌, u64_mod,
}
use fountainer_client_framew.Error.{Error, Result, ok, err, protocol_error}
use fountainer_client_framew.Error.{ErrorCode}
use fountainer_client_framew.Json.{Json, value_text}
use fountainer_client_framew.Messages.{MessageMeta, find_meta, accepts_response}
use Store.{Map, emplace, erase, get}
use Types.{
  RequestSpec, RateBudget, Waiting, Pending, Event, sent, warned, Dispatcher, token_unit, incr,
}
use Queue.{
  complete, sweep_queue, sweep_pending, take_next, has_key, merge_into, value_or, fail_pending,
  fail_queue,
}

abbrev unexpected_response : String → String → Error
unexpected_response request_type type =
    record (protocol_error ErrorCode.unexpected_response_type
      (concat (request_type ∷ " was answered with '" ∷ type ∷ "'" ∷ []))) {
        operation = some request_type;
      }

-- `request_meta != nullptr && !request_meta->accepts_response(type)`.
pub mismatched : Option MessageMeta → String → Bool
mismatched none type = false
mismatched (some meta) type = not (accepts_response meta type)

module _ {S : Type 0} where
  unfoldable pub refill : ℕ → Dispatcher S → Dispatcher S
  refill now d =
      if d.refill_initialised
      then (if ltb d.last_refill now
          then record d {
            last_refill = now;
            tokens =
                min d.budget.burst
                  (d.tokens + (now - d.last_refill) * d.budget.requests_per_second);
          }
          else d)
      else record d { last_refill = now; refill_initialised = true }

  -- What follows `send_(waiting.spec)` in the loop of `drain`.
  unfoldable pub after_send : Waiting → Result String → Dispatcher S → Dispatcher S
  after_send w (err e) d = record d {
    metrics = record d.metrics { send_failures = incr d.metrics.send_failures };
    trace = complete w.handlers (err e) (sent w.spec (err e) ∷ d.trace);
  }
  after_send w (ok id) d = record d {
    tokens = d.tokens - token_unit;
    metrics = record d.metrics { sent = incr d.metrics.sent };
    pending =
        emplace id (record { type = w.spec.type; handlers = w.handlers; deadline = w.deadline })
          d.pending;
    trace = sent w.spec (ok id) ∷ d.trace;
  }

  abbrev pub defer : Dispatcher S → Dispatcher S
  defer d = record d {
    metrics = record d.metrics { rate_limit_deferrals = incr d.metrics.rate_limit_deferrals };
  }

  unfoldable pub expire_queue : ℕ → Dispatcher S → Dispatcher S
  expire_queue now d =
      let s = sweep_queue now d.queue d.trace d.metrics.timeouts in
      record d {
        queue = s.kept;
        trace = s.trace;
        metrics = record d.metrics { timeouts = s.timeouts };
      }

  unfoldable pub expire_pending : ℕ → Dispatcher S → Dispatcher S
  expire_pending now d =
      let s = sweep_pending now d.pending d.trace d.metrics.timeouts in
      record d {
        pending = s.kept;
        trace = s.trace;
        metrics = record d.metrics { timeouts = s.timeouts };
      }

  abbrev pub count_submitted : Dispatcher S → Dispatcher S
  count_submitted d = record d {
    metrics = record d.metrics { submitted = incr d.metrics.submitted };
  }

  -- The branch of `submit` that attaches to a waiting request.
  unfoldable pub coalesce : RequestSpec → Option ℕ → ℕ → Dispatcher S → Dispatcher S
  coalesce spec handler deadline d = record d {
    queue = merge_into d.queue spec handler deadline;
    metrics = record d.metrics { coalesced = incr d.metrics.coalesced };
  }

  -- The branch of `submit` that queues a new request.
  unfoldable pub enqueue : RequestSpec → Option ℕ → ℕ → Dispatcher S → Dispatcher S
  enqueue spec handler deadline d = record d {
    sequence = incr d.sequence;
    queue =
        d.queue
        ++ record {
          spec = spec;
          handlers = handler ∷ [];
          deadline = deadline;
          sequence = incr d.sequence;
        }
          ∷ [];
  }

  unfoldable pub warn : String → String → Dispatcher S → Dispatcher S
  warn reason type d = if d.warning then record d { trace = warned reason type ∷ d.trace } else d

  -- An answer of a type that the request does not accept.
  unfoldable pub reject : Pending → String → Dispatcher S → Dispatcher S
  unfolding warn
  reject p type d =
      let e = warn (concat ("unexpected response type for " ∷ p.type ∷ [])) type (record d {
        metrics = record d.metrics { unexpected_responses = incr d.metrics.unexpected_responses };
      }) in
      record e { trace = complete p.handlers (err (unexpected_response p.type type)) e.trace }

  unfoldable pub accept : Pending → Json → Dispatcher S → Dispatcher S
  accept p message d = record d {
    metrics = record d.metrics { completed = incr d.metrics.completed };
    trace = complete p.handlers (ok message) d.trace;
  }

  -- The answer to an open request, which is taken out of `pending_` first.
  unfoldable pub answer : String → Pending → String → Json → Dispatcher S → Dispatcher S
  answer id p type message d0 =
      let d = record d0 { pending = erase id d0.pending } in
      if mismatched (find_meta p.type) type then reject p type d else accept p message d

  -- `on_message` on a member `in_reply_to` that is a text. `none` is an exception of the JSON library.
  correlate : String → Json → Dispatcher S → Option (Bool × Dispatcher S)
  correlate id message d = elim (get id d.pending) [
    | none ↦
        (if d.warning
          then elim (value_text message "type") [
            | none ↦ none
            | some type ↦ some (true, warn "response for an unknown or expired request" type d)
          ]
          else some (true, d))
    | some p ↦ elim (value_text message "type") [
      | none ↦ none
      | some type ↦ some (true, answer id p type message d)
    ]
  ]

  unfoldable pub on_message : Json → Dispatcher S → Option (Bool × Dispatcher S)
  unfolding correlate
  on_message message d = elim (value_text message "in_reply_to") [
    | none ↦ none
    | some id ↦ if is_empty id then some (false, d) else correlate id message d
  ]

  unfoldable pub fail_all : Error → Dispatcher S → Dispatcher S
  fail_all error d = record d {
    pending = [];
    queue = [];
    metrics = record d.metrics {
      disconnect_failures =
          (d.metrics.disconnect_failures + (length d.pending + length d.queue)) % u64_mod;
    };
    trace = fail_queue d.queue (err error) (fail_pending d.pending (err error) d.trace);
  }

  abbrev pub set_budget : RateBudget → Dispatcher S → Dispatcher S
  set_budget budget d = record d { budget = budget }

  abbrev pub set_default_timeout : ℕ → Dispatcher S → Dispatcher S
  set_default_timeout timeout d = record d { default_timeout = timeout }

  abbrev pub set_warning_handler : Bool → Dispatcher S → Dispatcher S
  set_warning_handler is_set d = record d { warning = is_set }

  abbrev pub set_sending_enabled : Bool → Dispatcher S → Dispatcher S
  set_sending_enabled enabled d = record d { sending_enabled = enabled }

module _ {S : Type 0} (send_ : S → RequestSpec → Result String × S) where
  -- One round of the loop on a queue that is not empty, with a token left.
  unfoldable pub send_next : Waiting → List Waiting → Dispatcher S → Dispatcher S
  unfolding after_send
  send_next w ws d =
      let (next, rest) = take_next w ws in
      let (result, s) = send_ d.sender next.spec in
      after_send next result (record d { queue = rest; sender = s })

  -- The loop of `drain`: each round takes one entry, so the queue's length is fuel enough.
  pub drain_loop : ℕ → Dispatcher S → Dispatcher S
  drain_loop zero d = d
  drain_loop (suc fuel) d = elim d.queue [
    | [] ↦ d
    | w ∷ ws ↦
        (let rest = drain_loop fuel (send_next w ws d) in
          if ltb (length d.pending) d.budget.max_in_flight
          then (if ltb d.tokens token_unit then defer d else rest)
          else d)
  ]

  pub drain : Dispatcher S → Dispatcher S
  drain d =
      if not d.sending_enabled || d.draining
      then d
      else (record (drain_loop (length d.queue) (record d { draining = true })) {
        draining = false;
      })

  pub tick : ℕ → Dispatcher S → Dispatcher S
  tick now d = drain (expire_pending now (expire_queue now (refill now d)))

  pub submit : RequestSpec → Option ℕ → ℕ → Dispatcher S → Dispatcher S
  submit spec handler now d0 =
      let d = count_submitted d0 in
      let deadline = now + value_or spec.timeout d.default_timeout in
      if not (is_empty spec.coalesce_key) && has_key spec.coalesce_key d.queue
      then coalesce spec handler deadline d
      else tick now (enqueue spec handler deadline d)
