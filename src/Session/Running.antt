-- ===== src/Session/Running.antt =====
-- The proof of the session, and what a session does with messages and with time.
use fountainer_client_framew.Common.{
  ℕ, Bool, true, false, ◌&&◌, Option, none, some, String, same_text, leb, join, if◌then◌else◌,
}
use fountainer_client_framew.Error.{Error, ErrorDomain, ErrorCode, make_error, protocol_error}
use fountainer_client_framew.Json.{
  Json, number_unsigned, text, object, end, field, find, value_text,
}
use fountainer_client_framew.Messages.{c2s}
use fountainer_client_framew.Auth.{VerifyResult, verified, reason, verify, ◌>>=◌}
use fountainer_client_framew.Auth.Replay.{check}
use fountainer_client_framew.Dispatcher
use fountainer_client_framew.Session.Types.{
  SessionState, closed, await_hello, await_proof, running, OtaDecision, no_update, ota_available,
  OtaPolicy, no_update_policy, Platform, Session, on_ready, is_ready,
}
use fountainer_client_framew.Session.Sender.{encode_and_send}
use fountainer_client_framew.Session.Values.{value_int64}
use fountainer_client_framew.Session.Reports.{notify, warn, report}
use fountainer_client_framew.Session.Machine.{link, with_dispatcher, enter, abort, say}
use fountainer_client_framew.Session.Handshake.{handle_hello}

-- `message["auth"]`.
abbrev pub auth_of : Json → Json
auth_of message = elim (find message "auth") [ none ↦ object end | some v ↦ v ]

abbrev pub has_auth : Json → Bool
has_auth message = elim (find message "auth") [ none ↦ false | some v ↦ true ]

-- The policy of the configuration; the constructor puts `NoUpdatePolicy` for an empty one.
abbrev pub policy_of : Option OtaPolicy → OtaPolicy
policy_of none = no_update_policy
policy_of (some policy) = policy

module _ {W : Type 0} (p : Platform W) where
  unfoldable pub answer_decision : OtaDecision → String → Session W → Option (Session W)
  answer_decision no_update reply s = say p "ota_none" (object end) reply s
  answer_decision (ota_available version url sha256 size) reply s =
      say p "ota_available"
        (object (
          field "sha256" (text sha256) (
            field "size" (number_unsigned size)
              (field "url" (text url) (field "version" (text version) end)))))
        reply s

  unfoldable pub answer_ota_check : Json → Session W → Option (Session W)
  unfolding answer_decision
  answer_ota_check message s = do
    version ← value_text message "current_version"
    revision ← value_text message "hw_rev"
    let decision =
        policy_of s.config.ota_policy s.info
          (record { current_version = version; hw_rev = revision })
    reply ← value_text message "msg_id"
    answer_decision decision reply s

  -- What follows the checks of `dispatch_running`.
  unfoldable pub deliver_message : String → Json → Session W → Option (Session W)
  deliver_message type message s = do
    (consumed, d) ← Dispatcher.on_message message s.dispatcher
    if consumed then some (with_dispatcher d s) else report p type message (with_dispatcher d s)

  -- A message with a member `auth`, on the result of `verify`.
  unfoldable pub authenticated : VerifyResult → String → Json → Session W → Option (Session W)
  unfolding deliver_message
  authenticated verified type message s = do
    seq ← value_int64 p (auth_of message) "seq"
    let (replay, fresh) = check s.replay seq
    if fresh
        then deliver_message type message (record s { replay = replay })
        else some (warn "dropping message: replay" type (record s { replay = replay }))
  authenticated result type message s =
      some (warn (join "dropping message: " (reason result)) type s)

  unfoldable pub dispatch_running : Json → Session W → Option (Session W)
  unfolding authenticated deliver_message
  dispatch_running message s = do
    type ← value_text message "type"
    if has_auth message
        then verify p.crypto message (link s).auth c2s
          >>= (λ result. authenticated result type message s)
        else deliver_message type message s

  -- `enter(Running)` and `on_ready`.
  abbrev pub start : Session W → Session W
  start s = let t = enter running s in notify on_ready (is_ready t.info) t

  -- `handle_proof` once the proof has been accepted.
  unfoldable pub establish : Json → Session W → Option (Session W)
  establish message s0 = do
    let s = record s0 { info = record s0.info { established_at = p.clock (link s0).world } }
    type ← value_text message "type"
    if same_text type "ota_check"
        then answer_ota_check message s >>= (λ t. some (start t))
        else dispatch_running message (start s)

  abbrev pub rejected_proof : String → Error
  rejected_proof why =
      make_error ErrorDomain.authentication ErrorCode.auth_rejected
        (join "session proof failed: " why)

  abbrev pub replayed_proof : Error
  replayed_proof =
      make_error ErrorDomain.authentication ErrorCode.replay_detected "session proof replayed"

  unfoldable pub proved : VerifyResult → Json → Session W → Option (Session W)
  unfolding establish
  proved verified message s = do
    seq ← value_int64 p (auth_of message) "seq"
    let (replay, fresh) = check s.replay seq
    if fresh
        then establish message (record s { replay = replay })
        else some (abort replayed_proof 4004 "auth_failed" (record s { replay = replay }))
  proved result message s = some (abort (rejected_proof (reason result)) 4004 "auth_failed" s)

  unfoldable pub handle_proof : Json → Session W → Option (Session W)
  unfolding proved
  handle_proof message s = do
    result ← verify p.crypto message (link s).auth c2s
    proved result message s

  unfoldable pub garbage : SessionState → Session W → Option (Session W)
  garbage running s = some (warn "invalid JSON discarded" "" s)
  garbage _ s = some (
      abort
        (protocol_error ErrorCode.malformed_message "peer sent something that is not a JSON object")
        4000 "invalid_json" s)

  -- `on_text` on a message, in a state.
  unfoldable pub by_state : SessionState → Json → Session W → Option (Session W)
  by_state closed message s = some s
  by_state await_hello message s = handle_hello p message s
  by_state await_proof message s = handle_proof message s
  by_state running message s = dispatch_running message s

  unfoldable pub on_parsed : Option Json → Session W → Option (Session W)
  unfolding garbage by_state
  on_parsed (some (object fs)) s = by_state (link s).state (object fs) s
  on_parsed _ s = garbage (link s).state s

  unfoldable pub on_text : String → Session W → Option (Session W)
  unfolding on_parsed
  on_text frame s = on_parsed (p.parse frame) s

  abbrev pub handshaking : SessionState → Bool
  handshaking await_hello = true
  handshaking await_proof = true
  handshaking _ = false

  unfoldable pub tick : ℕ → Session W → Session W
  tick now s =
      if handshaking (link s).state && leb s.handshake_deadline now
      then abort
          (make_error ErrorDomain.protocol ErrorCode.handshake_failed
            "no Fountain handshake within the deadline")
          4000 "handshake_timeout" s
      else with_dispatcher (Dispatcher.tick (encode_and_send p) now s.dispatcher) s
