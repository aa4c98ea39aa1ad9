-- ===== src/Session/Machine.antt =====
-- The state of a session: construction, `enter`, `abort`, and the messages it sends.
use fountainer_client_framew.Common.{
  ℕ, ◌+◌, Bool, true, false, Option, none, some, String, [], ◌∷◌, if◌then◌else◌,
}
use fountainer_client_framew.Error.{Error}
use fountainer_client_framew.Json.{Json}
use fountainer_client_framew.Auth.{AuthContext}
use fountainer_client_framew.Auth.Replay.{fresh_replay}
use fountainer_client_framew.Dispatcher.{fail_all, submit, set_warning_handler, set_sending_enabled}
use fountainer_client_framew.Dispatcher.Types.{RequestSpec, Dispatcher}
use fountainer_client_framew.Dispatcher.Run.{init}
use fountainer_client_framew.Session.Types.{
  SessionState, closed, await_hello, await_proof, running, ConnectionInfo, SessionConfig, Platform,
  Link, Callback, on_failed, has_failed, closes, Session,
}
use fountainer_client_framew.Session.Sender.{is_running, send_message, encode_and_send}
use fountainer_client_framew.Session.Values.{random_nonce_b64}
use fountainer_client_framew.Session.Reports.{notify}

abbrev pub same_state : SessionState → SessionState → Bool
same_state closed closed = true
same_state await_hello await_hello = true
same_state await_proof await_proof = true
same_state running running = true
same_state _ _ = false

abbrev pub no_info : ConnectionInfo
no_info = record {
  device_id = "";
  serial = "";
  firmware_version = "";
  hardware_revision = "";
  boot_reason = "";
  protocol_version = 0;
  auth_scheme = "";
  auth_scope = "";
  auth_kid = "";
  established_at = 0;
}

abbrev no_auth : AuthContext
no_auth = record { key = []; kid = ""; device_id = ""; server_nonce = ""; client_nonce = "" }

module _ {W : Type 0} where
  abbrev pub link : Session W → Link W
  link s = s.dispatcher.sender

  abbrev pub with_link : Link W → Session W → Session W
  with_link l s = record s { dispatcher = record s.dispatcher { sender = l } }

  abbrev pub with_dispatcher : Dispatcher (Link W) → Session W → Session W
  with_dispatcher d s = record s { dispatcher = d }

  abbrev no_link : W → Link W
  no_link world = record {
    state = closed;
    auth = no_auth;
    s2c_seq = 0;
    msg_seq = 0;
    last_tx = 0;
    world = world;
  }

  -- The constructor, and `set_callbacks`.
  unfoldable pub new_session : SessionConfig → (Callback → Bool) → W → Session W
  new_session config callbacks world = record {
    config = config;
    callbacks = callbacks;
    dispatcher = set_warning_handler true (
        set_sending_enabled false
          (init (no_link world) config.budget config.default_request_timeout));
    replay = fresh_replay;
    info = no_info;
    handshake_deadline = 0;
    failed = false;
    notices = [];
  }

  unfoldable pub enter : SessionState → Session W → Session W
  enter next s =
      if same_state (link s).state next
      then s
      else with_dispatcher
          (set_sending_enabled (is_running next)
            (record s.dispatcher { sender = record (link s) { state = next } }))
          s

  unfoldable pub abort : Error → ℕ → String → Session W → Session W
  unfolding enter notify
  abort error close_code reason s =
      if s.failed
      then s
      else (let t = enter closed (record s { failed = true }) in
          notify on_failed (has_failed error) (record t {
            dispatcher = fail_all error t.dispatcher;
            notices = closes close_code reason ∷ t.notices;
          }))

  unfoldable pub on_transport_closed : Error → Session W → Session W
  unfolding enter
  on_transport_closed error s =
      let t = enter closed s in with_dispatcher (fail_all error t.dispatcher) t

module _ {W : Type 0} (p : Platform W) where
  -- `none` is the exception of a random generator that fails.
  unfoldable pub on_transport_open : Session W → Option (Session W)
  unfolding enter
  on_transport_open s =
      let (nonce, w) = random_nonce_b64 p (link s).world in
      elim nonce [
        | none ↦ none
        | some server_nonce ↦ some (
            enter await_hello (
              with_link
                (record (link s) {
                  auth = record no_auth { kid = s.config.kid; server_nonce = server_nonce };
                  s2c_seq = 0;
                  msg_seq = 0;
                  last_tx = p.clock w;
                  world = w;
                })
                (record s {
                  replay = fresh_replay;
                  info = no_info;
                  handshake_deadline = p.clock w + s.config.handshake_timeout;
                  failed = false;
                })))
      ]

  unfoldable pub request : RequestSpec → Option ℕ → Session W → Session W
  request spec handler s =
      with_dispatcher
        (submit (encode_and_send p) spec handler (p.clock (link s).world) s.dispatcher) s

  -- `send_message`, whose callers drop its result.
  unfoldable pub say : String → Json → String → Session W → Option (Session W)
  say type body in_reply_to s = elim (send_message p type body in_reply_to (link s)) [
    | none ↦ none
    | some sent ↦ some (with_link sent.1 s)
  ]
