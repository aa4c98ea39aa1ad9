-- ===== src/Session/Waits.antt =====
-- What keeps a session from running: everything but the proof of the device.
use fountainer_client_framew.Common.{
  ℕ, ◌≡◌, refl, subst, Bool, false, not, ◌||◌, String, same_text, is_empty,
}
use fountainer_client_framew.Error.{Error}
use fountainer_client_framew.Json.{Json, value_text}
use fountainer_client_framew.Dispatcher.Types.{Dispatcher}
use fountainer_client_framew.Dispatcher.Run
use fountainer_client_framew.Dispatcher.Run.{Call}
use fountainer_client_framew.Dispatcher.History.{AllowsCall, step_inv}
use fountainer_client_framew.Session.Types.{SessionState, await_proof, Platform, Link, Session}
use fountainer_client_framew.Session.Sender.{is_running, encode_and_send}
use fountainer_client_framew.Session.Quiet.{Quiet, Quiet-Kept}
use fountainer_client_framew.Session.Branches.{Each, Each-bind, Each-if}
use fountainer_client_framew.Session.Machine.{enter, abort, say}
use fountainer_client_framew.Session.Handshake.{
  Choice, handle_hello, read_hello, read_info, negotiate, accept_hello, answer_hello, offers_scheme,
  greeted, choice_of, is_foreign, foreign_device,
}
use fountainer_client_framew.Session.States.{
  Avoids, enter-Avoids, abort-Avoids, say-Avoids, refuse-Avoids,
}

module _ {W : Type 0} (p : Platform W) where
  abbrev pub Waits : Session W → Type 0
  Waits = Avoids is_running

  pub enter-Waits :
      (next : SessionState) (s : Session W)
      → is_running next ≡ false
      → Waits s
      → Waits (enter next s)
  enter-Waits = enter-Avoids p is_running refl

  pub abort-Waits :
      (error : Error) (code : ℕ) (reason : String) (s : Session W)
      → Waits s
      → Waits (abort error code reason s)
  abort-Waits = abort-Avoids p is_running refl

  -- The calls of the dispatcher keep the session's state.
  pub call-state :
      (c : Call) (d : Dispatcher (Link W))
      → AllowsCall (λ _. Unit {0}) c
      → (Run.step (encode_and_send p) c d).sender.state ≡ d.sender.state
  call-state c d a =
      (step_inv (encode_and_send p) (λ _. Unit {0}) (Quiet ⊥ d.sender.state d.sender.auth)
        (Quiet-Kept p ⊥ d.sender.state d.sender.auth (λ i. absurd i)) c d a
        (record { same_state = refl; same_auth = refl; idle = λ i. absurd i })).same_state

  accept_hello-Waits :
      (message : Json) (choice : Choice) (s : Session W)
      → Waits s
      → Each Waits (accept_hello p message choice s)
  unfolding accept_hello
  accept_hello-Waits message choice s0 w =
      Each-bind Waits (value_text message "msg_id") _ (λ reply e.
        Each-bind Waits (say p "hello_ack" _ reply _) _ (λ t e'.
          enter-Waits await_proof t refl
            (subst (Each Waits) e' (say-Avoids p is_running refl "hello_ack" _ reply _ w))))

  answer_hello-Waits :
      (scheme_ok : Bool) (message : Json) (choice : Choice) (s : Session W)
      → Waits s
      → Each Waits (answer_hello p scheme_ok message choice s)
  unfolding answer_hello
  answer_hello-Waits scheme_ok message choice s w =
      Each-if Waits (is_foreign p s) _ _
        (refuse-Avoids p is_running refl message "unknown_device" (foreign_device p s) s w)
        (Each-if Waits (not scheme_ok || is_empty choice.chosen_kid) _ _
          (refuse-Avoids p is_running refl message "auth_required" choice.resolve_error s w)
          (accept_hello-Waits message choice s w))

  negotiate-Waits : (message : Json) (s : Session W) → Waits s → Each Waits (negotiate p message s)
  unfolding negotiate
  negotiate-Waits message s w =
      answer_hello-Waits (offers_scheme p message) message (choice_of p message s) s w

  pub handle_hello-Waits :
      (message : Json) (s : Session W) → Waits s → Each Waits (handle_hello p message s)
  unfolding handle_hello read_hello
  handle_hello-Waits message s w = Each-bind Waits (value_text message "type") _ (λ type e.
      Each-if Waits (same_text type "protocol_mismatch") _ _ (abort-Waits _ _ _ s w) (
        Each-if Waits (same_text type "hello") _ _
          (Each-bind Waits (read_info message s.info p) _ (λ info e'.
            Each-bind Waits (value_text message "client_nonce") _
              (λ nonce e''. negotiate-Waits message (greeted p info nonce s) w)))
          (abort-Waits _ _ _ s w)))
