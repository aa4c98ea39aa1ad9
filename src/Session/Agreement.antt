-- ===== src/Session/Agreement.antt =====
-- The hello that takes a session to `AwaitProof`.
use fountainer_client_framew.Common.{
  ◌≡◌, ◌≢◌, refl, sym, ◌∙◌, inl, inr, subst, false, not, ◌||◌, some, String, Bool-cases,
  Option-cases, same_text, is_empty,
}
use fountainer_client_framew.Error.{Error}
use fountainer_client_framew.Auth.{AuthContext}
use fountainer_client_framew.Json.{Json, value_text}
use fountainer_client_framew.Session.Types.{
  SessionState, await_proof, ConnectionInfo, Platform, Session,
}
use fountainer_client_framew.Session.Values.{value_bits}
use fountainer_client_framew.Session.Sender.{send_message}
use fountainer_client_framew.Session.Branches.{Each, Each-bind, Each-if, Each-weaken, if-lem}
use fountainer_client_framew.Session.Machine.{same_state, link, enter, say}
use fountainer_client_framew.Session.Handshake.{
  Choice, offers_scheme, choice_of, is_foreign, foreign_device, greeted, read_info, refuse,
  accept_hello, answer_hello, negotiate, read_hello, handle_hello,
}
use fountainer_client_framew.Session.Live.{send_message-link}
use fountainer_client_framew.Session.States.{Avoids, abort-Avoids, refuse-Avoids}
use fountainer_client_framew.Session.Keys.{Agreed, Settles, is_await_proof, choice_of-Agreed}

elsewhere : (state : SessionState) → state ≢ await_proof → same_state state await_proof ≡ false
elsewhere SessionState.closed n = refl
elsewhere SessionState.await_hello n = refl
elsewhere await_proof n = absurd (n refl)
elsewhere SessionState.running n = refl

module _ {W : Type 0} (p : Platform W) where
  -- The keys are those of `a`.
  abbrev HoldsKeys : AuthContext → Session W → Type 0
  HoldsKeys a t = (link t).auth ≡ a

  say-auth :
      (type : String) (body : Json) (reply : String) (s : Session W)
      → Each (HoldsKeys (link s).auth) (say p type body reply s)
  unfolding say
  say-auth type body reply s = elim (Option-cases (send_message p type body reply (link s))) [
    | inl none' ↦ rw (none', Each) tt
    | inr (r, e) ↦
        let k = rw (e, Each) at (send_message-link p 0 type body reply (link s)) in rw (e, Each) k.2
  ]

  enter-auth : (next : SessionState) (s : Session W) → (link (enter next s)).auth ≡ (link s).auth
  unfolding enter
  enter-auth next s =
      if-lem (HoldsKeys (link s).auth) (same_state (link s).state next) _ _ refl refl

  accept_hello-auth :
      (message : Json) (choice : Choice) (s : Session W)
      → Each
          (HoldsKeys (record (link s).auth {
            key = choice.key;
            kid = choice.chosen_kid;
            device_id = s.info.device_id;
          }))
          (accept_hello p message choice s)
  unfolding accept_hello
  accept_hello-auth message choice s =
      let a = record (link s).auth {
        key = choice.key;
        kid = choice.chosen_kid;
        device_id = s.info.device_id;
      } in
      Each-bind (HoldsKeys a) (value_text message "msg_id") _ (λ reply e.
        Each-bind (HoldsKeys a) (say p "hello_ack" _ reply _) _ (λ t e'.
          enter-auth await_proof t
          ∙ subst (Each (HoldsKeys a)) e' (say-auth "hello_ack" _ reply _)))

  refuse-Settles :
      (message : Json) (why : String) (error : Error) (s : Session W)
      → Avoids (is_await_proof p) s
      → Each (Settles p message s) (refuse p message why error s)
  refuse-Settles message why error s w =
      Each-weaken (Avoids (is_await_proof p)) (Settles p message s) (refuse p message why error s)
        (λ t k. inl k) (refuse-Avoids p (is_await_proof p) refl message why error s w)

  negotiate-Settles :
      (message : Json) (s : Session W)
      → Avoids (is_await_proof p) s
      → value_text message "device_id" ≡ some s.info.device_id
      → value_text message "client_nonce" ≡ some (link s).auth.client_nonce
      → Each (Settles p message s) (negotiate p message s)
  unfolding negotiate answer_hello
  negotiate-Settles message s w device nonce = elim (Bool-cases (is_foreign p s)) [
    | inl foreign ↦ rw foreign (refuse-Settles message "unknown_device" (foreign_device p s) s w)
    | inr ours ↦
        elim (Bool-cases
          (not (offers_scheme p message) || is_empty (choice_of p message s).chosen_kid)) [
            | inl unfit ↦
                rw (ours, unfit)
                  (refuse-Settles message "auth_required" (choice_of p message s).resolve_error s w)
            | inr fit ↦
                let agreed = choice_of-Agreed p message s ours fit device nonce in
                rw (ours, fit)
                  (Each-weaken _ (Settles p message s)
                    (accept_hello p message (choice_of p message s) s)
                    (λ t k. inr (subst (Agreed p message s.config) (sym k) agreed))
                    (accept_hello-auth message (choice_of p message s) s))
          ]
  ]

  read_info-device :
      (message : Json) (old : ConnectionInfo)
      → Each
          (λ (i : ConnectionInfo). value_text message "device_id" ≡ some i.device_id)
          (read_info message old p)
  unfolding read_info
  read_info-device message old =
      let P = λ (i : ConnectionInfo). value_text message "device_id" ≡ some i.device_id in
      Each-bind P (value_text message "device_id") _ (λ device e.
        Each-bind P (value_text message "serial") _ (λ serial _.
          Each-bind P (value_text message "fw_version") _ (λ version _.
            Each-bind P (value_text message "hw_rev") _ (λ revision _.
              Each-bind P (value_text message "boot_reason") _ (λ boot _.
                Each-bind P (value_bits p 256 message "protocol_version") _ (λ protocol _. e))))))

  handle_hello-Settles :
      (message : Json) (s : Session W)
      → Avoids (is_await_proof p) s
      → Each (Settles p message s) (handle_hello p message s)
  unfolding handle_hello read_hello
  handle_hello-Settles message s w =
      let P = Settles p message s in
      Each-bind P (value_text message "type") _ (λ type _.
        Each-if P (same_text type "protocol_mismatch") _ _
          (inl (abort-Avoids p (is_await_proof p) refl _ _ _ s w))
          (Each-if P (same_text type "hello") _ _
            (Each-bind P (read_info message s.info p) _ (λ info e.
              Each-bind P (value_text message "client_nonce") _ (λ nonce n.
                negotiate-Settles message (greeted p info nonce s) w
                  (subst
                    (Each
                      (λ (i : ConnectionInfo). value_text message "device_id" ≡ some i.device_id))
                    e (read_info-device message s.info))
                  n)))
            (inl (abort-Avoids p (is_await_proof p) refl _ _ _ s w))))

  -- A session that a hello takes to `AwaitProof` has agreed on the device that the hello names, which
  -- is the one expected if one is, on a scheme that was offered, and on the key that the credential
  -- provider has for this device and one of the offered key ids.
  pub handle_hello-Agreed :
      (message : Json) (s t : Session W)
      → (link s).state ≢ await_proof
      → handle_hello p message s ≡ some t
      → (link t).state ≡ await_proof
      → Agreed p message s.config (link t).auth
  handle_hello-Agreed message s t before e after =
      elim (subst (Each (Settles p message s)) e
        (handle_hello-Settles message s (elsewhere (link s).state before))) [
          | inl avoided ↦ cc (rw after at avoided)
          | inr agreed ↦ agreed
        ]
