-- ===== src/Session/Welcome.antt =====
-- What the hello, and every frame, keeps of the promise to the handlers.
use fountainer_client_framew.Common.{
  ℕ, ◌≡◌, refl, subst, ap, ◌∙◌, Bool, false, not, ◌||◌, Option, none, some, String, same_text,
  is_empty,
}
use fountainer_client_framew.Error.{Error}
use fountainer_client_framew.Json.{Json, value_text, object}
use fountainer_client_framew.Session.Types.{
  SessionState, closed, await_hello, await_proof, running, Platform, Session,
}
use fountainer_client_framew.Session.Sender.{is_running}
use fountainer_client_framew.Session.Branches.{Each, Each-bind, Each-if}
use fountainer_client_framew.Session.Machine.{link, say}
use fountainer_client_framew.Session.Handshake.{
  Choice, handle_hello, read_hello, read_info, negotiate, refuse, accept_hello, answer_hello,
  offers_scheme, greeted, choice_of, is_foreign, foreign_device,
}
use fountainer_client_framew.Session.Running.{garbage, by_state, on_parsed, on_text}
use fountainer_client_framew.Session.Live.{link-Live, enter-Live, abort-Live, say-Live}
use fountainer_client_framew.Session.Passage.{
  Kept, warn-Live, dispatch_running-Live, handle_proof-Live,
}

module _ {W : Type 0} (p : Platform W) (h n : ℕ) where
  refuse-Live :
      (message : Json) (why : String) (error : Error) (s : Session W)
      → Kept p h n s
      → Each (Kept p h n) (refuse p message why error s)
  unfolding refuse
  refuse-Live message why error s v =
      Each-bind (Kept p h n) (value_text message "msg_id") _ (λ reply e.
        Each-bind (Kept p h n) (say p "hello_ack" _ reply s) _ (λ t e'.
          abort-Live p h n error 4004 why t
            (subst (Each (λ (t : Session W). Kept p h n t × ((link t).state ≡ (link s).state))) e'
              (say-Live p h n "hello_ack" _ reply s v)).0))

  accept_hello-Live :
      (message : Json) (choice : Choice) (s : Session W)
      → is_running (link s).state ≡ false
      → Kept p h n s
      → Each (Kept p h n) (accept_hello p message choice s)
  unfolding accept_hello
  accept_hello-Live message choice s0 off v =
      Each-bind (Kept p h n) (value_text message "msg_id") _ (λ reply e.
        Each-bind (Kept p h n) (say p "hello_ack" _ reply _) _ (λ t e'.
          let k =
            subst (Each (λ (t : Session W). Kept p h n t × ((link t).state ≡ (link s0).state))) e' (
              say-Live p h n "hello_ack" _ reply _ (link-Live p h n _ s0.dispatcher refl refl v)) in
          enter-Live p h n await_proof t (ap is_running k.1 ∙ off) k.0))

  answer_hello-Live :
      (scheme_ok : Bool) (message : Json) (choice : Choice) (s : Session W)
      → is_running (link s).state ≡ false
      → Kept p h n s
      → Each (Kept p h n) (answer_hello p scheme_ok message choice s)
  unfolding answer_hello
  answer_hello-Live scheme_ok message choice s off v =
      Each-if (Kept p h n) (is_foreign p s) _ _
        (refuse-Live message "unknown_device" (foreign_device p s) s v)
        (Each-if (Kept p h n) (not scheme_ok || is_empty choice.chosen_kid) _ _
          (refuse-Live message "auth_required" choice.resolve_error s v)
          (accept_hello-Live message choice s off v))

  negotiate-Live :
      (message : Json) (s : Session W)
      → is_running (link s).state ≡ false
      → Kept p h n s
      → Each (Kept p h n) (negotiate p message s)
  unfolding negotiate
  negotiate-Live message s off v =
      answer_hello-Live (offers_scheme p message) message (choice_of p message s) s off v

  read_hello-Live :
      (message : Json) (s : Session W)
      → is_running (link s).state ≡ false
      → Kept p h n s
      → Each (Kept p h n) (read_hello p message s)
  unfolding read_hello
  read_hello-Live message s off v = Each-bind (Kept p h n) (read_info message s.info p) _ (λ info e.
      Each-bind (Kept p h n) (value_text message "client_nonce") _ (λ nonce e'.
        negotiate-Live message (greeted p info nonce s) off
          (link-Live p h n _ s.dispatcher refl refl v)))

  handle_hello-Live :
      (message : Json) (s : Session W)
      → is_running (link s).state ≡ false
      → Kept p h n s
      → Each (Kept p h n) (handle_hello p message s)
  unfolding handle_hello
  handle_hello-Live message s off v =
      Each-bind (Kept p h n) (value_text message "type") _ (λ type e.
        Each-if (Kept p h n) (same_text type "protocol_mismatch") _ _ (abort-Live p h n _ _ _ s v) (
          Each-if (Kept p h n) (same_text type "hello") _ _ (read_hello-Live message s off v)
            (abort-Live p h n _ _ _ s v)))

  by_state-Live :
      (state : SessionState) (message : Json) (s : Session W)
      → (link s).state ≡ state
      → Kept p h n s
      → Each (Kept p h n) (by_state p state message s)
  unfolding by_state
  by_state-Live closed message s e v = v
  by_state-Live await_hello message s e v = handle_hello-Live message s (ap is_running e) v
  by_state-Live await_proof message s e v = handle_proof-Live p h n message s (ap is_running e) v
  by_state-Live running message s e v = dispatch_running-Live p h n message s v

  garbage-Live :
      (state : SessionState) (s : Session W) → Kept p h n s → Each (Kept p h n) (garbage p state s)
  unfolding garbage
  garbage-Live running s v = warn-Live p h n _ _ s v
  garbage-Live closed s v = abort-Live p h n _ _ _ s v
  garbage-Live await_hello s v = abort-Live p h n _ _ _ s v
  garbage-Live await_proof s v = abort-Live p h n _ _ _ s v

  on_parsed-Live :
      (parsed : Option Json) (s : Session W)
      → Kept p h n s
      → Each (Kept p h n) (on_parsed p parsed s)
  unfolding on_parsed
  on_parsed-Live none s v = garbage-Live (link s).state s v
  on_parsed-Live (some (object fs)) s v = by_state-Live (link s).state (object fs) s refl v
  on_parsed-Live (some Json.null) s v = garbage-Live (link s).state s v
  on_parsed-Live (some (Json.boolean _)) s v = garbage-Live (link s).state s v
  on_parsed-Live (some (Json.number_integer _)) s v = garbage-Live (link s).state s v
  on_parsed-Live (some (Json.number_unsigned _)) s v = garbage-Live (link s).state s v
  on_parsed-Live (some (Json.number_float _)) s v = garbage-Live (link s).state s v
  on_parsed-Live (some (Json.text _)) s v = garbage-Live (link s).state s v
  on_parsed-Live (some (Json.array _)) s v = garbage-Live (link s).state s v

  pub on_text-Live :
      (frame : String) (s : Session W) → Kept p h n s → Each (Kept p h n) (on_text p frame s)
  unfolding on_text
  on_text-Live frame s v = on_parsed-Live (p.parse frame) s v
