-- ===== src/Session/Passage.antt =====
-- What each operation of a session keeps of the promise to the handlers, on every branch.
use fountainer_client_framew.Common.{
  ℕ, ◌≡◌, refl, subst, sym, ap, ◌∙◌, inl, inr, Bool, false, Option, none, some, String,
  Option-cases, same_text, arith,
}
use fountainer_client_framew.Json.{Json, value_text, object, end}
use fountainer_client_framew.Messages.{c2s, find_meta}
use fountainer_client_framew.Auth.{VerifyResult, verified, reason, verify}
use fountainer_client_framew.Auth.Replay.{check}
use fountainer_client_framew.Dispatcher
use fountainer_client_framew.Dispatcher.Types.{Dispatcher}
use fountainer_client_framew.Dispatcher.Run
use fountainer_client_framew.Dispatcher.Run.{received}
use fountainer_client_framew.Dispatcher.Run.{step}
use fountainer_client_framew.Session.Types.{
  on_heartbeat, on_dp_report, on_device_alert, on_ota_status, on_error_report, dp_report, running,
  Platform, Link, Callback, Notice, Session, OtaDecision, no_update, ota_available,
}
use fountainer_client_framew.Session.Sender.{is_running}
use fountainer_client_framew.Session.Values.{value_int64, value_json, report_seq}
use fountainer_client_framew.Session.Branches.{Each, Each-bind, Each-if, Each-weaken}
use fountainer_client_framew.Session.Reports.{
  notify, warn, reported, other_message, report, read_heartbeat, read_alert, read_ota_status,
  read_error_report,
}
use fountainer_client_framew.Session.Machine.{link, with_dispatcher, enter}
use fountainer_client_framew.Session.Running.{
  answer_ota_check, answer_decision, deliver_message, authenticated, dispatch_running, establish,
  proved, handle_proof, start, auth_of, has_auth,
}
use fountainer_client_framew.Session.Live.{
  Live, plain-Live, enter-Live, abort-Live, say-Live, notify-dispatcher,
}

module _ {W : Type 0} where
  -- A report leaves the dispatcher and the replay check alone.
  abbrev pub Leaves : Session W → Session W → Type 0
  Leaves s t = (t.dispatcher ≡ s.dispatcher) × (t.replay ≡ s.replay)

  pub notify-Leaves :
      (callback : Callback) (notice : Notice) (s : Session W) → Leaves s (notify callback notice s)
  unfolding notify
  notify-Leaves callback notice s = ground arith

  reported-Leaves :
      (callback : Callback) (read : Option Notice) (s : Session W)
      → Each (Leaves s) (reported callback read s)
  unfolding reported
  reported-Leaves callback none s =
      Each-if (Leaves s) (s.callbacks callback) none (some s) tt (refl, refl)
  reported-Leaves callback (some notice) s =
      Each-if (Leaves s) (s.callbacks callback) (some (notify callback notice s)) (some s)
        (notify-Leaves callback notice s) (refl, refl)

  other_message-Leaves :
      (type : String) (message : Json) (s : Session W) → Leaves s (other_message type message s)
  unfolding other_message warn
  other_message-Leaves type message s = elim (Option-cases (find_meta type)) [
    | inl unknown ↦ rw (unknown, other_message) (notify-Leaves _ _ s)
    | inr (meta, known) ↦ rw (known, other_message) (notify-Leaves _ _ s)
  ]

  pub report-Leaves :
      (p : Platform W) (type : String) (message : Json) (s : Session W)
      → Each (Leaves s) (report p type message s)
  unfolding report
  report-Leaves p type message s =
      Each-if (Leaves s) (same_text type "heartbeat") _ _
        (reported-Leaves on_heartbeat (read_heartbeat p message s) s)
        (Each-if (Leaves s) (same_text type "dp_report") _ _
          (reported-Leaves on_dp_report
            (some (dp_report (value_json message "dp" (object end)) (report_seq p message))) s)
          (Each-if (Leaves s) (same_text type "device_alert") _ _
            (reported-Leaves on_device_alert (read_alert p message s) s)
            (Each-if (Leaves s) (same_text type "ota_status") _ _
              (reported-Leaves on_ota_status (read_ota_status p message) s)
              (Each-if (Leaves s) (same_text type "error_report") _
                (some (other_message type message s))
                (reported-Leaves on_error_report (read_error_report p message) s)
                (other_message-Leaves type message s)))))

module _ {W : Type 0} (p : Platform W) (h n : ℕ) where
  abbrev pub Kept : Session W → Type 0
  Kept s = Live p h n s.dispatcher

  on_message-Live :
      (message : Json) (d d' : Dispatcher (Link W)) (b : Bool)
      → Dispatcher.on_message message d ≡ some (b, d')
      → Live p h n d
      → Live p h n d'
  unfolding step
  on_message-Live message d d' b e v =
      subst (Live p h n) (ap (received d) e) (plain-Live p h n (Run.receives message) d tt refl v)

  deliver_message-Live :
      (type : String) (message : Json) (s : Session W)
      → Kept s
      → Each Kept (deliver_message p type message s)
  unfolding deliver_message
  deliver_message-Live type message s v =
      Each-bind Kept (Dispatcher.on_message message s.dispatcher) _ (λ r e.
        let w = on_message-Live message s.dispatcher r.1 r.0 e v in
        Each-if Kept r.0 _ _ w (
          Each-weaken _ Kept (report p type message (with_dispatcher r.1 s))
            (λ t same. subst (Live p h n) (sym same.0) w)
            (report-Leaves p type message (with_dispatcher r.1 s))))

  pub warn-Live : (reason type : String) (s : Session W) → Kept s → Kept (warn reason type s)
  unfolding warn
  warn-Live reason type s v = subst (Live p h n) (sym (notify-dispatcher _ _ s)) v

  authenticated-Live :
      (result : VerifyResult) (type : String) (message : Json) (s : Session W)
      → Kept s
      → Each Kept (authenticated p result type message s)
  unfolding authenticated
  authenticated-Live verified type message s v =
      Each-bind Kept (value_int64 p (auth_of message) "seq") _ (λ seq e.
        Each-if Kept (check s.replay seq).1 _ _
          (deliver_message-Live type message (record s { replay = (check s.replay seq).0 }) v)
          (warn-Live _ _ (record s { replay = (check s.replay seq).0 }) v))
  authenticated-Live VerifyResult.missing_auth type message s v = warn-Live _ _ s v
  authenticated-Live VerifyResult.kid_mismatch type message s v = warn-Live _ _ s v
  authenticated-Live VerifyResult.bad_seq type message s v = warn-Live _ _ s v
  authenticated-Live VerifyResult.mac_mismatch type message s v = warn-Live _ _ s v

  pub dispatch_running-Live :
      (message : Json) (s : Session W) → Kept s → Each Kept (dispatch_running p message s)
  unfolding dispatch_running
  dispatch_running-Live message s v = Each-bind Kept (value_text message "type") _ (λ type e.
      Each-if Kept (has_auth message) _ _
        (Each-bind Kept (verify p.crypto message (link s).auth c2s) _
          (λ result e'. authenticated-Live result type message s v))
        (deliver_message-Live type message s v))

  answer_decision-Live :
      (decision : OtaDecision) (reply : String) (s : Session W)
      → Kept s
      → Each
          (λ (t : Session W). Kept t × ((link t).state ≡ (link s).state))
          (answer_decision p decision reply s)
  unfolding answer_decision
  answer_decision-Live no_update reply s v = say-Live p h n _ _ reply s v
  answer_decision-Live (ota_available version url sha256 size) reply s v =
      say-Live p h n _ _ reply s v

  answer_ota_check-Live :
      (message : Json) (s : Session W)
      → Kept s
      → Each
          (λ (t : Session W). Kept t × ((link t).state ≡ (link s).state))
          (answer_ota_check p message s)
  unfolding answer_ota_check
  answer_ota_check-Live message s v =
      let P = λ (t : Session W). Kept t × ((link t).state ≡ (link s).state) in
      Each-bind P (value_text message "current_version") _ (λ version e.
        Each-bind P (value_text message "hw_rev") _ (λ revision e'.
          Each-bind P (value_text message "msg_id") _
            (λ reply e''. answer_decision-Live _ reply s v)))

  start-Live : (s : Session W) → is_running (link s).state ≡ false → Kept s → Kept (start p s)
  start-Live s off v =
      subst (Live p h n) (sym (notify-dispatcher _ _ (enter running s)))
        (enter-Live p h n running s off v)

  establish-Live :
      (message : Json) (s : Session W)
      → is_running (link s).state ≡ false
      → Kept s
      → Each Kept (establish p message s)
  unfolding establish
  establish-Live message s0 off v =
      let s = record s0 { info = record s0.info { established_at = p.clock (link s0).world } } in
      Each-bind Kept (value_text message "type") _ (λ type e.
        Each-if Kept (same_text type "ota_check") _ _
          (Each-bind Kept (answer_ota_check p message s) _ (λ t e'.
            let k =
              subst (Each (λ (t : Session W). Kept t × ((link t).state ≡ (link s).state))) e'
                (answer_ota_check-Live message s v) in
            start-Live t (ap is_running k.1 ∙ off) k.0))
          (dispatch_running-Live message (start p s) (start-Live s off v)))

  proved-Live :
      (result : VerifyResult) (message : Json) (s : Session W)
      → is_running (link s).state ≡ false
      → Kept s
      → Each Kept (proved p result message s)
  unfolding proved
  proved-Live verified message s off v =
      Each-bind Kept (value_int64 p (auth_of message) "seq") _ (λ seq e.
        Each-if Kept (check s.replay seq).1 _ _
          (establish-Live message (record s { replay = (check s.replay seq).0 }) off v)
          (abort-Live p h n _ _ _ (record s { replay = (check s.replay seq).0 }) v))
  proved-Live VerifyResult.missing_auth message s off v = abort-Live p h n _ _ _ s v
  proved-Live VerifyResult.kid_mismatch message s off v = abort-Live p h n _ _ _ s v
  proved-Live VerifyResult.bad_seq message s off v = abort-Live p h n _ _ _ s v
  proved-Live VerifyResult.mac_mismatch message s off v = abort-Live p h n _ _ _ s v

  pub handle_proof-Live :
      (message : Json) (s : Session W)
      → is_running (link s).state ≡ false
      → Kept s
      → Each Kept (handle_proof p message s)
  unfolding handle_proof
  handle_proof-Live message s off v =
      Each-bind Kept (verify p.crypto message (link s).auth c2s) _
        (λ result e. proved-Live result message s off v)
