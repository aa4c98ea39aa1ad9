-- ===== src/Session/States.antt =====
-- Operations of a session that reach no state of a set, where it is not in one and `Closed` is none.
use fountainer_client_framew.Common.{
  ℕ, ◌≡◌, subst, ap, ◌∙◌, inl, inr, Bool, true, false, String, ◌∷◌, Option-cases,
}
use fountainer_client_framew.Error.{Error}
use fountainer_client_framew.Json.{Json, value_text}
use fountainer_client_framew.Dispatcher.{fail_all}
use fountainer_client_framew.Session.Types.{
  SessionState, closed, Platform, Session, Callback, on_failed, Notice, has_failed,
}
use fountainer_client_framew.Session.Sender.{send_message}
use fountainer_client_framew.Session.Branches.{Each, Each-bind, if-lem}
use fountainer_client_framew.Session.Machine.{same_state, link, enter, abort, say}
use fountainer_client_framew.Session.Handshake.{refuse}
use fountainer_client_framew.Session.Live.{send_message-link}
use fountainer_client_framew.Session.Reports.{notify}

abbrev pub Avoids : {W : Type 0} → (SessionState → Bool) → Session W → Type 0
Avoids bad s = bad (link s).state ≡ false

module _ {W : Type 0} (p : Platform W) (bad : SessionState → Bool) (fine : bad closed ≡ false) where
  pub enter-Avoids :
      (next : SessionState) (s : Session W)
      → bad next ≡ false
      → Avoids bad s
      → Avoids bad (enter next s)
  unfolding enter
  enter-Avoids next s off w = if-lem (Avoids bad) (same_state (link s).state next) _ _ w off

  pub notify-Avoids :
      (callback : Callback) (notice : Notice) (s : Session W)
      → Avoids bad s
      → Avoids bad (notify callback notice s)
  unfolding notify
  notify-Avoids callback notice s w = if-lem (Avoids bad) (s.callbacks callback) _ _ w w

  pub abort-Avoids :
      (error : Error) (code : ℕ) (reason : String) (s : Session W)
      → Avoids bad s
      → Avoids bad (abort error code reason s)
  unfolding abort fail_all
  abort-Avoids error code reason s w = if-lem (Avoids bad) s.failed _ _ w (
      let t = enter closed (record s { failed = true }) in
      notify-Avoids on_failed (has_failed error)
        (record t {
          dispatcher = fail_all error t.dispatcher;
          notices = Notice.closes code reason ∷ t.notices;
        })
        (enter-Avoids closed (record s { failed = true }) fine w))

  pub say-Avoids :
      (type : String) (body : Json) (reply : String) (s : Session W)
      → Avoids bad s
      → Each (Avoids bad) (say p type body reply s)
  unfolding say
  say-Avoids type body reply s w = elim (Option-cases (send_message p type body reply (link s))) [
    | inl none' ↦ rw (none', Each) tt
    | inr (r, e) ↦
        let k = rw (e, Each) at (send_message-link p 0 type body reply (link s)) in
        rw (e, Each) (ap bad k.0 ∙ w)
  ]

  pub refuse-Avoids :
      (message : Json) (why : String) (error : Error) (s : Session W)
      → Avoids bad s
      → Each (Avoids bad) (refuse p message why error s)
  unfolding refuse
  refuse-Avoids message why error s w =
      Each-bind (Avoids bad) (value_text message "msg_id") _ (λ reply e.
        Each-bind (Avoids bad) (say p "hello_ack" _ reply s) _ (λ t e'.
          abort-Avoids error 4004 why t
            (subst (Each (Avoids bad)) e' (say-Avoids "hello_ack" _ reply s w))))
