-- ===== src/Session/Guard.antt =====
-- A signed message that does not verify, or whose number is not new, never reaches the requests.
use fountainer_client_framew.Common.{
  ◌≡◌, ◌⊎◌, refl, inl, inr, true, some, String, Bool-cases, subst,
}
use fountainer_client_framew.Json.{Json, ℤ, value_text}
use fountainer_client_framew.Messages.{c2s}
use fountainer_client_framew.Auth.{VerifyResult, verified, verify}
use fountainer_client_framew.Auth.Replay.{check}
use fountainer_client_framew.Dispatcher
use fountainer_client_framew.Session.Types.{Platform, Session}
use fountainer_client_framew.Session.Values.{value_int64}
use fountainer_client_framew.Session.Branches.{Each, Each-bind, Each-if, Each-weaken}
use fountainer_client_framew.Session.Reports.{warn, report}
use fountainer_client_framew.Session.Machine.{link, with_dispatcher}
use fountainer_client_framew.Session.Running.{
  deliver_message, authenticated, dispatch_running, has_auth, auth_of,
}
use fountainer_client_framew.Session.Passage.{Leaves, notify-Leaves, report-Leaves}

module _ {W : Type 0} (p : Platform W) where
  -- The message verifies under the session's keys, its number is new, and the check has moved on to
  -- that number.
  pub record Admitted (message : Json) (s t : Session W) : Type 0 where
    pub seq : ℤ
    pub authentic : verify p.crypto message (link s).auth c2s ≡ some verified
    pub numbered : value_int64 p (auth_of message) "seq" ≡ some seq
    pub newer : (check s.replay seq).1 ≡ true
    pub recorded : t.replay ≡ (check s.replay seq).0

  -- The requests and their answers are as before, or the message was admitted.
  abbrev pub Guarded : Json → Session W → Session W → Type 0
  Guarded message s t = (t.dispatcher ≡ s.dispatcher) ⊎ Admitted message s t

  deliver_message-replay :
      (type : String) (message : Json) (s : Session W)
      → Each (λ (t : Session W). t.replay ≡ s.replay) (deliver_message p type message s)
  unfolding deliver_message
  deliver_message-replay type message s =
      let P = λ (t : Session W). t.replay ≡ s.replay in
      Each-bind P (Dispatcher.on_message message s.dispatcher) _ (λ r e. Each-if P r.0 _ _ refl (
        Each-weaken (Leaves (with_dispatcher r.1 s)) P
          (report p type message (with_dispatcher r.1 s)) (λ t same. same.1)
          (report-Leaves p type message (with_dispatcher r.1 s))))

  warn-dispatcher :
      (text type : String) (s : Session W) → (warn text type s).dispatcher ≡ s.dispatcher
  unfolding warn
  warn-dispatcher text type s = (notify-Leaves _ _ s).0

  authenticated-Guarded :
      (result : VerifyResult) (type : String) (message : Json) (s : Session W)
      → verify p.crypto message (link s).auth c2s ≡ some result
      → Each (Guarded message s) (authenticated p result type message s)
  unfolding authenticated
  authenticated-Guarded verified type message s v =
      Each-bind (Guarded message s) (value_int64 p (auth_of message) "seq") _ (λ seq n.
        elim (Bool-cases (check s.replay seq).1) [
          | inl fresh ↦ rw fresh (
              Each-weaken _ (Guarded message s) _
                (λ t same. inr (record {
                  seq = seq;
                  authentic = v;
                  numbered = n;
                  newer = fresh;
                  recorded = same;
                }))
                (deliver_message-replay type message
                  (record s { replay = (check s.replay seq).0 })))
          | inr old ↦
              rw old (inl (warn-dispatcher _ _ (record s { replay = (check s.replay seq).0 })))
        ])
  authenticated-Guarded VerifyResult.missing_auth type message s v = inl (warn-dispatcher _ _ s)
  authenticated-Guarded VerifyResult.kid_mismatch type message s v = inl (warn-dispatcher _ _ s)
  authenticated-Guarded VerifyResult.bad_seq type message s v = inl (warn-dispatcher _ _ s)
  authenticated-Guarded VerifyResult.mac_mismatch type message s v = inl (warn-dispatcher _ _ s)

  signed-Guarded :
      (message : Json) (s : Session W)
      → has_auth message ≡ true
      → Each (Guarded message s) (dispatch_running p message s)
  unfolding dispatch_running
  signed-Guarded message s signed =
      Each-bind (Guarded message s) (value_text message "type") _ (λ type te. rw signed (
        Each-bind (Guarded message s) (verify p.crypto message (link s).auth c2s) _
          (λ result v. authenticated-Guarded result type message s v)))

  -- A message with an `auth` member that a running session hears leaves its requests and handlers as
  -- they were, unless it verifies under the session's keys and has a number above all accepted ones;
  -- then the check has moved on to this number, so that the message is not admitted again.
  pub dispatch_running-Guarded :
      (message : Json) (s t : Session W)
      → has_auth message ≡ true
      → dispatch_running p message s ≡ some t
      → Guarded message s t
  dispatch_running-Guarded message s t signed e =
      subst (Each (Guarded message s)) e (signed-Guarded message s signed)
