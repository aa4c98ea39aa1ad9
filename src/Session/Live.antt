-- ===== src/Session/Live.antt =====
-- The promise to the handlers, through every operation of a session.
use fountainer_client_framew.Common.{
  ℕ, ◌+◌, ◌≡◌, refl, subst, sym, ap, ◌∙◌, inl, inr, Bool, true, false, String, [], arith,
  Option-cases,
}
use fountainer_client_framew.Error.{Error}
use fountainer_client_framew.Json.{Json}
use fountainer_client_framew.Messages.{find_meta}
use fountainer_client_framew.Envelope.{message_of}
use fountainer_client_framew.Dispatcher.{fail_all}
use fountainer_client_framew.Dispatcher.Counts.{account}
use fountainer_client_framew.Dispatcher.Types.{Dispatcher}
use fountainer_client_framew.Dispatcher.Sender.{AllKeys}
use fountainer_client_framew.Dispatcher.Run.{Call, fails}
use fountainer_client_framew.Dispatcher.Run.{step}
use fountainer_client_framew.Dispatcher.History.{AllowsCall, step_inv}
use fountainer_client_framew.Dispatcher.Handlers.Steps.{Holds}
use fountainer_client_framew.Dispatcher.Handlers.Once.{owed, step-Holds, Holds-eq}
use fountainer_client_framew.Session.Types.{
  SessionState, closed, Platform, Link, Callback, Notice, Session,
}
use fountainer_client_framew.Session.Sender.{
  is_running, secure, transmit, send_message, encode_and_send,
}
use fountainer_client_framew.Session.Ids.{session_ids, issued_upto, secure_link, transmit_text_link}
use fountainer_client_framew.Session.Quiet.{Quiet, Quiet-Kept}
use fountainer_client_framew.Session.Branches.{Each, if-lem}
use fountainer_client_framew.Session.Reports.{notify}
use fountainer_client_framew.Session.Machine.{same_state, link, enter, abort, say}

pub notify-dispatcher :
    {W : Type 0} (callback : Callback) (notice : Notice) (s : Session W)
    → (notify callback notice s).dispatcher ≡ s.dispatcher
unfolding notify
notify-dispatcher callback notice s = ground arith

module _ {W : Type 0} (p : Platform W) (h : ℕ) where
  -- The account of the handler `h` is `n`, every open request has an id of this connection, and a
  -- session that is not running has no open request.
  pub record Live (n : ℕ) (d : Dispatcher (Link W)) : Type 0 where
    pub holds : Holds (encode_and_send p) (session_ids p) h n d
    pub idle : is_running d.sender.state ≡ false → d.pending ≡ []

  pub call-Live :
      (n : ℕ) (c : Call) (d : Dispatcher (Link W))
      → AllowsCall (λ _. Unit {0}) c
      → Live n d
      → Live (owed h c + n) (step (encode_and_send p) c d)
  call-Live n c d a v =
      let q =
        step_inv (encode_and_send p) (λ _. Unit {0})
          (Quiet (is_running d.sender.state ≡ false) d.sender.state d.sender.auth)
          (Quiet-Kept p (is_running d.sender.state ≡ false) d.sender.state d.sender.auth (λ i. i)) c
          d a (record { same_state = refl; same_auth = refl; idle = v.idle }) in
      record {
        holds = step-Holds (encode_and_send p) (session_ids p) h n c d v.holds;
        idle = λ off. q.idle (ap is_running (sym q.same_state) ∙ off);
      }

  -- The same of a call that submits nothing.
  pub plain-Live :
      (n : ℕ) (c : Call) (d : Dispatcher (Link W))
      → AllowsCall (λ _. Unit {0}) c
      → owed h c ≡ 0
      → Live n d
      → Live n (step (encode_and_send p) c d)
  plain-Live n c d a e v =
      let w = call-Live n c d a v in
      record {
        holds = Holds-eq (encode_and_send p) (session_ids p) h _ n _ (omega (arith, e)) w.holds;
        idle = w.idle;
      }

  -- A change of the shared members that keeps the state and the counter of the ids.
  pub link-Live :
      (n : ℕ) (l : Link W) (d : Dispatcher (Link W))
      → l.state ≡ d.sender.state
      → l.msg_seq ≡ d.sender.msg_seq
      → Live n d
      → Live n (record d { sender = l })
  unfolding account session_ids
  link-Live n l d st seq v = record {
    holds = record {
      balanced = v.holds.balanced;
      covered = subst (λ k. AllKeys (issued_upto k) d.pending) (sym seq) v.holds.covered;
    };
    idle = λ off. v.idle (ap is_running (sym st) ∙ off);
  }

  -- Any change of the shared members under a session that is not running.
  pub restart-Live :
      (n : ℕ) (l : Link W) (b : Bool) (d : Dispatcher (Link W))
      → is_running d.sender.state ≡ false
      → Live n d
      → Live n (record d { sender = l; sending_enabled = b })
  unfolding account
  restart-Live n l b d off v = record {
    holds = record { balanced = v.holds.balanced; covered = rw (v.idle off) tt };
    idle = λ _. v.idle off;
  }

  pub enter-Live :
      (n : ℕ) (next : SessionState) (s : Session W)
      → is_running (link s).state ≡ false
      → Live n s.dispatcher
      → Live n (enter next s).dispatcher
  unfolding enter
  enter-Live n next s off v =
      if-lem (λ (t : Session W). Live n t.dispatcher) (same_state (link s).state next) _ _ v
        (restart-Live n _ _ s.dispatcher off v)

  -- The end of a connection, after which no request is open.
  pub fail_all-Live :
      (n : ℕ) (error : Error) (l : Link W) (b : Bool) (d : Dispatcher (Link W))
      → Live n d
      → Live n (fail_all error (record d { sender = l; sending_enabled = b }))
  unfolding fail_all account step
  fail_all-Live n error l b d v =
      let w = call-Live n (fails error) d tt v in
      record {
        holds = record { balanced = omega (arith, w.holds.balanced); covered = tt };
        idle = λ off. refl;
      }

  pub closed-Live :
      (n : ℕ) (error : Error) (s : Session W)
      → Live n s.dispatcher
      → Live n (fail_all error (enter closed s).dispatcher)
  unfolding enter
  closed-Live n error s v =
      if-lem (λ (t : Session W). Live n (fail_all error t.dispatcher))
        (same_state (link s).state closed) _ _
        (fail_all-Live n error (link s) s.dispatcher.sending_enabled s.dispatcher v)
        (fail_all-Live n error _ _ s.dispatcher v)

  pub abort-Live :
      (n : ℕ) (error : Error) (code : ℕ) (reason : String) (s : Session W)
      → Live n s.dispatcher
      → Live n (abort error code reason s).dispatcher
  unfolding abort
  abort-Live n error code reason s v =
      if-lem (λ (t : Session W). Live n t.dispatcher) s.failed _ _ v
        (rw (notify-dispatcher _ _ _) (closed-Live n error (record s { failed = true }) v))

  pub send_message-link :
      (type : String) (body : Json) (reply : String) (l : Link W)
      → Each
          (λ r. (r.1.state ≡ l.state) × (r.1.msg_seq ≡ l.msg_seq) × (r.1.auth ≡ l.auth))
          (send_message p type body reply l)
  unfolding send_message transmit
  send_message-link type body reply l = elim (Option-cases (find_meta type)) [
    | inl none' ↦ rw (none', Each) tt
    | inr (meta, found) ↦
        let message = message_of meta type body "" reply (p.now_ms l.world) in
        let a = secure_link p meta message l in
        let s = secure p meta message l in
        let b = transmit_text_link p (p.dump s.0) s.1 in
        rw (found, Each) (b.0 ∙ a.0, b.2 ∙ a.2, b.1 ∙ a.1)
  ]

  pub say-Live :
      (n : ℕ) (type : String) (body : Json) (reply : String) (s : Session W)
      → Live n s.dispatcher
      → Each
          (λ (t : Session W). Live n t.dispatcher × ((link t).state ≡ (link s).state))
          (say p type body reply s)
  unfolding say
  say-Live n type body reply s v = elim (Option-cases (send_message p type body reply (link s))) [
    | inl none' ↦ rw (none', Each) tt
    | inr (r, e) ↦
        let k = rw (e, Each) at (send_message-link type body reply (link s)) in
        rw (e, Each) (link-Live n r.1 s.dispatcher k.0 k.1 v, k.0)
  ]
