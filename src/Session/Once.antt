-- ===== src/Session/Once.antt =====
-- The promise to the handlers over the whole life of a session, its reconnects included.
use fountainer_client_framew.Common.{
  ℕ, ◌+◌, ◌≡◌, refl, subst, inl, inr, Bool, false, ◌&&◌, some, List, [], ◌∷◌, arith, Option-cases,
  leb,
}
use fountainer_client_framew.Error.{Error}
use fountainer_client_framew.Dispatcher.Counts.{calls, outstanding, account}
use fountainer_client_framew.Dispatcher.Run
use fountainer_client_framew.Dispatcher.Handlers.Once.{outstanding-fail_all, init-Holds}
use fountainer_client_framew.Session.Types.{
  SessionConfig, closed, await_hello, Platform, Callback, Session,
}
use fountainer_client_framew.Session.Sender.{is_running, encode_and_send}
use fountainer_client_framew.Session.Ids.{session_ids}
use fountainer_client_framew.Session.Values.{random_nonce_b64}
use fountainer_client_framew.Session.Branches.{Each, Each-bind, if-lem}
use fountainer_client_framew.Session.Machine.{
  link, new_session, on_transport_open, on_transport_closed, request, enter,
}
use fountainer_client_framew.Session.Running.{tick, handshaking}
use fountainer_client_framew.Session.History.{
  Occasion, opens, closes, hears, requests, ticks, elapses, step, run, Opens, Orderly, asked,
  asked_in,
}
use fountainer_client_framew.Session.Live.{
  Live, call-Live, plain-Live, link-Live, restart-Live, abort-Live, closed-Live, enter-Live,
}
use fountainer_client_framew.Session.Welcome.{on_text-Live}

zero_add : (n : ℕ) → 0 + n ≡ n
zero_add n = omega arith

module _ {W : Type 0} (p : Platform W) (h : ℕ) where
  tick-Live :
      (n now : ℕ) (s : Session W) → Live p h n s.dispatcher → Live p h n (tick p now s).dispatcher
  unfolding tick Run.step
  tick-Live n now s v =
      if-lem (λ (t : Session W). Live p h n t.dispatcher)
        (handshaking p (link s).state && leb s.handshake_deadline now) _ _
        (abort-Live p h n _ _ _ s v) (plain-Live p h n (Run.ticks now) s.dispatcher tt refl v)

  on_transport_open-Live :
      (n : ℕ) (s : Session W)
      → is_running (link s).state ≡ false
      → Live p h n s.dispatcher
      → Each (λ (t : Session W). Live p h n t.dispatcher) (on_transport_open p s)
  unfolding on_transport_open
  on_transport_open-Live n s off v = elim (Option-cases (random_nonce_b64 p (link s).world).0) [
    | inl failed ↦ rw (failed, Each) tt
    | inr (nonce, e) ↦
        rw (e, Each)
          (enter-Live p h n await_hello _ off
            (restart-Live p h n _ s.dispatcher.sending_enabled s.dispatcher off v))
  ]

  step-Live :
      (n : ℕ) (o : Occasion W) (s : Session W)
      → Opens p o s
      → Live p h n s.dispatcher
      → Each (λ (t : Session W). Live p h (asked h o + n) t.dispatcher) (step p o s)
  unfolding step on_transport_closed request Run.step
  step-Live n opens s off v = rw (zero_add n) (on_transport_open-Live n s off v)
  step-Live n (closes error) s _ v = rw (zero_add n) (closed-Live p h n error s v)
  step-Live n (hears frame) s _ v = rw (zero_add n) (on_text-Live p h n frame s v)
  step-Live n (requests spec handler) s _ v =
      call-Live p h n (Run.submits spec handler (p.clock (link s).world)) s.dispatcher tt v
  step-Live n (ticks now) s _ v = rw (zero_add n) (tick-Live n now s v)
  step-Live n (elapses w) s _ v = rw (zero_add n) (link-Live p h n _ s.dispatcher refl refl v)

  run-Live :
      (os : List (Occasion W)) (n : ℕ) (s : Session W)
      → Orderly p os s
      → Live p h n s.dispatcher
      → Each (λ (t : Session W). Live p h (asked_in h os + n) t.dispatcher) (run p os s)
  unfolding run asked_in
  run-Live [] n s _ v = rw (zero_add n) v
  run-Live (o ∷ os) n s a v =
      let P = λ (t : Session W). Live p h (asked h o + asked_in h os + n) t.dispatcher in
      Each-bind P (step p o s) (run p os) (λ t e.
        let same : asked_in h os + (asked h o + n) ≡ asked h o + asked_in h os + n = omega arith in
        rw⁻¹ same (
          run-Live os (asked h o + n) t (a.1 t e) (
            subst (Each (λ (t : Session W). Live p h (asked h o + n) t.dispatcher)) e
              (step-Live n o s a.0 v))))

  new_session-Live :
      (config : SessionConfig) (callbacks : Callback → Bool) (world : W)
      → Live p h 0 (new_session config callbacks world).dispatcher
  unfolding new_session account
  new_session-Live config callbacks world =
      let d = (new_session config callbacks world).dispatcher in
      let v =
        init-Holds (encode_and_send p) (session_ids p) h d.sender config.budget
          config.default_request_timeout in
      record { holds = record { balanced = v.balanced; covered = tt }; idle = λ _. refl }

  -- After any orderly history of a new session in which no exception escapes, and without any
  -- assumption on the transport: a handler has been called as often as it was submitted, less the
  -- calls that it is still owed; and the end of the connection calls it for all that it is owed.
  pub run-calls :
      (os : List (Occasion W)) (config : SessionConfig) (callbacks : Callback → Bool) (world : W)
      (error : Error) (s : Session W)
      → Orderly p os (new_session config callbacks world)
      → run p os (new_session config callbacks world) ≡ some s
      → (outstanding h s.dispatcher + calls h s.dispatcher.trace ≡ asked_in h os)
        × (calls h (on_transport_closed error s).dispatcher.trace ≡ asked_in h os)
  unfolding account outstanding on_transport_closed
  run-calls os config callbacks world error s a e =
      let v =
        subst (Each (λ (t : Session W). Live p h (asked_in h os + 0) t.dispatcher)) e
          (run-Live os 0 _ a (new_session-Live config callbacks world)) in
      let w = closed-Live p h _ error s v in
      (
        omega (arith, v.holds.balanced),
        omega (arith, w.holds.balanced, outstanding-fail_all h error (enter closed s).dispatcher),
      )
