-- ===== src/Session/Proof.antt =====
-- A session runs only after a proof of the device that verifies and is new.
use fountainer_client_framew.Common.{
  ℕ, ◌≡◌, ◌≢◌, ◌⊎◌, refl, subst, ap, ◌∙◌, inl, inr, true, ◌&&◌, Option, none, some, String,
  Option-cases, Bool-cases, leb,
}
use fountainer_client_framew.Json.{Json, ℤ, Fields, object}
use fountainer_client_framew.Messages.{c2s}
use fountainer_client_framew.Auth.{VerifyResult, verified, verify}
use fountainer_client_framew.Auth.Replay.{check}
use fountainer_client_framew.Dispatcher.{fail_all}
use fountainer_client_framew.Dispatcher.Run
use fountainer_client_framew.Dispatcher.Run.{Call}
use fountainer_client_framew.Session.Types.{
  SessionState, closed, await_hello, await_proof, running, Platform, Session,
}
use fountainer_client_framew.Session.Sender.{is_running}
use fountainer_client_framew.Session.Values.{value_int64, random_nonce_b64}
use fountainer_client_framew.Session.Branches.{Each, Each-bind, Each-weaken, if-lem}
use fountainer_client_framew.Session.Machine.{link, on_transport_open, on_transport_closed, request}
use fountainer_client_framew.Session.Handshake.{handle_hello}
use fountainer_client_framew.Session.Running.{
  proved, handle_proof, garbage, by_state, on_parsed, on_text, tick, handshaking, auth_of,
}
use fountainer_client_framew.Session.History.{
  Occasion, opens, closes, hears, requests, ticks, elapses, step,
}
use fountainer_client_framew.Session.Waits.{
  Waits, enter-Waits, abort-Waits, call-state, handle_hello-Waits,
}

running_of : (state : SessionState) → is_running state ≡ true → state ≡ running
running_of running e = refl
running_of _ e = cc

Each-any {ℓ κ} : {A : Type ℓ} (P : A → Type κ) (o : Option A) → ((a : A) → P a) → Each P o
Each-any P none f = tt
Each-any P (some a) f = f a

module _ {W : Type 0} (p : Platform W) where
  -- A frame that is an object, heard in `AwaitProof`, which verifies under the session's keys with a
  -- sequence number above all that the connection has accepted.
  pub record Proven (frame : String) (s : Session W) : Type 0 where
    pub members : Fields
    pub seq : ℤ
    pub parsed : p.parse frame ≡ some (object members)
    pub awaited : (link s).state ≡ await_proof
    pub authentic : verify p.crypto (object members) (link s).auth c2s ≡ some verified
    pub numbered : value_int64 p (auth_of (object members)) "seq" ≡ some seq
    pub newer : (check s.replay seq).1 ≡ true

  -- The frame leaves the session waiting, or is such a proof.
  abbrev Told : String → Session W → Session W → Type 0
  Told frame s t = Waits p t ⊎ Proven frame s

  proved-Told :
      (result : VerifyResult) (frame : String) (fs : Fields) (s : Session W)
      → p.parse frame ≡ some (object fs)
      → (link s).state ≡ await_proof
      → verify p.crypto (object fs) (link s).auth c2s ≡ some result
      → Each (Told frame s) (proved p result (object fs) s)
  unfolding proved
  proved-Told verified frame fs s parsed st e =
      Each-bind (Told frame s) (value_int64 p (auth_of (object fs)) "seq") _ (λ seq n.
        elim (Bool-cases (check s.replay seq).1) [
          | inl fresh ↦ Each-any (Told frame s) _ (λ t. inr (record {
            members = fs;
            seq = seq;
            parsed = parsed;
            awaited = st;
            authentic = e;
            numbered = n;
            newer = fresh;
          }))
          | inr old ↦ rw old (
              inl (
                abort-Waits p _ _ _ (record s { replay = (check s.replay seq).0 })
                  (ap is_running st)))
        ])
  proved-Told VerifyResult.missing_auth frame fs s parsed st e =
      inl (abort-Waits p _ _ _ s (ap is_running st))
  proved-Told VerifyResult.kid_mismatch frame fs s parsed st e =
      inl (abort-Waits p _ _ _ s (ap is_running st))
  proved-Told VerifyResult.bad_seq frame fs s parsed st e =
      inl (abort-Waits p _ _ _ s (ap is_running st))
  proved-Told VerifyResult.mac_mismatch frame fs s parsed st e =
      inl (abort-Waits p _ _ _ s (ap is_running st))

  by_state-Told :
      (state : SessionState) (frame : String) (fs : Fields) (s : Session W)
      → p.parse frame ≡ some (object fs)
      → (link s).state ≡ state
      → Waits p s
      → Each (Told frame s) (by_state p state (object fs) s)
  unfolding by_state handle_proof
  by_state-Told closed frame fs s parsed st w = inl w
  by_state-Told await_hello frame fs s parsed st w =
      Each-weaken (Waits p) (Told frame s) (handle_hello p (object fs) s) (λ t k. inl k)
        (handle_hello-Waits p (object fs) s w)
  by_state-Told await_proof frame fs s parsed st w =
      Each-bind (Told frame s) (verify p.crypto (object fs) (link s).auth c2s) _
        (λ result e. proved-Told result frame fs s parsed st e)
  by_state-Told running frame fs s parsed st w = cc (rw st at w)

  garbage-Waits :
      (state : SessionState) (s : Session W)
      → (link s).state ≡ state
      → Waits p s
      → Each (Waits p) (garbage p state s)
  unfolding garbage
  garbage-Waits running s st w = cc (rw st at w)
  garbage-Waits closed s st w = abort-Waits p _ _ _ s w
  garbage-Waits await_hello s st w = abort-Waits p _ _ _ s w
  garbage-Waits await_proof s st w = abort-Waits p _ _ _ s w

  rubbish-Told :
      (frame : String) (s : Session W)
      → Waits p s
      → Each (Told frame s) (garbage p (link s).state s)
  rubbish-Told frame s w =
      Each-weaken (Waits p) (Told frame s) (garbage p (link s).state s) (λ t k. inl k)
        (garbage-Waits (link s).state s refl w)

  on_parsed-Told :
      (parsed : Option Json) (frame : String) (s : Session W)
      → p.parse frame ≡ parsed
      → Waits p s
      → Each (Told frame s) (on_parsed p parsed s)
  unfolding on_parsed
  on_parsed-Told none frame s e w = rubbish-Told frame s w
  on_parsed-Told (some (object fs)) frame s e w = by_state-Told (link s).state frame fs s e refl w
  on_parsed-Told (some Json.null) frame s e w = rubbish-Told frame s w
  on_parsed-Told (some (Json.boolean _)) frame s e w = rubbish-Told frame s w
  on_parsed-Told (some (Json.number_integer _)) frame s e w = rubbish-Told frame s w
  on_parsed-Told (some (Json.number_unsigned _)) frame s e w = rubbish-Told frame s w
  on_parsed-Told (some (Json.number_float _)) frame s e w = rubbish-Told frame s w
  on_parsed-Told (some (Json.text _)) frame s e w = rubbish-Told frame s w
  on_parsed-Told (some (Json.array _)) frame s e w = rubbish-Told frame s w

  tick-Waits : (now : ℕ) (s : Session W) → Waits p s → Waits p (tick p now s)
  unfolding tick Run.step
  tick-Waits now s w =
      if-lem (Waits p) (handshaking p (link s).state && leb s.handshake_deadline now) _ _
        (abort-Waits p _ _ _ s w) (ap is_running (call-state p (Run.ticks now) s.dispatcher tt) ∙ w)

  on_transport_open-Waits : (s : Session W) → Waits p s → Each (Waits p) (on_transport_open p s)
  unfolding on_transport_open
  on_transport_open-Waits s w = elim (Option-cases (random_nonce_b64 p (link s).world).0) [
    | inl failed ↦ rw (failed, Each) tt
    | inr (nonce, e) ↦ rw (e, Each) (enter-Waits p await_hello _ refl w)
  ]

  -- What an occasion does to a session that is not running.
  abbrev Prompt : Occasion W → Session W → Session W → Type 0
  Prompt o s t = Waits p t ⊎ ((frame : String) × (o ≡ hears frame) × Proven frame s)

  step-Prompt : (o : Occasion W) (s : Session W) → Waits p s → Each (Prompt o s) (step p o s)
  unfolding step on_transport_closed fail_all request Run.step on_text
  step-Prompt opens s w =
      Each-weaken (Waits p) (Prompt opens s) (on_transport_open p s) (λ t k. inl k)
        (on_transport_open-Waits s w)
  step-Prompt (closes error) s w = inl (enter-Waits p closed s refl w)
  step-Prompt (hears frame) s w =
      Each-weaken (Told frame s) (Prompt (hears frame) s) (on_text p frame s)
        (λ t k. elim k [ inl k ↦ inl k | inr k ↦ inr (frame, refl, k) ])
        (on_parsed-Told (p.parse frame) frame s refl w)
  step-Prompt (requests spec handler) s w = inl (
      ap is_running
        (call-state p (Run.submits spec handler (p.clock (link s).world)) s.dispatcher tt)
      ∙ w)
  step-Prompt (ticks now) s w = inl (tick-Waits now s w)
  step-Prompt (elapses world) s w = inl w

  -- A session that was not running and is running after an occasion has heard a frame in
  -- `AwaitProof` that verifies under its keys and whose sequence number is new: no hello, tick,
  -- request, transport event or unsigned, forged or repeated frame makes a session run.
  pub step-Proven :
      (o : Occasion W) (s t : Session W)
      → (link s).state ≢ running
      → step p o s ≡ some t
      → (link t).state ≡ running
      → (frame : String) × (o ≡ hears frame) × Proven frame s
  step-Proven o s t off e on = elim (Bool-cases (is_running (link s).state)) [
    | inl runs ↦ absurd (off (running_of (link s).state runs))
    | inr waits ↦ elim (subst (Each (Prompt o s)) e (step-Prompt o s waits)) [
      | inl still ↦ cc (rw on at still)
      | inr proof ↦ proof
    ]
  ]
