-- ===== src/Session/Ready.antt =====
-- The proof of the device brings a session to `Running`.
use fountainer_client_framew.Common.{
  ◌≡◌, refl, sym, subst, arith, ap, ◌∙◌, inl, inr, true, some, String, Bool-cases,
}
use fountainer_client_framew.Json.{Json, ℤ, object, value_text}
use fountainer_client_framew.Auth.{◌>>=◌}
use fountainer_client_framew.Auth.Replay.{check}
use fountainer_client_framew.Session.Types.{
  SessionState, running, OtaDecision, Platform, Session, Callback, on_ready, Notice, is_ready,
}
use fountainer_client_framew.Session.Branches.{if-lem}
use fountainer_client_framew.Session.Reports.{notify}
use fountainer_client_framew.Session.Machine.{same_state, link, enter}
use fountainer_client_framew.Session.Running.{
  policy_of, answer_ota_check, establish, proved, handle_proof, by_state, on_parsed, on_text, start,
}
use fountainer_client_framew.Session.Answers.{Answered, answer_decision-Answered}
use fountainer_client_framew.Session.History.{hears, step}
use fountainer_client_framew.Session.Proof.{Proven}

same_state-running : (state : SessionState) → same_state state running ≡ true → state ≡ running
same_state-running running e = refl
same_state-running _ e = cc

module _ {W : Type 0} (p : Platform W) where
  abbrev Runs : Session W → Type 0
  Runs t = (link t).state ≡ running

  enter-Runs : (s : Session W) → Runs (enter running s)
  unfolding enter
  enter-Runs s = elim (Bool-cases (same_state (link s).state running)) [
    | inl e ↦ rw e (same_state-running (link s).state e)
    | inr e ↦ rw e refl
  ]

  notify-Runs :
      (callback : Callback) (notice : Notice) (s : Session W)
      → Runs s
      → Runs (notify callback notice s)
  unfolding notify
  notify-Runs callback notice s h = if-lem Runs (s.callbacks callback) _ _ h h

  start-Runs : (s : Session W) → Runs (start p s)
  start-Runs s =
      notify-Runs on_ready (is_ready (enter running s).info) (enter running s) (enter-Runs s)

  start-world : (s : Session W) → (link (start p s)).world ≡ (link s).world
  unfolding enter notify
  start-world s = ground arith

  -- What the OTA policy decides on a proof.
  abbrev pub decided : Session W → String → String → OtaDecision
  decided s version revision =
      policy_of s.config.ota_policy (record s.info { established_at = p.clock (link s).world })
        (record { current_version = version; hw_rev = revision })

  -- The session that answers the proof.
  abbrev proven : ℤ → Session W → Session W
  proven seq s = record s {
    replay = (check s.replay seq).0;
    info = record s.info { established_at = p.clock (link s).world };
  }

  establish-eq :
      (message : Json) (s : Session W) (seq : ℤ)
      → value_text message "type" ≡ some "ota_check"
      → establish p message (record s { replay = (check s.replay seq).0 })
        ≡ answer_ota_check p message (proven seq s) >>= (λ t. some (start p t))
  unfolding establish
  establish-eq message s seq a = rw a refl

  answer_ota_check-Answered :
      (message : Json) (s : Session W) (version revision reply : String)
      → value_text message "current_version" ≡ some version
      → value_text message "hw_rev" ≡ some revision
      → value_text message "msg_id" ≡ some reply
      → (t : Session W) × (answer_ota_check p message s ≡ some t)
        × Answered p
            (policy_of s.config.ota_policy s.info
              (record { current_version = version; hw_rev = revision }))
            reply
            (link s)
            (link t).world
  unfolding answer_ota_check
  answer_ota_check-Answered message s version revision reply b c d =
      rw (b, c, d) (answer_decision-Answered p _ reply s)

  heard_eq :
      (frame : String) (s : Session W) (v : Proven p frame s)
      → step p (hears frame) s
        ≡ establish p (object v.members) (record s { replay = (check s.replay v.seq).0 })
  unfolding step on_text on_parsed by_state handle_proof proved
  heard_eq frame s v =
      let m = object v.members in
      ap (λ o. on_parsed p o s) v.parsed
      ∙ ap (λ state. by_state p state m s) v.awaited
      ∙ ap (λ o. o >>= (λ result. proved p result m s)) v.authentic
      ∙ rw (v.numbered, v.newer) refl

  -- A proof of type `ota_check` whose members read as text is answered without an exception: the
  -- session hands one frame to the transport, in reply to the proof, which has the type and the
  -- members of what the OTA policy decides on its version and revision, and which is signed with the next
  -- sequence number if it offers an update. Whether the transport takes it or not, the session then runs.
  pub hears-runs :
      (frame : String) (s : Session W) (v : Proven p frame s) (version revision reply : String)
      → value_text (object v.members) "type" ≡ some "ota_check"
      → value_text (object v.members) "current_version" ≡ some version
      → value_text (object v.members) "hw_rev" ≡ some revision
      → value_text (object v.members) "msg_id" ≡ some reply
      → (t : Session W) × (step p (hears frame) s ≡ some t)
        × Answered p (decided s version revision) reply (link s) (link t).world
        × ((link t).state ≡ running)
  hears-runs frame s v version revision reply a b c d =
      let (t, e, answered) =
        answer_ota_check-Answered (object v.members) (proven v.seq s) version revision reply b c
          d in
      (
        start p t,
        heard_eq frame s v
            ∙ establish-eq (object v.members) s v.seq a
            ∙ ap (λ o. o >>= (λ t. some (start p t))) e,
        subst (Answered p (decided s version revision) reply (link s)) (sym (start-world t))
            answered,
        start-Runs t,
      )
