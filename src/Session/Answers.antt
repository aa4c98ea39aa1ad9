-- ===== src/Session/Answers.antt =====
-- What a session hands to the transport when it answers an `ota_check`.
use fountainer_client_framew.Common.{
  ℕ, ◌+◌, ◌≡◌, refl, sym, ap, false, ◌∙◌, inl, inr, some, String, [], ◌∷◌, subst, Bool-cases,
  is_empty, same_text_iff, arith,
}
use fountainer_client_framew.Json.{
  Json, pos, number_integer, number_unsigned, text, object, Fields, end, field, find, find_field,
  set_field, value_text,
}
use fountainer_client_framew.Messages.{MessageMeta, AuthLevel, s2c, entry, find_meta}
use fountainer_client_framew.Auth.{AuthContext}
use fountainer_client_framew.Envelope.{message_of, set_all, members_of, set_unless_empty}
use fountainer_client_framew.Session.Types.{
  OtaDecision, no_update, ota_available, Platform, Link, Session,
}
use fountainer_client_framew.Session.Sender.{secure, send_message, transmit, transmit_text}
use fountainer_client_framew.Session.Machine.{link, say}
use fountainer_client_framew.Session.Running.{answer_decision}
use fountainer_client_framew.Session.Frames.{Signed, secure-control, secure-world}

-- The type and the members of the answer to a decision.
abbrev pub Tells : OtaDecision → Json → Type 0
Tells no_update m = value_text m "type" ≡ some "ota_none"
Tells (ota_available version url sha256 size) m =
    (value_text m "type" ≡ some "ota_available")
    × (find m "version" ≡ some (text version))
    × (find m "url" ≡ some (text url))
    × (find m "sha256" ≡ some (text sha256))
    × (find m "size" ≡ some (number_unsigned size))

abbrev with_auth : Json → Json → Json
with_auth auth (object fs) = object (set_field "auth" auth fs)
with_auth auth message = message

module _ {W : Type 0} (p : Platform W) where
  -- An offer is signed with the number after the last one.
  abbrev pub IsSecured : OtaDecision → Json → AuthContext → ℕ → Type 0
  IsSecured no_update frame keys seq = Unit {0}
  IsSecured (ota_available _ _ _ _) frame keys seq =
      (message : Json) × Signed p message frame keys (seq + 1)

  -- The frame that tells a decision in reply to a message has been handed to the transport, and
  -- nothing after it.
  pub record Answered (decision : OtaDecision) (reply : String) (l : Link W) (w : W) : Type 0 where
    pub frame : Json
    pub handed : w ≡ (p.deliver l.world (p.dump frame)).1
    pub tells : Tells decision frame
    pub replies : value_text frame "in_reply_to" ≡ some reply
    pub secured : IsSecured decision frame l.auth l.s2c_seq

  transmit-world :
      (frame : Json) (l : Link W)
      → (transmit p frame l).1.world ≡ (p.deliver l.world (p.dump frame)).1
  unfolding transmit transmit_text
  transmit-world frame l = ground arith

  none_message :
      (reply : String) (ts : ℕ) (meta : MessageMeta)
      → (value_text (message_of meta "ota_none" (object end) "" reply ts) "type" ≡ some "ota_none")
        × (value_text (message_of meta "ota_none" (object end) "" reply ts) "in_reply_to"
            ≡ some reply)
  unfolding message_of set_all members_of set_unless_empty set_field value_text find find_field
  none_message reply ts meta = elim (Bool-cases (is_empty reply)) [
    | inl empty ↦ rw empty (refl, ap some (sym ((same_text_iff reply "").0 empty)))
    | inr full ↦ rw full (refl, refl)
  ]

  -- The members of an offer, and those of its message.
  abbrev offer : String → String → String → ℕ → Fields
  offer version url sha256 size = field "sha256" (text sha256) (
      field "size" (number_unsigned size)
        (field "url" (text url) (field "version" (text version) end)))

  abbrev offered : Fields → String → ℕ → ℕ → Fields
  offered body reply ts wire = set_all body (
      set_unless_empty "in_reply_to" reply (
        field "ts" (number_integer (pos ts))
          (field "type" (text "ota_available") (field "v" (number_integer (pos wire)) end))))

  offered_message :
      (version url sha256 : String) (size : ℕ) (reply : String) (ts wire : ℕ) (auth : Json)
      → Tells
          (ota_available version url sha256 size)
          (object (set_field "auth" auth (offered (offer version url sha256 size) reply ts wire)))
        × (value_text
              (object
                (set_field "auth" auth (offered (offer version url sha256 size) reply ts wire)))
              "in_reply_to"
            ≡ some reply)
  unfolding set_all set_unless_empty set_field value_text find find_field
  offered_message version url sha256 size reply ts wire auth = elim (Bool-cases (is_empty reply)) [
    | inl empty ↦
        rw empty ((refl, refl, refl, refl, refl), ap some (sym ((same_text_iff reply "").0 empty)))
    | inr full ↦ rw full ((refl, refl, refl, refl, refl), refl)
  ]

  -- A signed message in the world of the session.
  signed_world :
      (meta : MessageMeta) (message : Json) (l : Link W)
      → (transmit p (secure p meta message l).0 (secure p meta message l).1).1.world
        ≡ (p.deliver l.world (p.dump (secure p meta message l).0)).1
  signed_world meta message l =
      transmit-world (secure p meta message l).0 (secure p meta message l).1
      ∙ ap (λ w. (p.deliver w (p.dump (secure p meta message l).0)).1)
          (secure-world p meta message l)

  offer-Answered :
      (meta : MessageMeta) (version url sha256 : String) (size : ℕ) (reply : String) (l : Link W)
      → meta.auth ≡ AuthLevel.control
      → Answered
          (ota_available version url sha256 size)
          reply
          l
          (transmit p
            (secure p meta
              (object (offered (offer version url sha256 size) reply (p.now_ms l.world) meta.wire))
              l).0
            (secure p meta
              (object (offered (offer version url sha256 size) reply (p.now_ms l.world) meta.wire))
              l).1).1.world
  offer-Answered meta version url sha256 size reply l level =
      let fs = offered (offer version url sha256 size) reply (p.now_ms l.world) meta.wire in
      let s = (secure-control p meta fs l level).0 in
      let m = offered_message version url sha256 size reply (p.now_ms l.world) meta.wire s.auth in
      let whole : (secure p meta (object fs) l).0 ≡ object (set_field "auth" s.auth fs) =
        s.whole ∙ ap (with_auth s.auth) (sym s.body) in
      record {
        frame = (secure p meta (object fs) l).0;
        handed = signed_world meta (object fs) l;
        tells = subst (Tells (ota_available version url sha256 size)) (sym whole) m.0;
        replies = ap (λ frame. value_text frame "in_reply_to") whole ∙ m.1;
        secured = (object fs, s);
      }

  pub answer_decision-Answered :
      (decision : OtaDecision) (reply : String) (s : Session W)
      → (t : Session W) × (answer_decision p decision reply s ≡ some t)
        × Answered decision reply (link s) (link t).world
  unfolding answer_decision say send_message find_meta message_of members_of
  answer_decision-Answered no_update reply s =
      let l = link s in
      let meta = entry "ota_none" s2c 2 AuthLevel.none false [] in
      let m = none_message reply (p.now_ms l.world) meta in
      (
        _,
        refl,
        record {
          frame = message_of meta "ota_none" (object end) "" reply (p.now_ms l.world);
          handed =
              transmit-world (message_of meta "ota_none" (object end) "" reply (p.now_ms l.world))
                l;
          tells = m.0;
          replies = m.1;
          secured = tt;
        },
      )
  answer_decision-Answered (ota_available version url sha256 size) reply s = (
    _,
    refl,
    offer-Answered (entry "ota_available" s2c 2 AuthLevel.control false ("ota_status" ∷ [])) version
        url sha256 size reply (link s) refl,
  )
