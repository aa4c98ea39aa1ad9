-- ===== src/Session/Frames.antt =====
-- What goes out for a request of the dispatcher.
use fountainer_client_framew.Common.{
  ℕ, ◌+◌, ◌≤◌, ◌≡◌, ◌≢◌, refl, ap, subst, ◌∙◌, inl, inr, true, some, String, arith, Bool-cases,
  Option-cases,
}
use fountainer_client_framew.Error.{ok}
use fountainer_client_framew.Json.{Json, pos, number_integer, object, Fields, set_field, find}
use fountainer_client_framew.Messages.{MessageMeta, AuthLevel, s2c, find_meta}
use fountainer_client_framew.Auth.{AuthContext, verified, verify}
use fountainer_client_framew.Auth.Signing.{verify-sign, sign_lem}
use fountainer_client_framew.Envelope.{message_of}
use fountainer_client_framew.Dispatcher.Types.{RequestSpec}
use fountainer_client_framew.Session.Types.{Platform, Link}
use fountainer_client_framew.Session.Sender.{
  message_id, is_running, is_control, byte_size, max_control_frame_bytes, secure, next_msg_id,
  send_request, send_encoded, transmit_text, encode_and_send,
}
use fountainer_client_framew.Session.Ids.{send_encoded-ok, send_encoded_link}

module _ {W : Type 0} (p : Platform W) where
  -- The link once the id of the next request is taken.
  abbrev numbered : Link W → Link W
  numbered l = record l { msg_seq = l.msg_seq + 1 }

  -- The message for a request of the next id, before it is signed.
  abbrev pub unsigned : MessageMeta → RequestSpec → Link W → Json
  unsigned meta spec l =
      message_of meta spec.type spec.body (message_id (l.msg_seq + 1)) "" (p.now_ms l.world)

  -- A frame is a message with a member `auth` that verifies under the session's keys and carries a
  -- sequence number.
  pub record Signed (message frame : Json) (keys : AuthContext) (seq : ℕ) : Type 0 where
    pub fs : Fields
    pub auth : Json
    pub body : message ≡ object fs
    pub whole : frame ≡ object (set_field "auth" auth fs)
    pub verifies : verify p.crypto frame keys s2c ≡ some verified
    pub numbered : find auth "seq" ≡ some (number_integer (pos seq))

  -- A frame that the device accepts: it fits the device's buffer, was taken by the transport, and for
  -- a control message verifies under the session's keys with the number after the last one.
  pub record Acceptable (meta : MessageMeta) (spec : RequestSpec) (l l' : Link W) : Type 0 where
    pub frame : Json
    pub listed : find_meta spec.type ≡ some meta
    pub fits : byte_size (p.dump frame) ≤ max_control_frame_bytes
    pub taken : (p.deliver l.world (p.dump frame)).0 ≡ true
    pub handed : l'.world ≡ (p.deliver l.world (p.dump frame)).1
    pub signed :
        meta.auth ≡ AuthLevel.control
        → Signed (unsigned meta spec l) frame l.auth (l.s2c_seq + 1) × (l'.s2c_seq ≡ l.s2c_seq + 1)
    pub plain :
        meta.auth ≢ AuthLevel.control → (frame ≡ unsigned meta spec l) × (l'.s2c_seq ≡ l.s2c_seq)

  is_control-control : (a : AuthLevel) → is_control a ≡ true → a ≡ AuthLevel.control
  is_control-control AuthLevel.control e = refl
  is_control-control _ e = cc

  pub secure-control :
      (meta : MessageMeta) (fs : Fields) (l : Link W)
      → meta.auth ≡ AuthLevel.control
      → Signed (object fs) (secure p meta (object fs) l).0 l.auth (l.s2c_seq + 1)
        × ((secure p meta (object fs) l).1.s2c_seq ≡ l.s2c_seq + 1)
  unfolding secure
  secure-control meta fs l c =
      let (auth, whole, numbered) = sign_lem p.crypto fs l.auth (pos (l.s2c_seq + 1)) s2c in
      rw c (
        record {
          fs = fs;
          auth = auth;
          body = refl;
          whole = whole;
          verifies = verify-sign p.crypto fs l.auth (pos (l.s2c_seq + 1)) s2c;
          numbered = numbered;
        },
        refl,
      )

  secure-plain :
      (meta : MessageMeta) (message : Json) (l : Link W)
      → meta.auth ≢ AuthLevel.control
      → ((secure p meta message l).0 ≡ message) × ((secure p meta message l).1.s2c_seq ≡ l.s2c_seq)
  unfolding secure
  secure-plain meta message l c = elim (Bool-cases (is_control meta.auth)) [
    | inl e ↦ absurd (c (is_control-control meta.auth e))
    | inr e ↦ rw e (refl, refl)
  ]

  pub secure-world :
      (meta : MessageMeta) (message : Json) (l : Link W)
      → (secure p meta message l).1.world ≡ l.world
  unfolding secure
  secure-world meta message l = ground arith

  send_encoded-world :
      (spec : RequestSpec) (id encoded : String) (l : Link W) (id' : String)
      → (send_encoded p spec id encoded l).0 ≡ ok id'
      → (send_encoded p spec id encoded l).1.world ≡ (p.deliver l.world encoded).1
  unfolding send_encoded transmit_text
  send_encoded-world spec id encoded l id' e = ground arith

  send_request-Acceptable :
      (meta : MessageMeta) (spec : RequestSpec) (l : Link W) (id : String)
      → find_meta spec.type ≡ some meta
      → (send_request p meta spec l).0 ≡ ok id
      → Acceptable meta spec l (send_request p meta spec l).1
  unfolding send_request next_msg_id message_of
  send_request-Acceptable meta spec l id listed e =
      let id' = message_id (l.msg_seq + 1) in
      let message = unsigned meta spec l in
      let s = secure p meta message (numbered l) in
      let o = send_encoded-ok p spec id' (p.dump s.0) s.1 id e in
      let b = send_encoded_link p spec id' (p.dump s.0) s.1 in
      let world = secure-world meta message (numbered l) in
      record {
        frame = s.0;
        listed = listed;
        fits = o.1;
        taken = subst (λ w. (p.deliver w (p.dump s.0)).0 ≡ true) world o.2;
        handed =
            send_encoded-world spec id' (p.dump s.0) s.1 id e
            ∙ ap (λ w. (p.deliver w (p.dump s.0)).1) world;
        signed = λ c. let k = secure-control meta _ (numbered l) c in (k.0, b.3 ∙ k.1);
        plain = λ c. let k = secure-plain meta message (numbered l) c in (k.0, b.3 ∙ k.1);
      }

  -- Whenever the sender of a session reports success, what it handed to the transport is a frame of a
  -- listed type within the device's limit that the transport took; a control message is the message
  -- of the request, signed so that it verifies under the session's keys, with the sequence number
  -- after the last one; another message is that of the request, unsigned, and takes no number.
  pub encode_and_send-Acceptable :
      (l : Link W) (spec : RequestSpec) (id : String)
      → (encode_and_send p l spec).0 ≡ ok id
      → (meta : MessageMeta) × Acceptable meta spec l (encode_and_send p l spec).1
  unfolding encode_and_send
  encode_and_send-Acceptable l spec id e = elim (Bool-cases (is_running l.state)) [
    | inl on ↦ elim (Option-cases (find_meta spec.type)) [
      | inl unknown ↦ cc (rw (on, unknown) at e)
      | inr (meta, known) ↦ (
        meta,
        rw (on, known) (send_request-Acceptable meta spec l id known (rw (on, known) at e)),
      )
    ]
    | inr off ↦ cc (rw off at e)
  ]
