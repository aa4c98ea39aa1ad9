-- ===== src/Session/Ids.antt =====
-- The message ids of a session: the dispatcher's sender hands out every id once.
use fountainer_client_framew.Common.{
  ℕ, zero, suc, ◌+◌, ◌≤◌, ◌<◌, ◌≡◌, ◌⊎◌, refl, ap, ◌∙◌, inl, inr, Bool, true, false, ◌||◌, String,
  arith, same_text, same_text_iff, same_text_refl, decimal_injective, Bool-cases, Option-cases,
}
use fountainer_client_framew.Error.{Result, ok}
use fountainer_client_framew.Json.{Json}
use fountainer_client_framew.Messages.{MessageMeta, find_meta}
use fountainer_client_framew.Envelope.{message_of}
use fountainer_client_framew.Dispatcher.Types.{RequestSpec}
use fountainer_client_framew.Dispatcher.Sender.{FreshIds}
use fountainer_client_framew.Session.Types.{Platform, Link}
use fountainer_client_framew.Session.Sender.{
  message_id, is_running, byte_size, max_control_frame_bytes, secure, transmit_text, send_encoded,
  next_msg_id, send_request, encode_and_send,
}

message_id_injective : (m n : ℕ) → message_id m ≡ message_id n → m ≡ n
message_id_injective m n e = decimal_injective m n (ap without e)
  where
    without : String → String
    without (String.◌∷◌ a (String.◌∷◌ b s)) = s
    without s = s

-- One of the ids from 1 to `n`.
pub issued_upto : ℕ → String → Bool
issued_upto zero id = false
issued_upto (suc n) id = same_text id (message_id (suc n)) || issued_upto n id

issued_upto_above : (n k : ℕ) → n < k → issued_upto n (message_id k) ≡ false
unfolding issued_upto
issued_upto_above zero k h = refl
issued_upto_above (suc n) k h = elim (Bool-cases (same_text (message_id k) (message_id (suc n)))) [
  | inl e ↦
      let same =
        message_id_injective k (suc n) ((same_text_iff (message_id k) (message_id (suc n))).0 e) in
      absurd (omega (arith, same))
  | inr e ↦ rw e (issued_upto_above n k (omega arith))
]

-- What a call of the sender does to the members that the session reads elsewhere.
pub record Sends {W : Type 0} (l : Link W) (r : Result String) (l' : Link W) : Type 0 where
  pub state_kept : l'.state ≡ l.state
  pub auth_kept : l'.auth ≡ l.auth
  pub ids : (l'.msg_seq ≡ l.msg_seq) ⊎ (l'.msg_seq ≡ suc l.msg_seq)
  pub seqs : l.s2c_seq ≤ l'.s2c_seq
  pub takes :
      (id : String)
      → r ≡ ok id
      → (id ≡ message_id (suc l.msg_seq))
        × (l'.msg_seq ≡ suc l.msg_seq)
        × (is_running l.state ≡ true)

still :
    {W : Type 0} (l : Link W) (r : Result String) → ((id : String) → r ≡ ok id → ⊥) → Sends l r l
still l r never = record {
  state_kept = refl;
  auth_kept = refl;
  ids = inl refl;
  seqs = omega arith;
  takes = λ id e. absurd (never id e);
}

module _ {W : Type 0} (p : Platform W) where
  pub secure_link :
      (meta : MessageMeta) (message : Json) (l : Link W)
      → ((secure p meta message l).1.state ≡ l.state)
        × ((secure p meta message l).1.auth ≡ l.auth)
        × ((secure p meta message l).1.msg_seq ≡ l.msg_seq)
        × (l.s2c_seq ≤ (secure p meta message l).1.s2c_seq)
  unfolding secure
  secure_link meta message l = ground arith

  pub transmit_text_link :
      (encoded : String) (l : Link W)
      → ((transmit_text p encoded l).1.state ≡ l.state)
        × ((transmit_text p encoded l).1.auth ≡ l.auth)
        × ((transmit_text p encoded l).1.msg_seq ≡ l.msg_seq)
        × ((transmit_text p encoded l).1.s2c_seq ≡ l.s2c_seq)
  unfolding transmit_text
  transmit_text_link encoded l = ground arith

  pub send_encoded_link :
      (spec : RequestSpec) (id encoded : String) (l : Link W)
      → ((send_encoded p spec id encoded l).1.state ≡ l.state)
        × ((send_encoded p spec id encoded l).1.auth ≡ l.auth)
        × ((send_encoded p spec id encoded l).1.msg_seq ≡ l.msg_seq)
        × ((send_encoded p spec id encoded l).1.s2c_seq ≡ l.s2c_seq)
  unfolding send_encoded
  send_encoded_link spec id encoded l = ground (arith, transmit_text_link encoded l)

  pub send_encoded-ok :
      (spec : RequestSpec) (id encoded : String) (l : Link W) (id' : String)
      → (send_encoded p spec id encoded l).0 ≡ ok id'
      → (id' ≡ id)
        × (byte_size encoded ≤ max_control_frame_bytes)
        × ((p.deliver l.world encoded).0 ≡ true)
  unfolding send_encoded transmit_text
  send_encoded-ok spec id encoded l id' e = ground arith

  send_request-Sends :
      (meta : MessageMeta) (spec : RequestSpec) (l : Link W)
      → is_running l.state ≡ true
      → Sends l (send_request p meta spec l).0 (send_request p meta spec l).1
  unfolding send_request next_msg_id
  send_request-Sends meta spec l on =
      let l1 = record l { msg_seq = l.msg_seq + 1 } in
      let id = message_id (l.msg_seq + 1) in
      let message = message_of meta spec.type spec.body id "" (p.now_ms l1.world) in
      let a = secure_link meta message l1 in
      let s = secure p meta message l1 in
      let b = send_encoded_link spec id (p.dump s.0) s.1 in
      let next : id ≡ message_id (suc l.msg_seq) = ap message_id (omega arith) in
      record {
        state_kept = b.0 ∙ a.0;
        auth_kept = b.1 ∙ a.1;
        ids = inr (omega (arith, b.2, a.2));
        seqs = omega (arith, b.3, a.3);
        takes = λ id' e. (
          (send_encoded-ok spec id (p.dump s.0) s.1 id' e).0 ∙ next,
          omega (arith, b.2, a.2),
          on,
        );
      }

  -- The sender keeps the state and the keys of the session, and an id that it hands out is the next
  -- one, which only a running session hands out.
  pub encode_and_send-Sends :
      (l : Link W) (spec : RequestSpec)
      → Sends l (encode_and_send p l spec).0 (encode_and_send p l spec).1
  unfolding encode_and_send
  encode_and_send-Sends l spec = elim (Bool-cases (is_running l.state)) [
    | inl on ↦ elim (Option-cases (find_meta spec.type)) [
      | inl unknown ↦ rw (on, unknown) (still l _ (λ id e. cc))
      | inr (meta, known) ↦ rw (on, known) (send_request-Sends meta spec l on)
    ]
    | inr off ↦ rw off (still l _ (λ id e. cc))
  ]

  pub issued_upto-takes :
      (l : Link W) (r : Result String) (l' : Link W) (id : String)
      → Sends l r l'
      → r ≡ ok id
      → (issued_upto l.msg_seq id ≡ false) × (issued_upto l'.msg_seq id ≡ true)
  unfolding issued_upto
  issued_upto-takes l r l' id s e =
      let t = s.takes id e in
      rw (t.0, t.1)
        (
          issued_upto_above l.msg_seq (suc l.msg_seq) (omega arith),
          rw (same_text_refl (message_id (suc l.msg_seq))) refl,
        )

  pub issued_upto-keeps :
      (l : Link W) (r : Result String) (l' : Link W) (id : String)
      → Sends l r l'
      → issued_upto l.msg_seq id ≡ true
      → issued_upto l'.msg_seq id ≡ true
  unfolding issued_upto
  issued_upto-keeps l r l' id s h = elim s.ids [
    | inl same ↦ rw same h
    | inr next ↦ rw next (ground arith)
  ]

  -- The sender of a session is one that a dispatcher may rely on.
  unfoldable pub session_ids : FreshIds (encode_and_send p)
  session_ids = record {
    issued = λ l id. issued_upto l.msg_seq id;
    fresh = λ l spec id e. (issued_upto-takes l _ _ id (encode_and_send-Sends l spec) e).0;
    records = λ l spec id e. (issued_upto-takes l _ _ id (encode_and_send-Sends l spec) e).1;
    keeps = λ l spec id h. issued_upto-keeps l _ _ id (encode_and_send-Sends l spec) h;
  }
