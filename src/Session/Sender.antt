-- ===== src/Session/Sender.antt =====
-- The sending half of src/protocol/session.cpp: message ids, signing and the frame limit.
use Prim.Native.Char.{Char, code}
use fountainer_client_framew.Common.{
  ℕ, ◌+◌, Bool, true, false, Option, none, some, String, [], ◌∷◌, concat, join, decimal, ltb,
  if◌then◌else◌,
}
use fountainer_client_framew.Error.{
  ErrorDomain, ErrorCode, Result, ok, err, make_error, protocol_error,
}
use fountainer_client_framew.Json.{Json, pos}
use fountainer_client_framew.Messages.{MessageMeta, AuthLevel, s2c, find_meta}
use fountainer_client_framew.Auth.{sign}
use fountainer_client_framew.Envelope.{message_of}
use fountainer_client_framew.Dispatcher.Types.{RequestSpec}
use fountainer_client_framew.Session.Types.{SessionState, running, state_text, Platform, Link}

-- `kMaxControlFrameBytes`.
abbrev pub max_control_frame_bytes : ℕ
max_control_frame_bytes = 4096

unfoldable pub char_bytes : Char → ℕ
char_bytes c =
    if ltb (code c) 128
    then 1
    else if ltb (code c) 2048
    then 2
    else if ltb (code c) 65536
    then 3
    else 4

-- `size()` of a text, which the program holds in UTF-8.
unfoldable pub byte_size : String → ℕ
byte_size String.[] = 0
byte_size (String.◌∷◌ c s) = char_bytes c + byte_size s

abbrev pub is_control : AuthLevel → Bool
is_control AuthLevel.control = true
is_control _ = false

abbrev pub is_running : SessionState → Bool
is_running running = true
is_running _ = false

abbrev pub message_id : ℕ → String
message_id n = String.◌∷◌ "s" (String.◌∷◌ "-" (decimal n))

module _ {W : Type 0} (p : Platform W) where
  -- The number and the signature of a message of the level `Control`.
  unfoldable pub secure : MessageMeta → Json → Link W → Json × Link W
  secure meta message l =
      if is_control meta.auth
      then (
        sign p.crypto message l.auth (pos (l.s2c_seq + 1)) s2c,
        record l { s2c_seq = l.s2c_seq + 1 },
      )
      else (message, l)

  unfoldable pub next_msg_id : Link W → String × Link W
  next_msg_id l = (message_id (l.msg_seq + 1), record l { msg_seq = l.msg_seq + 1 })

  -- `send_` on an encoded message, and the time of a frame that went out.
  unfoldable pub transmit_text : String → Link W → Bool × Link W
  transmit_text encoded l =
      let (delivered, w) = p.deliver l.world encoded in
      if delivered
      then (true, record l { world = w; last_tx = p.clock w })
      else (false, record l { world = w })

  unfoldable pub transmit : Json → Link W → Bool × Link W
  unfolding transmit_text
  transmit message l = transmit_text (p.dump message) l

  -- `none` is the exception of `build_message`.
  unfoldable pub send_message : String → Json → String → Link W → Option (Bool × Link W)
  unfolding secure
  send_message type body in_reply_to l = elim (find_meta type) [
    | none ↦ none
    | some meta ↦
        (let (message, l') =
            secure meta (message_of meta type body "" in_reply_to (p.now_ms l.world)) l in
          some (transmit message l'))
  ]

  -- `encode_and_send` on an encoded request.
  unfoldable pub send_encoded : RequestSpec → String → String → Link W → Result String × Link W
  unfolding byte_size transmit_text
  send_encoded spec msg_id encoded l =
      if ltb max_control_frame_bytes (byte_size encoded)
      then (
        err (
            make_error ErrorDomain.protocol ErrorCode.frame_too_large (
              concat (
                spec.type
                ∷ " frame is "
                ∷ decimal (byte_size encoded)
                ∷ " bytes, device limit is "
                ∷ decimal max_control_frame_bytes
                ∷ []))),
        l,
      )
      else (let (delivered, l') = transmit_text encoded l in
          if delivered then (ok msg_id, l') else (
            err (
                make_error ErrorDomain.disconnected ErrorCode.transport_closed
                  (join spec.type " could not be sent")),
            l',
          ))

  -- `encode_and_send` on a type of the table.
  unfoldable pub send_request : MessageMeta → RequestSpec → Link W → Result String × Link W
  unfolding secure send_encoded
  send_request meta spec l0 =
      let (msg_id, l1) = next_msg_id l0 in
      let (message, l2) =
        secure meta (message_of meta spec.type spec.body msg_id "" (p.now_ms l1.world)) l1 in
      send_encoded spec msg_id (p.dump message) l2

  unfoldable pub encode_and_send : Link W → RequestSpec → Result String × Link W
  unfolding send_request
  encode_and_send l spec =
      if is_running l.state
      then elim (find_meta spec.type) [
        | none ↦ (
          err (
              protocol_error ErrorCode.unexpected_message
                (concat ("unknown message type '" ∷ spec.type ∷ "'" ∷ []))),
          l,
        )
        | some meta ↦ send_request meta spec l
      ]
      else (
        err (
            make_error ErrorDomain.disconnected ErrorCode.not_connected
              (concat ("session is " ∷ state_text l.state ∷ ", not running" ∷ []))),
        l,
      )
