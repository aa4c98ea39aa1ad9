-- ===== src/Session/Handshake.antt =====
-- `handle_hello`, `answer_ota_check` and `handle_proof`, as far as the state `Running`.
use fountainer_client_framew.Common.{
  ℕ, Bool, true, false, not, ◌||◌, ◌&&◌, Option, none, some, String, List, [], ◌∷◌, same_text,
  is_empty, concat, if◌then◌else◌,
}
use fountainer_client_framew.Error.{
  Error, ErrorDomain, ErrorCode, Result, ok, err, make_error, protocol_error, config_error,
}
use fountainer_client_framew.Json.{
  Json, pos, boolean, number_integer, text, array, object, Items, nil, cons, end, field, value_text,
}
use fountainer_client_framew.Auth.{◌>>=◌}
use fountainer_client_framew.Session.Types.{
  ConnectionInfo, CredentialProvider, await_proof, Platform, Session,
}
use fountainer_client_framew.Session.Values.{value_json, value_bits, elements}
use fountainer_client_framew.Session.Machine.{link, with_link, enter, abort, say}

abbrev auth_scheme : String
auth_scheme = "hmac-sha256"

-- `std::any_of` on the schemes.
pub has_scheme : Items → Bool
has_scheme nil = false
has_scheme (cons (text s) xs) = same_text s auth_scheme || has_scheme xs
has_scheme (cons _ xs) = has_scheme xs

-- The key id and the key that were chosen, `""` where none was, and the last error.
pub record Choice : Type 0 where
  pub chosen_kid : String
  pub key : List ℕ
  pub resolve_error : Error

abbrev pub chosen : String → Result (List ℕ) → Choice → Choice
chosen kid (ok key) rest = record {
  chosen_kid = kid;
  key = key;
  resolve_error = rest.resolve_error;
}
chosen kid (err e) rest = rest

-- The error that the rest of the loop starts from.
abbrev pub last_error : Error → Result (List ℕ) → Error
last_error e (ok key) = e
last_error e (err e') = e'

abbrev pub stops : Result (List ℕ) → Bool
stops (ok key) = true
stops (err e) = false

-- The loop over the offered key ids.
unfoldable pub choose_key : CredentialProvider → String → Error → Items → Choice
choose_key resolve device e nil = record { chosen_kid = ""; key = []; resolve_error = e }
choose_key resolve device e (cons (text kid) xs) =
    let rest = choose_key resolve device (last_error e (resolve device kid)) xs in
    if stops (resolve device kid)
    then chosen kid (resolve device kid) (record { chosen_kid = ""; key = []; resolve_error = e })
    else rest
choose_key resolve device e (cons _ xs) = choose_key resolve device e xs

unfoldable pub unresolved : Error
unresolved =
    make_error ErrorDomain.authentication ErrorCode.unknown_key_id
      "device offered no key id we can resolve"

unfoldable pub choose : Option CredentialProvider → String → Items → Choice
unfolding choose_key unresolved
choose none device kids = record {
  chosen_kid = "";
  key = [];
  resolve_error = config_error ErrorCode.missing_credentials "no credential provider configured";
}
choose (some resolve) device kids = choose_key resolve device unresolved kids

-- `info_` as the hello fills it in.
unfoldable pub read_info : Json → ConnectionInfo → {W : Type 0} → Platform W → Option ConnectionInfo
read_info message info p = do
  device_id ← value_text message "device_id"
  serial ← value_text message "serial"
  version ← value_text message "fw_version"
  revision ← value_text message "hw_rev"
  boot ← value_text message "boot_reason"
  protocol ← value_bits p 256 message "protocol_version"
  some (record info {
    device_id = device_id;
    serial = serial;
    firmware_version = version;
    hardware_revision = revision;
    boot_reason = boot;
    protocol_version = protocol;
  })

abbrev supported : Json
supported = array (cons (number_integer (pos 1)) (cons (number_integer (pos 2)) nil))

abbrev refusal : String → ℕ → Json
refusal why ts = object (
    field "accepted" (boolean false) (
      field "reason" (text why)
        (field "server_ts" (number_integer (pos ts)) (field "supported_protocols" supported end))))

abbrev acceptance : String → String → ℕ → Json
acceptance kid nonce ts = object (
    field "accepted" (boolean true) (
      field "auth_kid" (text kid) (
        field "auth_required" (boolean true) (
          field "auth_scheme" (text auth_scheme) (
            field "auth_scope" (text "control") (
              field "server_nonce" (text nonce) (
                field "server_ts" (number_integer (pos ts))
                  (field "supported_protocols" supported end))))))))

module _ {W : Type 0} (p : Platform W) where
  -- A refusing `hello_ack`, and the end of the session.
  unfoldable pub refuse : Json → String → Error → Session W → Option (Session W)
  refuse message why error s = do
    reply ← value_text message "msg_id"
    t ← say p "hello_ack" (refusal why (p.now_ms (link s).world)) reply s
    some (abort error 4004 why t)

  -- An accepting `hello_ack`, under the key that was chosen.
  unfoldable pub accept_hello : Json → Choice → Session W → Option (Session W)
  accept_hello message choice s0 = do
    let s =
        with_link
          (record (link s0) {
            auth = record (link s0).auth {
              key = choice.key;
              kid = choice.chosen_kid;
              device_id = s0.info.device_id;
            };
          })
          (record s0 {
            info = record s0.info {
              auth_scheme = auth_scheme;
              auth_scope = "control";
              auth_kid = choice.chosen_kid;
            };
          })
    reply ← value_text message "msg_id"
    t ←
        say p "hello_ack"
          (acceptance choice.chosen_kid (link s).auth.server_nonce (p.now_ms (link s).world)) reply
          s
    some (enter await_proof t)

  abbrev pub foreign_device : Session W → Error
  foreign_device s = make_error ErrorDomain.authentication ErrorCode.auth_rejected (
      concat (
        "device identifies as '" ∷ s.info.device_id ∷ "', expected '" ∷ s.config.expected_device_id
        ∷ "'" ∷ []))

  abbrev pub is_foreign : Session W → Bool
  is_foreign s =
      not (is_empty s.config.expected_device_id)
      && not (same_text s.info.device_id s.config.expected_device_id)

  -- The three answers to a hello: for another device, without a scheme or a key, and the acceptance.
  unfoldable pub answer_hello : Bool → Json → Choice → Session W → Option (Session W)
  unfolding refuse accept_hello
  answer_hello scheme_ok message choice s =
      if is_foreign s
      then refuse message "unknown_device" (foreign_device s) s
      else if not scheme_ok || is_empty choice.chosen_kid
      then refuse message "auth_required" choice.resolve_error s
      else accept_hello message choice s

  unfoldable pub offers_scheme : Json → Bool
  unfolding has_scheme
  offers_scheme message = has_scheme (elements (value_json message "auth_schemes" (array nil)))

  unfoldable pub choice_of : Json → Session W → Choice
  unfolding choose
  choice_of message s =
      choose s.config.credentials s.info.device_id
        (elements (value_json message "auth_kids" (array nil)))

  -- The rest of `handle_hello` once the hello has been read.
  unfoldable pub negotiate : Json → Session W → Option (Session W)
  unfolding offers_scheme choice_of answer_hello
  negotiate message s = answer_hello (offers_scheme message) message (choice_of message s) s

  -- The session once the members of the hello are stored.
  abbrev pub greeted : ConnectionInfo → String → Session W → Session W
  greeted info client_nonce s =
      with_link (record (link s) { auth = record (link s).auth { client_nonce = client_nonce } })
        (record s { info = info })

  unfoldable pub read_hello : Json → Session W → Option (Session W)
  unfolding read_info negotiate
  read_hello message s = do
    info ← read_info message s.info p
    client_nonce ← value_text message "client_nonce"
    negotiate message (greeted info client_nonce s)

  unfoldable pub handle_hello : Json → Session W → Option (Session W)
  unfolding read_hello
  handle_hello message s = do
    type ← value_text message "type"
    if same_text type "protocol_mismatch"
        then some (
            abort
              (protocol_error ErrorCode.protocol_mismatch
                "device reports no common protocol version")
              4000 "protocol_mismatch" s)
        else if same_text type "hello"
        then read_hello message s
        else some (
            abort
              (protocol_error ErrorCode.unexpected_message
                (concat ("expected hello, got '" ∷ type ∷ "'" ∷ [])))
              4000 "expected_hello" s)
