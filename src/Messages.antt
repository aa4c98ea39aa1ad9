-- ===== src/Messages.antt =====
-- include/fountainer/protocol/fountain_messages.hpp: the message table of Fountain v2.2.
use fountainer_client_framew.Common.{
  ℕ, Bool, true, false, Option, String, List, [], ◌∷◌, same_text, ◌||◌, if◌then◌else◌,
}

pub data Direction : Type 0 where
  c2s s2c : Direction

pub data AuthLevel : Type 0 where
  none session control : AuthLevel

-- `responses` holds the first `response_count` entries of the array.
pub record MessageMeta : Type 0 where
  pub name : String
  pub direction : Direction
  pub wire : ℕ
  pub auth : AuthLevel
  pub request : Bool
  pub responses : List String

one_of : List String → String → Bool
one_of [] type = false
one_of (r ∷ rs) type = same_text r type || one_of rs type

unfoldable pub accepts_response : MessageMeta → String → Bool
unfolding one_of
accepts_response meta type = one_of meta.responses type

abbrev pub entry : String → Direction → ℕ → AuthLevel → Bool → List String → MessageMeta
entry name direction wire auth request responses = record {
  name = name;
  direction = direction;
  wire = wire;
  auth = auth;
  request = request;
  responses = responses;
}

-- `kMessages`.
pub messages : List MessageMeta
messages =
    entry "hello" c2s 1 AuthLevel.none true ("hello_ack" ∷ [])
    ∷ entry "hello_ack" s2c 1 AuthLevel.none false []
    ∷ entry "protocol_mismatch" c2s 1 AuthLevel.none false []
    ∷ entry "ota_check" c2s 2 session true ("ota_none" ∷ "ota_available" ∷ [])
    ∷ entry "ota_available" s2c 2 control false ("ota_status" ∷ [])
    ∷ entry "ota_none" s2c 2 AuthLevel.none false []
    ∷ entry "ota_cancel" s2c 2 control false ("ota_status" ∷ [])
    ∷ entry "ota_status" c2s 2 AuthLevel.none false []
    ∷ entry "heartbeat" c2s 2 AuthLevel.none false []
    ∷ entry "dp_report" c2s 2 AuthLevel.none false []
    ∷ entry "dp_read" s2c 2 AuthLevel.none true ("dp_report" ∷ [])
    ∷ entry "dp_write" s2c 2 control true ("dp_write_result" ∷ [])
    ∷ entry "dp_write_result" c2s 2 AuthLevel.none false []
    ∷ entry "command" s2c 2 control true ("command_result" ∷ [])
    ∷ entry "command_result" c2s 2 AuthLevel.none false []
    ∷ entry "error_report" c2s 2 AuthLevel.none false []
    ∷ entry "device_alert" c2s 2 AuthLevel.none false []
    ∷ entry "log_read" s2c 2 control true ("log_batch" ∷ [])
    ∷ entry "log_batch" c2s 2 AuthLevel.none false []
    ∷ entry "log_read_prev" s2c 2 control true ("log_batch" ∷ [])
    ∷ entry "log_ack_prev" s2c 2 control true ("log_ack_result" ∷ [])
    ∷ entry "log_ack_result" c2s 2 AuthLevel.none false []
    ∷ []

pub find_in : List MessageMeta → String → Option MessageMeta
find_in [] name = Option.none
find_in (meta ∷ rest) name =
    if same_text meta.name name then Option.some meta else find_in rest name

-- `nullptr` is `none`.
unfoldable pub find_meta : String → Option MessageMeta
unfolding find_in messages
find_meta name = find_in messages name
