-- ===== src/Envelope.antt =====
-- include/fountainer/protocol/envelope.hpp and src/protocol/envelope.cpp. The clock's `now_ms()` is
-- an argument: every call of the sources passes a time that is not negative, as `ts`.
use fountainer_client_framew.Common.{ℕ, Option, none, some, String, is_empty, if◌then◌else◌}
use fountainer_client_framew.Json.{
  Json, pos, number_integer, text, object, Fields, end, field, set_field,
}
use fountainer_client_framew.Messages.{MessageMeta, find_meta}

-- `msg[it.key()] = it.value()` for each member of the body.
unfoldable pub set_all : Fields → Fields → Fields
set_all end msg = msg
set_all (field k v fs) msg = set_all fs (set_field k v msg)

unfoldable pub members_of : Json → Fields
members_of (object fs) = fs
members_of _ = end

unfoldable pub set_unless_empty : String → String → Fields → Fields
set_unless_empty k v msg = if is_empty v then msg else set_field k (text v) msg

-- `build_message` for a type whose table entry is `meta`.
unfoldable pub message_of : MessageMeta → String → Json → String → String → ℕ → Json
unfolding set_all members_of set_unless_empty
message_of meta name body msg_id in_reply_to ts = object (
    set_all (members_of body) (
      set_unless_empty "in_reply_to" in_reply_to (
        set_unless_empty "msg_id" msg_id (
          field "ts" (number_integer (pos ts))
            (field "type" (text name) (field "v" (number_integer (pos meta.wire)) end))))))

-- `none` is the exception for a type that the table does not have.
unfoldable pub build_message : String → Json → String → String → ℕ → Option Json
build_message name body msg_id in_reply_to ts = elim (find_meta name) [
  | none ↦ none
  | some meta ↦ some (message_of meta name body msg_id in_reply_to ts)
]
