-- ===== src/Events.antt =====
-- include/fountainer/events.hpp, include/fountainer/connection.hpp and src/events.cpp: the event bus and
-- its subscriptions. A handler is an identity.
pub mod History
pub mod Slots
pub mod Delivery
use fountainer_client_framew.Common.{
  ℕ, ◌+◌, ◌%◌, Bool, true, false, Option, none, some, String, List, [], ◌∷◌, map, ltb, ◌==◌,
  u64_mod, if◌then◌else◌,
}
use fountainer_client_framew.Error.{Error}
use fountainer_client_framew.Json.{Json}
use fountainer_client_framew.Session.Types.{
  ConnectionInfo, Heartbeat, DeviceAlert, OtaStatus, ErrorReport,
}

pub data ClientState : Type 0 where
  disconnected resolving tcp_connecting tls_handshaking websocket_handshaking : ClientState
  fountain_handshaking ready reconnecting closing : ClientState

-- `to_string`.
unfoldable pub client_state_text : ClientState → String
client_state_text disconnected = "disconnected"
client_state_text resolving = "resolving"
client_state_text tcp_connecting = "tcp_connecting"
client_state_text tls_handshaking = "tls_handshaking"
client_state_text websocket_handshaking = "websocket_handshaking"
client_state_text fountain_handshaking = "fountain_handshaking"
client_state_text ready = "ready"
client_state_text reconnecting = "reconnecting"
client_state_text closing = "closing"

pub record ConnectionStateChange : Type 0 where
  pub previous : ClientState
  pub current : ClientState
  pub info : Option ConnectionInfo
  pub cause : Option Error

pub record ProtocolWarning : Type 0 where
  pub reason : String
  pub message_type : String
  pub in_reply_to : Option String

-- The members of `EventBus::Impl`.
pub data Channel : Type 0 where
  connection_state heartbeat device_alert ota_status error_report protocol_warning : Channel
  unknown : Channel

-- The arguments of the overloads of `publish` and of `publish_unknown`.
pub data Event : Type 0 where
  of_connection_state : ConnectionStateChange → Event
  of_heartbeat : Heartbeat → Event
  of_device_alert : DeviceAlert → Event
  of_ota_status : OtaStatus → Event
  of_error_report : ErrorReport → Event
  of_protocol_warning : ProtocolWarning → Event
  of_unknown : String → Json → Event

unfoldable pub channel_of : Event → Channel
channel_of (of_connection_state _) = connection_state
channel_of (of_heartbeat _) = heartbeat
channel_of (of_device_alert _) = device_alert
channel_of (of_ota_status _) = ota_status
channel_of (of_error_report _) = error_report
channel_of (of_protocol_warning _) = protocol_warning
channel_of (of_unknown _ _) = unknown

unfoldable pub channel_number : Channel → ℕ
channel_number connection_state = 0
channel_number heartbeat = 1
channel_number device_alert = 2
channel_number ota_status = 3
channel_number error_report = 4
channel_number protocol_warning = 5
channel_number unknown = 6

unfoldable pub same_channel : Channel → Channel → Bool
unfolding channel_number
same_channel c d = channel_number c == channel_number d

-- `SlotList`; the slots stand in the order of their tokens.
pub record SlotList : Type 0 where
  pub slots : List (ℕ × ℕ)
  pub next_token : ℕ

-- `slots_.emplace`: a token that is there keeps its handler.
unfoldable pub place : ℕ → ℕ → List (ℕ × ℕ) → List (ℕ × ℕ)
place token handler [] = (token, handler) ∷ []
place token handler ((t, h) ∷ slots) =
    if token == t
    then (t, h) ∷ slots
    else if ltb token t
    then (token, handler) ∷ (t, h) ∷ slots
    else (t, h) ∷ place token handler slots

-- `slots_.erase`.
unfoldable pub drop_slot : ℕ → List (ℕ × ℕ) → List (ℕ × ℕ)
drop_slot token [] = []
drop_slot token ((t, h) ∷ slots) =
    let rest = drop_slot token slots in if token == t then slots else (t, h) ∷ rest

-- `SlotList::add`, and the token that it returns.
unfoldable pub add : ℕ → SlotList → SlotList × ℕ
add handler s =
    let token = (s.next_token + 1) % u64_mod in
    (record { slots = place token handler s.slots; next_token = token }, token)

-- `SlotList::remove`.
unfoldable pub remove : ℕ → SlotList → SlotList
remove token s = record s { slots = drop_slot token s.slots }

-- The handlers that `SlotList::emit` calls, in their order: a copy made before the first call.
unfoldable pub emit : SlotList → List ℕ
emit s = map (λ slot. slot.1) s.slots

-- `EventBus::Impl`: the list of each member.
abbrev pub EventBus : Type 0
EventBus = Channel → SlotList

unfoldable pub new_bus : EventBus
new_bus c = record { slots = []; next_token = 0 }

unfoldable pub with_slots : Channel → SlotList → EventBus → EventBus
unfolding same_channel
with_slots d s bus c = if same_channel c d then s else bus c

-- `Subscription`: the channel and the token of its `unsubscribe_`, if it has one.
abbrev pub Subscription : Type 0
Subscription = Option (Channel × ℕ)

-- `attach`, which every `on_...` calls.
unfoldable pub attach : Channel → ℕ → EventBus → EventBus × Subscription
unfolding with_slots add
attach c handler bus = let (s, token) = add handler (bus c) in (with_slots c s bus, some (c, token))

-- The call of `unsubscribe_`: nothing, where the bus is gone.
unfoldable pub unsubscribe : Channel × ℕ → Option EventBus → Option EventBus
unfolding with_slots remove
unsubscribe (c, token) none = none
unsubscribe (c, token) (some bus) = some (with_slots c (remove token (bus c)) bus)

-- `Subscription::reset`, the destructor's call too.
unfoldable pub reset : Subscription → Option EventBus → Subscription × Option EventBus
unfolding unsubscribe
reset none bus = (none, bus)
reset (some ticket) bus = (none, unsubscribe ticket bus)

unfoldable pub is_active : Subscription → Bool
is_active none = false
is_active (some _) = true

-- `operator=` from another object: the target, the other and the bus.
unfoldable pub assign :
    Subscription → Subscription → Option EventBus → Subscription × Subscription × Option EventBus
unfolding reset
assign target other bus = let (_, bus') = reset target bus in (other, none, bus')

-- `publish` and `publish_unknown`: the calls of handlers, in their order.
unfoldable pub publish : Event → EventBus → List (ℕ × Event)
unfolding emit channel_of
publish event bus = map (λ handler. (handler, event)) (emit (bus (channel_of event)))
