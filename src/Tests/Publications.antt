-- ===== src/Tests/Publications.antt =====
-- A concrete history of the bus of src/events.cpp.
use fountainer_client_framew.Common.{◌≡◌, arith, some, List, [], ◌∷◌}
use fountainer_client_framew.Json.{object, end}
use fountainer_client_framew.Events.{
  Event, of_unknown, unknown, heartbeat, channel_of, new_bus, publish,
}
use fountainer_client_framew.Events.History.{Occasion, subscribes, resets, run, count, kept}
use fountainer_client_framew.Events.Delivery.{publish-kept}

-- Three handlers of unknown messages and one of heartbeats; the second subscription is reset.
abbrev subscriptions : List Occasion
subscriptions =
    subscribes unknown 7
    ∷ subscribes heartbeat 8
    ∷ subscribes unknown 9
    ∷ resets (some (unknown, 2))
    ∷ subscribes unknown 7
    ∷ resets (some (heartbeat, 4))
    ∷ []

abbrev message : Event
message = of_unknown "new_kind" (object end)

publish-kept_example :
    publish message (run subscriptions new_bus) ≡ (7, message) ∷ (7, message) ∷ []
unfolding count channel_of kept
publish-kept_example = publish-kept subscriptions message (omega arith)
