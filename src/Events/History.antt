-- ===== src/Events/History.antt =====
-- Histories of subscriptions on the bus of src/events.cpp, and the handlers that they leave.
use fountainer_client_framew.Common.{
  ℕ, ◌+◌, Bool, false, ◌&&◌, ◌||◌, none, some, List, [], ◌∷◌, ◌==◌, if◌then◌else◌,
}
use fountainer_client_framew.Events.{Channel, same_channel, EventBus, Subscription, attach, reset}

-- A handler is subscribed, or a subscription is reset.
pub data Occasion : Type 0 where
  subscribes : Channel → ℕ → Occasion
  resets : Subscription → Occasion

unfoldable pub perform : Occasion → EventBus → EventBus
perform (subscribes c h) bus = (attach c h bus).0
perform (resets s) bus = elim (reset s (some bus)).1 [ none ↦ bus | some bus' ↦ bus' ]

unfoldable pub run : List Occasion → EventBus → EventBus
unfolding perform
run [] bus = bus
run (o ∷ os) bus = run os (perform o bus)

-- How many handlers a history subscribes on a channel.
unfoldable pub count : Channel → List Occasion → ℕ
unfolding same_channel
count c [] = 0
count c (subscribes d h ∷ os) = let n = count c os in if same_channel c d then n + 1 else n
count c (resets s ∷ os) = count c os

unfoldable pub is_ticket : Channel → ℕ → Subscription → Bool
unfolding same_channel
is_ticket c t none = false
is_ticket c t (some (d, u)) = same_channel c d && t == u

-- The history resets the subscription with a token of a channel.
unfoldable pub is_reset : Channel → ℕ → List Occasion → Bool
unfolding is_ticket
is_reset c t [] = false
is_reset c t (subscribes d h ∷ os) = is_reset c t os
is_reset c t (resets s ∷ os) = is_ticket c t s || is_reset c t os

-- The handlers subscribed on a channel whose subscription is not reset afterwards, in the order of the
-- subscriptions, of which the first has the number after `n`.
unfoldable pub kept : Channel → ℕ → List Occasion → List ℕ
unfolding same_channel is_reset
kept c n [] = []
kept c n (subscribes d h ∷ os) =
    let rest = kept c (n + 1) os in
    let same = kept c n os in
    if same_channel c d then (if is_reset c (n + 1) os then rest else h ∷ rest) else same
kept c n (resets s ∷ os) = kept c n os
