-- ===== src/Dispatcher/Counts.antt =====
-- How often a handler stands in the dispatcher, and how often it has been called.
use fountainer_client_framew.Common.{ℕ, ◌+◌, Option, none, some, List, [], ◌∷◌, ◌==◌, if◌then◌else◌}
use fountainer_client_framew.Dispatcher.Store.{Map}
use fountainer_client_framew.Dispatcher.Types.{
  Waiting, Pending, Event, called, sent, warned, Dispatcher,
}

abbrev pub is_handler : ℕ → Option ℕ → ℕ
is_handler h none = 0
is_handler h (some g) = if g == h then 1 else 0

unfoldable pub count_handlers : ℕ → List (Option ℕ) → ℕ
count_handlers h [] = 0
count_handlers h (g ∷ gs) = is_handler h g + count_handlers h gs

unfoldable pub count_waiting : ℕ → List Waiting → ℕ
count_waiting h [] = 0
count_waiting h (w ∷ ws) = count_handlers h w.handlers + count_waiting h ws

unfoldable pub count_pending : ℕ → Map Pending → ℕ
count_pending h [] = 0
count_pending h ((id, p) ∷ ps) = count_handlers h p.handlers + count_pending h ps

abbrev pub is_call : ℕ → Event → ℕ
is_call h (called g result) = if g == h then 1 else 0
is_call h (sent spec result) = 0
is_call h (warned reason type) = 0

unfoldable pub calls : ℕ → List Event → ℕ
calls h [] = 0
calls h (e ∷ es) = is_call h e + calls h es

-- The calls that a handler is still owed.
unfoldable pub outstanding : {S : Type 0} → ℕ → Dispatcher S → ℕ
outstanding h d = count_waiting h d.queue + count_pending h d.pending

-- The calls that a handler is owed or has had.
unfoldable pub account : {S : Type 0} → ℕ → Dispatcher S → ℕ
account h d = count_waiting h d.queue + count_pending h d.pending + calls h d.trace
