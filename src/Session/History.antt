-- ===== src/Session/History.antt =====
-- What happens to a session, from its constructor on.
use fountainer_client_framew.Common.{ℕ, ◌+◌, ◌≡◌, false, Option, some, String, List, [], ◌∷◌}
use fountainer_client_framew.Error.{Error}
use fountainer_client_framew.Auth.{◌>>=◌}
use fountainer_client_framew.Dispatcher.Types.{RequestSpec}
use fountainer_client_framew.Dispatcher.Counts.{is_handler}
use fountainer_client_framew.Session.Types.{Platform, Session}
use fountainer_client_framew.Session.Sender.{is_running}
use fountainer_client_framew.Session.Machine.{
  link, with_link, on_transport_open, on_transport_closed, request,
}
use fountainer_client_framew.Session.Running.{on_text, tick}

-- A transport event, a call of the application, a tick, or a change of the world outside.
pub data Occasion (W : Type 0) : Type 0 where
  opens : Occasion W
  closes : Error → Occasion W
  hears : String → Occasion W
  requests : RequestSpec → Option ℕ → Occasion W
  ticks : ℕ → Occasion W
  elapses : W → Occasion W

module _ {W : Type 0} (p : Platform W) where
  -- `none` is an exception, which no caller of the session catches.
  unfoldable pub step : Occasion W → Session W → Option (Session W)
  step opens s = on_transport_open p s
  step (closes error) s = some (on_transport_closed error s)
  step (hears frame) s = on_text p frame s
  step (requests spec handler) s = some (request p spec handler s)
  step (ticks now) s = some (tick p now s)
  step (elapses w) s = some (with_link (record (link s) { world = w }) s)

  unfoldable pub run : List (Occasion W) → Session W → Option (Session W)
  run [] s = some s
  run (o ∷ os) s = step o s >>= run os

  -- No transport opens under a running session: the owner reports the end of the last one first.
  abbrev pub Opens : Occasion W → Session W → Type 0
  Opens opens s = is_running (link s).state ≡ false
  Opens _ s = Unit {0}

  abbrev pub Orderly : List (Occasion W) → Session W → Type 0
  Orderly [] s = Unit {0}
  Orderly (o ∷ os) s = Opens o s × ((s' : Session W) → step o s ≡ some s' → Orderly os s')

-- How often an occasion submits the handler.
abbrev pub asked : {W : Type 0} → ℕ → Occasion W → ℕ
asked h (requests spec handler) = is_handler h handler
asked h _ = 0

unfoldable pub asked_in : {W : Type 0} → ℕ → List (Occasion W) → ℕ
asked_in h [] = 0
asked_in h (o ∷ os) = asked h o + asked_in h os
