-- ===== src/Poller.antt =====
-- include/fountainer/datapoints/poller.hpp and src/datapoints/poller.cpp. Times are nanoseconds. The catalog is an
-- argument: any table of descriptors. `entries` lists the map in its order.
pub mod Grid
pub mod Chunks
pub mod Ticks
use fountainer_client_framew.Common.{
  ℕ, zero, suc, ◌+◌, ◌-◌, ◌*◌, ◌/◌, ◌%◌, Bool, true, false, not, ◌||◌, ◌&&◌, Option, none, some,
  String, List, [], ◌∷◌, length, ltb, leb, same_text, text_lt, concat, join, if◌then◌else◌, min,
  u64_mod,
}
use fountainer_client_framew.Error.{ErrorCode, Result, ok, err, Status, validation_error}
use fountainer_client_framew.Auth.{◌>>=◌}
use fountainer_client_framew.Datapoint.{
  DatapointDescriptor, PollClass, realtime, status, config, on_connect, disabled, readable,
}

pub record Entry : Type 0 where
  pub interval : ℕ
  pub next_due : ℕ
  pub in_flight : Bool
  pub once : Bool
  pub once_done : Bool

pub record PollStats : Type 0 where
  pub cycles : ℕ
  pub requests : ℕ
  pub coalesced_points : ℕ
  pub skipped_inflight : ℕ
  pub missed_deadlines : ℕ
  pub keepalives : ℕ
  pub failures : ℕ

pub record Poller : Type 0 where
  pub entries : List (String × Entry)
  pub class_intervals : PollClass → ℕ
  pub keepalive : ℕ
  pub running : Bool
  pub paused : Bool
  pub raster_dirty : Bool
  pub stats : PollStats

abbrev blank : Entry
blank = record { interval = 0; next_due = 0; in_flight = false; once = false; once_done = false }

-- `entries[name]`, which adds a blank entry for a new name, and what is then done to it.
unfoldable pub update : String → (Entry → Entry) → List (String × Entry) → List (String × Entry)
update name f [] = (name, f blank) ∷ []
update name f ((other, e) ∷ es) =
    if same_text name other
    then (other, f e) ∷ es
    else if text_lt name other
    then (name, f blank) ∷ (other, e) ∷ es
    else (other, e) ∷ update name f es

unfoldable pub remove_entry : String → List (String × Entry) → List (String × Entry)
remove_entry name [] = []
remove_entry name ((other, e) ∷ es) =
    if same_text name other then es else (other, e) ∷ remove_entry name es

unfoldable pub add : String → ℕ → Poller → Poller
add name interval q = record q {
  entries = update name (λ e. record e { interval = interval; once = false }) q.entries;
  raster_dirty = true;
}

unfoldable pub add_once : String → Poller → Poller
add_once name q = record q {
  entries = update name (λ e. record e { once = true; once_done = false }) q.entries;
  raster_dirty = true;
}

unfoldable pub remove : String → Poller → Poller
remove name q = record q { entries = remove_entry name q.entries }

abbrev same_class : PollClass → PollClass → Bool
same_class realtime realtime = true
same_class status status = true
same_class config config = true
same_class on_connect on_connect = true
same_class disabled disabled = true
same_class _ _ = false

unfoldable pub set_class_interval : PollClass → ℕ → Poller → Poller
set_class_interval poll_class interval q = record q {
  class_intervals = λ c. if same_class c poll_class then interval else q.class_intervals c;
}

unfoldable pub set_keepalive : ℕ → Poller → Poller
set_keepalive interval q = record q { keepalive = interval }

find_name : String → List DatapointDescriptor → Option DatapointDescriptor
find_name name [] = none
find_name name (d ∷ ds) = if same_text name d.name then some d else find_name name ds

-- The names before a refused one stay added.
unfoldable pub every : List DatapointDescriptor → ℕ → List String → Poller → Status × Poller
unfolding find_name
every catalog interval [] q = (ok tt, q)
every catalog interval (name ∷ names) q =
    let rest = every catalog interval names (add name interval q) in
    elim (find_name name catalog) [
      | none ↦ (
        err (
            validation_error ErrorCode.unknown_datapoint
              (concat ("unknown datapoint '" ∷ name ∷ "'" ∷ [])) name),
        q,
      )
      | some d ↦
          (if readable d then rest else (
            err (
                validation_error ErrorCode.read_only_datapoint (join name " is not readable") name),
            q,
          ))
    ]

-- The entry of a descriptor in `start_defaults`.
default_entry :
    DatapointDescriptor → (PollClass → ℕ) → List (String × Entry) → List (String × Entry)
default_entry d intervals es = elim d.poll_class [
  | disabled ↦ es
  | on_connect ↦ update d.name (λ e. record e { once = true; once_done = false }) es
  | realtime ↦ update d.name (λ e. record e { interval = intervals realtime; once = false }) es
  | status ↦ update d.name (λ e. record e { interval = intervals status; once = false }) es
  | config ↦ update d.name (λ e. record e { interval = intervals config; once = false }) es
]

default_entries :
    List DatapointDescriptor → (PollClass → ℕ) → List (String × Entry) → List (String × Entry)
unfolding default_entry
default_entries [] intervals es = es
default_entries (d ∷ ds) intervals es = default_entries ds intervals (default_entry d intervals es)

unfoldable pub start : Poller → Poller
start q = record q { running = true; paused = false; raster_dirty = true }

unfoldable pub start_defaults : List DatapointDescriptor → Poller → Poller
unfolding default_entries
start_defaults catalog q =
    start (record q { entries = default_entries catalog q.class_intervals q.entries })

unfoldable pub pause : Poller → Poller
pause q = record q { paused = true }

unfoldable pub resume : Poller → Poller
resume q = record q { paused = false; raster_dirty = true }

unfoldable pub stop : Poller → Poller
stop q = record q { running = false }

-- `running()`.
unfoldable pub polls_now : Poller → Bool
polls_now q = q.running && not q.paused

unfoldable pub on_reconnected : Poller → Poller
on_reconnected q = record q { raster_dirty = true }

unfoldable pub reset_entries : ℕ → List (String × Entry) → List (String × Entry)
reset_entries now [] = []
reset_entries now ((name, e) ∷ es) =
    (
      name,
      record e {
        next_due = now;
        in_flight = false;
        once_done = if e.once then false else e.once_done;
      },
    )
    ∷ reset_entries now es

unfoldable pub reset_raster : ℕ → Poller → Poller
unfolding reset_entries
reset_raster now q = record q { entries = reset_entries now q.entries; raster_dirty = false }

-- The next point of the grid behind `now`, and how many were skipped.
unfoldable pub advance : ℕ → Entry → ℕ × ℕ
advance now e =
    if leb (e.next_due + e.interval) now
    then (let skipped = (now - e.next_due) / e.interval in
        (e.next_due + (skipped + 1) * e.interval, skipped))
    else (e.next_due + e.interval, 0)

-- The loop's body for one entry: whether its name is due, and the entry afterwards.
unfoldable pub poll_entry : ℕ → Entry → PollStats → Bool × Entry × PollStats
unfolding advance
poll_entry now e stats =
    if e.once
    then (if not e.once_done && not e.in_flight
        then (true, record e { in_flight = true; once_done = true }, stats)
        else (false, e, stats))
    else if ltb now e.next_due
    then (false, e, stats)
    else (let (next, skipped) = advance now e in
        (
          not e.in_flight,
          record e { in_flight = true; next_due = next },
          record stats {
            skipped_inflight =
                if e.in_flight
                then (stats.skipped_inflight + 1) % u64_mod
                else stats.skipped_inflight;
            missed_deadlines = (stats.missed_deadlines + skipped) % u64_mod;
          },
        ))

pub record Swept : Type 0 where
  pub due : List String
  pub entries : List (String × Entry)
  pub stats : PollStats

unfoldable pub sweep : ℕ → List (String × Entry) → PollStats → Swept
sweep now [] stats = record { due = []; entries = []; stats = stats }
sweep now ((name, e) ∷ es) stats =
    let (is_due, e', stats') = poll_entry now e stats in
    let rest = sweep now es stats' in
    record {
      due = if is_due then name ∷ rest.due else rest.due;
      entries = (name, e') ∷ rest.entries;
      stats = rest.stats;
    }
