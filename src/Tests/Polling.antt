-- ===== src/Tests/Polling.antt =====
-- The poller's theorems at a small table of entries.
use fountainer_client_framew.Common.{
  ◌≤◌, ◌≡◌, refl, true, false, String, List, [], ◌∷◌, length, arith, All,
}
use fountainer_client_framew.Poller.{PollStats, Poller}
use fountainer_client_framew.Poller.Chunks.{tick, chunks, joined, joined-chunks}
use fountainer_client_framew.Poller.Ticks.{Asks, tick-Polled}

abbrev no_stats : PollStats
no_stats = record {
  cycles = 0;
  requests = 0;
  coalesced_points = 0;
  skipped_inflight = 0;
  missed_deadlines = 0;
  keepalives = 0;
  failures = 0;
}

abbrev poller : Poller
poller = record {
  entries =
      (
        "a",
        record { interval = 10; next_due = 25; in_flight = false; once = false; once_done = false },
      )
      ∷ (
        "b",
        record { interval = 10; next_due = 31; in_flight = true; once = false; once_done = false },
      )
      ∷ (
        "c",
        record { interval = 0; next_due = 0; in_flight = false; once = true; once_done = false },
      )
      ∷ [];
  class_intervals = λ c. 5000;
  keepalive = 240;
  running = true;
  paused = false;
  raster_dirty = false;
  stats = no_stats;
}

tick-Polled_example : Asks 50 poller (tick 50 0 poller)
tick-Polled_example =
    tick-Polled 50 0 poller refl refl
      ((λ again. omega arith), ((λ again. omega arith), ((λ again. cc), tt)))

joined-chunks_example :
    (joined (chunks 2 ("a" ∷ "b" ∷ [])) ≡ "a" ∷ "b" ∷ [])
    × All (λ (c : List String). length c ≤ 100) (chunks 2 ("a" ∷ "b" ∷ []))
joined-chunks_example = joined-chunks 2 ("a" ∷ "b" ∷ []) (omega arith)
