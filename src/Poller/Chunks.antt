-- ===== src/Poller/Chunks.antt =====
-- `tick` of the poller: the requests of a cycle, and the keepalive.
use fountainer_client_framew.Common.{
  ℕ, zero, suc, ◌+◌, ◌-◌, ◌%◌, min, ◌≤◌, ◌≡◌, refl, ap, ◌∙◌, Bool, false, not, ◌||◌, ◌&&◌, Option,
  none, some, String, List, [], ◌∷◌, ◌++◌, length, ltb, leb, arith, All, same_text, if◌then◌else◌,
  u64_mod,
}
use fountainer_client_framew.Poller.{Entry, PollStats, Poller, sweep, reset_raster}

-- `kMaxNamesPerRequest`.
abbrev pub max_names_per_request : ℕ
max_names_per_request = 100

pub take_names : ℕ → List String → List String
take_names zero xs = []
take_names (suc n) [] = []
take_names (suc n) (x ∷ xs) = x ∷ take_names n xs

pub drop_names : ℕ → List String → List String
drop_names zero xs = xs
drop_names (suc n) [] = []
drop_names (suc n) (x ∷ xs) = drop_names n xs

-- The loop over `offset`; each round takes a name at least, so the length is fuel enough.
pub chunks : ℕ → List String → List (List String)
unfolding take_names drop_names
chunks zero due = []
chunks (suc fuel) [] = []
chunks (suc fuel) (x ∷ xs) =
    take_names max_names_per_request (x ∷ xs)
    ∷ chunks fuel (drop_names max_names_per_request (x ∷ xs))

-- The calls of `async_read`: of the due names, or of `System_Uptime` for the keepalive.
pub data Read : Type 0 where
  polls : List String → Read
  keeps_alive : Read

unfoldable pub poll_reads : List (List String) → List Read
poll_reads [] = []
poll_reads (c ∷ cs) = polls c ∷ poll_reads cs

abbrev counted : List String → PollStats → PollStats
counted due stats = record stats {
  cycles = (stats.cycles + 1) % u64_mod;
  coalesced_points =
      if ltb 1 (length due)
      then (stats.coalesced_points + length due) % u64_mod
      else stats.coalesced_points;
  requests = (stats.requests + length (chunks (length due) due)) % u64_mod;
}

-- The part of `tick` behind the loop over the entries.
unfoldable pub finish : ℕ → ℕ → List String → Poller → List Read × Poller
unfolding poll_reads chunks
finish now last_tx [] q =
    if ltb 0 q.keepalive && leb q.keepalive (now - last_tx)
    then (
      keeps_alive ∷ [],
      record q { stats = record q.stats { keepalives = (q.stats.keepalives + 1) % u64_mod } },
    )
    else ([], q)
finish now last_tx (x ∷ xs) q =
    (poll_reads (chunks (length (x ∷ xs)) (x ∷ xs)), record q { stats = counted (x ∷ xs) q.stats })

abbrev pub rebuilt : ℕ → Poller → Poller
rebuilt now q = if q.raster_dirty then reset_raster now q else q

-- `tick` of a poller that runs.
unfoldable pub cycle : ℕ → ℕ → Poller → List Read × Poller
unfolding finish
cycle now last_tx q0 =
    let q = rebuilt now q0 in
    let s = sweep now q.entries q.stats in
    finish now last_tx s.due (record q { entries = s.entries; stats = s.stats })

unfoldable pub tick : ℕ → ℕ → Poller → List Read × Poller
unfolding cycle
tick now last_tx q = if not q.running || q.paused then ([], q) else cycle now last_tx q

-- The answer to a poll: `it->second.in_flight = false` for each name that is still there.
landed : String → List (String × Entry) → List (String × Entry)
landed name [] = []
landed name ((other, e) ∷ es) =
    if same_text name other
    then (other, record e { in_flight = false }) ∷ es
    else (other, e) ∷ landed name es

landed_all : List String → List (String × Entry) → List (String × Entry)
unfolding landed
landed_all [] es = es
landed_all (name ∷ names) es = landed_all names (landed name es)

unfoldable pub on_polled : List String → Bool → Poller → Poller
unfolding landed_all
on_polled chunk succeeded q = record q {
  entries = landed_all chunk q.entries;
  stats =
      if succeeded
      then q.stats
      else (record q.stats { failures = (q.stats.failures + 1) % u64_mod });
}

-- The least deadline of the entries that are still to be read; `none` is `TimePoint::max()`.
earliest : ℕ → Bool → List (String × Entry) → Option ℕ
earliest now dirty [] = none
earliest now dirty ((name, e) ∷ es) =
    let rest = earliest now dirty es in
    let own = if dirty then now else e.next_due in
    if e.once && e.once_done
    then rest
    else elim rest [ none ↦ some own | some other ↦ some (min own other) ]

unfoldable pub next_deadline : ℕ → Poller → Option ℕ
unfolding earliest
next_deadline now q =
    if not q.running || q.paused then none else earliest now q.raster_dirty q.entries

-- The names of the chunks, one chunk behind the other.
abbrev pub joined : List (List String) → List String
joined [] = []
joined (c ∷ cs) = c ++ joined cs

take-drop_names : (n : ℕ) (xs : List String) → take_names n xs ++ drop_names n xs ≡ xs
unfolding take_names drop_names
take-drop_names zero xs = refl
take-drop_names (suc n) [] = refl
take-drop_names (suc n) (x ∷ xs) = ap (λ ys. x ∷ ys) (take-drop_names n xs)

length-take_names : (n : ℕ) (xs : List String) → length (take_names n xs) ≤ n
unfolding take_names
length-take_names zero xs = omega arith
length-take_names (suc n) [] = omega arith
length-take_names (suc n) (x ∷ xs) = omega (arith, length-take_names n xs)

length-drop_names : (n : ℕ) (xs : List String) → length (drop_names n xs) ≤ length xs - n
unfolding drop_names
length-drop_names zero xs = omega arith
length-drop_names (suc n) [] = omega arith
length-drop_names (suc n) (x ∷ xs) = omega (arith, length-drop_names n xs)

-- The chunks of the due names are together exactly these names, in their order, and each chunk has
-- at most 100 of them: the fuel never cuts one off.
pub joined-chunks :
    (fuel : ℕ) (due : List String)
    → length due ≤ fuel
    → (joined (chunks fuel due) ≡ due)
      × All (λ (c : List String). length c ≤ max_names_per_request) (chunks fuel due)
unfolding chunks
joined-chunks zero [] h = (refl, tt)
joined-chunks zero (x ∷ xs) h = absurd (omega arith)
joined-chunks (suc fuel) [] h = (refl, tt)
joined-chunks (suc fuel) (x ∷ xs) h =
    let rest =
      joined-chunks fuel (drop_names 100 (x ∷ xs))
        (omega (arith, length-drop_names 100 (x ∷ xs))) in
    (
      ap (λ ys. take_names 100 (x ∷ xs) ++ ys) rest.0 ∙ take-drop_names 100 (x ∷ xs),
      (length-take_names 100 (x ∷ xs), rest.1),
    )
