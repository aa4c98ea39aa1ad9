-- ===== src/Poller/Ticks.antt =====
-- What a tick asks for and what it leaves: its requests against the entries before and after.
use fountainer_client_framew.Common.{
  ℕ, ◌≤◌, ◌≡◌, refl, ap, sym, subst, ◌∙◌, Bool, true, false, not, ◌||◌, String, List, [], ◌∷◌, ◌++◌,
  length, arith, All, Bool-cases, inl, inr, if◌then◌else◌,
}
use fountainer_client_framew.Poller.{Entry, Poller, sweep, reset_raster, reset_entries}
use fountainer_client_framew.Poller.Chunks.{
  Read, polls, keeps_alive, poll_reads, chunks, joined, joined-chunks, finish, cycle, tick, rebuilt,
  max_names_per_request,
}
use fountainer_client_framew.Poller.Grid.{AllPeriodic, Polled, sweep-Polled}

-- The names that the requests poll.
unfoldable pub names_of : List Read → List String
names_of [] = []
names_of (polls c ∷ rs) = c ++ names_of rs
names_of (keeps_alive ∷ rs) = names_of rs

if_false {ℓ κ} :
    {A : Type ℓ} (P : A → Type κ) (b : Bool) (x y : A) → b ≡ false → P y → P (if b then x else y)
if_false P false x y e h = h
if_false P true x y e h = cc

abbrev pub Fits : Read → Type 0
Fits (polls c) = length c ≤ max_names_per_request
Fits keeps_alive = Unit

names_of-poll_reads : (cs : List (List String)) → names_of (poll_reads cs) ≡ joined cs
unfolding names_of poll_reads
names_of-poll_reads [] = refl
names_of-poll_reads (c ∷ cs) = ap (λ ys. c ++ ys) (names_of-poll_reads cs)

poll_reads-Fits :
    (cs : List (List String))
    → All (λ (c : List String). length c ≤ max_names_per_request) cs
    → All Fits (poll_reads cs)
unfolding poll_reads
poll_reads-Fits [] a = tt
poll_reads-Fits (c ∷ cs) a = (a.0, poll_reads-Fits cs a.1)

finish_lem :
    (now last_tx : ℕ) (due : List String) (q : Poller)
    → (names_of (finish now last_tx due q).0 ≡ due)
      × All Fits (finish now last_tx due q).0
      × ((finish now last_tx due q).1.entries ≡ q.entries)
unfolding finish names_of
finish_lem now last_tx [] q = ground arith
finish_lem now last_tx (x ∷ xs) q =
    let j = joined-chunks (length (x ∷ xs)) (x ∷ xs) (omega arith) in
    (
      names_of-poll_reads (chunks (length (x ∷ xs)) (x ∷ xs)) ∙ j.0,
      poll_reads-Fits (chunks (length (x ∷ xs)) (x ∷ xs)) j.1,
      refl,
    )

reset_entries-AllPeriodic :
    (now : ℕ) (es : List (String × Entry)) → AllPeriodic es → AllPeriodic (reset_entries now es)
unfolding reset_entries
reset_entries-AllPeriodic now [] h = tt
reset_entries-AllPeriodic now ((name, e) ∷ es) h = (h.0, reset_entries-AllPeriodic now es h.1)

rebuilt-AllPeriodic :
    (now : ℕ) (q : Poller) → AllPeriodic q.entries → AllPeriodic (rebuilt now q).entries
unfolding reset_raster
rebuilt-AllPeriodic now q h = elim (Bool-cases q.raster_dirty) [
  | inl dirty ↦ rw dirty (reset_entries-AllPeriodic now q.entries h)
  | inr clean ↦ rw clean h
]

-- What is said of the requests and the poller that a tick gives.
abbrev pub Asks : ℕ → Poller → List Read × Poller → Type 0
Asks now q r = Polled now (rebuilt now q).entries (names_of r.0) r.1.entries × All Fits r.0

cycle-Polled :
    (now last_tx : ℕ) (q : Poller) → AllPeriodic q.entries → Asks now q (cycle now last_tx q)
unfolding cycle
cycle-Polled now last_tx q h =
    let s = sweep now (rebuilt now q).entries (rebuilt now q).stats in
    let q1 = record (rebuilt now q) { entries = s.entries; stats = s.stats } in
    let f = finish_lem now last_tx s.due q1 in
    (
      subst
          (λ names.
            Polled now (rebuilt now q).entries names (finish now last_tx s.due q1).1.entries)
          (sym f.0)
          (subst (Polled now (rebuilt now q).entries s.due) (sym f.2) (
            sweep-Polled now (rebuilt now q).entries (rebuilt now q).stats
              (rebuilt-AllPeriodic now q h))),
      f.1,
    )

-- A tick of a running poller whose intervals are positive: its requests, of at most 100 names each,
-- ask, in the order of the entries, exactly for the names of the entries that are not in flight and
-- whose deadline has come, or which are polled once and have not been; these are then in flight. Every
-- deadline stays on its grid and ahead of `now`, missed points being skipped and not caught up. Where
-- the raster is dirty, the entries are those that `reset_raster` has set anew.
pub tick-Polled :
    (now last_tx : ℕ) (q : Poller)
    → q.running ≡ true
    → q.paused ≡ false
    → AllPeriodic q.entries
    → Asks now q (tick now last_tx q)
unfolding tick
tick-Polled now last_tx q on awake h =
    let e : (not q.running || q.paused) ≡ false = ground arith in
    if_false (Asks now q) _ _ _ e (cycle-Polled now last_tx q h)
