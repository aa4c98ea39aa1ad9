-- ===== src/Poller/Grid.antt =====
-- The deadlines of the poller stay on their grid, and nothing is polled twice at once.
use native.Mathlib.Nat.{div-add-mod, mod-lt}
use fountainer_client_framew.Common.{
  ℕ, ◌+◌, ◌-◌, ◌*◌, ◌/◌, ◌≤◌, ◌<◌, ◌≡◌, ◌⊎◌, refl, true, false, String, List, [], ◌∷◌, ltb, leb,
  arith, Bool-cases, inl, inr, ltb→lt, ltb→ge, leb→gt,
}
use fountainer_client_framew.Poller.{Entry, PollStats, sweep, poll_entry, advance}

-- What a tick at `now` does to the deadline of an entry: it is a point of the grid, ahead of `now`,
-- and the first such point where the entry was due.
abbrev pub Advanced : ℕ → Entry → Entry → Type 0
Advanced now e e' =
    (e'.interval ≡ e.interval)
    × (e'.once ≡ e.once)
    × (e.once ≡ false
        → ((steps : ℕ) × (e'.next_due ≡ e.next_due + steps * e.interval))
          × (now < e'.next_due)
          × (e.next_due ≤ now → e'.next_due ≤ now + e.interval))

-- An entry is to be polled: its deadline has come, or it is polled once and has not been yet.
abbrev pub Wants : ℕ → Entry → Type 0
Wants now e = ((e.once ≡ false) × (e.next_due ≤ now)) ⊎ ((e.once ≡ true) × (e.once_done ≡ false))

-- An entry is left alone: it waits for an answer, its deadline is still ahead, or it is polled once
-- and has been.
abbrev pub Rests : ℕ → Entry → Type 0
Rests now e =
    (e.in_flight ≡ true)
    ⊎ ((e.once ≡ false) × (now < e.next_due))
    ⊎ ((e.once ≡ true) × (e.once_done ≡ true))

-- The name of an entry is asked for, exactly if the entry is to be polled and not in flight; then it
-- is in flight, and has been polled if it is polled once.
abbrev pub IsAsked : ℕ → Entry → Entry → Type 0
IsAsked now e e' =
    Wants now e
    × (e.in_flight ≡ false)
    × (e'.in_flight ≡ true)
    × (e.once ≡ true → e'.once_done ≡ true)

-- Otherwise it is left alone and in flight as before.
abbrev pub IsLeft : ℕ → Entry → Entry → Type 0
IsLeft now e e' = Rests now e × (e'.in_flight ≡ e.in_flight) × (e'.once_done ≡ e.once_done)

-- The due names are, in their order, those of the entries that are asked for.
abbrev pub Polled : ℕ → List (String × Entry) → List String → List (String × Entry) → Type 0
Polled now [] due [] = due ≡ []
Polled now [] due (_ ∷ _) = ⊥
Polled now (_ ∷ _) due [] = ⊥
Polled now ((name, e) ∷ es) due ((name', e') ∷ es') =
    (name' ≡ name)
    × Advanced now e e'
    × (((rest : List String) × (due ≡ name ∷ rest) × IsAsked now e e' × Polled now es rest es')
        ⊎ (IsLeft now e e' × Polled now es due es'))

-- The interval of each entry that is polled again and again.
abbrev pub Periodic : Entry → Type 0
Periodic e = e.once ≡ false → 0 < e.interval

abbrev pub AllPeriodic : List (String × Entry) → Type 0
AllPeriodic [] = Unit {0}
AllPeriodic ((name, e) ∷ es) = Periodic e × AllPeriodic es

advance-OnGrid :
    (now : ℕ) (e : Entry)
    → 0 < e.interval
    → e.next_due ≤ now
    → (steps : ℕ) × ((advance now e).0 ≡ e.next_due + steps * e.interval)
      × (now < (advance now e).0)
      × ((advance now e).0 ≤ now + e.interval)
unfolding advance
advance-OnGrid now e positive passed = elim (Bool-cases (leb (e.next_due + e.interval) now)) [
  | inl behind ↦
      let a = now - e.next_due in
      let q = a / e.interval in
      let d = div-add-mod a e.interval in
      let m = mod-lt a positive in rw behind (q + 1, refl, omega (arith, d, m), omega (arith, d, m))
  | inr close ↦ rw close (1, omega arith, omega (arith, leb→gt _ _ close), omega arith)
]

poll_entry-Advanced :
    (now : ℕ) (e : Entry) (stats : PollStats)
    → Periodic e
    → Advanced now e (poll_entry now e stats).1
unfolding poll_entry
poll_entry-Advanced now e stats positive = elim (Bool-cases e.once) [
  | inl once ↦ ground arith
  | inr again ↦ elim (Bool-cases (ltb now e.next_due)) [
    | inl early ↦
        rw (again, early) (refl, refl, λ _. ((0, omega arith), ltb→lt _ _ early, λ h. omega arith))
    | inr late ↦
        let a = advance-OnGrid now e (positive again) (ltb→ge _ _ late) in
        rw (again, late) (refl, refl, λ _. ((a.0, a.1), a.2, λ _. a.3))
  ]
]

poll_entry_cases :
    (now : ℕ) (e : Entry) (stats : PollStats)
    → ((poll_entry now e stats).0 ≡ true → IsAsked now e (poll_entry now e stats).1)
      × ((poll_entry now e stats).0 ≡ false → IsLeft now e (poll_entry now e stats).1)
unfolding poll_entry
poll_entry_cases now e stats = ground arith

pub sweep-Polled :
    (now : ℕ) (es : List (String × Entry)) (stats : PollStats)
    → AllPeriodic es
    → Polled now es (sweep now es stats).due (sweep now es stats).entries
unfolding sweep
sweep-Polled now [] stats h = refl
sweep-Polled now ((name, e) ∷ es) stats h =
    let r = poll_entry now e stats in
    let rest = sweep-Polled now es r.2 h.1 in
    let f = poll_entry_cases now e stats in
    (
      refl,
      poll_entry-Advanced now e stats h.0,
      elim (Bool-cases r.0) [
        | inl due ↦ inl ((sweep now es r.2).due, rw due refl, f.0 due, rest)
        | inr idle ↦ inr (f.1 idle, rw idle rest)
      ],
    )
