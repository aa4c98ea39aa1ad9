-- ===== src/Events/Slots.antt =====
-- The slots of a `SlotList` of src/events.cpp: their order, and which of them a history keeps.
use fountainer_client_framew.Common.{
  ◌≡◌, refl, sym, arith, inl, inr, Bool-cases, ℕ, ◌+◌, ◌≤◌, ◌<◌, true, false, ◌&&◌, none, some,
  List, [], ◌∷◌, ◌++◌, map, ltb, ◌==◌, if◌then◌else◌,
}
use fountainer_client_framew.Events.{Channel, same_channel, place, drop_slot}
use fountainer_client_framew.Events.History.{Occasion, subscribes, resets, is_ticket, is_reset}

-- The handlers of slots that a history does not reset.
unfoldable pub survivors : Channel → List Occasion → List (ℕ × ℕ) → List ℕ
unfolding is_reset
survivors c os [] = []
survivors c os ((t, h) ∷ slots) =
    let rest = survivors c os slots in if is_reset c t os then rest else h ∷ rest

-- The tokens ascend, above `lo` and up to `hi`.
abbrev pub Ascending : ℕ → List (ℕ × ℕ) → ℕ → Type 0
Ascending lo [] hi = lo ≤ hi
Ascending lo ((t, h) ∷ slots) hi = (lo < t) × Ascending t slots hi

Ascending-bound : (lo : ℕ) (slots : List (ℕ × ℕ)) (hi : ℕ) → Ascending lo slots hi → lo ≤ hi
Ascending-bound lo [] hi a = a
Ascending-bound lo ((t, h) ∷ slots) hi a =
    let below = Ascending-bound t slots hi a.1 in let above = a.0 in omega arith

Ascending-weaken :
    (lo t : ℕ) (slots : List (ℕ × ℕ)) (hi : ℕ)
    → lo ≤ t
    → Ascending t slots hi
    → Ascending lo slots hi
Ascending-weaken lo t [] hi le a = omega arith
Ascending-weaken lo t ((u, h) ∷ slots) hi le a = let above = a.0 in (omega arith, a.1)

pub place-last :
    (lo : ℕ) (slots : List (ℕ × ℕ)) (n h : ℕ)
    → Ascending lo slots n
    → place (n + 1) h slots ≡ slots ++ (n + 1, h) ∷ []
unfolding place
place-last lo [] n h a = refl
place-last lo ((t, g) ∷ slots) n h a =
    let below = Ascending-bound t slots n a.1 in
    let differs : ((n + 1) == t) ≡ false = ground arith in
    let later : ltb (n + 1) t ≡ false = ground arith in
    rw (differs, later, place-last t slots n h a.1) refl

pub last-Ascending :
    (lo : ℕ) (slots : List (ℕ × ℕ)) (n h : ℕ)
    → Ascending lo slots n
    → Ascending lo (slots ++ (n + 1, h) ∷ []) (n + 1)
last-Ascending lo [] n h a = (omega arith, omega arith)
last-Ascending lo ((t, g) ∷ slots) n h a = (a.0, last-Ascending t slots n h a.1)

pub drop_slot-Ascending :
    (token lo : ℕ) (slots : List (ℕ × ℕ)) (hi : ℕ)
    → Ascending lo slots hi
    → Ascending lo (drop_slot token slots) hi
unfolding drop_slot
drop_slot-Ascending token lo [] hi a = a
drop_slot-Ascending token lo ((t, h) ∷ slots) hi a = elim (Bool-cases (token == t)) [
  | inl here ↦ let above = a.0 in rw here (Ascending-weaken lo t slots hi (omega arith) a.1)
  | inr there ↦ rw there (a.0, drop_slot-Ascending token t slots hi a.1)
]

pub survivors-append :
    (c : Channel) (os : List Occasion) (slots : List (ℕ × ℕ)) (t h : ℕ)
    → survivors c os (slots ++ (t, h) ∷ [])
      ≡ survivors c os slots ++ (if is_reset c t os then [] else h ∷ [])
unfolding survivors
survivors-append c os [] t h = refl
survivors-append c os ((u, g) ∷ slots) t h = elim (Bool-cases (is_reset c u os)) [
  | inl gone ↦ rw (gone, survivors-append c os slots t h) refl
  | inr live ↦ rw (live, survivors-append c os slots t h) refl
]

-- A token under all others is in no slot, so its reset changes nothing.
survivors-below :
    (c d : Channel) (token t : ℕ) (os : List Occasion) (slots : List (ℕ × ℕ)) (hi : ℕ)
    → token ≤ t
    → Ascending t slots hi
    → survivors c (resets (some (d, token)) ∷ os) slots ≡ survivors c os slots
unfolding survivors is_reset is_ticket
survivors-below c d token t os [] hi le a = refl
survivors-below c d token t os ((u, g) ∷ slots) hi le a =
    let above = a.0 in
    let differs : (u == token) ≡ false = ground arith in
    let other : (same_channel c d && (u == token)) ≡ false = ground arith in
    rw (other, survivors-below c d token u os slots hi (omega arith) a.1) refl

pub survivors-drop_slot :
    (c d : Channel) (token lo : ℕ) (os : List Occasion) (slots : List (ℕ × ℕ)) (hi : ℕ)
    → same_channel c d ≡ true
    → Ascending lo slots hi
    → survivors c os (drop_slot token slots) ≡ survivors c (resets (some (d, token)) ∷ os) slots
unfolding survivors is_reset is_ticket drop_slot
survivors-drop_slot c d token lo os [] hi same a = refl
survivors-drop_slot c d token lo os ((u, g) ∷ slots) hi same a = elim (Bool-cases (token == u)) [
  | inl here ↦
      let met : (u == token) ≡ true = ground arith in
      rw (here, same, met) (sym (survivors-below c d token u os slots hi (ground arith) a.1))
  | inr there ↦
      let differs : (u == token) ≡ false = ground arith in
      rw (there, same, differs, survivors-drop_slot c d token u os slots hi same a.1) refl
]

pub survivors-elsewhere :
    (c d : Channel) (token : ℕ) (os : List Occasion) (slots : List (ℕ × ℕ))
    → same_channel c d ≡ false
    → survivors c (resets (some (d, token)) ∷ os) slots ≡ survivors c os slots
unfolding survivors is_reset is_ticket
survivors-elsewhere c d token os [] other = refl
survivors-elsewhere c d token os ((u, g) ∷ slots) other =
    rw (other, survivors-elsewhere c d token os slots other) refl

pub survivors-none :
    (c : Channel) (os : List Occasion) (slots : List (ℕ × ℕ))
    → survivors c (resets none ∷ os) slots ≡ survivors c os slots
unfolding survivors is_reset is_ticket
survivors-none c os [] = refl
survivors-none c os ((u, g) ∷ slots) = rw (survivors-none c os slots) refl

pub survivors-subscribes :
    (c d : Channel) (h : ℕ) (os : List Occasion) (slots : List (ℕ × ℕ))
    → survivors c (subscribes d h ∷ os) slots ≡ survivors c os slots
unfolding survivors is_reset
survivors-subscribes c d h os [] = refl
survivors-subscribes c d h os ((u, g) ∷ slots) = rw (survivors-subscribes c d h os slots) refl

pub survivors-end :
    (c : Channel) (slots : List (ℕ × ℕ)) → survivors c [] slots ≡ map (λ slot. slot.1) slots
unfolding survivors is_reset
survivors-end c [] = refl
survivors-end c ((t, h) ∷ slots) = rw (survivors-end c slots) refl

pub append-nil : (xs : List ℕ) → xs ++ [] ≡ xs
append-nil [] = refl
append-nil (x ∷ xs) = rw (append-nil xs) refl

pub append-append : (xs ys zs : List ℕ) → (xs ++ ys) ++ zs ≡ xs ++ (ys ++ zs)
append-append [] ys zs = refl
append-append (x ∷ xs) ys zs = rw (append-append xs ys zs) refl
