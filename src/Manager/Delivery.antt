-- ===== src/Manager/Delivery.antt =====
-- Who is told of a change by `update_cache` of src/datapoints/manager.cpp.
use fountainer_client_framew.Common.{
  ℕ, ◌≡◌, refl, sym, subst, ◌↔◌, ◌⊎◌, inl, inr, arith, true, false, ◌||◌, Bool-cases, Option, none,
  some, Option-cases, String, List, [], ◌∷◌, is_empty, same_text, same_text_iff, Among,
}
use fountainer_client_framew.Dispatcher.Store.{Map, get}
use fountainer_client_framew.Datapoint.{DatapointDescriptor, DatapointValue}
use fountainer_client_framew.Catalog.{find}
use fountainer_client_framew.Codec.{Floats}
use fountainer_client_framew.Snapshot.{DatapointSource, CachedValue, same_value}
use fountainer_client_framew.Manager.{
  Change, Slot, Manager, Call, is_known, due, entry_of, old_of, is_changed, cached_raw,
}

-- A subscription hears of a name: its own, or every name.
abbrev pub Hears : Slot → String → Type 0
Hears slot name = (slot.name ≡ "") ⊎ (slot.name ≡ name)

-- What the application may know of a name before.
abbrev pub known_value : Option CachedValue → Option DatapointValue
known_value none = none
known_value (some e) = some e.value

hears_lem :
    (slot : Slot) (name : String)
    → (is_empty slot.name || same_text slot.name name ≡ true) ↔ Hears slot name
hears_lem slot name = ground (arith, same_text_iff slot.name "", same_text_iff slot.name name)

pub Among-due :
    (name : String) (change : Change) (slots : List Slot) (call : Call)
    → Among call (due name change slots)
    → (slot : Slot) × Among slot slots × Hears slot name × (call ≡ (slot.callback, change))
unfolding due
Among-due name change [] call h = elim h [ ]
Among-due name change (slot ∷ slots) call h =
    elim (Bool-cases (is_empty slot.name || same_text slot.name name)) [
      | inl told ↦
          let all : Among call ((slot.callback, change) ∷ due name change slots) = rw told at h in
          elim all [
            | inl e ↦ (slot, inl refl, (hears_lem slot name).0 told, e)
            | inr later ↦
                let (s, among, hears, e) = Among-due name change slots call later in
                (s, inr among, hears, e)
          ]
      | inr deaf ↦
          let (s, among, hears, e) = Among-due name change slots call (rw deaf at h) in
          (s, inr among, hears, e)
    ]

pub due-Among :
    (name : String) (change : Change) (slots : List Slot) (slot : Slot)
    → Among slot slots
    → Hears slot name
    → Among (slot.callback, change) (due name change slots)
unfolding due
due-Among name change [] slot h hears = elim h [ ]
due-Among name change (x ∷ slots) slot (inl e) hears =
    subst (λ s. Among (s.callback, change) (due name change (x ∷ slots))) (sym e)
      (rw ((hears_lem x name).1 (subst (λ s. Hears s name) e hears)) (inl refl))
due-Among name change (x ∷ slots) slot (inr h) hears =
    elim (Bool-cases (is_empty x.name || same_text x.name name)) [
      | inl told ↦ rw told (inr (due-Among name change slots slot h hears))
      | inr deaf ↦ rw deaf (due-Among name change slots slot h hears)
    ]

entry_of_cases :
    (name : String) (m : Manager)
    → ((cached_raw name m ≡ none) × (is_known (entry_of name m.cache) ≡ false))
      ⊎ ((cached_raw name m ≡ some (entry_of name m.cache))
          × (is_known (entry_of name m.cache) ≡ true))
unfolding cached_raw entry_of is_known
entry_of_cases name m = elim (Option-cases (get name m.cache)) [
  | inl absent ↦ inl (rw (absent, cached_raw) refl, rw (absent, entry_of) refl)
  | inr (e, there) ↦ elim (Bool-cases (is_known e)) [
    | inl old ↦
        inr (rw (there, cached_raw) (rw (there, entry_of) (rw old refl)), rw (there, entry_of) old)
    | inr fresh ↦ inl (rw (there, cached_raw, fresh) refl, rw (there, entry_of) fresh)
  ]
]

module _ {V : Type 0} (f : Floats V) (now : ℕ) (source : DatapointSource) where
  -- A value that was not there before, or another one.
  abbrev pub IsNews : Option CachedValue → DatapointValue → Type 0
  IsNews none value = Unit
  IsNews (some e) value = same_value f e.value value ≡ false

  abbrev pub news : DatapointDescriptor → Option CachedValue → DatapointValue → Change
  news d old v = record {
    descriptor = d;
    value = v;
    old_value = known_value old;
    source = source;
    received_at = now;
  }

  -- A call that a set of values makes due on a manager.
  pub record IsDue (m : Manager) (values : Map DatapointValue) (call : Call) : Type 0 where
    pub name : String
    pub value : DatapointValue
    pub descriptor : DatapointDescriptor
    pub slot : Slot
    pub given : get name values ≡ some value
    pub described : find name ≡ some descriptor
    pub subscribed : Among slot m.subscriptions
    pub hears : Hears slot name
    pub is_news : IsNews (cached_raw name m) value
    pub told : call ≡ (slot.callback, news descriptor (cached_raw name m) value)

  pub known_value-old_of :
      (name : String) (m : Manager)
      → old_of (entry_of name m.cache) ≡ known_value (cached_raw name m)
  unfolding old_of
  known_value-old_of name m = elim (entry_of_cases name m) [
    | inl (blank, fresh) ↦ rw (blank, fresh) refl
    | inr (kept, old) ↦ rw (kept, old) refl
  ]

  pub is_changed_iff :
      (seq : Option ℕ) (name : String) (m : Manager) (value : DatapointValue)
      → (is_changed f now source seq (entry_of name m.cache) value ≡ true)
        ↔ IsNews (cached_raw name m) value
  unfolding is_changed
  is_changed_iff seq name m value = elim (entry_of_cases name m) [
    | inl (blank, fresh) ↦ rw (blank, fresh) (λ e. tt, λ h. refl)
    | inr (kept, old) ↦ rw (kept, old) (λ e. ground arith, λ h. ground arith)
  ]
