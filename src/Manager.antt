-- ===== src/Manager.antt =====
-- include/fountainer/datapoints/manager.hpp and src/datapoints/manager.cpp: the cache, its subscribers
-- and the ingestion of values. A callback is an identity; a call of it stands in the list that an
-- operation returns, in the order of the calls. A time is an argument.
pub mod Exchange
pub mod Staging
pub mod Cached
pub mod Delivery
pub mod Decoded
pub mod Due
pub mod Ingestion
pub mod Sound
pub mod History
pub mod Total
pub mod Commit
use fountainer_client_framew.Common.{
  ℕ, ◌+◌, ◌%◌, u64_mod, Bool, true, false, not, ◌||◌, ◌==◌, Option, none, some, String, List, [],
  ◌∷◌, ◌++◌, is_empty, same_text, if◌then◌else◌,
}
use fountainer_client_framew.Json.{Json}
use fountainer_client_framew.Dispatcher.Store.{Map, get, put}
use fountainer_client_framew.Datapoint.{DatapointDescriptor, DatapointValue, of_bool}
use fountainer_client_framew.Catalog.{find}
use fountainer_client_framew.Codec.{Floats}
use fountainer_client_framew.Snapshot.{
  DatapointSource, explicit_read, DataQuality, unknown, good, stale, invalid, CachedValue,
  DatapointSnapshot, empty_snapshot, set_value, same_value, decode_dp_object,
}

-- `AnyDatapointChange`.
pub record Change : Type 0 where
  pub descriptor : DatapointDescriptor
  pub value : DatapointValue
  pub old_value : Option DatapointValue
  pub source : DatapointSource
  pub received_at : ℕ

-- `Impl::Slot`; the empty name is that of `subscribe_all`.
pub record Slot : Type 0 where
  pub token : ℕ
  pub name : String
  pub callback : ℕ

-- `Impl`, but for `submit` and `runner`, which are arguments of what uses them.
pub record Manager : Type 0 where
  pub cache : Map CachedValue
  pub staged : Map DatapointValue
  pub subscriptions : List Slot
  pub next_token : ℕ

unfoldable pub new : Manager
new = record { cache = []; staged = []; subscriptions = []; next_token = 0 }

-- A call of a callback.
abbrev pub Call : Type 0
Call = ℕ × Change

unfoldable pub is_known : CachedValue → Bool
is_known e = elim e.quality [ unknown ↦ false | good ↦ true | stale ↦ true | invalid ↦ true ]

-- The calls that a change of a name makes due.
unfoldable pub due : String → Change → List Slot → List Call
due name change [] = []
due name change (slot ∷ slots) =
    let rest = due name change slots in
    if is_empty slot.name || same_text slot.name name then (slot.callback, change) ∷ rest else rest

-- `cache[name]`, which makes a value that nothing has been received for.
unfoldable pub entry_of : String → Map CachedValue → CachedValue
entry_of name cache = elim (get name cache) [
  | some e ↦ e
  | none ↦ record {
    value = of_bool false;
    received_at = 0;
    source = explicit_read;
    quality = unknown;
    report_sequence = none;
  }
]

-- The old value of a change.
unfoldable pub old_of : CachedValue → Option DatapointValue
unfolding is_known
old_of e = if is_known e then some e.value else none

module _ {V : Type 0} (f : Floats V) (now : ℕ) (source : DatapointSource) (seq : Option ℕ) where
  unfoldable pub is_changed : CachedValue → DatapointValue → Bool
  unfolding is_known
  is_changed e value = not (is_known e) || not (same_value f e.value value)

  abbrev pub received : DatapointValue → CachedValue
  received v = record {
    value = v;
    received_at = now;
    source = source;
    quality = good;
    report_sequence = seq;
  }

  abbrev pub change_to : DatapointDescriptor → CachedValue → DatapointValue → Change
  change_to d e v = record {
    descriptor = d;
    value = v;
    old_value = old_of e;
    source = source;
    received_at = now;
  }

  -- One round of `Impl::update_cache`.
  unfoldable pub update_entry : String → DatapointValue → Manager → Manager × List Call
  unfolding is_changed due entry_of
  update_entry name value m = elim (find name) [
    | none ↦ (m, [])
    | some d ↦
        let e = entry_of name m.cache in
        (
          record m { cache = put name (received value) m.cache },
          if is_changed e value then due name (change_to d e value) m.subscriptions else [],
        )
  ]

  unfoldable pub update_values : Map DatapointValue → Manager → Manager × List Call
  update_values [] m = (m, [])
  update_values ((name, value) ∷ values) m =
      let (m', calls) = update_entry name value m in
      let (last, more) = update_values values m' in (last, calls ++ more)

  -- `Impl::update_cache`, and the calls that it makes due.
  unfoldable pub update_cache : DatapointSnapshot → Manager → Manager × List Call
  update_cache snapshot m = update_values snapshot.values m

  -- `ingest_report`.
  unfoldable pub ingest_report : Json → Manager → Manager × List Call × DatapointSnapshot
  ingest_report dp m =
      let snapshot = decode_dp_object f dp in
      let (m', calls) = update_cache snapshot m in (m', calls, snapshot)

unfoldable pub cached_raw : String → Manager → Option CachedValue
cached_raw name m = elim (get name m.cache) [
  | none ↦ none
  | some e ↦ if is_known e then some e else none
]

snapshot_of : Map CachedValue → DatapointSnapshot → DatapointSnapshot
snapshot_of [] s = s
snapshot_of ((name, e) ∷ cache) s =
    snapshot_of cache (if is_known e then set_value name e.value s else s)

unfoldable pub cached_snapshot : Manager → DatapointSnapshot
unfolding snapshot_of empty_snapshot
cached_snapshot m = snapshot_of m.cache empty_snapshot

-- One entry of `mark_all_stale`.
unfoldable pub aged : CachedValue → CachedValue
aged e = elim e.quality [
  | good ↦ record e { quality = stale }
  | unknown ↦ e
  | stale ↦ e
  | invalid ↦ e
]

unfoldable pub age_all : Map CachedValue → Map CachedValue
age_all [] = []
age_all ((name, e) ∷ cache) = (name, aged e) ∷ age_all cache

unfoldable pub mark_all_stale : Manager → Manager
unfolding age_all
mark_all_stale m = record m { cache = age_all m.cache }

-- `subscribe_raw`, and the token that its subscription holds.
unfoldable pub subscribe_raw : String → ℕ → Manager → Manager × ℕ
subscribe_raw name callback m =
    let token = (m.next_token + 1) % u64_mod in
    (
      record m {
        next_token = token;
        subscriptions =
            m.subscriptions ++ record { token = token; name = name; callback = callback } ∷ [];
      },
      token,
    )

unfoldable pub subscribe_all : ℕ → Manager → Manager × ℕ
subscribe_all = subscribe_raw ""

unfoldable pub erase_token : ℕ → List Slot → List Slot
erase_token token [] = []
erase_token token (slot ∷ slots) =
    let rest = erase_token token slots in if slot.token == token then rest else slot ∷ rest

-- What a subscription does when it is reset.
unfoldable pub unsubscribe : ℕ → Manager → Manager
unfolding erase_token
unsubscribe token m = record m { subscriptions = erase_token token m.subscriptions }
