-- ===== src/Manager/Ingestion.antt =====
-- Who is told of what by `update_cache` and `ingest_report` of src/datapoints/manager.cpp.
use fountainer_client_framew.Common.{
  ℕ, ◌≡◌, refl, ap, ◌∙◌, ◌↔◌, Option, none, some, String, if◌then◌else◌, Among,
}
use fountainer_client_framew.Dispatcher.Store.{Map, get, DistinctKeys}
use fountainer_client_framew.Datapoint.{DatapointDescriptor, DatapointValue}
use fountainer_client_framew.Catalog.{find}
use fountainer_client_framew.Codec.{Floats}
use fountainer_client_framew.Snapshot.{DatapointSource, CachedValue}
use fountainer_client_framew.Manager.{
  Manager, Call, is_known, update_values, update_cache, cached_raw,
}
use fountainer_client_framew.Json.{Json}
use fountainer_client_framew.Snapshot.{decode_dp_object}
use fountainer_client_framew.Manager.Delivery.{IsDue}
use fountainer_client_framew.Manager.Cached.{written, update_values-get}
use fountainer_client_framew.Manager.{ingest_report}
use fountainer_client_framew.Manager.Decoded.{decode_dp_object-DistinctKeys}
use fountainer_client_framew.Manager.Due.{update_values-IsDue}

-- `cached_raw` on what stands in the cache.
abbrev shown : Option CachedValue → Option CachedValue
shown none = none
shown (some e) = if is_known e then some e else none

module _ {V : Type 0} (f : Floats V) (now : ℕ) (source : DatapointSource) (seq : Option ℕ) where
  shown-written :
      (v : Option DatapointValue) (d : Option DatapointDescriptor) (o : Option CachedValue)
      → shown (written f now source seq v d o) ≡ written f now source seq v d (shown o)
  unfolding is_known
  shown-written none d o = refl
  shown-written (some value) none o = refl
  shown-written (some value) (some d) o = refl

  cached_raw-update_values :
      (values : Map DatapointValue) (m : Manager) (name : String)
      → DistinctKeys values
      → cached_raw name (update_values f now source seq values m).0
        ≡ written f now source seq (get name values) (find name) (cached_raw name m)
  unfolding cached_raw
  cached_raw-update_values values m name distinct =
      ap shown (update_values-get f now source seq values m name distinct)
      ∙ shown-written (get name values) (find name) (get name m.cache)

  -- What an ingestion of a JSON value leaves and whom it tells.
  pub record Ingested (dp : Json) (m : Manager) : Type 0 where
    pub cached :
        (name : String)
        → cached_raw name (ingest_report f now source seq dp m).0
          ≡ written f now source seq
              (get name (decode_dp_object f dp).values)
              (find name)
              (cached_raw name m)
    pub told :
        (call : Call)
        → Among call (ingest_report f now source seq dp m).1
          ↔ IsDue f now source m (decode_dp_object f dp).values call

  -- After the ingestion of a JSON value, the cache has for each name the value that was decoded for
  -- it, as good, with this time, source and sequence number, and for the other names what it had. A callback is called
  -- with a change exactly if it is subscribed to every name or to the name of a decoded value of which
  -- the cache had nothing or another value; the change has the descriptor, the new value and
  -- the value that the cache had.
  pub ingest_report-Ingested : (dp : Json) (m : Manager) → Ingested dp m
  unfolding ingest_report update_cache
  ingest_report-Ingested dp m =
      let values = (decode_dp_object f dp).values in
      let distinct = decode_dp_object-DistinctKeys f dp in
      record {
        cached = λ name. cached_raw-update_values values m name distinct;
        told = λ call. update_values-IsDue f now source seq values m call distinct;
      }
