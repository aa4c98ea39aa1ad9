-- ===== src/Manager/Decoded.antt =====
-- `decode_dp_object` of src/datapoints/manager.cpp has each name once.
use fountainer_client_framew.Common.{inl, inr, Option-cases, String}
use fountainer_client_framew.Dispatcher.Store.{DistinctKeys}
use fountainer_client_framew.Catalog.{find}
use fountainer_client_framew.Codec.{Floats}
use fountainer_client_framew.Snapshot.{DatapointSnapshot}
use fountainer_client_framew.Json.{Json, object, Fields, end, field}
use fountainer_client_framew.Snapshot.{
  decode_dp_object, decode_members, decode_member, empty_snapshot,
}
use fountainer_client_framew.Dispatcher.Store.{put-DistinctKeys}
use fountainer_client_framew.Codec.{value_from_json}
use fountainer_client_framew.Error.{Result-cases}

module _ {V : Type 0} (f : Floats V) where
  decode_member-DistinctKeys :
      (name : String) (raw : Json) (s : DatapointSnapshot)
      → DistinctKeys s.values
      → DistinctKeys (decode_member f name raw s).values
  unfolding decode_member
  decode_member-DistinctKeys name raw s h = elim (Option-cases (find name)) [
    | inl missing ↦ rw (missing, decode_member) h
    | inr (d, found) ↦ elim (Result-cases (value_from_json f d raw)) [
      | inl (value, good_value) ↦
          rw (found, decode_member, good_value) (put-DistinctKeys name value s.values h)
      | inr (e, bad) ↦ rw (found, decode_member, bad) h
    ]
  ]

  decode_members-DistinctKeys :
      (fs : Fields) (s : DatapointSnapshot)
      → DistinctKeys s.values
      → DistinctKeys (decode_members f fs s).values
  unfolding decode_members
  decode_members-DistinctKeys end s h = h
  decode_members-DistinctKeys (field name raw fs) s h =
      decode_members-DistinctKeys fs (decode_member f name raw s)
        (decode_member-DistinctKeys name raw s h)

  pub decode_dp_object-DistinctKeys : (dp : Json) → DistinctKeys (decode_dp_object f dp).values
  unfolding decode_dp_object empty_snapshot
  decode_dp_object-DistinctKeys (object fs) = decode_members-DistinctKeys fs empty_snapshot tt
  decode_dp_object-DistinctKeys _ = tt
