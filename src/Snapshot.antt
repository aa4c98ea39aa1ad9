-- ===== src/Snapshot.antt =====
-- include/fountainer/datapoints/snapshot.hpp, and `decode_dp_object` of src/datapoints/manager.cpp.
use fountainer_client_framew.Common.{
  ℕ, Bool, true, false, ◌==◌, Option, none, some, String, List, [], ◌∷◌, ◌++◌, same_text,
}
use fountainer_client_framew.Error.{ok, err}
use fountainer_client_framew.Json.{Json, ℤ, pos, negsuc, object, Fields, end, field}
use fountainer_client_framew.Dispatcher.Store.{Map, get, put}
use fountainer_client_framew.Datapoint.{
  DatapointValue, of_bool, of_u8, of_u16, of_u32, of_u64, of_i8, of_i16, of_i32, of_f32, of_text,
}
use fountainer_client_framew.Catalog.{find}
use fountainer_client_framew.Codec.{Floats, value_from_json}

pub data DatapointSource : Type 0 where
  explicit_read periodic_poll unsolicited_report write_readback : DatapointSource

pub data DataQuality : Type 0 where
  unknown good stale invalid : DataQuality

-- `to_string(DatapointSource)`.
unfoldable pub source_text : DatapointSource → String
source_text explicit_read = "explicit_read"
source_text periodic_poll = "periodic_poll"
source_text unsolicited_report = "unsolicited_report"
source_text write_readback = "write_readback"

-- `to_string(DataQuality)`.
unfoldable pub quality_text : DataQuality → String
quality_text unknown = "unknown"
quality_text good = "good"
quality_text stale = "stale"
quality_text invalid = "invalid"

pub record CachedValue : Type 0 where
  pub value : DatapointValue
  pub received_at : ℕ
  pub source : DatapointSource
  pub quality : DataQuality
  pub report_sequence : Option ℕ

pub record DatapointSnapshot : Type 0 where
  pub values : Map DatapointValue
  pub unknown_names : List String

pub record WriteError : Type 0 where
  pub datapoint : String
  pub reason : String

pub record WriteResult : Type 0 where
  pub status : String
  pub errors : List WriteError
  pub warning : Option String
  pub network_save : Option ℕ
  pub readback : DatapointSnapshot

-- `WriteResult::applied`.
unfoldable pub applied : WriteResult → Bool
applied r = same_text r.status "applied"

unfoldable pub empty_snapshot : DatapointSnapshot
empty_snapshot = record { values = []; unknown_names = [] }

-- `DatapointSnapshot::set`.
unfoldable pub set_value : String → DatapointValue → DatapointSnapshot → DatapointSnapshot
set_value name value s = record s { values = put name value s.values }

unfoldable pub add_unknown : String → DatapointSnapshot → DatapointSnapshot
add_unknown name s = record s { unknown_names = s.unknown_names ++ name ∷ [] }

-- `DatapointSnapshot::find`.
unfoldable pub find_value : String → DatapointSnapshot → Option DatapointValue
unfolding get
find_value name s = get name s.values

same_int : ℤ → ℤ → Bool
same_int (pos a) (pos b) = a == b
same_int (negsuc a) (negsuc b) = a == b
same_int _ _ = false

same_bool : Bool → Bool → Bool
same_bool true b = b
same_bool false true = false
same_bool false false = true

module _ {V : Type 0} (f : Floats V) where
  -- `==` of the variant.
  unfoldable pub same_value : DatapointValue → DatapointValue → Bool
  unfolding same_int same_bool
  same_value (of_bool a) (of_bool b) = same_bool a b
  same_value (of_u8 a) (of_u8 b) = a == b
  same_value (of_u16 a) (of_u16 b) = a == b
  same_value (of_u32 a) (of_u32 b) = a == b
  same_value (of_u64 a) (of_u64 b) = a == b
  same_value (of_i8 a) (of_i8 b) = same_int a b
  same_value (of_i16 a) (of_i16 b) = same_int a b
  same_value (of_i32 a) (of_i32 b) = same_int a b
  same_value (of_f32 a) (of_f32 b) = f.same_float a b
  same_value (of_text a) (of_text b) = same_text a b
  same_value _ _ = false

  -- One round of the loop; the warning in the log is left out.
  unfoldable pub decode_member : String → Json → DatapointSnapshot → DatapointSnapshot
  unfolding set_value add_unknown
  decode_member name raw s = elim (find name) [
    | none ↦ add_unknown name s
    | some d ↦ elim (value_from_json f d raw) [
      | ok value ↦ set_value name value s
      | err _ ↦ add_unknown name s
    ]
  ]

  unfoldable pub decode_members : Fields → DatapointSnapshot → DatapointSnapshot
  unfolding decode_member
  decode_members end s = s
  decode_members (field name raw fs) s = decode_members fs (decode_member name raw s)

  unfoldable pub decode_dp_object : Json → DatapointSnapshot
  unfolding decode_members empty_snapshot
  decode_dp_object (object fs) = decode_members fs empty_snapshot
  decode_dp_object _ = empty_snapshot
