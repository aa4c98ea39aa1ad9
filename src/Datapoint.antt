-- ===== src/Datapoint.antt =====
-- include/fountainer/datapoints/datapoint.hpp, the variant of include/fountainer/datapoints/codec.hpp,
-- and the texts of src/datapoints/catalog.cpp.
use fountainer_client_framew.Common.{ℕ, Bool, true, false, String, Option}
use fountainer_client_framew.Json.{ℤ}

pub data DatapointType : Type 0 where
  bool u8 u16 u32 u64 i8 i16 i32 f32 enum str : DatapointType

pub data Access : Type 0 where
  read_only read_write write_only : Access

pub data Persistence : Type 0 where
  volatile nvs static : Persistence

pub data PollClass : Type 0 where
  realtime status config on_connect disabled : PollClass

-- `decimals` is `none` for -1; a double is its bit pattern.
pub record DatapointMetadata : Type 0 where
  pub unit : String
  pub decimals : Option ℕ
  pub deadband : ℕ
  pub value_map : String
  pub format : String

-- The minimum and the maximum are NaN where the datapoint is unbounded.
pub record DatapointDescriptor : Type 0 where
  pub index : ℕ
  pub name : String
  pub type : DatapointType
  pub access : Access
  pub persistence : Persistence
  pub nvs_id : ℕ
  pub default_value : ℕ
  pub min : ℕ
  pub max : ℕ
  pub metadata : DatapointMetadata
  pub poll_class : PollClass

unfoldable pub writable : DatapointDescriptor → Bool
writable d = elim d.access [ read_only ↦ false | read_write ↦ true | write_only ↦ true ]

unfoldable pub readable : DatapointDescriptor → Bool
readable d = elim d.access [ read_only ↦ true | read_write ↦ true | write_only ↦ false ]

is_numeric : DatapointType → Bool
is_numeric bool = false
is_numeric str = false
is_numeric u64 = false
is_numeric _ = true

unfoldable pub numeric : DatapointDescriptor → Bool
unfolding is_numeric
numeric d = is_numeric d.type

-- `DatapointValue`: the alternatives of the variant, a float by its bits.
pub data DatapointValue : Type 0 where
  of_bool : Bool → DatapointValue
  of_u8 of_u16 of_u32 of_u64 : ℕ → DatapointValue
  of_i8 of_i16 of_i32 : ℤ → DatapointValue
  of_f32 : ℕ → DatapointValue
  of_text : String → DatapointValue

-- `DatapointValue::index()`.
unfoldable pub variant_index : DatapointValue → ℕ
variant_index (of_bool _) = 0
variant_index (of_u8 _) = 1
variant_index (of_u16 _) = 2
variant_index (of_u32 _) = 3
variant_index (of_u64 _) = 4
variant_index (of_i8 _) = 5
variant_index (of_i16 _) = 6
variant_index (of_i32 _) = 7
variant_index (of_f32 _) = 8
variant_index (of_text _) = 9

-- `value_index_for`: an ENUM is a U8 on the wire.
unfoldable pub value_index_for : DatapointType → ℕ
value_index_for bool = 0
value_index_for u8 = 1
value_index_for enum = 1
value_index_for u16 = 2
value_index_for u32 = 3
value_index_for u64 = 4
value_index_for i8 = 5
value_index_for i16 = 6
value_index_for i32 = 7
value_index_for f32 = 8
value_index_for str = 9

-- `to_string(DatapointType)`.
unfoldable pub type_text : DatapointType → String
type_text bool = "BOOL"
type_text u8 = "U8"
type_text u16 = "U16"
type_text u32 = "U32"
type_text u64 = "U64"
type_text i8 = "I8"
type_text i16 = "I16"
type_text i32 = "I32"
type_text f32 = "F32"
type_text enum = "ENUM"
type_text str = "STR"

-- `to_string(Access)`.
unfoldable pub access_text : Access → String
access_text read_only = "RO"
access_text read_write = "RW"
access_text write_only = "WO"

-- `to_string(Persistence)`.
unfoldable pub persistence_text : Persistence → String
persistence_text volatile = "VOLATILE"
persistence_text nvs = "NVS"
persistence_text static = "STATIC"

-- `to_string(PollClass)`.
unfoldable pub poll_class_text : PollClass → String
poll_class_text realtime = "Realtime"
poll_class_text status = "Status"
poll_class_text config = "Config"
poll_class_text on_connect = "OnConnect"
poll_class_text disabled = "Disabled"

abbrev pub presented : String → Option ℕ → ℕ → String → String → DatapointMetadata
presented unit decimals deadband value_map format = record {
  unit = unit;
  decimals = decimals;
  deadband = deadband;
  value_map = value_map;
  format = format;
}

abbrev pub described :
    ℕ
    → String
    → DatapointType
    → Access
    → Persistence
    → ℕ
    → ℕ
    → ℕ
    → ℕ
    → DatapointMetadata
    → PollClass
    → DatapointDescriptor
described index name type access persistence nvs_id default_value min max metadata poll_class =
    record {
      index = index;
      name = name;
      type = type;
      access = access;
      persistence = persistence;
      nvs_id = nvs_id;
      default_value = default_value;
      min = min;
      max = max;
      metadata = metadata;
      poll_class = poll_class;
    }
