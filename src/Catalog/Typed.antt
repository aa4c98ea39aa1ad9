-- ===== src/Catalog/Typed.antt =====
-- `Datapoint<T, A, P>` of include/fountainer/datapoints/datapoint.hpp: a constant with its C++ type.
use fountainer_client_framew.Common.{ℕ, String}
use fountainer_client_framew.Datapoint.{
  DatapointType, bool, u8, u16, u32, u64, i8, i16, i32, f32, enum, str, Access, Persistence,
}

-- The value types that occur, `T`.
pub data ValueType : Type 0 where
  as_bool as_u8 as_u16 as_u32 as_u64 as_i8 as_i16 as_i32 as_f32 as_text : ValueType

-- `datapoint_value_type`.
unfoldable pub datapoint_value_type : DatapointType → ValueType
datapoint_value_type bool = as_bool
datapoint_value_type u8 = as_u8
datapoint_value_type u16 = as_u16
datapoint_value_type u32 = as_u32
datapoint_value_type u64 = as_u64
datapoint_value_type i8 = as_i8
datapoint_value_type i16 = as_i16
datapoint_value_type i32 = as_i32
datapoint_value_type f32 = as_f32
datapoint_value_type enum = as_u8
datapoint_value_type str = as_text

-- The alternative of `DatapointValue` that `boxed = value` selects in `make_value`.
unfoldable pub alternative : ValueType → ℕ
alternative as_bool = 0
alternative as_u8 = 1
alternative as_u16 = 2
alternative as_u32 = 3
alternative as_u64 = 4
alternative as_i8 = 5
alternative as_i16 = 6
alternative as_i32 = 7
alternative as_f32 = 8
alternative as_text = 9

pub record TypedConstant : Type 0 where
  pub value_type : ValueType
  pub access : Access
  pub persistence : Persistence
  pub index : ℕ
  pub name : String

abbrev pub typed : ValueType → Access → Persistence → ℕ → String → TypedConstant
typed value_type access persistence index name = record {
  value_type = value_type;
  access = access;
  persistence = persistence;
  index = index;
  name = name;
}
