-- ===== src/Codec.antt =====
-- include/fountainer/datapoints/codec.hpp and src/datapoints/codec.cpp, over any type of doubles.
pub mod Wide
pub mod Digits
pub mod Kinds
pub mod Ranges
pub mod RoundTrip
pub mod Limits
use fountainer_client_framew.Common.{
  ℕ, zero, Bool, true, false, not, ◌&&◌, ◌||◌, ◌==◌, ltb, Option, none, some, String, List, [], ◌∷◌,
  concat, join, is_empty, decimal, if◌then◌else◌,
}
use fountainer_client_framew.Error.{Error, ErrorCode, Result, ok, err, Status, validation_error}
use fountainer_client_framew.Json.{
  Json, ℤ, pos, negsuc, boolean, number_integer, number_unsigned, number_float, text,
}
use fountainer_client_framew.Canonical.{to_string_int}
use fountainer_client_framew.Session.Sender.{byte_size}
use fountainer_client_framew.Datapoint.{
  DatapointType, bool, u8, u16, u32, u64, i8, i16, i32, f32, enum, str, DatapointDescriptor,
  DatapointValue, of_bool, of_u8, of_u16, of_u32, of_u64, of_i8, of_i16, of_i32, of_f32, of_text,
  variant_index, value_index_for, type_text, numeric,
}
use fountainer_client_framew.Codec.Wide.{c_str, strtoull, print_u64}

-- What the codec uses of the doubles: the conversions of integers, of 64-bit patterns and to a
-- `float`, whose patterns `widen` takes to those of doubles; `std::isfinite`, `std::isnan`,
-- `std::nearbyint`, `<`, the cast to an integer type; `std::to_string` and `%.*f`; and `==` of two
-- `float` patterns.
pub record Floats (V : Type 0) : Type 0 where
  pub of_int : ℤ → V
  pub of_bits : ℕ → V
  pub to_float : V → ℕ
  pub widen : ℕ → ℕ
  pub is_finite : V → Bool
  pub is_nan : V → Bool
  pub nearbyint : V → V
  pub lt : V → V → Bool
  pub truncate : V → ℤ
  pub print : V → String
  pub fixed : ℕ → V → String
  pub same_float : ℕ → ℕ → Bool

-- `kDatapointStringMax`.
abbrev pub string_max : ℕ
string_max = 63

pub type_mismatch : DatapointDescriptor → String → Error
type_mismatch d detail =
    validation_error ErrorCode.type_mismatch (concat (d.name ∷ ": " ∷ detail ∷ [])) d.name

unfoldable pub parse_u64 : DatapointDescriptor → String → Result ℕ
parse_u64 d given = elim (strtoull (c_str given)) [
  | none ↦ err (type_mismatch d (concat ("not a 64-bit hex value: '" ∷ given ∷ "'" ∷ [])))
  | some (n, out_of_range, rest) ↦
      if not (is_empty rest) || out_of_range
      then err (type_mismatch d (concat ("not a 64-bit hex value: '" ∷ given ∷ "'" ∷ [])))
      else ok n
]

-- The cast of a value in range to an unsigned type.
abbrev pub magnitude : ℤ → ℕ
magnitude (pos n) = n
magnitude (negsuc _) = 0

-- The numeric limits of an integral type, and its alternative of the variant.
pub record Target : Type 0 where
  pub lowest : ℤ
  pub highest : ℤ
  pub make : ℤ → DatapointValue

abbrev pub unsigned_target : ℕ → (ℕ → DatapointValue) → Target
unsigned_target highest make = record {
  lowest = pos 0;
  highest = pos highest;
  make = λ z. make (magnitude z);
}

abbrev pub signed_target : ℕ → (ℤ → DatapointValue) → Target
signed_target highest make = record { lowest = negsuc highest; highest = pos highest; make = make }

-- The template argument of `narrow` for a type; the others have none.
unfoldable pub target : DatapointType → Option Target
target u8 = some (unsigned_target 255 of_u8)
target enum = some (unsigned_target 255 of_u8)
target u16 = some (unsigned_target 65535 of_u16)
target u32 = some (unsigned_target 4294967295 of_u32)
target i8 = some (signed_target 127 of_i8)
target i16 = some (signed_target 32767 of_i16)
target i32 = some (signed_target 2147483647 of_i32)
target _ = none

module _ {V : Type 0} (f : Floats V) where
  unfoldable pub narrow : DatapointDescriptor → Target → V → Result DatapointValue
  narrow d t number =
      if not (f.is_finite number)
      then err (type_mismatch d "value is not finite")
      else if f.lt (f.nearbyint number) (f.of_int t.lowest)
          || f.lt (f.of_int t.highest) (f.nearbyint number)
      then err (
          validation_error ErrorCode.out_of_range
            (concat
              (d.name ∷ ": " ∷ f.print number ∷ " does not fit into " ∷ type_text d.type ∷ []))
            d.name)
      else ok (t.make (f.truncate (f.nearbyint number)))

  -- `json.get<double>()` where `json.is_number()`.
  unfoldable pub number_of : Json → Option V
  number_of (number_integer n) = some (f.of_int n)
  number_of (number_unsigned n) = some (f.of_int (pos n))
  number_of (number_float bits) = some (f.of_bits bits)
  number_of _ = none

  -- The second `switch`, on a number.
  unfoldable pub value_of_number :
      DatapointDescriptor → DatapointType → Option Target → V → Result DatapointValue
  unfolding narrow
  value_of_number d type (some t) number = narrow d t number
  value_of_number d f32 none number = ok (of_f32 (f.to_float number))
  value_of_number d _ none number = err (type_mismatch d "unsupported type")

  unfoldable pub number_from_json : DatapointDescriptor → Json → Result DatapointValue
  unfolding value_of_number number_of target
  number_from_json d json = elim (number_of json) [
    | none ↦ err (type_mismatch d "expected number")
    | some number ↦ value_of_number d d.type (target d.type) number
  ]

  -- The first `switch`.
  unfoldable pub value_for_type : DatapointDescriptor → DatapointType → Json → Result DatapointValue
  unfolding number_from_json
  value_for_type d bool (boolean b) = ok (of_bool b)
  value_for_type d bool _ = err (type_mismatch d "expected bool")
  value_for_type d str (text s) = ok (of_text s)
  value_for_type d str _ = err (type_mismatch d "expected string")
  value_for_type d u64 (text s) = elim (parse_u64 d s) [ ok n ↦ ok (of_u64 n) | err e ↦ err e ]
  value_for_type d u64 _ = err (type_mismatch d "expected hex string (U64)")
  value_for_type d _ json = number_from_json d json

  unfoldable pub value_from_json : DatapointDescriptor → Json → Result DatapointValue
  unfolding value_for_type
  value_from_json d json = value_for_type d d.type json

  -- The visitor of `value_to_json`.
  unfoldable pub typed_to_json : DatapointValue → Json
  typed_to_json (of_bool b) = boolean b
  typed_to_json (of_u8 n) = number_integer (pos n)
  typed_to_json (of_u16 n) = number_unsigned n
  typed_to_json (of_u32 n) = number_unsigned n
  typed_to_json (of_u64 n) = number_unsigned n
  typed_to_json (of_i8 z) = number_integer z
  typed_to_json (of_i16 z) = number_integer z
  typed_to_json (of_i32 z) = number_integer z
  typed_to_json (of_f32 bits) = number_float (f.widen bits)
  typed_to_json (of_text s) = text s

  -- `none` is `std::bad_variant_access`.
  unfoldable pub wide_to_json : DatapointValue → Option Json
  wide_to_json (of_u64 n) = some (text (print_u64 n))
  wide_to_json _ = none

  unfoldable pub to_json_for : DatapointType → DatapointValue → Option Json
  unfolding typed_to_json wide_to_json
  to_json_for u64 value = wide_to_json value
  to_json_for _ value = some (typed_to_json value)

  unfoldable pub value_to_json : DatapointDescriptor → DatapointValue → Option Json
  unfolding to_json_for
  value_to_json d value = to_json_for d.type value

  -- The visitor of `validate`: `static_cast<double>`.
  unfoldable pub as_number : DatapointValue → V
  as_number (of_bool b) = f.of_int (if b then pos 1 else pos 0)
  as_number (of_u8 n) = f.of_int (pos n)
  as_number (of_u16 n) = f.of_int (pos n)
  as_number (of_u32 n) = f.of_int (pos n)
  as_number (of_u64 n) = f.of_int (pos n)
  as_number (of_i8 z) = f.of_int z
  as_number (of_i16 z) = f.of_int z
  as_number (of_i32 z) = f.of_int z
  as_number (of_f32 bits) = f.of_bits (f.widen bits)
  as_number (of_text s) = f.of_int (pos 0)

  -- A bound at the precision of a `float`.
  abbrev pub bound : ℕ → V
  bound bits = f.of_bits (f.widen (f.to_float (f.of_bits bits)))

  -- `validate` of a number, once its type is right.
  unfoldable pub validate_number : DatapointDescriptor → V → Status
  validate_number d number =
      if not (f.is_nan (bound d.min)) && f.lt number (bound d.min)
      then err (
          validation_error ErrorCode.out_of_range
            (concat (d.name ∷ ": " ∷ f.print number ∷ " < min " ∷ f.print (f.of_bits d.min) ∷ []))
            d.name)
      else if not (f.is_nan (bound d.max)) && f.lt (bound d.max) number
      then err (
          validation_error ErrorCode.out_of_range
            (concat (d.name ∷ ": " ∷ f.print number ∷ " > max " ∷ f.print (f.of_bits d.max) ∷ []))
            d.name)
      else ok tt

  -- `validate` of a value of the right type.
  unfoldable pub validate_typed : DatapointDescriptor → DatapointValue → Status
  unfolding validate_number as_number
  validate_typed d (of_text s) =
      if ltb string_max (byte_size s)
      then err (
          validation_error ErrorCode.value_too_long
            (concat (
              d.name
              ∷ ": "
              ∷ decimal (byte_size s)
              ∷ " bytes exceed the device limit of "
              ∷ decimal string_max
              ∷ []))
            d.name)
      else ok tt
  validate_typed d value = if not (numeric d) then ok tt else validate_number d (as_number value)

  unfoldable pub validate : DatapointDescriptor → DatapointValue → Status
  unfolding validate_typed
  validate d value =
      if not (variant_index value == value_index_for d.type)
      then err (type_mismatch d (join "value type does not match " (type_text d.type)))
      else validate_typed d value

  plain_text : DatapointDescriptor → DatapointValue → String
  plain_text d (of_bool b) = if b then "true" else "false"
  plain_text d (of_text s) = s
  plain_text d (of_u64 n) = print_u64 n
  plain_text d (of_f32 bits) =
      f.fixed (elim d.metadata.decimals [ none ↦ 3 | some k ↦ k ]) (f.of_bits (f.widen bits))
  plain_text d (of_u8 n) = decimal n
  plain_text d (of_u16 n) = decimal n
  plain_text d (of_u32 n) = decimal n
  plain_text d (of_i8 z) = to_string_int z
  plain_text d (of_i16 z) = to_string_int z
  plain_text d (of_i32 z) = to_string_int z

  unfoldable pub to_display_string : DatapointDescriptor → DatapointValue → String
  unfolding plain_text
  to_display_string d value =
      if is_empty d.metadata.unit
      then plain_text d value
      else concat (plain_text d value ∷ " " ∷ d.metadata.unit ∷ [])
