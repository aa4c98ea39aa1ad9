-- ===== src/Codec/Kinds.antt =====
-- The alternative of the variant that `value_from_json` of src/datapoints/codec.cpp picks.
use fountainer_client_framew.Common.{◌≡◌, refl, ap, ◌∙◌, inl, inr, arith, true, false, Option-cases}
use fountainer_client_framew.Error.{ok, Result-cases}
use fountainer_client_framew.Json.{Json, boolean, text}
use fountainer_client_framew.Datapoint.{
  DatapointType, bool, u8, u16, u32, u64, i8, i16, i32, f32, enum, str, DatapointDescriptor,
  DatapointValue, variant_index, value_index_for,
}
use fountainer_client_framew.Codec.{
  Floats, Target, target, narrow, value_of_number, number_from_json, value_for_type,
  value_from_json, number_of, parse_u64,
}

module _ {V : Type 0} (f : Floats V) where
  -- The number that a target's value is made of lies between its limits.
  pub narrow-made :
      (d : DatapointDescriptor) (t : Target) (number : V) (value : DatapointValue)
      → narrow f d t number ≡ ok value
      → (f.is_finite number ≡ true)
        × (f.lt (f.nearbyint number) (f.of_int t.lowest) ≡ false)
        × (f.lt (f.of_int t.highest) (f.nearbyint number) ≡ false)
        × (value ≡ t.make (f.truncate (f.nearbyint number)))
  unfolding narrow
  narrow-made d t number value e = ground arith

  pub value_of_number-typed :
      (d : DatapointDescriptor) (type : DatapointType) (number : V) (value : DatapointValue)
      → value_of_number f d type (target type) number ≡ ok value
      → variant_index value ≡ value_index_for type
  unfolding value_of_number target variant_index value_index_for
  value_of_number-typed d bool number value e = cc
  value_of_number-typed d str number value e = cc
  value_of_number-typed d u64 number value e = cc
  value_of_number-typed d f32 number value e = ground arith
  value_of_number-typed d u8 number value e = ground arith
  value_of_number-typed d enum number value e = ground arith
  value_of_number-typed d u16 number value e = ground arith
  value_of_number-typed d u32 number value e = ground arith
  value_of_number-typed d i8 number value e = ground arith
  value_of_number-typed d i16 number value e = ground arith
  value_of_number-typed d i32 number value e = ground arith

  number_from_json-typed :
      (d : DatapointDescriptor) (json : Json) (value : DatapointValue)
      → number_from_json f d json ≡ ok value
      → variant_index value ≡ value_index_for d.type
  unfolding number_from_json
  number_from_json-typed d json value e = elim (Option-cases (number_of f json)) [
    | inl none-eq ↦ cc (rw (none-eq, number_from_json) at e)
    | inr (number, found) ↦
        value_of_number-typed d d.type number value (rw (found, number_from_json) at e)
  ]

  value_for_type-typed :
      (d : DatapointDescriptor) (type : DatapointType) (json : Json) (value : DatapointValue)
      → d.type ≡ type
      → value_for_type f d type json ≡ ok value
      → variant_index value ≡ value_index_for type
  unfolding value_for_type variant_index value_index_for
  value_for_type-typed d bool (boolean b) value same e = ground arith
  value_for_type-typed d bool _ value same e = cc
  value_for_type-typed d str (text s) value same e = ground arith
  value_for_type-typed d str _ value same e = cc
  value_for_type-typed d u64 (text s) value same e = elim (Result-cases (parse_u64 d s)) [
    | inl (n, good) ↦ let k = rw (good, value_for_type) at e in ground arith
    | inr (x, bad) ↦ cc (rw (bad, value_for_type) at e)
  ]
  value_for_type-typed d u64 _ value same e = cc
  value_for_type-typed d u8 json value same e =
      number_from_json-typed d json value e ∙ ap value_index_for same
  value_for_type-typed d enum json value same e =
      number_from_json-typed d json value e ∙ ap value_index_for same
  value_for_type-typed d u16 json value same e =
      number_from_json-typed d json value e ∙ ap value_index_for same
  value_for_type-typed d u32 json value same e =
      number_from_json-typed d json value e ∙ ap value_index_for same
  value_for_type-typed d i8 json value same e =
      number_from_json-typed d json value e ∙ ap value_index_for same
  value_for_type-typed d i16 json value same e =
      number_from_json-typed d json value e ∙ ap value_index_for same
  value_for_type-typed d i32 json value same e =
      number_from_json-typed d json value e ∙ ap value_index_for same
  value_for_type-typed d f32 json value same e =
      number_from_json-typed d json value e ∙ ap value_index_for same

  -- A value that is read from JSON is of the alternative that the datapoint's type prescribes.
  pub value_from_json-typed :
      (d : DatapointDescriptor) (json : Json) (value : DatapointValue)
      → value_from_json f d json ≡ ok value
      → variant_index value ≡ value_index_for d.type
  unfolding value_from_json
  value_from_json-typed d json value e = value_for_type-typed d d.type json value refl e
