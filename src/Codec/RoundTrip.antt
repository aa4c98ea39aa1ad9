-- ===== src/Codec/RoundTrip.antt =====
-- `value_from_json` of src/datapoints/codec.cpp reads what `value_to_json` writes.
use fountainer_client_framew.Common.{
  ℕ, ◌+◌, ◌<◌, ◌≡◌, refl, sym, ap, subst, ◌∙◌, arith, true, false, some, u64_mod,
}
use fountainer_client_framew.Error.{ok}
use fountainer_client_framew.Json.{
  Json, ℤ, pos, negsuc, boolean, text, number_integer, number_unsigned, number_float,
}
use fountainer_client_framew.Datapoint.{
  DatapointType, bool, u8, u16, u32, u64, i8, i16, i32, f32, enum, str, DatapointDescriptor,
  DatapointValue, of_bool, of_u8, of_u16, of_u32, of_u64, of_i8, of_i16, of_i32, of_f32, of_text,
  variant_index, value_index_for,
}
use fountainer_client_framew.Codec.{
  Floats, Target, target, narrow, value_of_number, number_from_json, value_for_type,
  value_from_json, number_of, parse_u64, to_json_for, typed_to_json, value_to_json, unsigned_target,
  signed_target,
}
use fountainer_client_framew.Codec.Digits.{strtoull-print_u64}
use fountainer_client_framew.Codec.Wide.{print_u64}
use fountainer_client_framew.Codec.Ranges.{IsWithin, IeeeLaws, IsSmall, InRange, lt_ℤ}

parse_u64-print_u64 :
    (d : DatapointDescriptor) (n : ℕ) → n < u64_mod → parse_u64 d (print_u64 n) ≡ ok n
unfolding parse_u64
parse_u64-print_u64 d n h = rw (strtoull-print_u64 n h, parse_u64) refl

module _ {V : Type 0} (f : Floats V) (laws : IeeeLaws f) where
  abbrev pub IsFinite : DatapointValue → Type 0
  IsFinite (of_f32 bits) = f.is_finite (f.of_bits (f.widen bits)) ≡ true
  IsFinite _ = Unit

  -- A small integer within the limits of a target goes through `narrow` as it is.
  narrow-exact :
      (d : DatapointDescriptor) (t : Target) (z : ℤ)
      → IsSmall t.lowest
      → IsSmall t.highest
      → IsSmall z
      → lt_ℤ z t.lowest ≡ false
      → lt_ℤ t.highest z ≡ false
      → narrow f d t (f.of_int z) ≡ ok (t.make z)
  unfolding narrow
  narrow-exact d t z small_lo small_hi small lo hi =
      let e = laws.exact z small in
      let p = laws.lt_int z t.lowest small small_lo ∙ lo in
      let q = laws.lt_int t.highest z small_hi small ∙ hi in rw (e.0, e.1, p, q, e.2) refl

  number_from_json-exact :
      (d : DatapointDescriptor) (type : DatapointType) (t : Target) (json : Json) (z : ℤ)
      → d.type ≡ type
      → target type ≡ some t
      → number_of f json ≡ some (f.of_int z)
      → IsSmall t.lowest
      → IsSmall t.highest
      → IsSmall z
      → lt_ℤ z t.lowest ≡ false
      → lt_ℤ t.highest z ≡ false
      → number_from_json f d json ≡ ok (t.make z)
  unfolding number_from_json value_of_number
  number_from_json-exact d type t json z same found number small_lo small_hi small lo hi =
      rw (number, number_from_json, ap target same ∙ found)
        (narrow-exact d t z small_lo small_hi small lo hi)

  -- The value that the JSON of a value is read as.
  Returns : DatapointDescriptor → DatapointType → DatapointValue → Type 0
  Returns d type value =
      (json : Json) × (to_json_for f type value ≡ some json)
      × (value_for_type f d type json ≡ ok value)

  unsigned-Returns :
      (d : DatapointDescriptor) (type : DatapointType) (k n : ℕ) (make : ℕ → DatapointValue)
      (json : Json)
      → d.type ≡ type
      → target type ≡ some (unsigned_target k make)
      → number_of f json ≡ some (f.of_int (pos n))
      → k < 4294967296
      → n < k + 1
      → number_from_json f d json ≡ ok (make n)
  unsigned-Returns d type k n make json same found number small h =
      number_from_json-exact d type (unsigned_target k make) json (pos n) same found number
        (omega arith) small (omega arith) (ground arith) (ground arith)

  signed-Returns :
      (d : DatapointDescriptor) (type : DatapointType) (k : ℕ) (z : ℤ) (make : ℤ → DatapointValue)
      (json : Json)
      → d.type ≡ type
      → target type ≡ some (signed_target k make)
      → number_of f json ≡ some (f.of_int z)
      → k < 2147483648
      → IsWithin k z
      → number_from_json f d json ≡ ok (make z)
  signed-Returns d type k (pos n) make json same found number small h =
      number_from_json-exact d type (signed_target k make) json (pos n) same found number small
        (omega arith) (omega arith) (ground arith) (ground arith)
  signed-Returns d type k (negsuc n) make json same found number small h =
      number_from_json-exact d type (signed_target k make) json (negsuc n) same found number small
        (omega arith) (omega arith) (ground arith) (ground arith)

  float-Returns :
      (d : DatapointDescriptor) (bits : ℕ)
      → d.type ≡ f32
      → f.is_finite (f.of_bits (f.widen bits)) ≡ true
      → number_from_json f d (number_float (f.widen bits)) ≡ ok (of_f32 bits)
  unfolding number_from_json number_of value_of_number target
  float-Returns d bits same fin =
      let number = f.of_bits (f.widen bits) in
      subst (λ type. value_of_number f d type (target type) number ≡ ok (of_f32 bits)) (sym same)
        (ap (λ b. ok (of_f32 b)) (laws.to_float-widen bits fin))

  typed-Returns :
      (d : DatapointDescriptor) (type : DatapointType) (value : DatapointValue)
      → d.type ≡ type
      → variant_index value ≡ value_index_for type
      → InRange value
      → IsFinite value
      → Returns d type value
  unfolding Returns to_json_for typed_to_json value_for_type variant_index value_index_for number_of
      target
  typed-Returns d bool (of_bool b) same kind h fin = (boolean b, refl, refl)
  typed-Returns d bool _ same kind h fin = absurd (omega arith)
  typed-Returns d str (of_text s) same kind h fin = (text s, refl, refl)
  typed-Returns d str _ same kind h fin = absurd (omega arith)
  typed-Returns d u64 (of_u64 n) same kind h fin =
      (text (print_u64 n), refl, rw (parse_u64-print_u64 d n h, value_for_type) refl)
  typed-Returns d u64 _ same kind h fin = absurd (omega arith)
  typed-Returns d u8 (of_u8 n) same kind h fin = (
    number_integer (pos n),
    refl,
    unsigned-Returns d u8 255 n of_u8 (number_integer (pos n)) same refl refl (omega arith)
        (omega arith),
  )
  typed-Returns d u8 _ same kind h fin = absurd (omega arith)
  typed-Returns d enum (of_u8 n) same kind h fin = (
    number_integer (pos n),
    refl,
    unsigned-Returns d enum 255 n of_u8 (number_integer (pos n)) same refl refl (omega arith)
        (omega arith),
  )
  typed-Returns d enum _ same kind h fin = absurd (omega arith)
  typed-Returns d u16 (of_u16 n) same kind h fin = (
    number_unsigned n,
    refl,
    unsigned-Returns d u16 65535 n of_u16 (number_unsigned n) same refl refl (omega arith)
        (omega arith),
  )
  typed-Returns d u16 _ same kind h fin = absurd (omega arith)
  typed-Returns d u32 (of_u32 n) same kind h fin = (
    number_unsigned n,
    refl,
    unsigned-Returns d u32 4294967295 n of_u32 (number_unsigned n) same refl refl (omega arith)
        (omega arith),
  )
  typed-Returns d u32 _ same kind h fin = absurd (omega arith)
  typed-Returns d i8 (of_i8 z) same kind h fin = (
    number_integer z,
    refl,
    signed-Returns d i8 127 z of_i8 (number_integer z) same refl refl (omega arith) h,
  )
  typed-Returns d i8 _ same kind h fin = absurd (omega arith)
  typed-Returns d i16 (of_i16 z) same kind h fin = (
    number_integer z,
    refl,
    signed-Returns d i16 32767 z of_i16 (number_integer z) same refl refl (omega arith) h,
  )
  typed-Returns d i16 _ same kind h fin = absurd (omega arith)
  typed-Returns d i32 (of_i32 z) same kind h fin = (
    number_integer z,
    refl,
    signed-Returns d i32 2147483647 z of_i32 (number_integer z) same refl refl (omega arith) h,
  )
  typed-Returns d i32 _ same kind h fin = absurd (omega arith)
  typed-Returns d f32 (of_f32 bits) same kind h fin =
      (number_float (f.widen bits), refl, float-Returns d bits same fin)
  typed-Returns d f32 _ same kind h fin = absurd (omega arith)

  -- A value of the datapoint's type, in the range of its C++ type and finite, is written to a JSON
  -- value, which is read as that value.
  pub value_from_json-value_to_json :
      (d : DatapointDescriptor) (value : DatapointValue)
      → variant_index value ≡ value_index_for d.type
      → InRange value
      → IsFinite value
      → (json : Json) × (value_to_json f d value ≡ some json)
        × (value_from_json f d json ≡ ok value)
  unfolding value_to_json value_from_json Returns
  value_from_json-value_to_json d value kind h fin = typed-Returns d d.type value refl kind h fin
