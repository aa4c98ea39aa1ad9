-- ===== src/Codec/Ranges.antt =====
-- The widths of the values that `value_from_json` of src/datapoints/codec.cpp reads.
use fountainer_client_framew.Common.{
  ℕ, ◌<◌, ◌≤◌, ◌≡◌, sym, subst, inl, inr, arith, Bool, true, false, ltb, some, Option-cases, String,
  u64_mod,
}
use fountainer_client_framew.Error.{ok, Result-cases}
use fountainer_client_framew.Json.{Json, ℤ, pos, negsuc, boolean, text}
use fountainer_client_framew.Datapoint.{
  DatapointType, bool, u8, u16, u32, u64, i8, i16, i32, f32, enum, str, DatapointDescriptor,
  DatapointValue, of_bool, of_u8, of_u16, of_u32, of_u64, of_i8, of_i16, of_i32, of_f32, of_text,
}
use fountainer_client_framew.Codec.{
  Floats, Target, target, narrow, value_of_number, number_from_json, value_for_type,
  value_from_json, number_of, parse_u64, magnitude, unsigned_target, signed_target,
}
use fountainer_client_framew.Codec.Wide.{c_str, strtoull}
use fountainer_client_framew.Codec.Kinds.{narrow-made}

abbrev pub lt_ℤ : ℤ → ℤ → Bool
lt_ℤ (pos a) (pos b) = ltb a b
lt_ℤ (pos a) (negsuc b) = false
lt_ℤ (negsuc a) (pos b) = true
lt_ℤ (negsuc a) (negsuc b) = ltb b a

-- The integers that the limits of the types reach.
abbrev pub IsSmall : ℤ → Type 0
IsSmall (pos n) = n < 4294967296
IsSmall (negsuc n) = n < 2147483648

-- What IEEE 754 says of doubles that are small integers, and of the cast to an integer type of a
-- rounded value between two of them.
pub record IeeeLaws {V : Type 0} (f : Floats V) : Type 0 where
  pub exact :
      (n : ℤ)
      → IsSmall n
      → (f.is_finite (f.of_int n) ≡ true)
        × (f.nearbyint (f.of_int n) ≡ f.of_int n)
        × (f.truncate (f.of_int n) ≡ n)
  pub lt_int : (m n : ℤ) → IsSmall m → IsSmall n → f.lt (f.of_int m) (f.of_int n) ≡ lt_ℤ m n
  pub between :
      (x : V) (lo hi : ℤ)
      → IsSmall lo
      → IsSmall hi
      → f.is_finite x ≡ true
      → f.lt (f.nearbyint x) (f.of_int lo) ≡ false
      → f.lt (f.of_int hi) (f.nearbyint x) ≡ false
      → (lt_ℤ (f.truncate (f.nearbyint x)) lo ≡ false)
        × (lt_ℤ hi (f.truncate (f.nearbyint x)) ≡ false)
  pub to_float-widen :
      (bits : ℕ)
      → f.is_finite (f.of_bits (f.widen bits)) ≡ true
      → f.to_float (f.of_bits (f.widen bits)) ≡ bits

-- A signed value with the magnitude of a type whose greatest value is `k`.
abbrev pub IsWithin : ℕ → ℤ → Type 0
IsWithin k (pos n) = n ≤ k
IsWithin k (negsuc n) = n ≤ k

abbrev pub InRange : DatapointValue → Type 0
InRange (of_bool _) = Unit
InRange (of_u8 n) = n < 256
InRange (of_u16 n) = n < 65536
InRange (of_u32 n) = n < 4294967296
InRange (of_u64 n) = n < u64_mod
InRange (of_i8 z) = IsWithin 127 z
InRange (of_i16 z) = IsWithin 32767 z
InRange (of_i32 z) = IsWithin 2147483647 z
InRange (of_f32 _) = Unit
InRange (of_text _) = Unit

lt_ℤ-unsigned : (z : ℤ) (k : ℕ) → lt_ℤ z (pos 0) ≡ false → lt_ℤ (pos k) z ≡ false → magnitude z ≤ k
lt_ℤ-unsigned (pos n) k a b = ground arith
lt_ℤ-unsigned (negsuc n) k a b = cc

lt_ℤ-signed : (z : ℤ) (k : ℕ) → lt_ℤ z (negsuc k) ≡ false → lt_ℤ (pos k) z ≡ false → IsWithin k z
lt_ℤ-signed (pos n) k a b = ground arith
lt_ℤ-signed (negsuc n) k a b = ground arith

strtoull-lt :
    (s : String) (n : ℕ) (out : Bool) (rest : String)
    → strtoull s ≡ some (n, out, rest)
    → n < u64_mod
unfolding strtoull
strtoull-lt s n out rest e = ground arith

parse_u64-lt : (d : DatapointDescriptor) (s : String) (n : ℕ) → parse_u64 d s ≡ ok n → n < u64_mod
unfolding parse_u64
parse_u64-lt d s n e = elim (Option-cases (strtoull (c_str s))) [
  | inl none-eq ↦ cc (rw (none-eq, parse_u64) at e)
  | inr ((m, out, rest), found) ↦
      let k = rw (found, parse_u64) at e in ground (arith, strtoull-lt (c_str s) m out rest)
]

module _ {V : Type 0} (f : Floats V) (laws : IeeeLaws f) where
  -- What `narrow` makes for a target between small limits.
  narrow-between :
      (d : DatapointDescriptor) (t : Target) (number : V) (value : DatapointValue)
      → IsSmall t.lowest
      → IsSmall t.highest
      → narrow f d t number ≡ ok value
      → (z : ℤ) × (value ≡ t.make z) × (lt_ℤ z t.lowest ≡ false) × (lt_ℤ t.highest z ≡ false)
  narrow-between d t number value lo hi e =
      let m = narrow-made f d t number value e in
      let b = laws.between number t.lowest t.highest lo hi m.0 m.1 m.2 in
      (f.truncate (f.nearbyint number), m.3, b.0, b.1)

  narrow-unsigned :
      (d : DatapointDescriptor) (k : ℕ) (make : ℕ → DatapointValue) (number : V)
      (value : DatapointValue)
      → k < 4294967296
      → narrow f d (unsigned_target k make) number ≡ ok value
      → (n : ℕ) × (value ≡ make n) × (n ≤ k)
  narrow-unsigned d k make number value small e =
      let (z, p, lo, hi) =
        narrow-between d (unsigned_target k make) number value (omega arith) small e in
      (magnitude z, p, lt_ℤ-unsigned z k lo hi)

  narrow-signed :
      (d : DatapointDescriptor) (k : ℕ) (make : ℤ → DatapointValue) (number : V)
      (value : DatapointValue)
      → k < 2147483648
      → narrow f d (signed_target k make) number ≡ ok value
      → (z : ℤ) × (value ≡ make z) × IsWithin k z
  narrow-signed d k make number value small e =
      let (z, p, lo, hi) =
        narrow-between d (signed_target k make) number value small (omega arith) e in
      (z, p, lt_ℤ-signed z k lo hi)

  value_of_number-InRange :
      (d : DatapointDescriptor) (type : DatapointType) (number : V) (value : DatapointValue)
      → value_of_number f d type (target type) number ≡ ok value
      → InRange value
  unfolding value_of_number target
  value_of_number-InRange d bool number value e = cc
  value_of_number-InRange d str number value e = cc
  value_of_number-InRange d u64 number value e = cc
  value_of_number-InRange d f32 number value e =
      let p : of_f32 (f.to_float number) ≡ value = cc e in subst InRange p tt
  value_of_number-InRange d u8 number value e =
      let (n, p, h) = narrow-unsigned d 255 of_u8 number value (omega arith) e in
      subst InRange (sym p) (omega arith)
  value_of_number-InRange d enum number value e =
      let (n, p, h) = narrow-unsigned d 255 of_u8 number value (omega arith) e in
      subst InRange (sym p) (omega arith)
  value_of_number-InRange d u16 number value e =
      let (n, p, h) = narrow-unsigned d 65535 of_u16 number value (omega arith) e in
      subst InRange (sym p) (omega arith)
  value_of_number-InRange d u32 number value e =
      let (n, p, h) = narrow-unsigned d 4294967295 of_u32 number value (omega arith) e in
      subst InRange (sym p) (omega arith)
  value_of_number-InRange d i8 number value e =
      let (z, p, h) = narrow-signed d 127 of_i8 number value (omega arith) e in
      subst InRange (sym p) h
  value_of_number-InRange d i16 number value e =
      let (z, p, h) = narrow-signed d 32767 of_i16 number value (omega arith) e in
      subst InRange (sym p) h
  value_of_number-InRange d i32 number value e =
      let (z, p, h) = narrow-signed d 2147483647 of_i32 number value (omega arith) e in
      subst InRange (sym p) h

  number_from_json-InRange :
      (d : DatapointDescriptor) (json : Json) (value : DatapointValue)
      → number_from_json f d json ≡ ok value
      → InRange value
  unfolding number_from_json
  number_from_json-InRange d json value e = elim (Option-cases (number_of f json)) [
    | inl none-eq ↦ cc (rw (none-eq, number_from_json) at e)
    | inr (number, found) ↦
        value_of_number-InRange d d.type number value (rw (found, number_from_json) at e)
  ]

  value_for_type-InRange :
      (d : DatapointDescriptor) (type : DatapointType) (json : Json) (value : DatapointValue)
      → value_for_type f d type json ≡ ok value
      → InRange value
  unfolding value_for_type
  value_for_type-InRange d bool (boolean b) value e =
      let p : of_bool b ≡ value = cc e in subst InRange p tt
  value_for_type-InRange d bool _ value e = cc
  value_for_type-InRange d str (text s) value e =
      let p : of_text s ≡ value = cc e in subst InRange p tt
  value_for_type-InRange d str _ value e = cc
  value_for_type-InRange d u64 (text s) value e = elim (Result-cases (parse_u64 d s)) [
    | inl (n, good) ↦
        let p : of_u64 n ≡ value = cc (rw (good, value_for_type) at e) in
        subst InRange p (parse_u64-lt d s n good)
    | inr (x, bad) ↦ cc (rw (bad, value_for_type) at e)
  ]
  value_for_type-InRange d u64 _ value e = cc
  value_for_type-InRange d u8 json value e = number_from_json-InRange d json value e
  value_for_type-InRange d enum json value e = number_from_json-InRange d json value e
  value_for_type-InRange d u16 json value e = number_from_json-InRange d json value e
  value_for_type-InRange d u32 json value e = number_from_json-InRange d json value e
  value_for_type-InRange d i8 json value e = number_from_json-InRange d json value e
  value_for_type-InRange d i16 json value e = number_from_json-InRange d json value e
  value_for_type-InRange d i32 json value e = number_from_json-InRange d json value e
  value_for_type-InRange d f32 json value e = number_from_json-InRange d json value e

  -- A value that is read from JSON fits the width of its C++ type.
  pub value_from_json-InRange :
      (d : DatapointDescriptor) (json : Json) (value : DatapointValue)
      → value_from_json f d json ≡ ok value
      → InRange value
  unfolding value_from_json
  value_from_json-InRange d json value e = value_for_type-InRange d d.type json value e
