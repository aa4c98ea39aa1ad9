-- ===== src/Codec/Limits.antt =====
-- The answers of `validate` of src/datapoints/codec.cpp.
use fountainer_client_framew.Common.{
  ◌<◌, ◌≤◌, ◌≡◌, ◌≢◌, ◌⊎◌, refl, inl, inr, arith, Bool, true, false, not, ◌&&◌, ◌==◌, ltb, ltb→lt,
  ltb→ge, Bool-cases, String, if◌then◌else◌,
}
use fountainer_client_framew.Error.{ErrorCode, ok, err, Status, validation_error, make_error}
use fountainer_client_framew.Session.Sender.{byte_size}
use fountainer_client_framew.Datapoint.{
  DatapointDescriptor, numeric, DatapointValue, of_bool, of_u8, of_u16, of_u32, of_u64, of_i8,
  of_i16, of_i32, of_f32, of_text, variant_index, value_index_for,
}
use fountainer_client_framew.Codec.{
  Floats, string_max, type_mismatch, bound, as_number, validate_number, validate_typed, validate,
}

module _ {V : Type 0} (f : Floats V) where
  -- Below the minimum, or above the maximum, where the descriptor has one.
  abbrev pub IsOutside : DatapointDescriptor → V → Type 0
  IsOutside d number =
      ((f.is_nan (bound f d.min) ≡ false) × (f.lt number (bound f d.min) ≡ true))
      ⊎ ((f.is_nan (bound f d.max) ≡ false) × (f.lt (bound f d.max) number ≡ true))

  -- Where a bound is a number, the value is on its right side.
  abbrev pub IsInside : DatapointDescriptor → V → Type 0
  IsInside d number =
      ((f.is_nan (bound f d.min) ≡ true) ⊎ (f.lt number (bound f d.min) ≡ false))
      × ((f.is_nan (bound f d.max) ≡ true) ⊎ (f.lt (bound f d.max) number ≡ false))

  -- What an answer on a number says: it is inside the bounds or the type has none, or the error is
  -- that it is outside.
  abbrev pub Numbered : DatapointDescriptor → V → Status → Type 0
  Numbered d number (ok _) = (numeric d ≡ false) ⊎ IsInside d number
  Numbered d number (err e) =
      (e.code ≡ ErrorCode.out_of_range) × (numeric d ≡ true) × IsOutside d number

  -- What an answer on a text says of its bytes.
  abbrev pub Measured : String → Status → Type 0
  Measured s (ok _) = byte_size s ≤ string_max
  Measured s (err e) = (e.code ≡ ErrorCode.value_too_long) × (string_max < byte_size s)

  -- What an answer says of a value of the right type.
  abbrev pub Answers : DatapointDescriptor → DatapointValue → Status → Type 0
  Answers d (of_text s) = Measured s
  Answers d value = Numbered d (as_number f value)

  -- What an answer says of any value.
  abbrev pub Verdict : DatapointDescriptor → DatapointValue → Status → Type 0
  Verdict d value (ok u) = (variant_index value ≡ value_index_for d.type) × Answers d value (ok u)
  Verdict d value (err e) =
      ((e.code ≡ ErrorCode.type_mismatch) × (variant_index value ≢ value_index_for d.type))
      ⊎ ((variant_index value ≡ value_index_for d.type) × Answers d value (err e))

  code-validation_error :
      (code : ErrorCode) (message name : String) → (validation_error code message name).code ≡ code
  unfolding validation_error make_error
  code-validation_error code message name = ground arith

  abbrev Judged : DatapointDescriptor → V → Status → Type 0
  Judged d number (ok _) = IsInside d number
  Judged d number (err e) = (e.code ≡ ErrorCode.out_of_range) × IsOutside d number

  and-cases :
      (a b : Bool)
      → ((not a && b ≡ true) × (a ≡ false) × (b ≡ true))
        ⊎ ((not a && b ≡ false) × ((a ≡ true) ⊎ (b ≡ false)))
  and-cases true b = inr (refl, inl refl)
  and-cases false true = inl (refl, refl, refl)
  and-cases false false = inr (refl, inr refl)

  validate_number-Judged :
      (d : DatapointDescriptor) (number : V) → Judged d number (validate_number f d number)
  unfolding validate_number
  validate_number-Judged d number =
      elim (and-cases (f.is_nan (bound f d.min)) (f.lt number (bound f d.min))) [
        | inl (low, bounded, below) ↦
            rw low (code-validation_error ErrorCode.out_of_range _ d.name, inl (bounded, below))
        | inr (not_low, above) ↦
            elim (and-cases (f.is_nan (bound f d.max)) (f.lt (bound f d.max) number)) [
              | inl (high, bounded, over) ↦
                  rw (not_low, high)
                    (code-validation_error ErrorCode.out_of_range _ d.name, inr (bounded, over))
              | inr (not_high, under) ↦ rw (not_low, not_high) (above, under)
            ]
      ]

  Judged-Numbered :
      (d : DatapointDescriptor) (number : V) (s : Status)
      → numeric d ≡ true
      → Judged d number s
      → Numbered d number s
  Judged-Numbered d number (ok _) n h = inr h
  Judged-Numbered d number (err e) n h = (h.0, n, h.1)

  numbered_lem :
      (d : DatapointDescriptor) (number : V)
      → Numbered d number (if not (numeric d) then ok tt else validate_number f d number)
  numbered_lem d number = elim (Bool-cases (numeric d)) [
    | inl yes_numeric ↦ rw yes_numeric (
        Judged-Numbered d number (validate_number f d number) yes_numeric
          (validate_number-Judged d number))
    | inr other ↦ rw other (inl other)
  ]

  validate_typed-Answers :
      (d : DatapointDescriptor) (value : DatapointValue)
      → Answers d value (validate_typed f d value)
  unfolding validate_typed as_number
  validate_typed-Answers d (of_text s) = elim (Bool-cases (ltb string_max (byte_size s))) [
    | inl long ↦ rw long (
      code-validation_error ErrorCode.value_too_long _ d.name,
      ltb→lt string_max (byte_size s) long,
    )
    | inr short ↦ rw short (ltb→ge string_max (byte_size s) short)
  ]
  validate_typed-Answers d (of_bool x) = numbered_lem d (as_number f (of_bool x))
  validate_typed-Answers d (of_u8 x) = numbered_lem d (as_number f (of_u8 x))
  validate_typed-Answers d (of_u16 x) = numbered_lem d (as_number f (of_u16 x))
  validate_typed-Answers d (of_u32 x) = numbered_lem d (as_number f (of_u32 x))
  validate_typed-Answers d (of_u64 x) = numbered_lem d (as_number f (of_u64 x))
  validate_typed-Answers d (of_i8 x) = numbered_lem d (as_number f (of_i8 x))
  validate_typed-Answers d (of_i16 x) = numbered_lem d (as_number f (of_i16 x))
  validate_typed-Answers d (of_i32 x) = numbered_lem d (as_number f (of_i32 x))
  validate_typed-Answers d (of_f32 x) = numbered_lem d (as_number f (of_f32 x))

  Answers-Verdict :
      (d : DatapointDescriptor) (value : DatapointValue) (s : Status)
      → variant_index value ≡ value_index_for d.type
      → Answers d value s
      → Verdict d value s
  Answers-Verdict d value (ok u) kind h = (kind, h)
  Answers-Verdict d value (err e) kind h = inr (kind, h)

  -- `validate` refuses a value with `type_mismatch` if it is not of the alternative for the
  -- datapoint's type, else a text with `value_too_long` if it has more than 63 bytes, else a
  -- number with `out_of_range` if the type is numeric and the number is below the minimum or above
  -- the maximum at the precision of a `float`, where these are numbers; it accepts all other values.
  pub validate-Verdict :
      (d : DatapointDescriptor) (value : DatapointValue) → Verdict d value (validate f d value)
  unfolding validate type_mismatch
  validate-Verdict d value = elim (Bool-cases (variant_index value == value_index_for d.type)) [
    | inl same ↦ rw same (
        Answers-Verdict d value (validate_typed f d value) (ground arith)
          (validate_typed-Answers d value))
    | inr other ↦
        rw other (inl (code-validation_error ErrorCode.type_mismatch _ d.name, λ e. ground arith))
  ]
