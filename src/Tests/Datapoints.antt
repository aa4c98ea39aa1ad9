-- ===== src/Tests/Datapoints.antt =====
-- The catalog and the codec on concrete names, constants and values. The doubles are stood for by
-- integers.
use fountainer_client_framew.Common.{◌≡◌, refl, arith, true, ◌==◌, none, some}
use fountainer_client_framew.Error.{ok}
use fountainer_client_framew.Json.{Json, ℤ, pos, negsuc, number_integer, text}
use fountainer_client_framew.Datapoint.{
  DatapointDescriptor, of_u64, of_i8, read_only, status, variant_index, value_index_for, described,
  presented, u64, i8, static, volatile, on_connect, read_write,
}
use fountainer_client_framew.Catalog.{find, at, constants, make_value, names_with_access}
use fountainer_client_framew.Catalog.Typed.{typed, as_u64, alternative, datapoint_value_type}
use fountainer_client_framew.Catalog.Lookup.{find_iff, holds, names_with_iff}
use fountainer_client_framew.Catalog.Agreement.{
  constant-make_value, alternative-datapoint_value_type,
}
use fountainer_client_framew.Codec.{
  Floats, value_from_json, value_to_json, validate, parse_u64, magnitude,
}
use fountainer_client_framew.Security.Hex.{is_space}
use fountainer_client_framew.Codec.Wide.{
  print_u64, strtoull, skip_spaces, after_sign, after_prefix, starts_with_digit, read_digits, c_str,
}
use fountainer_client_framew.Codec.Ranges.{IeeeLaws, InRange, lt_ℤ, value_from_json-InRange}
use fountainer_client_framew.Codec.Kinds.{value_from_json-typed}
use fountainer_client_framew.Codec.RoundTrip.{value_from_json-value_to_json}
use fountainer_client_framew.Codec.Limits.{Verdict, validate-Verdict}

abbrev pub numbers : Floats ℤ
numbers = record {
  of_int = λ z. z;
  of_bits = λ n. pos n;
  to_float = magnitude;
  widen = λ n. n;
  is_finite = λ z. true;
  is_nan = λ z. magnitude z == 0x7ff8000000000000;
  nearbyint = λ z. z;
  lt = lt_ℤ;
  truncate = λ z. z;
  print = λ z. "";
  fixed = λ k z. "";
  same_float = λ a b. a == b;
}

numbers_laws : IeeeLaws numbers
numbers_laws = record {
  exact = λ n h. (refl, refl, refl);
  lt_int = λ m n hm hn. refl;
  between = λ x lo hi hl hh fin a b. (a, b);
  to_float-widen = λ bits fin. refl;
}

abbrev serial_number : DatapointDescriptor
serial_number =
    described 0 "Device_Serial_Number" u64 read_only static 0 0 0x7ff8000000000000
      0x7ff8000000000000 (presented "" none 0 "" "") on_connect

serial_read : value_from_json numbers serial_number (text "0xff") ≡ ok (of_u64 255)
unfolding value_from_json parse_u64 strtoull skip_spaces after_sign after_prefix starts_with_digit
    read_digits c_str is_space
serial_read = refl

serial_shown :
    value_to_json numbers serial_number (of_u64 0x1c0c01fa82a) ≡ some (text "000001C0C01FA82A")
unfolding value_to_json print_u64
serial_shown = refl

find-iff_example : find "Device_Serial_Number" ≡ some serial_number
unfolding at
find-iff_example = (find_iff "Device_Serial_Number" serial_number).1 (refl, refl)

names_with-iff_example : holds "Device_Serial_Number" (names_with_access read_only) ≡ true
unfolding find
names_with-iff_example =
    (names_with_iff "Device_Serial_Number" read_only static on_connect).0.1
      (serial_number, refl, refl)

constant-make_value_example :
    (d : DatapointDescriptor) × (at 0 ≡ some d)
    × (find "Device_Serial_Number" ≡ some d)
    × (d.access ≡ read_only)
    × (d.persistence ≡ static)
    × (make_value d (of_u64 7) ≡ ok (of_u64 7))
unfolding constants variant_index alternative
constant-make_value_example =
    constant-make_value 0 (typed as_u64 read_only static 0 "Device_Serial_Number") (of_u64 7) refl
      refl

alternative-datapoint_value_type_example :
    alternative (datapoint_value_type u64) ≡ value_index_for u64
alternative-datapoint_value_type_example = alternative-datapoint_value_type u64

value_from_json-typed_example : variant_index (of_u64 255) ≡ value_index_for u64
value_from_json-typed_example =
    value_from_json-typed numbers serial_number (text "0xff") (of_u64 255) serial_read

abbrev speed : DatapointDescriptor
speed = described 1 "Speed" i8 read_write volatile 0 0 0 100 (presented "" none 0 "" "") status

speed_read : value_from_json numbers speed (number_integer (negsuc 127)) ≡ ok (of_i8 (negsuc 127))
unfolding value_from_json
speed_read = refl

-- A minus sign is no error: the value is taken modulo 2 ^ 64.
negative_read : value_from_json numbers serial_number (text "-1") ≡ ok (of_u64 0xffffffffffffffff)
unfolding value_from_json parse_u64 strtoull skip_spaces after_sign after_prefix starts_with_digit
    read_digits c_str is_space
negative_read = refl

value_from_json-InRange_example : InRange (of_i8 (negsuc 127))
value_from_json-InRange_example =
    value_from_json-InRange numbers numbers_laws speed (number_integer (negsuc 127))
      (of_i8 (negsuc 127)) speed_read

value_from_json-value_to_json_example :
    (json : Json) × (value_to_json numbers serial_number (of_u64 0x1c0c01fa82a) ≡ some json)
    × (value_from_json numbers serial_number json ≡ ok (of_u64 0x1c0c01fa82a))
unfolding variant_index value_index_for
value_from_json-value_to_json_example =
    value_from_json-value_to_json numbers numbers_laws serial_number (of_u64 0x1c0c01fa82a) refl
      (omega arith) tt

validate-Verdict_example :
    Verdict numbers speed (of_i8 (pos 101)) (validate numbers speed (of_i8 (pos 101)))
validate-Verdict_example = validate-Verdict numbers speed (of_i8 (pos 101))
