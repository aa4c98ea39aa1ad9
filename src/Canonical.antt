-- ===== src/Canonical.antt =====
-- src/protocol/canonical.cpp: the serialisation that the device signs.
-- What the source appends to `out`, a function of the model puts in front of the text that follows.
-- The text of a finite double is the parameter `canonical_number`; a double that is not finite, for
-- which the source throws, is no value of the model.
pub mod Strings
pub mod Reader
use fountainer_client_framew.Common.{
  ℕ, suc, Bool, true, false, String, join, decimal, if◌then◌else◌,
}
use fountainer_client_framew.Json.{
  Json, ℤ, pos, negsuc, null, boolean, number_integer, number_unsigned, number_float, text, array,
  object, Items, nil, cons, Fields, end, field,
}
use Strings.{escape_onto, quote}

-- `std::to_string(std::int64_t)`.
unfoldable pub to_string_int : ℤ → String
to_string_int (pos n) = decimal n
to_string_int (negsuc n) = join "-" (decimal (suc n))

-- The comma before every element but the first.
comma : Bool → String → String
comma true rest = rest
comma false rest = join "," rest

-- The key of a member with its quotes and the colon.
key_onto : String → String → String
key_onto k rest = String.◌∷◌ quote (escape_onto k (join "\":" rest))

module _ (canonical_number : ℕ → String) where
  unfoldable mutual
    unfolding to_string_int comma key_onto

    pub serialize_onto : Json → String → String
    serialize_onto null rest = join "null" rest
    serialize_onto (boolean b) rest = join (if b then "true" else "false") rest
    serialize_onto (number_integer n) rest = join (to_string_int n) rest
    serialize_onto (number_unsigned n) rest = join (decimal n) rest
    serialize_onto (number_float bits) rest = join (canonical_number bits) rest
    serialize_onto (text s) rest = String.◌∷◌ quote (escape_onto s (String.◌∷◌ quote rest))
    serialize_onto (array xs) rest = join "[" (serialize_items xs true (join "]" rest))
    serialize_onto (object fs) rest = join "{" (serialize_fields fs true (join "}" rest))

    pub serialize_items : Items → Bool → String → String
    serialize_items nil first rest = rest
    serialize_items (cons x xs) first rest =
        comma first (serialize_onto x (serialize_items xs false rest))

    pub serialize_fields : Fields → Bool → String → String
    serialize_fields end first rest = rest
    serialize_fields (field k v fs) first rest =
        comma first (key_onto k (serialize_onto v (serialize_fields fs false rest)))

  unfoldable pub canonical_serialize : Json → String
  unfolding serialize_onto
  canonical_serialize v = serialize_onto v ""
