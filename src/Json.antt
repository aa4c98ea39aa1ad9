-- ===== src/Json.antt =====
-- The JSON values of nlohmann::json that the client exchanges with the device: one constructor for
-- each `value_t` that the code reads. Objects hold their members in the order of the keys.
pub mod Members
use fountainer_client_framew.Common.{
  ℕ, ◌-◌, Bool, Option, none, some, String, same_text, text_lt, ltb, u64_mod, if◌then◌else◌,
}

-- A negative or non-negative integer, `number_integer`; `negsuc n` is -(n + 1).
pub data ℤ : Type 0 where
  pos : ℕ → ℤ
  negsuc : ℕ → ℤ

-- A `number_float` is the 64-bit pattern of its double, which is finite, as in every parsed text.
mutual
  pub data Json : Type 0 where
    null : Json
    boolean : Bool → Json
    number_integer : ℤ → Json
    number_unsigned : ℕ → Json
    number_float : ℕ → Json
    text : String → Json
    array : Items → Json
    object : Fields → Json

  pub data Items : Type 0 where
    nil : Items
    cons : Json → Items → Items

  pub data Fields : Type 0 where
    end : Fields
    field : String → Json → Fields → Fields

unfoldable pub find_field : String → Fields → Option Json
find_field k end = none
find_field k (field j v fs) = if same_text k j then some v else find_field k fs

-- `message.find(key)`; on a value that is no object nothing is found.
unfoldable pub find : Json → String → Option Json
unfolding find_field
find (object fs) k = find_field k fs
find _ k = none

-- `message[key] = value` on the members of an object.
unfoldable pub set_field : String → Json → Fields → Fields
set_field k v end = field k v end
set_field k v (field j w fs) =
    if same_text k j
    then field k v fs
    else if text_lt k j
    then field k v (field j w fs)
    else field j w (set_field k v fs)

-- `get<std::int64_t>()` of an unsigned value keeps its bits.
abbrev pub as_int64 : ℕ → ℤ
as_int64 n = if ltb n 9223372036854775808 then pos n else negsuc (u64_mod - n - 1)

-- `message.value(key, std::string{})` of an object: `none` is the exception that the library throws
-- where the member is there and is no text.
text_or_throw : Option Json → Option String
text_or_throw none = some ""
text_or_throw (some (text s)) = some s
text_or_throw (some _) = none

unfoldable pub value_text : Json → String → Option String
unfolding text_or_throw find
value_text message key = text_or_throw (find message key)
