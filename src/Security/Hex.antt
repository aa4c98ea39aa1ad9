-- ===== src/Security/Hex.antt =====
-- `decode_hex_key` of src/security.cpp.
use Prim.Native.Char.{code}
use fountainer_client_framew.Common.{
  ℕ, ◌+◌, ◌-◌, ◌*◌, ◌%◌, Bool, true, false, not, ◌&&◌, ◌||◌, leb, ◌==◌, Option, none, some, String,
  List, [], ◌∷◌, ◌++◌, length, concat, decimal, if◌then◌else◌,
}
use fountainer_client_framew.Error.{ErrorCode, Result, ok, err, config_error}

-- `std::isspace` in the "C" locale.
unfoldable pub is_space : ℕ → Bool
is_space c = c == 32 || (leb 9 c && leb c 13)

unfoldable pub nibble : ℕ → Option ℕ
nibble c =
    if leb 48 c && leb c 57
    then some (c - 48)
    else if leb 97 c && leb c 102
    then some (c - 97 + 10)
    else if leb 65 c && leb c 70
    then some (c - 65 + 10)
    else none

abbrev pub is_pending : Option ℕ → Bool
is_pending none = false
is_pending (some _) = true

-- The loop and what follows it; `high` is `none` for -1. The low bits of `high << 4` are clear, so
-- that the disjunction with the nibble is a sum.
unfoldable pub decode_onto : String → List ℕ → Option ℕ → Result (List ℕ)
decode_onto String.[] bytes high =
    if is_pending high || not (length bytes == 32)
    then err (
        config_error ErrorCode.missing_credentials (
          concat (
            "hmac key must be exactly 64 hex characters (32 bytes), got "
            ∷ decimal (length bytes)
            ∷ " bytes"
            ∷ [])))
    else ok bytes
decode_onto (String.◌∷◌ c s) bytes high =
    let skip = decode_onto s bytes high in
    if is_space (code c) then skip else elim (nibble (code c)) [
      | none ↦
          err (config_error ErrorCode.missing_credentials "hmac key contains a non-hex character")
      | some n ↦ elim high [
        | none ↦ decode_onto s bytes (some n)
        | some h ↦ decode_onto s (bytes ++ (h * 16 + n) % 256 ∷ []) none
      ]
    ]

unfoldable pub decode_hex_key : String → Result (List ℕ)
unfolding decode_onto is_space nibble
decode_hex_key hex = decode_onto hex [] none
