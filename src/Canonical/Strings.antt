-- ===== src/Canonical/Strings.antt =====
-- `escape_json_string` of src/protocol/canonical.cpp, character by character. A character above 127 is
-- several bytes, each of which the source copies; all bytes that it escapes are ASCII.
use Prim.Native.Char.{Char, code}
use fountainer_client_framew.Common.{ℕ, ◌/◌, ◌%◌, String, ◌==◌, ltb, hex_digit, if◌then◌else◌}

abbrev pub quote : Char
quote = "\""

abbrev pub short : Char → String → String
short c rest = String.◌∷◌ "\\" (String.◌∷◌ c rest)

-- `\u%04x` of a byte below 0x20.
abbrev pub unicode : ℕ → String → String
unicode n rest = short "u" (
    String.◌∷◌ "0"
      (String.◌∷◌ "0" (String.◌∷◌ (hex_digit (n / 16)) (String.◌∷◌ (hex_digit (n % 16)) rest))))

unfoldable pub escape_char : Char → String → String
escape_char c rest =
    if code c == b'"'
    then short "\"" rest
    else if code c == 92
    then short "\\" rest
    else if code c == 8
    then short "b" rest
    else if code c == 9
    then short "t" rest
    else if code c == 10
    then short "n" rest
    else if code c == 12
    then short "f" rest
    else if code c == 13
    then short "r" rest
    else if ltb (code c) 32
    then unicode (code c) rest
    else String.◌∷◌ c rest

-- The escaped text followed by `rest`.
unfoldable pub escape_onto : String → String → String
unfolding escape_char
escape_onto String.[] rest = rest
escape_onto (String.◌∷◌ c s) rest = escape_char c (escape_onto s rest)

unfoldable pub escape_json_string : String → String
unfolding escape_onto
escape_json_string s = escape_onto s ""
