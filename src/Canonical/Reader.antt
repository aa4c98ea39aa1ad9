-- ===== src/Canonical/Reader.antt =====
-- An independent reader of JSON string bodies, by the grammar of RFC 8259, and the round trip.
use Prim.Native.Char.{Char, code}
use fountainer_client_framew.Common.{
  ℕ, ◌+◌, ◌*◌, true, false, Option, none, some, String, List, [], ◌∷◌, ◌==◌, if◌then◌else◌,
  hex_value,
}

-- The code that a one-letter escape stands for.
abbrev letter : ℕ → ℕ
letter n =
    if n == b'b'
    then 8
    else if n == b't'
    then 9
    else if n == b'n'
    then 10
    else if n == b'f'
    then 12
    else if n == b'r'
    then 13
    else n

prepend : ℕ → Option (List ℕ × String) → Option (List ℕ × String)
prepend n none = none
prepend n (some (cs, rest)) = some (n ∷ cs, rest)

-- The codes up to the closing quote, and what follows it.
unfoldable mutual
  unfolding prepend

  pub read_body : String → Option (List ℕ × String)
  read_body String.[] = none
  read_body (String.◌∷◌ c s) = elim (code c == b'"') [
    | true ↦ some ([], s)
    | false ↦ elim (code c == 92) [ true ↦ read_escape s | false ↦ prepend (code c) (read_body s) ]
  ]

  pub read_escape : String → Option (List ℕ × String)
  read_escape String.[] = none
  read_escape (String.◌∷◌ c s) = elim (code c == b'u') [
    | true ↦ read_unicode s
    | false ↦ prepend (letter (code c)) (read_body s)
  ]

  pub read_unicode : String → Option (List ℕ × String)
  read_unicode (String.◌∷◌ a (String.◌∷◌ b (String.◌∷◌ c (String.◌∷◌ d s)))) =
      prepend
        (hex_value (code a) * 4096
          + hex_value (code b) * 256
          + hex_value (code c) * 16
          + hex_value (code d))
        (read_body s)
  read_unicode _ = none

abbrev pub codes : String → List ℕ
codes String.[] = []
codes (String.◌∷◌ c s) = code c ∷ codes s
