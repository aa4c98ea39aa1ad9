-- ===== src/Codec/Wide.antt =====
-- The texts of 64-bit values in src/datapoints/codec.cpp: `%016llX`, and `strtoull` with base 16 as the
-- C standard defines it.
use Prim.Native.Char.{Char, code}
use fountainer_client_framew.Common.{
  ℕ, zero, suc, ◌+◌, ◌-◌, ◌*◌, ◌/◌, ◌%◌, Bool, true, false, not, ◌||◌, ◌==◌, leb, Option, none,
  some, String, letter_at, u64_mod, if◌then◌else◌,
}
use fountainer_client_framew.Security.Hex.{is_space, nibble}

abbrev pub upper_digit : ℕ → Char
upper_digit = letter_at "0123456789ABCDEF"

-- The low `k` digits of a number in front of a text.
unfoldable pub digits_onto : ℕ → ℕ → String → String
digits_onto zero n s = s
digits_onto (suc k) n s = digits_onto k (n / 16) (String.◌∷◌ (upper_digit (n % 16)) s)

-- `%016llX` of a value below 2 ^ 64.
unfoldable pub print_u64 : ℕ → String
unfolding digits_onto
print_u64 n = digits_onto 16 n ""

-- What a C function sees of a text: the part in front of the first NUL.
unfoldable pub c_str : String → String
c_str String.[] = ""
c_str (String.◌∷◌ c s) = if code c == 0 then "" else String.◌∷◌ c (c_str s)

unfoldable pub skip_spaces : String → String
skip_spaces String.[] = ""
skip_spaces (String.◌∷◌ c s) =
    let rest = skip_spaces s in if is_space (code c) then rest else String.◌∷◌ c s

abbrev pub minus : ℕ
minus = 45

abbrev pub plus : ℕ
plus = 43

-- An optional sign, and whether it was a minus.
unfoldable pub after_sign : String → Bool × String
after_sign String.[] = (false, "")
after_sign (String.◌∷◌ c s) =
    if code c == minus
    then (true, s)
    else if code c == plus
    then (false, s)
    else (false, String.◌∷◌ c s)

unfoldable pub starts_with_digit : String → Bool
unfolding nibble
starts_with_digit String.[] = false
starts_with_digit (String.◌∷◌ c s) = elim (nibble (code c)) [ none ↦ false | some n ↦ true ]

-- Without an "0x" or "0X" that a digit follows.
unfoldable pub after_prefix : String → String
unfolding starts_with_digit
after_prefix (String.◌∷◌ a (String.◌∷◌ x s)) =
    if code a == 48
    then if (code x == 120 || code x == 88)
      then if starts_with_digit s then s else String.◌∷◌ a (String.◌∷◌ x s)
      else String.◌∷◌ a (String.◌∷◌ x s)
    else String.◌∷◌ a (String.◌∷◌ x s)
after_prefix s = s

-- The digits as far as they go, and what follows them.
unfoldable pub read_digits : ℕ → String → ℕ × String
unfolding nibble
read_digits n String.[] = (n, "")
read_digits n (String.◌∷◌ c s) = elim (nibble (code c)) [
  | none ↦ (n, String.◌∷◌ c s)
  | some d ↦ read_digits (n * 16 + d) s
]

-- The value, whether it is out of range, and what `end` points to; `none` where nothing is converted.
unfoldable pub strtoull : String → Option (ℕ × Bool × String)
strtoull text =
    let (negative, s) = after_sign (skip_spaces text) in
    let t = after_prefix s in
    if not (starts_with_digit t)
    then none
    else (let (n, rest) = read_digits 0 t in
        some (
          (
            if leb u64_mod n then u64_mod - 1 else if negative then (u64_mod - n) % u64_mod else n,
            leb u64_mod n,
            rest,
          )))
